-- ===== src/Homepage/Decoded.antt =====
-- `_decode_entry` of a hash that stands for an entry.
use dota_mind.Prelude.{
  ℕ, ◌≡◌, refl, ap, sym, ◌∙◌, inl, inr, true, String, str_eq, eq_iff, contains, Option, none, some,
  [], ◌∷◌, ok, arith, Bool-cases,
}
use dota_mind.Prelude.Dict.{Dict, lookup}
use dota_mind.Homepage.Model.{RecentSeriesSnapshot, RecentSeriesCacheEntry}
use dota_mind.Homepage.Redis.{
  Codec, cache_fields, error_codes, decode_entry, error_of, read_if_there,
}
use dota_mind.Homepage.Refines.{Represents, text_of}
use dota_mind.Homepage.Stored.{Proper, Apart, fields_of-Proper}

Apart-empty : (hash : Dict String) → Apart [] hash
unfolding lookup
Apart-empty [] = tt
Apart-empty ((key, value) ∷ rest) = (refl, Apart-empty rest)

-- A known key is one of four.
abbrev manual_key : String
manual_key = "manual_refresh_available_at"

only_manual :
    (key value : String) (rest : Dict String)
    → contains cache_fields key ≡ true
    → lookup "snapshot" ((key, value) ∷ rest) ≡ none
    → lookup "last_attempt_at" ((key, value) ∷ rest) ≡ none
    → lookup "last_error" ((key, value) ∷ rest) ≡ none
    → str_eq key manual_key ≡ true
unfolding lookup
only_manual key value rest known s a e = ground (
  arith,
  known,
  s,
  a,
  e,
  eq_iff key "snapshot",
  eq_iff "snapshot" key,
  eq_iff key "last_attempt_at",
  eq_iff "last_attempt_at" key,
  eq_iff key "last_error",
  eq_iff "last_error" key,
  eq_iff key manual_key,
  eq_iff manual_key key,
)

nothing_there : (key : String) → lookup {V = String} key [] ≡ none
unfolding lookup
nothing_there key = refl

head_there :
    (key other value : String) (rest : Dict String)
    → str_eq other key ≡ true
    → lookup key ((other, value) ∷ rest) ≡ some value
unfolding lookup
head_there key other value rest e = rw e refl

lookup_tail :
    (key other value : String) (rest : Dict String)
    → lookup key ((other, value) ∷ rest) ≡ none
    → lookup key rest ≡ none
unfolding lookup
lookup_tail key other value rest h = elim (Bool-cases (str_eq other key)) [
  | inl e ↦ cc (rw e at h)
  | inr e ↦ rw e at h
]

-- A proper hash without an attempt, an error and a snapshot has one key at most.
one_key :
    (key value : String) (rest : Dict String)
    → Proper ((key, value) ∷ rest)
    → lookup "snapshot" ((key, value) ∷ rest) ≡ none
    → lookup "last_attempt_at" ((key, value) ∷ rest) ≡ none
    → lookup "last_error" ((key, value) ∷ rest) ≡ none
    → rest ≡ []
unfolding lookup
one_key key value [] proper s a e = refl
one_key key value ((k, v) ∷ rest) proper s a e =
    let first : key ≡ manual_key =
      (eq_iff key manual_key).0 (only_manual key value ((k, v) ∷ rest) proper.1 s a e) in
    let second : k ≡ manual_key = (eq_iff k manual_key).0 (
      only_manual k v rest proper.2.1 (lookup_tail "snapshot" key value ((k, v) ∷ rest) s)
        (lookup_tail "last_attempt_at" key value ((k, v) ∷ rest) a)
        (lookup_tail "last_error" key value ((k, v) ∷ rest) e)) in
    let same : str_eq k key ≡ true = (eq_iff k key).1 (second ∙ sym first) in
    cc (rw same at proper.0)

-- The text of a snapshot is read back as the snapshot.
abbrev pub ReadsBack : Codec → Option RecentSeriesSnapshot → Type 0
ReadsBack codec none = Unit
ReadsBack codec (some s) = codec.validate_snapshot (codec.dump_snapshot s) ≡ some s

module _ (codec : Codec)
    (reads : (at : ℕ) → codec.fromisoformat (codec.isoformat at) ≡ some at) where
  read_snapshot :
      (s : Option RecentSeriesSnapshot)
      → ReadsBack codec s
      → read_if_there codec.validate_snapshot (text_of codec.dump_snapshot s) ≡ ok s
  read_snapshot none back = refl
  read_snapshot (some s) back = rw back refl

  read_time : (m : Option ℕ) → read_if_there codec.fromisoformat (text_of codec.isoformat m) ≡ ok m
  read_time none = refl
  read_time (some at) = rw (reads at) refl

  abbrev made :
      Option RecentSeriesSnapshot → Option ℕ → Option String → Option ℕ → RecentSeriesCacheEntry
  made s a e m = record {
    snapshot = s;
    last_attempt_at = a;
    last_error = e;
    manual_refresh_available_at = m;
  }

  error_of_code : (code : String) → contains error_codes code ≡ true → error_of code ≡ some code
  error_of_code code known = elim (Bool-cases (str_eq code "")) [
    | inl q ↦
        let empty : code ≡ "" = (eq_iff code "").0 q in
        let none_known : contains error_codes "" ≡ true =
          ap (contains error_codes) (sym empty) ∙ known in
        cc none_known
    | inr q ↦ rw q refl
  ]

  pub decode_entry-made :
      (hash : Dict String) (s : Option RecentSeriesSnapshot) (a : Option ℕ) (e : Option String)
      (m : Option ℕ)
      → ReadsBack codec s
      → Represents codec hash (made s a e m)
      → decode_entry codec hash ≡ ok (made s a e m)
  unfolding decode_entry
  decode_entry-made [] s (some t) e m back (p, hs, ha, he, hm, c) =
      cc (nothing_there "last_attempt_at", ha)
  decode_entry-made [] s none e (some t) back (p, hs, ha, he, hm, c) =
      cc (nothing_there manual_key, hm)
  decode_entry-made [] s none e none back (p, hs, ha, he, hm, c) = rw (c.0, c.1) refl
  decode_entry-made (item ∷ hash) s (some t) none m back (p, hs, ha, he, hm, c) =
      rw
        (
          fields_of-Proper [] (item ∷ hash) p (Apart-empty (item ∷ hash)),
          ha,
          he,
          hs,
          hm,
          read_snapshot s back,
          reads t,
          read_time m,
        )
        refl
  decode_entry-made (item ∷ hash) s (some t) (some code) m back (p, hs, ha, he, hm, c) =
      rw
        (
          fields_of-Proper [] (item ∷ hash) p (Apart-empty (item ∷ hash)),
          ha,
          he,
          hs,
          hm,
          read_snapshot s back,
          reads t,
          read_time m,
          error_of_code code c,
          c,
        )
        refl
  decode_entry-made ((key, value) ∷ hash) s none e none back (p, hs, ha, he, hm, c) =
      let first = only_manual key value hash p.1 (rw c.0 at hs) ha he in
      cc (head_there manual_key key value hash first, hm)
  decode_entry-made ((key, value) ∷ hash) s none e (some t) back (p, hs, ha, he, hm, c) =
      let single : hash ≡ [] = one_key key value hash p (rw c.0 at hs) ha he in
      rw
        (
          fields_of-Proper [] ((key, value) ∷ hash) p (Apart-empty ((key, value) ∷ hash)),
          ha,
          hm,
          reads t,
        )
        (rw (single, c.0, c.1) refl)
