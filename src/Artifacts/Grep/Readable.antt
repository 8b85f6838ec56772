-- ===== src/Artifacts/Grep/Readable.antt =====
-- `_grep_document` and `_resolve_path`: a match is found again at its path.
use dota_mind.Prelude.{
  ℕ, zero, suc, ◌≤◌, ◌≡◌, refl, sym, subst, inl, inr, not, is_some, ◌&&◌, ◌||◌, String,
  if◌then◌else◌, none, some, Option-cases, List, [], ◌∷◌, take, drop, All, All-drop, ok, Bool-cases,
}
use dota_mind.Json.{Value}
use dota_mind.Artifacts.Grep.{
  Stream, returned, raised, yields, Node, ArtifactGrepMatch, ArtifactGrepResult, member_matches,
  is_scalar, find, scalar_text, value_type, preview, found_in, items_text, match_of, matching_nodes,
  document_nodes, grep_document,
}
use dota_mind.Artifacts.Grep.Paging.{yielded}
use dota_mind.Artifacts.Grep.Keys.{DistinctKeys}
use dota_mind.Artifacts.Grep.Locates.{Located, document_nodes-IsLocated}
use dota_mind.Artifacts.Grep.Resume.{all_matches, grep_document-IsPage}

-- The preview of a value.
abbrev pub preview_of : (String → String) → String → Value → String
preview_of casefold pattern v =
    if is_scalar v
    then preview (scalar_text v) (found_in (find pattern (casefold (scalar_text v))))
    else items_text v

-- A match shows the value at its path: the document itself at the empty path, and what a read
-- resolves at any other.
abbrev pub Readable : (String → String) → String → String → Value → ArtifactGrepMatch → Type 0
Readable casefold ref pattern payload m =
    (v : Value) × Located payload m.path v
    × (m.ref ≡ ref)
    × (m.value_type ≡ value_type v)
    × (m.preview ≡ preview_of casefold pattern v)

All-take {ℓ κ} : {A : Type ℓ} (P : A → Type κ) (n : ℕ) (xs : List A) → All P xs → All P (take n xs)
All-take P zero xs h = tt
All-take P (suc n) [] h = tt
All-take P (suc n) (x ∷ xs) h = (h.0, All-take P n xs h.1)

module _ (casefold : String → String) (ref : String) (payload : Value) (pattern : String) where
  match_of-Readable :
      (node : Node) {m : ArtifactGrepMatch}
      → Located payload node.path node.value
      → match_of casefold ref pattern node ≡ some m
      → Readable casefold ref pattern payload m
  unfolding match_of
  match_of-Readable node {m} h e =
      let test =
        not (member_matches casefold pattern node.member)
        && (not (is_scalar node.value)
            || not (is_some (find pattern (casefold (scalar_text node.value))))) in
      elim (Bool-cases test) [
        | inl t ↦ cc (rw t at e)
        | inr t ↦
            let at : m.path ≡ node.path = cc (rw t at e) in
            let source : m.ref ≡ ref = cc (rw t at e) in
            let kind : m.value_type ≡ value_type node.value = cc (rw t at e) in
            let shown : m.preview ≡ preview_of casefold pattern node.value = cc (rw t at e) in
            (
              node.value,
              subst (λ path. Located payload path node.value) (sym at) h,
              source,
              kind,
              shown,
            )
      ]

  matching_nodes-Readable :
      (s : Stream Node)
      → All (λ node. Located payload node.path node.value) (yielded s)
      → All
          (Readable casefold ref pattern payload)
          (yielded (matching_nodes casefold ref pattern s))
  unfolding matching_nodes
  matching_nodes-Readable returned h = tt
  matching_nodes-Readable raised h = tt
  matching_nodes-Readable (yields node rest) h =
      elim (Option-cases (match_of casefold ref pattern node)) [
        | inl e ↦ rw e (matching_nodes-Readable rest h.1)
        | inr (m, e) ↦ rw e (match_of-Readable node h.0 e, matching_nodes-Readable rest h.1)
      ]

  -- Each match of a search with a positive limit, in a document whose objects have distinct keys,
  -- shows the value at its path, with its type and its preview: the document itself where the path is
  -- empty, and otherwise what a read of that path resolves.
  pub grep_document-Readable :
      (limit offset max_bytes : ℕ) {r : ArtifactGrepResult}
      → DistinctKeys payload
      → 1 ≤ limit
      → grep_document casefold ref payload pattern limit offset max_bytes ≡ ok r
      → All (Readable casefold ref pattern payload) r.matches
  grep_document-Readable limit offset max_bytes {r} distinct positive h =
      let located = document_nodes-IsLocated payload payload "" none distinct (inl (refl, refl)) in
      let all = all_matches casefold ref payload pattern in
      let found = matching_nodes-Readable (document_nodes payload "" none) located in
      let page =
        grep_document-IsPage casefold ref payload pattern limit offset max_bytes positive h in
      subst (All (Readable casefold ref pattern payload)) (sym page.0) (
        All-take (Readable casefold ref pattern payload) r.returned (drop offset all)
          (All-drop (Readable casefold ref pattern payload) offset all found))
