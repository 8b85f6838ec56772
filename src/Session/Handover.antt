-- ===== src/Session/Handover.antt =====
-- From a prepared compaction to its commit.
use dota_mind.Prelude.{
  ◌-◌, ltb, inl, inr, ltb→lt, Bool-cases, if◌then◌else◌, ℕ, zero, suc, ◌<◌, ◌≡◌, refl, subst, ap,
  ◌∙◌, true, false, String, eq_iff, eq_refl, is_blank, Option, none, some, is_some, List, [], ◌∷◌,
  length, get_elem?, ok, is_ok, arith,
}
use dota_mind.Prelude.Int.{pos}
use dota_mind.Prelude.Dict.{Dict, lookup}
use dota_mind.Protocol.{Message}
use dota_mind.Compaction.{CompactionPreparation, prepare_compaction, validate_compaction_cut}
use dota_mind.Compaction.Prepare.{prepare_compaction-Prepared, validate_compaction_cut_positive}
use dota_mind.Session.Model.{History}
use dota_mind.Session.Requests.{
  query_of, preserves_at, preserves_current_user, is_current, context_snapshot,
}
use dota_mind.Session.Commit.{validated_current_user, user_at, check_commit, commit_compaction}
use dota_mind.Session.Invariant.{IsValid, CurrentUser}

get_elem?-lt {ℓ} :
    {A : Type ℓ} (xs : List A) (i : ℕ) {x : A} → get_elem? xs i ≡ some x → i < length xs
get_elem?-lt [] i h = cc
get_elem?-lt (x ∷ xs) zero h = omega arith
get_elem?-lt (x ∷ xs) (suc i) h = omega (arith, get_elem?-lt xs i h)

-- With a valid current user the check of the current user message passes.
user_at-current :
    (o : Option ℕ) (id : Option String) (queries : Dict String) (messages : List Message)
    → CurrentUser o id queries messages
    → is_some id ≡ true
    → (index : ℕ) × (content : String) × (o ≡ some index)
      × (preserves_at o (query_of id queries) messages messages ≡ true)
      × (user_at o messages ≡ ok (index, content))
user_at-current none none queries messages c h = cc
user_at-current none (some id) queries messages c h = absurd c
user_at-current (some i) none queries messages c h = absurd c
user_at-current (some i) (some id) queries messages (query, known, at) h = (
  i,
  query,
  refl,
  rw (known, at) (ground (arith, get_elem?-lt messages i at, eq_refl query)),
  rw at,
)

is_current-some : (o : Option String) (id : String) → is_current o id ≡ true → o ≡ some id
is_current-some none id h = cc
is_current-some (some current) id h = ground (arith, eq_iff id current)

known-current :
    (o : Option ℕ) (id : String) (queries : Dict String) (messages : List Message)
    → CurrentUser o (some id) queries messages
    → is_some (lookup id queries) ≡ true
known-current none id queries messages c = absurd c
known-current (some i) id queries messages (query, known, at) = rw known

validated_current_user-ok :
    (h : History) {index : ℕ} {content : String}
    → preserves_current_user h h.effective_messages ≡ true
    → user_at h.current_user_index h.effective_messages ≡ ok (index, content)
    → validated_current_user h ≡ ok (index, content)
unfolding validated_current_user
validated_current_user-ok h p e = rw p e

check_commit-ok :
    (id : String) (summary : String) (cut : ℕ) (h : History) {index : ℕ} {content : String}
    → h.initialized ≡ true
    → is_some (lookup id h.request_queries) ≡ true
    → is_current h.current_request_id id ≡ true
    → is_blank summary ≡ false
    → validated_current_user h ≡ ok (index, content)
    → validate_compaction_cut h.effective_messages (pos cut) ≡ ok tt
    → 0 < cut
    → (index < cut → 1 < cut)
    → check_commit id h.revision summary cut h ≡ ok (index, content)
unfolding check_commit
check_commit-ok id summary cut h {index} started known active filled located boundary filled_cut
      more =
    let enough : ltb (cut - (if ltb index cut then 1 else 0)) 1 ≡ false =
      elim (Bool-cases (ltb index cut)) [
        | inl e ↦ rw e (let many = more (ltb→lt index cut e) in ground (arith, many))
        | inr e ↦ rw e (ground (arith, filled_cut))
      ] in
    ground (arith, enough)

commit_compaction-checked :
    (id : String) (base : ℕ) (summary : String) (cut : ℕ) (hex : String) (now : ℕ) (h : History)
    {index : ℕ} {content : String}
    → check_commit id base summary cut h ≡ ok (index, content)
    → is_ok (commit_compaction id base summary cut hex now h).0 ≡ true
unfolding commit_compaction
commit_compaction-checked id base summary cut hex now h e = ground arith

-- In a valid session a compaction that was prepared on a snapshot can be committed as long as the
-- revision is the snapshot's: for the current request, with a summary that is not blank, and where,
-- if the current user message is cut off, another message is cut off with it, `commit_compaction`
-- returns.
pub commit_compaction-prepared :
    (id : String) (summary hex : String) (recent bytes_per_token now : ℕ) (h : History)
    {p : CompactionPreparation}
    → IsValid h
    → prepare_compaction (context_snapshot h).messages recent bytes_per_token ≡ ok (some p)
    → is_current h.current_request_id id ≡ true
    → is_blank summary ≡ false
    → ((index : ℕ) → h.current_user_index ≡ some index → index < p.cut_index → 1 < p.cut_index)
    → is_ok (commit_compaction id (context_snapshot h).revision summary p.cut_index hex now h).0
      ≡ true
unfolding context_snapshot preserves_current_user
commit_compaction-prepared id summary hex recent b now h {p} v prepared active filled more =
    let id_current = is_current-some h.current_request_id id active in
    let (index, content, at, preserved, found) =
      user_at-current h.current_user_index h.current_request_id h.request_queries
        h.effective_messages v.current (rw id_current) in
    let known = known-current h.current_user_index id h.request_queries h.effective_messages (
      subst (λ o. CurrentUser h.current_user_index o h.request_queries h.effective_messages)
        id_current v.current) in
    let (_, _, boundary, _) = prepare_compaction-Prepared h.effective_messages recent b prepared in
    let started : h.initialized ≡ true = v.started ∙ ap is_some id_current in
    let located = validated_current_user-ok h preserved found in
    commit_compaction-checked id h.revision summary p.cut_index hex now h (
      check_commit-ok id summary p.cut_index h started known active filled located boundary
        (validate_compaction_cut_positive h.effective_messages p.cut_index boundary)
        (more index at))
