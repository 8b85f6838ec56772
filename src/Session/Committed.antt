-- ===== src/Session/Committed.antt =====
-- `commit_compaction`: what a successful one went through and leaves.
use dota_mind.Prelude.{
  ℕ, ◌+◌, ◌-◌, ◌≡◌, refl, sym, subst, ap, ◌∙◌, inl, inr, true, false, ltb, String, is_blank, Option,
  none, some, List, [], ◌∷◌, get_elem?, ok, err, arith, Outcome-cases, Bool-cases, if◌then◌else◌,
}
use dota_mind.Prelude.Int.{pos}
use dota_mind.Protocol.{Message}
use dota_mind.Compaction.{validate_compaction_cut}
use dota_mind.Session.Model.{SessionCompactionRecord, History, SessionError}
use dota_mind.Session.Requests.{is_current}
use dota_mind.Session.Commit.{
  validated_current_user, user_at, user_in, check_commit, commit_compaction, committed,
  retained_after, index_after, last_id, compaction_record,
}
use dota_mind.Session.Invariant.{
  IsValid, CurrentUser, Linked-later, Linked-append, or_previous, get_elem?-drop,
}

pub record Checked (id : String) (base : ℕ) (summary : String) (cut : ℕ) (h : History) (index : ℕ)
    (content : String) : Type 0 where
  pub active : is_current h.current_request_id id ≡ true
  pub current_base : base ≡ h.revision
  pub filled : is_blank summary ≡ false
  pub located : validated_current_user h ≡ ok (index, content)
  pub boundary : validate_compaction_cut h.effective_messages (pos cut) ≡ ok tt
  pub nonempty : ltb (cut - (if ltb index cut then 1 else 0)) 1 ≡ false

check_commit-Checked :
    (id : String) (base : ℕ) (summary : String) (cut : ℕ) (h : History) {index : ℕ}
    {content : String}
    → check_commit id base summary cut h ≡ ok (index, content)
    → Checked id base summary cut h index content
unfolding check_commit
check_commit-Checked id base summary cut h {index} {content} q =
    elim (Outcome-cases (validated_current_user h)) [
      | inr (x, e) ↦ ground arith
      | inl ((i, c), e) ↦
          elim (Outcome-cases (validate_compaction_cut h.effective_messages (pos cut))) [
            | inr (x, f) ↦ ground arith
            | inl (_, f) ↦
                let active : is_current h.current_request_id id ≡ true = ground arith in
                let current_base : base ≡ h.revision = ground arith in
                let filled : is_blank summary ≡ false = ground arith in
                let nonempty : ltb (cut - (if ltb i cut then 1 else 0)) 1 ≡ false = ground arith in
                let same : (i, c) ≡ (index, content) = ground arith in
                subst (λ (p : ℕ × String). Checked id base summary cut h p.0 p.1) {x = (i, c)}
                  {y = (index, content)} same
                  (record {
                    active = active;
                    current_base = current_base;
                    filled = filled;
                    located = e;
                    boundary = f;
                    nonempty = nonempty;
                  })
          ]
    ]

user_in-some :
    (i : ℕ) (o : Option Message) {index : ℕ} {content : String}
    → user_in i o ≡ ok (index, content)
    → (i ≡ index) × (o ≡ some (Message.user content))
user_in-some i none h = cc
user_in-some i (some (Message.user c)) h = (ground arith, ground arith)
user_in-some i (some (Message.final c)) h = cc
user_in-some i (some (Message.system c)) h = cc
user_in-some i (some (Message.tool r)) h = cc
user_in-some i (some (Message.assistant c b)) h = cc
user_in-some i (some (Message.rejected c b)) h = cc

user_at-some :
    (o : Option ℕ) (messages : List Message) {index : ℕ} {content : String}
    → user_at o messages ≡ ok (index, content)
    → (o ≡ some index) × (get_elem? messages index ≡ some (Message.user content))
user_at-some none messages h = cc
user_at-some (some i) messages {content} h =
    let (e, at) = user_in-some i (get_elem? messages i) h in
    (ap some e, subst (λ j. get_elem? messages j ≡ some (Message.user content)) e at)

pub located-current :
    (h : History) {index : ℕ} {content : String}
    → validated_current_user h ≡ ok (index, content)
    → (h.current_user_index ≡ some index)
      × (get_elem? h.effective_messages index ≡ some (Message.user content))
unfolding validated_current_user
located-current h e = user_at-some h.current_user_index h.effective_messages (ground arith)

pub commit_compaction-ok :
    (id : String) (base : ℕ) (summary : String) (cut : ℕ) (hex : String) (now : ℕ) (h : History)
    {r : SessionCompactionRecord}
    → (commit_compaction id base summary cut hex now h).0 ≡ ok r
    → (index : ℕ) × (content : String) × Checked id base summary cut h index content
      × (r ≡ compaction_record id base summary cut hex now index h)
      × ((commit_compaction id base summary cut hex now h).1 ≡ committed r index content h)
unfolding commit_compaction
commit_compaction-ok id base summary cut hex now h {r} q =
    elim (Outcome-cases (check_commit id base summary cut h)) [
      | inr (x, e) ↦ ground arith
      | inl ((index, content), e) ↦
          (index, content, check_commit-Checked id base summary cut h e, ground arith, ground arith)
    ]

pub commit_compaction-err :
    (id : String) (base : ℕ) (summary : String) (cut : ℕ) (hex : String) (now : ℕ) (h : History)
    {x : SessionError}
    → (commit_compaction id base summary cut hex now h).0 ≡ err x
    → (commit_compaction id base summary cut hex now h).1 ≡ h
unfolding commit_compaction
commit_compaction-err id base summary cut hex now h q = ground arith

retained-current :
    (index cut : ℕ) (content : String) (id : Option String) (queries : _) (messages : List Message)
    → CurrentUser (some index) id queries messages
    → get_elem? messages index ≡ some (Message.user content)
    → CurrentUser
        (some (index_after index cut))
        id
        queries
        (retained_after index content cut messages)
retained-current index cut content none queries messages c at = absurd c
retained-current index cut content (some id) queries messages (query, known, there) at =
    elim (Bool-cases (ltb index cut)) [
      | inl e ↦ rw e (query, known, cc)
      | inr e ↦
          rw e
            (query, known, get_elem?-drop cut (index - cut) index messages (ground arith) ∙ there)
    ]

last_id-previous : (rs : List SessionCompactionRecord) → last_id rs ≡ or_previous none rs
last_id-previous [] = refl
last_id-previous (r ∷ rs) = refl

committed-IsValid :
    (id : String) (base : ℕ) (summary : String) (cut : ℕ) (hex : String) (now : ℕ) (h : History)
    (index : ℕ) (content : String)
    → Checked id base summary cut h index content
    → IsValid h
    → IsValid (committed (compaction_record id base summary cut hex now index h) index content h)
committed-IsValid id base summary cut hex now h index content k v =
    let (at_index, at) = located-current h k.located in
    record {
      counted = v.counted;
      numbered = v.numbered;
      current =
          retained-current index cut content h.current_request_id h.request_queries
            h.effective_messages
            (subst (λ o. CurrentUser o h.current_request_id h.request_queries h.effective_messages)
              at_index v.current)
            at;
      started = v.started;
      linked =
          Linked-append none (h.revision + 1) h.compaction_records _
            (Linked-later none h.revision (h.revision + 1) h.compaction_records (omega arith)
              v.linked)
            (last_id-previous h.compaction_records) (omega (arith, k.current_base));
      bounded = v.bounded;
    }

pub commit_compaction-IsValid :
    (id : String) (base : ℕ) (summary : String) (cut : ℕ) (hex : String) (now : ℕ) (h : History)
    → IsValid h
    → IsValid (commit_compaction id base summary cut hex now h).1
commit_compaction-IsValid id base summary cut hex now h v =
    elim (Outcome-cases (commit_compaction id base summary cut hex now h).0) [
      | inl (r, q) ↦
          let (index, content, k, made, state) =
            commit_compaction-ok id base summary cut hex now h q in
          subst IsValid (sym state) (
            subst (λ (c : SessionCompactionRecord). IsValid (committed c index content h))
              (sym made) (committed-IsValid id base summary cut hex now h index content k v))
      | inr (x, q) ↦ subst IsValid (sym (commit_compaction-err id base summary cut hex now h q)) v
    ]
