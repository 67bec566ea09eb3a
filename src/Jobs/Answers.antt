-- ===== src/Jobs/Answers.antt =====
-- What `EnqueueWith` of internal/core/jobs/postgres/repository.go answers with.
use family_tree_app.Prelude.{
  ◌≡◌, refl, ap, sym, ◌∙◌, inl, inr, Bool, true, some, List, [], ◌∷◌, Text, trim_space, text_eq-eq,
  ◌==◌, any, select, In, In-select, ok, Bool-cases, Option-cases, arith,
}
use family_tree_app.Jobs.Queue.{Job, EnqueueRequest, text_is}
use family_tree_app.Jobs.Enqueue.{enqueue_with, queued_job, same_key, stored_key, first_of_list}

first-of : (js : List Job) {j : Job} → first_of_list js ≡ some j → In j js
unfolding first_of_list
first-of [] h = cc
first-of (x ∷ js) {j} h = let same : j ≡ x = ground (arith, h) in inl same

-- The row that has the key of a request.
same_key-found :
    (request : EnqueueRequest) (j : Job)
    → same_key request j ≡ true
    → (j.kind ≡ trim_space request.kind)
      × (j.deduplication_key ≡ stored_key request.deduplication_key)
unfolding same_key text_is
same_key-found request j h = elim (Option-cases (stored_key request.deduplication_key)) [
  | inl missing ↦ absurd (ground (arith, h, missing))
  | inr (key, stored) ↦ elim (Option-cases j.deduplication_key) [
    | inl bare ↦ absurd (ground (arith, h, stored, bare))
    | inr (own, kept) ↦
        let same : own ≡ key = text_eq-eq own key (ground (arith, h, stored, kept)) in
        (
          text_eq-eq j.kind (trim_space request.kind) (ground (arith, h, stored)),
          kept ∙ ap (λ (t : Text). some t) same ∙ sym stored,
        )
  ]
]

-- What a call of `EnqueueWith` answers with: a job of the table, of the kind, the key and the payload of the request.
pub record IsAnswer (canonical_json : Text → Text) (request : EnqueueRequest) (js out : List Job)
    (j : Job) : Type 0 where
  pub listed : In j out
  pub kind : j.kind ≡ trim_space request.kind
  pub key : j.deduplication_key ≡ stored_key request.deduplication_key
  pub payload : canonical_json j.payload ≡ canonical_json request.payload
  pub attempts : j.max_attempts ≡ request.max_attempts
  pub kept : (k : Job) → In k js → In k out

pub enqueue_with-IsAnswer :
    (json_valid : Text → Bool) (canonical_json : Text → Text) (request : EnqueueRequest)
    (js out : List Job) (j : Job) (created : Bool)
    → enqueue_with json_valid canonical_json request js ≡ ok (j, created, out)
    → IsAnswer canonical_json request js out j
unfolding enqueue_with queued_job
enqueue_with-IsAnswer json_valid canonical_json request js out j created h =
    elim (Option-cases (first_of_list (select (same_key request) js))) [
      | inl e ↦ elim (Bool-cases (any (λ k. k.id == request.id) js)) [
        | inl taken ↦ absurd (ground (arith, h, e, taken))
        | inr free ↦
            let made : j ≡ queued_job request = ground (arith, h, e, free) in
            let rows : out ≡ queued_job request ∷ js = ground (arith, h, e, free) in
            rw (made, rows)
              (record {
                listed = inl refl;
                kind = refl;
                key = refl;
                payload = refl;
                attempts = refl;
                kept = λ k i. inr i;
              })
      ]
      | inr (k, e) ↦
          let made : j ≡ k = ground (arith, h, e) in
          let rows : out ≡ js = ground (arith, h, e) in
          let (i, found) = In-select k (same_key request) js (first-of _ e) in
          let (kind, key) = same_key-found request k found in
          rw (made, rows)
            (record {
              listed = i;
              kind = kind;
              key = key;
              payload = text_eq-eq _ _ (ground (arith, h, e));
              attempts = ground (arith, h, e);
              kept = λ x at. at;
            })
    ]
