-- ===== src/Jobs/Endings.antt =====
-- What a call of the queue comes to: an enqueued job is found again, a final row stays, and a failure is
-- final at the last attempt.
use family_tree_app.Prelude.{
  ℕ, ◌≤◌, ◌≡◌, ◌≢◌, ◌<◌, ◌⊎◌, ◌∙◌, zero, suc, ap, sym, refl, leb, take, text_eq-eq, [], inl, inr,
  Bool, true, false, none, some, List, ◌∷◌, Text, trim_space, text_eq_refl, In, Bool-cases,
  Option-cases, subst, ok, arith, if◌then◌else◌, ◌==◌, ==_iff, length, ◌↔◌, any, In-any, select,
  update_first, Updated, update_first-Updated,
}
use family_tree_app.Jobs.Queue.{
  Job, EnqueueRequest, FailureResult, claim_row, is_exhausted, is_claimable, candidate, is_held,
  fail, record_failure, truncate, max_stored_error_runes, text_is, dead, failed, is_after, Status,
}
use family_tree_app.Jobs.Enqueue.{enqueue_with, queued_job, same_key, first_of_list, stored_key}
use family_tree_app.Jobs.Claims.{IsFirst, candidate-IsFirst}
use family_tree_app.Jobs.Soundness.{IsSound, IsQueue, UniqueIds-eq, is_final}

-- Rows that a change passes over stay.
pub passed_over :
    (p : Job → Bool) (f : Job → Job) (jobs : List Job) {y : Job} {jobs' : List Job} (j : Job)
    → update_first p f jobs ≡ some (y, jobs')
    → In j jobs
    → p j ≡ false
    → In j jobs'
passed_over p f jobs j found i fails =
    let u : Updated p f jobs _ _ = update_first-Updated p f jobs found in
    elim (u.kept j i) [ inl k ↦ k | inr same ↦ cc (subst (λ z. p z ≡ false) same fails, u.passes) ]

pub final_not_held :
    (id : ℕ) (worker : Text) (now : ℕ) (j : Job)
    → is_final j.status ≡ true
    → is_held id worker now j ≡ false
unfolding is_held
final_not_held id worker now j h = ground arith

pub claim_row-final :
    (worker : Text) (expires now : ℕ) (jobs : List Job) (j : Job)
    → IsQueue jobs
    → In j jobs
    → is_final j.status ≡ true
    → claim_row worker expires now (candidate now jobs) j ≡ j
unfolding claim_row is_exhausted is_claimable
claim_row-final worker expires now jobs j q i h = elim (Option-cases (candidate now jobs)) [
  | inl e ↦ ground (arith, e)
  | inr (c, e) ↦
      let f : IsFirst now jobs c = candidate-IsFirst now jobs e in
      elim (Bool-cases (c.id == j.id)) [
        | inl same ↦
            let at_c : c ≡ j =
              UniqueIds-eq jobs c j q.unique f.listed i ((==_iff c.id j.id).0 same) in
            let ready : is_claimable now j ≡ true =
              subst (λ z. is_claimable now z ≡ true) at_c f.claimable in
            absurd (ground (arith, ready))
        | inr other ↦ ground (arith, e, other)
      ]
]

module _ (json_valid : Text → Bool) (canonical_json : Text → Text) where
  queued_job-IsSound :
      (request : EnqueueRequest) (jobs : List Job) {out : Job × Bool × List Job}
      → enqueue_with json_valid canonical_json request jobs ≡ ok out
      → IsSound (queued_job request)
  unfolding enqueue_with queued_job
  queued_job-IsSound request jobs h = ground arith

  pub enqueue_with-IsQueue :
      (request : EnqueueRequest) (jobs : List Job) {j : Job} {created : Bool} {jobs' : List Job}
      → IsQueue jobs
      → enqueue_with json_valid canonical_json request jobs ≡ ok (j, created, jobs')
      → IsQueue jobs'
  unfolding enqueue_with queued_job
  enqueue_with-IsQueue request jobs {jobs' = jobs'} q h =
      elim (Option-cases (first_of_list (select (same_key request) jobs))) [
        | inr (k, e) ↦ let same : jobs' ≡ jobs = ground (arith, e) in rw same q
        | inl e ↦ elim (Bool-cases (any (λ j. j.id == request.id) jobs)) [
          | inl taken ↦ absurd (ground (arith, e, taken))
          | inr free ↦
              let rows : jobs' ≡ queued_job request ∷ jobs = ground (arith, e, free) in
              rw rows (record {
                sound = λ z i. elim i [
                  | inl at ↦ rw at (queued_job-IsSound request jobs h)
                  | inr k ↦ q.sound z k
                ];
                unique = (
                  (λ k i same. cc (
                    In-any k (λ (z : Job). z.id == request.id) jobs i
                        ((==_iff k.id request.id).1 same),
                    free,
                  )),
                  q.unique,
                );
              })
        ]
      ]

  -- Enqueuing the same request again, under a key, finds the job of the first call and adds none.
  pub enqueue_with_idem :
      (request : EnqueueRequest) (jobs : List Job) {j : Job} {jobs' : List Job}
      → stored_key request.deduplication_key ≢ none
      → enqueue_with json_valid canonical_json request jobs ≡ ok (j, true, jobs')
      → enqueue_with json_valid canonical_json request jobs' ≡ ok (j, false, jobs')
  unfolding enqueue_with queued_job same_key text_is first_of_list select
  enqueue_with_idem request jobs {j} {jobs'} keyed h =
      elim (Option-cases (first_of_list (select (same_key request) jobs))) [
        | inr (k, e) ↦ absurd (ground (arith, e))
        | inl e ↦ elim (Option-cases (stored_key request.deduplication_key)) [
          | inl missing ↦ absurd (keyed missing)
          | inr (key, stored) ↦ ground (
            arith,
            e,
            stored,
            text_eq_refl key,
            text_eq_refl (trim_space request.kind),
            text_eq_refl (canonical_json request.payload),
          )
        ]
      ]

take-short : (limit : ℕ) (value : Text) → length value ≤ limit → take limit value ≡ value
take-short zero [] h = refl
take-short zero (c ∷ s) h = absurd (omega (arith, h))
take-short (suc n) [] h = refl
take-short (suc n) (c ∷ s) h = ap (λ rest. c ∷ rest) (take-short n s (omega (arith, h)))

truncate-eq-take : (value : Text) (limit : ℕ) → truncate value limit ≡ take limit value
unfolding truncate
truncate-eq-take value limit = elim (Bool-cases (leb (length value) limit)) [
  | inl short ↦ rw short (sym (take-short limit value (ground (arith, short))))
  | inr long ↦ rw long refl
]

-- The row of a job that failed: dead where no attempt is left, else to be tried again at the time given. The lease is given
-- up, and the first thousand runes of the trimmed message are stored.
abbrev pub failed_row : Text → ℕ → ℕ → Job → Job
failed_row message available now old =
    let last = leb old.max_attempts old.attempts in
    record old {
      status = if last then dead else failed;
      available_at = if last then old.available_at else available;
      lease_expires_at = none;
      heartbeat_at = none;
      locked_by = none;
      last_error = take 1000 (trim_space message);
      updated_at = now;
      completed_at = if last then some now else none;
    }

-- A failure of the job `old`, which the worker holds under a lease that has not ended.
pub record IsFailure (id : ℕ) (worker message : Text) (available now : ℕ) (jobs : List Job)
    (result : FailureResult) (jobs' : List Job) (old : Job) : Type 0 where
  pub listed : In old jobs
  pub named : old.id ≡ id
  pub running : old.status ≡ Status.running
  pub holder : old.locked_by ≡ some worker
  pub leased : (expires : ℕ) × (old.lease_expires_at ≡ some expires) × (now < expires)
  pub placed : In (failed_row message available now old) jobs'
  pub kept : (j : Job) → In j jobs → In j jobs' ⊎ (j ≡ old)
  pub origin : (j : Job) → In j jobs' → In j jobs ⊎ (j ≡ failed_row message available now old)
  pub final : (result.is_final ≡ true) ↔ (old.max_attempts ≤ old.attempts)
  pub told : result.status ≡ (failed_row message available now old).status
  pub tried : result.available ≡ (failed_row message available now old).available_at

held_by :
    (id : ℕ) (worker : Text) (now : ℕ) (j : Job)
    → is_held id worker now j ≡ true
    → (j.id ≡ id)
      × (j.status ≡ Status.running)
      × (j.locked_by ≡ some worker)
      × ((expires : ℕ) × (j.lease_expires_at ≡ some expires) × (now < expires))
unfolding is_held text_is is_after
held_by id worker now j h = (
  ground (arith, h),
  ground (arith, h),
  elim (Option-cases j.locked_by) [
    | inl free ↦ absurd (ground (arith, h, free))
    | inr (holder, locked) ↦
        locked ∙ ap (λ (t : Text). some t) (text_eq-eq holder worker (ground (arith, h, locked)))
  ],
  elim (Option-cases j.lease_expires_at) [
    | inl never ↦ absurd (ground (arith, h, never))
    | inr (expires, leased) ↦ (expires, leased, ground (arith, h, leased))
  ],
)

record_failure-eq :
    (message : Text) (available now : ℕ) (old : Job)
    → record_failure (truncate (trim_space message) max_stored_error_runes) available now old
      ≡ failed_row message available now old
unfolding record_failure
record_failure-eq message available now old =
    ap (λ stored. record_failure stored available now old)
      (truncate-eq-take (trim_space message) max_stored_error_runes)

-- A failure that is recorded was reported by the worker that holds the job, before its lease ends. The job is dead exactly if it
-- had no attempt left, else it fails and is tried again at the time given; its lease is given up, the first thousand runes of the
-- trimmed message are stored, and no other job changes.
pub fail_outcome :
    (id : ℕ) (worker message : Text) (available now : ℕ) (jobs : List Job) {result : FailureResult}
    {jobs' : List Job}
    → fail id worker message available now jobs ≡ ok (result, jobs')
    → (old : Job) × IsFailure id worker message available now jobs result jobs' old
unfolding fail
fail_outcome id worker message available now jobs {result} {jobs'} h =
    let stored : Text = truncate (trim_space message) max_stored_error_runes in
    let f : Job → Job = record_failure stored available now in
    elim (Option-cases (update_first (is_held id worker now) f jobs)) [
      | inl e ↦ absurd (ground (arith, e))
      | inr ((y, rows), e) ↦
          let same : jobs' ≡ rows = ground (arith, e) in
          let u : Updated (is_held id worker now) f jobs y rows =
            update_first-Updated (is_held id worker now) f jobs e in
          let (named, running, holder, leased) = held_by id worker now u.old u.passes in
          let row = record_failure-eq message available now u.old in
          let made : y ≡ failed_row message available now u.old = u.made ∙ row in
          (
            u.old,
            record {
              listed = u.listed;
              named = named;
              running = running;
              holder = holder;
              leased = leased;
              placed = subst (λ j. In j jobs') made (rw same u.placed);
              kept = λ j i. rw same (u.kept j i);
              origin = λ j i. elim (u.origin j (subst (λ js. In j js) same i)) [
                | inl k ↦ inl k
                | inr at ↦ inr (at ∙ row)
              ];
              final = ((λ t. ground (arith, e, made, t)), (λ t. ground (arith, e, made, t)));
              told = ground (arith, e, made);
              tried = ground (arith, e, made);
            },
          )
    ]
