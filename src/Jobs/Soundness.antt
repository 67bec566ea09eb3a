-- ===== src/Jobs/Soundness.antt =====
-- The constraints of the table of jobs, and that every statement keeps them.
use family_tree_app.Prelude.{
  ℕ, ◌+◌, ◌≤◌, ◌<◌, ◌≡◌, ◌≢◌, refl, inl, inr, Bool, true, false, Option, some, List, [], ◌∷◌, map,
  Text, In, In-map, is_some, Bool-cases, Option-cases, ==_iff, ◌==◌, ◌∙◌, ap, trim_space,
  update_first, Updated, update_first-Updated, subst, sym, ok, arith,
}
use family_tree_app.Jobs.Queue.{
  Job, Status, succeeded, dead, is_running, claim, claim_row, bury, start, is_claimable, candidate,
  heartbeat, succeed, fail, is_held, extend_lease, complete, record_failure, truncate,
  max_stored_error_runes, FailureResult,
}
use family_tree_app.Jobs.Claims.{IsFirst, candidate-IsFirst}

abbrev pub is_final : Status → Bool
is_final succeeded = true
is_final dead = true
is_final _ = false

-- A job within its attempts, with a lease and a holder just while it runs, and a completion date
-- just when it is at an end.
pub record IsSound (j : Job) : Type 0 where
  pub limited : j.max_attempts ≤ 100
  pub attempted : j.attempts ≤ j.max_attempts
  pub leased : is_some j.lease_expires_at ≡ is_running j.status
  pub locked : is_some j.locked_by ≡ is_running j.status
  pub beating : is_some j.heartbeat_at ≡ is_running j.status
  pub completed : is_some j.completed_at ≡ is_final j.status
  pub begun : is_running j.status ≡ true → 0 < j.attempts

abbrev pub AllSound : List Job → Type 0
AllSound jobs = (j : Job) → In j jobs → IsSound j

bury-IsSound : (now : ℕ) (j : Job) → IsSound j → IsSound (bury now j)
unfolding bury
bury-IsSound now j s = ground arith

start-IsSound :
    (worker : Text) (expires now : ℕ) (j : Job)
    → is_claimable now j ≡ true
    → IsSound j
    → IsSound (start worker expires now j)
unfolding start is_claimable
start-IsSound worker expires now j c s = ground arith

extend_lease-IsSound :
    (id lease now : ℕ) (worker : Text) (j : Job)
    → is_held id worker now j ≡ true
    → IsSound j
    → IsSound (extend_lease lease now j)
unfolding extend_lease is_held
extend_lease-IsSound id lease now worker j h s = ground arith

complete-IsSound : (now : ℕ) (j : Job) → IsSound j → IsSound (complete now j)
unfolding complete
complete-IsSound now j s = ground arith

record_failure-IsSound :
    (message : Text) (available now : ℕ) (j : Job)
    → IsSound j
    → IsSound (record_failure message available now j)
unfolding record_failure
record_failure-IsSound message available now j s = ground arith

-- No two rows have one identifier.
abbrev pub UniqueIds : List Job → Type 0
UniqueIds [] = Unit
UniqueIds (j ∷ js) = ((k : Job) → In k js → k.id ≢ j.id) × UniqueIds js

pub record IsQueue (jobs : List Job) : Type 0 where
  pub sound : (j : Job) → In j jobs → IsSound j
  pub unique : UniqueIds jobs

pub UniqueIds-eq :
    (jobs : List Job) (j k : Job) → UniqueIds jobs → In j jobs → In k jobs → j.id ≡ k.id → j ≡ k
UniqueIds-eq [] j k u i i' e = absurd i
UniqueIds-eq (x ∷ xs) j k u (inl a) (inl b) e = a ∙ sym b
UniqueIds-eq (x ∷ xs) j k u (inl a) (inr b) e = absurd (u.0 k b (sym e ∙ ap (λ (z : Job). z.id) a))
UniqueIds-eq (x ∷ xs) j k u (inr a) (inl b) e = absurd (u.0 j a (e ∙ ap (λ (z : Job). z.id) b))
UniqueIds-eq (x ∷ xs) j k u (inr a) (inr b) e = UniqueIds-eq xs j k u.1 a b e

module _ (f : Job → Job) (same_id : (j : Job) → (f j).id ≡ j.id) where
  map-UniqueIds : (jobs : List Job) → UniqueIds jobs → UniqueIds (map f jobs)
  map-UniqueIds [] u = tt
  map-UniqueIds (x ∷ xs) u = (
    λ k i e.
        let (j, listed, made) = In-map k f xs i in
        u.0 j listed (sym (same_id j) ∙ ap (λ (z : Job). z.id) (sym made) ∙ e ∙ same_id x),
    map-UniqueIds xs u.1,
  )

  -- A statement that changes rows and no identifiers, each to a sound one, keeps the table.
  map-IsQueue :
      (jobs : List Job)
      → ((j : Job) → In j jobs → IsSound j → IsSound (f j))
      → IsQueue jobs
      → IsQueue (map f jobs)
  map-IsQueue jobs keeps q = record {
    sound = λ j' i.
        let (j, listed, made) = In-map j' f jobs i in
        subst IsSound (sym made) (keeps j listed (q.sound j listed));
    unique = map-UniqueIds jobs q.unique;
  }

  module _ (p : Job → Bool) where
    -- The rows after `update_first` have the identifiers of those before.
    update_first-ids :
        (jobs : List Job) {y : Job} {jobs' : List Job}
        → update_first p f jobs ≡ some (y, jobs')
        → (z : Job) → In z jobs'
        → (w : Job) × In w jobs × (w.id ≡ z.id)
    update_first-ids jobs h z i =
        let u : Updated p f jobs _ _ = update_first-Updated p f jobs h in
        elim (u.origin z i) [
          | inl j ↦ (z, j, refl)
          | inr e ↦ (u.old, u.listed, sym (same_id u.old) ∙ ap (λ (x : Job). x.id) (sym e))
        ]

    update_first-UniqueIds :
        (jobs : List Job) {y : Job} {jobs' : List Job}
        → update_first p f jobs ≡ some (y, jobs')
        → UniqueIds jobs
        → UniqueIds jobs'
    unfolding update_first
    update_first-UniqueIds [] h u = cc
    update_first-UniqueIds (x ∷ xs) {jobs' = jobs'} h u = elim (Bool-cases (p x)) [
      | inl e ↦
          let rows : jobs' ≡ f x ∷ xs = ground (arith, e) in
          rw rows (λ k i same. u.0 k i (same ∙ same_id x), u.1)
      | inr e ↦ elim (Option-cases (update_first p f xs)) [
        | inl stopped ↦ absurd (ground (arith, e, stopped))
        | inr ((y', ys'), found) ↦
            let rows : jobs' ≡ x ∷ ys' = ground (arith, e, found) in
            rw rows (
              λ k i same.
                  let (w, listed, id) = update_first-ids xs found k i in u.0 w listed (id ∙ same),
              update_first-UniqueIds xs found u.1,
            )
      ]
    ]

    update_first-IsQueue :
        (jobs : List Job) {y : Job} {jobs' : List Job}
        → update_first p f jobs ≡ some (y, jobs')
        → ((j : Job) → p j ≡ true → IsSound j → IsSound (f j))
        → IsQueue jobs
        → IsQueue jobs'
    update_first-IsQueue jobs h keeps q =
        let u : Updated p f jobs _ _ = update_first-Updated p f jobs h in
        record {
          sound = λ z i. elim (u.origin z i) [
            | inl j ↦ q.sound z j
            | inr e ↦ subst IsSound (sym e) (keeps u.old u.passes (q.sound u.old u.listed))
          ];
          unique = update_first-UniqueIds jobs h q.unique;
        }

claim_row-IsSound :
    (worker : Text) (lease now : ℕ) (jobs : List Job) (j : Job)
    → IsQueue jobs
    → In j jobs
    → IsSound j
    → IsSound (claim_row worker (now + lease) now (candidate now jobs) j)
unfolding claim_row
claim_row-IsSound worker lease now jobs j q i s = elim (Option-cases (candidate now jobs)) [
  | inl e ↦ ground (arith, e, bury-IsSound now j s)
  | inr (c, e) ↦
      let f : IsFirst now jobs c = candidate-IsFirst now jobs e in
      elim (Bool-cases (c.id == j.id)) [
        | inl same ↦
            let at_c : c ≡ j =
              UniqueIds-eq jobs c j q.unique f.listed i ((==_iff c.id j.id).0 same) in
            ground (
              arith,
              e,
              same,
              bury-IsSound now j s,
              start-IsSound worker (now + lease) now j (rw at_c at f.claimable) s,
            )
        | inr other ↦ ground (arith, e, other, bury-IsSound now j s)
      ]
]

claim_row-id :
    (worker : Text) (expires now : ℕ) (chosen : Option Job) (j : Job)
    → (claim_row worker expires now chosen j).id ≡ j.id
unfolding claim_row bury start
claim_row-id worker expires now chosen j = ground arith

pub claim-IsQueue :
    (worker : Text) (lease now : ℕ) (jobs : List Job) {taken : Option Job} {jobs' : List Job}
    → IsQueue jobs
    → claim worker lease now jobs ≡ ok (taken, jobs')
    → IsQueue jobs'
unfolding claim
claim-IsQueue worker lease now jobs {taken} {jobs'} q h =
    let f : Job → Job = claim_row (trim_space worker) (now + lease) now (candidate now jobs) in
    let e : jobs' ≡ map f jobs = ground arith in
    rw e (
      map-IsQueue f (claim_row-id (trim_space worker) (now + lease) now (candidate now jobs)) jobs
        (λ j i s. claim_row-IsSound (trim_space worker) lease now jobs j q i s) q)

pub heartbeat-IsQueue :
    (id : ℕ) (worker : Text) (lease now : ℕ) (jobs : List Job) {jobs' : List Job}
    → IsQueue jobs
    → heartbeat id worker lease now jobs ≡ ok jobs'
    → IsQueue jobs'
unfolding heartbeat extend_lease
heartbeat-IsQueue id worker lease now jobs {jobs'} q h =
    elim (Option-cases (update_first (is_held id worker now) (extend_lease lease now) jobs)) [
      | inl e ↦ absurd (ground (arith, e))
      | inr ((y, rows), e) ↦
          let same : jobs' ≡ rows = ground (arith, e) in
          rw same (
            update_first-IsQueue (extend_lease lease now) (λ j. refl) (is_held id worker now) jobs e
              (λ j held s. extend_lease-IsSound id lease now worker j held s) q)
    ]

pub succeed-IsQueue :
    (id : ℕ) (worker : Text) (now : ℕ) (jobs : List Job) {jobs' : List Job}
    → IsQueue jobs
    → succeed id worker now jobs ≡ ok jobs'
    → IsQueue jobs'
unfolding succeed complete
succeed-IsQueue id worker now jobs {jobs'} q h =
    elim (Option-cases (update_first (is_held id worker now) (complete now) jobs)) [
      | inl e ↦ absurd (ground (arith, e))
      | inr ((y, rows), e) ↦
          let same : jobs' ≡ rows = ground (arith, e) in
          rw same (
            update_first-IsQueue (complete now) (λ j. refl) (is_held id worker now) jobs e
              (λ j held s. complete-IsSound now j s) q)
    ]

pub fail-IsQueue :
    (id : ℕ) (worker message : Text) (available now : ℕ) (jobs : List Job) {result : FailureResult}
    {jobs' : List Job}
    → IsQueue jobs
    → fail id worker message available now jobs ≡ ok (result, jobs')
    → IsQueue jobs'
unfolding fail record_failure
fail-IsQueue id worker message available now jobs {result} {jobs'} q h =
    let f : Job → Job =
      record_failure (truncate (trim_space message) max_stored_error_runes) available now in
    elim (Option-cases (update_first (is_held id worker now) f jobs)) [
      | inl e ↦ absurd (ground (arith, e))
      | inr ((y, rows), e) ↦
          let same : jobs' ≡ rows = ground (arith, e) in
          rw same (
            update_first-IsQueue f (λ j. refl) (is_held id worker now) jobs e
              (λ j held s. record_failure-IsSound _ available now j s) q)
    ]
