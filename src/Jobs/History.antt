-- ===== src/Jobs/History.antt =====
-- Histories of the queue: its table stays sound, and the end of a job is final.
use family_tree_app.Prelude.{
  ℕ, ◌+◌, ◌≡◌, inl, inr, Bool, true, Option, List, ◌∷◌, map, Text, trim_space, In, map-In,
  Option-cases, subst, ok, arith, select, update_first,
}
use family_tree_app.Jobs.Queue.{
  Job, EnqueueRequest, FailureResult, claim, claim_row, candidate, is_held, complete, succeed,
  heartbeat, fail, record_failure, extend_lease, truncate, max_stored_error_runes,
}
use family_tree_app.Jobs.Enqueue.{enqueue_with, queued_job, same_key, first_of_list}
use family_tree_app.Jobs.Soundness.{
  IsQueue, is_final, claim-IsQueue, heartbeat-IsQueue, succeed-IsQueue, fail-IsQueue,
}
use family_tree_app.Jobs.Endings.{
  passed_over, final_not_held, claim_row-final, enqueue_with-IsQueue,
}

module _ (json_valid : Text → Bool) (canonical_json : Text → Text) where
  -- One committed statement on the table of jobs.
  pub data QueueStep (jobs : List Job) : List Job → Type 0 where
    enqueue :
        {jobs' : List Job} (request : EnqueueRequest) (j : Job) (created : Bool)
        → enqueue_with json_valid canonical_json request jobs ≡ ok (j, created, jobs')
        → QueueStep jobs jobs'
    take_job :
        {jobs' : List Job} (worker : Text) (lease now : ℕ) (taken : Option Job)
        → claim worker lease now jobs ≡ ok (taken, jobs')
        → QueueStep jobs jobs'
    keep_lease :
        {jobs' : List Job} (id : ℕ) (worker : Text) (lease now : ℕ)
        → heartbeat id worker lease now jobs ≡ ok jobs'
        → QueueStep jobs jobs'
    finish_job :
        {jobs' : List Job} (id : ℕ) (worker : Text) (now : ℕ)
        → succeed id worker now jobs ≡ ok jobs'
        → QueueStep jobs jobs'
    fail_job :
        {jobs' : List Job} (id : ℕ) (worker message : Text) (available now : ℕ)
        (result : FailureResult)
        → fail id worker message available now jobs ≡ ok (result, jobs')
        → QueueStep jobs jobs'

  pub data QueueSteps (jobs : List Job) : List Job → Type 0 where
    done : QueueSteps jobs jobs
    after : {js ks : List Job} → QueueSteps jobs js → QueueStep js ks → QueueSteps jobs ks

  QueueStep-IsQueue : {jobs jobs' : List Job} → QueueStep jobs jobs' → IsQueue jobs → IsQueue jobs'
  QueueStep-IsQueue {jobs} (enqueue request j created h) q =
      enqueue_with-IsQueue json_valid canonical_json request jobs q h
  QueueStep-IsQueue {jobs} (take_job worker lease now taken h) q =
      claim-IsQueue worker lease now jobs q h
  QueueStep-IsQueue {jobs} (keep_lease id worker lease now h) q =
      heartbeat-IsQueue id worker lease now jobs q h
  QueueStep-IsQueue {jobs} (finish_job id worker now h) q = succeed-IsQueue id worker now jobs q h
  QueueStep-IsQueue {jobs} (fail_job id worker message available now result h) q =
      fail-IsQueue id worker message available now jobs q h

  -- Every history of the queue keeps its table sound: no job runs more often than it may, and each
  -- has a lease and a holder just while it runs and a completion date just at its end.
  pub QueueSteps-IsQueue :
      {jobs jobs' : List Job} → IsQueue jobs → QueueSteps jobs jobs' → IsQueue jobs'
  QueueSteps-IsQueue q done = q
  QueueSteps-IsQueue q (after s st) = QueueStep-IsQueue st (QueueSteps-IsQueue q s)

  QueueStep-final :
      {jobs jobs' : List Job} (j : Job)
      → QueueStep jobs jobs'
      → IsQueue jobs
      → In j jobs
      → is_final j.status ≡ true
      → In j jobs'
  unfolding enqueue_with claim heartbeat succeed fail
  QueueStep-final {jobs} {jobs'} j (enqueue request k created h) q i t =
      elim (Option-cases (first_of_list (select (same_key request) jobs))) [
        | inr (found, e) ↦ let same : jobs' ≡ jobs = ground (arith, e) in rw same i
        | inl e ↦
            let same : jobs' ≡ queued_job request ∷ jobs = ground (arith, e) in rw same (inr i)
      ]
  QueueStep-final {jobs} {jobs'} j (take_job worker lease now taken h) q i t =
      let f : Job → Job = claim_row (trim_space worker) (now + lease) now (candidate now jobs) in
      let rows : jobs' ≡ map f jobs = ground arith in
      rw rows (
        subst (λ z. In z (map f jobs))
          (claim_row-final (trim_space worker) (now + lease) now jobs j q i t) (map-In j f jobs i))
  QueueStep-final {jobs} {jobs'} j (keep_lease id worker lease now h) q i t =
      elim (Option-cases (update_first (is_held id worker now) (extend_lease lease now) jobs)) [
        | inl e ↦ absurd (ground (arith, e))
        | inr ((y, rows), e) ↦
            let same : jobs' ≡ rows = ground (arith, e) in
            rw same (passed_over _ _ jobs j e i (final_not_held id worker now j t))
      ]
  QueueStep-final {jobs} {jobs'} j (finish_job id worker now h) q i t =
      elim (Option-cases (update_first (is_held id worker now) (complete now) jobs)) [
        | inl e ↦ absurd (ground (arith, e))
        | inr ((y, rows), e) ↦
            let same : jobs' ≡ rows = ground (arith, e) in
            rw same (passed_over _ _ jobs j e i (final_not_held id worker now j t))
      ]
  QueueStep-final {jobs} {jobs'} j (fail_job id worker message available now result h) q i t =
      let f : Job → Job =
        record_failure (truncate (trim_space message) max_stored_error_runes) available now in
      elim (Option-cases (update_first (is_held id worker now) f jobs)) [
        | inl e ↦ absurd (ground (arith, e))
        | inr ((y, rows), e) ↦
            let same : jobs' ≡ rows = ground (arith, e) in
            rw same (passed_over _ _ jobs j e i (final_not_held id worker now j t))
      ]

  -- A job that has succeeded or is dead keeps its row, as it is, through every history.
  pub QueueSteps-final :
      {jobs jobs' : List Job} (j : Job)
      → QueueSteps jobs jobs'
      → IsQueue jobs
      → In j jobs
      → is_final j.status ≡ true
      → In j jobs'
  QueueSteps-final j done q i t = i
  QueueSteps-final j (after s st) q i t =
      QueueStep-final j st (QueueSteps-IsQueue q s) (QueueSteps-final j s q i t) t
