-- ===== src/Jobs/Samples.antt =====
-- A small queue, runs of the operations on it, and the theorems at these inputs.
use native.Mathlib.Omega.{arith}
use family_tree_app.Prelude.{
  ℕ, ap, ◌≡◌, ◌≢◌, ◌*◌, ◌^◌, ◌-◌, min, ◌⊎◌, refl, inl, Bool, true, false, none, some, [], ◌∷◌, Text,
  codes, text_functions, any, select, update_first, In, ok, err, trim_space, length,
}
use family_tree_app.Jobs.Queue.{
  Job, failed, EnqueueRequest, FailureResult, lease_lost, claim, heartbeat, succeed, fail,
  claim_row, candidate, is_claimable, is_exhausted, is_earlier, is_held, start, bury, complete,
  extend_lease, record_failure, truncate, is_due, is_after, text_is,
}
use family_tree_app.Jobs.Enqueue.{
  enqueue_with, validate, queued_job, stored_key, same_key, first_of_list,
}
use family_tree_app.Jobs.Soundness.{IsQueue, is_final}
use family_tree_app.Jobs.Claims.{IsFirst, claim_cases}
use family_tree_app.Jobs.Leases.{IsLeased, claim_respects_leases, claim_lost_untrimmed}
use family_tree_app.Jobs.Endings.{fail_outcome, IsFailure}
use family_tree_app.Jobs.History.{
  QueueSteps, done, after, enqueue, take_job, finish_job, QueueSteps-IsQueue, QueueSteps-final,
}
use family_tree_app.Jobs.Worker.{
  Config, Surroundings, is_valid_config, retry_delay, retry_delay_from,
}
use family_tree_app.Jobs.Retry.{retry_delay-eq-min}

program : Unit {0}
unfolding claim heartbeat succeed fail claim_row candidate is_claimable is_exhausted is_earlier
    is_held start bury complete extend_lease record_failure truncate is_due is_after text_is
    enqueue_with validate queued_job stored_key same_key first_of_list select any update_first
    text_functions
program = tt

abbrev always : Text → Bool
always _ = true

abbrev same_text : Text → Text
same_text s = s

abbrev request : ℕ → EnqueueRequest
request id = record {
  id = id;
  kind = codes "media.process";
  deduplication_key = codes "photo 5";
  payload = codes "{}";
  max_attempts = 2;
  available_at = 10;
  created_at = 10;
}

abbrev job : Job
job = queued_job (request 41)

abbrev worker : Text
worker = codes "worker a"

enqueue_run : enqueue_with always same_text (request 41) [] ≡ ok (job, true, job ∷ [])
unfolding program
enqueue_run = refl

request_keyed : stored_key (codes "photo 5") ≢ none
unfolding program
request_keyed = cc

abbrev taken_by : Text → ℕ → ℕ → Job
taken_by name expires now = start name expires now job

claim_run :
    claim worker 30 20 (job ∷ []) ≡ ok (some (taken_by worker 50 20), taken_by worker 50 20 ∷ [])
unfolding program
claim_run = refl

claim_cases_example :
    ((c : Job) × IsFirst 20 (job ∷ []) c
      × (some (taken_by worker 50 20) ≡ some (start (trim_space worker) 50 20 c)))
    ⊎ (some (taken_by worker 50 20) ≡ none)
      × ((k : Job) → In k (job ∷ []) → is_claimable 20 k ≡ false)
claim_cases_example = claim_cases worker 30 20 (job ∷ []) claim_run

nil-IsQueue : IsQueue []
nil-IsQueue = record { sound = λ j i. absurd i; unique = tt }

enqueued : QueueSteps always same_text [] (job ∷ [])
enqueued = after done (enqueue (request 41) job true enqueue_run)

started : QueueSteps always same_text [] (taken_by worker 50 20 ∷ [])
started = after enqueued (take_job worker 30 20 (some (taken_by worker 50 20)) claim_run)

job-IsQueue : IsQueue (job ∷ [])
job-IsQueue = QueueSteps-IsQueue always same_text nil-IsQueue enqueued

QueueSteps-IsQueue_example : IsQueue (taken_by worker 50 20 ∷ [])
QueueSteps-IsQueue_example = QueueSteps-IsQueue always same_text nil-IsQueue started

-- A second worker comes while the lease runs.
second_claim :
    claim (codes "worker b") 30 25 (taken_by worker 50 20 ∷ [])
    ≡ ok (none, taken_by worker 50 20 ∷ [])
unfolding program
second_claim = refl

taken_by-IsLeased : IsLeased 25 (taken_by worker 50 20)
unfolding program
taken_by-IsLeased = (refl, refl)

claim_respects_leases_example :
    In (taken_by worker 50 20) (taken_by worker 50 20 ∷ [])
    × ((k : Job) → none ≡ some k → k.id ≢ (taken_by worker 50 20).id)
claim_respects_leases_example =
    claim_respects_leases (codes "worker b") 30 25 (taken_by worker 50 20 ∷ [])
      (taken_by worker 50 20) (QueueSteps-IsQueue always same_text nil-IsQueue started) second_claim
      (inl refl) taken_by-IsLeased

abbrev spaced : Text
spaced = codes "worker a "

claim-spaced :
    claim spaced 30 20 (job ∷ []) ≡ ok (some (taken_by worker 50 20), taken_by worker 50 20 ∷ [])
unfolding program
claim-spaced = refl

spaced_trims : trim_space spaced ≢ spaced
unfolding program
spaced_trims h = let sizes : length worker ≡ length spaced = ap length h in cc sizes

claim_lost_untrimmed_example :
    (heartbeat (taken_by worker 50 20).id spaced 30 40 (taken_by worker 50 20 ∷ [])
      ≡ err lease_lost)
    × (succeed (taken_by worker 50 20).id spaced 40 (taken_by worker 50 20 ∷ []) ≡ err lease_lost)
    × (fail (taken_by worker 50 20).id spaced (codes "timeout") 60 40 (taken_by worker 50 20 ∷ [])
        ≡ err lease_lost)
unfolding program
claim_lost_untrimmed_example =
    claim_lost_untrimmed spaced 30 20 (job ∷ []) job-IsQueue claim-spaced 40 30 60 (codes "timeout")
      spaced_trims (omega arith) (omega arith) (omega arith) (omega arith)

abbrev finished_job : Job
finished_job = complete 40 (taken_by worker 50 20)

succeed_run : succeed 41 worker 40 (taken_by worker 50 20 ∷ []) ≡ ok (finished_job ∷ [])
unfolding program
succeed_run = refl

late_claim : claim (codes "worker b") 30 90 (finished_job ∷ []) ≡ ok (none, finished_job ∷ [])
unfolding program
late_claim = refl

ended-IsQueue : IsQueue (finished_job ∷ [])
ended-IsQueue =
    QueueSteps-IsQueue always same_text nil-IsQueue
      (after started (finish_job 41 worker 40 succeed_run))

finished_is_final : is_final finished_job.status ≡ true
unfolding program
finished_is_final = refl

QueueSteps-final_example : In finished_job (finished_job ∷ [])
QueueSteps-final_example =
    QueueSteps-final always same_text finished_job
      (after done (take_job (codes "worker b") 30 90 none late_claim)) ended-IsQueue (inl refl)
      finished_is_final

abbrev failed_job : Job
failed_job = record_failure (codes "timeout") 60 40 (taken_by worker 50 20)

abbrev first_failure : FailureResult
first_failure = record { is_final = false; status = failed; available = 60 }

fail_run :
    fail 41 worker (codes " timeout") 60 40 (taken_by worker 50 20 ∷ [])
    ≡ ok (first_failure, failed_job ∷ [])
unfolding program
fail_run = refl

fail_outcome_example :
    (old : Job) × IsFailure 41 worker
      (codes " timeout")
      60
      40
      (taken_by worker 50 20 ∷ [])
      (record { is_final = false; status = failed; available = 60 })
      (failed_job ∷ [])
      old
fail_outcome_example =
    fail_outcome 41 worker (codes " timeout") 60 40 (taken_by worker 50 20 ∷ []) fail_run

-- The defaults of `LoadConfig`, with a lease of 30 ns in place of 30 s.
abbrev config : Config
config = record {
  id = worker;
  poll_interval = 1;
  lease_duration = 30;
  heartbeat_interval = 10;
  retry_base_delay = 2;
  retry_max_delay = 900;
  ack_timeout = 5;
}

config_valid : is_valid_config config ≡ true
unfolding is_valid_config program
config_valid = refl

retry_run : retry_delay config 5 ≡ 32
unfolding retry_delay retry_delay_from
retry_run = refl

retry_delay-eq-min_example : retry_delay config 5 ≡ min (2 * 2 ^ (5 - 1)) 900
retry_delay-eq-min_example = retry_delay-eq-min config 5 config_valid (omega arith)

abbrev around : Surroundings
around = record { heartbeat_failed = false; stopped = false; now = 40 }
