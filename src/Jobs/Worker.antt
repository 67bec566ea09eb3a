-- ===== src/Jobs/Worker.antt =====
-- internal/core/jobs/worker/worker.go: the delay before a retry and the treatment of one job.
-- A duration is a number of nanoseconds below 2 ^ 63; its doubling keeps the wrap of 64 bits.
use family_tree_app.Prelude.{
  ℕ, zero, suc, ◌+◌, ◌-◌, ◌*◌, ◌/◌, ◌%◌, ◌^◌, Bool, true, false, not, ◌&&◌, ◌||◌, Option, none,
  some, List, ◌++◌, Text, codes, trim_space, is_empty, byte_len, ltb, leb, if◌then◌else◌, ok, err,
}
use family_tree_app.Jobs.Queue.{Job, succeed, fail}

pub record Config : Type 0 where
  pub id : Text
  pub poll_interval : ℕ
  pub lease_duration : ℕ
  pub heartbeat_interval : ℕ
  pub retry_base_delay : ℕ
  pub retry_max_delay : ℕ
  pub ack_timeout : ℕ

-- The conditions that `LoadConfig` and `New` put on the configuration. A double that wraps is
-- negative, which is below every lease.
unfoldable pub is_valid_config : Config → Bool
is_valid_config c =
    not (is_empty (trim_space c.id))
    && leb (byte_len c.id) 255
    && ltb 0 c.poll_interval
    && ltb 0 c.lease_duration
    && ltb 0 c.heartbeat_interval
    && (let twice = (c.heartbeat_interval * 2) % 2 ^ 64 in
        leb (2 ^ 63) twice || ltb twice c.lease_duration)
    && ltb 0 c.retry_base_delay
    && leb c.retry_base_delay c.retry_max_delay
    && ltb 0 c.ack_timeout

-- The loop of `retryDelay`, over the rounds left, with the test that follows it.
unfoldable pub retry_delay_from : ℕ → ℕ → ℕ → ℕ
retry_delay_from maximum zero delay = if ltb maximum delay then maximum else delay
retry_delay_from maximum (suc rounds) delay =
    let rest = retry_delay_from maximum rounds ((delay * 2) % 2 ^ 64) in
    if ltb delay maximum
    then (if ltb (maximum / 2) delay then maximum else rest)
    else (if ltb maximum delay then maximum else delay)

unfoldable pub retry_delay : Config → ℕ → ℕ
unfolding retry_delay_from
retry_delay config attempt =
    retry_delay_from config.retry_max_delay (attempt - 1) config.retry_base_delay

-- What a handler does with a job.
pub data Handled : Type 0 where
  finished : Handled
  returned_error : Text → Handled
  returned_canceled : Text → Handled
  panicked : Text → Handled

-- `lease_lost`, `canceled`, `ack_error`, `succeeded`, `dead` and `retry` of the metrics.
pub data Outcome : Type 0 where
  lost canceled ack_error success buried retry : Outcome

-- The error of a handler, and whether it is `context.Canceled`.
abbrev pub HandleError : Type 0
HandleError = Option (Text × Bool)

-- `callHandler`, after the look-up of the handler; `quoted` is the kind as `%q` prints it.
unfoldable pub handle_error : Option (Job → Handled) → Text → Job → HandleError
handle_error none quoted job = some (codes "no handler registered for job kind " ++ quoted, false)
handle_error (some handler) quoted job = elim (handler job) [
  | finished ↦ none
  | returned_error message ↦ some (message, false)
  | returned_canceled message ↦ some (message, true)
  | panicked value ↦ some (codes "background job handler panic: " ++ value, false)
]

-- What the environment answers while a job is treated: whether a heartbeat failed, whether the
-- worker's own context is done, and the times at which the end is recorded.
pub record Surroundings : Type 0 where
  pub heartbeat_failed : Bool
  pub stopped : Bool
  pub now : ℕ

-- `process` from the end of the handler on: the outcome that is counted, and the table after it.
unfoldable pub process : Config → Surroundings → HandleError → Job → List Job → Outcome × List Job
process config around handled job jobs =
    if around.heartbeat_failed then (lost, jobs) else elim handled [
      | none ↦ elim (succeed job.id config.id around.now jobs) [
        | ok jobs' ↦ (success, jobs')
        | err _ ↦ (ack_error, jobs)
      ]
      | some (message, is_canceled) ↦
          if around.stopped && is_canceled
          then (canceled, jobs)
          else elim (fail job.id config.id message (around.now + retry_delay config job.attempts)
              around.now jobs) [
                | err _ ↦ (ack_error, jobs)
                | ok (result, jobs') ↦ (if result.is_final then buried else retry, jobs')
              ]
    ]
