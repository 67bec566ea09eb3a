-- ===== src/Jobs/Queue.antt =====
-- internal/core/jobs/job.go and internal/core/jobs/postgres/repository.go: the table of background
-- jobs and the statements on it. Row locks and `SKIP LOCKED` make each statement one step on the
-- table. An instant and a duration are numbers of nanoseconds; a payload is the text of its JSON.
use mathlib.Core.Option
use family_tree_app.Prelude.{
  ℕ, ◌+◌, Bool, true, false, ◌&&◌, ◌||◌, Option, none, some, List, [], ◌∷◌, map, Text, codes,
  text_eq, is_empty, trim_space, byte_len, length, take, ltb, leb, ◌==◌, if◌then◌else◌,
  update_first, Result, ok, err, ◌>>◌, refuse_if,
}

pub data Error : Type 0 where
  invalid_job lease_lost deduplication_conflict enqueue_failed : Error

pub data Status : Type 0 where
  queued running failed succeeded dead : Status

pub record Job : Type 0 where
  pub id : ℕ
  pub kind : Text
  pub deduplication_key : Option Text
  pub payload : Text
  pub status : Status
  pub attempts : ℕ
  pub max_attempts : ℕ
  pub available_at : ℕ
  pub lease_expires_at : Option ℕ
  pub heartbeat_at : Option ℕ
  pub locked_by : Option Text
  pub last_error : Text
  pub created_at : ℕ
  pub updated_at : ℕ
  pub completed_at : Option ℕ

pub record EnqueueRequest : Type 0 where
  pub id : ℕ
  pub kind : Text
  pub deduplication_key : Text
  pub payload : Text
  pub max_attempts : ℕ
  pub available_at : ℕ
  pub created_at : ℕ

abbrev pub max_stored_error_runes : ℕ
max_stored_error_runes = 1000

abbrev pub is_running : Status → Bool
is_running running = true
is_running _ = false

abbrev pub is_waiting : Status → Bool
is_waiting queued = true
is_waiting failed = true
is_waiting _ = false

-- A nullable instant that is not after `now`; NULL is not.
unfoldable pub is_due : Option ℕ → ℕ → Bool
is_due none now = false
is_due (some t) now = leb t now

-- A nullable instant after `now`; NULL is not.
unfoldable pub is_after : Option ℕ → ℕ → Bool
is_after none now = false
is_after (some t) now = ltb now t

unfoldable pub text_is : Option Text → Text → Bool
text_is none s = false
text_is (some t) s = text_eq t s

-- `last_error = CASE WHEN last_error = '' THEN … ELSE last_error END`.
abbrev pub lease_expired_error : Text
lease_expired_error = codes "worker lease expired after final attempt"

unfoldable pub is_exhausted : ℕ → Job → Bool
unfolding is_due
is_exhausted now j =
    is_running j.status && is_due j.lease_expires_at now && leb j.max_attempts j.attempts

unfoldable pub bury : ℕ → Job → Job
bury now j = record j {
  status = dead;
  lease_expires_at = none;
  heartbeat_at = none;
  locked_by = none;
  last_error = if is_empty j.last_error then lease_expired_error else j.last_error;
  updated_at = now;
  completed_at = some now;
}

unfoldable pub is_claimable : ℕ → Job → Bool
unfolding is_due
is_claimable now j =
    ltb j.attempts j.max_attempts
    && ((is_waiting j.status && leb j.available_at now)
        || (is_running j.status && is_due j.lease_expires_at now))

unfoldable pub start : Text → ℕ → ℕ → Job → Job
start worker_id expires now j = record j {
  status = running;
  attempts = j.attempts + 1;
  lease_expires_at = some expires;
  heartbeat_at = some now;
  locked_by = some worker_id;
  updated_at = now;
  completed_at = none;
}

-- `ORDER BY available_at, created_at, id`.
unfoldable pub is_earlier : Job → Job → Bool
is_earlier a b =
    ltb a.available_at b.available_at
    || ((a.available_at == b.available_at)
        && (ltb a.created_at b.created_at || ((a.created_at == b.created_at) && ltb a.id b.id)))

-- The first job in that order that can be claimed.
unfoldable pub candidate : ℕ → List Job → Option Job
candidate now [] = none
candidate now (j ∷ js) =
    let rest = candidate now js in
    if is_claimable now j
    then elim rest [ none ↦ some j | some k ↦ if is_earlier k j then some k else some j ]
    else rest

-- What `Claim` makes of each row: the exhausted ones are buried, the candidate is started.
unfoldable pub claim_row : Text → ℕ → ℕ → Option Job → Job → Job
claim_row worker_id expires now chosen j = if is_exhausted now j then bury now j else elim chosen [
  | none ↦ j
  | some c ↦ if c.id == j.id then start worker_id expires now j else j
]

unfoldable pub claim : Text → ℕ → ℕ → List Job → Result Error (Option Job × List Job)
claim worker lease_duration now jobs = do
  let worker_id = trim_space worker
  refuse_if
      (is_empty worker_id || ltb 255 (byte_len worker_id) || (lease_duration == 0) || (now == 0))
      invalid_job
  let expires = now + lease_duration
  let chosen = candidate now jobs
  ok (
    Option.map (start worker_id expires now) chosen,
    map (claim_row worker_id expires now chosen) jobs,
  )

-- The row that only the holder of a live lease may change.
unfoldable pub is_held : ℕ → Text → ℕ → Job → Bool
is_held id worker now j =
    (j.id == id)
    && is_running j.status
    && text_is j.locked_by worker
    && is_after j.lease_expires_at now

unfoldable pub extend_lease : ℕ → ℕ → Job → Job
extend_lease lease_duration now j = record j {
  heartbeat_at = some now;
  lease_expires_at = some (now + lease_duration);
  updated_at = now;
}

unfoldable pub heartbeat : ℕ → Text → ℕ → ℕ → List Job → Result Error (List Job)
heartbeat id worker lease_duration now jobs = do
  refuse_if ((id == 0) || is_empty (trim_space worker) || (lease_duration == 0) || (now == 0))
      invalid_job
  elim (update_first (is_held id worker now) (extend_lease lease_duration now) jobs) [
    | none ↦ err lease_lost
    | some (_, jobs') ↦ ok jobs'
  ]

unfoldable pub complete : ℕ → Job → Job
complete now j = record j {
  status = succeeded;
  lease_expires_at = none;
  heartbeat_at = none;
  locked_by = none;
  last_error = [];
  updated_at = now;
  completed_at = some now;
}

unfoldable pub succeed : ℕ → Text → ℕ → List Job → Result Error (List Job)
succeed id worker now jobs = do
  refuse_if ((id == 0) || is_empty (trim_space worker) || (now == 0)) invalid_job
  elim (update_first (is_held id worker now) (complete now) jobs) [
    | none ↦ err lease_lost
    | some (_, jobs') ↦ ok jobs'
  ]

-- The first runes of a text.
unfoldable pub truncate : Text → ℕ → Text
truncate value limit = if leb (length value) limit then value else take limit value

unfoldable pub record_failure : Text → ℕ → ℕ → Job → Job
record_failure message available_at now j =
    let last = leb j.max_attempts j.attempts in
    record j {
      status = if last then dead else failed;
      available_at = if last then j.available_at else available_at;
      lease_expires_at = none;
      heartbeat_at = none;
      locked_by = none;
      last_error = message;
      updated_at = now;
      completed_at = if last then some now else none;
    }

abbrev pub is_dead : Status → Bool
is_dead dead = true
is_dead _ = false

pub record FailureResult : Type 0 where
  pub is_final : Bool
  pub status : Status
  pub available : ℕ

unfoldable pub fail : ℕ → Text → Text → ℕ → ℕ → List Job → Result Error (FailureResult × List Job)
fail id worker message available_at now jobs = do
  refuse_if ((id == 0) || is_empty (trim_space worker) || (available_at == 0) || (now == 0))
      invalid_job
  let stored = truncate (trim_space message) max_stored_error_runes
  elim (update_first (is_held id worker now) (record_failure stored available_at now) jobs) [
    | none ↦ err lease_lost
    | some (j, jobs') ↦ ok (
      record { is_final = is_dead j.status; status = j.status; available = j.available_at },
      jobs',
    )
  ]
