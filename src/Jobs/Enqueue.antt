-- ===== src/Jobs/Enqueue.antt =====
-- `EnqueueRequest.Validate` of internal/core/jobs/job.go and `EnqueueWith` of
-- internal/core/jobs/postgres/repository.go. What encoding/json decides, whether a payload is valid
-- and its canonical form, are parameters.
use family_tree_app.Prelude.{
  Bool, true, false, not, ◌&&◌, ◌||◌, Option, none, some, List, [], ◌∷◌, Text, text_eq, is_empty,
  trim_space, byte_len, ltb, ◌==◌, if◌then◌else◌, any, select, Result, ok, err, ◌>>◌, refuse_if,
}
use family_tree_app.Jobs.Queue.{
  Error, invalid_job, deduplication_conflict, enqueue_failed, queued, Job, EnqueueRequest, text_is,
}

-- The key that is stored: NULL for an empty one.
unfoldable pub stored_key : Text → Option Text
stored_key key = let trimmed = trim_space key in if is_empty trimmed then none else some trimmed

unfoldable pub queued_job : EnqueueRequest → Job
unfolding stored_key
queued_job request = record {
  id = request.id;
  kind = trim_space request.kind;
  deduplication_key = stored_key request.deduplication_key;
  payload = request.payload;
  status = queued;
  attempts = 0;
  max_attempts = request.max_attempts;
  available_at = request.available_at;
  lease_expires_at = none;
  heartbeat_at = none;
  locked_by = none;
  last_error = [];
  created_at = request.created_at;
  updated_at = request.created_at;
  completed_at = none;
}

-- The row that the partial unique index finds: the same kind, and the same key where there is one.
unfoldable pub same_key : EnqueueRequest → Job → Bool
unfolding stored_key
same_key request j = elim (stored_key request.deduplication_key) [
  | none ↦ false
  | some key ↦ text_eq j.kind (trim_space request.kind) && text_is j.deduplication_key key
]

unfoldable pub first_of_list : List Job → Option Job
first_of_list [] = none
first_of_list (j ∷ js) = some j

module _ (json_valid : Text → Bool) (canonical_json : Text → Text) where
  unfoldable pub validate : EnqueueRequest → Result Error (Unit {0})
  validate request =
      let kind = trim_space request.kind in
      let key = trim_space request.deduplication_key in
      refuse_if
        ((request.id == 0)
          || is_empty kind
          || ltb 100 (byte_len kind)
          || (not (is_empty key) && ltb 255 (byte_len key))
          || ltb request.max_attempts 1
          || ltb 100 request.max_attempts
          || (request.available_at == 0)
          || (request.created_at == 0)
          || not (json_valid request.payload))
        invalid_job

  -- The job under the key, whether it is new, and the table after the call.
  unfoldable pub enqueue_with : EnqueueRequest → List Job → Result Error (Job × Bool × List Job)
  unfolding validate
  enqueue_with request jobs = do
    validate request
    elim (first_of_list (select (same_key request) jobs)) [
      | some j ↦
          if not (text_eq (canonical_json j.payload) (canonical_json request.payload))
            || not (j.max_attempts == request.max_attempts)
          then err deduplication_conflict
          else ok (j, false, jobs)
      | none ↦
          if any (λ j. j.id == request.id) jobs
          then err enqueue_failed
          else ok (queued_job request, true, queued_job request ∷ jobs)
    ]
