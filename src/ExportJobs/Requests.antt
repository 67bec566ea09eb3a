-- ===== src/ExportJobs/Requests.antt =====
-- The statements of internal/features/exports/repository/postgres/repository.go that serve the users. What
-- google/uuid writes and what encoding/json decides are parameters: `uuid_string`, `json_valid`, and the
-- canonical form of a text that is JSON.
use family_tree_app.Prelude.{
  first_row, ℕ, Bool, true, false, not, ◌&&◌, ◌||◌, Option, none, some, List, ◌∷◌, ◌++◌, Text,
  codes, text_eq, ltb, ◌==◌, if◌then◌else◌, any, take, select, update_first, or_keep, Result, ok,
  err, refuse_if, ◌>>=◌, ◌>>◌,
}
use family_tree_app.ExportJobs.Domain.{
  export_not_found, export_request_conflict, export_result_unavailable, queued, expired, Export,
  is_completed, is_expired, expires_after,
}
use family_tree_app.ExportJobs.Store.{
  ExportDatabase, ExportAuditRow, export_created, export_deleted, export_downloaded,
  MutationContext, Call, begin, insert_export, read_existing, enqueue, write_audit, commit, read,
  lock, write_status, Failure, refused, call_failure, is_export, is_active_member, is_live_tree,
  can_see, newest_first, from_queue, call, require_export_creator,
}
use family_tree_app.Jobs.Queue.{EnqueueRequest}
use family_tree_app.Jobs.Enqueue.{enqueue_with}

-- The row that the creation stores.
unfoldable pub created_export : Export → Export
created_export e = record e {
  status = queued;
  progress = 0;
  result_object_key = codes "";
  result_mime_type = codes "";
  result_size_bytes = 0;
  result_checksum = codes "";
  error_code = codes "";
  updated_at = e.created_at;
  started_at = none;
  finished_at = none;
  expires_at = none;
}

-- `export_jobs_idempotency_uq`.
unfoldable pub same_request : Export → Export → Bool
same_request e row =
    (row.tree_id == e.tree_id)
    && (row.requested_by == e.requested_by)
    && (row.client_request_id == e.client_request_id)

unfoldable pub expire : ℕ → Export → Export
expire now e = record e {
  status = expired;
  updated_at = now;
  finished_at = some (or_keep e.finished_at now);
  expires_at = some (or_keep e.expires_at now);
}

-- The rows before a cursor, where one is given: its instant is not zero.
unfoldable pub is_before : ℕ → ℕ → Export → Bool
is_before created id e =
    (created == 0) || ltb e.created_at created || ((e.created_at == created) && ltb e.id id)

module _ (canonical : Text → Option Text) where
  unfoldable pub same_json : Text → Text → Bool
  same_json left right = elim (canonical left) [
    | none ↦ text_eq left right
    | some l ↦ elim (canonical right) [ none ↦ text_eq left right | some r ↦ text_eq l r ]
  ]

module _ (uuid_string : ℕ → Text) where
  -- `exportjob.Encode`, of a `GeneratePayload` and of a `DeletePayload`.
  unfoldable pub encode_payload : ℕ → ℕ → Text
  encode_payload tree_id export_id =
      codes "{\"tree_id\":\""
      ++ uuid_string tree_id
      ++ codes "\",\"export_id\":\""
      ++ uuid_string export_id
      ++ codes "\"}"

  unfoldable pub export_job : Text → ℕ → ℕ → ℕ → ℕ → EnqueueRequest
  unfolding encode_payload
  export_job kind job_id tree_id export_id now = record {
    id = job_id;
    kind = kind;
    deduplication_key = uuid_string export_id;
    payload = encode_payload tree_id export_id;
    max_attempts = 5;
    available_at = now;
    created_at = now;
  }

module _ (io : Call → Bool) (uuid_string : ℕ → Text) (json_valid : Text → Bool)
    (canonical_json : Text → Text) (canonical : Text → Option Text) where
  -- The export under the request, and whether it is new.
  unfoldable pub create_accessible :
      ℕ → ℕ → Export → ExportDatabase → Result Failure (Export × Bool × ExportDatabase)
  unfolding call require_export_creator same_request same_json export_job created_export from_queue
  create_accessible audit_id job_id e db = do
    call io begin
    require_export_creator io db e.tree_id e.requested_by
    call io insert_export
    elim (first_row (same_request e) db.exports) [
      | some existing ↦ do
        call io read_existing
        refuse_if
            (not (text_eq existing.format e.format)
              || not (existing.schema_version == e.schema_version)
              || not (same_json canonical existing.parameters e.parameters))
            (refused export_request_conflict)
        call io commit
        ok (existing, false, db)
      | none ↦ do
        refuse_if (any (λ (row : Export). row.id == e.id) db.exports) call_failure
        call io enqueue
        enqueued ← from_queue (
            enqueue_with json_valid canonical_json
              (export_job uuid_string (codes "export.generate") job_id e.tree_id e.id e.created_at)
              db.jobs)
        call io write_audit
        let entry : ExportAuditRow = record {
          id = audit_id;
          tree_id = e.tree_id;
          actor_user_id = e.requested_by;
          action = export_created;
          entity_id = e.id;
          created_at = e.created_at;
        }
        call io commit
        ok (
          e,
          true,
          record db {
            exports = created_export e ∷ db.exports;
            jobs = enqueued.2;
            audit_log = entry ∷ db.audit_log;
          },
        )
    ]

  unfoldable pub expire_accessible :
      ℕ → MutationContext → ExportDatabase → Result Failure ExportDatabase
  unfolding call is_export is_active_member is_live_tree expire export_job from_queue
  expire_accessible job_id mutation db = do
    let tree = mutation.tree_id
    let actor = mutation.actor_user_id
    let now = mutation.occurred_at
    call io begin
    call io lock
    e ← elim (first_row (is_export tree mutation.export_id) db.exports) [
      | none ↦ err (refused export_not_found)
      | some e ↦ ok e
    ]
    m ← elim (first_row (is_active_member tree actor) db.base.members) [
      | none ↦ err (refused export_not_found)
      | some m ↦ ok m
    ]
    refuse_if (not (is_live_tree db.base tree)) (refused export_not_found)
    refuse_if (not (e.requested_by == actor) && not (text_eq m.role (codes "owner")))
        (refused export_not_found)
    let transitioned = not (is_expired e.status)
    refuse_if (transitioned && not (io write_status)) call_failure
    rows ← elim (update_first (is_export tree mutation.export_id) (expire now) db.exports) [
      | none ↦ err call_failure
      | some (_, rows) ↦ ok rows
    ]
    call io enqueue
    enqueued ← from_queue (
        enqueue_with json_valid canonical_json
          (export_job uuid_string (codes "export.delete") job_id tree mutation.export_id now)
          db.jobs)
    refuse_if (transitioned && not (io write_audit)) call_failure
    let entry : ExportAuditRow = record {
      id = mutation.audit_id;
      tree_id = tree;
      actor_user_id = actor;
      action = export_deleted;
      entity_id = mutation.export_id;
      created_at = now;
    }
    call io commit
    ok (record db {
      exports = if transitioned then rows else db.exports;
      jobs = enqueued.2;
      audit_log = if transitioned then entry ∷ db.audit_log else db.audit_log;
    })

module _ (io : Call → Bool) where
  unfoldable pub get_accessible : ℕ → ℕ → ℕ → ExportDatabase → Result Failure Export
  unfolding call is_export can_see
  get_accessible tree_id export_id actor db = do
    call io read
    elim (first_row (λ e. is_export tree_id export_id e && can_see db.base actor e) db.exports) [
      | none ↦ err (refused export_not_found)
      | some e ↦ ok e
    ]

  unfoldable pub list_accessible : ℕ → ℕ → ℕ → ℕ → ℕ → ExportDatabase → Result Failure (List Export)
  unfolding call can_see is_before newest_first
  list_accessible tree_id actor before_created before_id limit db = do
    call io read
    ok (
        take limit (
          newest_first (
            select
              (λ e.
                (e.tree_id == tree_id)
                && can_see db.base actor e
                && is_before before_created before_id e)
              db.exports)))

  unfoldable pub record_download : MutationContext → ExportDatabase → Result Failure ExportDatabase
  unfolding call is_export can_see expires_after
  record_download audit db = do
    call io write_audit
    refuse_if
        (not (
          any
            (λ e.
              is_export audit.tree_id audit.export_id e
              && can_see db.base audit.actor_user_id e
              && is_completed e.status
              && expires_after audit.occurred_at e.expires_at)
            db.exports))
        (refused export_result_unavailable)
    let entry : ExportAuditRow = record {
      id = audit.audit_id;
      tree_id = audit.tree_id;
      actor_user_id = audit.actor_user_id;
      action = export_downloaded;
      entity_id = audit.export_id;
      created_at = audit.occurred_at;
    }
    ok (record db { audit_log = entry ∷ db.audit_log })
