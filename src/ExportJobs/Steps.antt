-- ===== src/ExportJobs/Steps.antt =====
-- The statements of internal/features/exports/repository/postgres/worker.go on the table of exports: those
-- that the generation of a result and the removal of expired results make. The constraint on completed
-- exports and the unique index on the result's key are those of migrations/000007 and migrations/000011.
use family_tree_app.Prelude.{
  first_row, ℕ, Bool, true, false, not, ◌&&◌, ◌||◌, Option, none, some, List, [], ◌∷◌, map, Text,
  codes, text_eq, is_empty, is_some, ltb, leb, ◌==◌, if◌then◌else◌, any, take, select, update_first,
  or_keep, Result, ok, err, refuse_if, ◌>>=◌, ◌>>◌,
}
use family_tree_app.ExportJobs.Domain.{
  export_not_found, export_state_conflict, Status, queued, running, completed, failed, Export,
  CleanupCandidate, is_completed, is_expired,
}
use family_tree_app.ExportJobs.Store.{
  ExportDatabase, Call, begin, commit, read, lock, write_status, read_status, reserve, clear,
  Failure, refused, call_failure, is_export, call,
}
use family_tree_app.ExportJobs.Requests.{expire}

abbrev pub is_queued : Status → Bool
is_queued queued = true
is_queued _ = false

abbrev pub is_running : Status → Bool
is_running running = true
is_running _ = false

abbrev pub is_failed : Status → Bool
is_failed failed = true
is_failed _ = false

unfoldable pub start_generation : ℕ → Export → Export
start_generation now e = record e {
  status = running;
  progress = 10;
  error_code = codes "";
  started_at = some (or_keep e.started_at now);
  updated_at = now;
}

-- The result of a generation: where it is, what it is, and until when it is kept.
pub record Completion : Type 0 where
  pub object_key : Text
  pub mime_type : Text
  pub size_bytes : ℕ
  pub checksum : Text
  pub until : ℕ

unfoldable pub complete : Completion → ℕ → Export → Export
complete c now e = record e {
  status = completed;
  progress = 100;
  result_object_key = c.object_key;
  result_mime_type = c.mime_type;
  result_size_bytes = c.size_bytes;
  result_checksum = c.checksum;
  error_code = codes "";
  updated_at = now;
  finished_at = some now;
  expires_at = some c.until;
}

unfoldable pub record_failure : Text → ℕ → Export → Export
record_failure code now e = record e {
  status = failed;
  error_code = code;
  updated_at = now;
  finished_at = some now;
}

unfoldable pub clear_result : ℕ → Export → Export
clear_result now e = record e {
  result_object_key = codes "";
  result_mime_type = codes "";
  result_size_bytes = 0;
  result_checksum = codes "";
  updated_at = now;
}

-- The type that the constraint wants of a result in the format.
unfoldable pub has_mime_type : Text → Text → Bool
has_mime_type format mime =
    (text_eq format (codes "json_backup") && text_eq mime (codes "application/json"))
    || (text_eq format (codes "zip_backup") && text_eq mime (codes "application/zip"))
    || (text_eq format (codes "pdf") && text_eq mime (codes "application/pdf"))
    || (text_eq format (codes "png") && text_eq mime (codes "image/png"))
    || (text_eq format (codes "svg") && text_eq mime (codes "image/svg+xml"))
    || (text_eq format (codes "gedcom") && text_eq mime (codes "text/vnd.familysearch.gedcom"))
    || (text_eq format (codes "gedzip")
        && text_eq mime (codes "application/vnd.familysearch.gedcom+zip"))

-- `export_jobs_completed_result_check`, of a completed row.
unfoldable pub has_result : Export → Bool
unfolding has_mime_type
has_result e =
    (e.progress == 100)
    && not (is_empty e.result_object_key)
    && has_mime_type e.format e.result_mime_type
    && ltb 0 e.result_size_bytes
    && not (is_empty e.result_checksum)
    && is_some e.finished_at
    && is_some e.expires_at

-- `export_jobs_result_object_uq`, of another row that has the key.
unfoldable pub shares_key : Export → Export → Bool
shares_key e row =
    not (row.id == e.id)
    && not (is_empty row.result_object_key)
    && text_eq row.result_object_key e.result_object_key

unfoldable pub is_running_export : ℕ → ℕ → Export → Bool
unfolding is_export
is_running_export tree_id id e = is_export tree_id id e && is_running e.status

unfoldable pub is_unfinished_export : ℕ → ℕ → Export → Bool
unfolding is_export
is_unfinished_export tree_id id e =
    is_export tree_id id e && (is_queued e.status || is_running e.status)

unfoldable pub is_expired_export : ℕ → ℕ → Export → Bool
unfolding is_export
is_expired_export tree_id id e = is_export tree_id id e && is_expired e.status

-- `expires_at <= $1`, which is not true of NULL.
unfoldable pub expires_by : ℕ → Option ℕ → Bool
expires_by instant none = false
expires_by instant (some at) = leb at instant

unfoldable pub is_cleanup_candidate : ℕ → Export → Bool
unfolding expires_by
is_cleanup_candidate instant e =
    (is_completed e.status && expires_by instant e.expires_at)
    || (is_expired e.status && not (is_empty e.result_object_key))

-- `ORDER BY expires_at NULLS FIRST, id`.
unfoldable pub expires_earlier : Export → Export → Bool
expires_earlier a b = elim a.expires_at [
  | none ↦ is_some b.expires_at || ltb a.id b.id
  | some s ↦ elim b.expires_at [ none ↦ false | some t ↦ ltb s t || ((s == t) && ltb a.id b.id) ]
]

unfoldable pub insert_earliest : Export → List Export → List Export
unfolding expires_earlier
insert_earliest e [] = e ∷ []
insert_earliest e (x ∷ xs) =
    let rest = insert_earliest e xs in if expires_earlier x e then x ∷ rest else e ∷ x ∷ xs

unfoldable pub earliest_first : List Export → List Export
unfolding insert_earliest
earliest_first [] = []
earliest_first (e ∷ es) = insert_earliest e (earliest_first es)

unfoldable pub candidates : ℕ → ℕ → List Export → List Export
unfolding is_cleanup_candidate earliest_first
candidates instant limit exports =
    take limit (earliest_first (select (is_cleanup_candidate instant) exports))

abbrev pub to_candidate : Export → CleanupCandidate
to_candidate e = record {
  tree_id = e.tree_id;
  export_id = e.id;
  result_object_key = e.result_object_key;
}

module _ (io : Call → Bool) where
  -- The export as the worker sees it, whose error code is the one that was read.
  unfoldable pub acquire_for_generation :
      ℕ → ℕ → ℕ → ExportDatabase → Result Failure (Export × ExportDatabase)
  unfolding call is_export start_generation
  acquire_for_generation tree_id id now db = do
    call io begin
    call io lock
    elim (first_row (is_export tree_id id) db.exports) [
      | none ↦ err (refused export_not_found)
      | some e ↦ elim (is_queued e.status) [
        | false ↦ do call io commit; ok (e, db)
        | true ↦ do
          call io write_status
          rows ← elim (update_first (is_export tree_id id) (start_generation now) db.exports) [
            | none ↦ err call_failure
            | some (_, rows) ↦ ok rows
          ]
          call io commit
          ok (
            record (start_generation now e) { error_code = e.error_code },
            record db { exports = rows },
          )
      ]
    ]

  unfoldable pub mark_completed :
      Export → Completion → ℕ → ExportDatabase → Result Failure ExportDatabase
  unfolding call is_export is_running_export complete has_result shares_key
  mark_completed e c now db = do
    call io write_status
    elim (update_first (is_running_export e.tree_id e.id) (complete c now) db.exports) [
      | some (row, rows) ↦ do
        refuse_if (not (has_result row) || any (shares_key row) db.exports) call_failure
        ok (record db { exports = rows })
      | none ↦ do
        call io read_status
        elim (first_row (is_export e.tree_id e.id) db.exports) [
          | none ↦ err (refused export_not_found)
          | some row ↦ do
            refuse_if
                (not (
                  is_completed row.status
                  && text_eq row.result_object_key c.object_key
                  && text_eq row.result_checksum c.checksum))
                (refused export_state_conflict)
            ok db
        ]
    ]

  unfoldable pub mark_failed : Export → Text → ℕ → ExportDatabase → Result Failure ExportDatabase
  unfolding call is_export is_unfinished_export record_failure
  mark_failed e code now db = do
    call io write_status
    elim (update_first (is_unfinished_export e.tree_id e.id) (record_failure code now) db.exports) [
      | some (_, rows) ↦ ok (record db { exports = rows })
      | none ↦ do
        call io read_status
        elim (first_row (is_export e.tree_id e.id) db.exports) [
          | none ↦ err (refused export_not_found)
          | some row ↦ do
            refuse_if (not (is_failed row.status) && not (is_expired row.status))
                (refused export_state_conflict)
            ok db
        ]
    ]

  unfoldable pub reserve_cleanup_candidates :
      ℕ → ℕ → ℕ → ExportDatabase → Result Failure (List CleanupCandidate × ExportDatabase)
  unfolding call candidates expire
  reserve_cleanup_candidates instant limit now db = do
    call io reserve
    let chosen = candidates instant limit db.exports
    ok (
      map to_candidate chosen,
      record db {
        exports =
            map
              (λ (e : Export).
                if any (λ (c : Export). c.id == e.id) chosen then expire now e else e)
              db.exports;
      },
    )

  unfoldable pub get_deletion_candidate : ℕ → ℕ → ExportDatabase → Result Failure CleanupCandidate
  unfolding call is_expired_export
  get_deletion_candidate tree_id id db = do
    call io read
    elim (first_row (is_expired_export tree_id id) db.exports) [
      | none ↦ err (refused export_not_found)
      | some e ↦ ok (to_candidate e)
    ]

  unfoldable pub clear_expired_result :
      CleanupCandidate → ℕ → ExportDatabase → Result Failure ExportDatabase
  unfolding call is_expired_export clear_result
  clear_expired_result candidate now db = do
    call io clear
    elim (update_first (is_expired_export candidate.tree_id candidate.export_id) (clear_result now)
        db.exports) [ none ↦ ok db | some (_, rows) ↦ ok (record db { exports = rows }) ]
