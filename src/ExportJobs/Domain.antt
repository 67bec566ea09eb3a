-- ===== src/ExportJobs/Domain.antt =====
-- internal/features/exports/domain/export.go: an export, its creation, and whether its result may be
-- downloaded. An instant is a number of nanoseconds, 0 for the zero time; `uuid_string` writes an
-- identifier in its canonical form.
use family_tree_app.Prelude.{
  ℕ, Bool, true, false, not, ◌&&◌, ◌||◌, Option, none, some, ◌++◌, Text, codes, text_eq, is_empty,
  trim_space, ltb, ◌==◌, if◌then◌else◌, Result, ok, ◌>>◌, refuse_if,
}

pub data Error : Type 0 where
  invalid_export export_not_found export_access_denied export_request_conflict : Error
  export_state_conflict export_result_unavailable export_tree_unavailable : Error
  export_archive_too_large export_visual_too_large export_result_too_large : Error
  export_source_invalid : Error

pub data Status : Type 0 where
  queued running completed failed expired : Status

pub record Export : Type 0 where
  pub id : ℕ
  pub tree_id : ℕ
  pub client_request_id : ℕ
  pub requested_by : ℕ
  pub format : Text
  pub schema_version : ℕ
  pub parameters : Text
  pub status : Status
  pub progress : ℕ
  pub result_object_key : Text
  pub result_mime_type : Text
  pub result_size_bytes : ℕ
  pub result_checksum : Text
  pub error_code : Text
  pub created_at : ℕ
  pub updated_at : ℕ
  pub started_at : Option ℕ
  pub finished_at : Option ℕ
  pub expires_at : Option ℕ

pub record CreateValues : Type 0 where
  pub client_request_id : ℕ
  pub format : Text

pub record CleanupCandidate : Type 0 where
  pub tree_id : ℕ
  pub export_id : ℕ
  pub result_object_key : Text

abbrev pub manifest_schema_version : ℕ
manifest_schema_version = 1

unfoldable pub is_visual_format : Text → Bool
is_visual_format format =
    text_eq format (codes "pdf") || text_eq format (codes "png") || text_eq format (codes "svg")

unfoldable pub supported_format : Text → Bool
unfolding is_visual_format
supported_format format =
    text_eq format (codes "json_backup")
    || text_eq format (codes "zip_backup")
    || is_visual_format format
    || text_eq format (codes "gedcom")
    || text_eq format (codes "gedzip")

unfoldable pub new : ℕ → ℕ → ℕ → CreateValues → ℕ → Result Error Export
unfolding supported_format
new id tree_id requested_by values now = do
  let format = trim_space values.format
  refuse_if
      ((id == 0)
        || (tree_id == 0)
        || (requested_by == 0)
        || (values.client_request_id == 0)
        || not (supported_format format)
        || (now == 0))
      invalid_export
  ok (record {
    id = id;
    tree_id = tree_id;
    client_request_id = values.client_request_id;
    requested_by = requested_by;
    format = format;
    schema_version = manifest_schema_version;
    parameters = codes "{}";
    status = queued;
    progress = 0;
    result_object_key = codes "";
    result_mime_type = codes "";
    result_size_bytes = 0;
    result_checksum = codes "";
    error_code = codes "";
    created_at = now;
    updated_at = now;
    started_at = none;
    finished_at = none;
    expires_at = none;
  })

abbrev pub is_completed : Status → Bool
is_completed completed = true
is_completed _ = false

abbrev pub is_expired : Status → Bool
is_expired expired = true
is_expired _ = false

-- `expires_at > now`, which is not true of NULL.
unfoldable pub expires_after : ℕ → Option ℕ → Bool
expires_after now none = false
expires_after now (some instant) = ltb now instant

unfoldable pub can_download : Export → ℕ → Bool
unfolding expires_after
can_download value now =
    is_completed value.status
    && expires_after now value.expires_at
    && not (is_empty value.result_object_key)

module _ (uuid_string : ℕ → Text) where
  unfoldable pub result_filename : Export → Text
  unfolding is_visual_format
  result_filename value =
      let tree = codes "family-tree-" ++ uuid_string value.tree_id in
      if text_eq value.format (codes "zip_backup")
      then tree ++ codes "-backup.zip"
      else if is_visual_format value.format
      then tree ++ codes "." ++ value.format
      else if text_eq value.format (codes "gedcom")
      then tree ++ codes ".ged"
      else if text_eq value.format (codes "gedzip")
      then tree ++ codes ".gdz"
      else tree ++ codes "-export.json"
