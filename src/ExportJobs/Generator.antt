-- ===== src/ExportJobs/Generator.antt =====
-- The handlers of internal/features/exports/processing/generator.go and cleanup.go: they work on the table of
-- exports and on the storage of objects. A handler returns nil or the errors that it joins, and
-- leaves the tables and the storage as its calls have made them.
use family_tree_app.Prelude.{
  ℕ, ◌+◌, Bool, true, false, not, ◌||◌, Option, none, some, List, [], ◌∷◌, ◌++◌, Text, codes,
  text_eq, length, ltb, ◌==◌, if◌then◌else◌, select, Result, ok, err, ◌>>=◌, ◌>>◌, refuse_if,
}
use family_tree_app.ExportJobs.Domain.{
  Error, invalid_export, export_not_found, export_state_conflict, export_tree_unavailable,
  export_archive_too_large, export_visual_too_large, export_result_too_large, Export, is_completed,
  is_expired, is_visual_format,
}
use family_tree_app.ExportJobs.Store.{
  ExportDatabase, Call, put_object, delete_object, Failure, refused, call_failure,
}
use family_tree_app.ExportJobs.Steps.{
  Completion, is_failed, is_running, acquire_for_generation, mark_completed, mark_failed,
}
use family_tree_app.Jobs.Queue.{Job}

-- An object of the storage: its key and its body.
abbrev pub Object : Type 0
Object = Text × Text

pub record World : Type 0 where
  pub database : ExportDatabase
  pub objects : List Object

-- What a handler returns: the errors that it joins, none where it returns nil; and what it leaves.
abbrev pub Handled : Type 0
Handled = List Failure × World

unfoldable pub is_refusal : Error → Failure → Bool
is_refusal invalid_export (refused invalid_export) = true
is_refusal export_not_found (refused export_not_found) = true
is_refusal export_state_conflict (refused export_state_conflict) = true
is_refusal export_tree_unavailable (refused export_tree_unavailable) = true
is_refusal export_archive_too_large (refused export_archive_too_large) = true
is_refusal export_visual_too_large (refused export_visual_too_large) = true
is_refusal export_result_too_large (refused export_result_too_large) = true
is_refusal _ _ = false

unfoldable pub has_key : Text → Object → Bool
has_key key o = text_eq o.0 key

-- `PutObject` replaces what stands under the key.
unfoldable pub put : Text → Text → List Object → List Object
unfolding has_key
put key body objects = (key, body) ∷ select (λ o. not (has_key key o)) objects

unfoldable pub remove : Text → List Object → List Object
unfolding has_key
remove key objects = select (λ o. not (has_key key o)) objects

-- `GeneratorRepository.LoadManifest` and the writers of the formats, of a snapshot of the tree: the
-- generator takes them as they are. A rendering returns its body and its type.
pub record Renderers (Snapshot : Type 0) : Type 0 where
  pub load_manifest : Export → ExportDatabase → Result Failure Snapshot
  pub encode_manifest : Snapshot → Result Failure Text
  pub build_zip : Export → Snapshot → List Object → Result Failure Text
  pub render_visual : Snapshot → Text → Result Failure (Text × Text)
  pub render_gedcom : Snapshot → Result Failure Text
  pub build_gedzip : Export → Snapshot → List Object → Result Failure Text

pub record Config : Type 0 where
  pub result_ttl : ℕ
  pub max_archive_bytes : ℕ

-- The last part of an object's key.
unfoldable pub result_name : Text → Text → Text
unfolding is_visual_format
result_name format checksum =
    if text_eq format (codes "zip_backup")
    then codes "backup-" ++ (checksum ++ codes ".zip")
    else if is_visual_format format
    then codes "tree-" ++ (checksum ++ (codes "." ++ format))
    else if text_eq format (codes "gedcom")
    then codes "tree-" ++ (checksum ++ codes ".ged")
    else if text_eq format (codes "gedzip")
    then codes "tree-" ++ (checksum ++ codes ".gdz")
    else codes "manifest-" ++ (checksum ++ codes ".json")

unfoldable pub result_object_key : (ℕ → Text) → ℕ → ℕ → Text → Text → Text
unfolding result_name
result_object_key uuid_string tree_id export_id format checksum =
    codes "trees/"
    ++ (uuid_string tree_id
        ++ (codes "/exports/"
            ++ (uuid_string export_id ++ (codes "/" ++ result_name format checksum))))

-- The body of a result, and its type: the switch on the format.
module _ {Snapshot : Type 0} (renderers : Renderers Snapshot) (config : Config) where
  unfoldable pub within : Error → Text → Result Failure (Unit {0})
  within e body = refuse_if (ltb config.max_archive_bytes (length body)) (refused e)

  unfoldable pub build : Export → Snapshot → List Object → Result Failure (Text × Text)
  unfolding within is_visual_format
  build e snapshot objects =
      if text_eq e.format (codes "json_backup")
      then (do body ← renderers.encode_manifest snapshot; ok (body, codes "application/json"))
      else if text_eq e.format (codes "zip_backup")
      then (do body ← renderers.build_zip e snapshot objects; ok (body, codes "application/zip"))
      else if is_visual_format e.format
      then (do
        rendered ← renderers.render_visual snapshot e.format
        within export_visual_too_large rendered.0
        ok rendered)
      else if text_eq e.format (codes "gedcom")
      then (do
        body ← renderers.render_gedcom snapshot
        within export_result_too_large body
        ok (body, codes "text/vnd.familysearch.gedcom"))
      else if text_eq e.format (codes "gedzip")
      then (do
        body ← renderers.build_gedzip e snapshot objects
        ok (body, codes "application/vnd.familysearch.gedcom+zip"))
      else err (refused invalid_export)

module _ (io : Call → Bool) where
  unfoldable pub mark_failed_or_join :
      Export → Text → ℕ → List Failure → List Failure → World → Handled
  mark_failed_or_join e code now returned joined world =
      elim (mark_failed io e code now world.database) [
        | ok db ↦ (returned, record world { database = db })
        | err failure ↦ (joined ++ failure ∷ [], world)
      ]

  -- `retryOrFail`.
  unfoldable pub retry_or_fail : Job → Export → ℕ → Failure → World → Handled
  unfolding mark_failed_or_join
  retry_or_fail job e now cause world =
      if ltb job.attempts job.max_attempts
      then (cause ∷ [], world)
      else mark_failed_or_join e (codes "generation_failed") now (cause ∷ []) (cause ∷ []) world

  -- What becomes of an error of the rendering.
  unfoldable pub settle_failure : Job → Export → ℕ → Failure → World → Handled
  unfolding retry_or_fail mark_failed_or_join is_refusal
  settle_failure job e now cause world =
      if is_refusal export_archive_too_large cause
      then mark_failed_or_join e (codes "archive_too_large") now [] (cause ∷ []) world
      else if is_refusal export_visual_too_large cause
      then mark_failed_or_join e (codes "visual_too_large") now [] (cause ∷ []) world
      else if is_refusal export_result_too_large cause
      then mark_failed_or_join e (codes "result_too_large") now [] (cause ∷ []) world
      else retry_or_fail job e now cause world

  -- The mark of a result that is stored.
  unfoldable pub finish : Job → Export → Completion → ℕ → World → Handled
  unfolding retry_or_fail is_refusal remove
  finish job e c now world = elim (mark_completed io e c now world.database) [
    | ok db ↦ ([], record world { database = db })
    | err failure ↦
        if is_refusal export_state_conflict failure
        then (if io delete_object
            then ([], record world { objects = remove c.object_key world.objects })
            else (failure ∷ call_failure ∷ [], world))
        else retry_or_fail job e now failure world
  ]

-- `checksum` is the hexadecimal SHA-256 of a body,
-- and `meanwhile` what the other transactions do between the storing of the object and its mark.
module _ (io : Call → Bool) {Snapshot : Type 0} (renderers : Renderers Snapshot) (config : Config)
    (uuid_string : ℕ → Text) (checksum : Text → Text) (meanwhile : World → World) where
  unfoldable pub store_result : Job → Export → ℕ → Text → Text → World → Handled
  unfolding retry_or_fail put finish result_object_key
  store_result job e now body mime world =
      let key = result_object_key uuid_string e.tree_id e.id e.format (checksum body) in
      if io put_object
      then finish io job e
          (record {
            object_key = key;
            mime_type = mime;
            size_bytes = length body;
            checksum = checksum body;
            until = now + config.result_ttl;
          })
          now (meanwhile (record world { objects = put key body world.objects }))
      else retry_or_fail io job e now call_failure world

  unfoldable pub generate : Job → Export → ℕ → World → Handled
  unfolding mark_failed_or_join retry_or_fail settle_failure build is_refusal store_result
  generate job e now world = elim (renderers.load_manifest e world.database) [
    | err failure ↦
        if is_refusal export_tree_unavailable failure
        then mark_failed_or_join io e (codes "tree_unavailable") now [] (failure ∷ []) world
        else retry_or_fail io job e now failure world
    | ok snapshot ↦ elim (build renderers config e snapshot world.objects) [
      | err failure ↦ settle_failure io job e now failure world
      | ok (body, mime) ↦ store_result job e now body mime world
    ]
  ]

  -- What follows the acquisition.
  unfoldable pub handle_acquired :
      Job → ℕ → World → Result Failure (Export × ExportDatabase) → Handled
  unfolding is_refusal generate
  handle_acquired job now world (err failure) =
      if is_refusal export_not_found failure then ([], world) else (failure ∷ [], world)
  handle_acquired job now world (ok (e, db)) =
      let acquired = record world { database = db } in
      if is_completed e.status || is_failed e.status || is_expired e.status
      then ([], acquired)
      else if not (is_running e.status)
      then (refused export_state_conflict ∷ [], acquired)
      else generate job e now acquired

  -- `Generator.Handle`, where `decode_payload` is what encoding/json makes of a payload: the export
  -- is acquired at `started`, and its end is written at `now`.
  unfoldable pub handle_generate : (Text → Option (ℕ × ℕ)) → Job → ℕ → ℕ → World → Handled
  unfolding handle_acquired
  handle_generate decode_payload job started now world = elim (decode_payload job.payload) [
    | none ↦ (call_failure ∷ [], world)
    | some (tree_id, export_id) ↦
        if not (text_eq job.kind (codes "export.generate")) || (tree_id == 0) || (export_id == 0)
        then (call_failure ∷ [], world)
        else handle_acquired job now world
            (acquire_for_generation io tree_id export_id started world.database)
  ]
