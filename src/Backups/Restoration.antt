-- ===== src/Backups/Restoration.antt =====
-- `Restorer.Restore` of internal/features/exports/restore/postgres.go: the checks, the transaction and the objects. The
-- transaction that commits may be applied though its answer is lost.
use family_tree_app.Prelude.{
  ℕ, Bool, true, not, ◌&&◌, List, [], Text, length, ◌==◌, if◌then◌else◌, any, ok, err,
}
use family_tree_app.Backups.Validity.{invalid_backup}
use family_tree_app.Backups.Files.{Archive, Object, validate_archive}
use family_tree_app.Backups.Restorer.{
  Failure, refused, database_failure, Uploads, restore_objects, cleanup_objects,
}
use family_tree_app.Backups.Records.{
  Tables, Call, begin, read_audit, insert_tree_row, restore_records,
}

-- What the database does with a commit: it applies it and answers, does not apply it, or applies it and does
-- not answer.
pub data Commit : Type 0 where
  applied not_applied unanswered : Commit

pub record World : Type 0 where
  pub tables : Tables
  pub objects : List Object

-- Restored, with the number of objects; or an error, and whether the removal of the objects was answered.
pub data Outcome : Type 0 where
  restored : ℕ → Outcome
  failed : Failure → Bool → Outcome

-- The end of a restoration that fails: the tables are as they were, and the objects go.
unfoldable pub give_up : (Text → Bool) → Failure → Uploads → Tables → Outcome × World
unfolding cleanup_objects
give_up deletes e u tables =
    let (answered, objects) = cleanup_objects deletes u.uploaded u.objects in
    (failed e answered, record { tables = tables; objects = objects })

-- `restoreCommitted`: whether the audit log tells of the restoration.
unfoldable pub is_restored : Archive → Tables → Bool
is_restored archive tables =
    let m = archive.manifest in
    any (λ (r : ℕ × ℕ). (r.0 == (m.tree).id) && (r.1 == (m.export_metadata).id)) tables.restored

module _ (io : Call → Bool) (puts deletes : Text → Bool) (commit : Commit) (uuid_string : ℕ → Text)
    (json_valid : Text → Bool) (canonical_json : Text → Text) (derive : ℕ → Text → ℕ)
    (checksum : Text → Text) (order : List ℕ) where
  unfoldable pub finish_restore : Archive → Uploads → Tables → Tables → Outcome × World
  unfolding give_up is_restored
  finish_restore archive u before after = elim commit [
    | applied ↦ (restored (length u.uploaded), record { tables = after; objects = u.objects })
    | not_applied ↦
        if io read_audit && is_restored archive before
        then (restored (length u.uploaded), record { tables = before; objects = u.objects })
        else give_up deletes database_failure u before
    | unanswered ↦
        if io read_audit && is_restored archive after
        then (restored (length u.uploaded), record { tables = after; objects = u.objects })
        else give_up deletes database_failure u after
  ]

  -- `Restore` once the row of the tree is there.
  unfoldable pub restore_content : ℕ → Archive → World → Tables → Outcome × World
  unfolding restore_objects restore_records finish_restore give_up
  restore_content now archive w with_tree =
      let start : Uploads = record { objects = w.objects; uploaded = [] } in
      let (uploads, u) = restore_objects uuid_string puts archive start in
      elim uploads [
        | err e ↦ give_up deletes e u w.tables
        | ok _ ↦
            elim (restore_records io uuid_string json_valid canonical_json derive archive.manifest
              now with_tree) [
                | err e ↦ give_up deletes e u w.tables
                | ok after ↦ finish_restore archive u w.tables after
              ]
      ]

  unfoldable pub restore : ℕ → Archive → World → Outcome × World
  unfolding validate_archive insert_tree_row restore_content
  restore now archive w =
      let m = archive.manifest in
      if (m.tree).id == 0
      then (failed (refused invalid_backup) true, w)
      else elim (validate_archive checksum uuid_string order archive) [
        | err e ↦ (failed (refused e) true, w)
        | ok _ ↦
            if not (io begin)
            then (failed database_failure true, w)
            else elim (insert_tree_row io m.tree w.tables) [
              | err e ↦ (failed e true, w)
              | ok with_tree ↦ restore_content now archive w with_tree
            ]
      ]
