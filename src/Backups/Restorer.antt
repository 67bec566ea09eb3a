-- ===== src/Backups/Restorer.antt =====
-- `Restorer.Restore` of internal/features/exports/restore/postgres.go, as far as the storage of objects goes: the
-- objects of a backup are put where none stands, and are removed again where the restoration fails. `records` is what
-- the transaction on the tables answers. `puts` and `deletes` say for which keys the storage answers.
use family_tree_app.Prelude.{
  ℕ, Bool, true, false, not, none, some, List, [], ◌∷◌, ◌++◌, Text, codes, is_empty, if◌then◌else◌,
  map, any, select, first_row, Result, ok, err,
}
use family_tree_app.Backups.Manifest.{Manifest, MediaAsset, MediaVariant}
use family_tree_app.Backups.Files.{Object, Archive, is_at}
use family_tree_app.Backups.Validity.{Error, invalid_backup, restore_conflict}

pub data Failure : Type 0 where
  refused : Error → Failure
  store_failure database_failure : Failure

-- The storage, and the keys that the restoration has uploaded, the last one first.
pub record Uploads : Type 0 where
  pub objects : List Object
  pub uploaded : List Text

module _ (uuid_string : ℕ → Text) where
  unfoldable pub original_object_key : ℕ → ℕ → Text
  original_object_key tree_id media_id =
      codes "trees/"
      ++ (uuid_string tree_id ++ (codes "/media/" ++ (uuid_string media_id ++ codes "/original")))

  unfoldable pub variant_object_key : ℕ → ℕ → Text → Text
  variant_object_key tree_id media_id kind =
      codes "trees/"
      ++ (uuid_string tree_id
          ++ (codes "/media/"
              ++ (uuid_string media_id ++ (codes "/variants/" ++ (kind ++ codes ".jpg")))))

-- `putNewObject`.
unfoldable pub put_new_object :
    (Text → Bool) → Text → Text → List Object → Result Failure (List Object)
unfolding is_at
put_new_object puts key body objects =
    if any (is_at key) objects
    then err (refused restore_conflict)
    else if puts key
    then ok ((key, body) ∷ objects)
    else err store_failure

module _ (puts : Text → Bool) (archive : Archive) where
  -- One round of a loop of `restoreObjects`: a row with no file is left out.
  unfoldable pub restore_object : Text → Text → Uploads → Result Failure (Unit {0}) × Uploads
  unfolding put_new_object is_at first_row
  restore_object key path u =
      if is_empty path then (ok tt, u) else elim (first_row (is_at path) archive.files) [
        | none ↦ (err (refused invalid_backup), u)
        | some file ↦ elim (put_new_object puts key file.1 u.objects) [
          | ok objects ↦ (ok tt, record { objects = objects; uploaded = key ∷ u.uploaded })
          | err e ↦ (err e, u)
        ]
      ]

  -- The loop, over the keys and the paths of the rows.
  unfoldable pub restore_each : List (Text × Text) → Uploads → Result Failure (Unit {0}) × Uploads
  unfolding restore_object
  restore_each [] u = (ok tt, u)
  restore_each ((key, path) ∷ rows) u =
      let (outcome, u') = restore_object key path u in
      elim outcome [ ok _ ↦ restore_each rows u' | err e ↦ (err e, u') ]

unfoldable pub asset_rows : (ℕ → Text) → Manifest → List (Text × Text)
unfolding original_object_key
asset_rows uuid_string m =
    map (λ (a : MediaAsset). (original_object_key uuid_string (m.tree).id a.id, a.archive_path))
      m.media_assets

unfoldable pub variant_rows : (ℕ → Text) → Manifest → List (Text × Text)
unfolding variant_object_key
variant_rows uuid_string m =
    map
      (λ (v : MediaVariant).
        (variant_object_key uuid_string (m.tree).id v.media_id v.kind, v.archive_path))
      m.media_variants

unfoldable pub restore_objects :
    (ℕ → Text) → (Text → Bool) → Archive → Uploads → Result Failure (Unit {0}) × Uploads
unfolding restore_each asset_rows variant_rows
restore_objects uuid_string puts archive u =
    let (outcome, u') = restore_each puts archive (asset_rows uuid_string archive.manifest) u in
    elim outcome [
      | ok _ ↦ restore_each puts archive (variant_rows uuid_string archive.manifest) u'
      | err e ↦ (err e, u')
    ]

-- `cleanupObjects`: whether every removal was answered, and what is left.
unfoldable pub cleanup_objects : (Text → Bool) → List Text → List Object → Bool × List Object
unfolding is_at
cleanup_objects deletes [] objects = (true, objects)
cleanup_objects deletes (key ∷ keys) objects =
    let (rest, left) =
      cleanup_objects deletes keys
        (if deletes key then select (λ o. not (is_at key o)) objects else objects) in
    (if deletes key then rest else false, left)
