-- ===== src/Backups/Files.antt =====
-- `validateArchive`, `expectedManifestFiles` and `addExpectedFile` of internal/features/exports/restore/archive.go. A map of the
-- code is the list of its pairs; a size is a number, and a negative one, which the code refuses as it refuses 0, is
-- not represented. `checksum` is the SHA-256 digest in hexadecimal digits, `order` the order of the persons.
use family_tree_app.Prelude.{
  ℕ, Bool, true, not, ◌&&◌, ◌||◌, none, some, List, [], ◌∷◌, ◌++◌, Text, codes, text_eq, is_empty,
  is_none, length, ◌==◌, if◌then◌else◌, any, first_row, Result, ok, err, refuse_if, ◌>>=◌, ◌>>◌,
}
use family_tree_app.Backups.Manifest.{Manifest, MediaAsset, MediaVariant}
use family_tree_app.Backups.Validity.{Error, invalid_backup, has_media, validate_manifest_relations}
use family_tree_app.Backups.Paths.{safe_archive_path, valid_checksum}

-- A key, or the path of a file of the archive, with its body.
abbrev pub Object : Type 0
Object = Text × Text

pub record Archive : Type 0 where
  pub manifest : Manifest
  pub files : List Object

pub record FileMetadata : Type 0 where
  pub size_bytes : ℕ
  pub checksum : Text

abbrev pub Expected : Type 0
Expected = List (Text × FileMetadata)

unfoldable pub is_at {ℓ} : {A : Type ℓ} → Text → Text × A → Bool
is_at key o = text_eq o.0 key

unfoldable pub add_expected_file : Expected → Text → ℕ → Text → Result Error Expected
unfolding is_at safe_archive_path valid_checksum
add_expected_file result name size_bytes checksum = do
  refuse_if
      (not (safe_archive_path name)
        || text_eq name (codes "manifest.json")
        || text_eq name (codes "checksums.sha256")
        || (size_bytes == 0)
        || not (valid_checksum checksum))
      invalid_backup
  refuse_if (any (is_at name) result) invalid_backup
  ok ((name, record { size_bytes = size_bytes; checksum = checksum }) ∷ result)

-- The end of a round of the loops of `expectedManifestFiles`: the path of the row, if it has one, is the canonical one.
unfoldable pub expect_file : Text → Text → ℕ → Text → Expected → Result Error Expected
unfolding add_expected_file
expect_file path canonical size_bytes checksum result =
    if is_empty path
    then ok result
    else if not (text_eq path canonical)
    then err invalid_backup
    else add_expected_file result path size_bytes checksum

unfoldable pub requires_file : MediaAsset → Bool
requires_file a =
    is_none a.deleted_at
    && (text_eq a.status (codes "uploaded")
        || text_eq a.status (codes "processing")
        || text_eq a.status (codes "ready"))

-- `mediaRequiresFiles[id]`.
unfoldable pub media_requires_files : Manifest → ℕ → Bool
unfolding requires_file
media_requires_files m id = any (λ (a : MediaAsset). (a.id == id) && requires_file a) m.media_assets

module _ (uuid_string : ℕ → Text) where
  unfoldable pub asset_path : MediaAsset → Text
  asset_path a = codes "media/" ++ (uuid_string a.id ++ codes "/original")

  unfoldable pub variant_path : MediaVariant → Text
  variant_path v = codes "media/" ++ (uuid_string v.media_id ++ (codes "/variants/" ++ v.kind))

  -- One round of the loop over the assets: the file that it expects, if any.
  unfoldable pub expect_asset : List MediaAsset → MediaAsset → Expected → Result Error Expected
  unfolding requires_file asset_path expect_file
  expect_asset seen a result = do
    refuse_if (a.id == 0) invalid_backup
    refuse_if (any (λ (b : MediaAsset). b.id == a.id) seen) invalid_backup
    refuse_if (requires_file a && is_empty a.archive_path) invalid_backup
    expect_file a.archive_path (asset_path a) a.size_bytes a.checksum result

  unfoldable pub expect_assets :
      List MediaAsset → List MediaAsset → Expected → Result Error Expected
  unfolding expect_asset
  expect_assets seen [] result = ok result
  expect_assets seen (a ∷ rest) result = do
    more ← expect_asset seen a result
    expect_assets (a ∷ seen) rest more

  unfoldable pub expect_variant : Manifest → MediaVariant → Expected → Result Error Expected
  unfolding has_media media_requires_files variant_path expect_file
  expect_variant m v result = do
    refuse_if ((v.id == 0) || (v.media_id == 0)) invalid_backup
    refuse_if (not (has_media m v.media_id)) invalid_backup
    refuse_if (media_requires_files m v.media_id && is_empty v.archive_path) invalid_backup
    expect_file v.archive_path (variant_path v) v.size_bytes v.checksum result

  unfoldable pub expect_variants : Manifest → List MediaVariant → Expected → Result Error Expected
  unfolding expect_variant
  expect_variants m [] result = ok result
  expect_variants m (v ∷ rest) result = do
    more ← expect_variant m v result
    expect_variants m rest more

  unfoldable pub expected_manifest_files : Manifest → Result Error Expected
  unfolding expect_assets expect_variants
  expected_manifest_files m = do
    assets ← expect_assets [] m.media_assets []
    expect_variants m m.media_variants assets

-- A file that is not there, or is not the one that was expected.
unfoldable pub is_mismatch : (Text → Text) → List Object → Text × FileMetadata → Bool
unfolding is_at first_row
is_mismatch checksum files (name, metadata) = elim (first_row (is_at name) files) [
  | none ↦ true
  | some file ↦
      not (length file.1 == metadata.size_bytes)
      || not (text_eq (checksum file.1) metadata.checksum)
]

unfoldable pub is_supported : Manifest → Bool
is_supported m =
    text_eq (m.schema).name (codes "family_tree_backup")
    && ((m.schema).version == 1)
    && text_eq (m.export_metadata).format (codes "zip_backup")

unfoldable pub validate_archive :
    (Text → Text) → (ℕ → Text) → List ℕ → Archive → Result Error (Unit {0})
unfolding is_mismatch is_supported expected_manifest_files validate_manifest_relations
validate_archive checksum uuid_string order archive = do
  refuse_if (not (is_supported archive.manifest)) invalid_backup
  validate_manifest_relations order archive.manifest
  expected ← expected_manifest_files uuid_string archive.manifest
  refuse_if (not (length expected == length archive.files)) invalid_backup
  refuse_if (any (is_mismatch checksum archive.files) expected) invalid_backup
