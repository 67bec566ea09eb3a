-- ===== src/Backups/Restorable.antt =====
-- An archive that `validateArchive` or `ParseZIP` of internal/features/exports/restore/archive.go accepts has each file that its
-- manifest names, as the manifest describes it.
use family_tree_app.Prelude.{
  first_row-In, In-any, ==_refl, ◌≢◌, ◌⊎◌, ◌∷◌, ◌++◌, ◌&&◌, ◌==◌, none, refl, text_eq, ℕ, ◌≡◌, inl,
  inr, true, false, List, [], Text, text_eq-eq, codes, is_empty, length, any, first_row, In, ok,
  Option-cases, Result-cases, arith,
}
use family_tree_app.Backups.Manifest.{Manifest, MediaAsset, MediaVariant}
use family_tree_app.Backups.Graph.{occurrences}
use family_tree_app.Backups.Validity.{validate_manifest_relations}
use family_tree_app.Backups.Soundness.{person_ids, IsSound, any-false}
use family_tree_app.Backups.Checks.{validate_manifest_relations-IsSound}
use family_tree_app.Backups.Files.{
  Object, Archive, Expected, is_at, requires_file, media_requires_files, is_supported, asset_path,
  variant_path, expected_manifest_files, is_mismatch, validate_archive,
}
use family_tree_app.Backups.Contents.{described, ManifestExpected, manifest-expected}

-- A file of that path, with that size and that digest.
pub record IsStored (checksum : Text → Text) (files : List Object) (path : Text) (size : ℕ)
    (sum : Text) : Type 0 where
  pub file : Object
  pub listed : In file files
  pub at : file.0 ≡ path
  pub sized : length file.1 ≡ size
  pub summed : checksum file.1 ≡ sum

-- An asset whose file is to be in a backup: one that is not deleted, and that was uploaded.
abbrev pub NeedsFile : MediaAsset → Type 0
NeedsFile a =
    (a.deleted_at ≡ none)
    × ((a.status ≡ codes "uploaded")
        ⊎ ((a.status ≡ codes "processing") ⊎ (a.status ≡ codes "ready")))

pub record IsRestorable (checksum : Text → Text) (uuid_string : ℕ → Text) (archive : Archive)
    : Type 0 where
  pub schema_named : (archive.manifest.schema).name ≡ codes "family_tree_backup"
  pub schema_first : (archive.manifest.schema).version ≡ 1
  pub zipped : (archive.manifest.export_metadata).format ≡ codes "zip_backup"
  pub sound : IsSound archive.manifest
  pub needed :
      (a : MediaAsset) → In a (archive.manifest).media_assets → NeedsFile a → a.archive_path ≢ []
  pub variant_needed :
      (v : MediaVariant) (a : MediaAsset)
      → In v (archive.manifest).media_variants
      → In a (archive.manifest).media_assets
      → a.id ≡ v.media_id
      → NeedsFile a
      → v.archive_path ≢ []
  pub asset_named :
      (a : MediaAsset)
      → In a (archive.manifest).media_assets
      → a.archive_path ≢ []
      → a.archive_path ≡ codes "media/" ++ (uuid_string a.id ++ codes "/original")
  pub variant_named :
      (v : MediaVariant)
      → In v (archive.manifest).media_variants
      → v.archive_path ≢ []
      → v.archive_path
        ≡ codes "media/" ++ (uuid_string v.media_id ++ (codes "/variants/" ++ v.kind))
  pub assets :
      (a : MediaAsset)
      → In a (archive.manifest).media_assets
      → a.archive_path ≢ []
      → IsStored checksum archive.files a.archive_path a.size_bytes a.checksum
  pub variants :
      (v : MediaVariant)
      → In v (archive.manifest).media_variants
      → v.archive_path ≢ []
      → IsStored checksum archive.files v.archive_path v.size_bytes v.checksum

filled : (path : Text) → path ≢ [] → is_empty path ≡ false
filled [] h = absurd (h refl)
filled (c ∷ s) h = refl

requires_file-NeedsFile : (a : MediaAsset) → NeedsFile a → requires_file a ≡ true
unfolding requires_file text_eq
requires_file-NeedsFile a (live, inl at) = rw (live, at) refl
requires_file-NeedsFile a (live, inr (inl at)) = rw (live, at) refl
requires_file-NeedsFile a (live, inr (inr at)) = rw (live, at) refl

media_requires-NeedsFile :
    (m : Manifest) (a : MediaAsset) (id : ℕ)
    → In a m.media_assets
    → a.id ≡ id
    → NeedsFile a
    → media_requires_files m id ≡ true
unfolding media_requires_files
media_requires-NeedsFile m a id i same needs =
    In-any a (λ (b : MediaAsset). (b.id == id) && requires_file b) m.media_assets i
      (rw (same, ==_refl id, requires_file-NeedsFile a needs) refl)

supported :
    (m : Manifest)
    → is_supported m ≡ true
    → ((m.schema).name ≡ codes "family_tree_backup")
      × ((m.schema).version ≡ 1)
      × ((m.export_metadata).format ≡ codes "zip_backup")
unfolding is_supported
supported m h = (
  text_eq-eq (m.schema).name _ (ground (arith, h)),
  ground (arith, h),
  text_eq-eq (m.export_metadata).format _ (ground (arith, h)),
)

stored :
    (checksum : Text → Text) (files : List Object) (path : Text) (size : ℕ) (sum : Text)
    → is_mismatch checksum files (described path size sum) ≡ false
    → IsStored checksum files path size sum
unfolding is_mismatch is_at
stored checksum files path size sum h = elim (Option-cases (first_row (is_at path) files)) [
  | inl missing ↦ absurd (ground (arith, h, missing))
  | inr (file, found) ↦
      let (listed, at) = first_row-In (is_at path) files found in
      record {
        file = file;
        listed = listed;
        at = text_eq-eq file.0 path at;
        sized = ground (arith, h, found);
        summed = text_eq-eq (checksum file.1) sum (ground (arith, h, found));
      }
]

module _ (checksum : Text → Text) (uuid_string : ℕ → Text) (order : List ℕ) where
  pub validated :
      (archive : Archive)
      → validate_archive checksum uuid_string order archive ≡ ok tt
      → (expected : Expected) × (validate_manifest_relations order archive.manifest ≡ ok tt)
        × (expected_manifest_files uuid_string archive.manifest ≡ ok expected)
        × (any (is_mismatch checksum archive.files) expected ≡ false)
        × (is_supported archive.manifest ≡ true)
  unfolding validate_archive
  validated archive h = elim (Result-cases (validate_manifest_relations order archive.manifest)) [
    | inr (e, refusal) ↦ absurd (ground (arith, h, refusal))
    | inl (_, relations) ↦
        elim (Result-cases (expected_manifest_files uuid_string archive.manifest)) [
          | inr (e, refusal) ↦ absurd (ground (arith, h, refusal, relations))
          | inl (expected, files) ↦
              (expected, relations, files, ground (arith, h, relations, files), ground (arith, h))
        ]
  ]

  -- An archive that the check accepts can be restored: its manifest is sound, each asset that needs a file has one, and each file
  -- that a row names is there, with the size and the digest of the row. The order has the same identifiers as the
  -- persons.
  pub validate_archive-IsRestorable :
      (archive : Archive)
      → ((c : ℕ) → occurrences c order ≡ occurrences c (person_ids archive.manifest))
      → validate_archive checksum uuid_string order archive ≡ ok tt
      → IsRestorable checksum uuid_string archive
  unfolding asset_path variant_path
  validate_archive-IsRestorable archive reordered h =
      let (expected, relations, files, matched, known) = validated archive h in
      let m : ManifestExpected uuid_string archive.manifest expected =
        manifest-expected uuid_string archive.manifest expected files in
      let (name, version, format) = supported archive.manifest known in
      let bad = is_mismatch checksum archive.files in
      record {
        schema_named = name;
        schema_first = version;
        zipped = format;
        sound = validate_manifest_relations-IsSound archive.manifest order reordered relations;
        needed = λ a i needs empty.
            ground (arith, m.needed a i (requires_file-NeedsFile a needs), empty);
        variant_needed = λ v a i j same needs empty. ground (
          arith,
          m.variant_file v i (media_requires-NeedsFile archive.manifest a v.media_id j same needs),
          empty,
        );
        asset_named = λ a i named. m.asset_written a i (filled a.archive_path named);
        variant_named = λ v i named. m.variant_written v i (filled v.archive_path named);
        assets = λ a i named.
            stored checksum archive.files _ _ _
              (any-false bad expected matched _ (m.assets a i (filled a.archive_path named)));
        variants = λ v i named.
            stored checksum archive.files _ _ _
              (any-false bad expected matched _ (m.variants v i (filled v.archive_path named)));
      }
