-- ===== src/Backups/Contents.antt =====
-- What `expectedManifestFiles` of internal/features/exports/restore/archive.go expects: each file that the manifest names.
use family_tree_app.Prelude.{
  text_eq-eq, ℕ, ◌≡◌, refl, subst, inl, inr, true, false, List, [], ◌∷◌, Text, is_empty, In, ok,
  Bool-cases, Result-cases, arith,
}
use family_tree_app.Backups.Manifest.{Manifest, MediaAsset, MediaVariant}
use family_tree_app.Backups.Files.{
  FileMetadata, Expected, add_expected_file, expect_file, requires_file, media_requires_files,
  asset_path, variant_path, expect_asset, expect_assets, expect_variant, expect_variants,
  expected_manifest_files,
}

abbrev pub described : Text → ℕ → Text → Text × FileMetadata
described path size sum = (path, record { size_bytes = size; checksum = sum })

add_expected_file-made :
    (result out : Expected) (name : Text) (size : ℕ) (sum : Text)
    → add_expected_file result name size sum ≡ ok out
    → out ≡ described name size sum ∷ result
unfolding add_expected_file
add_expected_file-made result out name size sum h = ground (arith, h)

-- What is expected stays so, and the file of the row is expected.
record IsExtended (result out : Expected) (canonical path : Text) (size : ℕ) (sum : Text)
    : Type 0 where
  kept : (e : Text × FileMetadata) → In e result → In e out
  written : is_empty path ≡ false → path ≡ canonical
  listed : is_empty path ≡ false → In (described path size sum) out

expect_file-IsExtended :
    (path canonical : Text) (size : ℕ) (sum : Text) (result out : Expected)
    → expect_file path canonical size sum result ≡ ok out
    → IsExtended result out canonical path size sum
unfolding expect_file
expect_file-IsExtended path canonical size sum result out h = elim (Bool-cases (is_empty path)) [
  | inl bare ↦
      let same : result ≡ out = ground (arith, h, bare) in
      record {
        kept = λ e i. subst (In e) same i;
        written = λ named. absurd (ground (arith, bare, named));
        listed = λ named. absurd (ground (arith, bare, named));
      }
  | inr named ↦
      let added : add_expected_file result path size sum ≡ ok out = ground (arith, h, named) in
      let made = add_expected_file-made result out path size sum added in
      record {
        kept = λ e i. rw made (inr i);
        written = λ _. text_eq-eq path canonical (ground (arith, h, named));
        listed = λ _. rw made (inl refl);
      }
]

module _ (uuid_string : ℕ → Text) where
  asset-IsExtended :
      (seen : List MediaAsset) (a : MediaAsset) (result out : Expected)
      → expect_asset uuid_string seen a result ≡ ok out
      → IsExtended result out (asset_path uuid_string a) a.archive_path a.size_bytes a.checksum
  unfolding expect_asset
  asset-IsExtended seen a result out h =
      expect_file-IsExtended a.archive_path (asset_path uuid_string a) a.size_bytes a.checksum
        result out (ground (arith, h))

  asset_needed :
      (seen : List MediaAsset) (a : MediaAsset) (result out : Expected)
      → expect_asset uuid_string seen a result ≡ ok out
      → requires_file a ≡ true
      → is_empty a.archive_path ≡ false
  unfolding expect_asset
  asset_needed seen a result out h needed = ground (arith, h, needed)

  variant_needed :
      (m : Manifest) (v : MediaVariant) (result out : Expected)
      → expect_variant uuid_string m v result ≡ ok out
      → media_requires_files m v.media_id ≡ true
      → is_empty v.archive_path ≡ false
  unfolding expect_variant
  variant_needed m v result out h needed = ground (arith, h, needed)

  variant-IsExtended :
      (m : Manifest) (v : MediaVariant) (result out : Expected)
      → expect_variant uuid_string m v result ≡ ok out
      → IsExtended result out (variant_path uuid_string v) v.archive_path v.size_bytes v.checksum
  unfolding expect_variant
  variant-IsExtended m v result out h =
      expect_file-IsExtended v.archive_path (variant_path uuid_string v) v.size_bytes v.checksum
        result out (ground (arith, h))

  -- What the loop over the assets leaves.
  record AssetsExpected (assets : List MediaAsset) (result out : Expected) : Type 0 where
    kept : (e : Text × FileMetadata) → In e result → In e out
    needed :
        (a : MediaAsset) → In a assets → requires_file a ≡ true → is_empty a.archive_path ≡ false
    written :
        (a : MediaAsset)
        → In a assets
        → is_empty a.archive_path ≡ false
        → a.archive_path ≡ asset_path uuid_string a
    listed :
        (a : MediaAsset)
        → In a assets
        → is_empty a.archive_path ≡ false
        → In (described a.archive_path a.size_bytes a.checksum) out

  expect_assets-AssetsExpected :
      (seen assets : List MediaAsset) (result out : Expected)
      → expect_assets uuid_string seen assets result ≡ ok out
      → AssetsExpected assets result out
  unfolding expect_assets
  expect_assets-AssetsExpected seen [] result out h =
      let same : result ≡ out = ground (arith, h) in
      record {
        kept = λ e i. subst (In e) same i;
        needed = λ a i. absurd i;
        written = λ a i. absurd i;
        listed = λ a i. absurd i;
      }
  expect_assets-AssetsExpected seen (a ∷ rest) result out h =
      elim (Result-cases (expect_asset uuid_string seen a result)) [
        | inr (e, refusal) ↦ absurd (ground (arith, h, refusal))
        | inl (more, first) ↦
            let after : expect_assets uuid_string (a ∷ seen) rest more ≡ ok out =
              ground (arith, h, first) in
            let one = asset-IsExtended seen a result more first in
            let others = expect_assets-AssetsExpected (a ∷ seen) rest more out after in
            record {
              kept = λ e i. others.kept e (one.kept e i);
              needed = λ b i. elim i [
                | inl same ↦ rw same (asset_needed seen a result more first)
                | inr j ↦ others.needed b j
              ];
              written =
                  λ b i. elim i [ inl same ↦ rw same one.written | inr j ↦ others.written b j ];
              listed = λ b i. elim i [
                | inl same ↦ rw same (λ named. others.kept _ (one.listed named))
                | inr j ↦ others.listed b j
              ];
            }
      ]

  record VariantsExpected (m : Manifest) (variants : List MediaVariant) (result out : Expected)
      : Type 0 where
    kept : (e : Text × FileMetadata) → In e result → In e out
    needed :
        (v : MediaVariant)
        → In v variants
        → media_requires_files m v.media_id ≡ true
        → is_empty v.archive_path ≡ false
    written :
        (v : MediaVariant)
        → In v variants
        → is_empty v.archive_path ≡ false
        → v.archive_path ≡ variant_path uuid_string v
    listed :
        (v : MediaVariant)
        → In v variants
        → is_empty v.archive_path ≡ false
        → In (described v.archive_path v.size_bytes v.checksum) out

  expect_variants-VariantsExpected :
      (m : Manifest) (variants : List MediaVariant) (result out : Expected)
      → expect_variants uuid_string m variants result ≡ ok out
      → VariantsExpected m variants result out
  unfolding expect_variants
  expect_variants-VariantsExpected m [] result out h =
      let same : result ≡ out = ground (arith, h) in
      record {
        kept = λ e i. subst (In e) same i;
        needed = λ v i. absurd i;
        written = λ v i. absurd i;
        listed = λ v i. absurd i;
      }
  expect_variants-VariantsExpected m (v ∷ rest) result out h =
      elim (Result-cases (expect_variant uuid_string m v result)) [
        | inr (e, refusal) ↦ absurd (ground (arith, h, refusal))
        | inl (more, first) ↦
            let after : expect_variants uuid_string m rest more ≡ ok out =
              ground (arith, h, first) in
            let one = variant-IsExtended m v result more first in
            let others = expect_variants-VariantsExpected m rest more out after in
            record {
              kept = λ e i. others.kept e (one.kept e i);
              needed = λ w i. elim i [
                | inl same ↦ rw same (variant_needed m v result more first)
                | inr j ↦ others.needed w j
              ];
              written =
                  λ w i. elim i [ inl same ↦ rw same one.written | inr j ↦ others.written w j ];
              listed = λ w i. elim i [
                | inl same ↦ rw same (λ named. others.kept _ (one.listed named))
                | inr j ↦ others.listed w j
              ];
            }
      ]

  pub record ManifestExpected (m : Manifest) (out : Expected) : Type 0 where
    pub needed :
        (a : MediaAsset)
        → In a m.media_assets
        → requires_file a ≡ true
        → is_empty a.archive_path ≡ false
    pub asset_written :
        (a : MediaAsset)
        → In a m.media_assets
        → is_empty a.archive_path ≡ false
        → a.archive_path ≡ asset_path uuid_string a
    pub variant_file :
        (v : MediaVariant)
        → In v m.media_variants
        → media_requires_files m v.media_id ≡ true
        → is_empty v.archive_path ≡ false
    pub variant_written :
        (v : MediaVariant)
        → In v m.media_variants
        → is_empty v.archive_path ≡ false
        → v.archive_path ≡ variant_path uuid_string v
    pub assets :
        (a : MediaAsset)
        → In a m.media_assets
        → is_empty a.archive_path ≡ false
        → In (described a.archive_path a.size_bytes a.checksum) out
    pub variants :
        (v : MediaVariant)
        → In v m.media_variants
        → is_empty v.archive_path ≡ false
        → In (described v.archive_path v.size_bytes v.checksum) out

  pub manifest-expected :
      (m : Manifest) (out : Expected)
      → expected_manifest_files uuid_string m ≡ ok out
      → ManifestExpected m out
  unfolding expected_manifest_files
  manifest-expected m out h = elim (Result-cases (expect_assets uuid_string [] m.media_assets [])) [
    | inr (e, refusal) ↦ absurd (ground (arith, h, refusal))
    | inl (more, first) ↦
        let rest : expect_variants uuid_string m m.media_variants more ≡ ok out =
          ground (arith, h, first) in
        let one = expect_assets-AssetsExpected [] m.media_assets [] more first in
        let others = expect_variants-VariantsExpected m m.media_variants more out rest in
        record {
          needed = one.needed;
          asset_written = one.written;
          variant_file = others.needed;
          variant_written = others.written;
          assets = λ a i named. others.kept _ (one.listed a i named);
          variants = others.listed;
        }
  ]
