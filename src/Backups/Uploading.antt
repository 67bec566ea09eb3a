-- ===== src/Backups/Uploading.antt =====
-- What `restoreObjects` of internal/features/exports/restore/postgres.go puts where it ends without an error: each file of a row,
-- under the key of the row.
use family_tree_app.Prelude.{
  ℕ, ◌≡◌, ◌≢◌, refl, inl, inr, Bool, List, [], ◌∷◌, ◌++◌, Text, codes, text_eq-eq, is_empty,
  first_row, first_row-In, In, map-In, ok, Bool-cases, Option-cases, Result-cases, arith, subst,
}
use family_tree_app.Backups.Manifest.{MediaAsset, MediaVariant}
use family_tree_app.Backups.Files.{Archive, Object, is_at}
use family_tree_app.Backups.Restorer.{
  Uploads, original_object_key, variant_object_key, put_new_object, restore_object, restore_each,
  asset_rows, variant_rows, restore_objects,
}

-- The file of the archive at the path stands in the storage under the key.
abbrev pub Stands : List Object → Text → Text → List Object → Type 0
Stands files key path objects =
    (file : Object) × In file files × (file.0 ≡ path) × In (key, file.1) objects

module _ (puts : Text → Bool) (archive : Archive) where
  put-made :
      (key body : Text) (objects out : List Object)
      → put_new_object puts key body objects ≡ ok out
      → out ≡ (key, body) ∷ objects
  unfolding put_new_object
  put-made key body objects out h = ground (arith, h)

  object-keeps :
      (key path : Text) (u : Uploads) (o : Object)
      → In o u.objects
      → In o (restore_object puts archive key path u).1.objects
  unfolding restore_object
  object-keeps key path u o i = elim (Bool-cases (is_empty path)) [
    | inl bare ↦ rw (bare, restore_object) i
    | inr named ↦ elim (Option-cases (first_row (is_at path) archive.files)) [
      | inl missing ↦ rw (named, restore_object, missing) i
      | inr (file, found) ↦ elim (Result-cases (put_new_object puts key file.1 u.objects)) [
        | inl (out, done) ↦
            rw (named, restore_object, found, done, put-made key file.1 u.objects out done) (inr i)
        | inr (e, stopped) ↦ rw (named, restore_object, found, stopped) i
      ]
    ]
  ]

  object-puts :
      (key path : Text) (u : Uploads)
      → (restore_object puts archive key path u).0 ≡ ok tt
      → path ≢ []
      → Stands archive.files key path (restore_object puts archive key path u).1.objects
  unfolding restore_object is_at
  object-puts key [] u h there = absurd (there refl)
  object-puts key (c ∷ s) u h there =
      let path : Text = c ∷ s in
      elim (Option-cases (first_row (is_at path) archive.files)) [
        | inl missing ↦ absurd (ground (arith, h, missing))
        | inr (file, found) ↦ elim (Result-cases (put_new_object puts key file.1 u.objects)) [
          | inr (e, stopped) ↦ absurd (ground (arith, h, found, stopped))
          | inl (out, done) ↦
              let (listed, at) = first_row-In (is_at path) archive.files found in
              (
                file,
                listed,
                text_eq-eq file.0 path at,
                rw (found, restore_object, done, put-made key file.1 u.objects out done) (inl refl),
              )
        ]
      ]

  each-keeps :
      (rows : List (Text × Text)) (u : Uploads) (o : Object)
      → In o u.objects
      → In o (restore_each puts archive rows u).1.objects
  unfolding restore_each
  each-keeps [] u o i = i
  each-keeps ((key, path) ∷ rows) u o i =
      let next = object-keeps key path u o i in
      elim (Result-cases (restore_object puts archive key path u).0) [
        | inl (_, done) ↦ rw (done, restore_each) (each-keeps rows _ o next)
        | inr (e, stopped) ↦ rw (stopped, restore_each) next
      ]

  each-puts :
      (rows : List (Text × Text)) (u : Uploads)
      → (restore_each puts archive rows u).0 ≡ ok tt
      → (row : Text × Text) → In row rows
      → row.1 ≢ []
      → Stands archive.files row.0 row.1 (restore_each puts archive rows u).1.objects
  unfolding restore_each
  each-puts [] u h row i there = absurd i
  each-puts ((key, path) ∷ rows) u h row i there =
      elim (Result-cases (restore_object puts archive key path u).0) [
        | inr (e, stopped) ↦ absurd (ground (arith, h, stopped))
        | inl (_, done) ↦
            rw (done, restore_each)
              (elim i [
                | inl same ↦ rw same (
                    let (file, listed, at, put) =
                      object-puts key path u done
                        (subst (λ (r : Text × Text). r.1 ≢ []) same there) in
                    (file, listed, at, each-keeps rows _ (key, file.1) put))
                | inr j ↦ each-puts rows _ (ground (arith, h, done)) row j there
              ])
      ]

  module _ (uuid_string : ℕ → Text) (u : Uploads)
      (done : (restore_objects uuid_string puts archive u).0 ≡ ok tt) where
    pub assets-stand :
        (a : MediaAsset)
        → In a (archive.manifest).media_assets
        → a.archive_path ≢ []
        → Stands archive.files
            (codes "trees/"
              ++ (uuid_string (archive.manifest.tree).id
                  ++ (codes "/media/" ++ (uuid_string a.id ++ codes "/original"))))
            a.archive_path
            (restore_objects uuid_string puts archive u).1.objects
    unfolding restore_objects asset_rows original_object_key
    assets-stand a i there =
        let rows = asset_rows uuid_string archive.manifest in
        elim (Result-cases (restore_each puts archive rows u).0) [
          | inr (e, stopped) ↦ absurd (ground (arith, done, stopped))
          | inl (_, first) ↦
              rw (first, restore_objects)
                (let (file, listed, at, put) =
                    each-puts rows u first _ (map-In a _ (archive.manifest).media_assets i) there in
                  (
                    file,
                    listed,
                    at,
                    each-keeps (variant_rows uuid_string archive.manifest) _ _ put,
                  ))
        ]

    pub variants-stand :
        (v : MediaVariant)
        → In v (archive.manifest).media_variants
        → v.archive_path ≢ []
        → Stands archive.files
            (codes "trees/"
              ++ (uuid_string (archive.manifest.tree).id
                  ++ (codes "/media/"
                      ++ (uuid_string v.media_id
                          ++ (codes "/variants/" ++ (v.kind ++ codes ".jpg"))))))
            v.archive_path
            (restore_objects uuid_string puts archive u).1.objects
    unfolding restore_objects variant_rows variant_object_key
    variants-stand v i there =
        let rows = variant_rows uuid_string archive.manifest in
        elim (Result-cases
          (restore_each puts archive (asset_rows uuid_string archive.manifest) u).0) [
            | inr (e, stopped) ↦ absurd (ground (arith, done, stopped))
            | inl (_, first) ↦
                let last : (restore_each puts archive rows
                      (restore_each puts archive (asset_rows uuid_string archive.manifest) u).1).0
                    ≡ ok tt =
                  ground (arith, done, first) in
                rw (first, restore_objects)
                  (each-puts rows _ last _ (map-In v _ (archive.manifest).media_variants i) there)
          ]
