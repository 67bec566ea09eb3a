-- ===== src/Backups/Compensation.antt =====
-- What `restoreObjects` has put is taken away again by `cleanupObjects`, of
-- internal/features/exports/restore/postgres.go.
use family_tree_app.Prelude.{
  ℕ, ◌+◌, ◌≡◌, refl, inl, inr, Bool, true, false, not, List, [], ◌∷◌, Text, text_eq_refl, is_empty,
  length, any, select, first_row, In, ok, Bool-cases, Option-cases, Result-cases, arith,
}
use family_tree_app.Backups.Files.{Archive, Object, is_at}
use family_tree_app.Backups.Restorer.{
  Uploads, put_new_object, restore_object, restore_each, asset_rows, variant_rows, restore_objects,
  cleanup_objects,
}

removed-absent :
    (key : Text) (objects : List Object)
    → any (is_at key) objects ≡ false
    → select (λ o. not (is_at key o)) objects ≡ objects
unfolding any select
removed-absent key [] h = refl
removed-absent key (o ∷ objects) h = elim (Bool-cases (is_at key o)) [
  | inl at ↦ absurd (ground (arith, h, at))
  | inr away ↦
      let absent : any (is_at key) objects ≡ false = ground (arith, h, away) in
      rw (away, select, removed-absent key objects absent) refl
]

module _ (deletes : Text → Bool) (answers : (key : Text) → deletes key ≡ true)
    (start : List Object) where
  -- The objects that are there can be taken back to the ones at the start.
  pub record IsRevocable (u : Uploads) : Type 0 where
    pub cleaned : cleanup_objects deletes u.uploaded u.objects ≡ (true, start)
    pub counted : length u.objects ≡ length start + length u.uploaded
    pub kept : (o : Object) → In o start → In o u.objects

  pub start-IsRevocable : IsRevocable (record { objects = start; uploaded = [] })
  unfolding cleanup_objects
  start-IsRevocable = record { cleaned = refl; counted = omega arith; kept = λ o i. i }

  put-IsRevocable :
      (key body : Text) (u : Uploads)
      → any (is_at key) u.objects ≡ false
      → IsRevocable u
      → IsRevocable (record { objects = (key, body) ∷ u.objects; uploaded = key ∷ u.uploaded })
  unfolding cleanup_objects select is_at
  put-IsRevocable key body u absent r = record {
    cleaned =
        rw
          (
            answers key,
            cleanup_objects,
            text_eq_refl key,
            select,
            removed-absent key u.objects absent,
            r.cleaned,
          )
          refl;
    counted = omega (arith, r.counted);
    kept = λ o i. inr (r.kept o i);
  }

  module _ (puts : Text → Bool) (archive : Archive) where
    put_new_object-IsRevocable :
        (key body : Text) (u : Uploads) (objects : List Object)
        → put_new_object puts key body u.objects ≡ ok objects
        → IsRevocable u
        → IsRevocable (record { objects = objects; uploaded = key ∷ u.uploaded })
    unfolding put_new_object
    put_new_object-IsRevocable key body u objects done r =
        elim (Bool-cases (any (is_at key) u.objects)) [
          | inl there ↦ absurd (ground (arith, done, there))
          | inr absent ↦
              let made : (key, body) ∷ u.objects ≡ objects = ground (arith, done, absent) in
              rw (← made) (put-IsRevocable key body u absent r)
        ]

    restore_object-IsRevocable :
        (key path : Text) (u : Uploads)
        → IsRevocable u
        → IsRevocable (restore_object puts archive key path u).1
    unfolding restore_object
    restore_object-IsRevocable key path u r = elim (Bool-cases (is_empty path)) [
      | inl none_there ↦ rw (none_there, restore_object) r
      | inr named ↦ elim (Option-cases (first_row (is_at path) archive.files)) [
        | inl missing ↦ rw (named, restore_object, missing) r
        | inr (file, found) ↦ elim (Result-cases (put_new_object puts key file.1 u.objects)) [
          | inl (objects, done) ↦
              rw (named, restore_object, found, done)
                (put_new_object-IsRevocable key file.1 u objects done r)
          | inr (e, failed) ↦ rw (named, restore_object, found, failed) r
        ]
      ]
    ]

    restore_each-IsRevocable :
        (rows : List (Text × Text)) (u : Uploads)
        → IsRevocable u
        → IsRevocable (restore_each puts archive rows u).1
    unfolding restore_each
    restore_each-IsRevocable [] u r = r
    restore_each-IsRevocable ((key, path) ∷ rows) u r =
        let next = restore_object-IsRevocable key path u r in
        elim (Result-cases (restore_object puts archive key path u).0) [
          | inl (_, done) ↦
              rw (done, restore_each)
                (restore_each-IsRevocable rows (restore_object puts archive key path u).1 next)
          | inr (e, failed) ↦ rw (failed, restore_each) next
        ]

    pub restore_objects-IsRevocable :
        (uuid_string : ℕ → Text) (u : Uploads)
        → IsRevocable u
        → IsRevocable (restore_objects uuid_string puts archive u).1
    unfolding restore_objects
    restore_objects-IsRevocable uuid_string u r =
        let assets = restore_each-IsRevocable (asset_rows uuid_string archive.manifest) u r in
        elim (Result-cases
          (restore_each puts archive (asset_rows uuid_string archive.manifest) u).0) [
            | inl (_, done) ↦
                rw (done, restore_objects)
                  (restore_each-IsRevocable (variant_rows uuid_string archive.manifest) _ assets)
            | inr (e, failed) ↦ rw (failed, restore_objects) assets
          ]
