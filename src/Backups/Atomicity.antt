-- ===== src/Backups/Atomicity.antt =====
-- `Restorer.Restore` of internal/features/exports/restore/postgres.go restores a backup as a whole or not at all.
use family_tree_app.Prelude.{
  ◌≤◌, ◌≢◌, ◌++◌, codes, ℕ, ◌+◌, ◌≡◌, refl, sym, inl, inr, Bool, true, false, List, [], Text, ◌==◌,
  ==_refl, length, any, In, ok, Bool-cases, Result-cases, arith,
}
use family_tree_app.Backups.Manifest.{Tree, Person, MediaAsset, MediaVariant}
use family_tree_app.Backups.Graph.{occurrences}
use family_tree_app.Backups.Soundness.{person_ids}
use family_tree_app.Backups.RowChecks.{validate_people-PeopleAreSound}
use family_tree_app.Backups.Checks.{validated_parts}
use family_tree_app.Backups.Restorable.{validated}
use family_tree_app.Backups.Rows.{IsWritten}
use family_tree_app.Backups.Filling.{tree-new, records-IsWritten}
use family_tree_app.Backups.Uploading.{Stands, assets-stand, variants-stand}
use family_tree_app.Backups.Validity.{invalid_backup}
use family_tree_app.Backups.Files.{Archive, Object, validate_archive}
use family_tree_app.Backups.Restorer.{Failure, refused, database_failure, Uploads, restore_objects}
use family_tree_app.Backups.Records.{
  Tables, Call, read_audit, begin, insert_tree_row, restore_records,
}
use family_tree_app.Backups.Restoration.{
  Commit, applied, not_applied, unanswered, World, Outcome, restored, failed, give_up, is_restored,
  finish_restore, restore_content, restore,
}
use family_tree_app.Backups.Compensation.{
  IsRevocable, start-IsRevocable, restore_objects-IsRevocable,
}

give_up-clean :
    (deletes : Text → Bool) (answers : (key : Text) → deletes key ≡ true) (e : Failure)
    (u : Uploads) (w : World)
    → IsRevocable deletes answers w.objects u
    → give_up deletes e u w.tables ≡ (failed e true, w)
unfolding give_up
give_up-clean deletes answers e u w r = rw (r.cleaned, give_up) refl

-- Both, or neither: the rows of the backup are written and its files stand in the storage, beside the objects that were there,
-- or nothing has changed.
pub data IsWhole (uuid_string : ℕ → Text) (canonical_json : Text → Text) (now : ℕ)
    (archive : Archive) (w : World) : Outcome × World → Type 0 where
  all_done :
      (after : Tables) (objects : List Object) (n : ℕ)
      → IsWritten uuid_string canonical_json now archive.manifest w.tables after
      → length objects ≡ length w.objects + n
      → ((o : Object) → In o w.objects → In o objects)
      → ((a : MediaAsset)
          → In a (archive.manifest).media_assets
          → a.archive_path ≢ []
          → Stands archive.files
              (codes "trees/"
                ++ (uuid_string (archive.manifest.tree).id
                    ++ (codes "/media/" ++ (uuid_string a.id ++ codes "/original"))))
              a.archive_path
              objects)
      → ((v : MediaVariant)
          → In v (archive.manifest).media_variants
          → v.archive_path ≢ []
          → Stands archive.files
              (codes "trees/"
                ++ (uuid_string (archive.manifest.tree).id
                    ++ (codes "/media/"
                        ++ (uuid_string v.media_id
                            ++ (codes "/variants/" ++ (v.kind ++ codes ".jpg"))))))
              v.archive_path
              objects)
      → IsWhole uuid_string canonical_json now archive w
          (restored n, record { tables = after; objects = objects })
  none_done : (e : Failure) → IsWhole uuid_string canonical_json now archive w (failed e true, w)

-- The audit that the transaction writes is the one that is looked for.
recorded :
    (uuid_string : ℕ → Text) (canonical_json : Text → Text) (now : ℕ) (archive : Archive)
    (before after : Tables)
    → IsWritten uuid_string canonical_json now archive.manifest before after
    → is_restored archive after ≡ true
unfolding is_restored any
recorded uuid_string canonical_json now archive before after written =
    rw
      (
        written.audited,
        ==_refl (archive.manifest.tree).id,
        ==_refl (archive.manifest.export_metadata).id,
      )
      refl

module _ (io : Call → Bool) (uuid_string : ℕ → Text) (json_valid : Text → Bool)
    (canonical_json : Text → Text) (derive : ℕ → Text → ℕ) (now : ℕ) (archive : Archive) where
  module _ (puts deletes : Text → Bool) (answers : (key : Text) → deletes key ≡ true)
      (commit : Commit) (checks : commit ≡ unanswered → io read_audit ≡ true)
      (checksum : Text → Text) (order : List ℕ) (w : World)
      (filed : (row : ℕ × Person)
        → In row w.tables.persons
        → any (λ (t : Tree). t.id == row.0) w.tables.trees ≡ true)
      (audited : is_restored archive w.tables ≡ true
        → any (λ (t : Tree). t.id == (archive.manifest.tree).id) w.tables.trees ≡ true) where
    given_up :
        (e : Failure) (u : Uploads)
        → IsRevocable deletes answers w.objects u
        → IsWhole uuid_string canonical_json now archive w (give_up deletes e u w.tables)
    given_up e u r = rw (give_up-clean deletes answers e u w r) (none_done e)

    finish_restore-IsWhole :
        (u : Uploads) (after : Tables)
        → any (λ (t : Tree). t.id == (archive.manifest.tree).id) w.tables.trees ≡ false
        → IsWhole uuid_string canonical_json now archive w
            (restored (length u.uploaded), record { tables = after; objects = u.objects })
        → is_restored archive after ≡ true
        → IsRevocable deletes answers w.objects u
        → (c : Commit) → c ≡ commit
        → IsWhole uuid_string canonical_json now archive w (
            finish_restore io puts deletes c uuid_string json_valid canonical_json derive checksum
              order archive u w.tables after)
    unfolding finish_restore
    finish_restore-IsWhole u after absent whole told r applied same = whole
    finish_restore-IsWhole u after absent whole told r not_applied same =
        let fresh : is_restored archive w.tables ≡ false =
          elim (Bool-cases (is_restored archive w.tables)) [
            | inl there ↦ absurd (ground (arith, audited there, absent))
            | inr away ↦ away
          ] in
        elim (Bool-cases (io read_audit)) [
          | inl read ↦ rw (read, finish_restore, fresh) (given_up database_failure u r)
          | inr unread ↦ rw (unread, finish_restore) (given_up database_failure u r)
        ]
    finish_restore-IsWhole u after absent whole told r unanswered same =
        rw (checks (sym same), finish_restore, told) whole

    distinct_persons :
        validate_archive checksum uuid_string order archive ≡ ok tt
        → (c : ℕ) → occurrences c (person_ids archive.manifest) ≤ 1
    distinct_persons valid =
        let (_, relations, _, _, _) = validated checksum uuid_string order archive valid in
        let (people, _, _, _, _) = validated_parts archive.manifest order relations in
        (validate_people-PeopleAreSound archive.manifest people).persons_distinct

    restore_content-IsWhole :
        (with_tree : Tables)
        → ((c : ℕ) → occurrences c (person_ids archive.manifest) ≤ 1)
        → insert_tree_row io (archive.manifest).tree w.tables ≡ ok with_tree
        → IsWhole uuid_string canonical_json now archive w (
            restore_content io puts deletes commit uuid_string json_valid canonical_json derive
              checksum order now archive w with_tree)
    unfolding restore_content
    restore_content-IsWhole with_tree distinct inserted =
        let start : Uploads = record { objects = w.objects; uploaded = [] } in
        let u = (restore_objects uuid_string puts archive start).1 in
        let r =
          restore_objects-IsRevocable deletes answers w.objects puts archive uuid_string start
            (start-IsRevocable deletes answers w.objects) in
        elim (Result-cases (restore_objects uuid_string puts archive start).0) [
          | inr (e, stopped) ↦ rw (stopped, restore_content) (given_up e _ r)
          | inl (_, put) ↦
              elim (Result-cases (
                restore_records io uuid_string json_valid canonical_json derive archive.manifest now
                  with_tree)) [
                    | inr (e, stopped) ↦ rw (put, restore_content, stopped) (given_up e _ r)
                    | inl (after, done) ↦
                        let written =
                          records-IsWritten io uuid_string json_valid canonical_json derive now
                            archive.manifest w.tables with_tree after filed distinct inserted
                            done in
                        let absent =
                          tree-new io uuid_string json_valid canonical_json derive now
                            archive.manifest w.tables with_tree inserted in
                        let whole =
                          all_done after u.objects (length u.uploaded) written r.counted r.kept
                            (assets-stand puts archive uuid_string start put)
                            (variants-stand puts archive uuid_string start put) in
                        rw (put, restore_content, done)
                          (finish_restore-IsWhole u after absent whole
                            (recorded uuid_string canonical_json now archive w.tables after written)
                            r commit refl)
                  ]
        ]

    -- Where every removal of an object answers, and so does the question that follows a commit whose answer is lost, a
    -- restoration is whole. Either it is done: each row of the backup stands in its table under the tree, beside the rows that were
    -- there, with the state of an asset that the restoration gives it and a job for each asset that is to be processed; each
    -- file that a row names stands in the storage under the key of the row; no object that was there has gone; and the count that
    -- it gives is the number of objects that are new. Or it fails, and the tables and the objects are as they were. The audit log
    -- and the table of the persons name only trees that there are.
    pub restore-IsWhole : IsWhole uuid_string canonical_json now archive w (
        restore io puts deletes commit uuid_string json_valid canonical_json derive checksum order
          now archive w)
    unfolding restore
    restore-IsWhole =
        let m = archive.manifest in
        elim (Bool-cases ((m.tree).id == 0)) [
          | inl nil ↦ rw (nil, restore) (none_done (refused invalid_backup))
          | inr named ↦ elim (Result-cases (validate_archive checksum uuid_string order archive)) [
            | inr (e, bad) ↦ rw (named, restore, bad) (none_done (refused e))
            | inl (_, valid) ↦
                let distinct = distinct_persons valid in
                elim (Bool-cases (io begin)) [
                  | inr unanswered_begin ↦
                      rw (named, restore, valid, unanswered_begin) (none_done database_failure)
                  | inl begun ↦ elim (Result-cases (insert_tree_row io m.tree w.tables)) [
                    | inr (e, refusal) ↦ rw (named, restore, valid, begun, refusal) (none_done e)
                    | inl (with_tree, inserted) ↦
                        rw (named, restore, valid, begun, inserted)
                          (restore_content-IsWhole with_tree distinct inserted)
                  ]
                ]
          ]
        ]
