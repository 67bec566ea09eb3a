-- ===== src/ExportJobs/Finality.antt =====
-- The handler of internal/features/exports/processing/generator.go on the last attempt, whatever safe changes the other transactions make between the
-- storing of the object and its mark.
use family_tree_app.Prelude.{
  first_row-In, first_row, update_first-some, ◌⊎◌, ℕ, ◌≡◌, refl, subst, inl, inr, Bool, true, false,
  ◌||◌, none, List, ◌∷◌, [], Text, codes, ltb, Bool-cases, Option-cases, Result-cases, In, ok, err,
  arith,
}
use family_tree_app.ExportJobs.Domain.{
  Export, export_not_found, export_tree_unavailable, is_completed, is_expired,
}
use family_tree_app.ExportJobs.Store.{
  ExportDatabase, Call, begin, lock, write_status, commit, is_export, call, put_object, Failure,
}
use family_tree_app.ExportJobs.Steps.{
  start_generation, is_failed, is_queued, is_running, acquire_for_generation,
}
use family_tree_app.ExportJobs.Generator.{
  World, Renderers, Config, is_refusal, put, result_object_key, build, store_result, generate,
  handle_acquired,
}
use family_tree_app.ExportJobs.Rows.{is_unfinished}
use family_tree_app.ExportJobs.Kept.{IsKept, IsSafe, put-IsSafe}
use family_tree_app.ExportJobs.Changes.{IsAcquired, acquire_for_generation-Rows}
use family_tree_app.Jobs.Queue.{Job}
use family_tree_app.ExportJobs.Safety.{database-IsSafe}
use family_tree_app.ExportJobs.Generation.{IsAcquired-later}
use family_tree_app.ExportJobs.Endings.{IsEnded, mark_failed-ends}
use family_tree_app.ExportJobs.Attempts.{
  one-IsEnded, retry_or_fail-ends, settle_failure-ends, finish-ends,
}

first_row-misses :
    (p : Export → Bool) (xs : List Export) (x : Export)
    → first_row p xs ≡ none
    → In x xs
    → p x ≡ true
    → ⊥
unfolding first_row
first_row-misses p [] x h i t = i
first_row-misses p (y ∷ ys) x h (inl e) t =
    let here : p y ≡ true = subst (λ z. p z ≡ true) e t in absurd (ground (arith, here))
first_row-misses p (y ∷ ys) x h (inr i) t = elim (Bool-cases (p y)) [
  | inl e ↦ absurd (ground (arith, e))
  | inr e ↦ first_row-misses p ys x (ground (arith, e)) i t
]

module _ (io : Call → Bool) (answers : (c : Call) → io c ≡ true) where
  -- An acquisition that the database answers fails where there is no such export.
  acquire-misses :
      (t i now : ℕ) (db : ExportDatabase) {f : Failure}
      → acquire_for_generation io t i now db ≡ err f
      → first_row (is_export t i) db.exports ≡ none
  unfolding acquire_for_generation call
  acquire-misses t i now db {f} h = elim (Option-cases (first_row (is_export t i) db.exports)) [
    | inl missing ↦ missing
    | inr (r, found) ↦
        let (listed, passes) = first_row-In (is_export t i) db.exports found in
        let (y, ys, changed) =
          update_first-some (is_export t i) (start_generation now) r db.exports listed passes in
        absurd (
          ground (
            arith,
            found,
            changed,
            answers begin,
            answers lock,
            answers write_status,
            answers commit,
          ))
  ]

  -- The export that is acquired runs, or its row has left the queue as it is.
  acquire-status :
      (t i now : ℕ) (db : ExportDatabase) {e : Export} {db' : ExportDatabase}
      → acquire_for_generation io t i now db ≡ ok (e, db')
      → (e.tree_id ≡ t)
        × (e.id ≡ i)
        × ((is_running e.status ≡ true) ⊎ (In e db'.exports × (is_queued e.status ≡ false)))
  unfolding acquire_for_generation call start_generation is_export
  acquire-status t i now db {e} {db'} h =
      elim (Option-cases (first_row (is_export t i) db.exports)) [
        | inl missing ↦ absurd (ground (arith, missing))
        | inr (r, found) ↦
            let (listed, passes) = first_row-In (is_export t i) db.exports found in
            elim (Bool-cases (is_queued r.status)) [
              | inr left ↦
                  let same : e ≡ r = ground (arith, found, left) in
                  let kept : db' ≡ db = ground (arith, found, left) in
                  rw (same, kept)
                    (ground (arith, passes), ground (arith, passes), inr (listed, left))
              | inl waits ↦
                  let (y, ys, changed) =
                    update_first-some (is_export t i) (start_generation now) r db.exports listed
                      passes in
                  let runs : e ≡ record (start_generation now r) { error_code = r.error_code } =
                    ground (arith, found, waits, changed) in
                  rw runs (ground (arith, passes), ground (arith, passes), inl refl)
            ]
      ]

module _ (io : Call → Bool) (answers : (c : Call) → io c ≡ true) {Snapshot : Type 0}
    (renderers : Renderers Snapshot) (config : Config) (uuid_string : ℕ → Text)
    (checksum : Text → Text) (meanwhile : World → World)
    (others : (v : World) → IsSafe uuid_string v (meanwhile v)) where
  store_result-ends :
      (job : Job) (e : Export) (now : ℕ) (body mime : Text) (w : World)
      → ltb job.attempts job.max_attempts ≡ false
      → IsKept uuid_string w
      → IsAcquired e w.database.exports
      → IsEnded
          (store_result io renderers config uuid_string checksum meanwhile job e now body mime w).1
          e.tree_id
          e.id
  unfolding store_result
  store_result-ends job e now body mime w last k acquired =
      let key : Text = result_object_key uuid_string e.tree_id e.id e.format (checksum body) in
      let w1 : World = record w { objects = put key body w.objects } in
      let (k1, _) = put-IsSafe uuid_string key body w k in
      let (k2, f2) = others w1 k1 in
      rw (answers put_object) (
        finish-ends io answers uuid_string job e _ now (meanwhile w1) last k2
          (IsAcquired-later uuid_string e w1 (meanwhile w1) f2 acquired))

  generate-ends :
      (job : Job) (e : Export) (now : ℕ) (w : World)
      → ltb job.attempts job.max_attempts ≡ false
      → IsKept uuid_string w
      → IsAcquired e w.database.exports
      → IsEnded
          (generate io renderers config uuid_string checksum meanwhile job e now w).1
          e.tree_id
          e.id
  unfolding generate
  generate-ends job e now w last k acquired =
      elim (Result-cases (renderers.load_manifest e w.database)) [
        | inr (f, h) ↦ elim (Bool-cases (is_refusal export_tree_unavailable f)) [
          | inl gone ↦
              rw (h, generate, gone)
                (mark_failed-ends io answers uuid_string e (codes "tree_unavailable") now []
                  (f ∷ []) w k acquired)
          | inr other ↦
              rw (h, generate, other)
                (retry_or_fail-ends io answers uuid_string job e now f w last k acquired)
        ]
        | inl (snapshot, h) ↦ elim (Result-cases (build renderers config e snapshot w.objects)) [
          | inr (f, b) ↦
              rw (h, generate, b)
                (settle_failure-ends io answers uuid_string job e now f w last k acquired)
          | inl ((body, mime), b) ↦
              rw (h, generate, b) (store_result-ends job e now body mime w last k acquired)
        ]
      ]

  after_acquisition :
      (job : Job) (e : Export) (db : ExportDatabase) (now : ℕ) (w : World)
      → ltb job.attempts job.max_attempts ≡ false
      → IsKept uuid_string (record w { database = db })
      → IsAcquired e db.exports
      → (is_running e.status ≡ true) ⊎ (In e db.exports × (is_queued e.status ≡ false))
      → IsEnded
          (handle_acquired io renderers config uuid_string checksum meanwhile job now w
            (ok (e, db))).1
          e.tree_id
          e.id
  unfolding handle_acquired is_unfinished
  after_acquisition job e db now w last k row (inl runs) =
      let going : (is_completed e.status || is_failed e.status || is_expired e.status) ≡ false =
        ground (arith, runs) in
      rw (going, handle_acquired, runs)
        (generate-ends job e now (record w { database = db }) last k row)
  after_acquisition job e db now w last k row (inr (listed, left)) =
      elim (Bool-cases (is_completed e.status || is_failed e.status || is_expired e.status)) [
        | inl ended ↦
            rw (ended, handle_acquired)
              (one-IsEnded io answers uuid_string e e (record w { database = db }) k listed refl
                (ground (arith, ended)))
        | inr going ↦
            let runs : is_running e.status ≡ true = ground (arith, going, left) in
            rw (going, handle_acquired, runs)
              (generate-ends job e now (record w { database = db }) last k row)
      ]

  pub handle_acquired-ends :
      (job : Job) (t i started now : ℕ) (w : World)
      → ltb job.attempts job.max_attempts ≡ false
      → IsKept uuid_string w
      → IsEnded
          (handle_acquired io renderers config uuid_string checksum meanwhile job now w
            (acquire_for_generation io t i started w.database)).1
          t
          i
  unfolding handle_acquired is_export
  handle_acquired-ends job t i started now w last k =
      elim (Result-cases (acquire_for_generation io t i started w.database)) [
        | inr (f, h) ↦
            let none_such : IsEnded w t i = λ x j in_tree at. absurd (
              first_row-misses (is_export t i) w.database.exports x
                (acquire-misses io answers t i started w.database h) j
                (ground (arith, in_tree, at))) in
            elim (Bool-cases (is_refusal export_not_found f)) [
              | inl gone ↦ rw (h, handle_acquired, gone) none_such
              | inr other ↦ rw (h, handle_acquired, other) none_such
            ]
        | inl ((e, db), h) ↦
            let (rows, row) = acquire_for_generation-Rows io uuid_string t i started w.database h in
            let (k', _) = database-IsSafe io uuid_string w db rows k in
            let (in_tree, at, status) = acquire-status io answers t i started w.database h in
            rw h (rw (← in_tree, ← at) (after_acquisition job e db now w last k' row status))
      ]
