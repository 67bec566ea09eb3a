-- ===== src/ExportJobs/Attempts.antt =====
-- The mark of a result on the last attempt: where the database and the storage answer, the export is not
-- queued or running any more.
use family_tree_app.Prelude.{
  first_row-In, first_row, ℕ, ◌≡◌, refl, subst, inl, inr, Bool, true, false, some, List, ◌∷◌, [],
  Text, codes, ltb, Bool-cases, Option-cases, Result-cases, In, update_first, ok, arith,
}
use family_tree_app.ExportJobs.Domain.{
  Export, export_state_conflict, export_archive_too_large, export_visual_too_large,
  export_result_too_large, is_completed,
}
use family_tree_app.ExportJobs.Store.{ExportDatabase, Call, delete_object, Failure, is_export, call}
use family_tree_app.ExportJobs.Steps.{
  Completion, is_queued, complete, is_running_export, mark_completed,
}
use family_tree_app.ExportJobs.Generator.{
  World, is_refusal, mark_failed_or_join, retry_or_fail, settle_failure, finish,
}
use family_tree_app.ExportJobs.Rows.{is_unfinished, count_one}
use family_tree_app.ExportJobs.Kept.{IsKept}
use family_tree_app.ExportJobs.Changes.{IsAcquired}
use family_tree_app.ExportJobs.Safety.{is_refusal-eq}
use family_tree_app.ExportJobs.Completions.{mark_completed-conflict}
use family_tree_app.Jobs.Queue.{Job}
use family_tree_app.ExportJobs.Endings.{IsEnded, changed-IsEnded, mark_failed-ends}

module _ (io : Call → Bool) (answers : (c : Call) → io c ≡ true) (uuid_string : ℕ → Text) where
  pub retry_or_fail-ends :
      (job : Job) (e : Export) (now : ℕ) (cause : Failure) (w : World)
      → ltb job.attempts job.max_attempts ≡ false
      → IsKept uuid_string w
      → IsAcquired e w.database.exports
      → IsEnded (retry_or_fail io job e now cause w).1 e.tree_id e.id
  unfolding retry_or_fail
  retry_or_fail-ends job e now cause w last k acquired =
      rw (last, retry_or_fail)
        (mark_failed-ends io answers uuid_string e (codes "generation_failed") now (cause ∷ [])
          (cause ∷ []) w k acquired)

  pub settle_failure-ends :
      (job : Job) (e : Export) (now : ℕ) (cause : Failure) (w : World)
      → ltb job.attempts job.max_attempts ≡ false
      → IsKept uuid_string w
      → IsAcquired e w.database.exports
      → IsEnded (settle_failure io job e now cause w).1 e.tree_id e.id
  unfolding settle_failure
  settle_failure-ends job e now cause w last k acquired =
      elim (Bool-cases (is_refusal export_archive_too_large cause)) [
        | inl a ↦ rw (a, settle_failure) (failed (codes "archive_too_large"))
        | inr a ↦ elim (Bool-cases (is_refusal export_visual_too_large cause)) [
          | inl b ↦ rw (a, settle_failure, b) (failed (codes "visual_too_large"))
          | inr b ↦ elim (Bool-cases (is_refusal export_result_too_large cause)) [
            | inl c ↦ rw (a, settle_failure, b, c) (failed (codes "result_too_large"))
            | inr c ↦
                rw (a, settle_failure, b, c) (retry_or_fail-ends job e now cause w last k acquired)
          ]
        ]
      ]
    where
      failed :
          (code : Text)
          → IsEnded (mark_failed_or_join io e code now [] (cause ∷ []) w).1 e.tree_id e.id
      failed code = mark_failed-ends io answers uuid_string e code now [] (cause ∷ []) w k acquired

  -- The row that is not open any more.
  pub one-IsEnded :
      (e r : Export) (w : World)
      → IsKept uuid_string w
      → In r w.database.exports
      → r.id ≡ e.id
      → is_unfinished r ≡ false
      → IsEnded w e.tree_id e.id
  one-IsEnded e r w k listed same ended x i t at =
      let is_r : x ≡ r = count_one e.id w.database.exports x r (k.unique e.id) i at listed same in
      rw is_r ended

  completed-IsEnded :
      (e : Export) (c : Completion) (now : ℕ) (w : World) (db : ExportDatabase) {y : Export}
      (ys : List Export)
      → IsKept uuid_string w
      → update_first (is_running_export e.tree_id e.id) (complete c now) w.database.exports
        ≡ some (y, ys)
      → db.exports ≡ ys
      → IsEnded (record w { database = db }) e.tree_id e.id
  unfolding complete is_unfinished is_running_export is_export
  completed-IsEnded e c now w db ys k changed after x i t at =
      changed-IsEnded (is_running_export e.tree_id e.id) (complete c now) w.database.exports e.id
        (λ r. refl) (λ r q. ground (arith, q)) (λ r. refl) (k.unique e.id) changed x
        (subst (In x) after i) at

  found-IsEnded :
      (e r : Export) (w : World)
      → IsKept uuid_string w
      → first_row (is_export e.tree_id e.id) w.database.exports ≡ some r
      → is_completed r.status ≡ true
      → IsEnded w e.tree_id e.id
  unfolding is_export is_unfinished
  found-IsEnded e r w k found done =
      let (listed, passes) = first_row-In (is_export e.tree_id e.id) w.database.exports found in
      one-IsEnded e r w k listed (ground (arith, passes)) (ground (arith, done))

  mark_completed-ends :
      (e : Export) (c : Completion) (now : ℕ) (w : World) (db : ExportDatabase)
      → IsKept uuid_string w
      → mark_completed io e c now w.database ≡ ok db
      → IsEnded (record w { database = db }) e.tree_id e.id
  unfolding mark_completed call
  mark_completed-ends e c now w db k h =
      let p : Export → Bool = is_running_export e.tree_id e.id in
      let rows : List Export = w.database.exports in
      elim (Option-cases (update_first p (complete c now) rows)) [
        | inr ((y, ys), changed) ↦
            let after : db.exports ≡ ys = ground (arith, changed) in
            completed-IsEnded e c now w db ys k changed after
        | inl stopped ↦ elim (Option-cases (first_row (is_export e.tree_id e.id) rows)) [
          | inl missing ↦ absurd (ground (arith, stopped, missing))
          | inr (r, found) ↦
              let same : db ≡ w.database = ground (arith, stopped, found) in
              let done : is_completed r.status ≡ true = ground (arith, stopped, found) in
              rw same (found-IsEnded e r w k found done)
        ]
      ]

  pub finish-ends :
      (job : Job) (e : Export) (c : Completion) (now : ℕ) (w : World)
      → ltb job.attempts job.max_attempts ≡ false
      → IsKept uuid_string w
      → IsAcquired e w.database.exports
      → IsEnded (finish io job e c now w).1 e.tree_id e.id
  unfolding finish is_unfinished
  finish-ends job e c now w last k acquired =
      elim (Result-cases (mark_completed io e c now w.database)) [
        | inl (db, h) ↦ rw (h, finish) (mark_completed-ends e c now w db k h)
        | inr (f, h) ↦ elim (Bool-cases (is_refusal export_state_conflict f)) [
          | inr other ↦ rw (h, finish, other) (retry_or_fail-ends job e now f w last k acquired)
          | inl conflict ↦
              let (r, listed, same, still, _) =
                mark_completed-conflict io uuid_string e c now w.database
                  (rw (is_refusal-eq f conflict) at h) in
              let is_row : r ≡ acquired.row =
                count_one e.id w.database.exports r acquired.row (k.unique e.id) listed same
                  acquired.listed acquired.same_id in
              let left : is_queued r.status ≡ false = rw is_row acquired.left in
              rw (h, finish, conflict, answers delete_object)
                (one-IsEnded e r w k listed same (ground (arith, left, still)))
        ]
      ]
