-- ===== src/ExportJobs/Completions.antt =====
-- The statements of internal/features/exports/repository/postgres/worker.go that marks an export as completed: what it changes, and
-- what it finds where it conflicts.
use family_tree_app.Prelude.{
  first_row-In, first_row, ℕ, ◌≡◌, ◌⊎◌, inl, inr, Bool, true, false, not, ◌&&◌, Text, text_eq,
  Bool-cases, Option-cases, In, any, update_first, update_first-some, Updated, update_first-Updated,
  ok, err, arith,
}
use family_tree_app.ExportJobs.Domain.{export_state_conflict, Export, is_completed}
use family_tree_app.ExportJobs.Store.{ExportDatabase, Call, refused, is_export, call}
use family_tree_app.ExportJobs.Steps.{
  Completion, is_running, complete, is_running_export, mark_completed, has_result, shares_key,
}
use family_tree_app.ExportJobs.Generator.{result_object_key}
use family_tree_app.ExportJobs.Rows.{Rows, update_first-Rows}
use family_tree_app.ExportJobs.Marks.{complete-RowStep}

module _ (io : Call → Bool) (uuid_string : ℕ → Text) where
  -- A completion that is accepted was marked before, or is that of a row that was running.
  pub mark_completed-Rows :
      (e : Export) (c : Completion) (now : ℕ) (db : ExportDatabase) {db' : ExportDatabase}
      → ((r : Export)
          → In r db.exports
          → r.tree_id ≡ e.tree_id
          → r.id ≡ e.id
          → c.object_key ≡ result_object_key uuid_string r.tree_id r.id r.format c.checksum)
      → mark_completed io e c now db ≡ ok db'
      → (db' ≡ db)
        ⊎ (Rows uuid_string (λ key. key ≡ c.object_key) db.exports db'.exports
            × ((r : Export) × In r db.exports × (is_running_export e.tree_id e.id r ≡ true)))
  unfolding mark_completed call is_running_export is_export
  mark_completed-Rows e c now db {db'} keys h =
      let p : Export → Bool = is_running_export e.tree_id e.id in
      elim (Option-cases (update_first p (complete c now) db.exports)) [
        | inr ((y, ys), changed) ↦
            let u : Updated p (complete c now) db.exports y ys =
              update_first-Updated p (complete c now) db.exports changed in
            let good : (has_result y && not (any (shares_key y) db.exports)) ≡ true =
              ground (arith, changed) in
            let rows : db'.exports ≡ ys = ground (arith, changed, good) in
            let steps =
              update_first-Rows uuid_string (λ key. key ≡ c.object_key) p (complete c now)
                db.exports
                (λ x first.
                  let (i, passes) = first_row-In p db.exports first in
                  complete-RowStep uuid_string c now x (ground (arith, passes))
                    (keys x i (ground (arith, passes)) (ground (arith, passes))))
                changed in
            inr (rw rows steps, (u.old, u.listed, u.passes))
        | inl stopped ↦ elim (Option-cases (first_row (is_export e.tree_id e.id) db.exports)) [
          | inl missing ↦ absurd (ground (arith, stopped, missing))
          | inr (r, found) ↦ inl (ground (arith, stopped, found))
        ]
      ]

  -- A completion that conflicts finds a row that is not running, and has not this completion.
  pub mark_completed-conflict :
      (e : Export) (c : Completion) (now : ℕ) (db : ExportDatabase)
      → mark_completed io e c now db ≡ err (refused export_state_conflict)
      → (r : Export) × In r db.exports
        × (r.id ≡ e.id)
        × (is_running r.status ≡ false)
        × ((is_completed r.status
              && text_eq r.result_object_key c.object_key
              && text_eq r.result_checksum c.checksum)
            ≡ false)
  unfolding mark_completed call is_running_export is_export
  mark_completed-conflict e c now db h =
      let p : Export → Bool = is_running_export e.tree_id e.id in
      elim (Option-cases (update_first p (complete c now) db.exports)) [
        | inr ((y, ys), changed) ↦ absurd (ground (arith, changed))
        | inl stopped ↦ elim (Option-cases (first_row (is_export e.tree_id e.id) db.exports)) [
          | inl missing ↦ absurd (ground (arith, stopped, missing))
          | inr (r, found) ↦
              let (i, passes) = first_row-In (is_export e.tree_id e.id) db.exports found in
              let still : is_running r.status ≡ false = elim (Bool-cases (is_running r.status)) [
                | inr q ↦ q
                | inl q ↦
                    let (y, ys, changed) =
                      update_first-some p (complete c now) r db.exports i
                        (ground (arith, passes, q)) in
                    absurd (ground (arith, stopped, changed))
              ] in
              (r, i, ground (arith, passes), still, ground (arith, stopped, found))
        ]
      ]
