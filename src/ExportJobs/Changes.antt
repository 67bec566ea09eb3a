-- ===== src/ExportJobs/Changes.antt =====
-- The statements of internal/features/exports/repository/postgres/worker.go as changes of the rows, one by one.
use family_tree_app.Prelude.{
  first_row-In, first_row, ℕ, ◌≡◌, refl, sym, inl, inr, Bool, false, some, List, [], ◌∷◌, map, Text,
  ◌==◌, Bool-cases, Option-cases, In, any, update_first, ok, if◌then◌else◌, arith,
}
use family_tree_app.ExportJobs.Domain.{Export, CleanupCandidate}
use family_tree_app.ExportJobs.Store.{ExportDatabase, Call, is_export, call}
use family_tree_app.ExportJobs.Requests.{expire}
use family_tree_app.ExportJobs.Steps.{
  is_queued, start_generation, record_failure, clear_result, is_unfinished_export,
  is_expired_export, acquire_for_generation, mark_failed, reserve_cleanup_candidates,
  clear_expired_result, candidates, to_candidate,
}
use family_tree_app.ExportJobs.Rows.{
  is_unfinished, RowStep, Rows, Rows-refl, RowStep-refl, update_first-Rows, map-Rows,
}
use family_tree_app.ExportJobs.Marks.{
  NoKey, expire-RowStep, failure-RowStep, start-RowStep, clear-RowStep,
}

updated_row :
    (p : Export → Bool) (f : Export → Export) (xs : List Export) {e y : Export} {ys : List Export}
    → first_row p xs ≡ some e
    → update_first p f xs ≡ some (y, ys)
    → In (f e) ys
unfolding first_row update_first
updated_row p f [] h u = cc
updated_row p f (x ∷ xs) {e} {y} {ys} h u = elim (Bool-cases (p x)) [
  | inl t ↦
      let same : e ≡ x = ground (arith, t) in
      let rows : ys ≡ f x ∷ xs = ground (arith, t) in rw (rows, same) (inl refl)
  | inr t ↦ elim (Option-cases (update_first p f xs)) [
    | inl stopped ↦ absurd (ground (arith, t, stopped))
    | inr ((y', ys'), found) ↦
        let rows : ys ≡ x ∷ ys' = ground (arith, t, found) in
        rw rows (inr (updated_row p f xs (ground (arith, t)) found))
  ]
]

-- What the worker knows of the export that it has acquired: the row has left the queue.
pub record IsAcquired (e : Export) (rows : List Export) : Type 0 where
  pub row : Export
  pub listed : In row rows
  pub same_id : row.id ≡ e.id
  pub same_tree : row.tree_id ≡ e.tree_id
  pub same_format : row.format ≡ e.format
  pub left : is_queued row.status ≡ false

module _ (io : Call → Bool) (uuid_string : ℕ → Text) where
  pub acquire_for_generation-Rows :
      (t i now : ℕ) (db : ExportDatabase) {e : Export} {db' : ExportDatabase}
      → acquire_for_generation io t i now db ≡ ok (e, db')
      → Rows uuid_string NoKey db.exports db'.exports × IsAcquired e db'.exports
  unfolding acquire_for_generation call start_generation
  acquire_for_generation-Rows t i now db {e} {db'} h =
      elim (Option-cases (first_row (is_export t i) db.exports)) [
        | inl missing ↦ absurd (ground (arith, missing))
        | inr (r, found) ↦ elim (Bool-cases (is_queued r.status)) [
          | inl q ↦
              elim (Option-cases (update_first (is_export t i) (start_generation now) db.exports)) [
                | inl stopped ↦ absurd (ground (arith, found, q, stopped))
                | inr ((y, ys), changed) ↦
                    let rows : db'.exports ≡ ys = ground (arith, found, q, changed) in
                    let same_id : e.id ≡ r.id = ground (arith, found, q, changed) in
                    let same_tree : e.tree_id ≡ r.tree_id = ground (arith, found, q, changed) in
                    let same_format : e.format ≡ r.format = ground (arith, found, q, changed) in
                    let steps =
                      update_first-Rows uuid_string NoKey (is_export t i) (start_generation now)
                        db.exports
                        (λ x first.
                          let same : x ≡ r = ground (arith, found, first) in
                          start-RowStep uuid_string now x (rw same q))
                        changed in
                    (
                      rw rows steps,
                      record {
                        row = start_generation now r;
                        listed = rw rows (
                            updated_row (is_export t i) (start_generation now) db.exports found
                              changed);
                        same_id = sym same_id;
                        same_tree = sym same_tree;
                        same_format = sym same_format;
                        left = refl;
                      },
                    )
              ]
          | inr q ↦
              let rows : db' ≡ db = ground (arith, found, q) in
              let same : e ≡ r = ground (arith, found, q) in
              (
                rw rows (Rows-refl uuid_string NoKey db.exports),
                record {
                  row = r;
                  listed = rw rows ((first_row-In (is_export t i) db.exports found).0);
                  same_id = rw same refl;
                  same_tree = rw same refl;
                  same_format = rw same refl;
                  left = q;
                },
              )
        ]
      ]

  pub mark_failed-Rows :
      (e : Export) (code : Text) (now : ℕ) (db : ExportDatabase) {db' : ExportDatabase}
      → mark_failed io e code now db ≡ ok db'
      → Rows uuid_string NoKey db.exports db'.exports
  unfolding mark_failed call is_unfinished_export is_unfinished
  mark_failed-Rows e code now db {db'} h =
      let p : Export → Bool = is_unfinished_export e.tree_id e.id in
      elim (Option-cases (update_first p (record_failure code now) db.exports)) [
        | inr ((y, ys), changed) ↦
            let rows : db'.exports ≡ ys = ground (arith, changed) in
            let steps =
              update_first-Rows uuid_string NoKey p (record_failure code now) db.exports
                (λ x first.
                  let (_, passes) = first_row-In p db.exports first in
                  failure-RowStep uuid_string code now x (ground (arith, passes)))
                changed in
            rw rows steps
        | inl stopped ↦ elim (Option-cases (first_row (is_export e.tree_id e.id) db.exports)) [
          | inl missing ↦ absurd (ground (arith, stopped, missing))
          | inr (r, found) ↦
              let same : db' ≡ db = ground (arith, stopped, found) in
              rw same (Rows-refl uuid_string NoKey db.exports)
        ]
      ]

  pub clear_expired_result-Rows :
      (c : CleanupCandidate) (now : ℕ) (db : ExportDatabase) {db' : ExportDatabase}
      → clear_expired_result io c now db ≡ ok db'
      → Rows uuid_string NoKey db.exports db'.exports
  unfolding clear_expired_result call is_expired_export
  clear_expired_result-Rows c now db {db'} h =
      let p : Export → Bool = is_expired_export c.tree_id c.export_id in
      elim (Option-cases (update_first p (clear_result now) db.exports)) [
        | inr ((y, ys), changed) ↦
            let rows : db'.exports ≡ ys = ground (arith, changed) in
            let steps =
              update_first-Rows uuid_string NoKey p (clear_result now) db.exports
                (λ x first.
                  let (_, passes) = first_row-In p db.exports first in
                  clear-RowStep uuid_string now x (ground (arith, passes)))
                changed in
            rw rows steps
        | inl stopped ↦
            let same : db' ≡ db = ground (arith, stopped) in
            rw same (Rows-refl uuid_string NoKey db.exports)
      ]

  pub reserve_cleanup_candidates-Rows :
      (instant limit now : ℕ) (db : ExportDatabase) {cs : List CleanupCandidate}
      {db' : ExportDatabase}
      → reserve_cleanup_candidates io instant limit now db ≡ ok (cs, db')
      → Rows uuid_string NoKey db.exports db'.exports
        × (cs ≡ map to_candidate (candidates instant limit db.exports))
        × (db'.exports
            ≡ map
                (λ (e : Export).
                  if any (λ (c : Export). c.id == e.id) (candidates instant limit db.exports)
                  then expire now e
                  else e)
                db.exports)
  unfolding reserve_cleanup_candidates call
  reserve_cleanup_candidates-Rows instant limit now db {cs} {db'} h =
      let rows : db'.exports
          ≡ map
              (λ (e : Export).
                if any (λ (c : Export). c.id == e.id) (candidates instant limit db.exports)
                then expire now e
                else e)
              db.exports =
        ground arith in
      (rw rows (map-Rows uuid_string NoKey _ db.exports (λ e i. row e)), ground arith, rows)
    where
      row :
          (e : Export)
          → RowStep uuid_string NoKey e (
              if any (λ (c : Export). c.id == e.id) (candidates instant limit db.exports)
              then expire now e
              else e)
      row e =
          elim (Bool-cases
            (any (λ (c : Export). c.id == e.id) (candidates instant limit db.exports))) [
              | inl t ↦ rw t (expire-RowStep uuid_string now e)
              | inr t ↦ rw t (RowStep-refl uuid_string NoKey e)
            ]
