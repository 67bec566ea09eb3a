-- ===== src/ExportJobs/Removal.antt =====
-- The handlers of internal/features/exports/processing/cleanup.go are safe: they remove objects of exports that have
-- expired, and of no other.
use family_tree_app.Prelude.{
  ℕ, ◌≡◌, refl, subst, inl, inr, Bool, true, not, ◌||◌, Option, List, ◌∷◌, [], map, Text, codes,
  text_eq, is_empty, ltb, ◌==◌, ==_refl, Bool-cases, Option-cases, Result-cases, In, In-any, map-In,
  All, any, ok, arith, if◌then◌else◌,
}
use family_tree_app.ExportJobs.Domain.{Export, CleanupCandidate, export_not_found}
use family_tree_app.ExportJobs.Store.{ExportDatabase, Call, delete_object}
use family_tree_app.ExportJobs.Requests.{expire}
use family_tree_app.ExportJobs.Steps.{
  candidates, reserve_cleanup_candidates, get_deletion_candidate, clear_expired_result,
}
use family_tree_app.ExportJobs.Generator.{World, remove, is_refusal}
use family_tree_app.ExportJobs.Cleanup.{
  clear_row, delete_candidate, delete_candidates, handle_cleanup, handle_delete,
}
use family_tree_app.ExportJobs.Keys.{IsCanonical}
use family_tree_app.ExportJobs.Rows.{is_unfinished}
use family_tree_app.ExportJobs.Kept.{IsSafe, IsSafe-refl, IsSafe-trans, remove-IsSafe, both}
use family_tree_app.ExportJobs.Changes.{clear_expired_result-Rows, reserve_cleanup_candidates-Rows}
use family_tree_app.ExportJobs.Safety.{database-IsSafe}
use family_tree_app.Jobs.Queue.{Job}
use family_tree_app.ExportJobs.Candidates.{
  IsRemovable, List-cases, candidates-In, deletion_candidate-row, All-later, All-candidates,
  keyed-IsRemovable,
}

module _ (io : Call → Bool) {uuid_string : ℕ → Text} (canonical : IsCanonical uuid_string) where
  clear_row-IsSafe :
      (c : CleanupCandidate) (now : ℕ) (w : World) → IsSafe uuid_string w (clear_row io c now w).1
  unfolding clear_row
  clear_row-IsSafe c now w = elim (Result-cases (clear_expired_result io c now w.database)) [
    | inl (db, h) ↦
        rw (h, clear_row)
          (database-IsSafe io uuid_string w db
            (clear_expired_result-Rows io uuid_string c now w.database h))
    | inr (f, h) ↦ rw (h, clear_row) (IsSafe-refl uuid_string w)
  ]

  delete_candidate-IsSafe :
      (c : CleanupCandidate) (now : ℕ) (w : World)
      → IsRemovable uuid_string w c
      → IsSafe uuid_string w (delete_candidate io c now w).1
  unfolding delete_candidate is_unfinished
  delete_candidate-IsSafe c now w r = elim (Bool-cases (is_empty c.result_object_key)) [
    | inl empty ↦ rw (empty, delete_candidate) (clear_row-IsSafe c now w)
    | inr full ↦ elim (Bool-cases (io delete_object)) [
      | inr d ↦ rw (full, delete_candidate, d) (IsSafe-refl uuid_string w)
      | inl d ↦ elim r.key [
        | inl empty ↦ absurd (both empty full)
        | inr (t, f, k, made) ↦
            let removed : IsSafe uuid_string w
                (record w { objects = remove c.result_object_key w.objects }) =
              rw made (
                remove-IsSafe canonical t r.id f k r.row w r.listed r.same (ground (arith, r.gone))
                  (λ h q. absurd (ground (arith, r.gone, h)))) in
            rw (full, delete_candidate, d)
              (IsSafe-trans uuid_string removed (
                clear_row-IsSafe c now
                  (record w { objects = remove c.result_object_key w.objects })))
      ]
    ]
  ]

  delete_candidates-IsSafe :
      (cs : List CleanupCandidate) (now : ℕ) (w : World)
      → All (IsRemovable uuid_string w) cs
      → IsSafe uuid_string w (delete_candidates io cs now w).1
  unfolding delete_candidates
  delete_candidates-IsSafe [] now w rs k = IsSafe-refl uuid_string w k
  delete_candidates-IsSafe (c ∷ cs) now w (r, rs) k =
      let next : World = (delete_candidate io c now w).1 in
      let first : IsSafe uuid_string w next = delete_candidate-IsSafe c now w r in
      let (_, f) = first k in
      let rest = delete_candidates-IsSafe cs now next (All-later uuid_string cs f rs) in
      elim (List-cases (delete_candidate io c now w).0) [
        | inl none_failed ↦
            rw (none_failed, delete_candidates) (IsSafe-trans uuid_string first rest k)
        | inr (e, es, failed) ↦ rw (failed, delete_candidates) (first k)
      ]

  pub handle_cleanup-IsSafe :
      (decode : Text → Option (ℕ × ℕ)) (job : Job) (now : ℕ) (w : World)
      → IsSafe uuid_string w (handle_cleanup io decode job now w).1
  unfolding handle_cleanup expire
  handle_cleanup-IsSafe decode job now w = elim (Option-cases (decode job.payload)) [
    | inl bad ↦ rw (bad, handle_cleanup) (IsSafe-refl uuid_string w)
    | inr ((instant, batch), good) ↦
        elim (Bool-cases (
          not (text_eq job.kind (codes "export.cleanup"))
          || (instant == 0)
          || ltb batch 1
          || ltb 1000 batch)) [
            | inl wrong ↦ rw (good, handle_cleanup, wrong) (IsSafe-refl uuid_string w)
            | inr right ↦
                elim (Result-cases (reserve_cleanup_candidates io instant batch now w.database)) [
                  | inr (f, h) ↦ rw (good, handle_cleanup, right, h) (IsSafe-refl uuid_string w)
                  | inl ((cs, db), h) ↦
                      rw (good, handle_cleanup, right, h) (reserved instant batch cs db h)
                ]
          ]
  ]
    where
      reserved :
          (instant batch : ℕ) (cs : List CleanupCandidate) (db : ExportDatabase)
          → reserve_cleanup_candidates io instant batch now w.database ≡ ok (cs, db)
          → IsSafe uuid_string w (delete_candidates io cs now (record w { database = db })).1
      reserved instant batch cs db h k =
          let rows : List Export = w.database.exports in
          let chosen : List Export = candidates instant batch rows in
          let (steps, listed, after) =
            reserve_cleanup_candidates-Rows io uuid_string instant batch now w.database h in
          let first = database-IsSafe io uuid_string w db steps in
          let all : All (IsRemovable uuid_string (record w { database = db })) cs = rw listed (
            All-candidates uuid_string (record w { database = db }) chosen
              (λ e i.
                let (in_rows, _) = candidates-In instant batch rows e i in
                let taken : any (λ (c : Export). c.id == e.id) chosen ≡ true =
                  In-any e (λ (c : Export). c.id == e.id) chosen i (==_refl e.id) in
                let g : Export → Export =
                  λ x. if any (λ (c : Export). c.id == x.id) chosen then expire now x else x in
                let here : g e ≡ expire now e = rw taken refl in
                let moved : In (expire now e) (map g rows) =
                  subst (λ x. In x (map g rows)) here (map-In e g rows in_rows) in
                let there : In (expire now e) db.exports = rw after moved in
                keyed-IsRemovable uuid_string (record w { database = db }) e (expire now e)
                  (k.keyed e in_rows) there refl refl)) in
          IsSafe-trans uuid_string first
            (delete_candidates-IsSafe cs now (record w { database = db }) all) k

  pub handle_delete-IsSafe :
      (decode : Text → Option (ℕ × ℕ)) (job : Job) (now : ℕ) (w : World)
      → IsSafe uuid_string w (handle_delete io decode job now w).1
  unfolding handle_delete
  handle_delete-IsSafe decode job now w = elim (Option-cases (decode job.payload)) [
    | inl bad ↦ rw (bad, handle_delete) (IsSafe-refl uuid_string w)
    | inr ((t, i), good) ↦
        elim (Bool-cases (not (text_eq job.kind (codes "export.delete")) || (t == 0) || (i == 0))) [
          | inl wrong ↦ rw (good, handle_delete, wrong) (IsSafe-refl uuid_string w)
          | inr right ↦ elim (Result-cases (get_deletion_candidate io t i w.database)) [
            | inl (c, h) ↦ rw (good, handle_delete, right, h) (found t i c h)
            | inr (f, h) ↦ elim (Bool-cases (is_refusal export_not_found f)) [
              | inl gone ↦ rw (good, handle_delete, right, h, gone) (IsSafe-refl uuid_string w)
              | inr other ↦ rw (good, handle_delete, right, h, other) (IsSafe-refl uuid_string w)
            ]
          ]
        ]
  ]
    where
      found :
          (t i : ℕ) (c : CleanupCandidate)
          → get_deletion_candidate io t i w.database ≡ ok c
          → IsSafe uuid_string w (delete_candidate io c now w).1
      found t i c h k =
          let (e, listed, gone, same) = deletion_candidate-row io t i w.database h in
          let r : IsRemovable uuid_string w c =
            rw same (keyed-IsRemovable uuid_string w e e (k.keyed e listed) listed refl gone) in
          delete_candidate-IsSafe c now w r k
