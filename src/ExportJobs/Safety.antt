-- ===== src/ExportJobs/Safety.antt =====
-- The mark of a generation's end is safe: of a failure, of a result, and of a result that conflicts.
use family_tree_app.Prelude.{
  ℕ, ◌≡◌, refl, sym, ◌∙◌, subst, inl, inr, Bool, true, false, ◌&&◌, List, ◌∷◌, [], Text, codes,
  text_eq, text_eq_refl, is_empty, ltb, Bool-cases, Result-cases, In, ok, err, arith,
}
use family_tree_app.ExportJobs.Domain.{
  Export, export_state_conflict, export_archive_too_large, export_visual_too_large,
  export_result_too_large, is_completed,
}
use family_tree_app.ExportJobs.Store.{ExportDatabase, Call, delete_object, Failure, refused}
use family_tree_app.ExportJobs.Steps.{
  Completion, is_queued, is_running_export, mark_completed, mark_failed,
}
use family_tree_app.ExportJobs.Generator.{
  World, is_refusal, remove, result_object_key, mark_failed_or_join, retry_or_fail, settle_failure,
  finish,
}
use family_tree_app.ExportJobs.Keys.{IsCanonical, result_object_key_checksum}
use family_tree_app.ExportJobs.Rows.{is_unfinished, Rows, count_one}
use family_tree_app.ExportJobs.Marks.{NoKey}
use family_tree_app.ExportJobs.Kept.{
  has_object, IsOpen, IsSafe, IsSafe-refl, Rows-IsSafe, key-inked, remove-IsSafe, both,
}
use family_tree_app.ExportJobs.Changes.{IsAcquired, mark_failed-Rows}
use family_tree_app.ExportJobs.Completions.{mark_completed-Rows, mark_completed-conflict}
use family_tree_app.Jobs.Queue.{Job}

pub is_refusal-eq :
    (f : Failure) → is_refusal export_state_conflict f ≡ true → f ≡ refused export_state_conflict
unfolding is_refusal
is_refusal-eq f h = ground arith

module _ (io : Call → Bool) (uuid_string : ℕ → Text) where
  -- A statement that gives no row a new key.
  pub database-IsSafe :
      (w : World) (db : ExportDatabase)
      → Rows uuid_string NoKey w.database.exports db.exports
      → IsSafe uuid_string w (record w { database = db })
  database-IsSafe w db rows =
      Rows-IsSafe uuid_string NoKey w (record w { database = db }) rows refl (λ k n. absurd n)

  pub mark_failed_or_join-IsSafe :
      (e : Export) (code : Text) (now : ℕ) (returned joined : List Failure) (w : World)
      → IsSafe uuid_string w (mark_failed_or_join io e code now returned joined w).1
  unfolding mark_failed_or_join
  mark_failed_or_join-IsSafe e code now returned joined w =
      elim (Result-cases (mark_failed io e code now w.database)) [
        | inl (db, h) ↦
            rw (h, mark_failed_or_join)
              (database-IsSafe w db (mark_failed-Rows io uuid_string e code now w.database h))
        | inr (f, h) ↦ rw (h, mark_failed_or_join) (IsSafe-refl uuid_string w)
      ]

  pub retry_or_fail-IsSafe :
      (job : Job) (e : Export) (now : ℕ) (cause : Failure) (w : World)
      → IsSafe uuid_string w (retry_or_fail io job e now cause w).1
  unfolding retry_or_fail
  retry_or_fail-IsSafe job e now cause w = elim (Bool-cases (ltb job.attempts job.max_attempts)) [
    | inl h ↦ rw h (IsSafe-refl uuid_string w)
    | inr h ↦
        rw h
          (mark_failed_or_join-IsSafe e (codes "generation_failed") now (cause ∷ []) (cause ∷ []) w)
  ]

  pub settle_failure-IsSafe :
      (job : Job) (e : Export) (now : ℕ) (cause : Failure) (w : World)
      → IsSafe uuid_string w (settle_failure io job e now cause w).1
  unfolding settle_failure
  settle_failure-IsSafe job e now cause w =
      elim (Bool-cases (is_refusal export_archive_too_large cause)) [
        | inl a ↦
            rw a (mark_failed_or_join-IsSafe e (codes "archive_too_large") now [] (cause ∷ []) w)
        | inr a ↦ elim (Bool-cases (is_refusal export_visual_too_large cause)) [
          | inl b ↦
              rw (a, b)
                (mark_failed_or_join-IsSafe e (codes "visual_too_large") now [] (cause ∷ []) w)
          | inr b ↦ elim (Bool-cases (is_refusal export_result_too_large cause)) [
            | inl c ↦
                rw (a, b, c)
                  (mark_failed_or_join-IsSafe e (codes "result_too_large") now [] (cause ∷ []) w)
            | inr c ↦ rw (a, b, c) (retry_or_fail-IsSafe job e now cause w)
          ]
        ]
      ]

module _ (io : Call → Bool) {uuid_string : ℕ → Text} (canonical : IsCanonical uuid_string) where
  -- A completion that conflicts removes an object that no completed export has.
  conflict-IsSafe :
      (e : Export) (c : Completion) (now : ℕ) (w : World)
      → IsAcquired e w.database.exports
      → c.object_key ≡ result_object_key uuid_string e.tree_id e.id e.format c.checksum
      → mark_completed io e c now w.database ≡ err (refused export_state_conflict)
      → IsSafe uuid_string w (record w { objects = remove c.object_key w.objects })
  unfolding is_unfinished
  conflict-IsSafe e c now w acquired made h k =
      let (r, listed, same, still, differs) =
        mark_completed-conflict io uuid_string e c now w.database h in
      let is_row : r ≡ acquired.row =
        count_one e.id w.database.exports r acquired.row (k.unique e.id) listed same acquired.listed
          acquired.same_id in
      let left : is_queued r.status ≡ false = rw is_row acquired.left in
      let format : r.format ≡ e.format = rw is_row acquired.same_format in
      rw made (
        remove-IsSafe canonical e.tree_id e.id e.format c.checksum r w listed same
          (ground (arith, left, still)) (λ d q. other r listed format differs d q) k)
    where
      other :
          (r : Export)
          → In r w.database.exports
          → r.format ≡ e.format
          → (is_completed r.status
              && text_eq r.result_object_key c.object_key
              && text_eq r.result_checksum c.checksum)
            ≡ false
          → is_completed r.status ≡ true
          → r.result_object_key ≡ result_object_key uuid_string e.tree_id e.id e.format c.checksum
          → ⊥
      other r listed format differs d q =
          let keyed : r.result_object_key
              ≡ result_object_key uuid_string r.tree_id r.id e.format r.result_checksum =
            elim (k.keyed r listed) [
              | inl empty ↦ absurd (
                  both (subst (λ (x : Text). is_empty x ≡ true) q empty)
                    (key-inked canonical e.tree_id e.id e.format c.checksum))
              | inr keyed ↦ rw (← format) keyed
            ] in
          let checksum : r.result_checksum ≡ c.checksum =
            result_object_key_checksum canonical r.tree_id e.tree_id r.id e.id e.format
              r.result_checksum c.checksum (sym keyed ∙ q) in
          both
            (ground
              (arith, d, q, made, checksum, text_eq_refl c.object_key, text_eq_refl c.checksum))
            differs

  pub finish-IsSafe :
      (job : Job) (e : Export) (c : Completion) (now : ℕ) (w : World)
      → IsAcquired e w.database.exports
      → c.object_key ≡ result_object_key uuid_string e.tree_id e.id e.format c.checksum
      → (IsOpen w e.id → has_object c.object_key w.objects ≡ true)
      → IsSafe uuid_string w (finish io job e c now w).1
  unfolding finish is_unfinished is_running_export
  finish-IsSafe job e c now w acquired made stored =
      elim (Result-cases (mark_completed io e c now w.database)) [
        | inl (db, h) ↦ rw (h, finish) (marked db h)
        | inr (f, h) ↦ elim (Bool-cases (is_refusal export_state_conflict f)) [
          | inr other ↦ rw (h, finish, other) (retry_or_fail-IsSafe io uuid_string job e now f w)
          | inl conflict ↦ elim (Bool-cases (io delete_object)) [
            | inr d ↦ rw (h, finish, conflict, d) (IsSafe-refl uuid_string w)
            | inl d ↦
                rw (h, finish, conflict, d)
                  (conflict-IsSafe e c now w acquired made (rw (is_refusal-eq f conflict) at h))
          ]
        ]
      ]
    where
      marked :
          (db : ExportDatabase)
          → mark_completed io e c now w.database ≡ ok db
          → IsSafe uuid_string w (record w { database = db })
      marked db h k = elim (mark_completed-Rows io uuid_string e c now w.database keys h) [
        | inl same ↦ rw same (IsSafe-refl uuid_string w k)
        | inr (rows, (r, i, passes)) ↦
            let open_now : IsOpen w e.id = λ x j q.
              let is_r : x ≡ r =
                count_one e.id w.database.exports x r (k.unique e.id) j q i
                  (ground (arith, passes)) in
              rw is_r (ground (arith, passes)) in
            Rows-IsSafe uuid_string (λ key. key ≡ c.object_key) w (record w { database = db }) rows
              refl (λ key q. rw q (stored open_now)) k
      ]
        where
          keys :
              (r : Export)
              → In r w.database.exports
              → r.tree_id ≡ e.tree_id
              → r.id ≡ e.id
              → c.object_key ≡ result_object_key uuid_string r.tree_id r.id r.format c.checksum
          keys r i t q =
              let is_row : r ≡ acquired.row =
                count_one e.id w.database.exports r acquired.row (k.unique e.id) i q acquired.listed
                  acquired.same_id in
              let format : r.format ≡ e.format = rw is_row acquired.same_format in
              rw (format, t, q) made
