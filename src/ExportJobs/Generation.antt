-- ===== src/ExportJobs/Generation.antt =====
-- The handler of internal/features/exports/processing/generator.go is safe, whatever safe changes the other transactions make between the
-- storing of the object and its mark.
use family_tree_app.Prelude.{
  ℕ, ◌≡◌, refl, ◌∙◌, inl, inr, Bool, false, not, ◌||◌, Option, ◌∷◌, [], Text, codes, text_eq,
  length, ◌==◌, Bool-cases, Option-cases, Result-cases, ok, ◌+◌,
}
use family_tree_app.ExportJobs.Domain.{
  Export, export_not_found, export_tree_unavailable, is_completed, is_expired,
}
use family_tree_app.ExportJobs.Store.{ExportDatabase, Call, put_object, call_failure}
use family_tree_app.ExportJobs.Steps.{
  Completion, is_failed, is_queued, is_running, acquire_for_generation,
}
use family_tree_app.ExportJobs.Generator.{
  World, Renderers, Config, is_refusal, put, result_object_key, build, finish, store_result,
  generate, handle_acquired, handle_generate,
}
use family_tree_app.ExportJobs.Keys.{IsCanonical}
use family_tree_app.ExportJobs.Kept.{
  Follows, IsSafe, IsSafe-refl, IsSafe-trans, put-IsSafe, put-has_object, both,
}
use family_tree_app.ExportJobs.Changes.{IsAcquired, acquire_for_generation-Rows}
use family_tree_app.Jobs.Queue.{Job}
use family_tree_app.ExportJobs.Safety.{
  database-IsSafe, mark_failed_or_join-IsSafe, retry_or_fail-IsSafe, settle_failure-IsSafe,
  finish-IsSafe,
}

-- The worker's export goes on as itself.
pub IsAcquired-later :
    (uuid_string : ℕ → Text) (e : Export) (w w' : World)
    → Follows uuid_string w w'
    → IsAcquired e w.database.exports
    → IsAcquired e w'.database.exports
IsAcquired-later uuid_string e w w' f acquired =
    let (r, listed, s) = f.stays acquired.row acquired.listed in
    let left : is_queued r.status ≡ false = elim (Bool-cases (is_queued r.status)) [
      | inr q ↦ q
      | inl q ↦ absurd (both (s.was_queued q) acquired.left)
    ] in
    record {
      row = r;
      listed = listed;
      same_id = s.same_id ∙ acquired.same_id;
      same_tree = s.same_tree ∙ acquired.same_tree;
      same_format = s.same_format ∙ acquired.same_format;
      left = left;
    }

module _ (io : Call → Bool) {Snapshot : Type 0} (renderers : Renderers Snapshot) (config : Config)
    {uuid_string : ℕ → Text} (canonical : IsCanonical uuid_string) (checksum : Text → Text)
    (meanwhile : World → World) where
  store_result-IsSafe :
      (job : Job) (e : Export) (now : ℕ) (body mime : Text) (w : World)
      → ((v : World) → IsSafe uuid_string v (meanwhile v))
      → IsAcquired e w.database.exports
      → IsSafe uuid_string w
          (store_result io renderers config uuid_string checksum meanwhile job e now body mime w).1
  unfolding store_result
  store_result-IsSafe job e now body mime w others acquired = elim (Bool-cases (io put_object)) [
    | inr h ↦ rw h (retry_or_fail-IsSafe io uuid_string job e now call_failure w)
    | inl h ↦ rw h stored
  ]
    where
      key : Text
      key = result_object_key uuid_string e.tree_id e.id e.format (checksum body)

      c : Completion
      c = record {
        object_key = key;
        mime_type = mime;
        size_bytes = length body;
        checksum = checksum body;
        until = now + config.result_ttl;
      }

      w1 : World
      w1 = record w { objects = put key body w.objects }

      stored : IsSafe uuid_string w (finish io job e c now (meanwhile w1)).1
      stored k =
          let (k1, f1) = put-IsSafe uuid_string key body w k in
          let (k2, f2) = others w1 k1 in
          let acquired2 : IsAcquired e (meanwhile w1).database.exports =
            IsAcquired-later uuid_string e w1 (meanwhile w1) f2 acquired in
          IsSafe-trans uuid_string (put-IsSafe uuid_string key body w)
            (IsSafe-trans uuid_string (others w1) (
              finish-IsSafe io canonical job e c now (meanwhile w1) acquired2 refl (λ o.
                f2.keeps e.tree_id e.id e.format (checksum body) o
                  (put-has_object key body w.objects))))
            k

  generate-IsSafe :
      (job : Job) (e : Export) (now : ℕ) (w : World)
      → ((v : World) → IsSafe uuid_string v (meanwhile v))
      → IsAcquired e w.database.exports
      → IsSafe uuid_string w
          (generate io renderers config uuid_string checksum meanwhile job e now w).1
  unfolding generate
  generate-IsSafe job e now w others acquired =
      elim (Result-cases (renderers.load_manifest e w.database)) [
        | inr (f, h) ↦ elim (Bool-cases (is_refusal export_tree_unavailable f)) [
          | inl gone ↦
              rw (h, generate, gone)
                (mark_failed_or_join-IsSafe io uuid_string e (codes "tree_unavailable") now []
                  (f ∷ []) w)
          | inr other ↦ rw (h, generate, other) (retry_or_fail-IsSafe io uuid_string job e now f w)
        ]
        | inl (snapshot, h) ↦ elim (Result-cases (build renderers config e snapshot w.objects)) [
          | inr (f, b) ↦ rw (h, generate, b) (settle_failure-IsSafe io uuid_string job e now f w)
          | inl ((body, mime), b) ↦
              rw (h, generate, b) (store_result-IsSafe job e now body mime w others acquired)
        ]
      ]

  pub handle_generate-IsSafe :
      (decode_payload : Text → Option (ℕ × ℕ)) (job : Job) (started now : ℕ) (w : World)
      → ((v : World) → IsSafe uuid_string v (meanwhile v))
      → IsSafe uuid_string w
          (handle_generate io renderers config uuid_string checksum meanwhile decode_payload job
            started now w).1
  unfolding handle_generate
  handle_generate-IsSafe decode_payload job started now w others =
      elim (Option-cases (decode_payload job.payload)) [
        | inl bad ↦ rw (bad, handle_generate) (IsSafe-refl uuid_string w)
        | inr ((t, i), good) ↦
            elim (Bool-cases
              (not (text_eq job.kind (codes "export.generate")) || (t == 0) || (i == 0))) [
                | inl wrong ↦ rw (good, handle_generate, wrong) (IsSafe-refl uuid_string w)
                | inr right ↦ rw (good, handle_generate, right) (acquired t i)
              ]
      ]
    where
      after :
          (e : Export) (db : ExportDatabase)
          → IsAcquired e db.exports
          → IsSafe uuid_string
              (record w { database = db })
              (handle_acquired io renderers config uuid_string checksum meanwhile job now w
                (ok (e, db))).1
      after e db row =
          elim (Bool-cases (is_completed e.status || is_failed e.status || is_expired e.status)) [
            | inl ended ↦
                rw (ended, handle_acquired) (IsSafe-refl uuid_string (record w { database = db }))
            | inr h ↦ elim (Bool-cases (is_running e.status)) [
              | inr still ↦
                  rw (h, handle_acquired, still)
                    (IsSafe-refl uuid_string (record w { database = db }))
              | inl runs ↦
                  rw (h, handle_acquired, runs)
                    (generate-IsSafe job e now (record w { database = db }) others row)
            ]
          ]

      acquired :
          (t i : ℕ)
          → IsSafe uuid_string w
              (handle_acquired io renderers config uuid_string checksum meanwhile job now w
                (acquire_for_generation io t i started w.database)).1
      acquired t i = elim (Result-cases (acquire_for_generation io t i started w.database)) [
        | inr (f, h) ↦ elim (Bool-cases (is_refusal export_not_found f)) [
          | inl gone ↦ rw (h, handle_acquired, gone) (IsSafe-refl uuid_string w)
          | inr other ↦ rw (h, handle_acquired, other) (IsSafe-refl uuid_string w)
        ]
        | inl ((e, db), h) ↦
            let (rows, row) = acquire_for_generation-Rows io uuid_string t i started w.database h in
            let first = database-IsSafe io uuid_string w db rows in
            rw h (IsSafe-trans uuid_string first (after e db row))
      ]
