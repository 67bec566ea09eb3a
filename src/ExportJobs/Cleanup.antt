-- ===== src/ExportJobs/Cleanup.antt =====
-- internal/features/exports/processing/cleanup.go: the removal of the results of expired exports. `decode_cleanup`
-- and `decode_delete` are what encoding/json makes of a payload.
use family_tree_app.Prelude.{
  ℕ, not, ◌||◌, Option, none, some, List, [], ◌∷◌, Text, codes, text_eq, is_empty, ltb, ◌==◌,
  if◌then◌else◌, ok, err, Bool,
}
use family_tree_app.ExportJobs.Domain.{export_not_found, CleanupCandidate}
use family_tree_app.ExportJobs.Store.{Call, delete_object, call_failure}
use family_tree_app.ExportJobs.Steps.{
  reserve_cleanup_candidates, get_deletion_candidate, clear_expired_result,
}
use family_tree_app.ExportJobs.Generator.{World, Handled, remove, is_refusal}
use family_tree_app.Jobs.Queue.{Job}

module _ (io : Call → Bool) where
  unfoldable pub clear_row : CleanupCandidate → ℕ → World → Handled
  clear_row candidate now world = elim (clear_expired_result io candidate now world.database) [
    | ok db ↦ ([], record world { database = db })
    | err failure ↦ (failure ∷ [], world)
  ]

  unfoldable pub delete_candidate : CleanupCandidate → ℕ → World → Handled
  unfolding remove clear_row
  delete_candidate candidate now world =
      if is_empty candidate.result_object_key
      then clear_row candidate now world
      else if io delete_object
      then clear_row candidate now
          (record world { objects = remove candidate.result_object_key world.objects })
      else (call_failure ∷ [], world)

  -- The loop over the candidates, which the first error ends.
  unfoldable pub delete_candidates : List CleanupCandidate → ℕ → World → Handled
  unfolding delete_candidate
  delete_candidates [] now world = ([], world)
  delete_candidates (c ∷ cs) now world =
      let (errors, next) = delete_candidate c now world in
      elim errors [ [] ↦ delete_candidates cs now next | e ∷ es ↦ (e ∷ es, next) ]

  -- `Cleanup.Handle`.
  unfoldable pub handle_cleanup : (Text → Option (ℕ × ℕ)) → Job → ℕ → World → Handled
  unfolding delete_candidates
  handle_cleanup decode_cleanup job now world = elim (decode_cleanup job.payload) [
    | none ↦ (call_failure ∷ [], world)
    | some (instant, batch) ↦
        if not (text_eq job.kind (codes "export.cleanup"))
          || (instant == 0)
          || ltb batch 1
          || ltb 1000 batch
        then (call_failure ∷ [], world)
        else elim (reserve_cleanup_candidates io instant batch now world.database) [
          | err failure ↦ (failure ∷ [], world)
          | ok (chosen, db) ↦ delete_candidates chosen now (record world { database = db })
        ]
  ]

  -- `Deleter.Handle`.
  unfoldable pub handle_delete : (Text → Option (ℕ × ℕ)) → Job → ℕ → World → Handled
  unfolding delete_candidate is_refusal
  handle_delete decode_delete job now world = elim (decode_delete job.payload) [
    | none ↦ (call_failure ∷ [], world)
    | some (tree_id, export_id) ↦
        if not (text_eq job.kind (codes "export.delete")) || (tree_id == 0) || (export_id == 0)
        then (call_failure ∷ [], world)
        else elim (get_deletion_candidate io tree_id export_id world.database) [
          | err failure ↦
              if is_refusal export_not_found failure then ([], world) else (failure ∷ [], world)
          | ok candidate ↦ delete_candidate candidate now world
        ]
  ]
