-- ===== src/ExportJobs/History.antt =====
-- Histories of the requests and of the handlers on exports. While a handler has stored a result and not yet marked
-- it, the others may do whatever a history does.
use family_tree_app.Prelude.{
  ℕ, ◌≡◌, Bool, true, ok, ◌≤◌, some, false, text_eq, codes, ltb, ◌==◌, Option, Text, In, arith,
}
use family_tree_app.ExportJobs.Domain.{Export}
use family_tree_app.ExportJobs.Store.{ExportDatabase, MutationContext, Call}
use family_tree_app.ExportJobs.Requests.{create_accessible, expire_accessible}
use family_tree_app.ExportJobs.Generator.{World, Renderers, Config, handle_generate}
use family_tree_app.ExportJobs.Cleanup.{handle_cleanup, handle_delete}
use family_tree_app.ExportJobs.Keys.{IsCanonical}
use family_tree_app.ExportJobs.Kept.{IsKept, IsSafe, IsSafe-refl, IsSafe-trans}
use family_tree_app.ExportJobs.Generation.{handle_generate-IsSafe}
use family_tree_app.ExportJobs.Removal.{handle_cleanup-IsSafe, handle_delete-IsSafe}
use family_tree_app.ExportJobs.Asking.{create_accessible-IsSafe, expire_accessible-IsSafe}
use family_tree_app.ExportJobs.Rows.{is_unfinished}
use family_tree_app.ExportJobs.Finality.{handle_acquired-ends}
use family_tree_app.Jobs.Queue.{Job}

module _ {Snapshot : Type 0} (renderers : Renderers Snapshot) (config : Config)
    (uuid_string : ℕ → Text) (checksum : Text → Text) (json_valid : Text → Bool)
    (canonical_json : Text → Text) (canonical_form : Text → Option Text)
    (decode : Text → Option (ℕ × ℕ)) where
  pub data ExportSteps : World → World → Type 0 where
    done : {w : World} → ExportSteps w w
    create :
        {u w : World} (io : Call → Bool) (audit_id job_id : ℕ) (e e' : Export) (created : Bool)
        (db : ExportDatabase)
        → ExportSteps u w
        → create_accessible io uuid_string json_valid canonical_json canonical_form audit_id job_id
            e w.database
          ≡ ok (e', created, db)
        → ExportSteps u (record w { database = db })
    expires :
        {u w : World} (io : Call → Bool) (job_id : ℕ) (mutation : MutationContext)
        (db : ExportDatabase)
        → ExportSteps u w
        → expire_accessible io uuid_string json_valid canonical_json canonical_form job_id mutation
            w.database
          ≡ ok db
        → ExportSteps u (record w { database = db })
    generates :
        {u w : World} (io : Call → Bool) (job : Job) (started now : ℕ) (meanwhile : World → World)
        → ExportSteps u w
        → ((v : World) → ExportSteps v (meanwhile v))
        → ExportSteps u
            (handle_generate io renderers config uuid_string checksum meanwhile decode job started
              now w).1
    cleans :
        {u w : World} (io : Call → Bool) (job : Job) (now : ℕ)
        → ExportSteps u w
        → ExportSteps u (handle_cleanup io decode job now w).1
    deletes :
        {u w : World} (io : Call → Bool) (job : Job) (now : ℕ)
        → ExportSteps u w
        → ExportSteps u (handle_delete io decode job now w).1

  module _ (canonical : IsCanonical uuid_string) where
    ExportSteps-IsSafe : {u w : World} → ExportSteps u w → IsSafe uuid_string u w
    ExportSteps-IsSafe {u} done = IsSafe-refl uuid_string u
    ExportSteps-IsSafe (create {w = w} io audit_id job_id e e' created db s h) =
        IsSafe-trans uuid_string (ExportSteps-IsSafe s) (
          create_accessible-IsSafe io uuid_string json_valid canonical_json canonical_form audit_id
            job_id e w h)
    ExportSteps-IsSafe (expires {w = w} io job_id mutation db s h) =
        IsSafe-trans uuid_string (ExportSteps-IsSafe s) (
          expire_accessible-IsSafe io uuid_string json_valid canonical_json canonical_form job_id
            mutation w h)
    ExportSteps-IsSafe (generates {w = w} io job started now meanwhile s others) =
        IsSafe-trans uuid_string (ExportSteps-IsSafe s) (
          handle_generate-IsSafe io renderers config canonical checksum meanwhile decode job started
            now w (λ v. ExportSteps-IsSafe (others v)))
    ExportSteps-IsSafe (cleans {w = w} io job now s) =
        IsSafe-trans uuid_string (ExportSteps-IsSafe s)
          (handle_cleanup-IsSafe io canonical decode job now w)
    ExportSteps-IsSafe (deletes {w = w} io job now s) =
        IsSafe-trans uuid_string (ExportSteps-IsSafe s)
          (handle_delete-IsSafe io canonical decode job now w)

    -- Over every history of creations, expiries, generations, cleanups and deletions, whatever calls of the database or the storage
    -- fail, and whatever the others do while a result is stored and not yet marked: every export that is completed has its object
    -- in the storage, identifiers stay unique, and every key of a result names its export.
    pub ExportSteps-IsKept :
        {u w : World} → IsKept uuid_string u → ExportSteps u w → IsKept uuid_string w
    ExportSteps-IsKept k s = (ExportSteps-IsSafe s k).0

    -- Where the database and the storage answer every call, the last attempt at a generation leaves no row of the
    -- export that its payload names queued or running, whatever the renderers return, and whatever the others do while
    -- the result is stored and not yet marked.
    pub handle_generate-ends :
        (io : Call → Bool) (job : Job) (t i started now : ℕ) (meanwhile : World → World) (w : World)
        → ((c : Call) → io c ≡ true)
        → ((v : World) → ExportSteps v (meanwhile v))
        → text_eq job.kind (codes "export.generate") ≡ true
        → decode job.payload ≡ some (t, i)
        → (t == 0) ≡ false
        → (i == 0) ≡ false
        → job.max_attempts ≤ job.attempts
        → IsKept uuid_string w
        → (x : Export)
        → In x
            (handle_generate io renderers config uuid_string checksum meanwhile decode job started
              now w).1.database.exports
        → x.tree_id ≡ t
        → x.id ≡ i
        → is_unfinished x ≡ false
    unfolding handle_generate
    handle_generate-ends io job t i started now meanwhile w answers others kind good ht hi last k =
        let attempts : ltb job.attempts job.max_attempts ≡ false = ground (arith, last) in
        rw (good, handle_generate, kind, ht, hi)
          (handle_acquired-ends io answers renderers config uuid_string checksum meanwhile
            (λ v. ExportSteps-IsSafe (others v)) job t i started now w attempts k)
