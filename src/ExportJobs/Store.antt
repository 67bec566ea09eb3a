-- ===== src/ExportJobs/Store.antt =====
-- internal/features/exports/repository/postgres/repository.go: the table of exports, beside those of the
-- trees, their members and the background jobs, and who may see an export. `io c` says whether the
-- database, or the object storage, answers call `c`.
use family_tree_app.Prelude.{
  ℕ, Bool, not, ◌&&◌, ◌||◌, List, [], ◌∷◌, codes, text_eq, ltb, ◌==◌, if◌then◌else◌, is_none, any,
  Result, ok, err, refuse_if, ◌>>◌,
}
use family_tree_app.ExportJobs.Domain.{Error, export_access_denied, Export}
use family_tree_app.Relations.Store.{Database, MemberRow, is_editable}
use family_tree_app.Jobs.Queue.{Job, EnqueueRequest}
use family_tree_app.Jobs.Queue

pub data Action : Type 0 where
  export_created export_deleted export_downloaded : Action

pub record ExportAuditRow : Type 0 where
  pub id : ℕ
  pub tree_id : ℕ
  pub actor_user_id : ℕ
  pub action : Action
  pub entity_id : ℕ
  pub created_at : ℕ

pub record ExportDatabase : Type 0 where
  pub base : Database
  pub exports : List Export
  pub jobs : List Job
  pub audit_log : List ExportAuditRow

-- `service.MutationContext`, and `service.DownloadAudit`, which has the same fields.
pub record MutationContext : Type 0 where
  pub audit_id : ℕ
  pub actor_user_id : ℕ
  pub tree_id : ℕ
  pub export_id : ℕ
  pub occurred_at : ℕ

pub data Call : Type 0 where
  begin authorize insert_export read_existing enqueue write_audit commit : Call
  read lock write_status read_status reserve clear put_object delete_object : Call

-- A sentinel of the package, an error of the queue of jobs, or a failure of a call.
pub data Failure : Type 0 where
  refused : Error → Failure
  queue_failure : Queue.Error → Failure
  call_failure : Failure

unfoldable pub is_export : ℕ → ℕ → Export → Bool
is_export tree_id id e = (e.tree_id == tree_id) && (e.id == id)

unfoldable pub is_active_member : ℕ → ℕ → MemberRow → Bool
is_active_member tree_id user_id m =
    (m.tree_id == tree_id) && (m.user_id == user_id) && text_eq m.status (codes "active")

unfoldable pub is_live_tree : Database → ℕ → Bool
is_live_tree db tree_id = any (λ t. (t.id == tree_id) && is_none t.deleted_at) db.trees

-- The joins with the members and the trees, and `requested_by = $3 OR member.role = 'owner'`.
unfoldable pub can_see : Database → ℕ → Export → Bool
unfolding is_active_member is_live_tree
can_see db actor e =
    any
      (λ m.
        is_active_member e.tree_id actor m
        && ((e.requested_by == actor) || text_eq m.role (codes "owner")))
      db.members
    && is_live_tree db e.tree_id

-- `ORDER BY created_at DESC, id DESC`.
unfoldable pub is_newer : Export → Export → Bool
is_newer a b = ltb b.created_at a.created_at || ((a.created_at == b.created_at) && ltb b.id a.id)

unfoldable pub insert_newest : Export → List Export → List Export
unfolding is_newer
insert_newest e [] = e ∷ []
insert_newest e (x ∷ xs) =
    let rest = insert_newest e xs in if is_newer x e then x ∷ rest else e ∷ x ∷ xs

unfoldable pub newest_first : List Export → List Export
unfolding insert_newest
newest_first [] = []
newest_first (e ∷ es) = insert_newest e (newest_first es)

unfoldable pub from_queue {ℓ} : {A : Type ℓ} → Result Queue.Error A → Result Failure A
from_queue (ok a) = ok a
from_queue (err e) = err (queue_failure e)

module _ (io : Call → Bool) where
  unfoldable pub call : Call → Result Failure (Unit {0})
  call c = refuse_if (not (io c)) call_failure

  unfoldable pub require_export_creator : ExportDatabase → ℕ → ℕ → Result Failure (Unit {0})
  unfolding call
  require_export_creator db tree_id user_id = do
    call authorize
    refuse_if (not (is_editable db.base tree_id user_id)) (refused export_access_denied)
