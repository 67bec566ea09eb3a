-- ===== src/Trees/Store.antt =====
-- internal/features/trees/repository/postgres/repository.go: the tables of the trees and of their members,
-- and the transactions on them. `io c` says whether the database answers statement `c`.
use family_tree_app.Prelude.{
  ℕ, ◌+◌, Bool, not, ◌&&◌, ◌||◌, Option, none, some, is_some, is_none, List, ◌∷◌, codes, text_eq,
  ◌==◌, if◌then◌else◌, any, first_row, update_first, Result, ok, err, ◌>>◌, refuse_if,
}
use family_tree_app.Trees.Domain.{
  Error, tree_not_found, tree_version_conflict, FamilyTree, TreeMember, TreeAccess,
}

pub data Action : Type 0 where
  tree_deleted tree_restored : Action

pub record TreeAuditRow : Type 0 where
  pub id : ℕ
  pub tree_id : ℕ
  pub actor_user_id : ℕ
  pub action : Action
  pub previous_version : ℕ
  pub new_version : ℕ
  pub deleted_at : Option ℕ
  pub created_at : ℕ

pub record TreeDatabase : Type 0 where
  pub trees : List FamilyTree
  pub members : List TreeMember
  pub audit_log : List TreeAuditRow

-- `service.AuditMutation`.
pub record AuditMutation : Type 0 where
  pub audit_id : ℕ
  pub actor_user_id : ℕ
  pub tree_id : ℕ
  pub version : ℕ
  pub occurred_at : ℕ

pub data Call : Type 0 where
  begin read_access write_tree write_member write_audit commit : Call

-- Either a sentinel of the package, or a failure of the database.
pub data Failure : Type 0 where
  refused : Error → Failure
  database_failure : Failure

-- The membership that makes a user an active owner.
unfoldable pub is_owner_row : ℕ → ℕ → TreeMember → Bool
is_owner_row tree_id user_id m =
    (m.tree_id == tree_id)
    && (m.user_id == user_id)
    && text_eq m.role (codes "owner")
    && text_eq m.status (codes "active")

-- The row belongs to the user, who is its active owner.
unfoldable pub is_owned : List TreeMember → ℕ → FamilyTree → Bool
unfolding is_owner_row
is_owned members user_id t = (t.owner_user_id == user_id) && any (is_owner_row t.id user_id) members

-- The row that `INSERT` stores.
unfoldable pub inserted_tree : FamilyTree → FamilyTree
inserted_tree t = record t { updated_at = t.created_at; deleted_at = none }

unfoldable pub is_previous_tree : List TreeMember → ℕ → FamilyTree → FamilyTree → Bool
unfolding is_owned
is_previous_tree members actor tree t =
    (t.id == tree.id)
    && is_none t.deleted_at
    && (t.version + 1 == tree.version)
    && is_owned members actor t

unfoldable pub updated_tree : FamilyTree → FamilyTree → FamilyTree
updated_tree tree t = record t {
  name = tree.name;
  description = tree.description;
  locale = tree.locale;
  timezone = tree.timezone;
  updated_at = tree.updated_at;
  version = tree.version;
}

unfoldable pub is_mutable_tree : List TreeMember → AuditMutation → Bool → FamilyTree → Bool
unfolding is_owned
is_mutable_tree members mutation delete_tree t =
    (t.id == mutation.tree_id)
    && (t.version == mutation.version)
    && (if delete_tree then is_none t.deleted_at else is_some t.deleted_at)
    && is_owned members mutation.actor_user_id t

unfoldable pub mutated_tree : AuditMutation → Bool → FamilyTree → FamilyTree
mutated_tree mutation delete_tree t = record t {
  deleted_at = if delete_tree then some mutation.occurred_at else none;
  updated_at = mutation.occurred_at;
  version = t.version + 1;
}

unfoldable pub is_active_member : ℕ → ℕ → TreeMember → Bool
is_active_member tree_id user_id m =
    (m.tree_id == tree_id) && (m.user_id == user_id) && text_eq m.status (codes "active")

unfoldable pub is_readable_tree : ℕ → Bool → FamilyTree → Bool
is_readable_tree tree_id include_deleted t =
    (t.id == tree_id) && (include_deleted || is_none t.deleted_at)

module _ (io : Call → Bool) where
  unfoldable pub call : Call → Result Failure (Unit {0})
  call c = refuse_if (not (io c)) database_failure

  -- The join of the one tree with the one membership of the user.
  unfoldable pub get_accessible : ℕ → ℕ → Bool → TreeDatabase → Result Failure TreeAccess
  unfolding call first_row is_active_member is_readable_tree
  get_accessible tree_id user_id include_deleted db = do
    call read_access
    elim (first_row (is_active_member tree_id user_id) db.members) [
      | none ↦ err (refused tree_not_found)
      | some m ↦ elim (first_row (is_readable_tree tree_id include_deleted) db.trees) [
        | none ↦ err (refused tree_not_found)
        | some t ↦ ok (record { tree = t; membership = m })
      ]
    ]

  unfoldable pub create_with_owner : TreeAccess → TreeDatabase → Result Failure TreeDatabase
  unfolding call inserted_tree
  create_with_owner access db = do
    let t = access.tree
    let m = access.membership
    call begin
    call write_tree
    refuse_if (any (λ (row : FamilyTree). row.id == t.id) db.trees) database_failure
    call write_member
    refuse_if
        (any (λ (row : TreeMember). (row.tree_id == m.tree_id) && (row.user_id == m.user_id))
          db.members)
        database_failure
    call commit
    ok (record db { trees = inserted_tree t ∷ db.trees; members = m ∷ db.members })

  unfoldable pub update_owned :
      ℕ → FamilyTree → TreeDatabase → Result Failure (FamilyTree × TreeDatabase)
  unfolding call is_previous_tree updated_tree
  update_owned actor tree db = do
    call write_tree
    elim (update_first (is_previous_tree db.members actor tree) (updated_tree tree) db.trees) [
      | none ↦ err (refused tree_version_conflict)
      | some (row, rows) ↦ ok (row, record db { trees = rows })
    ]

  unfoldable pub mutate_deletion :
      AuditMutation → Bool → TreeDatabase → Result Failure (FamilyTree × TreeDatabase)
  unfolding call is_mutable_tree mutated_tree
  mutate_deletion mutation delete_tree db = do
    call begin
    call write_tree
    elim (update_first (is_mutable_tree db.members mutation delete_tree)
        (mutated_tree mutation delete_tree) db.trees) [
          | none ↦ err (refused tree_version_conflict)
          | some (row, rows) ↦ do
            call write_audit
            let entry : TreeAuditRow = record {
              id = mutation.audit_id;
              tree_id = mutation.tree_id;
              actor_user_id = mutation.actor_user_id;
              action = if delete_tree then tree_deleted else tree_restored;
              previous_version = mutation.version;
              new_version = row.version;
              deleted_at = row.deleted_at;
              created_at = mutation.occurred_at;
            }
            call commit
            ok (row, record db { trees = rows; audit_log = entry ∷ db.audit_log })
        ]
