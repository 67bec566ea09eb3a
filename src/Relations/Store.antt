-- ===== src/Relations/Store.antt =====
-- internal/features/relationships/repository/postgres/repository.go: the transactions that write
-- relations, over the rows that their statements read; and the deletion and restoration of a person
-- of internal/features/persons/repository/postgres/repository.go, which write the same tables.
-- A table is the list of its rows. `io c` says whether the database answers statement `c`: a
-- statement that fails ends the transaction, and a transaction that does not commit changes nothing.
-- The advisory lock makes the writers of one tree's graph run one after another, so a transaction
-- is one step from the tables that it finds to those that it leaves.
use family_tree_app.Prelude.{
  ℕ, zero, suc, Bool, not, ◌&&◌, ◌||◌, Option, none, some, List, [], ◌∷◌, ◌++◌, Text, codes,
  text_eq, length, ◌==◌, is_none, any, count_if, select, map, flat_map, Result, ok, err, refuse_if,
  ◌>>◌,
}
use family_tree_app.Relations.Domain.{
  Error, relation_not_found, database_failure, ParentChildRelation,
}

pub record TreeRow : Type 0 where
  pub id : ℕ
  pub deleted_at : Option ℕ

pub record MemberRow : Type 0 where
  pub tree_id : ℕ
  pub user_id : ℕ
  pub role : Text
  pub status : Text

pub record PersonRow : Type 0 where
  pub id : ℕ
  pub tree_id : ℕ
  pub updated_by : ℕ
  pub updated_at : ℕ
  pub deleted_at : Option ℕ
  pub version : ℕ

pub data Action : Type 0 where
  relation_deleted person_deleted person_restored : Action

pub record AuditRow : Type 0 where
  pub id : ℕ
  pub tree_id : ℕ
  pub actor_user_id : ℕ
  pub action : Action
  pub entity_id : ℕ
  pub previous_version : ℕ
  pub new_version : ℕ
  pub created_at : ℕ

pub record Database : Type 0 where
  pub trees : List TreeRow
  pub members : List MemberRow
  pub persons : List PersonRow
  pub relations : List ParentChildRelation
  pub audit_log : List AuditRow

pub record AuditMutation : Type 0 where
  pub audit_id : ℕ
  pub actor_user_id : ℕ
  pub tree_id : ℕ
  pub entity_id : ℕ
  pub version : ℕ
  pub occurred_at : ℕ

-- The statements of a transaction.
pub data Call : Type 0 where
  begin authorize lock read_persons read_duplicate read_cycle write read_name write_audit commit :
      Call

-- `SELECT EXISTS` over the members and the trees: an active owner or editor of a live tree.
unfoldable pub is_editable : Database → ℕ → ℕ → Bool
is_editable db tree_id user_id =
    any
      (λ m.
        (m.tree_id == tree_id)
        && (m.user_id == user_id)
        && text_eq m.status (codes "active")
        && (text_eq m.role (codes "owner") || text_eq m.role (codes "editor")))
      db.members
    && any (λ t. (t.id == tree_id) && is_none t.deleted_at) db.trees

-- A row that `tree_id = $1 AND id = $2 AND deleted_at IS NULL` selects.
unfoldable pub is_active_person : ℕ → ℕ → PersonRow → Bool
is_active_person tree_id id p = (p.tree_id == tree_id) && (p.id == id) && is_none p.deleted_at

unfoldable pub count_active : Database → ℕ → ℕ → ℕ → ℕ
count_active db tree_id parent child =
    count_if (λ p. is_active_person tree_id parent p || is_active_person tree_id child p) db.persons

unfoldable pub is_duplicate : Database → ParentChildRelation → Bool
is_duplicate db relation =
    any
      (λ r.
        (r.tree_id == relation.tree_id)
        && (r.parent_person_id == relation.parent_person_id)
        && (r.child_person_id == relation.child_person_id)
        && text_eq r.relation_type relation.relation_type
        && is_none r.deleted_at)
      db.relations

-- The join of `descendants` with the relations: a live relation of the tree from this parent.
unfoldable pub is_link : ℕ → ℕ → ParentChildRelation → Bool
is_link tree_id parent r =
    (r.tree_id == tree_id) && (r.parent_person_id == parent) && is_none r.deleted_at

-- The join with `persons child`.
unfoldable pub has_active : Database → ℕ → ℕ → Bool
unfolding is_active_person
has_active db tree_id id = any (is_active_person tree_id id) db.persons

-- A row of `descendants`: a person, and the path that leads there.
abbrev pub PathRow : Type 0
PathRow = ℕ × List ℕ

-- The relation leads from the row to an active child that its path has not met.
unfoldable pub leads_on : Database → ℕ → PathRow → ParentChildRelation → Bool
leads_on db tree_id row r =
    is_link tree_id row.0 r
    && has_active db tree_id r.child_person_id
    && not (any (λ p. p == r.child_person_id) row.1)

-- The rows that one row of the recursive term yields.
unfoldable pub extend : Database → ℕ → PathRow → List PathRow
extend db tree_id row =
    map (λ r. (r.child_person_id, row.1 ++ r.child_person_id ∷ []))
      (select (leads_on db tree_id row) db.relations)

-- The rows of `descendants`, round by round, from the rows of the last round. The first number bounds
-- the rounds; one for each row of `persons` and one more is enough.
unfoldable pub descendants : Database → ℕ → ℕ → List PathRow → List PathRow
descendants db tree_id zero rows = []
descendants db tree_id (suc rounds) rows =
    rows ++ descendants db tree_id rounds (flat_map (extend db tree_id) rows)

unfoldable pub creates_cycle : Database → ParentChildRelation → Bool
creates_cycle db relation =
    any (λ (row : PathRow). row.0 == relation.parent_person_id)
      (descendants db relation.tree_id (suc (length db.persons))
        ((relation.child_person_id, relation.child_person_id ∷ []) ∷ []))

-- `tree_id = $1 AND id = $2 AND version = $3 AND deleted_at IS NULL`.
unfoldable pub is_current : ℕ → ℕ → ℕ → ParentChildRelation → Bool
is_current tree_id id version r =
    (r.tree_id == tree_id) && (r.id == id) && (r.version == version) && is_none r.deleted_at

-- What a transaction leaves: its tables if it commits, those that it found if it ends by an error.
unfoldable pub run : (Database → Result Error Database) → Database → Database × Option Error
run tx db = elim (tx db) [ ok db' ↦ (db', none) | err e ↦ (db, some e) ]

module _ (io : Call → Bool) where
  -- One statement reaches the database and is answered.
  unfoldable pub call : Call → Result Error (Unit {0})
  call c = refuse_if (not (io c)) database_failure

  -- `requireEditableTree`, with the error of the package that it stands in.
  unfoldable pub require_editable_tree : Database → ℕ → ℕ → Error → Result Error (Unit {0})
  unfolding call
  require_editable_tree db tree_id user_id denied = do
    call authorize
    refuse_if (not (is_editable db tree_id user_id)) denied

  unfoldable pub require_active_persons : Database → ℕ → ℕ → ℕ → Result Error (Unit {0})
  unfolding call
  require_active_persons db tree_id parent child = do
    call read_persons
    refuse_if (not (count_active db tree_id parent child == 2)) relation_not_found
