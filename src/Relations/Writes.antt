-- ===== src/Relations/Writes.antt =====
-- The transactions of internal/features/relationships/repository/postgres/repository.go that write,
-- and `mutateDeletion` of internal/features/persons/repository/postgres/repository.go.
use family_tree_app.Prelude.{
  ℕ, ◌+◌, ◌-◌, Bool, not, ◌&&◌, none, some, ◌∷◌, text_eq, ◌==◌, if◌then◌else◌, is_some, is_none,
  any, update_first, Result, ok, err, refuse_if, ◌>>=◌, ◌>>◌,
}
use family_tree_app.Relations.Domain.{
  Error, relation_version_conflict, duplicate_relation, relation_cycle, relation_access_denied,
  person_version_conflict, person_access_denied, ParentChildRelation,
}
use family_tree_app.Relations.Store.{
  PersonRow, Action, relation_deleted, person_deleted, person_restored, AuditRow, Database,
  AuditMutation, Call, begin, lock, read_duplicate, read_cycle, write, read_name, write_audit,
  commit, has_active, is_duplicate, creates_cycle, is_current, call, require_editable_tree,
  require_active_persons,
}

-- The row that `INSERT` stores: both dates are the creation's, and the author is the acting user.
unfoldable pub inserted_row : ℕ → ParentChildRelation → ParentChildRelation
inserted_row actor relation = record relation {
  created_by = actor;
  updated_at = relation.created_at;
  deleted_at = none;
}

-- Another live row with the key of the unique index `parent_child_relations_active_uq`.
unfoldable pub breaks_unique_index : Database → ParentChildRelation → Bool
breaks_unique_index db relation =
    any
      (λ r.
        (r.tree_id == relation.tree_id)
        && not (r.id == relation.id)
        && (r.parent_person_id == relation.parent_person_id)
        && (r.child_person_id == relation.child_person_id)
        && text_eq r.relation_type relation.relation_type
        && is_none r.deleted_at)
      db.relations

-- The row that the mutation selects: `version = $3`, and deleted or not as the action wants it.
unfoldable pub is_mutable_person : AuditMutation → Bool → PersonRow → Bool
is_mutable_person mutation delete_person p =
    (p.tree_id == mutation.tree_id)
    && (p.id == mutation.entity_id)
    && (p.version == mutation.version)
    && (if delete_person then is_none p.deleted_at else is_some p.deleted_at)

unfoldable pub mutated_person : AuditMutation → Bool → PersonRow → PersonRow
mutated_person mutation delete_person p = record p {
  deleted_at = if delete_person then some mutation.occurred_at else none;
  updated_by = mutation.actor_user_id;
  updated_at = mutation.occurred_at;
  version = p.version + 1;
}

-- The columns that `UPDATE` sets.
unfoldable pub updated_row : ParentChildRelation → ParentChildRelation → ParentChildRelation
updated_row relation r = record r {
  relation_type = relation.relation_type;
  confidence = relation.confidence;
  note = relation.note;
  updated_at = relation.updated_at;
  version = relation.version;
}

unfoldable pub deleted_row : AuditMutation → ParentChildRelation → ParentChildRelation
deleted_row mutation r = record r {
  deleted_at = some mutation.occurred_at;
  updated_at = mutation.occurred_at;
  version = r.version + 1;
}

unfoldable pub audit_row : AuditMutation → Action → ℕ → AuditRow
audit_row mutation action new_version = record {
  id = mutation.audit_id;
  tree_id = mutation.tree_id;
  actor_user_id = mutation.actor_user_id;
  action = action;
  entity_id = mutation.entity_id;
  previous_version = mutation.version;
  new_version = new_version;
  created_at = mutation.occurred_at;
}

-- `INSERT INTO parent_child_relations`, behind the unique index.
unfoldable pub insert_relation : ParentChildRelation → Database → Result Error Database
insert_relation row db =
    if is_duplicate db row
    then err duplicate_relation
    else ok (record db { relations = row ∷ db.relations })

-- The row that `UpdateEditable` selects: the one version before, its two persons active.
unfoldable pub is_updatable : Database → ParentChildRelation → ParentChildRelation → Bool
is_updatable db relation r =
    not (relation.version == 0)
    && is_current relation.tree_id relation.id (relation.version - 1) r
    && has_active db r.tree_id r.parent_person_id
    && has_active db r.tree_id r.child_person_id

-- `UPDATE parent_child_relations`, with the number of its rows tested; the index refuses a key that
-- another live row has.
unfoldable pub update_relation : ParentChildRelation → Database → Result Error Database
update_relation relation db =
    elim (update_first (is_updatable db relation) (updated_row relation) db.relations) [
      | none ↦ err relation_version_conflict
      | some (row, rows) ↦
          if breaks_unique_index db row
          then err duplicate_relation
          else ok (record db { relations = rows })
    ]

-- `UPDATE … SET deleted_at … RETURNING r.version`.
unfoldable pub delete_relation : AuditMutation → Database → Result Error (ℕ × Database)
delete_relation mutation db =
    elim (update_first (is_current mutation.tree_id mutation.entity_id mutation.version)
      (deleted_row mutation) db.relations) [
        | none ↦ err relation_version_conflict
        | some (row, rows) ↦ ok (row.version, record db { relations = rows })
      ]

-- `UPDATE persons SET deleted_at … RETURNING …`.
unfoldable pub mutate_person : AuditMutation → Bool → Database → Result Error (PersonRow × Database)
mutate_person mutation delete_person db =
    elim (update_first (is_mutable_person mutation delete_person)
      (mutated_person mutation delete_person) db.persons) [
        | none ↦ err person_version_conflict
        | some (row, rows) ↦ ok (row, record db { persons = rows })
      ]

unfoldable pub insert_audit : AuditRow → Database → Database
insert_audit row db = record db { audit_log = row ∷ db.audit_log }

module _ (io : Call → Bool) where
  unfoldable pub create_acyclic_editable :
      ℕ → ParentChildRelation → Database → Result Error Database
  unfolding call require_editable_tree require_active_persons insert_relation inserted_row
  create_acyclic_editable actor relation db = do
    call io begin
    require_editable_tree io db relation.tree_id actor relation_access_denied
    call io lock
    require_active_persons io db relation.tree_id relation.parent_person_id relation.child_person_id
    call io read_duplicate
    refuse_if (is_duplicate db relation) duplicate_relation
    call io read_cycle
    refuse_if (creates_cycle db relation) relation_cycle
    call io write
    db' ← insert_relation (inserted_row actor relation) db
    call io commit
    ok db'

  unfoldable pub update_editable : ℕ → ParentChildRelation → Database → Result Error Database
  unfolding call require_editable_tree update_relation
  update_editable actor relation db = do
    call io begin
    require_editable_tree io db relation.tree_id actor relation_access_denied
    call io lock
    call io write
    db' ← update_relation relation db
    call io commit
    ok db'

  unfoldable pub soft_delete_editable : AuditMutation → Database → Result Error Database
  unfolding call require_editable_tree delete_relation insert_audit
  soft_delete_editable mutation db = do
    call io begin
    require_editable_tree io db mutation.tree_id mutation.actor_user_id relation_access_denied
    call io lock
    call io write
    deleted ← delete_relation mutation db
    call io write_audit
    let db' = insert_audit (audit_row mutation relation_deleted deleted.0) deleted.1
    call io commit
    ok db'

  -- The same statement deletes a person and restores one; it takes no lock on the graph.
  unfoldable pub mutate_deletion : AuditMutation → Bool → Database → Result Error Database
  unfolding call require_editable_tree mutate_person insert_audit
  mutate_deletion mutation delete_person db = do
    call io begin
    require_editable_tree io db mutation.tree_id mutation.actor_user_id person_access_denied
    call io write
    mutated ← mutate_person mutation delete_person db
    call io read_name
    call io write_audit
    let action = if delete_person then person_deleted else person_restored
    let db' = insert_audit (audit_row mutation action (mutated.0).version) mutated.1
    call io commit
    ok db'
