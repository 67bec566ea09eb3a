-- ===== src/Unions/Writes.antt =====
-- The transactions of internal/features/unions/repository/postgres/repository.go that write. Each is one
-- step from the tables that it finds to those that it leaves: adding and removing a member lock the row
-- of the union first.
use family_tree_app.Prelude.{
  ℕ, ◌+◌, Bool, not, ◌&&◌, none, some, List, [], ◌∷◌, map, leb, ◌==◌, any, count_if, select,
  update_first, Result, ok, err, refuse_if, ◌>>=◌, ◌>>◌,
}
use family_tree_app.Unions.Domain.{
  union_version_conflict, union_member_limit, union_member_not_found, duplicate_union_member,
  min_members, max_members, FamilyUnion, UnionMember, Aggregate,
}
use family_tree_app.Unions.Store.{
  UnionDatabase, UnionAuditRow, AuditMutation, MemberMutation, Call, begin, write_union,
  write_member, count_members, read_member, remove_member, bump, write_audit, commit, Failure,
  refused, database_failure, is_live_union, is_seat_of, seats, call, require_editable_tree,
  require_active_persons, load_union_for_update, load_members,
}

-- `union_members_pkey`.
unfoldable pub has_key : UnionMember → UnionMember → Bool
has_key m k = (k.union_id == m.union_id) && (k.person_id == m.person_id)

-- The row that the creation stores.
unfoldable pub created_union : ℕ → FamilyUnion → FamilyUnion
created_union actor u = record u {
  created_by = actor;
  updated_by = actor;
  updated_at = u.created_at;
  deleted_at = none;
}

-- The columns that an update sets, and the row that it selects.
unfoldable pub is_previous : FamilyUnion → FamilyUnion → Bool
unfolding is_live_union
is_previous u row = is_live_union u.tree_id u.id row && (row.version + 1 == u.version)

unfoldable pub updated_union : ℕ → FamilyUnion → FamilyUnion → FamilyUnion
updated_union actor u row = record row {
  union_type = u.union_type;
  end_reason = u.end_reason;
  note = u.note;
  updated_by = actor;
  updated_at = u.updated_at;
  version = u.version;
}

unfoldable pub is_current_union : AuditMutation → FamilyUnion → Bool
unfolding is_live_union
is_current_union mutation row =
    is_live_union mutation.tree_id mutation.union_id row && (row.version == mutation.version)

unfoldable pub deleted_union : AuditMutation → FamilyUnion → FamilyUnion
deleted_union mutation row = record row {
  deleted_at = some mutation.occurred_at;
  updated_by = mutation.actor_user_id;
  updated_at = mutation.occurred_at;
  version = row.version + 1;
}

unfoldable pub bumped_union : ℕ → ℕ → FamilyUnion → FamilyUnion
bumped_union actor now row = record row {
  updated_by = actor;
  updated_at = now;
  version = row.version + 1;
}

module _ (io : Call → Bool) where
  unfoldable pub insert_member : UnionMember → UnionDatabase → Result Failure UnionDatabase
  unfolding call has_key
  insert_member m db = do
    call io write_member
    refuse_if (any (has_key m) db.union_members) (refused duplicate_union_member)
    ok (record db { union_members = m ∷ db.union_members })

  unfoldable pub insert_members : List UnionMember → UnionDatabase → Result Failure UnionDatabase
  unfolding insert_member
  insert_members [] db = ok db
  insert_members (m ∷ ms) db = do db' ← insert_member m db; insert_members ms db'

  unfoldable pub create_with_members_editable :
      ℕ → Aggregate → UnionDatabase → Result Failure UnionDatabase
  unfolding call require_editable_tree require_active_persons insert_members created_union
  create_with_members_editable actor aggregate db = do
    let u = aggregate.family_union
    call io begin
    require_editable_tree io db u.tree_id actor
    require_active_persons io db u.tree_id (map (λ m. m.person_id) aggregate.members)
    call io write_union
    refuse_if (any (λ (row : FamilyUnion). row.id == u.id) db.unions) database_failure
    db' ←
        insert_members aggregate.members (record db { unions = created_union actor u ∷ db.unions })
    call io commit
    ok db'

  unfoldable pub update_editable : ℕ → FamilyUnion → UnionDatabase → Result Failure UnionDatabase
  unfolding call require_editable_tree is_previous updated_union
  update_editable actor u db = do
    call io begin
    require_editable_tree io db u.tree_id actor
    call io write_union
    elim (update_first (is_previous u) (updated_union actor u) db.unions) [
      | none ↦ err (refused union_version_conflict)
      | some (_, rows) ↦ do call io commit; ok (record db { unions = rows })
    ]

  unfoldable pub soft_delete_editable : AuditMutation → UnionDatabase → Result Failure UnionDatabase
  unfolding call require_editable_tree is_current_union deleted_union
  soft_delete_editable mutation db = do
    call io begin
    require_editable_tree io db mutation.tree_id mutation.actor_user_id
    call io write_union
    elim (update_first (is_current_union mutation) (deleted_union mutation) db.unions) [
      | none ↦ err (refused union_version_conflict)
      | some (row, rows) ↦ do
        call io write_audit
        let entry : UnionAuditRow = record {
          id = mutation.audit_id;
          tree_id = mutation.tree_id;
          actor_user_id = mutation.actor_user_id;
          entity_id = mutation.union_id;
          previous_version = mutation.version;
          new_version = row.version;
          created_at = mutation.occurred_at;
        }
        call io commit
        ok (record db { unions = rows; audit_log = entry ∷ db.audit_log })
    ]

  unfoldable pub bump_union_version :
      FamilyUnion → ℕ → ℕ → UnionDatabase → Result Failure (FamilyUnion × UnionDatabase)
  unfolding call bumped_union
  bump_union_version u actor now db = do
    call io bump
    elim (update_first (is_live_union u.tree_id u.id) (bumped_union actor now) db.unions) [
      | none ↦ err database_failure
      | some (row, rows) ↦ ok (row, record db { unions = rows })
    ]

  unfoldable pub add_member_editable :
      ℕ → UnionMember → UnionDatabase → Result Failure (Aggregate × UnionDatabase)
  unfolding call require_editable_tree require_active_persons load_union_for_update insert_member
      bump_union_version load_members seats
  add_member_editable actor member db = do
    call io begin
    require_editable_tree io db member.tree_id actor
    u ← load_union_for_update io db member.tree_id member.union_id
    require_active_persons io db member.tree_id (member.person_id ∷ [])
    call io count_members
    refuse_if (leb max_members (seats db member.tree_id member.union_id))
        (refused union_member_limit)
    db' ← insert_member member db
    bumped ← bump_union_version u actor member.created_at db'
    members ← load_members io bumped.1 member.tree_id member.union_id
    call io commit
    ok (record { family_union = bumped.0; members = members }, bumped.1)

  unfoldable pub remove_member_editable :
      MemberMutation → UnionDatabase → Result Failure (Aggregate × UnionDatabase)
  unfolding call require_editable_tree load_union_for_update bump_union_version load_members seats
      is_seat_of
  remove_member_editable mutation db = do
    let is_gone = is_seat_of mutation.tree_id mutation.union_id mutation.person_id
    call io begin
    require_editable_tree io db mutation.tree_id mutation.actor_user_id
    u ← load_union_for_update io db mutation.tree_id mutation.union_id
    call io read_member
    refuse_if (not (any is_gone db.union_members)) (refused union_member_not_found)
    call io count_members
    refuse_if (leb (seats db mutation.tree_id mutation.union_id) min_members)
        (refused union_member_limit)
    call io remove_member
    refuse_if (not (count_if is_gone db.union_members == 1)) (refused union_member_not_found)
    let db' = record db { union_members = select (λ m. not (is_gone m)) db.union_members }
    bumped ← bump_union_version u mutation.actor_user_id mutation.occurred_at db'
    members ← load_members io bumped.1 mutation.tree_id mutation.union_id
    call io commit
    ok (record { family_union = bumped.0; members = members }, bumped.1)
