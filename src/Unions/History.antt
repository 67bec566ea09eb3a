-- ===== src/Unions/History.antt =====
-- Histories of the transactions on unions, each through the domain where the service goes through it.
use family_tree_app.Prelude.{ℕ, ◌≡◌, ok, Bool}
use family_tree_app.Unions.Domain.{FamilyUnion, UnionMember, Aggregate, CreateValues, new}
use family_tree_app.Unions.Store.{UnionDatabase, AuditMutation, MemberMutation, Call}
use family_tree_app.Unions.Writes.{
  create_with_members_editable, update_editable, soft_delete_editable, add_member_editable,
  remove_member_editable,
}
use family_tree_app.Unions.Limits.{IsWithinLimits}
use family_tree_app.Unions.Keeping.{
  create_with_members_editable-IsWithinLimits, update_editable-IsWithinLimits,
  soft_delete_editable-IsWithinLimits, add_member_editable-IsWithinLimits,
  remove_member_editable-IsWithinLimits,
}

-- One committed transaction, whatever statements the database would have refused.
pub data UnionStep (db : UnionDatabase) : UnionDatabase → Type 0 where
  create_union :
      {db' : UnionDatabase} (io : Call → Bool) (id tree_id actor : ℕ) (values : CreateValues)
      (now : ℕ) (a : Aggregate)
      → new id tree_id actor values now ≡ ok a
      → create_with_members_editable io actor a db ≡ ok db'
      → UnionStep db db'
  update_union :
      {db' : UnionDatabase} (io : Call → Bool) (actor : ℕ) (u : FamilyUnion)
      → update_editable io actor u db ≡ ok db'
      → UnionStep db db'
  delete_union :
      {db' : UnionDatabase} (io : Call → Bool) (mutation : AuditMutation)
      → soft_delete_editable io mutation db ≡ ok db'
      → UnionStep db db'
  add_member :
      {db' : UnionDatabase} (io : Call → Bool) (actor : ℕ) (member : UnionMember) (a : Aggregate)
      → add_member_editable io actor member db ≡ ok (a, db')
      → UnionStep db db'
  remove_member :
      {db' : UnionDatabase} (io : Call → Bool) (mutation : MemberMutation) (a : Aggregate)
      → remove_member_editable io mutation db ≡ ok (a, db')
      → UnionStep db db'

pub data UnionSteps (db : UnionDatabase) : UnionDatabase → Type 0 where
  done : UnionSteps db db
  after : {db1 db2 : UnionDatabase} → UnionSteps db db1 → UnionStep db1 db2 → UnionSteps db db2

UnionStep-IsWithinLimits :
    {db db' : UnionDatabase} → UnionStep db db' → IsWithinLimits db → IsWithinLimits db'
UnionStep-IsWithinLimits {db} (create_union io id tree_id actor values now a made h) w =
    create_with_members_editable-IsWithinLimits io id tree_id actor actor values now a db made h w
UnionStep-IsWithinLimits {db} (update_union io actor u h) w =
    update_editable-IsWithinLimits io actor u db h w
UnionStep-IsWithinLimits {db} (delete_union io mutation h) w =
    soft_delete_editable-IsWithinLimits io mutation db h w
UnionStep-IsWithinLimits {db} (add_member io actor member a h) w =
    add_member_editable-IsWithinLimits io actor member db h w
UnionStep-IsWithinLimits {db} (remove_member io mutation a h) w =
    remove_member_editable-IsWithinLimits io mutation db h w

-- Over every history, from tables within the limits, of creations, updates, deletions, additions and removals of members, each union that
-- there is keeps two to ten members, and no member is left of a union that there is not.
pub UnionSteps-IsWithinLimits :
    {db db' : UnionDatabase} → IsWithinLimits db → UnionSteps db db' → IsWithinLimits db'
UnionSteps-IsWithinLimits w done = w
UnionSteps-IsWithinLimits w (after s st) =
    UnionStep-IsWithinLimits st (UnionSteps-IsWithinLimits w s)
