-- ===== src/Unions/Seats.antt =====
-- Adding a member to a union and removing it again.
use family_tree_app.Prelude.{ℕ, ◌≡◌, refl, Bool, false, not, List, [], ◌∷◌, any, select, ok, arith}
use family_tree_app.Unions.Domain.{FamilyUnion, UnionMember, Aggregate}
use family_tree_app.Unions.Store.{
  UnionDatabase, MemberMutation, Call, is_seat_of, is_seat, call, require_editable_tree,
  require_active_persons, load_union_for_update, load_members,
}
use family_tree_app.Unions.Writes.{
  has_key, insert_member, bump_union_version, add_member_editable, remove_member_editable,
}

bump-members :
    (io : Call → Bool) (u : FamilyUnion) (actor now : ℕ) (db : UnionDatabase) {row : FamilyUnion}
    {db' : UnionDatabase}
    → bump_union_version io u actor now db ≡ ok (row, db')
    → db'.union_members ≡ db.union_members
unfolding bump_union_version call
bump-members io u actor now db h = ground arith

module _ (io : Call → Bool) where
  add_member-members :
      (actor : ℕ) (member : UnionMember) (db : UnionDatabase) {a : Aggregate} {db' : UnionDatabase}
      → add_member_editable io actor member db ≡ ok (a, db')
      → (db'.union_members ≡ member ∷ db.union_members)
        × (any (has_key member) db.union_members ≡ false)
  unfolding add_member_editable insert_member bump_union_version call require_editable_tree
      require_active_persons load_union_for_update load_members
  add_member-members actor member db h = (ground arith, ground arith)

  remove_member-members :
      (mutation : MemberMutation) (db : UnionDatabase) {a : Aggregate} {db' : UnionDatabase}
      → remove_member_editable io mutation db ≡ ok (a, db')
      → db'.union_members
        ≡ select
            (λ m. not (is_seat_of mutation.tree_id mutation.union_id mutation.person_id m))
            db.union_members
  unfolding remove_member_editable bump_union_version call require_editable_tree
      load_union_for_update load_members
  remove_member-members mutation db h = ground arith

  select-keyed :
      (m : UnionMember) (ms : List UnionMember)
      → any (has_key m) ms ≡ false
      → select (λ k. not (is_seat_of m.tree_id m.union_id m.person_id k)) ms ≡ ms
  unfolding any has_key select is_seat_of is_seat
  select-keyed m [] h = refl
  select-keyed m (k ∷ ks) h =
      let rest : any (has_key m) ks ≡ false = ground arith in ground (arith, select-keyed m ks rest)

  -- Removing the person that has just been added to a union brings back the members that there were.
  pub add_then_remove_member :
      (actor : ℕ) (member : UnionMember) (db : UnionDatabase) (remover now : ℕ) {a b : Aggregate}
      {db' db'' : UnionDatabase}
      → add_member_editable io actor member db ≡ ok (a, db')
      → remove_member_editable io
          (record {
            actor_user_id = remover;
            tree_id = member.tree_id;
            union_id = member.union_id;
            person_id = member.person_id;
            occurred_at = now;
          })
          db'
        ≡ ok (b, db'')
      → db''.union_members ≡ db.union_members
  unfolding select is_seat_of is_seat
  add_then_remove_member actor member db remover now {db' = db'} added removed =
      let (seated, fresh) = add_member-members actor member db added in
      let left = remove_member-members _ db' removed in
      rw (left, seated) (ground (arith, select-keyed member db.union_members fresh))
