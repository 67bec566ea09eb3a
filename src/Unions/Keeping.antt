-- ===== src/Unions/Keeping.antt =====
-- Every transaction on the unions keeps each of them within two to ten members.
use family_tree_app.Prelude.{
  first_row, ℕ, ◌≡◌, inl, inr, refl, subst, ◌∙◌, Bool, true, false, not, ◌∷◌, length, ◌==◌, leb,
  any, count_if, select, update_first, Option-cases, Result-cases, ok, arith,
}
use family_tree_app.Unions.Domain.{FamilyUnion, UnionMember, Aggregate, CreateValues, new}
use family_tree_app.Unions.Members.{new_union-IsCreatable}
use family_tree_app.Unions.Store.{
  UnionDatabase, AuditMutation, MemberMutation, Call, is_union, is_live_union, is_seat_of, seats,
  call, require_editable_tree, require_active_persons, load_union_for_update, load_members,
}
use family_tree_app.Unions.Writes.{
  insert_member, insert_members, create_with_members_editable, update_editable,
  soft_delete_editable, bump_union_version, add_member_editable, remove_member_editable,
  created_union, updated_union, deleted_union, is_previous, is_current_union,
}
use family_tree_app.Unions.Counts.{has_union, filled, insert_member-seats, insert_members-seats}
use family_tree_app.Unions.Limits.{
  IsWithinLimits, IsWithinLimits-same, rows-IsWithinLimits, bump-keeps, unions-has_union,
  live_union-exists, IsWithinLimits-filled, removed-IsWithinLimits, new_union-keyed,
  created-IsWithinLimits,
}

module _ (io : Call → Bool) where
  pub update_editable-IsWithinLimits :
      (actor : ℕ) (u : FamilyUnion) (db : UnionDatabase) {db' : UnionDatabase}
      → update_editable io actor u db ≡ ok db'
      → IsWithinLimits db
      → IsWithinLimits db'
  unfolding update_editable call require_editable_tree updated_union is_union
  update_editable-IsWithinLimits actor u db {db'} h w =
      elim (Option-cases (update_first (is_previous u) (updated_union actor u) db.unions)) [
        | inl e ↦ absurd (ground (arith, e))
        | inr ((y, rows), found) ↦
            rows-IsWithinLimits (is_previous u) (updated_union actor u) db db' (λ t i x. refl) found
              (ground (arith, found)) (ground (arith, found)) w
      ]

  pub soft_delete_editable-IsWithinLimits :
      (mutation : AuditMutation) (db : UnionDatabase) {db' : UnionDatabase}
      → soft_delete_editable io mutation db ≡ ok db'
      → IsWithinLimits db
      → IsWithinLimits db'
  unfolding soft_delete_editable call require_editable_tree deleted_union is_union
  soft_delete_editable-IsWithinLimits mutation db {db'} h w =
      elim (Option-cases
        (update_first (is_current_union mutation) (deleted_union mutation) db.unions)) [
          | inl e ↦ absurd (ground (arith, e))
          | inr ((y, rows), found) ↦
              rows-IsWithinLimits (is_current_union mutation) (deleted_union mutation) db db'
                (λ t i x. refl) found (ground (arith, found)) (ground (arith, found)) w
        ]

  pub add_member_editable-IsWithinLimits :
      (actor : ℕ) (member : UnionMember) (db : UnionDatabase) {a : Aggregate} {db' : UnionDatabase}
      → add_member_editable io actor member db ≡ ok (a, db')
      → IsWithinLimits db
      → IsWithinLimits db'
  unfolding add_member_editable call require_editable_tree require_active_persons
      load_union_for_update load_members filled
  add_member_editable-IsWithinLimits actor member db {a} {db'} h w =
      let t : ℕ = member.tree_id in
      let i : ℕ = member.union_id in
      elim (Option-cases (first_row (is_live_union t i) db.unions)) [
        | inl e ↦ absurd (ground (arith, e))
        | inr (u, e) ↦
            let room : leb 10 (seats db t i) ≡ false = ground (arith, e) in
            elim (Result-cases (insert_member io member db)) [
              | inr (_, refused) ↦ absurd (ground (arith, e, refused))
              | inl (db1, inserted) ↦
                  elim (Result-cases (bump_union_version io u actor member.created_at db1)) [
                    | inr (_, refused) ↦ absurd (ground (arith, e, inserted, refused))
                    | inl ((row, db2), bumped) ↦
                        let same : db' ≡ db2 = ground (arith, e, inserted, bumped) in
                        let (unions, one) = insert_member-seats io member db inserted in
                        let (kept, counted) = bump-keeps io u actor member.created_at db1 bumped in
                        let exists : has_union db t i ≡ true = live_union-exists t i db e in
                        rw same (
                          IsWithinLimits-filled db db2 t i 1 w exists (ground (arith, room))
                            (λ t' i'. kept t' i' ∙ unions-has_union db db1 unions t' i')
                            (λ t' i'. counted t' i' ∙ one t' i'))
                  ]
            ]
      ]

  pub remove_member_editable-IsWithinLimits :
      (mutation : MemberMutation) (db : UnionDatabase) {a : Aggregate} {db' : UnionDatabase}
      → remove_member_editable io mutation db ≡ ok (a, db')
      → IsWithinLimits db
      → IsWithinLimits db'
  unfolding remove_member_editable call require_editable_tree load_union_for_update load_members
      has_union
  remove_member_editable-IsWithinLimits mutation db {a} {db'} h w =
      let t : ℕ = mutation.tree_id in
      let i : ℕ = mutation.union_id in
      let gone : UnionMember → Bool = is_seat_of t i mutation.person_id in
      let db1 : UnionDatabase = record db {
        union_members = select (λ m. not (gone m)) db.union_members;
      } in
      elim (Option-cases (first_row (is_live_union t i) db.unions)) [
        | inl e ↦ absurd (ground (arith, e))
        | inr (u, e) ↦
            let enough : leb (seats db t i) 2 ≡ false = ground (arith, e) in
            let one : count_if gone db.union_members ≡ 1 = ground (arith, e) in
            elim (Result-cases
              (bump_union_version io u mutation.actor_user_id mutation.occurred_at db1)) [
                | inr (_, refused) ↦ absurd (ground (arith, e, refused))
                | inl ((row, db2), bumped) ↦
                    let same : db' ≡ db2 = ground (arith, e, bumped) in
                    let (kept, counted) =
                      bump-keeps io u mutation.actor_user_id mutation.occurred_at db1 bumped in
                    rw same (
                      IsWithinLimits-same db1 db2 kept counted (
                        removed-IsWithinLimits db t i mutation.person_id w (ground (arith, enough))
                          one))
              ]
      ]

  -- A creation that the domain has let through.
  pub create_with_members_editable-IsWithinLimits :
      (id tree_id actor author : ℕ) (values : CreateValues) (now : ℕ) (a : Aggregate)
      (db : UnionDatabase) {db' : UnionDatabase}
      → new id tree_id author values now ≡ ok a
      → create_with_members_editable io actor a db ≡ ok db'
      → IsWithinLimits db
      → IsWithinLimits db'
  unfolding create_with_members_editable call require_editable_tree require_active_persons seats
  create_with_members_editable-IsWithinLimits id tree_id actor author values now a db {db'} made h
        w =
      let u : FamilyUnion = a.family_union in
      let (c, members) = new_union-IsCreatable id tree_id author values now made in
      let (named, placed) = new_union-keyed id tree_id author values now made in
      let db1 : UnionDatabase = record db { unions = created_union actor u ∷ db.unions } in
      elim (Result-cases (insert_members io a.members db1)) [
        | inr (_, refused) ↦ absurd (ground (arith, refused))
        | inl (db2, inserted) ↦
            let same : db' ≡ db2 = ground (arith, inserted) in
            let fresh : any (λ (row : FamilyUnion). row.id == u.id) db.unions ≡ false =
              ground (arith, inserted) in
            let (unions, counted) =
              insert_members-seats io tree_id id now values.members db1
                (subst (λ z. insert_members io z db1 ≡ ok db2) members inserted) in
            rw same (
              created-IsWithinLimits db db2 actor u (length values.members) w fresh c.enough
                c.not_too_many unions (rw (named, placed) counted))
      ]
