-- ===== src/Relations/Restore.antt =====
-- The restoration of a person (`RestoreEditable`) tests no ancestry: relations that were created
-- while the person was deleted, and those that the person kept, may close a cycle together.
use family_tree_app.Prelude.{
  ℕ, ◌≡◌, refl, inl, inr, Bool, true, false, In, any-In, In-any, subst, ap, sym, ok, arith,
}
use family_tree_app.Relations.Domain.{ParentChildRelation}
use family_tree_app.Relations.Store.{
  PersonRow, Database, AuditMutation, Call, is_active_person, has_active, is_link,
}
use family_tree_app.Relations.Writes.{is_mutable_person, mutated_person, mutate_deletion}
use family_tree_app.Relations.Reach.{Edge, Reach, next}
use family_tree_app.Relations.Acyclic.{IsAcyclic, Reach-mono}
use family_tree_app.Relations.Lifecycle.{mutate_deletion-Updated}

module _ (io : Call → Bool) (mutation : AuditMutation) (db : Database) {db' : Database}
    (restored : mutate_deletion io mutation false db ≡ ok db') where
  -- The person that was restored is active.
  restored_active : has_active db' mutation.tree_id mutation.entity_id ≡ true
  unfolding has_active is_active_person is_mutable_person mutated_person
  restored_active =
      let (y, u, e) = mutate_deletion-Updated io mutation false db restored in
      In-any y (is_active_person mutation.tree_id mutation.entity_id) db'.persons u.placed
        (ground (arith, u.passes, u.made))

  still_active : (t x : ℕ) → has_active db t x ≡ true → has_active db' t x ≡ true
  unfolding has_active is_active_person is_mutable_person
  still_active t x live =
      let (y, u, e) = mutate_deletion-Updated io mutation false db restored in
      let (p, listed, active) = any-In (is_active_person t x) db.persons live in
      elim (u.kept p listed) [
        | inl j ↦ In-any p (is_active_person t x) db'.persons j active
        | inr same ↦ absurd (
            deleted_not_active u.old u.passes
              (subst (λ z. is_active_person t x z ≡ true) same active))
      ]
    where
      deleted_not_active :
          (z : PersonRow)
          → is_mutable_person mutation false z ≡ true
          → is_active_person t x z ≡ true
          → ⊥
      deleted_not_active z old active = ground arith

  same_relations : db'.relations ≡ db.relations
  same_relations =
      let (y, u, e) = mutate_deletion-Updated io mutation false db restored in
      ap (λ (d : Database). d.relations) e

  Edge-after : (t x y : ℕ) → Edge db t x y → Edge db' t x y
  Edge-after t x y (r, i, link, child, live) =
      (r, subst (In r) (sym same_relations) i, link, child, still_active t y live)

  -- A restoration leaves a cycle wherever the person's live relations, to a parent above and a
  -- child below, meet an ancestry that leads from that child back to that parent.
  pub restore_closes_cycle :
      (above below : ParentChildRelation)
      → In above db.relations
      → In below db.relations
      → is_link mutation.tree_id above.parent_person_id above ≡ true
      → above.child_person_id ≡ mutation.entity_id
      → is_link mutation.tree_id mutation.entity_id below ≡ true
      → has_active db mutation.tree_id below.child_person_id ≡ true
      → Reach db mutation.tree_id below.child_person_id above.parent_person_id
      → ¬ IsAcyclic db'
  restore_closes_cycle above below i j from_parent to_person to_child live back acyclic =
      acyclic mutation.tree_id mutation.entity_id below.child_person_id
        (Edge-after _ _ _ (below, j, to_child, refl, live))
        (next (Reach-mono db' db _ _ _ (Edge-after mutation.tree_id) back)
          (above, subst (In above) (sym same_relations) i, from_parent, to_person, restored_active))
