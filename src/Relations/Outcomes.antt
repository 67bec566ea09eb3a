-- ===== src/Relations/Outcomes.antt =====
-- The outcomes of the relation transactions: when a creation commits, and what a deletion records.
use family_tree_app.Prelude.{
  ℕ, ◌+◌, ◌≡◌, refl, inl, inr, Bool, true, false, none, some, ◌∷◌, ◌⊎◌, subst, In, Bool-cases,
  if◌then◌else◌, ◌∙◌, ap, ok, err, arith,
}
use family_tree_app.Relations.Domain.{ParentChildRelation, relation_cycle}
use family_tree_app.Relations.Store.{
  Database, AuditMutation, Call, begin, authorize, lock, read_persons, read_duplicate, read_cycle,
  write, commit, relation_deleted, is_editable, count_active, is_duplicate, creates_cycle,
  is_current,
}
use family_tree_app.Relations.Writes.{
  inserted_row, create_acyclic_editable, deleted_row, soft_delete_editable, audit_row,
}
use family_tree_app.Relations.Reach.{Reach}
use family_tree_app.Relations.Cycles.{creates_cycle_iff}
use family_tree_app.Relations.Lifecycle.{soft_delete_editable-Updated}

module _ (io : Call → Bool) (actor : ℕ) (relation : ParentChildRelation) (db : Database)
    (answered : (c : Call) → io c ≡ true) (editable : is_editable db relation.tree_id actor ≡ true)
    (active : count_active db relation.tree_id relation.parent_person_id relation.child_person_id
      ≡ 2)
    (unique : is_duplicate db relation ≡ false) where
  same_key : is_duplicate db (inserted_row actor relation) ≡ is_duplicate db relation
  unfolding is_duplicate inserted_row
  same_key = refl

  create_decides : create_acyclic_editable io actor relation db ≡ (
      if creates_cycle db relation
      then err relation_cycle
      else ok (record db { relations = inserted_row actor relation ∷ db.relations }))
  unfolding create_acyclic_editable
  create_decides = ground (
    arith,
    answered begin,
    answered authorize,
    answered lock,
    answered read_persons,
    answered read_duplicate,
    answered read_cycle,
    answered write,
    answered commit,
    same_key,
  )

  -- Where the database answers and the other tests pass, a creation is refused as a cycle if the
  -- new parent is the new child or descends from it, and else commits exactly the new row.
  pub create_acyclic_editable_outcome :
      (Reach db relation.tree_id relation.child_person_id relation.parent_person_id
        → create_acyclic_editable io actor relation db ≡ err relation_cycle)
      × (¬ Reach db relation.tree_id relation.child_person_id relation.parent_person_id
          → create_acyclic_editable io actor relation db
            ≡ ok (record db { relations = inserted_row actor relation ∷ db.relations }))
  create_acyclic_editable_outcome = (
    λ r. create_decides ∙ ground (arith, (creates_cycle_iff db relation).1 r),
    λ n. elim (Bool-cases (creates_cycle db relation)) [
      | inl e ↦ absurd (n ((creates_cycle_iff db relation).0 e))
      | inr e ↦ create_decides ∙ ground (arith, e)
    ],
  )

next_version :
    (mutation : AuditMutation) (old y : ParentChildRelation)
    → y ≡ deleted_row mutation old
    → is_current mutation.tree_id mutation.entity_id mutation.version old ≡ true
    → y.version ≡ mutation.version + 1
unfolding is_current deleted_row
next_version mutation old y made current = ground arith

-- A deletion of the row `old`: it is the live row that the mutation names, in its version; it is left as deleted at the
-- time of the mutation, under the next version, and the audit log tells of both versions. No other row changes.
pub record IsDeletion (mutation : AuditMutation) (db db' : Database) (old : ParentChildRelation)
    : Type 0 where
  pub listed : In old db.relations
  pub of_tree : old.tree_id ≡ mutation.tree_id
  pub named : old.id ≡ mutation.entity_id
  pub current : old.version ≡ mutation.version
  pub live : old.deleted_at ≡ none
  pub deleted :
      In
        (record old {
          deleted_at = some mutation.occurred_at;
          updated_at = mutation.occurred_at;
          version = mutation.version + 1;
        })
        db'.relations
  pub kept : (r : ParentChildRelation) → In r db.relations → In r db'.relations ⊎ (r ≡ old)
  pub origin :
      (r : ParentChildRelation)
      → In r db'.relations
      → In r db.relations
        ⊎ (r ≡ record old {
          deleted_at = some mutation.occurred_at;
          updated_at = mutation.occurred_at;
          version = mutation.version + 1;
        })
  pub audited :
      db'.audit_log
      ≡ record {
        id = mutation.audit_id;
        tree_id = mutation.tree_id;
        actor_user_id = mutation.actor_user_id;
        action = relation_deleted;
        entity_id = mutation.entity_id;
        previous_version = mutation.version;
        new_version = mutation.version + 1;
        created_at = mutation.occurred_at;
      }
        ∷ db.audit_log
  pub same_persons : db'.persons ≡ db.persons
  pub same_trees : db'.trees ≡ db.trees
  pub same_members : db'.members ≡ db.members

deleted_row-eq :
    (mutation : AuditMutation) (old : ParentChildRelation)
    → old.version ≡ mutation.version
    → deleted_row mutation old ≡ record old {
      deleted_at = some mutation.occurred_at;
      updated_at = mutation.occurred_at;
      version = mutation.version + 1;
    }
unfolding deleted_row
deleted_row-eq mutation old h = rw h refl

-- A deletion of a relation that commits found the live row of the tree, the identifier and the version named. It leaves that row
-- deleted at the time of the mutation under the next version, keeps every other row and the persons, trees and members, and adds to
-- the audit log the actor, the deletion and both versions.
pub soft_delete_editable_audited :
    (io : Call → Bool) (mutation : AuditMutation) (db : Database) {db' : Database}
    → soft_delete_editable io mutation db ≡ ok db'
    → (old : ParentChildRelation) × IsDeletion mutation db db' old
unfolding is_current audit_row
soft_delete_editable_audited io mutation db {db'} h =
    let (y, u, e) = soft_delete_editable-Updated io mutation db h in
    let current : u.old.version ≡ mutation.version = ground (arith, u.passes) in
    let row = deleted_row-eq mutation u.old current in
    (
      u.old,
      record {
        listed = u.listed;
        of_tree = ground (arith, u.passes);
        named = ground (arith, u.passes);
        current = current;
        live = ground (arith, u.passes);
        deleted = subst (λ r. In r db'.relations) (u.made ∙ row) u.placed;
        kept = u.kept;
        origin = λ r i. elim (u.origin r i) [ inl k ↦ inl k | inr same ↦ inr (same ∙ row) ];
        audited =
            ap (λ (d : Database). d.audit_log) e
            ∙ ap (λ v. audit_row mutation relation_deleted v ∷ db.audit_log)
                (next_version mutation u.old y u.made u.passes);
        same_persons = ap (λ (d : Database). d.persons) e;
        same_trees = ap (λ (d : Database). d.trees) e;
        same_members = ap (λ (d : Database). d.members) e;
      },
    )
