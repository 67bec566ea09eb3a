-- ===== src/Relations/Samples.antt =====
-- A small tree, runs of the operations on it, and the theorems at these inputs.
use family_tree_app.Prelude.{
  ℕ, ◌≡◌, ◌↔◌, refl, inl, inr, Bool, true, false, none, some, [], ◌∷◌, codes, text_functions, any,
  count_if, flat_map, select, update_first, ok, err,
}
use family_tree_app.Relations.Domain.{
  ParentChildRelation, CreateValues, UpdateValues, relation_cycle, new, apply_update,
  validate_values, is_relation_type, is_confidence,
}
use family_tree_app.Relations.Versioning.{IsAcceptable, updated, apply_update_iff}
use family_tree_app.Relations.Store.{
  PersonRow, Database, AuditMutation, Call, creates_cycle, descendants, extend, leads_on,
  is_active_person, is_editable, count_active, is_duplicate, is_link, has_active, is_current,
  relation_deleted, person_deleted, person_restored,
}
use family_tree_app.Relations.Writes.{
  create_acyclic_editable, soft_delete_editable, mutate_deletion, inserted_row, deleted_row,
  audit_row, is_mutable_person, mutated_person,
}
use family_tree_app.Relations.Reach.{Reach, here, next}
use family_tree_app.Relations.Cycles.{creates_cycle_iff}
use family_tree_app.Relations.Acyclic.{IsAcyclic}
use family_tree_app.Relations.History.{Steps, done, then, create, delete_person, Steps-IsAcyclic}
use family_tree_app.Relations.Restore.{restore_closes_cycle}
use family_tree_app.Relations.Outcomes.{
  create_acyclic_editable_outcome, soft_delete_editable_audited, IsDeletion,
}

abbrev values : ℕ → ℕ → CreateValues
values parent child = record {
  parent_person_id = parent;
  child_person_id = child;
  relation_type = codes "biological";
  confidence = [];
  note = codes " from the parish register ";
}

abbrev relation : ℕ → ℕ → ℕ → ParentChildRelation
relation id parent child = record {
  id = id;
  tree_id = 1;
  parent_person_id = parent;
  child_person_id = child;
  relation_type = codes "biological";
  confidence = codes "unverified";
  note = codes "from the parish register";
  created_by = 9;
  created_at = 100;
  updated_at = 100;
  deleted_at = none;
  version = 1;
}

domain_program : Unit {0}
unfolding new apply_update validate_values is_relation_type is_confidence text_functions
domain_program = tt

new_run : new 21 1 9 (values 11 12) 100 ≡ ok (relation 21 11 12)
unfolding domain_program
new_run = refl

abbrev changes : UpdateValues
changes = record { relation_type = none; confidence = some (codes "confirmed"); note = none }

update_run :
    apply_update (relation 21 11 12) 1 changes 150 ≡ ok (updated (relation 21 11 12) changes 150)
unfolding domain_program
update_run = refl

apply_update_iff_example :
    (apply_update (relation 21 11 12) 1 changes 150 ≡ ok (updated (relation 21 11 12) changes 150))
    ↔ IsAcceptable (relation 21 11 12) 1 changes 150
      × (updated (relation 21 11 12) changes 150 ≡ updated (relation 21 11 12) changes 150)
apply_update_iff_example =
    apply_update_iff (relation 21 11 12) 1 changes 150 (updated (relation 21 11 12) changes 150)

abbrev person : ℕ → PersonRow
person id = record {
  id = id;
  tree_id = 1;
  updated_by = 9;
  updated_at = 50;
  deleted_at = none;
  version = 1;
}

abbrev all_answered : Call → Bool
all_answered _ = true

-- Three persons, and no relation yet.
abbrev empty_tree : Database
empty_tree = record {
  trees = record { id = 1; deleted_at = none } ∷ [];
  members =
      record { tree_id = 1; user_id = 9; role = codes "editor"; status = codes "active" } ∷ [];
  persons = person 11 ∷ person 12 ∷ person 13 ∷ [];
  relations = [];
  audit_log = [];
}

-- 11 is a parent of 12, and 12 of 13.
abbrev lineage : Database
lineage = record empty_tree { relations = relation 22 12 13 ∷ relation 21 11 12 ∷ [] }

program : Unit {0}
unfolding create_acyclic_editable soft_delete_editable mutate_deletion creates_cycle descendants
    extend leads_on is_link is_editable is_active_person has_active count_active is_duplicate any
    count_if flat_map select update_first is_current is_mutable_person mutated_person deleted_row
    inserted_row audit_row text_functions
program = tt

first_created :
    create_acyclic_editable all_answered 9 (relation 21 11 12) empty_tree
    ≡ ok (record empty_tree { relations = relation 21 11 12 ∷ [] })
unfolding program
first_created = refl

empty_tree-IsAcyclic : IsAcyclic empty_tree
empty_tree-IsAcyclic t a b (r, i, link, child, live) reach = absurd i

-- A relation from 13 back to 11 would close a cycle.
lineage-Reach : Reach lineage 1 11 13
unfolding program
lineage-Reach =
    next (next here (relation 21 11 12, inr (inl refl), refl, refl, refl))
      (relation 22 12 13, inl refl, refl, refl, refl)

creates_cycle_iff_example :
    (creates_cycle lineage (relation 23 13 11) ≡ true) ↔ Reach lineage 1 11 13
creates_cycle_iff_example = creates_cycle_iff lineage (relation 23 13 11)

create_acyclic_editable_outcome_example :
    (Reach lineage 1 11 13
      → create_acyclic_editable all_answered 9 (relation 23 13 11) lineage ≡ err relation_cycle)
    × (¬ Reach lineage 1 11 13
        → create_acyclic_editable all_answered 9 (relation 23 13 11) lineage
          ≡ ok (record lineage {
            relations = inserted_row 9 (relation 23 13 11) ∷ lineage.relations;
          }))
unfolding program
create_acyclic_editable_outcome_example =
    create_acyclic_editable_outcome all_answered 9 (relation 23 13 11) lineage (λ _. refl) refl refl
      refl

abbrev mutation : ℕ → ℕ → AuditMutation
mutation entity version = record {
  audit_id = 70;
  actor_user_id = 9;
  tree_id = 1;
  entity_id = entity;
  version = version;
  occurred_at = 200;
}

abbrev relation_deletion : Database
relation_deletion = record lineage {
  relations = deleted_row (mutation 22 1) (relation 22 12 13) ∷ relation 21 11 12 ∷ [];
  audit_log = audit_row (mutation 22 1) relation_deleted 2 ∷ [];
}

relation_deleted_run :
    soft_delete_editable all_answered (mutation 22 1) lineage ≡ ok relation_deletion
unfolding program
relation_deleted_run = refl

soft_delete_editable_audited_example :
    (old : ParentChildRelation) × IsDeletion (mutation 22 1) lineage relation_deletion old
soft_delete_editable_audited_example =
    soft_delete_editable_audited all_answered (mutation 22 1) lineage relation_deleted_run

-- 12 is deleted, a relation from 13 to 11 is created, and 12 is restored.
abbrev after_deletion : Database
after_deletion = record lineage {
  persons = person 11 ∷ mutated_person (mutation 12 1) true (person 12) ∷ person 13 ∷ [];
  audit_log = audit_row (mutation 12 1) person_deleted 2 ∷ [];
}

abbrev after_creation : Database
after_creation = record after_deletion {
  relations = relation 23 13 11 ∷ relation 22 12 13 ∷ relation 21 11 12 ∷ [];
}

abbrev after_restoration : Database
after_restoration = record after_creation {
  persons =
      person 11
      ∷ mutated_person (mutation 12 2) false (mutated_person (mutation 12 1) true (person 12))
      ∷ person 13
      ∷ [];
  audit_log =
      audit_row (mutation 12 2) person_restored 3 ∷ audit_row (mutation 12 1) person_deleted 2 ∷ [];
}

person_deleted_run : mutate_deletion all_answered (mutation 12 1) true lineage ≡ ok after_deletion
unfolding program
person_deleted_run = refl

created_while_deleted :
    create_acyclic_editable all_answered 9 (relation 23 13 11) after_deletion ≡ ok after_creation
unfolding program
created_while_deleted = refl

person_restored_run :
    mutate_deletion all_answered (mutation 12 2) false after_creation ≡ ok after_restoration
unfolding program
person_restored_run = refl

second_created :
    create_acyclic_editable all_answered 9
      (relation 22 12 13)
      (record empty_tree { relations = relation 21 11 12 ∷ [] })
    ≡ ok lineage
unfolding program
second_created = refl

history : Steps empty_tree after_creation
history =
    then
      (then
        (then (then done (create all_answered 9 (relation 21 11 12) first_created))
          (create all_answered 9 (relation 22 12 13) second_created))
        (delete_person all_answered (mutation 12 1) person_deleted_run))
      (create all_answered 9 (relation 23 13 11) created_while_deleted)

Steps-IsAcyclic_example : IsAcyclic after_creation
Steps-IsAcyclic_example = Steps-IsAcyclic empty_tree-IsAcyclic history

restore_closes_cycle_example : ¬ IsAcyclic after_restoration
unfolding program
restore_closes_cycle_example =
    restore_closes_cycle all_answered (mutation 12 2) after_creation person_restored_run
      (relation 21 11 12) (relation 22 12 13) (inr (inr (inl refl))) (inr (inl refl)) refl refl refl
      refl (next here (relation 23 13 11, inl refl, refl, refl, refl))
