-- ===== src/Trees/Samples.antt =====
-- A tree and its owner, runs of the operations, and the theorems at these inputs.
use family_tree_app.Prelude.{
  Option, ℕ, In, inl, arith, any, first_row, update_first, ◌+◌, [], ◌∷◌, ◌≡◌, ◌↔◌, refl, Bool, true,
  ◌||◌, none, some, Text, codes, text_eq, text_functions, ok,
}
use family_tree_app.Languages.{
  is_language_tag, is_primary, is_subtag, pieces, all, is_letter, is_alphanumeric,
}
use family_tree_app.Trees.Domain.{
  FamilyTree, TreeAccess, CreateValues, UpdateValues, can_view, can_edit_settings, can_edit_data,
  normalize_values, new_family_tree, apply_update,
}
use family_tree_app.Trees.Settings.{IsUpdatable, updated, update_tree_iff}
use family_tree_app.Trees.Store.{
  TreeDatabase, TreeAuditRow, Action, tree_deleted, tree_restored, AuditMutation, Call, call,
  is_owner_row, is_owned, inserted_tree, is_previous_tree, updated_tree, is_mutable_tree,
  mutated_tree, is_active_member, is_readable_tree, get_accessible, create_with_owner, update_owned,
  mutate_deletion,
}
use family_tree_app.Trees.Service.{with_defaults, from_domain, create, get, update, delete, restore}
use family_tree_app.Trees.Ownership.{AllKept}
use family_tree_app.Trees.History.{
  create_tree, delete_tree, restore_tree, done, after, started, and_then, TreeSteps-kept,
  StepsOfOthers-keep,
}

program : Unit {0}
unfolding is_language_tag is_primary is_subtag pieces all is_letter is_alphanumeric can_view
    can_edit_settings can_edit_data normalize_values new_family_tree apply_update text_functions
program = tt

-- A system that knows two zones.
abbrev has_location : Text → Bool
has_location zone = text_eq zone (codes "UTC") || text_eq zone (codes "Europe/Moscow")

abbrev values : CreateValues
values = record {
  name = codes " Orlov ";
  description = [];
  locale = codes "ru-RU";
  timezone = codes "Europe/Moscow";
}

abbrev access : TreeAccess
access = record {
  tree = record {
    id = 1;
    name = codes "Orlov";
    description = [];
    owner_user_id = 9;
    root_person_id = none;
    cover_media_id = none;
    privacy = codes "private";
    locale = codes "ru-RU";
    timezone = codes "Europe/Moscow";
    created_at = 100;
    updated_at = 100;
    deleted_at = none;
    version = 1;
  };
  membership = record {
    tree_id = 1;
    user_id = 9;
    role = codes "owner";
    status = codes "active";
    invited_by = none;
    created_at = 100;
    accepted_at = some 100;
  };
}

new_tree_run : new_family_tree has_location 1 9 values 100 ≡ ok access
unfolding program
new_tree_run = refl

abbrev to_utc : UpdateValues
to_utc = record { name = none; description = none; locale = none; timezone = some (codes "UTC") }

update_tree_run :
    apply_update has_location access.tree 1 to_utc 150
    ≡ ok (updated has_location access.tree to_utc 150)
unfolding program
update_tree_run = refl

update_tree_iff_example :
    (apply_update has_location access.tree 1 to_utc 150
      ≡ ok (updated has_location access.tree to_utc 150))
    ↔ IsUpdatable has_location access.tree 1 to_utc
      × (updated has_location access.tree to_utc 150 ≡ updated has_location access.tree to_utc 150)
update_tree_iff_example =
    update_tree_iff has_location access.tree 1 to_utc 150
      (updated has_location access.tree to_utc 150)

service_program : Unit {0}
unfolding create get update delete restore with_defaults from_domain get_accessible
    create_with_owner update_owned mutate_deletion call inserted_tree is_previous_tree updated_tree
    is_mutable_tree mutated_tree is_owned is_owner_row is_active_member is_readable_tree first_row
    update_first any
service_program = tt

abbrev all_answered : Call → Bool
all_answered _ = true

abbrev no_trees : TreeDatabase
no_trees = record { trees = []; members = []; audit_log = [] }

abbrev one_tree : TreeDatabase
one_tree = record { trees = access.tree ∷ []; members = access.membership ∷ []; audit_log = [] }

create_run : create has_location all_answered 1 9 values 100 no_trees ≡ ok (access, one_tree)
unfolding service_program program
create_run = refl

abbrev mutation : ℕ → AuditMutation
mutation version = record {
  audit_id = 70;
  actor_user_id = 9;
  tree_id = 1;
  version = version;
  occurred_at = 200;
}

abbrev entry : Action → ℕ → Option ℕ → TreeAuditRow
entry action previous deleted_at = record {
  id = 70;
  tree_id = 1;
  actor_user_id = 9;
  action = action;
  previous_version = previous;
  new_version = previous + 1;
  deleted_at = deleted_at;
  created_at = 200;
}

abbrev deleted_state : TreeDatabase
deleted_state = record one_tree {
  trees = record access.tree { deleted_at = some 200; updated_at = 200; version = 2 } ∷ [];
  audit_log = entry tree_deleted 1 (some 200) ∷ [];
}

delete_run : delete has_location all_answered (mutation 1) one_tree ≡ ok deleted_state
unfolding service_program program
delete_run = refl

abbrev restored_tree : FamilyTree
restored_tree = record access.tree { updated_at = 200; version = 3 }

abbrev restored_state : TreeDatabase
restored_state = record one_tree {
  trees = restored_tree ∷ [];
  audit_log = entry tree_restored 2 none ∷ deleted_state.audit_log;
}

restore_run :
    restore has_location all_answered (mutation 2) deleted_state
    ≡ ok (record access { tree = restored_tree }, restored_state)
unfolding service_program program
restore_run = refl

TreeSteps-kept_example : AllKept has_location restored_state
TreeSteps-kept_example =
    TreeSteps-kept has_location (λ t i. absurd i)
      (and_then 9
        (and_then 9 (and_then 9 started (create_tree all_answered 1 values 100 access create_run))
          (delete_tree all_answered (mutation 1) refl delete_run))
        (restore_tree all_answered (mutation 2) (record access { tree = restored_tree }) refl
          restore_run))

-- Another user makes a tree of the same name.
abbrev other_access : TreeAccess
other_access = record {
  tree = record access.tree { id = 2; owner_user_id = 8 };
  membership = record access.membership { tree_id = 2; user_id = 8 };
}

abbrev two_trees : TreeDatabase
two_trees = record one_tree {
  trees = other_access.tree ∷ one_tree.trees;
  members = other_access.membership ∷ one_tree.members;
}

other_run : create has_location all_answered 2 8 values 100 one_tree ≡ ok (other_access, two_trees)
unfolding service_program program
other_run = refl

StepsOfOthers-keep_example : In access.tree two_trees.trees
StepsOfOthers-keep_example =
    StepsOfOthers-keep has_location access.tree
      (after 8 (omega arith) done (create_tree all_answered 2 values 100 other_access other_run))
      (inl refl)
