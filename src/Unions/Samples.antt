-- ===== src/Unions/Samples.antt =====
-- A union of two persons, runs of the operations on it, and the theorems at these inputs.
use family_tree_app.Prelude.{
  first_row, ℕ, ◌≡◌, ◌↔◌, refl, Bool, true, none, some, List, [], ◌∷◌, map, codes, text_functions,
  any, count_if, select, update_first, ok, err, arith,
}
use family_tree_app.Unions.Domain.{
  FamilyUnion, UnionMember, Aggregate, MemberValues, CreateValues, UpdateValues,
  duplicate_union_member, union_member_limit, is_union_type, validate_union_values, new_member,
  new_members, new, apply_update,
}
use family_tree_app.Unions.Members.{made_member, IsCreatable, new_union_iff}
use family_tree_app.Unions.Versioning.{IsUpdatable, updated, update_union_iff}
use family_tree_app.Relations.Store.{PersonRow, is_editable}
use family_tree_app.Unions.Store.{
  UnionDatabase, MemberMutation, Call, refused, is_union, is_live_union, is_seat, is_seat_of, seats,
  insert_ordered, ordered, count_active_persons, call, require_editable_tree,
  require_active_persons, load_union_for_update, load_members,
}
use family_tree_app.Unions.Writes.{
  has_key, created_union, bumped_union, insert_member, insert_members, create_with_members_editable,
  update_editable, soft_delete_editable, bump_union_version, add_member_editable,
  remove_member_editable,
}
use family_tree_app.Unions.Counts.{has_union}
use family_tree_app.Unions.Limits.{IsWithinLimits}
use family_tree_app.Unions.History.{
  done, after, create_union, add_member, remove_member, UnionSteps-IsWithinLimits,
}
use family_tree_app.Unions.Seats.{add_then_remove_member}

program : Unit {0}
unfolding is_union_type validate_union_values new_member new_members new apply_update any
    text_functions
program = tt

abbrev member : ℕ → MemberValues
member p = record { person_id = p; role = codes " spouse " }

abbrev couple : List MemberValues → CreateValues
couple members = record {
  union_type = codes "marriage";
  end_reason = [];
  note = [];
  members = members;
}

abbrev marriage : FamilyUnion
marriage = record {
  id = 51;
  tree_id = 1;
  union_type = codes "marriage";
  end_reason = [];
  note = [];
  created_by = 9;
  updated_by = 9;
  created_at = 100;
  updated_at = 100;
  deleted_at = none;
  version = 1;
}

new_union_run :
    new 51 1 9 (couple (member 11 ∷ member 12 ∷ [])) 100
    ≡ ok (record {
      family_union = marriage;
      members = made_member 51 1 100 (member 11) ∷ made_member 51 1 100 (member 12) ∷ [];
    })
unfolding program
new_union_run = refl

duplicate_run : new 51 1 9 (couple (member 11 ∷ member 11 ∷ [])) 100 ≡ err duplicate_union_member
unfolding program
duplicate_run = refl

new_union_iff_example :
    ((a : Aggregate) × (new 51 1 9 (couple (member 11 ∷ member 12 ∷ [])) 100 ≡ ok a)
      × (a.members ≡ map (made_member 51 1 100) (member 11 ∷ member 12 ∷ [])))
    ↔ IsCreatable 51 1 9 (couple (member 11 ∷ member 12 ∷ [])) 100
new_union_iff_example = new_union_iff 51 1 9 (couple (member 11 ∷ member 12 ∷ [])) 100

abbrev divorce : UpdateValues
divorce = record { union_type = none; end_reason = some (codes "divorce"); note = none }

update_union_run : apply_update marriage 1 8 divorce 150 ≡ ok (updated marriage 8 divorce 150)
unfolding program
update_union_run = refl

update_union_iff_example :
    (apply_update marriage 1 8 divorce 150 ≡ ok (updated marriage 8 divorce 150))
    ↔ IsUpdatable marriage 1 8 divorce 150
      × (updated marriage 8 divorce 150 ≡ updated marriage 8 divorce 150)
update_union_iff_example =
    update_union_iff marriage 1 8 divorce 150 (updated marriage 8 divorce 150)

store_program : Unit {0}
unfolding create_with_members_editable update_editable soft_delete_editable add_member_editable
    remove_member_editable bump_union_version bumped_union insert_member insert_members has_key
    created_union call require_editable_tree require_active_persons load_union_for_update
    load_members ordered insert_ordered seats is_seat is_seat_of is_union is_live_union first_row
    count_active_persons is_editable any count_if select update_first text_functions
store_program = tt

abbrev all_answered : Call → Bool
all_answered _ = true

abbrev person : ℕ → PersonRow
person id = record {
  id = id;
  tree_id = 1;
  updated_by = 9;
  updated_at = 50;
  deleted_at = none;
  version = 1;
}

-- A tree of three persons, with no union yet.
abbrev no_unions : UnionDatabase
no_unions = record {
  base = record {
    trees = record { id = 1; deleted_at = none } ∷ [];
    members =
        record { tree_id = 1; user_id = 9; role = codes "editor"; status = codes "active" } ∷ [];
    persons = person 11 ∷ person 12 ∷ person 13 ∷ [];
    relations = [];
    audit_log = [];
  };
  unions = [];
  union_members = [];
  audit_log = [];
}

abbrev pair : Aggregate
pair = record {
  family_union = marriage;
  members = made_member 51 1 100 (member 11) ∷ made_member 51 1 100 (member 12) ∷ [];
}

abbrev one_union : UnionDatabase
one_union = record no_unions {
  unions = marriage ∷ [];
  union_members = made_member 51 1 100 (member 12) ∷ made_member 51 1 100 (member 11) ∷ [];
}

abbrev third : UnionMember
third = made_member 51 1 200 (member 13)

abbrev bumped : ℕ → ℕ → FamilyUnion
bumped now version = record marriage { updated_at = now; version = version }

abbrev three_members : UnionDatabase
three_members = record one_union {
  unions = bumped 200 2 ∷ [];
  union_members = third ∷ one_union.union_members;
}

abbrev trio : Aggregate
trio = record {
  family_union = bumped 200 2;
  members = made_member 51 1 100 (member 11) ∷ made_member 51 1 100 (member 12) ∷ third ∷ [];
}

create_run : create_with_members_editable all_answered 9 pair no_unions ≡ ok one_union
unfolding store_program
create_run = refl

add_run : add_member_editable all_answered 9 third one_union ≡ ok (trio, three_members)
unfolding store_program
add_run = refl

abbrev removal : MemberMutation
removal = record {
  actor_user_id = 9;
  tree_id = 1;
  union_id = 51;
  person_id = 13;
  occurred_at = 300;
}

abbrev two_again : UnionDatabase
two_again = record one_union { unions = bumped 300 3 ∷ [] }

remove_run :
    remove_member_editable all_answered removal three_members
    ≡ ok (record pair { family_union = bumped 300 3 }, two_again)
unfolding store_program
remove_run = refl

remove_refused_run :
    remove_member_editable all_answered (record removal { person_id = 12 }) two_again
    ≡ err (refused union_member_limit)
unfolding store_program
remove_refused_run = refl

add_then_remove_member_example : two_again.union_members ≡ one_union.union_members
add_then_remove_member_example =
    add_then_remove_member all_answered 9 third one_union 9 300 add_run remove_run

no_unions-IsWithinLimits : IsWithinLimits no_unions
unfolding seats has_union any count_if
no_unions-IsWithinLimits = record {
  enough = λ t i h. cc;
  not_too_many = λ t i. omega arith;
  owned = λ t i h. refl;
}

UnionSteps-IsWithinLimits_example : IsWithinLimits two_again
UnionSteps-IsWithinLimits_example = UnionSteps-IsWithinLimits no_unions-IsWithinLimits (
    after
      (after
        (after done (
          create_union all_answered 51 1 9 (couple (member 11 ∷ member 12 ∷ [])) 100 pair
            new_union_run create_run))
        (add_member all_answered 9 third trio add_run))
      (remove_member all_answered removal (record pair { family_union = bumped 300 3 }) remove_run))
