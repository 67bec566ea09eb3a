-- ===== src/Unions/Domain.antt =====
-- internal/features/unions/domain/union.go: unions, their members, their validation and updates.
use family_tree_app.Prelude.{
  ℕ, ◌+◌, Bool, not, ◌&&◌, ◌||◌, Option, none, List, [], ◌∷◌, Text, codes, text_eq, is_empty,
  trim_space, length, ltb, ◌==◌, if◌then◌else◌, is_some, is_none, or_keep, any, Result, ok, err,
  ◌>>=◌, ◌>>◌, refuse_if,
}

pub data Error : Type 0 where
  invalid_union union_not_found union_access_denied union_version_conflict : Error
  duplicate_union_member union_member_not_found union_member_limit : Error

abbrev pub min_members : ℕ
min_members = 2

abbrev pub max_members : ℕ
max_members = 10

abbrev pub max_end_reason_runes : ℕ
max_end_reason_runes = 500

abbrev pub max_note_runes : ℕ
max_note_runes = 5000

abbrev pub max_role_runes : ℕ
max_role_runes = 50

pub record FamilyUnion : Type 0 where
  pub id : ℕ
  pub tree_id : ℕ
  pub union_type : Text
  pub end_reason : Text
  pub note : Text
  pub created_by : ℕ
  pub updated_by : ℕ
  pub created_at : ℕ
  pub updated_at : ℕ
  pub deleted_at : Option ℕ
  pub version : ℕ

pub record UnionMember : Type 0 where
  pub union_id : ℕ
  pub person_id : ℕ
  pub tree_id : ℕ
  pub role : Text
  pub created_at : ℕ

pub record Aggregate : Type 0 where
  pub family_union : FamilyUnion
  pub members : List UnionMember

pub record MemberValues : Type 0 where
  pub person_id : ℕ
  pub role : Text

pub record CreateValues : Type 0 where
  pub union_type : Text
  pub end_reason : Text
  pub note : Text
  pub members : List MemberValues

pub record UpdateValues : Type 0 where
  pub union_type : Option Text
  pub end_reason : Option Text
  pub note : Option Text

unfoldable pub is_union_type : Text → Bool
is_union_type value =
    text_eq value (codes "marriage")
    || text_eq value (codes "civil_union")
    || text_eq value (codes "partnership")
    || text_eq value (codes "engagement")
    || text_eq value (codes "unknown")

-- The reason of the end and the note that are stored.
unfoldable pub validate_union_values : Text → Text → Text → Result Error (Text × Text)
validate_union_values union_type given_reason given_note =
    let end_reason = trim_space given_reason in
    let note = trim_space given_note in
    if not (is_union_type union_type)
      || ltb max_end_reason_runes (length end_reason)
      || ltb max_note_runes (length note)
    then err invalid_union
    else ok (end_reason, note)

unfoldable pub new_member : ℕ → ℕ → MemberValues → ℕ → Result Error UnionMember
new_member union_id tree_id values now = do
  let role = trim_space values.role
  refuse_if
      ((union_id == 0)
        || (tree_id == 0)
        || (values.person_id == 0)
        || (now == 0)
        || ltb max_role_runes (length role))
      invalid_union
  ok (record {
    union_id = union_id;
    person_id = values.person_id;
    tree_id = tree_id;
    role = role;
    created_at = now;
  })

-- The loop over the members, with the persons seen before.
unfoldable pub new_members :
    ℕ → ℕ → ℕ → List ℕ → List MemberValues → Result Error (List UnionMember)
unfolding new_member any
new_members id tree_id now seen [] = ok []
new_members id tree_id now seen (value ∷ values) = do
  let rest = new_members id tree_id now (value.person_id ∷ seen) values
  refuse_if (value.person_id == 0) invalid_union
  refuse_if (any (λ p. p == value.person_id) seen) duplicate_union_member
  member ← new_member id tree_id value now
  members ← rest
  ok (member ∷ members)

unfoldable pub new : ℕ → ℕ → ℕ → CreateValues → ℕ → Result Error Aggregate
unfolding validate_union_values new_members
new id tree_id actor_user_id values now = do
  refuse_if ((id == 0) || (tree_id == 0) || (actor_user_id == 0) || (now == 0)) invalid_union
  let union_type = if is_empty values.union_type then codes "unknown" else values.union_type
  texts ← validate_union_values union_type values.end_reason values.note
  refuse_if (ltb (length values.members) min_members || ltb max_members (length values.members))
      union_member_limit
  members ← new_members id tree_id now [] values.members
  ok (record {
    family_union = record {
      id = id;
      tree_id = tree_id;
      union_type = union_type;
      end_reason = texts.0;
      note = texts.1;
      created_by = actor_user_id;
      updated_by = actor_user_id;
      created_at = now;
      updated_at = now;
      deleted_at = none;
      version = 1;
    };
    members = members;
  })

unfoldable pub apply_update : FamilyUnion → ℕ → ℕ → UpdateValues → ℕ → Result Error FamilyUnion
unfolding validate_union_values
apply_update u expected_version actor_user_id values now = do
  refuse_if ((expected_version == 0) || not (u.version == expected_version)) union_version_conflict
  refuse_if (is_some u.deleted_at) union_not_found
  refuse_if ((actor_user_id == 0) || (now == 0)) invalid_union
  refuse_if (is_none values.union_type && is_none values.end_reason && is_none values.note)
      invalid_union
  let union_type = or_keep values.union_type u.union_type
  texts ←
      validate_union_values union_type (or_keep values.end_reason u.end_reason)
        (or_keep values.note u.note)
  ok (record u {
    union_type = union_type;
    end_reason = texts.0;
    note = texts.1;
    updated_by = actor_user_id;
    updated_at = now;
    version = u.version + 1;
  })
