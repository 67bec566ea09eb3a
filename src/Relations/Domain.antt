-- ===== src/Relations/Domain.antt =====
-- internal/features/relationships/domain/relation.go.
-- An identifier is the number that its 128 bits spell, with `uuid.Nil` the number 0; an instant is
-- the number of nanoseconds since Go's zero time, so `IsZero` is the test for 0. An error that
-- wraps a sentinel is that sentinel, which is all that `errors.Is` sees of it.
use family_tree_app.Prelude.{
  ℕ, ◌+◌, Bool, not, ◌&&◌, ◌||◌, Option, none, Text, codes, text_eq, is_empty, trim_space, length,
  ltb, ◌==◌, if◌then◌else◌, is_some, is_none, or_keep, Result, ok, err, ◌>>=◌, ◌>>◌, refuse_if,
}

pub data Error : Type 0 where
  invalid_relation relation_not_found relation_version_conflict : Error
  duplicate_relation relation_cycle relation_access_denied graph_limit_exceeded : Error
  person_version_conflict person_access_denied database_failure : Error

abbrev pub relation_unknown : Text
relation_unknown = codes "unknown"

abbrev pub confidence_unverified : Text
confidence_unverified = codes "unverified"

abbrev pub max_note_runes : ℕ
max_note_runes = 5000

pub record ParentChildRelation : Type 0 where
  pub id : ℕ
  pub tree_id : ℕ
  pub parent_person_id : ℕ
  pub child_person_id : ℕ
  pub relation_type : Text
  pub confidence : Text
  pub note : Text
  pub created_by : ℕ
  pub created_at : ℕ
  pub updated_at : ℕ
  pub deleted_at : Option ℕ
  pub version : ℕ

pub record CreateValues : Type 0 where
  pub parent_person_id : ℕ
  pub child_person_id : ℕ
  pub relation_type : Text
  pub confidence : Text
  pub note : Text

pub record UpdateValues : Type 0 where
  pub relation_type : Option Text
  pub confidence : Option Text
  pub note : Option Text

unfoldable pub is_relation_type : Text → Bool
is_relation_type value =
    text_eq value (codes "biological")
    || text_eq value (codes "adoptive")
    || text_eq value (codes "foster")
    || text_eq value (codes "guardian")
    || text_eq value (codes "step")
    || text_eq value relation_unknown

unfoldable pub is_confidence : Text → Bool
is_confidence value =
    text_eq value confidence_unverified
    || text_eq value (codes "probable")
    || text_eq value (codes "confirmed")
    || text_eq value (codes "disputed")

-- The note that is stored.
unfoldable pub validate_values : Text → Text → Text → Result Error Text
validate_values relation_type confidence note =
    let note' = trim_space note in
    if not (is_relation_type relation_type)
      || not (is_confidence confidence)
      || ltb max_note_runes (length note')
    then err invalid_relation
    else ok note'

-- The text itself, or the default where it is empty.
abbrev pub or_default : Text → Text → Text
or_default value default = if is_empty value then default else value

unfoldable pub new : ℕ → ℕ → ℕ → CreateValues → ℕ → Result Error ParentChildRelation
new id tree_id actor_user_id values now = do
  refuse_if
      ((id == 0)
        || (tree_id == 0)
        || (actor_user_id == 0)
        || (now == 0)
        || (values.parent_person_id == 0)
        || (values.child_person_id == 0))
      invalid_relation
  refuse_if (values.parent_person_id == values.child_person_id) invalid_relation
  let relation_type = or_default values.relation_type relation_unknown
  let confidence = or_default values.confidence confidence_unverified
  note ← validate_values relation_type confidence values.note
  ok (record {
    id = id;
    tree_id = tree_id;
    parent_person_id = values.parent_person_id;
    child_person_id = values.child_person_id;
    relation_type = relation_type;
    confidence = confidence;
    note = note;
    created_by = actor_user_id;
    created_at = now;
    updated_at = now;
    deleted_at = none;
    version = 1;
  })

unfoldable pub apply_update :
    ParentChildRelation → ℕ → UpdateValues → ℕ → Result Error ParentChildRelation
apply_update relation expected_version values now = do
  refuse_if ((expected_version == 0) || not (relation.version == expected_version))
      relation_version_conflict
  refuse_if (is_some relation.deleted_at) relation_not_found
  refuse_if (now == 0) invalid_relation
  refuse_if (is_none values.relation_type && is_none values.confidence && is_none values.note)
      invalid_relation
  let relation_type = or_keep values.relation_type relation.relation_type
  let confidence = or_keep values.confidence relation.confidence
  note ← validate_values relation_type confidence (or_keep values.note relation.note)
  ok (record relation {
    relation_type = relation_type;
    confidence = confidence;
    note = note;
    updated_at = now;
    version = relation.version + 1;
  })
