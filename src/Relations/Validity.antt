-- ===== src/Relations/Validity.antt =====
-- What holds of every relation that the domain constructors of relation.go let through.
use family_tree_app.Prelude.{
  ℕ, ◌≤◌, ◌<◌, ◌≡◌, ◌≢◌, ◌⊎◌, true, Text, trim_space, trim_space_idem, length, or_keep, ok, err,
  arith,
}
use family_tree_app.Relations.Domain.{
  invalid_relation, ParentChildRelation, CreateValues, UpdateValues, max_note_runes, or_default,
  relation_unknown, confidence_unverified, is_relation_type, is_confidence, validate_values, new,
  apply_update,
}

-- A relation that names distinct persons, has known type and confidence, and a trimmed bounded note.
pub record IsWellFormed (r : ParentChildRelation) : Type 0 where
  pub has_id : r.id ≢ 0
  pub has_tree : r.tree_id ≢ 0
  pub has_author : r.created_by ≢ 0
  pub has_parent : r.parent_person_id ≢ 0
  pub has_child : r.child_person_id ≢ 0
  pub not_self : r.parent_person_id ≢ r.child_person_id
  pub known_type : is_relation_type r.relation_type ≡ true
  pub known_confidence : is_confidence r.confidence ≡ true
  pub note_trimmed : trim_space r.note ≡ r.note
  pub note_bounded : length r.note ≤ max_note_runes
  pub has_version : 0 < r.version
  pub ordered : r.created_at ≢ 0

-- What the validation lets through.
pub record IsValidated (relation_type confidence note : Text) : Type 0 where
  pub known_type : is_relation_type relation_type ≡ true
  pub known_confidence : is_confidence confidence ≡ true
  pub note_trimmed : trim_space note ≡ note
  pub note_bounded : length note ≤ max_note_runes

pub validate_values_cases :
    (t c n : Text)
    → IsValidated t c (trim_space n) × (validate_values t c n ≡ ok (trim_space n))
      ⊎ (validate_values t c n ≡ err invalid_relation)
unfolding validate_values
validate_values_cases t c n = ground (arith, trim_space_idem n)

-- Every relation that `New` returns is well formed, and is not deleted.
pub new-IsWellFormed :
    (id tree_id actor : ℕ) (values : CreateValues) (now : ℕ) {r : ParentChildRelation}
    → new id tree_id actor values now ≡ ok r
    → IsWellFormed r
unfolding new
new-IsWellFormed id tree_id actor values now h = ground (
  arith,
  validate_values_cases (or_default values.relation_type relation_unknown)
      (or_default values.confidence confidence_unverified) values.note,
)

-- `ApplyUpdate` keeps a relation well formed.
pub apply_update-IsWellFormed :
    (r : ParentChildRelation) (expected : ℕ) (values : UpdateValues) (now : ℕ)
    {r' : ParentChildRelation}
    → IsWellFormed r
    → apply_update r expected values now ≡ ok r'
    → IsWellFormed r'
unfolding apply_update
apply_update-IsWellFormed r expected values now w h = ground (
  arith,
  validate_values_cases (or_keep values.relation_type r.relation_type)
      (or_keep values.confidence r.confidence) (or_keep values.note r.note),
)
