-- ===== src/Relations/Versioning.antt =====
-- Optimistic concurrency of relation.go: what an update changes, when it is accepted, and that two
-- updates from one version cannot both be accepted.
use family_tree_app.Prelude.{
  ℕ, ◌+◌, ◌<◌, ◌≡◌, ◌≢◌, ◌⊎◌, ◌↔◌, ◌≤◌, true, none, length, trim_space, or_keep, ok, err, arith,
}
use family_tree_app.Relations.Domain.{
  ParentChildRelation, UpdateValues, relation_version_conflict, is_relation_type, is_confidence,
  max_note_runes, validate_values, apply_update,
}

-- The update names the present version, the relation is live, and the values that result are valid.
pub record IsAcceptable (r : ParentChildRelation) (expected : ℕ) (values : UpdateValues) (now : ℕ)
    : Type 0 where
  pub current : expected ≡ r.version
  pub positive : 0 < expected
  pub live : r.deleted_at ≡ none
  pub dated : now ≢ 0
  pub changes : (values.relation_type ≢ none) ⊎ (values.confidence ≢ none) ⊎ (values.note ≢ none)
  pub known_type : is_relation_type (or_keep values.relation_type r.relation_type) ≡ true
  pub known_confidence : is_confidence (or_keep values.confidence r.confidence) ≡ true
  pub note_bounded : length (trim_space (or_keep values.note r.note)) ≤ max_note_runes

-- The relation after an accepted update.
abbrev pub updated : ParentChildRelation → UpdateValues → ℕ → ParentChildRelation
updated r values now = record r {
  relation_type = or_keep values.relation_type r.relation_type;
  confidence = or_keep values.confidence r.confidence;
  note = trim_space (or_keep values.note r.note);
  updated_at = now;
  version = r.version + 1;
}

-- An acceptable update yields the fields given, the others as they were, and the next version.
apply_update_total :
    (r : ParentChildRelation) (expected : ℕ) (values : UpdateValues) (now : ℕ)
    → IsAcceptable r expected values now
    → apply_update r expected values now ≡ ok (updated r values now)
unfolding apply_update validate_values
apply_update_total r expected values now a = ground arith

apply_update-IsAcceptable :
    (r : ParentChildRelation) (expected : ℕ) (values : UpdateValues) (now : ℕ)
    {r' : ParentChildRelation}
    → apply_update r expected values now ≡ ok r'
    → IsAcceptable r expected values now × (r' ≡ updated r values now)
unfolding apply_update validate_values
apply_update-IsAcceptable r expected values now h = ground arith

-- `ApplyUpdate` accepts an update exactly when it names the present version, the relation is live, some
-- field is given and the values that result are valid; the result is then the relation with the fields
-- given, its note trimmed, the time of the update and the next version, all else unchanged.
pub apply_update_iff :
    (r : ParentChildRelation) (expected : ℕ) (values : UpdateValues) (now : ℕ)
    (r' : ParentChildRelation)
    → (apply_update r expected values now ≡ ok r')
      ↔ IsAcceptable r expected values now × (r' ≡ updated r values now)
apply_update_iff r expected values now r' = (
  apply_update-IsAcceptable r expected values now,
  λ (a, e). rw e (apply_update_total r expected values now a),
)

-- Of two updates that name the same version, the one that comes second is refused as a conflict.
pub apply_update_once :
    (r : ParentChildRelation) (expected : ℕ) (first second : UpdateValues) (now later : ℕ)
    {r' : ParentChildRelation}
    → apply_update r expected first now ≡ ok r'
    → apply_update r' expected second later ≡ err relation_version_conflict
unfolding apply_update validate_values
apply_update_once r expected first second now later h = ground arith
