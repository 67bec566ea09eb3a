-- ===== src/Unions/Versioning.antt =====
-- What an update of a union of union.go asks, and what it changes.
use family_tree_app.Prelude.{
  ℕ, ◌+◌, ◌≤◌, ◌<◌, ◌≡◌, ◌≢◌, ◌⊎◌, ◌↔◌, true, none, trim_space, length, or_keep, ok, arith,
}
use family_tree_app.Unions.Domain.{
  FamilyUnion, UpdateValues, max_end_reason_runes, max_note_runes, is_union_type,
  validate_union_values, apply_update,
}

-- What an update asks, and the union after it.
pub record IsUpdatable (u : FamilyUnion) (expected actor : ℕ) (values : UpdateValues) (now : ℕ)
    : Type 0 where
  pub current : expected ≡ u.version
  pub positive : 0 < expected
  pub live : u.deleted_at ≡ none
  pub acted : actor ≢ 0
  pub dated : now ≢ 0
  pub changes : (values.union_type ≢ none) ⊎ (values.end_reason ≢ none) ⊎ (values.note ≢ none)
  pub known_type : is_union_type (or_keep values.union_type u.union_type) ≡ true
  pub reason_bounded :
      length (trim_space (or_keep values.end_reason u.end_reason)) ≤ max_end_reason_runes
  pub note_bounded : length (trim_space (or_keep values.note u.note)) ≤ max_note_runes

abbrev pub updated : FamilyUnion → ℕ → UpdateValues → ℕ → FamilyUnion
updated u actor values now = record u {
  union_type = or_keep values.union_type u.union_type;
  end_reason = trim_space (or_keep values.end_reason u.end_reason);
  note = trim_space (or_keep values.note u.note);
  updated_by = actor;
  updated_at = now;
  version = u.version + 1;
}

update_union_total :
    (u : FamilyUnion) (expected actor : ℕ) (values : UpdateValues) (now : ℕ)
    → IsUpdatable u expected actor values now
    → apply_update u expected actor values now ≡ ok (updated u actor values now)
unfolding apply_update validate_union_values
update_union_total u expected actor values now a = ground arith

update_union-IsUpdatable :
    (u : FamilyUnion) (expected actor : ℕ) (values : UpdateValues) (now : ℕ) {u' : FamilyUnion}
    → apply_update u expected actor values now ≡ ok u'
    → IsUpdatable u expected actor values now × (u' ≡ updated u actor values now)
unfolding apply_update validate_union_values
update_union-IsUpdatable u expected actor values now h = ground arith

-- `ApplyUpdate` of a union accepts an update exactly when it names the present version, the union is live,
-- the actor and the date are set, some field is given and the values that result are valid; the union
-- then gets the fields given, trimmed, with the next version, all else unchanged.
pub update_union_iff :
    (u : FamilyUnion) (expected actor : ℕ) (values : UpdateValues) (now : ℕ) (u' : FamilyUnion)
    → (apply_update u expected actor values now ≡ ok u')
      ↔ IsUpdatable u expected actor values now × (u' ≡ updated u actor values now)
update_union_iff u expected actor values now u' = (
  update_union-IsUpdatable u expected actor values now,
  λ (a, e). rw e (update_union_total u expected actor values now a),
)
