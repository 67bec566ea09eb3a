-- ===== src/Trees/Settings.antt =====
-- The settings of a tree of tree.go, and the rights that its roles give.
use family_tree_app.Prelude.{
  ℕ, ◌+◌, ◌≤◌, ◌<◌, ◌≡◌, ◌≢◌, ◌⊎◌, inl, inr, ◌↔◌, Bool, true, none, Text, codes, text_eq_refl,
  trim_space, length, byte_len, or_keep, ok, err, arith, Bool-cases,
}
use family_tree_app.Languages.{is_language_tag}
use family_tree_app.Trees.Domain.{
  FamilyTree, TreeAccess, CreateValues, UpdateValues, invalid_tree, max_name_runes,
  max_description_runes, max_locale_bytes, max_timezone_bytes, can_view, can_edit_settings,
  can_edit_data, trimmed, normalize_values, new_family_tree, apply_update,
}

-- Trimmed texts within their limits, a locale of the pattern and a time zone of the system.
pub record IsConfigured (has_location : Text → Bool) (values : CreateValues) : Type 0 where
  pub named : 1 ≤ length values.name
  pub name_bounded : length values.name ≤ max_name_runes
  pub description_bounded : length values.description ≤ max_description_runes
  pub locale_bounded : byte_len values.locale ≤ max_locale_bytes
  pub locale_known : is_language_tag values.locale ≡ true
  pub zoned : 1 ≤ byte_len values.timezone
  pub zone_bounded : byte_len values.timezone ≤ max_timezone_bytes
  pub zone_known : has_location values.timezone ≡ true

abbrev pub settings_of : FamilyTree → CreateValues
settings_of tree = record {
  name = tree.name;
  description = tree.description;
  locale = tree.locale;
  timezone = tree.timezone;
}

abbrev pub merged : FamilyTree → UpdateValues → CreateValues
merged tree given = record {
  name = or_keep given.name tree.name;
  description = or_keep given.description tree.description;
  locale = or_keep given.locale tree.locale;
  timezone = or_keep given.timezone tree.timezone;
}

module _ (has_location : Text → Bool) where
  normalize_values_cases :
      (values : CreateValues)
      → IsConfigured has_location (trimmed values)
          × (normalize_values has_location values ≡ ok (trimmed values))
        ⊎ (normalize_values has_location values ≡ err invalid_tree)
          × ¬ IsConfigured has_location (trimmed values)
  unfolding normalize_values
  normalize_values_cases values = elim (Bool-cases (has_location (trim_space values.timezone))) [
    | inl known ↦ ground (arith, known)
    | inr unknown ↦ ground (arith, unknown)
  ]

  -- A new tree belongs to its creator, who can view it, change its settings and edit its data; it is
  -- private, live and in its first version, and its settings are those given, trimmed, within limits.
  pub new_family_tree-IsConfigured :
      (id owner : ℕ) (values : CreateValues) (now : ℕ) {a : TreeAccess}
      → new_family_tree has_location id owner values now ≡ ok a
      → IsConfigured has_location (settings_of a.tree)
        × (settings_of a.tree ≡ trimmed values)
        × (a.tree.owner_user_id ≡ a.membership.user_id)
        × (a.tree.id ≡ a.membership.tree_id)
        × (can_view a ≡ true)
        × (can_edit_settings a ≡ true)
        × (can_edit_data a ≡ true)
        × (a.tree.privacy ≡ codes "private")
        × (a.tree.deleted_at ≡ none)
        × (a.tree.version ≡ 1)
  unfolding new_family_tree can_edit_settings can_edit_data
  new_family_tree-IsConfigured id owner values now h = ground (
    arith,
    normalize_values_cases values,
    text_eq_refl (codes "active"),
    text_eq_refl (codes "owner"),
  )

  -- What an update of the settings asks.
  pub record IsUpdatable (tree : FamilyTree) (expected : ℕ) (given : UpdateValues) : Type 0 where
    pub current : expected ≡ tree.version
    pub positive : 0 < expected
    pub live : tree.deleted_at ≡ none
    pub changes :
        (given.name ≢ none)
        ⊎ (given.description ≢ none)
        ⊎ (given.locale ≢ none)
        ⊎ (given.timezone ≢ none)
    pub configured : IsConfigured has_location (trimmed (merged tree given))

  abbrev pub updated : FamilyTree → UpdateValues → ℕ → FamilyTree
  updated tree given now = record tree {
    name = trim_space (or_keep given.name tree.name);
    description = trim_space (or_keep given.description tree.description);
    locale = trim_space (or_keep given.locale tree.locale);
    timezone = trim_space (or_keep given.timezone tree.timezone);
    updated_at = now;
    version = tree.version + 1;
  }

  -- `ApplyUpdate` of a tree accepts an update exactly when it names the present version, the tree is live,
  -- some field is given and the settings that result, trimmed, keep to their limits; the tree then has
  -- these settings, the time of the update and the next version, all else unchanged.
  pub update_tree_iff :
      (tree : FamilyTree) (expected : ℕ) (given : UpdateValues) (now : ℕ) (tree' : FamilyTree)
      → (apply_update has_location tree expected given now ≡ ok tree')
        ↔ IsUpdatable tree expected given × (tree' ≡ updated tree given now)
  unfolding apply_update
  update_tree_iff tree expected given now tree' =
      let outcome = normalize_values_cases (merged tree given) in
      ((λ h. ground (arith, outcome)), λ (a, e). ground (arith, outcome, a, e))
