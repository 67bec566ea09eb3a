-- ===== src/Trees/Domain.antt =====
-- internal/features/trees/domain/tree.go: family trees, their settings and the rights of a member.
-- Whether time.LoadLocation knows a time zone is a parameter, since the zones are a database of the
-- system.
use family_tree_app.Prelude.{
  ℕ, ◌+◌, Bool, not, ◌&&◌, ◌||◌, Option, none, some, Text, codes, text_eq, trim_space, length,
  byte_len, ltb, ◌==◌, is_some, is_none, or_keep, Result, ok, ◌>>=◌, ◌>>◌, refuse_if,
}
use family_tree_app.Languages.{is_language_tag}

pub data Error : Type 0 where
  invalid_tree tree_not_found tree_access_denied tree_version_conflict tree_not_deleted : Error

abbrev pub max_name_runes : ℕ
max_name_runes = 150

abbrev pub max_description_runes : ℕ
max_description_runes = 5000

abbrev pub max_locale_bytes : ℕ
max_locale_bytes = 35

abbrev pub max_timezone_bytes : ℕ
max_timezone_bytes = 100

pub record FamilyTree : Type 0 where
  pub id : ℕ
  pub name : Text
  pub description : Text
  pub owner_user_id : ℕ
  pub root_person_id : Option ℕ
  pub cover_media_id : Option ℕ
  pub privacy : Text
  pub locale : Text
  pub timezone : Text
  pub created_at : ℕ
  pub updated_at : ℕ
  pub deleted_at : Option ℕ
  pub version : ℕ

pub record TreeMember : Type 0 where
  pub tree_id : ℕ
  pub user_id : ℕ
  pub role : Text
  pub status : Text
  pub invited_by : Option ℕ
  pub created_at : ℕ
  pub accepted_at : Option ℕ

pub record TreeAccess : Type 0 where
  pub tree : FamilyTree
  pub membership : TreeMember

pub record CreateValues : Type 0 where
  pub name : Text
  pub description : Text
  pub locale : Text
  pub timezone : Text

pub record UpdateValues : Type 0 where
  pub name : Option Text
  pub description : Option Text
  pub locale : Option Text
  pub timezone : Option Text

unfoldable pub can_view : TreeAccess → Bool
can_view a = text_eq a.membership.status (codes "active")

unfoldable pub can_edit_settings : TreeAccess → Bool
unfolding can_view
can_edit_settings a = can_view a && text_eq a.membership.role (codes "owner")

unfoldable pub can_edit_data : TreeAccess → Bool
unfolding can_view
can_edit_data a =
    can_view a
    && (text_eq a.membership.role (codes "owner") || text_eq a.membership.role (codes "editor"))

-- The texts that are stored.
abbrev pub trimmed : CreateValues → CreateValues
trimmed values = record {
  name = trim_space values.name;
  description = trim_space values.description;
  locale = trim_space values.locale;
  timezone = trim_space values.timezone;
}

module _ (has_location : Text → Bool) where
  unfoldable pub normalize_values : CreateValues → Result Error CreateValues
  normalize_values given = do
    let values = trimmed given
    refuse_if
        (ltb (length values.name) 1
          || ltb max_name_runes (length values.name)
          || ltb max_description_runes (length values.description)
          || ltb max_locale_bytes (byte_len values.locale)
          || not (is_language_tag values.locale)
          || ltb (byte_len values.timezone) 1
          || ltb max_timezone_bytes (byte_len values.timezone))
        invalid_tree
    refuse_if (not (has_location values.timezone)) invalid_tree
    ok values

  unfoldable pub new_family_tree : ℕ → ℕ → CreateValues → ℕ → Result Error TreeAccess
  unfolding normalize_values
  new_family_tree id owner_user_id given now = do
    refuse_if ((id == 0) || (owner_user_id == 0) || (now == 0)) invalid_tree
    values ← normalize_values given
    ok (record {
      tree = record {
        id = id;
        name = values.name;
        description = values.description;
        owner_user_id = owner_user_id;
        root_person_id = none;
        cover_media_id = none;
        privacy = codes "private";
        locale = values.locale;
        timezone = values.timezone;
        created_at = now;
        updated_at = now;
        deleted_at = none;
        version = 1;
      };
      membership = record {
        tree_id = id;
        user_id = owner_user_id;
        role = codes "owner";
        status = codes "active";
        invited_by = none;
        created_at = now;
        accepted_at = some now;
      };
    })

  unfoldable pub apply_update : FamilyTree → ℕ → UpdateValues → ℕ → Result Error FamilyTree
  unfolding normalize_values
  apply_update tree expected_version given now = do
    refuse_if ((expected_version == 0) || not (tree.version == expected_version))
        tree_version_conflict
    refuse_if (is_some tree.deleted_at) tree_not_found
    values ← normalize_values (record {
      name = or_keep given.name tree.name;
      description = or_keep given.description tree.description;
      locale = or_keep given.locale tree.locale;
      timezone = or_keep given.timezone tree.timezone;
    })
    refuse_if
        (is_none given.name
          && is_none given.description
          && is_none given.locale
          && is_none given.timezone)
        invalid_tree
    ok (record tree {
      name = values.name;
      description = values.description;
      locale = values.locale;
      timezone = values.timezone;
      updated_at = now;
      version = tree.version + 1;
    })
