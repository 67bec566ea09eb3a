-- ===== src/Persons/Domain.antt =====
-- internal/features/persons/domain/person.go: cards of persons, their validation and updates.
use family_tree_app.Prelude.{
  ℕ, ◌+◌, Bool, true, not, ◌&&◌, ◌||◌, Option, none, some, List, [], ◌∷◌, ◌++◌, Text, codes,
  text_eq, is_empty, trim_space, length, ltb, ◌==◌, if◌then◌else◌, is_some, is_none, or_keep,
  select, Result, ok, err, ◌>>=◌, ◌>>◌, refuse_if,
}
use family_tree_app.Languages.{is_language_tag}

pub data Error : Type 0 where
  invalid_person person_not_found person_access_denied person_version_conflict person_not_deleted :
      Error
  invalid_list_cursor : Error

pub record Person : Type 0 where
  pub id : ℕ
  pub tree_id : ℕ
  pub sex : Text
  pub life_status : Text
  pub biography : Text
  pub notes : Text
  pub primary_media_id : Option ℕ
  pub privacy_level : Text
  pub created_by : ℕ
  pub updated_by : ℕ
  pub created_at : ℕ
  pub updated_at : ℕ
  pub deleted_at : Option ℕ
  pub version : ℕ

pub record PersonName : Type 0 where
  pub id : ℕ
  pub person_id : ℕ
  pub tree_id : ℕ
  pub name_type : Text
  pub given_name : Text
  pub patronymic : Text
  pub family_name : Text
  pub prefix : Text
  pub suffix : Text
  pub full_text : Text
  pub is_preferred : Bool
  pub language_code : Text
  pub created_at : ℕ
  pub updated_at : ℕ

pub record Card : Type 0 where
  pub person : Person
  pub preferred_name : PersonName

pub record NameValues : Type 0 where
  pub given_name : Text
  pub patronymic : Text
  pub family_name : Text
  pub prefix : Text
  pub suffix : Text
  pub language_code : Text

pub record CreateValues : Type 0 where
  pub sex : Text
  pub life_status : Text
  pub biography : Text
  pub notes : Text
  pub name : NameValues

pub record UpdateValues : Type 0 where
  pub sex : Option Text
  pub life_status : Option Text
  pub biography : Option Text
  pub notes : Option Text
  pub preferred_name : Option NameValues

abbrev pub max_biography_runes : ℕ
max_biography_runes = 50000

abbrev pub max_notes_runes : ℕ
max_notes_runes = 20000

abbrev pub max_name_runes : ℕ
max_name_runes = 150

abbrev pub max_affix_runes : ℕ
max_affix_runes = 50

unfoldable pub is_sex : Text → Bool
is_sex value =
    text_eq value (codes "male")
    || text_eq value (codes "female")
    || text_eq value (codes "unknown")
    || text_eq value (codes "not_specified")

unfoldable pub is_life_status : Text → Bool
is_life_status value =
    text_eq value (codes "alive")
    || text_eq value (codes "deceased")
    || text_eq value (codes "unknown")

-- The biography and the notes that are stored; their limits are those of the texts as given.
unfoldable pub normalize_person_values : Text → Text → Text → Text → Result Error (Text × Text)
normalize_person_values sex life_status biography notes =
    if not (is_sex sex)
      || not (is_life_status life_status)
      || ltb max_biography_runes (length biography)
      || ltb max_notes_runes (length notes)
    then err invalid_person
    else ok (trim_space biography, trim_space notes)

abbrev pub is_not_empty : Text → Bool
is_not_empty value = not (is_empty value)

unfoldable pub non_empty : List Text → List Text
unfolding select
non_empty values = select is_not_empty values

-- `strings.Join(values, " ")`.
unfoldable pub join_with_space : List Text → Text
join_with_space [] = []
join_with_space (value ∷ values) =
    let rest = join_with_space values in elim values [ [] ↦ value | _ ∷ _ ↦ value ++ 32 ∷ rest ]

abbrev pub name_parts : NameValues → List Text
name_parts values =
    values.prefix ∷ values.given_name ∷ values.patronymic ∷ values.family_name ∷ values.suffix ∷ []

-- The values as they are used: trimmed, with Russian as the language where none is given.
unfoldable pub normalized : NameValues → NameValues
normalized values =
    let language = trim_space values.language_code in
    record {
      given_name = trim_space values.given_name;
      patronymic = trim_space values.patronymic;
      family_name = trim_space values.family_name;
      prefix = trim_space values.prefix;
      suffix = trim_space values.suffix;
      language_code = if is_empty language then codes "ru" else language;
    }

unfoldable pub full_text_of : NameValues → Text
unfolding non_empty join_with_space
full_text_of values = join_with_space (non_empty (name_parts values))

unfoldable pub has_valid_parts : NameValues → Bool
has_valid_parts values = not (
    ltb max_name_runes (length values.given_name)
    || ltb max_name_runes (length values.patronymic)
    || ltb max_name_runes (length values.family_name)
    || ltb max_affix_runes (length values.prefix)
    || ltb max_affix_runes (length values.suffix)
    || not (is_language_tag values.language_code))

unfoldable pub new_preferred_name : ℕ → ℕ → ℕ → NameValues → ℕ → Result Error PersonName
unfolding normalized has_valid_parts full_text_of
new_preferred_name id person_id tree_id given now = do
  let values = normalized given
  refuse_if (not (has_valid_parts values)) invalid_person
  let full_text = full_text_of values
  refuse_if (is_empty full_text) invalid_person
  ok (record {
    id = id;
    person_id = person_id;
    tree_id = tree_id;
    name_type = codes "primary";
    given_name = values.given_name;
    patronymic = values.patronymic;
    family_name = values.family_name;
    prefix = values.prefix;
    suffix = values.suffix;
    full_text = full_text;
    is_preferred = true;
    language_code = values.language_code;
    created_at = now;
    updated_at = now;
  })

abbrev pub or_default : Text → Text → Text
or_default value default = if is_empty value then default else value

unfoldable pub new : ℕ → ℕ → ℕ → ℕ → CreateValues → ℕ → Result Error Card
new person_id name_id tree_id actor_user_id values now = do
  refuse_if
      ((person_id == 0) || (name_id == 0) || (tree_id == 0) || (actor_user_id == 0) || (now == 0))
      invalid_person
  let sex = or_default values.sex (codes "not_specified")
  let life_status = or_default values.life_status (codes "unknown")
  texts ← normalize_person_values sex life_status values.biography values.notes
  name ← new_preferred_name name_id person_id tree_id values.name now
  ok (record {
    person = record {
      id = person_id;
      tree_id = tree_id;
      sex = sex;
      life_status = life_status;
      biography = texts.0;
      notes = texts.1;
      primary_media_id = none;
      privacy_level = codes "tree_members";
      created_by = actor_user_id;
      updated_by = actor_user_id;
      created_at = now;
      updated_at = now;
      deleted_at = none;
      version = 1;
    };
    preferred_name = name;
  })

-- The preferred name after an update: a new one keeps the identifier and the date of the first.
unfoldable pub renamed : Card → Option NameValues → ℕ → Result Error PersonName
renamed card none now = ok card.preferred_name
renamed card (some values) now = do
  name ← new_preferred_name card.preferred_name.id card.person.id card.person.tree_id values now
  ok (record name { created_at = card.preferred_name.created_at })

unfoldable pub apply_update : Card → ℕ → ℕ → UpdateValues → ℕ → Result Error Card
unfolding renamed
apply_update card expected_version actor_user_id values now = do
  let person = card.person
  refuse_if ((expected_version == 0) || not (person.version == expected_version))
      person_version_conflict
  refuse_if ((actor_user_id == 0) || (now == 0)) invalid_person
  refuse_if (is_some person.deleted_at) person_not_found
  refuse_if
      (is_none values.sex
        && is_none values.life_status
        && is_none values.biography
        && is_none values.notes
        && is_none values.preferred_name)
      invalid_person
  let sex = or_keep values.sex person.sex
  let life_status = or_keep values.life_status person.life_status
  texts ←
      normalize_person_values sex life_status (or_keep values.biography person.biography)
        (or_keep values.notes person.notes)
  name ← renamed card values.preferred_name now
  ok (record {
    person = record person {
      sex = sex;
      life_status = life_status;
      biography = texts.0;
      notes = texts.1;
      updated_by = actor_user_id;
      updated_at = now;
      version = person.version + 1;
    };
    preferred_name = name;
  })
