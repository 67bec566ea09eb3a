-- ===== src/Persons/Samples.antt =====
-- A person, runs of the operations on its card, and the theorems at these inputs.
use family_tree_app.Prelude.{
  ◌≡◌, ◌↔◌, refl, true, false, none, some, [], codes, text_functions, select, flat_map, ok,
}
use family_tree_app.Languages.{
  is_language_tag, is_primary, is_subtag, pieces, all, is_letter, is_alphanumeric,
}
use family_tree_app.Persons.Domain.{
  PersonName, Card, NameValues, CreateValues, UpdateValues, is_sex, is_life_status,
  normalize_person_values, non_empty, join_with_space, normalized, full_text_of, has_valid_parts,
  new_preferred_name, new, renamed, apply_update,
}
use family_tree_app.Persons.Names.{
  IsProper, IsPreferredName, new_preferred_name_iff, new_preferred_name-IsProper,
}
use family_tree_app.Persons.Validity.{IsWellFormed, new_card-IsWellFormed}
use family_tree_app.Persons.Versioning.{updated}

program : Unit {0}
unfolding is_language_tag is_primary is_subtag pieces all is_letter is_alphanumeric is_sex
    is_life_status normalize_person_values non_empty join_with_space normalized full_text_of
    has_valid_parts new_preferred_name new renamed apply_update select flat_map text_functions
program = tt

language_run : is_language_tag (codes "zh-Hant-TW") ≡ true
unfolding program
language_run = refl

language_refused_run : is_language_tag (codes "russian-") ≡ false
unfolding program
language_refused_run = refl

abbrev anna : NameValues
anna = record {
  given_name = codes " Anna ";
  patronymic = codes "Petrovna";
  family_name = codes "Orlova";
  prefix = [];
  suffix = [];
  language_code = [];
}

abbrev anna_name : PersonName
anna_name = record {
  id = 31;
  person_id = 11;
  tree_id = 1;
  name_type = codes "primary";
  given_name = codes "Anna";
  patronymic = codes "Petrovna";
  family_name = codes "Orlova";
  prefix = [];
  suffix = [];
  full_text = codes "Anna Petrovna Orlova";
  is_preferred = true;
  language_code = codes "ru";
  created_at = 100;
  updated_at = 100;
}

name_run : new_preferred_name 31 11 1 anna 100 ≡ ok anna_name
unfolding program
name_run = refl

new_preferred_name_iff_example :
    (new_preferred_name 31 11 1 anna 100 ≡ ok anna_name)
    ↔ IsPreferredName 31 11 1 anna 100 anna_name
new_preferred_name_iff_example = new_preferred_name_iff 31 11 1 anna 100 anna_name

new_preferred_name-IsProper_example :
    IsProper anna_name
    × (anna_name.id ≡ 31)
    × (anna_name.person_id ≡ 11)
    × (anna_name.tree_id ≡ 1)
    × (anna_name.is_preferred ≡ true)
new_preferred_name-IsProper_example = new_preferred_name-IsProper 31 11 1 anna 100 name_run

abbrev values : CreateValues
values = record {
  sex = codes "female";
  life_status = [];
  biography = codes " Born in Tver. ";
  notes = [];
  name = anna;
}

abbrev card : Card
card = record {
  person = record {
    id = 11;
    tree_id = 1;
    sex = codes "female";
    life_status = codes "unknown";
    biography = codes "Born in Tver.";
    notes = [];
    primary_media_id = none;
    privacy_level = codes "tree_members";
    created_by = 9;
    updated_by = 9;
    created_at = 100;
    updated_at = 100;
    deleted_at = none;
    version = 1;
  };
  preferred_name = anna_name;
}

new_run : new 11 31 1 9 values 100 ≡ ok card
unfolding program
new_run = refl

abbrev changes : UpdateValues
changes = record {
  sex = none;
  life_status = some (codes "alive");
  biography = none;
  notes = none;
  preferred_name = none;
}

abbrev card_alive : Card
card_alive = record card { person = updated card.person 8 changes 150 }

card-IsWellFormed : IsWellFormed card
card-IsWellFormed = new_card-IsWellFormed 11 31 1 9 values 100 new_run
