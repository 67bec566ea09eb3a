-- ===== src/Persons/Validity.antt =====
-- What holds of every card of a person that person.go lets through.
use family_tree_app.Prelude.{
  ℕ, ◌≤◌, ◌<◌, ◌≡◌, ◌≢◌, ◌⊎◌, inl, inr, true, Text, codes, trim_space, trim_space_idem, length,
  length-trim_space-le, or_keep, ok, err, Option-cases, Result-cases, arith,
}
use family_tree_app.Persons.Domain.{
  Error, invalid_person, PersonName, Card, NameValues, CreateValues, UpdateValues,
  max_biography_runes, max_notes_runes, is_sex, is_life_status, normalize_person_values, or_default,
  new_preferred_name, renamed, new, apply_update,
}
use family_tree_app.Persons.Names.{IsProper, new_preferred_name-IsProper}

-- A person with a known sex and life status, trimmed and bounded texts, and its own preferred name.
pub record IsWellFormed (card : Card) : Type 0 where
  pub has_id : card.person.id ≢ 0
  pub has_tree : card.person.tree_id ≢ 0
  pub has_version : 0 < card.person.version
  pub known_sex : is_sex card.person.sex ≡ true
  pub known_status : is_life_status card.person.life_status ≡ true
  pub biography_trimmed : trim_space card.person.biography ≡ card.person.biography
  pub notes_trimmed : trim_space card.person.notes ≡ card.person.notes
  pub biography_bounded : length card.person.biography ≤ max_biography_runes
  pub notes_bounded : length card.person.notes ≤ max_notes_runes
  pub own_name : card.preferred_name.person_id ≡ card.person.id
  pub own_tree : card.preferred_name.tree_id ≡ card.person.tree_id
  pub preferred : card.preferred_name.is_preferred ≡ true
  pub proper : IsProper card.preferred_name

-- What the validation lets through.
pub record IsValidated (sex life_status biography notes : Text) : Type 0 where
  pub known_sex : is_sex sex ≡ true
  pub known_status : is_life_status life_status ≡ true
  pub biography_trimmed : trim_space biography ≡ biography
  pub notes_trimmed : trim_space notes ≡ notes
  pub biography_bounded : length biography ≤ max_biography_runes
  pub notes_bounded : length notes ≤ max_notes_runes

normalize_person_values_cases :
    (s l b n : Text)
    → IsValidated s l (trim_space b) (trim_space n)
        × (normalize_person_values s l b n ≡ ok (trim_space b, trim_space n))
      ⊎ (normalize_person_values s l b n ≡ err invalid_person)
unfolding normalize_person_values
normalize_person_values_cases s l b n =
    ground
      (arith, trim_space_idem b, trim_space_idem n, length-trim_space-le b, length-trim_space-le n)

new_preferred_name-error :
    (id person_id tree_id : ℕ) (values : NameValues) (now : ℕ) {e : Error}
    → new_preferred_name id person_id tree_id values now ≡ err e
    → new_preferred_name id person_id tree_id values now ≡ err invalid_person
unfolding new_preferred_name
new_preferred_name-error id person_id tree_id values now h = ground arith

new_preferred_name_cases :
    (id person_id tree_id : ℕ) (values : NameValues) (now : ℕ)
    → ((n : PersonName) × (new_preferred_name id person_id tree_id values now ≡ ok n)
        × IsProper n
        × (n.person_id ≡ person_id)
        × (n.tree_id ≡ tree_id)
        × (n.is_preferred ≡ true))
      ⊎ (new_preferred_name id person_id tree_id values now ≡ err invalid_person)
new_preferred_name_cases id person_id tree_id values now =
    elim (Result-cases (new_preferred_name id person_id tree_id values now)) [
      | inl (n, made) ↦
          let (proper, _, person, tree, preferred) =
            new_preferred_name-IsProper id person_id tree_id values now made in
          inl (n, made, proper, person, tree, preferred)
      | inr (e, refused) ↦ inr (new_preferred_name-error id person_id tree_id values now refused)
    ]

-- Every card that `New` returns is well formed.
pub new_card-IsWellFormed :
    (person_id name_id tree_id actor : ℕ) (values : CreateValues) (now : ℕ) {card : Card}
    → new person_id name_id tree_id actor values now ≡ ok card
    → IsWellFormed card
unfolding new
new_card-IsWellFormed person_id name_id tree_id actor values now h =
    let texts =
      normalize_person_values_cases (or_default values.sex (codes "not_specified"))
        (or_default values.life_status (codes "unknown")) values.biography values.notes in
    elim (new_preferred_name_cases name_id person_id tree_id values.name now) [
      | inl (n, made, name, person, tree, preferred) ↦
          ground (arith, texts, made, name, person, tree, preferred)
      | inr refused ↦ absurd (ground (arith, texts, refused))
    ]

-- `ApplyUpdate` keeps a card well formed.
pub apply_card_update-IsWellFormed :
    (card : Card) (expected actor : ℕ) (values : UpdateValues) (now : ℕ) {card' : Card}
    → IsWellFormed card
    → apply_update card expected actor values now ≡ ok card'
    → IsWellFormed card'
unfolding apply_update renamed
apply_card_update-IsWellFormed card expected actor values now w h =
    let texts =
      normalize_person_values_cases (or_keep values.sex card.person.sex)
        (or_keep values.life_status card.person.life_status)
        (or_keep values.biography card.person.biography) (or_keep values.notes card.person.notes) in
    elim (Option-cases values.preferred_name) [
      | inl e ↦ ground (arith, e, texts)
      | inr (given, e) ↦
          elim (new_preferred_name_cases card.preferred_name.id card.person.id card.person.tree_id
            given now) [
              | inl (n, made, name, person, tree, preferred) ↦
                  ground (arith, e, texts, made, name, person, tree, preferred)
              | inr refused ↦ absurd (ground (arith, e, texts, refused))
            ]
    ]
