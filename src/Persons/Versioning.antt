-- ===== src/Persons/Versioning.antt =====
-- What an update of person.go changes, and the versions that keep two updates apart.
use family_tree_app.Prelude.{
  ℕ, ◌+◌, ◌≡◌, Option, none, some, trim_space, or_keep, ok, err, Result-cases, inl, inr, arith,
}
use family_tree_app.Persons.Domain.{
  Person, PersonName, Card, UpdateValues, NameValues, person_version_conflict,
  normalize_person_values, new_preferred_name, renamed, apply_update,
}
use family_tree_app.Persons.Names.{new_preferred_name-IsProper}

-- The person after an accepted update.
abbrev pub updated : Person → ℕ → UpdateValues → ℕ → Person
updated p actor values now = record p {
  sex = or_keep values.sex p.sex;
  life_status = or_keep values.life_status p.life_status;
  biography = trim_space (or_keep values.biography p.biography);
  notes = trim_space (or_keep values.notes p.notes);
  updated_by = actor;
  updated_at = now;
  version = p.version + 1;
}

renamed-keeps :
    (card : Card) (given : Option NameValues) (now : ℕ) {n : PersonName}
    → renamed card given now ≡ ok n
    → (n.id ≡ card.preferred_name.id)
      × (n.created_at ≡ card.preferred_name.created_at)
      × (given ≡ none → n ≡ card.preferred_name)
unfolding renamed
renamed-keeps card none now h = (ground arith, ground arith, λ e. ground arith)
renamed-keeps card (some values) now {n} h =
    elim (Result-cases
      (new_preferred_name card.preferred_name.id card.person.id card.person.tree_id values now)) [
        | inr (e, refused) ↦ absurd (ground (arith, refused))
        | inl (m, made) ↦
            let (_, id, _, _, _) =
              new_preferred_name-IsProper card.preferred_name.id card.person.id card.person.tree_id
                values now made in
            (ground (arith, made, id), ground (arith, made), λ e. absurd (cc e))
      ]

pub apply_update-eq-updated :
    (card : Card) (expected actor : ℕ) (values : UpdateValues) (now : ℕ) {card' : Card}
    → apply_update card expected actor values now ≡ ok card'
    → (expected ≡ card.person.version)
      × (card.person.deleted_at ≡ none)
      × ¬ (
          (values.sex ≡ none)
          × (values.life_status ≡ none)
          × (values.biography ≡ none)
          × (values.notes ≡ none)
          × (values.preferred_name ≡ none))
      × (card'.person ≡ updated card.person actor values now)
      × (card'.preferred_name.id ≡ card.preferred_name.id)
      × (card'.preferred_name.created_at ≡ card.preferred_name.created_at)
      × (values.preferred_name ≡ none → card'.preferred_name ≡ card.preferred_name)
unfolding apply_update normalize_person_values
apply_update-eq-updated card expected actor values now {card'} h =
    elim (Result-cases (renamed card values.preferred_name now)) [
      | inr (e, refused) ↦ absurd (ground (arith, refused))
      | inl (n, made) ↦
          let (id, dated, kept) = renamed-keeps card values.preferred_name now made in
          let same : card'.preferred_name ≡ n = ground (arith, made) in
          (
            ground (arith, made),
            ground (arith, made),
            λ all. ground (arith, made, all),
            ground (arith, made),
            rw same id,
            rw same dated,
            λ e. rw same (kept e),
          )
    ]

-- Of two updates that name the same version, the one that comes second is refused as a conflict.
pub apply_update_superseded :
    (card : Card) (expected first_actor second_actor : ℕ) (first second : UpdateValues)
    (now later : ℕ) {card' : Card}
    → apply_update card expected first_actor first now ≡ ok card'
    → apply_update card' expected second_actor second later ≡ err person_version_conflict
unfolding apply_update
apply_update_superseded card expected first_actor second_actor first second now later {card'} h =
    let (current, _, _, changed, _, _, _) =
      apply_update-eq-updated card expected first_actor first now h in
    let next : card'.person.version ≡ expected + 1 = ground (arith, current, changed) in
    ground (arith, next)
