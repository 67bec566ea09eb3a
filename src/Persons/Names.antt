-- ===== src/Persons/Names.antt =====
-- The preferred name of person.go: when its parts give a name, and what name they give.
use family_tree_app.Prelude.{
  ℕ, ◌≤◌, ◌≡◌, inl, inr, ◌↔◌, ◌≢◌, ◌∙◌, ◌++◌, ap, subst, sym, codes, refl, true, false, List, [],
  ◌∷◌, Text, is_empty, trim_space, trim_space_idem, length, Bool-cases, select, ok, arith,
}
use family_tree_app.Languages.{is_language_tag}
use family_tree_app.Persons.Domain.{
  PersonName, NameValues, max_name_runes, max_affix_runes, non_empty, join_with_space, name_parts,
  normalized, full_text_of, has_valid_parts, new_preferred_name,
}

abbrev pub values_of : PersonName → NameValues
values_of n = record {
  given_name = n.given_name;
  patronymic = n.patronymic;
  family_name = n.family_name;
  prefix = n.prefix;
  suffix = n.suffix;
  language_code = n.language_code;
}

-- A name with trimmed and bounded parts, a language, and the full text that its parts give.
pub record IsProper (n : PersonName) : Type 0 where
  pub given_trimmed : trim_space n.given_name ≡ n.given_name
  pub patronym_trimmed : trim_space n.patronymic ≡ n.patronymic
  pub family_trimmed : trim_space n.family_name ≡ n.family_name
  pub before_trimmed : trim_space n.prefix ≡ n.prefix
  pub behind_trimmed : trim_space n.suffix ≡ n.suffix
  pub given_bounded : length n.given_name ≤ max_name_runes
  pub patronym_bounded : length n.patronymic ≤ max_name_runes
  pub family_bounded : length n.family_name ≤ max_name_runes
  pub before_bounded : length n.prefix ≤ max_affix_runes
  pub behind_bounded : length n.suffix ≤ max_affix_runes
  pub language : is_language_tag n.language_code ≡ true
  pub full : n.full_text ≡ full_text_of (values_of n)
  pub not_blank : is_empty n.full_text ≡ false

-- Texts that are not empty, each after a space.
abbrev pub spaced : List Text → Text
spaced [] = []
spaced ([] ∷ values) = spaced values
spaced ((c ∷ s) ∷ values) = 32 ∷ ((c ∷ s) ++ spaced values)

-- The name that `newPreferredName` makes of the values: each part is trimmed and within its limit, a language that is not given is
-- Russian, and the full text has the parts that are not empty, in order, with one space between two of them.
pub record IsPreferredName (id person_id tree_id : ℕ) (values : NameValues) (now : ℕ)
    (n : PersonName) : Type 0 where
  pub given : n.given_name ≡ trim_space values.given_name
  pub patronym : n.patronymic ≡ trim_space values.patronymic
  pub family : n.family_name ≡ trim_space values.family_name
  pub before : n.prefix ≡ trim_space values.prefix
  pub behind : n.suffix ≡ trim_space values.suffix
  pub given_bounded : length n.given_name ≤ 150
  pub patronym_bounded : length n.patronymic ≤ 150
  pub family_bounded : length n.family_name ≤ 150
  pub before_bounded : length n.prefix ≤ 50
  pub behind_bounded : length n.suffix ≤ 50
  pub default_language : trim_space values.language_code ≡ [] → n.language_code ≡ codes "ru"
  pub given_language :
      trim_space values.language_code ≢ [] → n.language_code ≡ trim_space values.language_code
  pub language : is_language_tag n.language_code ≡ true
  pub full :
      32 ∷ n.full_text
      ≡ spaced (
          trim_space values.prefix
          ∷ trim_space values.given_name
          ∷ trim_space values.patronymic
          ∷ trim_space values.family_name
          ∷ trim_space values.suffix
          ∷ [])
  pub not_blank : n.full_text ≢ []
  pub identity : (n.id ≡ id) × (n.person_id ≡ person_id) × (n.tree_id ≡ tree_id)
  pub kind : (n.name_type ≡ codes "primary") × (n.is_preferred ≡ true)
  pub dates : (n.created_at ≡ now) × (n.updated_at ≡ now)

append-empty : (s : Text) → s ++ [] ≡ s
append-empty [] = refl
append-empty (c ∷ s) = ap (λ rest. c ∷ rest) (append-empty s)

join-spaced :
    (c : ℕ) (s : Text) (values : List Text)
    → 32 ∷ join_with_space ((c ∷ s) ∷ non_empty values) ≡ spaced ((c ∷ s) ∷ values)
unfolding join_with_space non_empty select
join-spaced c s [] = ap (λ rest. 32 ∷ (c ∷ rest)) (sym (append-empty s))
join-spaced c s ([] ∷ values) = join-spaced c s values
join-spaced c s ((d ∷ t) ∷ values) = ap (λ rest. 32 ∷ ((c ∷ s) ++ rest)) (join-spaced d t values)

-- The join of what is not empty, where it is not empty itself.
full-spaced :
    (values : List Text)
    → is_empty (join_with_space (non_empty values)) ≡ false
    → 32 ∷ join_with_space (non_empty values) ≡ spaced values
unfolding join_with_space non_empty select
full-spaced [] h = cc
full-spaced ([] ∷ values) h = full-spaced values h
full-spaced ((c ∷ s) ∷ values) h = join-spaced c s values

is_empty-join :
    (c : ℕ) (s : Text) (values : List Text) → is_empty (join_with_space ((c ∷ s) ∷ values)) ≡ false
unfolding join_with_space
is_empty-join c s [] = refl
is_empty-join c s (v ∷ vs) = refl

blank-spaced :
    (values : List Text) → is_empty (join_with_space (non_empty values)) ≡ true → spaced values ≡ []
unfolding join_with_space non_empty select
blank-spaced [] h = refl
blank-spaced ([] ∷ values) h = blank-spaced values h
blank-spaced ((c ∷ s) ∷ values) h = absurd (cc (is_empty-join c s (non_empty values), h))

empty-eq : (value : Text) → is_empty value ≡ true → value ≡ []
empty-eq [] h = refl
empty-eq (c ∷ s) h = cc

module _ (id person_id tree_id : ℕ) (values : NameValues) (now : ℕ) (n : PersonName) where
  made-IsPreferredName :
      new_preferred_name id person_id tree_id values now ≡ ok n
      → IsPreferredName id person_id tree_id values now n
  unfolding new_preferred_name has_valid_parts normalized full_text_of
  made-IsPreferredName h =
      let v = normalized values in
      let whole : n.full_text ≡ full_text_of v = ground (arith, h) in
      let filled : is_empty (full_text_of v) ≡ false = ground (arith, h) in
      record {
        given = ground (arith, h);
        patronym = ground (arith, h);
        family = ground (arith, h);
        before = ground (arith, h);
        behind = ground (arith, h);
        given_bounded = ground (arith, h);
        patronym_bounded = ground (arith, h);
        family_bounded = ground (arith, h);
        before_bounded = ground (arith, h);
        behind_bounded = ground (arith, h);
        default_language = λ e. ground (arith, h, e);
        given_language = λ e. elim (Bool-cases (is_empty (trim_space values.language_code))) [
          | inl missing ↦ absurd (e (empty-eq _ missing))
          | inr there ↦ ground (arith, h, there)
        ];
        language = ground (arith, h);
        full = ap (λ text. 32 ∷ text) whole ∙ full-spaced (name_parts v) filled;
        not_blank = λ e. ground (arith, filled, whole, e);
        identity = ground (arith, h);
        kind = ground (arith, h);
        dates = ground (arith, h);
      }

  language_of :
      IsPreferredName id person_id tree_id values now n
      → n.language_code ≡ (normalized values).language_code
  unfolding normalized
  language_of m = elim (Bool-cases (is_empty (trim_space values.language_code))) [
    | inl missing ↦ rw missing (m.default_language (empty-eq _ missing))
    | inr there ↦ rw there (m.given_language (λ e. ground (arith, there, e)))
  ]

  valid_of :
      IsPreferredName id person_id tree_id values now n → has_valid_parts (normalized values) ≡ true
  unfolding has_valid_parts normalized
  valid_of m =
      let tag : is_language_tag (normalized values).language_code ≡ true =
        subst (λ code. is_language_tag code ≡ true) (language_of m) m.language in
      ground (
        arith,
        tag,
        subst (λ part. length part ≤ 150) m.given m.given_bounded,
        subst (λ part. length part ≤ 150) m.patronym m.patronym_bounded,
        subst (λ part. length part ≤ 150) m.family m.family_bounded,
        subst (λ part. length part ≤ 50) m.before m.before_bounded,
        subst (λ part. length part ≤ 50) m.behind m.behind_bounded,
      )

  filled_of :
      IsPreferredName id person_id tree_id values now n
      → is_empty (full_text_of (normalized values)) ≡ false
  unfolding full_text_of normalized
  filled_of m = elim (Bool-cases (is_empty (full_text_of (normalized values)))) [
    | inr filled ↦ filled
    | inl blank ↦ absurd (cc (m.full ∙ blank-spaced (name_parts (normalized values)) blank))
  ]

  full_of :
      IsPreferredName id person_id tree_id values now n
      → n.full_text ≡ full_text_of (normalized values)
  unfolding full_text_of normalized
  full_of m =
      let same : 32 ∷ n.full_text ≡ 32 ∷ full_text_of (normalized values) =
        m.full ∙ sym (full-spaced (name_parts (normalized values)) (filled_of m)) in
      cc same

  total :
      IsPreferredName id person_id tree_id values now n
      → new_preferred_name id person_id tree_id values now ≡ ok n
  unfolding new_preferred_name normalized
  total m =
      let (i1, i2, i3) = m.identity in
      let (k1, k2) = m.kind in
      let (d1, d2) = m.dates in
      let made : n ≡ record {
        id = id;
        person_id = person_id;
        tree_id = tree_id;
        name_type = codes "primary";
        given_name = trim_space values.given_name;
        patronymic = trim_space values.patronymic;
        family_name = trim_space values.family_name;
        prefix = trim_space values.prefix;
        suffix = trim_space values.suffix;
        full_text = full_text_of (normalized values);
        is_preferred = true;
        language_code = (normalized values).language_code;
        created_at = now;
        updated_at = now;
      } =
        λ i. record {
          id = i1 i;
          person_id = i2 i;
          tree_id = i3 i;
          name_type = k1 i;
          given_name = m.given i;
          patronymic = m.patronym i;
          family_name = m.family i;
          prefix = m.before i;
          suffix = m.behind i;
          full_text = full_of m i;
          is_preferred = k2 i;
          language_code = language_of m i;
          created_at = d1 i;
          updated_at = d2 i;
        } in
      rw (valid_of m, filled_of m) (ap (λ name. ok name) (sym made))

  -- The name `n` is made of the values exactly where each part of it is the part given, trimmed and within its limit, its language is
  -- the one given, or Russian where there is none, and a tag of the pattern, and its full text, which is not empty, has the parts that
  -- are not empty, in order, with one space between two of them.
  pub new_preferred_name_iff :
      (new_preferred_name id person_id tree_id values now ≡ ok n)
      ↔ IsPreferredName id person_id tree_id values now n
  new_preferred_name_iff = (made-IsPreferredName, total)

-- Every name that is made is proper, belongs to the person and the tree given, and is preferred.
pub new_preferred_name-IsProper :
    (id person_id tree_id : ℕ) (values : NameValues) (now : ℕ) {n : PersonName}
    → new_preferred_name id person_id tree_id values now ≡ ok n
    → IsProper n
      × (n.id ≡ id)
      × (n.person_id ≡ person_id)
      × (n.tree_id ≡ tree_id)
      × (n.is_preferred ≡ true)
unfolding new_preferred_name has_valid_parts normalized
new_preferred_name-IsProper id person_id tree_id values now h = ground (
  arith,
  trim_space_idem values.given_name,
  trim_space_idem values.patronymic,
  trim_space_idem values.family_name,
  trim_space_idem values.prefix,
  trim_space_idem values.suffix,
)
