-- ===== src/Prelude/Tables.antt =====
-- Tables as lists of rows: `UPDATE` of the one row that a key selects.
use mathlib.Core.Path.{◌≡◌, refl, ◌∙◌, subst}
use mathlib.Core.Logic.{◌⊎◌, inl, inr}
use mathlib.Core.Bool.{Bool, true, false}
use mathlib.Core.Option.{Option, none, some}
use mathlib.Core.List.{List, [], ◌∷◌}
use native.Mathlib.Omega.{arith}
use family_tree_app.Prelude.Tests.{if◌then◌else◌, Bool-cases, Option-cases}
use family_tree_app.Prelude.Lists.{In}

-- The first row that the test selects is replaced; an identifier is a primary key, so no other is.
unfoldable pub update_first {ℓ} : {A : Type ℓ} → (A → Bool) → (A → A) → List A → Option (A × List A)
update_first p f [] = none
update_first p f (x ∷ xs) =
    let rest = update_first p f xs in
    if p x
    then some (f x, f x ∷ xs)
    else elim rest [ none ↦ none | some (y, ys) ↦ some (y, x ∷ ys) ]

-- The row that `update_first` changed, and where the rows that it leaves come from.
pub record Updated {A : Type 0} (p : A → Bool) (f : A → A) (xs : List A) (y : A) (ys : List A)
    : Type 0 where
  pub old : A
  pub listed : In old xs
  pub passes : p old ≡ true
  pub made : y ≡ f old
  pub placed : In y ys
  pub kept : (z : A) → In z xs → In z ys ⊎ (z ≡ old)
  pub origin : (z : A) → In z ys → In z xs ⊎ (z ≡ f old)

pub update_first-Updated :
    {A : Type 0} (p : A → Bool) (f : A → A) (xs : List A) {y : A} {ys : List A}
    → update_first p f xs ≡ some (y, ys)
    → Updated p f xs y ys
unfolding update_first
update_first-Updated p f [] h = cc
update_first-Updated {A} p f (x ∷ xs) {y} {ys} h = elim (Bool-cases (p x)) [
  | inl e ↦
      let made : y ≡ f x = ground (arith, e) in
      let rows : ys ≡ f x ∷ xs = ground (arith, e) in
      record {
        old = x;
        listed = inl refl;
        passes = e;
        made = made;
        placed = rw (made, rows) (inl refl);
        kept = λ z i. elim i [ inl same ↦ inr same | inr j ↦ inl (rw rows (inr j)) ];
        origin = λ z i. elim (subst (In z) rows i) [ inl same ↦ inr same | inr j ↦ inl (inr j) ];
      }
  | inr e ↦ elim (Option-cases (update_first p f xs)) [
    | inl stopped ↦ absurd (ground (arith, e, stopped))
    | inr ((y', ys'), found) ↦
        let u : Updated p f xs y' ys' = update_first-Updated p f xs found in
        let made : y ≡ y' = ground (arith, e, found) in
        let rows : ys ≡ x ∷ ys' = ground (arith, e, found) in
        record {
          old = u.old;
          listed = inr u.listed;
          passes = u.passes;
          made = made ∙ u.made;
          placed = rw (made, rows) (inr u.placed);
          kept = λ z i. elim i [
            | inl same ↦ inl (rw rows (inl same))
            | inr j ↦ elim (u.kept z j) [ inl k ↦ inl (rw rows (inr k)) | inr same ↦ inr same ]
          ];
          origin = λ z i. elim (subst (In z) rows i) [
            | inl same ↦ inl (inl same)
            | inr j ↦ elim (u.origin z j) [ inl k ↦ inl (inr k) | inr same ↦ inr same ]
          ];
        }
  ]
]

-- Where no row passes, none is changed.
pub update_first-none :
    {A : Type 0} (p : A → Bool) (f : A → A) (xs : List A)
    → ((z : A) → In z xs → p z ≡ false)
    → update_first p f xs ≡ none
unfolding update_first
update_first-none p f [] h = refl
update_first-none p f (x ∷ xs) h =
    let rest = update_first-none p f xs (λ z i. h z (inr i)) in ground (arith, h x (inl refl), rest)

-- Where a row passes, one is changed.
pub update_first-some :
    {A : Type 0} (p : A → Bool) (f : A → A) (a : A) (xs : List A)
    → In a xs
    → p a ≡ true
    → (y : A) × (ys : List A) × (update_first p f xs ≡ some (y, ys))
unfolding update_first
update_first-some p f a [] i h = absurd i
update_first-some p f a (x ∷ xs) (inl e) h =
    let passes : p x ≡ true = subst (λ z. p z ≡ true) e h in (f x, f x ∷ xs, ground (arith, passes))
update_first-some p f a (x ∷ xs) (inr i) h = elim (Bool-cases (p x)) [
  | inl e ↦ (f x, f x ∷ xs, ground (arith, e))
  | inr e ↦
      let (y, ys, found) = update_first-some p f a xs i h in (y, x ∷ ys, ground (arith, e, found))
]

-- The row that a query of a key returns.
unfoldable pub first_row {ℓ} : {A : Type ℓ} → (A → Bool) → List A → Option A
first_row p [] = none
first_row p (x ∷ xs) = let rest = first_row p xs in if p x then some x else rest

-- A row that a query of a key returns is in the table, and passes.
pub first_row-In :
    {A : Type 0} (p : A → Bool) (xs : List A) {a : A}
    → first_row p xs ≡ some a
    → In a xs × (p a ≡ true)
unfolding first_row
first_row-In p [] h = cc
first_row-In p (x ∷ xs) {a} h = elim (Bool-cases (p x)) [
  | inl e ↦ let same : a ≡ x = ground (arith, e) in (inl same, rw same e)
  | inr e ↦ let (i, q) = first_row-In p xs (ground (arith, e)) in (inr i, q)
]
