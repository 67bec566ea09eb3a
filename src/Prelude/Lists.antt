-- ===== src/Prelude/Lists.antt =====
-- Lists measured by native numbers, and membership as a predicate by recursion.
use Prim.Native.Nat.{ℕ, zero, suc, ◌+◌, ◌≤◌, ◌<◌}
use mathlib.Core.Path.{◌≡◌, refl, ap, subst}
use mathlib.Core.Logic.{◌⊎◌, inl, inr}
use mathlib.Core.Bool.{Bool, true, false, ◌||◌}
use mathlib.Core.List.{List, [], ◌∷◌, ◌++◌, map}
use native.Mathlib.Omega.{arith}
use family_tree_app.Prelude.Tests.{if◌then◌else◌, Bool-cases}

module _ {ℓ} {A : Type ℓ} where
  abbrev pub length : List A → ℕ
  length [] = 0
  length (x ∷ xs) = suc (length xs)

  pub length-append : (xs ys : List A) → length (xs ++ ys) ≡ length xs + length ys
  length-append [] ys = omega arith
  length-append (x ∷ xs) ys = omega (arith, length-append xs ys)

  abbrev pub All {κ} : (A → Type κ) → List A → Type κ
  All P [] = Unit
  All P (x ∷ xs) = P x × All P xs

  abbrev pub take : ℕ → List A → List A
  take zero xs = []
  take (suc n) [] = []
  take (suc n) (x ∷ xs) = x ∷ take n xs

  pub length-take-le : (n : ℕ) (xs : List A) → length (take n xs) ≤ n
  length-take-le zero xs = omega arith
  length-take-le (suc n) [] = omega arith
  length-take-le (suc n) (x ∷ xs) = omega (arith, length-take-le n xs)

  unfoldable pub any : (A → Bool) → List A → Bool
  any p [] = false
  any p (x ∷ xs) = p x || any p xs

  -- `SELECT count(*) … WHERE p`.
  unfoldable pub count_if : (A → Bool) → List A → ℕ
  count_if p [] = 0
  count_if p (x ∷ xs) = let n = count_if p xs in if p x then suc n else n

  unfoldable pub select : (A → Bool) → List A → List A
  select p [] = []
  select p (x ∷ xs) = let rest = select p xs in if p x then x ∷ rest else rest

module _ {ℓ} {A : Type ℓ} where
  pub any-append : (p : A → Bool) (xs ys : List A) → any p (xs ++ ys) ≡ (any p xs || any p ys)
  unfolding any
  any-append p [] ys = refl
  any-append p (x ∷ xs) ys = ground (arith, any-append p xs ys)

  pub count_if-le-length : (p : A → Bool) (xs : List A) → count_if p xs ≤ length xs
  unfolding count_if
  count_if-le-length p [] = omega arith
  count_if-le-length p (x ∷ xs) = ground (arith, count_if-le-length p xs)

module _ {A : Type 0} where
  -- `a` stands in the list.
  abbrev pub In : A → List A → Type 0
  In a [] = ⊥
  In a (x ∷ xs) = (a ≡ x) ⊎ In a xs

  pub In-append_left : (a : A) (xs ys : List A) → In a xs → In a (xs ++ ys)
  In-append_left a [] ys h = absurd h
  In-append_left a (x ∷ xs) ys (inl e) = inl e
  In-append_left a (x ∷ xs) ys (inr h) = inr (In-append_left a xs ys h)

  pub In-append_right : (a : A) (xs ys : List A) → In a ys → In a (xs ++ ys)
  In-append_right a [] ys h = h
  In-append_right a (x ∷ xs) ys h = inr (In-append_right a xs ys h)

  pub In-append : (a : A) (xs ys : List A) → In a (xs ++ ys) → In a xs ⊎ In a ys
  In-append a [] ys h = inr h
  In-append a (x ∷ xs) ys (inl e) = inl (inl e)
  In-append a (x ∷ xs) ys (inr h) = elim (In-append a xs ys h) [
    | inl l ↦ inl (inr l)
    | inr r ↦ inr r
  ]

  pub In-select : (a : A) (p : A → Bool) (xs : List A) → In a (select p xs) → In a xs × (p a ≡ true)
  unfolding select
  In-select a p [] h = absurd h
  In-select a p (x ∷ xs) h = elim (Bool-cases (p x)) [
    | inl e ↦ elim (rw e at h) [
      | inl q ↦ (inl q, rw q e)
      | inr i ↦ let (j, q) = In-select a p xs i in (inr j, q)
    ]
    | inr e ↦ let (j, q) = In-select a p xs (rw e at h) in (inr j, q)
  ]

  pub select-In : (a : A) (p : A → Bool) (xs : List A) → In a xs → p a ≡ true → In a (select p xs)
  unfolding select
  select-In a p [] h e = h
  select-In a p (x ∷ xs) (inl h) e = rw (← h) (rw e (inl refl))
  select-In a p (x ∷ xs) (inr h) e = elim (Bool-cases (p x)) [
    | inl q ↦ rw q (inr (select-In a p xs h e))
    | inr q ↦ rw q (select-In a p xs h e)
  ]

  pub any-In : (p : A → Bool) (xs : List A) → any p xs ≡ true → (a : A) × In a xs × (p a ≡ true)
  unfolding any
  any-In p [] h = cc
  any-In p (x ∷ xs) h = elim (Bool-cases (p x)) [
    | inl e ↦ (x, inl refl, e)
    | inr e ↦ let (a, i, q) = any-In p xs (ground arith) in (a, inr i, q)
  ]

  pub In-any : (a : A) (p : A → Bool) (xs : List A) → In a xs → p a ≡ true → any p xs ≡ true
  unfolding any
  In-any a p [] h e = absurd h
  In-any a p (x ∷ xs) (inl h) e = ground arith
  In-any a p (x ∷ xs) (inr h) e = ground (arith, In-any a p xs h e)

module _ {A : Type 0} (p q : A → Bool) where
  -- A stronger test counts no more.
  pub count_if_mono :
      (xs : List A) → ((x : A) → In x xs → p x ≡ true → q x ≡ true) → count_if p xs ≤ count_if q xs
  unfolding count_if
  count_if_mono [] h = omega arith
  count_if_mono (x ∷ xs) h =
      let rest = count_if_mono xs (λ y i. h y (inr i)) in
      let here = h x (inl refl) in
      elim (Bool-cases (p x)) [
        | inl e ↦ rw e (rw (here e) (omega (arith, rest)))
        | inr e ↦ ground (arith, rest)
      ]

  -- It counts fewer where some element passes the weaker test alone.
  pub count_if_strict :
      (a : A) (xs : List A)
      → ((x : A) → In x xs → p x ≡ true → q x ≡ true)
      → In a xs
      → p a ≡ false
      → q a ≡ true
      → count_if p xs < count_if q xs
  unfolding count_if
  count_if_strict a [] h i f t = absurd i
  count_if_strict a (x ∷ xs) h (inl e) f t =
      let rest = count_if_mono xs (λ y i. h y (inr i)) in rw (← e) (rw (f, t) (omega (arith, rest)))
  count_if_strict a (x ∷ xs) h (inr i) f t =
      let rest = count_if_strict a xs (λ y j. h y (inr j)) i f t in
      let here = h x (inl refl) in
      elim (Bool-cases (p x)) [
        | inl e ↦ rw e (rw (here e) (omega (arith, rest)))
        | inr e ↦ ground (arith, rest)
      ]

module _ {A B : Type 0} where
  unfoldable pub flat_map : (A → List B) → List A → List B
  flat_map f [] = []
  flat_map f (x ∷ xs) = f x ++ flat_map f xs

  pub In-flat_map :
      (b : B) (f : A → List B) (xs : List A) → In b (flat_map f xs) → (a : A) × In a xs × In b (f a)
  unfolding flat_map
  In-flat_map b f [] h = absurd h
  In-flat_map b f (x ∷ xs) h = elim (In-append b (f x) (flat_map f xs) h) [
    | inl l ↦ (x, inl refl, l)
    | inr r ↦ let (a, i, q) = In-flat_map b f xs r in (a, inr i, q)
  ]

  pub flat_map-In :
      (a : A) (b : B) (f : A → List B) (xs : List A) → In a xs → In b (f a) → In b (flat_map f xs)
  unfolding flat_map
  flat_map-In a b f [] h i = absurd h
  flat_map-In a b f (x ∷ xs) (inl h) i = In-append_left b (f x) _ (subst (λ y. In b (f y)) h i)
  flat_map-In a b f (x ∷ xs) (inr h) i = In-append_right b (f x) _ (flat_map-In a b f xs h i)

  pub In-map : (b : B) (f : A → B) (xs : List A) → In b (map f xs) → (a : A) × In a xs × (b ≡ f a)
  In-map b f [] h = absurd h
  In-map b f (x ∷ xs) (inl e) = (x, inl refl, e)
  In-map b f (x ∷ xs) (inr h) = let (a, i, e) = In-map b f xs h in (a, inr i, e)

  pub map-In : (a : A) (f : A → B) (xs : List A) → In a xs → In (f a) (map f xs)
  map-In a f [] h = absurd h
  map-In a f (x ∷ xs) (inl e) = inl (ap f e)
  map-In a f (x ∷ xs) (inr h) = inr (map-In a f xs h)

  pub length-map : (f : A → B) (xs : List A) → length (map f xs) ≡ length xs
  length-map f [] = refl
  length-map f (x ∷ xs) = omega (arith, length-map f xs)

  pub any-map : (p : B → Bool) (f : A → B) (xs : List A) → any p (map f xs) ≡ any (λ x. p (f x)) xs
  unfolding any
  any-map p f [] = refl
  any-map p f (x ∷ xs) = ground (arith, any-map p f xs)
