-- ===== src/Backups/Order.antt =====
-- Counting the numbers of a list: a list that has no number more often than another is not longer.
use family_tree_app.Prelude.{
  ℕ, suc, ◌+◌, ◌≤◌, ◌≡◌, refl, ap, subst, inl, inr, Bool, true, false, List, [], ◌∷◌, ◌++◌, ltb,
  ◌==◌, ==_refl, if◌then◌else◌, Bool-cases, count_if, select, any, length, In, arith,
}
use family_tree_app.Backups.Graph.{occurrences}

pub occurrences-listed : (c : ℕ) (xs : List ℕ) → In c xs → 1 ≤ occurrences c xs
unfolding occurrences count_if
occurrences-listed c [] i = absurd i
occurrences-listed c (x ∷ xs) (inl e) = ground (arith, e)
occurrences-listed c (x ∷ xs) (inr i) = ground (arith, occurrences-listed c xs i)

pub occurrences-In : (c : ℕ) (xs : List ℕ) → 1 ≤ occurrences c xs → In c xs
unfolding occurrences count_if
occurrences-In c [] h = absurd (omega (arith, h))
occurrences-In c (x ∷ xs) h = elim (Bool-cases (x == c)) [
  | inl e ↦ inl (ground (arith, e))
  | inr e ↦ inr (occurrences-In c xs (ground (arith, e, h)))
]

pub occurrences-append :
    (c : ℕ) (xs ys : List ℕ) → occurrences c (xs ++ ys) ≡ occurrences c xs + occurrences c ys
unfolding occurrences count_if
occurrences-append c [] ys = omega arith
occurrences-append c (x ∷ xs) ys = ground (arith, occurrences-append c xs ys)

pub occurrences-any : (c : ℕ) (xs : List ℕ) → (any (λ x. x == c) xs ≡ false) → occurrences c xs ≡ 0
unfolding occurrences count_if any
occurrences-any c [] h = refl
occurrences-any c (x ∷ xs) h = ground (arith, occurrences-any c xs)

pub any-occurrences : (c : ℕ) (xs : List ℕ) → occurrences c xs ≡ 0 → any (λ x. x == c) xs ≡ false
unfolding occurrences count_if any
any-occurrences c [] h = refl
any-occurrences c (x ∷ xs) h = ground (arith, any-occurrences c xs)

pub occurrences-select :
    (p : ℕ → Bool) (c : ℕ) (xs : List ℕ)
    → occurrences c (select p xs) ≡ (if p c then occurrences c xs else 0)
unfolding occurrences count_if select
occurrences-select p c [] = ground arith
occurrences-select p c (x ∷ xs) = elim (Bool-cases (x == c)) [
  | inl e ↦
      let same : x ≡ c = ground (arith, e) in
      let tests : p x ≡ p c = ap p same in ground (arith, e, tests, occurrences-select p c xs)
  | inr e ↦ ground (arith, e, occurrences-select p c xs)
]

-- A number that stands in the list may be moved to its head.
to_head :
    (x : ℕ) (ys : List ℕ)
    → 1 ≤ occurrences x ys
    → (zs : List ℕ) × (length ys ≡ suc (length zs))
      × ((c : ℕ) → occurrences c ys ≡ occurrences c (x ∷ zs))
unfolding occurrences count_if
to_head x [] h = absurd (omega (arith, h))
to_head x (y ∷ ys) h = elim (Bool-cases (y == x)) [
  | inl e ↦ let same : y ≡ x = ground (arith, e) in (ys, refl, λ c. ground (arith, same))
  | inr e ↦
      let (zs, longer, same) = to_head x ys (ground (arith, e, h)) in
      (y ∷ zs, omega (arith, longer), λ c. ground (arith, same c))
]

pub length-occurrences :
    (xs ys : List ℕ) → ((c : ℕ) → occurrences c xs ≤ occurrences c ys) → length xs ≤ length ys
unfolding occurrences count_if
length-occurrences [] ys h = omega arith
length-occurrences (x ∷ xs) ys h =
    let here : 1 ≤ occurrences x ys = ground (arith, h x) in
    let (zs, longer, same) = to_head x ys here in
    let rest = length-occurrences xs zs (λ c. ground (arith, h c, same c)) in
    omega (arith, longer, rest)

-- A list that is not longer than one that has no number less often has the same numbers.
pub occurrences-same :
    (xs ys : List ℕ)
    → ((c : ℕ) → occurrences c xs ≤ occurrences c ys)
    → length xs ≡ length ys
    → (c : ℕ) → occurrences c xs ≡ occurrences c ys
unfolding occurrences count_if
occurrences-same xs ys h n c = elim (Bool-cases (ltb (occurrences c xs) (occurrences c ys))) [
  | inr e ↦ ground (arith, e, h c)
  | inl e ↦
      let more = length-occurrences (c ∷ xs) ys (λ d. elim (Bool-cases (c == d)) [
        | inl q ↦
            let same : c ≡ d = ground (arith, q) in
            let at_c : occurrences c (c ∷ xs) ≤ occurrences c ys = ground (arith, e, ==_refl c) in
            subst (λ n. occurrences n (c ∷ xs) ≤ occurrences n ys) same at_c
        | inr q ↦ ground (arith, q, h d)
      ]) in
      absurd (omega (arith, more, n))
]

pub any-listed : (c : ℕ) (xs : List ℕ) → any (λ x. x == c) xs ≡ true → 1 ≤ occurrences c xs
unfolding occurrences count_if any
any-listed c [] h = cc
any-listed c (x ∷ xs) h = ground (arith, any-listed c xs)

pub listed-any : (c : ℕ) (xs : List ℕ) → 1 ≤ occurrences c xs → any (λ x. x == c) xs ≡ true
unfolding occurrences count_if any
listed-any c [] h = absurd (omega (arith, h))
listed-any c (x ∷ xs) h = ground (arith, listed-any c xs)
