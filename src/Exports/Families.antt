-- ===== src/Exports/Families.antt =====
-- How internal/features/exports/gedcom/gedcom.go spreads persons over families of at most two partners.
use family_tree_app.Prelude.{
  ℕ, ◌≤◌, ◌≡◌, inl, inr, refl, ap, Option, none, some, List, [], ◌∷◌, map, length, All, flat_map,
  In, map-In, arith,
}

-- `parentChunks`.
unfoldable pub parent_chunks : List ℕ → List (List ℕ)
parent_chunks [] = []
parent_chunks (a ∷ []) = (a ∷ []) ∷ []
parent_chunks (a ∷ b ∷ rest) = (a ∷ b ∷ []) ∷ parent_chunks rest

-- `partnerPairs`, of a list that is not empty: of none, `make` would panic on a negative capacity.
unfoldable pub partner_pairs : List ℕ → Option (List (List ℕ))
partner_pairs [] = none
partner_pairs (a ∷ []) = some ((a ∷ []) ∷ [])
partner_pairs (a ∷ b ∷ rest) = some (map (λ p. a ∷ p ∷ []) (b ∷ rest))

abbrev pub IsCouple : List ℕ → Type 0
IsCouple ids = (1 ≤ length ids) × (length ids ≤ 2)

-- The chunks have one or two parents each and hold the parents in their order, each once.
pub parent_chunks_lem :
    (ids : List ℕ)
    → All IsCouple (parent_chunks ids) × (flat_map (λ chunk. chunk) (parent_chunks ids) ≡ ids)
unfolding parent_chunks flat_map
parent_chunks_lem [] = (tt, refl)
parent_chunks_lem (a ∷ []) = (((omega arith, omega arith), tt), refl)
parent_chunks_lem (a ∷ b ∷ rest) =
    let (couples, whole) = parent_chunks_lem rest in
    (((omega arith, omega arith), couples), ap (λ z. a ∷ b ∷ z) whole)

All-pairs :
    (a : ℕ) (xs : List ℕ) → All (λ pair. IsCouple pair × In a pair) (map (λ p. a ∷ p ∷ []) xs)
All-pairs a [] = tt
All-pairs a (x ∷ xs) = (((omega arith, omega arith), inl refl), All-pairs a xs)

-- A person that a family has.
abbrev pub Covers : List (List ℕ) → ℕ → Type 0
Covers families p = (family : List ℕ) × In family families × In p family

Covers-pairs : (a : ℕ) (xs : List ℕ) (p : ℕ) → In p xs → Covers (map (λ q. a ∷ q ∷ []) xs) p
Covers-pairs a xs p i = (a ∷ p ∷ [], map-In p (λ q. a ∷ q ∷ []) xs i, inr (inl refl))

-- The members of a union become families of one or two partners: the first member is in each, and every
-- member is in some.
pub partner_pairs_lem :
    (a : ℕ) (rest : List ℕ)
    → (pairs : List (List ℕ)) × (partner_pairs (a ∷ rest) ≡ some pairs)
      × All (λ pair. IsCouple pair × In a pair) pairs
      × ((p : ℕ) → In p (a ∷ rest) → Covers pairs p)
unfolding partner_pairs
partner_pairs_lem a [] = (
  (a ∷ []) ∷ [],
  refl,
  (((omega arith, omega arith), inl refl), tt),
  λ p i. (a ∷ [], inl refl, i),
)
partner_pairs_lem a (b ∷ rest) = (
  map (λ p. a ∷ p ∷ []) (b ∷ rest),
  refl,
  All-pairs a (b ∷ rest),
  λ p i. elim i [ inl e ↦ (a ∷ b ∷ [], inl refl, inl e) | inr j ↦ Covers-pairs a (b ∷ rest) p j ],
)
