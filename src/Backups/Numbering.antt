-- ===== src/Backups/Numbering.antt =====
-- The search for a cycle in `validateManifestRelations` ends, and visits every person exactly where the
-- persons can be numbered so that every relation leads to a higher number.
use family_tree_app.Prelude.{
  ℕ, zero, suc, ◌+◌, ◌≤◌, ◌<◌, ◌≡◌, refl, sym, ◌∙◌, inl, inr, true, false, List, [], ◌∷◌, ◌==◌,
  ==_refl, if◌then◌else◌, Bool-cases, count_if, any, length, In, arith,
}
use family_tree_app.Backups.Graph.{Edge, occurrences, visit}
use family_tree_app.Backups.Order.{any-listed, length-occurrences}
use family_tree_app.Backups.Kahn.{open_edges, open_edges-none, IsSearch, visit-IsSearch}

-- Whoever has an edge to a person was visited before it.
abbrev pub IsOrdered : List Edge → List ℕ → Type 0
IsOrdered edges [] = Unit
IsOrdered edges (x ∷ xs) =
    ((e : Edge) → In e edges → e.1 ≡ x → any (λ v. v == e.0) xs ≡ true) × IsOrdered edges xs

-- The place of a person among those that were visited.
pub place : List ℕ → ℕ → ℕ
place [] c = 0
place (x ∷ xs) c = let rest = place xs c in if x == c then suc (length xs) else rest

place-le : (xs : List ℕ) (c : ℕ) → place xs c ≤ length xs
unfolding place
place-le [] c = omega arith
place-le (x ∷ xs) c = ground (arith, place-le xs c)

IsOrdered-before :
    (edges : List Edge) (xs : List ℕ) (e : Edge)
    → IsOrdered edges xs
    → In e edges
    → any (λ v. v == e.1) xs ≡ true
    → any (λ v. v == e.0) xs ≡ true
unfolding any
IsOrdered-before edges [] e o i h = cc
IsOrdered-before edges (x ∷ xs) e (first, o) i h = elim (Bool-cases (x == e.1)) [
  | inl q ↦ let before = first e i (ground (arith, q)) in ground (arith, before)
  | inr q ↦
      let before = IsOrdered-before edges xs e o i (ground (arith, q)) in ground (arith, before)
]

-- A person that was visited has a place above those that have an edge to it.
pub place-lt :
    (edges : List Edge) (xs : List ℕ) (e : Edge)
    → IsOrdered edges xs
    → ((c : ℕ) → occurrences c xs ≤ 1)
    → In e edges
    → any (λ v. v == e.1) xs ≡ true
    → place xs e.0 < place xs e.1
unfolding place any occurrences count_if
place-lt edges [] e o d i h = cc
place-lt edges (x ∷ xs) e (first, o) d i h =
    let distinct : (c : ℕ) → occurrences c xs ≤ 1 = λ c. ground (arith, d c) in
    let absent : (c : ℕ) → any (λ v. v == c) xs ≡ true → (x == c) ≡ false = λ c l.
      elim (Bool-cases (x == c)) [
        | inr q ↦ q
        | inl q ↦ absurd (ground (arith, d c, any-listed c xs l, q))
      ] in
    elim (Bool-cases (x == e.1)) [
      | inl q ↦
          let same : e.1 ≡ x = ground (arith, q) in
          let other : (x == e.0) ≡ false = absent e.0 (first e i same) in
          ground (arith, q, other, place-le xs e.0)
      | inr q ↦
          let listed : any (λ v. v == e.1) xs ≡ true = ground (arith, h, q) in
          let other : (x == e.0) ≡ false = absent e.0 (IsOrdered-before edges xs e o i listed) in
          let rest = place-lt edges xs e o distinct i listed in ground (arith, q, other, rest)
    ]

module _ (edges : List Edge) (persons : List ℕ) (distinct : (c : ℕ) → occurrences c persons ≤ 1)
    (known : (e : Edge) → In e edges → any (λ x. x == e.1) persons ≡ true) where
  -- What stands on the stack or was visited is a person, once.
  pub search-le :
      (seen stack : List ℕ) (degrees : ℕ → ℕ)
      → IsSearch edges persons seen stack degrees
      → (c : ℕ) → occurrences c stack + occurrences c seen ≤ occurrences c persons
  search-le seen stack degrees s c = elim (Bool-cases (any (λ x. x == c) persons)) [
    | inl l ↦ ground (arith, s.placed c, any-listed c persons l)
    | inr u ↦ ground (arith, s.placed c, u)
  ]

  search-length :
      (seen stack : List ℕ) (degrees : ℕ → ℕ)
      → IsSearch edges persons seen stack degrees
      → length seen ≤ length persons
  search-length seen stack degrees s =
      length-occurrences seen persons (λ c. omega (arith, search-le seen stack degrees s c))

  degree_zero :
      (seen : List ℕ) (p : ℕ) (stack : List ℕ) (degrees : ℕ → ℕ)
      → IsSearch edges persons seen (p ∷ stack) degrees
      → degrees p ≡ 0
  unfolding occurrences count_if
  degree_zero seen p stack degrees s = ground (arith, s.placed p, ==_refl p)

  -- The loop ends with an empty stack before the fuel does.
  pub visit-ends :
      (fuel : ℕ) (seen stack : List ℕ) (degrees : ℕ → ℕ) (visited : ℕ)
      → IsSearch edges persons seen stack degrees
      → IsOrdered edges seen
      → visited ≡ length seen
      → length persons < fuel + length seen
      → (final : List ℕ) × (last : ℕ → ℕ) × (visit edges fuel degrees stack visited
          ≡ (length final, []))
        × IsSearch edges persons final [] last
        × IsOrdered edges final
  unfolding visit
  visit-ends zero seen stack degrees visited s o v f =
      absurd (omega (arith, f, search-length seen stack degrees s))
  visit-ends (suc fuel) seen [] degrees visited s o v f = (seen, degrees, rw v refl, s, o)
  visit-ends (suc fuel) seen (p ∷ stack) degrees visited s o v f =
      visit-ends fuel (p ∷ seen) _ _ (visited + 1)
        (visit-IsSearch edges persons seen stack degrees p known s) (λ e i same. before e i same, o)
        (omega (arith, v)) (omega (arith, f))
    where
      before : (e : Edge) → In e edges → e.1 ≡ p → any (λ v. v == e.0) seen ≡ true
      before e i same =
          let closed : degrees p ≡ 0 = degree_zero seen p stack degrees s in
          let none_open : open_edges edges seen e.1 ≡ 0 =
            rw same (sym (s.open_degrees p) ∙ closed) in
          open_edges-none edges seen e none_open i
