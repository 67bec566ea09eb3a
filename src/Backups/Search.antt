-- ===== src/Backups/Search.antt =====
-- What the search for a cycle tells: it visits every person exactly where the persons can be numbered so
-- that every relation leads to a higher number.
use family_tree_app.Prelude.{
  ℕ, zero, suc, ◌≤◌, ◌<◌, ◌≡◌, ◌↔◌, refl, ap, sym, ◌∙◌, inl, inr, true, List, [], leb, ◌==◌,
  Bool-cases, count_if, select, any, length, In, arith,
}
use family_tree_app.Backups.Graph.{Edge, occurrences, indegree, visited_persons}
use family_tree_app.Backups.Order.{
  occurrences-any, any-listed, listed-any, occurrences-select, length-occurrences, occurrences-same,
}
use family_tree_app.Backups.Kahn.{open_edges, indegree-eq-open_edges, open_edges-closed, IsSearch}
use family_tree_app.Backups.Numbering.{IsOrdered, place, place-lt, search-le, visit-ends}

-- A numbering of the persons that every edge raises: there is no cycle.
pub record IsNumbering (edges : List Edge) (rank : ℕ → ℕ) : Type 0 where
  pub rises : (e : Edge) → In e edges → rank e.0 < rank e.1

module _ (edges : List Edge) (persons order : List ℕ)
    (distinct : (c : ℕ) → occurrences c persons ≤ 1)
    (reordered : (c : ℕ) → occurrences c order ≡ occurrences c persons)
    (parents : (e : Edge) → In e edges → any (λ x. x == e.0) persons ≡ true)
    (known : (e : Edge) → In e edges → any (λ x. x == e.1) persons ≡ true) where
  start-IsSearch :
      IsSearch edges persons [] (select (λ p. indegree edges p == 0) order) (indegree edges)
  unfolding occurrences count_if
  start-IsSearch = record {
    open_degrees = λ c. indegree-eq-open_edges edges c;
    placed = λ c.
        let chosen = occurrences-select (λ p. indegree edges p == 0) c order in
        let same = reordered c in
        elim (Bool-cases (any (λ x. x == c) persons)) [
          | inl l ↦
              let one : occurrences c persons ≡ 1 =
                ground (arith, distinct c, any-listed c persons l) in
              ground (arith, chosen, same, one, l)
          | inr u ↦
              let nowhere : occurrences c persons ≡ 0 =
                elim (Bool-cases (leb 1 (occurrences c persons))) [
                  | inr q ↦ ground (arith, q)
                  | inl q ↦
                      let l = listed-any c persons (ground (arith, q)) in
                      absurd (ground (arith, u, l))
                ] in
              ground (arith, chosen, same, nowhere, u)
        ];
  }

  pub persons_visited :
      (final : List ℕ) × (last : ℕ → ℕ) × (visited_persons edges (length persons) order
        ≡ (length final, []))
      × IsSearch edges persons final [] last
      × IsOrdered edges final
  unfolding visited_persons
  persons_visited =
      visit-ends edges persons distinct known (suc (length persons)) [] _ (indegree edges) 0
        start-IsSearch tt refl (omega arith)

  -- The search ends: a round for each person and one more leave nothing on the stack. The persons are distinct, the order has
  -- the same persons, and the relations are between persons.
  pub visited_persons-ends : (visited_persons edges (length persons) order).1 ≡ []
  visited_persons-ends =
      let (final, last, run, _, _) = persons_visited in ap (λ (r : ℕ × List ℕ). r.1) run

  -- Everyone whose number is small was visited, and so everyone.
  all-visited :
      (rank : ℕ → ℕ) (final : List ℕ) (last : ℕ → ℕ)
      → IsNumbering edges rank
      → IsSearch edges persons final [] last
      → (bound c : ℕ) → rank c < bound
      → any (λ x. x == c) persons ≡ true
      → any (λ x. x == c) final ≡ true
  unfolding occurrences count_if
  all-visited rank final last n s zero c r l = absurd (omega (arith, r))
  all-visited rank final last n s (suc bound) c r l =
      let closed : open_edges edges final c ≡ 0 = open_edges-closed edges final c (λ e i same.
        let lower : rank e.0 < bound = omega (arith, r, n.rises e i, ap rank same) in
        all-visited rank final last n s bound e.0 lower (parents e i)) in
      listed-any c final (ground (arith, s.placed c, s.open_degrees c, closed, l))

  -- The search visits every person, and leaves nothing on its stack, exactly where there is a numbering that every relation
  -- raises. The persons are distinct, the order has the same persons, and the relations are between persons.
  pub search_iff :
      (visited_persons edges (length persons) order ≡ (length persons, []))
      ↔ ((rank : ℕ → ℕ) × IsNumbering edges rank)
  search_iff = (found, complete)
    where
      found :
          visited_persons edges (length persons) order ≡ (length persons, [])
          → (rank : ℕ → ℕ) × IsNumbering edges rank
      found h =
          let (final, last, run, s, o) = persons_visited in
          let full : length final ≡ length persons = ap (λ (r : ℕ × List ℕ). r.0) (sym run ∙ h) in
          let le : (c : ℕ) → occurrences c final ≤ occurrences c persons =
            λ c. omega (arith, search-le edges persons distinct known final [] last s c) in
          let same = occurrences-same final persons le full in
          (
            place final,
            record {
              rises = λ e i.
                  place-lt edges final e o (λ c. omega (arith, le c, distinct c)) i
                    (listed-any e.1 final
                      (omega (arith, same e.1, any-listed e.1 persons (known e i))));
            },
          )

      complete :
          ((rank : ℕ → ℕ) × IsNumbering edges rank)
          → visited_persons edges (length persons) order ≡ (length persons, [])
      complete (rank, n) =
          let (final, last, run, s, o) = persons_visited in
          let le : (c : ℕ) → occurrences c final ≤ occurrences c persons =
            λ c. omega (arith, search-le edges persons distinct known final [] last s c) in
          let ge : (c : ℕ) → occurrences c persons ≤ occurrences c final = λ c.
            elim (Bool-cases (any (λ x. x == c) persons)) [
              | inl l ↦
                  let seen = all-visited rank final last n s (suc (rank c)) c (omega arith) l in
                  omega (arith, any-listed c final seen, distinct c)
              | inr u ↦ omega (arith, occurrences-any c persons u)
            ] in
          let full : length final ≡ length persons =
            omega
              (arith, length-occurrences final persons le, length-occurrences persons final ge) in
          let pair : ℕ → ℕ × List ℕ = λ n. (n, []) in run ∙ ap pair full
