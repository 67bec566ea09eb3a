-- ===== src/Relations/Cycles.antt =====
-- The cycle test of `CreateAcyclicEditable` decides ancestry: the recursive query finds every
-- descendant within the rounds that it is given, and no one else.
use family_tree_app.Prelude.{
  ℕ, zero, suc, ◌<◌, ◌≡◌, refl, sym, ◌↔◌, ◌⊎◌, inl, inr, true, false, List, [], ◌∷◌, ◌++◌, length,
  In, In-append, In-append_left, In-append_right, any, any-In, In-any, any-append,
  count_if-le-length, flat_map, In-flat_map, flat_map-In, ◌==◌, ==_iff, Bool-cases, subst, arith,
}
use family_tree_app.Relations.Domain.{ParentChildRelation}
use family_tree_app.Relations.Store.{Database, PathRow, extend, descendants, creates_cycle}
use family_tree_app.Relations.Reach.{
  Edge, Reach, here, next, Extends, extend-Extends, extend_complete, descendants-Reach, room,
  is_left, Extends-room,
}

met-last :
    (path : List ℕ) (c p : ℕ)
    → any (λ q. q == p) (path ++ c ∷ []) ≡ true
    → any (λ q. q == p) path ≡ false
    → p ≡ c
unfolding any
met-last path c p met new = ground (arith, any-append (λ q. q == p) path (c ∷ []))

module _ (db : Database) (t : ℕ) where
  -- The paths of the rows lie within `Q` and the rows' own persons.
  abbrev Covered : (ℕ → Type 0) → List PathRow → Type 0
  Covered Q rows =
      (row : PathRow) → In row rows → (p : ℕ) → any (λ q. q == p) row.1 ≡ true → Q p ⊎ (p ≡ row.0)

  -- The rounds left are more than the persons that each row's path has not met.
  abbrev Fits : ℕ → List PathRow → Type 0
  Fits rounds rows = (row : PathRow) → In row rows → room db t row.1 < rounds

  abbrev Found : List PathRow → ℕ → Type 0
  Found rows c = (row : PathRow) × In row rows × (row.0 ≡ c)

  module _ (Q : ℕ → Type 0) (rounds : ℕ) (rows : List PathRow) (covered : Covered Q rows)
      (fits : Fits (suc rounds) rows) where
    -- What the rounds before have found, once these rows belong to them.
    abbrev Earlier : ℕ → Type 0
    Earlier p = Q p ⊎ Found rows p

    later-Fits : Fits rounds (flat_map (extend db t) rows)
    later-Fits row' i =
        let (row, listed, made) = In-flat_map row' (extend db t) rows i in
        omega
          (arith, Extends-room db t row row' (extend-Extends db t row row' made), fits row listed)

    later-Covered : Covered Earlier (flat_map (extend db t) rows)
    later-Covered row' i p met =
        let (row, listed, made) = In-flat_map row' (extend db t) rows i in
        let x : Extends db t row row' = extend-Extends db t row row' made in
        elim (Bool-cases (any (λ q. q == p) row.1)) [
          | inl old ↦ elim (covered row listed p old) [
            | inl q ↦ inl (inl q)
            | inr e ↦ inl (inr (row, listed, sym e))
          ]
          | inr new ↦ inr (met-last row.1 row'.0 p (rw x.longer at met) new)
        ]

  first_round :
      (rounds : ℕ) (rows : List PathRow) (row : PathRow)
      → Fits rounds rows
      → In row rows
      → In row (descendants db t rounds rows)
  unfolding descendants
  first_round zero rows row fits i = absurd (omega (arith, fits row i))
  first_round (suc rounds) rows row fits i = In-append_left row rows _ i

  -- What the rows lead to is a row too, or was met before them.
  closed :
      (Q : ℕ → Type 0) (rounds : ℕ) (rows : List PathRow)
      → Covered Q rows
      → Fits rounds rows
      → (row : PathRow) (c : ℕ) → In row (descendants db t rounds rows)
      → Edge db t row.0 c
      → Found (descendants db t rounds rows) c ⊎ Q c
  unfolding descendants
  closed Q zero rows covered fits row c i e = absurd i
  closed Q (suc rounds) rows covered fits row c i e =
      let L : List PathRow = flat_map (extend db t) rows in
      let D : List PathRow = descendants db t rounds L in
      let fits' : Fits rounds L = later-Fits Q rounds rows covered fits in
      elim (In-append row rows D i) [
        | inl j ↦ elim (Bool-cases (any (λ q. q == c) row.1)) [
          | inl met ↦ elim (covered row j c met) [
            | inl q ↦ inr q
            | inr same ↦ inl (row, In-append_left row rows D j, sym same)
          ]
          | inr new ↦
              let row' : PathRow = (c, row.1 ++ c ∷ []) in
              let made : In row' L =
                flat_map-In row row' (extend db t) rows j (extend_complete db t row c e new) in
              inl (row', In-append_right row' rows D (first_round rounds L row' fits' made), refl)
        ]
        | inr j ↦
            elim (closed (Earlier Q rounds rows covered fits) rounds L
              (later-Covered Q rounds rows covered fits) fits' row c j e) [
                | inl (r, k, same) ↦ inl (r, In-append_right r rows D k, same)
                | inr (inl q) ↦ inr q
                | inr (inr (r, k, same)) ↦ inl (r, In-append_left r rows D k, same)
              ]
      ]

  module _ (a : ℕ) where
    abbrev start : List PathRow
    start = (a, a ∷ []) ∷ []

    abbrev rounds_given : ℕ
    rounds_given = suc (length db.persons)

    start-Covered : Covered (λ _. ⊥) start
    unfolding any
    start-Covered row (inl e) p met =
        let met' : any (λ q. q == p) (a ∷ []) ≡ true =
          subst (λ (r : PathRow). any (λ q. q == p) r.1 ≡ true) e met in
        inr (rw e (ground (arith, met')))
    start-Covered row (inr i) p met = absurd i

    start-Fits : Fits rounds_given start
    start-Fits row i = omega (arith, count_if-le-length (is_left db t row.1) db.persons)

    start-Reach : (row : PathRow) → In row start → Reach db t a row.0
    start-Reach row (inl e) = subst (λ (r : PathRow). Reach db t a r.0) (sym e) here
    start-Reach row (inr i) = absurd i

    Reach-Found : (b : ℕ) → Reach db t a b → Found (descendants db t rounds_given start) b
    unfolding descendants
    Reach-Found b here = ((a, a ∷ []), inl refl, refl)
    Reach-Found b (next {b = m} r e) =
        let (row, i, same) = Reach-Found m r in
        elim (closed (λ _. ⊥) rounds_given start start-Covered start-Fits row b i (rw same e)) [
          | inl found ↦ found
          | inr no_one ↦ absurd no_one
        ]

-- The cycle test passes exactly when the new parent is the new child or one of its descendants
-- along live relations of the tree between active persons.
pub creates_cycle_iff :
    (db : Database) (r : ParentChildRelation)
    → (creates_cycle db r ≡ true) ↔ Reach db r.tree_id r.child_person_id r.parent_person_id
unfolding creates_cycle
creates_cycle_iff db r = (sound, complete)
  where
    sound : creates_cycle db r ≡ true → Reach db r.tree_id r.child_person_id r.parent_person_id
    sound h =
        let (row, i, e) = any-In (λ (row : PathRow). row.0 == r.parent_person_id) _ h in
        subst (Reach db r.tree_id r.child_person_id) ((==_iff _ _).0 e) (
          descendants-Reach db r.tree_id r.child_person_id (suc (length db.persons))
            (start db r.tree_id r.child_person_id) (start-Reach db r.tree_id r.child_person_id) row
            i)

    complete : Reach db r.tree_id r.child_person_id r.parent_person_id → creates_cycle db r ≡ true
    complete reach =
        let (row, i, e) = Reach-Found db r.tree_id r.child_person_id r.parent_person_id reach in
        In-any row (λ (row : PathRow). row.0 == r.parent_person_id) _ i ((==_iff _ _).1 e)
