-- ===== src/Relations/Reach.antt =====
-- Ancestry as a relation, and that the recursive query of `CreateAcyclicEditable` computes it.
use family_tree_app.Prelude.{
  ℕ, zero, suc, ◌<◌, ◌≡◌, sym, inl, inr, Bool, true, false, not, ◌&&◌, List, [], ◌∷◌, ◌++◌, In,
  In-append, any, any-In, any-append, count_if, count_if_strict, flat_map, In-flat_map, select,
  In-select, select-In, In-map, map-In, ap, ◌==◌, &&_left, subst, arith,
}
use family_tree_app.Relations.Domain.{ParentChildRelation}
use family_tree_app.Relations.Store.{
  PersonRow, Database, PathRow, is_active_person, has_active, is_link, leads_on, extend,
  descendants,
}

-- `b` is an active child of `a`: a live relation of the tree leads from `a` to it.
abbrev pub Edge : Database → ℕ → ℕ → ℕ → Type 0
Edge db t a b =
    (r : ParentChildRelation) × In r db.relations
    × (is_link t a r ≡ true)
    × (r.child_person_id ≡ b)
    × (has_active db t b ≡ true)

-- `b` is `a` or a descendant of `a`.
pub data Reach (db : Database) (t a : ℕ) : ℕ → Type 0 where
  here : Reach db t a a
  next : {b c : ℕ} → Reach db t a b → Edge db t b c → Reach db t a c

module _ (db : Database) (t : ℕ) where
  -- What a row of a round adds to the row that it comes from.
  pub record Extends (row row' : PathRow) : Type 0 where
    pub edge : Edge db t row.0 row'.0
    pub longer : row'.1 ≡ row.1 ++ row'.0 ∷ []
    pub fresh : any (λ p. p == row'.0) row.1 ≡ false

  pub extend-Extends : (row row' : PathRow) → In row' (extend db t row) → Extends row row'
  unfolding extend leads_on
  extend-Extends row row' i =
      let (r, selected, made) = In-map row' _ (select (leads_on db t row) db.relations) i in
      let (listed, leads) = In-select r (leads_on db t row) db.relations selected in
      let child : row'.0 ≡ r.child_person_id = ap (λ x. x.0) made in
      record {
        edge = (r, listed, ground arith, sym child, rw child (ground arith));
        longer = rw child (ap (λ x. x.1) made);
        fresh = rw child (ground arith);
      }

  pub extend_complete :
      (row : PathRow) (c : ℕ)
      → Edge db t row.0 c
      → any (λ p. p == c) row.1 ≡ false
      → In (c, row.1 ++ c ∷ []) (extend db t row)
  unfolding extend leads_on
  extend_complete row c (r, listed, link, child, active) fresh =
      subst (λ x. In (x, row.1 ++ x ∷ []) (extend db t row)) child
        (map-In r _ _ (select-In r _ db.relations listed (simp (child, link, active, fresh))))

  -- Every row of the query is reached from where its first rows are.
  pub descendants-Reach :
      (a rounds : ℕ) (rows : List PathRow)
      → ((row : PathRow) → In row rows → Reach db t a row.0)
      → (row : PathRow) → In row (descendants db t rounds rows)
      → Reach db t a row.0
  unfolding descendants
  descendants-Reach a zero rows h row i = absurd i
  descendants-Reach a (suc rounds) rows h row i =
      elim (In-append row rows (descendants db t rounds (flat_map (extend db t) rows)) i) [
        | inl j ↦ h row j
        | inr j ↦ descendants-Reach a rounds (flat_map (extend db t) rows) later row j
      ]
    where
      later : (row' : PathRow) → In row' (flat_map (extend db t) rows) → Reach db t a row'.0
      later row' k =
          let (from, listed, made) = In-flat_map row' (extend db t) rows k in
          next (h from listed) (extend-Extends from row' made).edge

  -- The active persons of the tree that a path has not met.
  abbrev pub is_left : List ℕ → PersonRow → Bool
  is_left path p = is_active_person t p.id p && not (any (λ q. q == p.id) path)

  abbrev pub room : List ℕ → ℕ
  room path = count_if (is_left path) db.persons

  is_left-append :
      (path : List ℕ) (c : ℕ) (p : PersonRow)
      → is_left (path ++ c ∷ []) p ≡ (is_left path p && not (c == p.id))
  unfolding any
  is_left-append path c p = ground (arith, any-append (λ q. q == p.id) path (c ∷ []))

  -- Each round takes at least one person off what is left, so the rounds end.
  pub Extends-room : (row row' : PathRow) → Extends row row' → room row'.1 < room row.1
  unfolding has_active is_active_person
  Extends-room row row' x =
      let (p, listed, active) = any-In (is_active_person t row'.0) db.persons x.edge.4 in
      let c : ℕ = row'.0 in
      let same : p.id ≡ c = ground (arith, active) in
      rw x.longer (
        count_if_strict (is_left (row.1 ++ c ∷ [])) (is_left row.1) p db.persons
          (λ y _ h. &&_left _ _ (rw (is_left-append row.1 c y) at h)) listed
          (rw (is_left-append row.1 c p) (ground arith)) (ground (arith, x.fresh, active, same)))
