-- ===== src/Relations/Acyclic.antt =====
-- The family graph has no cycle: what creates relations keeps it so, and what only takes away does.
use family_tree_app.Prelude.{ℕ, ◌≡◌, sym, ◌⊎◌, inl, inr, Bool, true, false, ◌∷◌, subst, ok, arith}
use native.Mathlib.Decide.{ℕ_discrete}
use family_tree_app.Relations.Domain.{ParentChildRelation}
use family_tree_app.Relations.Store.{Database, Call, is_link, has_active, creates_cycle}
use family_tree_app.Relations.Writes.{inserted_row, create_acyclic_editable}
use family_tree_app.Relations.Reach.{Edge, Reach, here, next}
use family_tree_app.Relations.Cycles.{creates_cycle_iff}

-- In no tree is a person an ancestor of themself.
abbrev pub IsAcyclic : Database → Type 0
IsAcyclic db = (t a b : ℕ) → Edge db t a b → ¬ Reach db t b a

-- Fewer edges make no new ancestry.
pub Reach-mono :
    (db db' : Database) (t a b : ℕ)
    → ((x y : ℕ) → Edge db' t x y → Edge db t x y)
    → Reach db' t a b
    → Reach db t a b
Reach-mono db db' t a b h here = here
Reach-mono db db' t a b h (next {b = m} r e) = next (Reach-mono db db' t a m h r) (h m b e)

pub Reach-trans : (db : Database) (t a b c : ℕ) → Reach db t a b → Reach db t b c → Reach db t a c
Reach-trans db t a b c r here = r
Reach-trans db t a b c r (next {b = m} s e) = next (Reach-trans db t a b m r s) e

pub IsAcyclic-mono :
    (db db' : Database)
    → ((t x y : ℕ) → Edge db' t x y → Edge db t x y)
    → IsAcyclic db
    → IsAcyclic db'
IsAcyclic-mono db db' h acyclic t a b e r =
    acyclic t a b (h t a b e) (Reach-mono db db' t b a (h t) r)

module _ (db db' : Database) (t p c : ℕ)
    (edges : (x y : ℕ) → Edge db' t x y → Edge db t x y ⊎ (x ≡ p) × (y ≡ c)) where
  -- With one more edge, from `p` to `c`, a descent either avoids it, or comes to `p` and goes on from `c`.
  Reach-split : (a b : ℕ) → Reach db' t a b → Reach db t a b ⊎ Reach db t a p × Reach db t c b
  Reach-split a b here = inl here
  Reach-split a b (next {b = m} r e) = elim (Reach-split a m r) [
    | inl old ↦ elim (edges m b e) [
      | inl f ↦ inl (next old f)
      | inr (at_p, at_c) ↦ inr (subst (Reach db t a) at_p old, subst (Reach db t c) (sym at_c) here)
    ]
    | inr (up, down) ↦ elim (edges m b e) [
      | inl f ↦ inr (up, next down f)
      | inr (at_p, at_c) ↦ inr (up, subst (Reach db t c) (sym at_c) here)
    ]
  ]

  -- One more edge closes no cycle where its end does not lead to its start.
  no_new_cycle :
      ¬ Reach db t c p
      → ((a b : ℕ) → Edge db t a b → ¬ Reach db t b a)
      → (a b : ℕ) → Edge db' t a b
      → ¬ Reach db' t b a
  no_new_cycle apart acyclic a b e r = elim (edges a b e) [
    | inl f ↦ elim (Reach-split b a r) [
      | inl old ↦ acyclic a b f old
      | inr (up, down) ↦ apart (Reach-trans db t c b p (next down f) up)
    ]
    | inr (at_p, at_c) ↦ elim (Reach-split b a r) [
      | inl old ↦ apart (subst (Reach db t c) at_p (subst (λ x. Reach db t x a) at_c old))
      | inr (up, down) ↦ apart (subst (λ x. Reach db t x p) at_c up)
    ]
  ]

-- The tables with one more relation.
abbrev with_relation : Database → ParentChildRelation → Database
with_relation db row = record db { relations = row ∷ db.relations }

Edge-with_relation :
    (db : Database) (row : ParentChildRelation) (t x y : ℕ)
    → Edge (with_relation db row) t x y
    → Edge db t x y ⊎ (t ≡ row.tree_id) × (x ≡ row.parent_person_id) × (y ≡ row.child_person_id)
unfolding has_active is_link
Edge-with_relation db row t x y (r, inl e, link, child, active) =
    let link' : is_link t x row ≡ true = subst (λ z. is_link t x z ≡ true) e link in
    let child' : row.child_person_id ≡ y =
      subst (λ (z : ParentChildRelation). z.child_person_id ≡ y) e child in
    inr (ground (arith, link'), ground (arith, link'), sym child')
Edge-with_relation db row t x y (r, inr i, link, child, active) = inl (r, i, link, child, active)

-- A relation from `p` to `c` closes no cycle in a tree where `c` does not lead to `p`.
with_relation-IsAcyclic :
    (db : Database) (row : ParentChildRelation)
    → ¬ Reach db row.tree_id row.child_person_id row.parent_person_id
    → IsAcyclic db
    → IsAcyclic (with_relation db row)
with_relation-IsAcyclic db row apart acyclic t a b e r = elim (ℕ_discrete t row.tree_id) [
  | yes same ↦
      no_new_cycle db (with_relation db row) t row.parent_person_id row.child_person_id
        (λ x y f. elim (Edge-with_relation db row t x y f) [
          | inl old ↦ inl old
          | inr (_, at_p, at_c) ↦ inr (at_p, at_c)
        ])
        (rw same apart) (acyclic t) a b e r
  | no other ↦
      let old : (x y : ℕ) → Edge (with_relation db row) t x y → Edge db t x y = λ x y f.
        elim (Edge-with_relation db row t x y f) [
          | inl g ↦ g
          | inr (same, _, _) ↦ absurd (other same)
        ] in
      acyclic t a b (old a b e) (Reach-mono db (with_relation db row) t b a old r)
]

-- What a creation that commits has tested, and what it has written.
create_acyclic_editable-eq-ok :
    (io : Call → Bool) (actor : ℕ) (relation : ParentChildRelation) (db : Database) {db' : Database}
    → create_acyclic_editable io actor relation db ≡ ok db'
    → (creates_cycle db relation ≡ false) × (db' ≡ with_relation db (inserted_row actor relation))
unfolding create_acyclic_editable
create_acyclic_editable-eq-ok io actor relation db h = ground arith

-- `CreateAcyclicEditable` keeps every tree acyclic.
pub create_acyclic_editable-IsAcyclic :
    (io : Call → Bool) (actor : ℕ) (relation : ParentChildRelation) (db : Database) {db' : Database}
    → IsAcyclic db
    → create_acyclic_editable io actor relation db ≡ ok db'
    → IsAcyclic db'
unfolding inserted_row
create_acyclic_editable-IsAcyclic io actor relation db acyclic h =
    let (passed, written) = create_acyclic_editable-eq-ok io actor relation db h in
    rw written (
      with_relation-IsAcyclic db (inserted_row actor relation)
        (λ r. cc ((creates_cycle_iff db relation).1 r, passed)) acyclic)
