-- ===== src/Relations/History.antt =====
-- Histories of the relation store: every operation that the repositories offer keeps the family graph
-- acyclic, but the restoration of a person.
use family_tree_app.Prelude.{
  ℕ, ◌≡◌, ◌≢◌, refl, inl, inr, Bool, true, ◌∷◌, In, any, any-In, In-any, Updated, subst, ap, ok,
  arith,
}
use family_tree_app.Relations.Domain.{ParentChildRelation}
use family_tree_app.Relations.Store.{
  PersonRow, Database, AuditMutation, Call, is_active_person, has_active, is_link,
}
use family_tree_app.Relations.Writes.{
  is_mutable_person, mutated_person, updated_row, deleted_row, update_editable,
  soft_delete_editable, mutate_deletion, create_acyclic_editable, is_updatable,
}
use family_tree_app.Relations.Reach.{Edge}
use family_tree_app.Relations.Acyclic.{IsAcyclic, IsAcyclic-mono, create_acyclic_editable-IsAcyclic}
use family_tree_app.Relations.Lifecycle.{
  Edge-of_links, Edge-of_Updated, update_editable-Updated, soft_delete_editable-Updated,
  mutate_deletion-Updated,
}

update_editable-IsAcyclic :
    (io : Call → Bool) (actor : ℕ) (relation : ParentChildRelation) (db : Database) {db' : Database}
    → IsAcyclic db
    → update_editable io actor relation db ≡ ok db'
    → IsAcyclic db'
unfolding updated_row is_link
update_editable-IsAcyclic io actor relation db {db'} acyclic h =
    let (e, (y, u)) = update_editable-Updated io actor relation db h in
    IsAcyclic-mono db db'
      (λ t.
        Edge-of_Updated db db' t (is_updatable db relation) (updated_row relation) u
          (λ x r link. link) (λ r. refl) (ap (λ (d : Database). d.persons) e))
      acyclic

soft_delete_editable-IsAcyclic :
    (io : Call → Bool) (mutation : AuditMutation) (db : Database) {db' : Database}
    → IsAcyclic db
    → soft_delete_editable io mutation db ≡ ok db'
    → IsAcyclic db'
unfolding deleted_row is_link
soft_delete_editable-IsAcyclic io mutation db {db'} acyclic h =
    let (y, u, e) = soft_delete_editable-Updated io mutation db h in
    IsAcyclic-mono db db'
      (λ t.
        Edge-of_Updated db db' t _ (deleted_row mutation) u (λ x r link. ground (arith, link))
          (λ r. refl) (ap (λ (d : Database). d.persons) e))
      acyclic

-- A deletion makes no person active.
has_active_after_deletion :
    (mutation : AuditMutation) (db db' : Database) (y : PersonRow) (t x : ℕ)
    → Updated
        (is_mutable_person mutation true)
        (mutated_person mutation true)
        db.persons
        y
        db'.persons
    → has_active db' t x ≡ true
    → has_active db t x ≡ true
unfolding has_active mutated_person
has_active_after_deletion mutation db db' y t x u live =
    let (p, listed, active) = any-In (is_active_person t x) db'.persons live in
    elim (u.origin p listed) [
      | inl j ↦ In-any p (is_active_person t x) db.persons j active
      | inr e ↦ absurd (ground (arith, subst (λ z. is_active_person t x z ≡ true) e active))
    ]

person_deletion-IsAcyclic :
    (io : Call → Bool) (mutation : AuditMutation) (db : Database) {db' : Database}
    → IsAcyclic db
    → mutate_deletion io mutation true db ≡ ok db'
    → IsAcyclic db'
person_deletion-IsAcyclic io mutation db {db'} acyclic h =
    let (y, u, e) = mutate_deletion-Updated io mutation true db h in
    IsAcyclic-mono db db'
      (λ t.
        Edge-of_links db db' t
          (λ x r i link. (r, subst (In r) (ap (λ (d : Database). d.relations) e) i, link, refl))
          (λ x live. has_active_after_deletion mutation db db' y t x u live))
      acyclic

-- One committed write. A person is added under a new identifier, which no stored relation names.
pub data Step (db : Database) : Database → Type 0 where
  add_person :
      (p : PersonRow)
      → ((r : ParentChildRelation) → In r db.relations → r.child_person_id ≢ p.id)
      → Step db (record db { persons = p ∷ db.persons })
  create :
      {db' : Database} (io : Call → Bool) (actor : ℕ) (relation : ParentChildRelation)
      → create_acyclic_editable io actor relation db ≡ ok db'
      → Step db db'
  update :
      {db' : Database} (io : Call → Bool) (actor : ℕ) (relation : ParentChildRelation)
      → update_editable io actor relation db ≡ ok db'
      → Step db db'
  delete :
      {db' : Database} (io : Call → Bool) (mutation : AuditMutation)
      → soft_delete_editable io mutation db ≡ ok db'
      → Step db db'
  delete_person :
      {db' : Database} (io : Call → Bool) (mutation : AuditMutation)
      → mutate_deletion io mutation true db ≡ ok db'
      → Step db db'

pub data Steps (db : Database) : Database → Type 0 where
  done : Steps db db
  then : {db₁ db₂ : Database} → Steps db db₁ → Step db₁ db₂ → Steps db db₂

add_person-IsAcyclic :
    (db : Database) (p : PersonRow)
    → ((r : ParentChildRelation) → In r db.relations → r.child_person_id ≢ p.id)
    → IsAcyclic db
    → IsAcyclic (record db { persons = p ∷ db.persons })
unfolding has_active is_active_person any
add_person-IsAcyclic db p unnamed acyclic =
    IsAcyclic-mono db (record db { persons = p ∷ db.persons }) old acyclic
  where
    old : (t x y : ℕ) → Edge (record db { persons = p ∷ db.persons }) t x y → Edge db t x y
    old t x y (r, i, link, child, live) = (r, i, link, child, ground (arith, unnamed r i))

Step-IsAcyclic : {db db' : Database} → Step db db' → IsAcyclic db → IsAcyclic db'
Step-IsAcyclic {db} (add_person p unnamed) a = add_person-IsAcyclic db p unnamed a
Step-IsAcyclic {db} (create io actor relation h) a =
    create_acyclic_editable-IsAcyclic io actor relation db a h
Step-IsAcyclic {db} (update io actor relation h) a =
    update_editable-IsAcyclic io actor relation db a h
Step-IsAcyclic {db} (delete io mutation h) a = soft_delete_editable-IsAcyclic io mutation db a h
Step-IsAcyclic {db} (delete_person io mutation h) a = person_deletion-IsAcyclic io mutation db a h

-- Over every history of such writes, a family graph with no cycle stays without one.
pub Steps-IsAcyclic : {db db' : Database} → IsAcyclic db → Steps db db' → IsAcyclic db'
Steps-IsAcyclic a done = a
Steps-IsAcyclic a (then s st) = Step-IsAcyclic st (Steps-IsAcyclic a s)
