-- ===== src/Relations/Lifecycle.antt =====
-- Histories of the relation store: which operations keep the family graph acyclic.
use family_tree_app.Prelude.{
  ℕ, ◌≡◌, refl, sym, inl, inr, Bool, true, ◌∷◌, In, if◌then◌else◌, update_first, Updated,
  update_first-Updated, Option-cases, ◌∙◌, subst, ap, ok, arith,
}
use family_tree_app.Relations.Domain.{ParentChildRelation}
use family_tree_app.Relations.Store.{
  PersonRow, Database, relation_deleted, person_deleted, person_restored, AuditMutation, Call,
  has_active, is_link, is_current,
}
use family_tree_app.Relations.Writes.{
  is_updatable, audit_row, is_mutable_person, mutated_person, updated_row, deleted_row,
  update_editable, soft_delete_editable, mutate_deletion,
}
use family_tree_app.Relations.Reach.{Edge}

module _ (db db' : Database) (t : ℕ) where
  -- Edges go over where each link has its row among the old ones and active persons were active.
  pub Edge-of_links :
      ((x : ℕ) (r : ParentChildRelation)
        → In r db'.relations
        → is_link t x r ≡ true
        → (r' : ParentChildRelation) × In r' db.relations
          × (is_link t x r' ≡ true)
          × (r'.child_person_id ≡ r.child_person_id))
      → ((y : ℕ) → has_active db' t y ≡ true → has_active db t y ≡ true)
      → (x y : ℕ) → Edge db' t x y
      → Edge db t x y
  Edge-of_links links active x y (r, i, link, child, live) =
      let (r', j, link', same) = links x r i link in (r', j, link', same ∙ child, active y live)

  -- The rows of one relation changed: ancestry needs its link to be no new one.
  pub Edge-of_Updated :
      (p : ParentChildRelation → Bool) (f : ParentChildRelation → ParentChildRelation)
      {y : ParentChildRelation}
      → Updated p f db.relations y db'.relations
      → ((x : ℕ) (r : ParentChildRelation) → is_link t x (f r) ≡ true → is_link t x r ≡ true)
      → ((r : ParentChildRelation) → (f r).child_person_id ≡ r.child_person_id)
      → db'.persons ≡ db.persons
      → (x y : ℕ) → Edge db' t x y
      → Edge db t x y
  unfolding has_active
  Edge-of_Updated p f u keeps same_child persons =
      Edge-of_links
        (λ x r i link. elim (u.origin r i) [
          | inl j ↦ (r, j, link, refl)
          | inr e ↦ (
            u.old,
            u.listed,
            keeps x u.old (subst (λ z. is_link t x z ≡ true) e link),
            sym (same_child u.old) ∙ ap (λ (z : ParentChildRelation). z.child_person_id) (sym e),
          )
        ])
        (λ y live. rw (← persons) live)

-- An update that commits changes the columns of one current row, and nothing else.
pub update_editable-Updated :
    (io : Call → Bool) (actor : ℕ) (relation : ParentChildRelation) (db : Database) {db' : Database}
    → update_editable io actor relation db ≡ ok db'
    → (db' ≡ record db { relations = db'.relations })
      × ((y : ParentChildRelation) × Updated
            (is_updatable db relation)
            (updated_row relation)
            db.relations
            y
            db'.relations)
unfolding update_editable
update_editable-Updated io actor relation db {db'} h =
    elim (Option-cases
      (update_first (is_updatable db relation) (updated_row relation) db.relations)) [
        | inl stopped ↦ absurd (ground (arith, stopped))
        | inr ((y, rows), found) ↦
            let e : db' ≡ record db { relations = rows } = ground (arith, found) in
            (rw e refl, (y, rw e (update_first-Updated _ _ db.relations found)))
      ]

pub soft_delete_editable-Updated :
    (io : Call → Bool) (mutation : AuditMutation) (db : Database) {db' : Database}
    → soft_delete_editable io mutation db ≡ ok db'
    → (y : ParentChildRelation) × Updated
        (is_current mutation.tree_id mutation.entity_id mutation.version)
        (deleted_row mutation)
        db.relations
        y
        db'.relations
      × (db' ≡ record db {
        relations = db'.relations;
        audit_log = audit_row mutation relation_deleted y.version ∷ db.audit_log;
      })
unfolding soft_delete_editable
soft_delete_editable-Updated io mutation db {db'} h =
    elim (Option-cases (
      update_first (is_current mutation.tree_id mutation.entity_id mutation.version)
        (deleted_row mutation) db.relations)) [
          | inl stopped ↦ absurd (ground (arith, stopped))
          | inr ((y, rows), found) ↦
              let e : db' ≡ record db {
                relations = rows;
                audit_log = audit_row mutation relation_deleted y.version ∷ db.audit_log;
              } =
                ground (arith, found) in
              (y, rw e (update_first-Updated _ _ db.relations found), rw e refl)
        ]

pub mutate_deletion-Updated :
    (io : Call → Bool) (mutation : AuditMutation) (delete_person : Bool) (db : Database)
    {db' : Database}
    → mutate_deletion io mutation delete_person db ≡ ok db'
    → (y : PersonRow) × Updated
        (is_mutable_person mutation delete_person)
        (mutated_person mutation delete_person)
        db.persons
        y
        db'.persons
      × (db' ≡ record db {
        persons = db'.persons;
        audit_log =
            audit_row mutation (if delete_person then person_deleted else person_restored) y.version
            ∷ db.audit_log;
      })
unfolding mutate_deletion
mutate_deletion-Updated io mutation delete_person db {db'} h =
    elim (Option-cases (
      update_first (is_mutable_person mutation delete_person)
        (mutated_person mutation delete_person) db.persons)) [
          | inl stopped ↦ absurd (ground (arith, stopped))
          | inr ((y, rows), found) ↦
              let e : db' ≡ record db {
                persons = rows;
                audit_log =
                    audit_row mutation (if delete_person then person_deleted else person_restored)
                      y.version
                    ∷ db.audit_log;
              } =
                ground (arith, found) in
              (y, rw e (update_first-Updated _ _ db.persons found), rw e refl)
        ]
