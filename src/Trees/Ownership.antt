-- ===== src/Trees/Ownership.antt =====
-- What each operation on trees leaves: every tree has its owner and valid settings, and nobody but its
-- owner changes it.
use family_tree_app.Prelude.{
  ℕ, ◌≡◌, ◌≢◌, inl, inr, refl, sym, ap, subst, ◌∙◌, Bool, true, false, some, List, ◌∷◌, Text, codes,
  text_eq_refl, In, any, update_first, Updated, update_first-Updated, Option-cases, Result-cases,
  ok, arith,
}
use family_tree_app.Trees.Domain.{
  FamilyTree, TreeMember, TreeAccess, CreateValues, UpdateValues, new_family_tree, apply_update,
}
use family_tree_app.Trees.Settings.{
  IsConfigured, settings_of, update_tree_iff, new_family_tree-IsConfigured,
}
use family_tree_app.Trees.Store.{
  TreeDatabase, AuditMutation, Call, call, is_owner_row, is_owned, is_previous_tree, updated_tree,
  is_mutable_tree, mutated_tree, inserted_tree, create_with_owner, update_owned, mutate_deletion,
}
use family_tree_app.Trees.Service.{with_defaults, from_domain, create, get, update, delete, restore}

-- The row has an active owner among the members, settings within their limits, and a version.
pub record IsKept (has_location : Text → Bool) (members : List TreeMember) (t : FamilyTree)
    : Type 0 where
  pub owned : any (is_owner_row t.id t.owner_user_id) members ≡ true
  pub configured : IsConfigured has_location (settings_of t)
  pub versioned : t.version ≢ 0

abbrev pub AllKept : (Text → Bool) → TreeDatabase → Type 0
AllKept has_location db = (t : FamilyTree) → In t db.trees → IsKept has_location db.members t

-- Rows that an actor who is not their owner finds are there after the operation.
abbrev pub OthersKept : ℕ → TreeDatabase → TreeDatabase → Type 0
OthersKept actor db db' =
    (t : FamilyTree) → In t db.trees → t.owner_user_id ≢ actor → In t db'.trees

-- An update of one row of trees that its owner makes.
others_kept :
    (p : FamilyTree → Bool) (f : FamilyTree → FamilyTree) (actor : ℕ) (db db' : TreeDatabase)
    → ((t : FamilyTree) → p t ≡ true → t.owner_user_id ≡ actor)
    → {row : FamilyTree} → update_first p f db.trees ≡ some (row, db'.trees)
    → OthersKept actor db db'
others_kept p f actor db db' owns found t i other =
    let u : Updated p f db.trees _ db'.trees = update_first-Updated p f db.trees found in
    elim (u.kept t i) [
      | inl k ↦ k
      | inr same ↦
          absurd (other (ap (λ (z : FamilyTree). z.owner_user_id) same ∙ owns u.old u.passes))
    ]

all_kept :
    (has_location : Text → Bool) (p : FamilyTree → Bool) (f : FamilyTree → FamilyTree)
    (db db' : TreeDatabase)
    → ((t : FamilyTree)
        → IsKept has_location db.members t
        → p t ≡ true
        → IsKept has_location db.members (f t))
    → {row : FamilyTree} → update_first p f db.trees ≡ some (row, db'.trees)
    → db'.members ≡ db.members
    → AllKept has_location db
    → AllKept has_location db'
all_kept has_location p f db db' keeps found members w t i =
    let u : Updated p f db.trees _ db'.trees = update_first-Updated p f db.trees found in
    rw members (elim (u.origin t i) [
      | inl k ↦ w t k
      | inr same ↦ rw same (keeps u.old (w u.old u.listed) u.passes)
    ])

module _ (has_location : Text → Bool) (io : Call → Bool) where
  mutate_deletion-found :
      (mutation : AuditMutation) (delete_tree : Bool) (db : TreeDatabase) {row : FamilyTree}
      {db' : TreeDatabase}
      → mutate_deletion io mutation delete_tree db ≡ ok (row, db')
      → (update_first
            (is_mutable_tree db.members mutation delete_tree)
            (mutated_tree mutation delete_tree)
            db.trees
          ≡ some (row, db'.trees))
        × (db'.members ≡ db.members)
  unfolding mutate_deletion call
  mutate_deletion-found mutation delete_tree db h =
      elim (Option-cases (
        update_first (is_mutable_tree db.members mutation delete_tree)
          (mutated_tree mutation delete_tree) db.trees)) [
            | inl e ↦ absurd (ground (arith, e))
            | inr ((y, rows), e) ↦ (ground (arith, e), ground (arith, e))
          ]

  mutation-kept :
      (mutation : AuditMutation) (delete_tree : Bool) (db : TreeDatabase) {row : FamilyTree}
      {db' : TreeDatabase}
      → mutate_deletion io mutation delete_tree db ≡ ok (row, db')
      → OthersKept mutation.actor_user_id db db'
        × (AllKept has_location db → AllKept has_location db')
  unfolding is_mutable_tree is_owned mutated_tree
  mutation-kept mutation delete_tree db {db' = db'} h =
      let (found, members) = mutate_deletion-found mutation delete_tree db h in
      let p : FamilyTree → Bool = is_mutable_tree db.members mutation delete_tree in
      let f : FamilyTree → FamilyTree = mutated_tree mutation delete_tree in
      (
        others_kept p f mutation.actor_user_id db db' (λ t e. ground arith) found,
        λ w.
            all_kept has_location p f db db'
              (λ t k e. record {
                owned = k.owned;
                configured = k.configured;
                versioned = omega arith;
              })
              found members w,
      )

  update_owned-found :
      (actor : ℕ) (tree : FamilyTree) (db : TreeDatabase) {row : FamilyTree} {db' : TreeDatabase}
      → update_owned io actor tree db ≡ ok (row, db')
      → (update_first (is_previous_tree db.members actor tree) (updated_tree tree) db.trees
          ≡ some (row, db'.trees))
        × (db'.members ≡ db.members)
  unfolding update_owned call
  update_owned-found actor tree db h =
      elim (Option-cases
        (update_first (is_previous_tree db.members actor tree) (updated_tree tree) db.trees)) [
          | inl e ↦ absurd (ground (arith, e))
          | inr ((y, rows), e) ↦ (ground (arith, e), ground (arith, e))
        ]

  update_owned-kept :
      (actor : ℕ) (tree : FamilyTree) (db : TreeDatabase) {row : FamilyTree} {db' : TreeDatabase}
      → IsConfigured has_location (settings_of tree)
      → update_owned io actor tree db ≡ ok (row, db')
      → OthersKept actor db db' × (AllKept has_location db → AllKept has_location db')
  unfolding is_previous_tree is_owned updated_tree
  update_owned-kept actor tree db {db' = db'} c h =
      let (found, members) = update_owned-found actor tree db h in
      let p : FamilyTree → Bool = is_previous_tree db.members actor tree in
      (
        others_kept p (updated_tree tree) actor db db' (λ t e. ground arith) found,
        λ w.
            all_kept has_location p (updated_tree tree) db db'
              (λ t k e. record { owned = k.owned; configured = c; versioned = ground arith }) found
              members w,
      )

  pub update-kept :
      (actor tree_id version : ℕ) (given : UpdateValues) (now : ℕ) (db : TreeDatabase)
      {a : TreeAccess} {db' : TreeDatabase}
      → update has_location io actor tree_id version given now db ≡ ok (a, db')
      → OthersKept actor db db' × (AllKept has_location db → AllKept has_location db')
  unfolding update from_domain
  update-kept actor tree_id version given now db {db' = db'} h =
      elim (Result-cases (get has_location io actor tree_id db)) [
        | inr (_, e) ↦ absurd (ground (arith, e))
        | inl (access, e) ↦
            elim (Result-cases (apply_update has_location access.tree version given now)) [
              | inr (_, r) ↦ absurd (ground (arith, e, r))
              | inl (changed, r) ↦ elim (Result-cases (update_owned io actor changed db)) [
                | inr (_, s) ↦ absurd (ground (arith, e, r, s))
                | inl ((row, db2), s) ↦
                    let (accepted, made) =
                      (update_tree_iff has_location access.tree version given now changed).0 r in
                    let same : db' ≡ db2 = ground (arith, e, r, s) in
                    rw same (update_owned-kept actor changed db (rw made accepted.configured) s)
              ]
            ]
      ]

  pub delete-kept :
      (mutation : AuditMutation) (db : TreeDatabase) {db' : TreeDatabase}
      → delete has_location io mutation db ≡ ok db'
      → OthersKept mutation.actor_user_id db db'
        × (AllKept has_location db → AllKept has_location db')
  unfolding delete
  delete-kept mutation db {db'} h = elim (Result-cases (mutate_deletion io mutation true db)) [
    | inr (_, e) ↦ absurd (ground (arith, e))
    | inl ((row, db2), e) ↦
        let same : db' ≡ db2 = ground (arith, e) in rw same (mutation-kept mutation true db e)
  ]

  pub restore-kept :
      (mutation : AuditMutation) (db : TreeDatabase) {a : TreeAccess} {db' : TreeDatabase}
      → restore has_location io mutation db ≡ ok (a, db')
      → OthersKept mutation.actor_user_id db db'
        × (AllKept has_location db → AllKept has_location db')
  unfolding restore
  restore-kept mutation db {db' = db'} h =
      elim (Result-cases (mutate_deletion io mutation false db)) [
        | inr (_, e) ↦ absurd (ground (arith, e))
        | inl ((row, db2), e) ↦
            let same : db' ≡ db2 = ground (arith, e) in rw same (mutation-kept mutation false db e)
      ]

  new_family_tree-owner :
      (id actor : ℕ) (values : CreateValues) (now : ℕ) {a : TreeAccess}
      → new_family_tree has_location id actor values now ≡ ok a
      → is_owner_row a.tree.id a.tree.owner_user_id a.membership ≡ true
  unfolding new_family_tree is_owner_row
  new_family_tree-owner id actor values now h =
      ground (arith, text_eq_refl (codes "owner"), text_eq_refl (codes "active"))

  pub create-kept :
      (id actor : ℕ) (given : CreateValues) (now : ℕ) (db : TreeDatabase) {a : TreeAccess}
      {db' : TreeDatabase}
      → create has_location io id actor given now db ≡ ok (a, db')
      → OthersKept actor db db' × (AllKept has_location db → AllKept has_location db')
  unfolding create from_domain create_with_owner call inserted_tree any
  create-kept id actor given now db {db' = db'} h =
      elim (Result-cases (new_family_tree has_location id actor (with_defaults given) now)) [
        | inr (_, e) ↦ absurd (ground (arith, e))
        | inl (access, e) ↦
            let trees : db'.trees ≡ inserted_tree access.tree ∷ db.trees = ground (arith, e) in
            let members : db'.members ≡ access.membership ∷ db.members = ground (arith, e) in
            let (configured, _, _, _, _, _, _, _, _, first) =
              new_family_tree-IsConfigured has_location id actor (with_defaults given) now e in
            let owner = new_family_tree-owner id actor (with_defaults given) now e in
            (
              (λ t i other. subst (In t) (sym trees) (inr i)),
              λ w t i. elim (subst (In t) trees i) [
                | inl same ↦
                    rw (members, same)
                      (record {
                        owned = rw owner refl;
                        configured = configured;
                        versioned = omega (arith, first);
                      })
                | inr k ↦
                    let old : IsKept has_location db.members t = w t k in
                    rw members (record {
                      owned = ground (arith, old.owned);
                      configured = old.configured;
                      versioned = old.versioned;
                    })
              ],
            )
      ]
