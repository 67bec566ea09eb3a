-- ===== src/Trees/History.antt =====
-- Histories of the operations of the service of trees.
use family_tree_app.Prelude.{ℕ, ◌≡◌, ◌≢◌, subst, Bool, Text, In, ok}
use family_tree_app.Trees.Domain.{FamilyTree, TreeAccess, CreateValues, UpdateValues}
use family_tree_app.Trees.Store.{TreeDatabase, AuditMutation, Call}
use family_tree_app.Trees.Service.{create, update, delete, restore}
use family_tree_app.Trees.Ownership.{
  AllKept, OthersKept, create-kept, update-kept, delete-kept, restore-kept,
}

module _ (has_location : Text → Bool) where
  -- One operation of a user that commits, whatever statements the database would have refused.
  pub data TreeStep (actor : ℕ) (db : TreeDatabase) : TreeDatabase → Type 0 where
    create_tree :
        {db' : TreeDatabase} (io : Call → Bool) (id : ℕ) (given : CreateValues) (now : ℕ)
        (a : TreeAccess)
        → create has_location io id actor given now db ≡ ok (a, db')
        → TreeStep actor db db'
    update_tree :
        {db' : TreeDatabase} (io : Call → Bool) (tree_id version : ℕ) (given : UpdateValues)
        (now : ℕ) (a : TreeAccess)
        → update has_location io actor tree_id version given now db ≡ ok (a, db')
        → TreeStep actor db db'
    delete_tree :
        {db' : TreeDatabase} (io : Call → Bool) (mutation : AuditMutation)
        → mutation.actor_user_id ≡ actor
        → delete has_location io mutation db ≡ ok db'
        → TreeStep actor db db'
    restore_tree :
        {db' : TreeDatabase} (io : Call → Bool) (mutation : AuditMutation) (a : TreeAccess)
        → mutation.actor_user_id ≡ actor
        → restore has_location io mutation db ≡ ok (a, db')
        → TreeStep actor db db'

  -- Operations one after another, each by a user who is not the one named.
  pub data StepsOfOthers (user : ℕ) (db : TreeDatabase) : TreeDatabase → Type 0 where
    done : StepsOfOthers user db db
    after :
        {db1 db2 : TreeDatabase} (actor : ℕ)
        → user ≢ actor
        → StepsOfOthers user db db1
        → TreeStep actor db1 db2
        → StepsOfOthers user db db2

  pub data TreeSteps (db : TreeDatabase) : TreeDatabase → Type 0 where
    started : TreeSteps db db
    and_then :
        {db1 db2 : TreeDatabase} (actor : ℕ)
        → TreeSteps db db1
        → TreeStep actor db1 db2
        → TreeSteps db db2

  TreeStep-kept :
      {actor : ℕ} {db db' : TreeDatabase}
      → TreeStep actor db db'
      → OthersKept actor db db' × (AllKept has_location db → AllKept has_location db')
  TreeStep-kept {actor} {db} (create_tree io id given now a h) =
      create-kept has_location io id actor given now db h
  TreeStep-kept {actor} {db} (update_tree io tree_id version given now a h) =
      update-kept has_location io actor tree_id version given now db h
  TreeStep-kept {db = db} {db' = db'} (delete_tree io mutation by h) =
      subst (λ z. OthersKept z db db' × (AllKept has_location db → AllKept has_location db')) by
        (delete-kept has_location io mutation db h)
  TreeStep-kept {db = db} {db' = db'} (restore_tree io mutation a by h) =
      subst (λ z. OthersKept z db db' × (AllKept has_location db → AllKept has_location db')) by
        (restore-kept has_location io mutation db h)

  -- Over every history of creations, updates, deletions and restorations, each tree has an active owner
  -- among its members, settings within their limits and a version, if the trees at the start had.
  pub TreeSteps-kept :
      {db db' : TreeDatabase}
      → AllKept has_location db
      → TreeSteps db db'
      → AllKept has_location db'
  TreeSteps-kept w started = w
  TreeSteps-kept w (and_then actor s st) = (TreeStep-kept st).1 (TreeSteps-kept w s)

  -- Whatever operations other users complete, the row of a tree stays as it is for its owner.
  pub StepsOfOthers-keep :
      (t : FamilyTree) {db db' : TreeDatabase}
      → StepsOfOthers t.owner_user_id db db'
      → In t db.trees
      → In t db'.trees
  StepsOfOthers-keep t done i = i
  StepsOfOthers-keep t (after actor other s st) i =
      (TreeStep-kept st).0 t (StepsOfOthers-keep t s i) other
