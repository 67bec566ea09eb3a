-- ===== src/Trees/Service.antt =====
-- internal/features/trees/service/service.go: who may create, change, delete and restore a tree. The new
-- identifiers and the time are arguments.
use family_tree_app.Prelude.{
  ℕ, Bool, true, false, not, ◌||◌, is_none, Text, codes, is_empty, ◌==◌, if◌then◌else◌, Result, ok,
  err, ◌>>=◌, ◌>>◌, refuse_if,
}
use family_tree_app.Trees.Domain.{
  Error, tree_not_found, tree_access_denied, tree_version_conflict, tree_not_deleted, TreeAccess,
  CreateValues, UpdateValues, can_edit_settings, new_family_tree, apply_update,
}
use family_tree_app.Trees.Store.{
  TreeDatabase, AuditMutation, Call, Failure, refused, get_accessible, create_with_owner,
  update_owned, mutate_deletion,
}

-- The values of a creation, with the defaults where none is given.
unfoldable pub with_defaults : CreateValues → CreateValues
with_defaults given = record given {
  locale = if is_empty given.locale then codes "ru-RU" else given.locale;
  timezone = if is_empty given.timezone then codes "UTC" else given.timezone;
}

-- An error of the domain is the service's.
unfoldable pub from_domain {ℓ} : {A : Type ℓ} → Result Error A → Result Failure A
from_domain (ok a) = ok a
from_domain (err e) = err (refused e)

module _ (has_location : Text → Bool) (io : Call → Bool) where
  unfoldable pub create :
      ℕ → ℕ → CreateValues → ℕ → TreeDatabase → Result Failure (TreeAccess × TreeDatabase)
  unfolding with_defaults from_domain
  create id actor given now db = do
    access ← from_domain (new_family_tree has_location id actor (with_defaults given) now)
    db' ← create_with_owner io access db
    ok (access, db')

  unfoldable pub get : ℕ → ℕ → TreeDatabase → Result Failure TreeAccess
  get actor tree_id db = do
    refuse_if ((actor == 0) || (tree_id == 0)) (refused tree_not_found)
    get_accessible io tree_id actor false db

  unfoldable pub update :
      ℕ → ℕ → ℕ → UpdateValues → ℕ → TreeDatabase → Result Failure (TreeAccess × TreeDatabase)
  unfolding get from_domain
  update actor tree_id version given now db = do
    access ← get actor tree_id db
    refuse_if (not (can_edit_settings access)) (refused tree_access_denied)
    changed ← from_domain (apply_update has_location access.tree version given now)
    stored ← update_owned io actor changed db
    ok (record access { tree = stored.0 }, stored.1)

  -- `Delete`, with the mutation that `auditMutation` makes of its command.
  unfoldable pub delete : AuditMutation → TreeDatabase → Result Failure TreeDatabase
  unfolding get
  delete mutation db = do
    access ← get mutation.actor_user_id mutation.tree_id db
    refuse_if (not (can_edit_settings access)) (refused tree_access_denied)
    refuse_if ((mutation.version == 0) || not ((access.tree).version == mutation.version))
        (refused tree_version_conflict)
    mutated ← mutate_deletion io mutation true db
    ok mutated.1

  unfoldable pub restore : AuditMutation → TreeDatabase → Result Failure (TreeAccess × TreeDatabase)
  restore mutation db = do
    access ← get_accessible io mutation.tree_id mutation.actor_user_id true db
    refuse_if (not (can_edit_settings access)) (refused tree_access_denied)
    refuse_if (is_none (access.tree).deleted_at) (refused tree_not_deleted)
    refuse_if ((mutation.version == 0) || not ((access.tree).version == mutation.version))
        (refused tree_version_conflict)
    mutated ← mutate_deletion io mutation false db
    ok (record access { tree = mutated.0 }, mutated.1)
