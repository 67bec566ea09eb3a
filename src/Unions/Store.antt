-- ===== src/Unions/Store.antt =====
-- internal/features/unions/repository/postgres/repository.go: the tables of the unions, beside those of
-- the trees and the persons, and the statements that read them. `io c` says whether the database answers
-- statement `c`.
use family_tree_app.Prelude.{
  first_row, ℕ, Bool, not, ◌&&◌, ◌||◌, none, some, List, [], ◌∷◌, length, ltb, ◌==◌, if◌then◌else◌,
  is_none, any, count_if, select, Result, ok, err, refuse_if, ◌>>◌,
}
use family_tree_app.Unions.Domain.{
  Error, union_not_found, union_access_denied, FamilyUnion, UnionMember,
}
use family_tree_app.Relations.Store.{Database, is_editable}

pub record UnionAuditRow : Type 0 where
  pub id : ℕ
  pub tree_id : ℕ
  pub actor_user_id : ℕ
  pub entity_id : ℕ
  pub previous_version : ℕ
  pub new_version : ℕ
  pub created_at : ℕ

-- `base` has the trees, their members and the persons.
pub record UnionDatabase : Type 0 where
  pub base : Database
  pub unions : List FamilyUnion
  pub union_members : List UnionMember
  pub audit_log : List UnionAuditRow

-- `service.AuditMutation` and `service.MemberMutation`.
pub record AuditMutation : Type 0 where
  pub audit_id : ℕ
  pub actor_user_id : ℕ
  pub tree_id : ℕ
  pub union_id : ℕ
  pub version : ℕ
  pub occurred_at : ℕ

pub record MemberMutation : Type 0 where
  pub actor_user_id : ℕ
  pub tree_id : ℕ
  pub union_id : ℕ
  pub person_id : ℕ
  pub occurred_at : ℕ

pub data Call : Type 0 where
  begin authorize read_persons write_union write_member lock_union count_members read_member : Call
  remove_member bump read_members write_audit commit : Call

-- Either a sentinel of the package, or a failure of the database.
pub data Failure : Type 0 where
  refused : Error → Failure
  database_failure : Failure

unfoldable pub is_union : ℕ → ℕ → FamilyUnion → Bool
is_union tree_id id u = (u.tree_id == tree_id) && (u.id == id)

unfoldable pub is_live_union : ℕ → ℕ → FamilyUnion → Bool
unfolding is_union
is_live_union tree_id id u = is_union tree_id id u && is_none u.deleted_at

unfoldable pub is_seat : ℕ → ℕ → UnionMember → Bool
is_seat tree_id union_id m = (m.tree_id == tree_id) && (m.union_id == union_id)

unfoldable pub is_seat_of : ℕ → ℕ → ℕ → UnionMember → Bool
unfolding is_seat
is_seat_of tree_id union_id person_id m = is_seat tree_id union_id m && (m.person_id == person_id)

-- `SELECT count(*) FROM union_members WHERE tree_id = $1 AND union_id = $2`.
unfoldable pub seats : UnionDatabase → ℕ → ℕ → ℕ
unfolding is_seat
seats db tree_id union_id = count_if (is_seat tree_id union_id) db.union_members

-- `ORDER BY created_at, person_id`.
unfoldable pub insert_ordered : UnionMember → List UnionMember → List UnionMember
insert_ordered m [] = m ∷ []
insert_ordered m (k ∷ ks) =
    let rest = insert_ordered m ks in
    if ltb k.created_at m.created_at
      || ((k.created_at == m.created_at) && ltb k.person_id m.person_id)
    then k ∷ rest
    else m ∷ k ∷ ks

unfoldable pub ordered : List UnionMember → List UnionMember
unfolding insert_ordered
ordered [] = []
ordered (m ∷ ms) = insert_ordered m (ordered ms)

-- The persons of the tree, not deleted, that the list names.
unfoldable pub count_active_persons : UnionDatabase → ℕ → List ℕ → ℕ
count_active_persons db tree_id ids =
    count_if (λ p. (p.tree_id == tree_id) && any (λ i. i == p.id) ids && is_none p.deleted_at)
      db.base.persons

module _ (io : Call → Bool) where
  unfoldable pub call : Call → Result Failure (Unit {0})
  call c = refuse_if (not (io c)) database_failure

  unfoldable pub require_editable_tree : UnionDatabase → ℕ → ℕ → Result Failure (Unit {0})
  unfolding call
  require_editable_tree db tree_id user_id = do
    call authorize
    refuse_if (not (is_editable db.base tree_id user_id)) (refused union_access_denied)

  unfoldable pub require_active_persons : UnionDatabase → ℕ → List ℕ → Result Failure (Unit {0})
  unfolding call
  require_active_persons db tree_id ids = do
    call read_persons
    refuse_if (not (count_active_persons db tree_id ids == length ids)) (refused union_not_found)

  unfoldable pub load_union_for_update : UnionDatabase → ℕ → ℕ → Result Failure FamilyUnion
  unfolding call first_row is_live_union
  load_union_for_update db tree_id id = do
    call lock_union
    elim (first_row (is_live_union tree_id id) db.unions) [
      | none ↦ err (refused union_not_found)
      | some u ↦ ok u
    ]

  unfoldable pub load_members : UnionDatabase → ℕ → ℕ → Result Failure (List UnionMember)
  unfolding call ordered
  load_members db tree_id id = do
    call read_members
    ok (ordered (select (is_seat tree_id id) db.union_members))
