-- ===== src/Backups/Validity.antt =====
-- `validateManifestRelations` of internal/features/exports/restore/archive.go. Every refusal wraps `ErrInvalidBackup`, whose
-- message is left out. A set of keys that a loop has seen is the list of its earlier rows.
use family_tree_app.Prelude.{
  ℕ, Bool, false, not, ◌&&◌, ◌||◌, Option, none, some, List, [], ◌∷◌, map, codes, text_eq, is_empty,
  trim_space, is_none, ltb, ◌==◌, any, count_if, length, Result, ok, refuse_if, ◌>>◌, select,
}
use family_tree_app.Backups.Manifest.{
  Manifest, TreeMember, Person, PersonName, ParentChildRelation, FamilyUnion, UnionMember,
  MediaAsset, MediaVariant, PersonMediaAttachment,
}
use family_tree_app.Backups.Graph.{Edge, visited_persons}

pub data Error : Type 0 where
  invalid_backup backup_too_large restore_conflict : Error

-- A loop over rows that refuses a bad one, and one that is the same as an earlier one.
unfoldable pub check_rows {ℓ} :
    {A : Type ℓ} → (A → Bool) → (A → A → Bool) → List A → List A → Result Error (Unit {0})
check_rows bad same seen [] = ok tt
check_rows bad same seen (x ∷ xs) = do
  refuse_if (bad x || any (same x) seen) invalid_backup
  check_rows bad same (x ∷ seen) xs

unfoldable pub has_person : Manifest → ℕ → Bool
has_person m id = any (λ (p : Person). p.id == id) m.persons

unfoldable pub has_media : Manifest → ℕ → Bool
has_media m id = any (λ (a : MediaAsset). a.id == id) m.media_assets

unfoldable pub has_union : Manifest → ℕ → Bool
has_union m id = any (λ (u : FamilyUnion). u.id == id) m.unions

unfoldable pub is_active_owner : TreeMember → Bool
is_active_owner member =
    text_eq member.role (codes "owner") && text_eq member.status (codes "active")

unfoldable pub is_bad_member : Manifest → TreeMember → Bool
unfolding is_active_owner
is_bad_member m member =
    (member.user_id == 0)
    || (is_active_owner member && not (member.user_id == (m.tree).owner_user_id))

unfoldable pub preferred_names : Manifest → ℕ → ℕ
preferred_names m person =
    count_if (λ (n : PersonName). n.is_preferred && (n.person_id == person)) m.person_names

unfoldable pub is_bad_relation : Manifest → ParentChildRelation → Bool
unfolding has_person
is_bad_relation m r =
    (r.id == 0)
    || (r.parent_person_id == r.child_person_id)
    || not (has_person m r.parent_person_id)
    || not (has_person m r.child_person_id)

unfoldable pub same_relation : ParentChildRelation → ParentChildRelation → Bool
same_relation r s =
    (s.id == r.id)
    || (is_none r.deleted_at
        && is_none s.deleted_at
        && (s.parent_person_id == r.parent_person_id)
        && (s.child_person_id == r.child_person_id)
        && text_eq s.relation_type r.relation_type)

-- The relations that are not deleted.
unfoldable pub active_edges : Manifest → List Edge
active_edges m =
    map (λ (r : ParentChildRelation). (r.parent_person_id, r.child_person_id))
      (select (λ (r : ParentChildRelation). is_none r.deleted_at) m.parent_child_relations)

unfoldable pub validate_people : Manifest → Result Error (Unit {0})
unfolding check_rows has_person is_active_owner is_bad_member preferred_names
validate_people m = do
  refuse_if
      (((m.tree).owner_user_id == 0)
        || is_empty (trim_space (m.tree).name)
        || ltb (m.tree).version 1)
      invalid_backup
  check_rows (is_bad_member m) (λ x y. y.user_id == x.user_id) [] m.members
  refuse_if (not (count_if is_active_owner m.members == 1)) invalid_backup
  check_rows (λ (p : Person). p.id == 0) (λ x y. y.id == x.id) [] m.persons
  check_rows (λ (n : PersonName). (n.id == 0) || not (has_person m n.person_id))
      (λ x y. y.id == x.id) [] m.person_names
  refuse_if (any (λ (p : Person). not (preferred_names m p.id == 1)) m.persons) invalid_backup

-- `order` is the order in which the code ranges over the map of the persons.
unfoldable pub validate_graph : List ℕ → Manifest → Result Error (Unit {0})
unfolding check_rows is_bad_relation same_relation active_edges visited_persons
validate_graph order m = do
  check_rows (is_bad_relation m) same_relation [] m.parent_child_relations
  refuse_if
      (not ((visited_persons (active_edges m) (length m.persons) order).0 == length m.persons))
      invalid_backup

unfoldable pub validate_unions : Manifest → Result Error (Unit {0})
unfolding check_rows has_person has_union
validate_unions m = do
  check_rows (λ (u : FamilyUnion). u.id == 0) (λ x y. y.id == x.id) [] m.unions
  check_rows (λ (k : UnionMember). not (has_union m k.union_id) || not (has_person m k.person_id))
      (λ x y. (y.union_id == x.union_id) && (y.person_id == x.person_id)) [] m.union_members

unfoldable pub validate_media : Manifest → Result Error (Unit {0})
unfolding check_rows has_person has_media
validate_media m = do
  check_rows (λ (a : MediaAsset). a.id == 0) (λ x y. y.id == x.id) [] m.media_assets
  check_rows (λ (v : MediaVariant). (v.id == 0) || not (has_media m v.media_id))
      (λ x y. y.id == x.id) [] m.media_variants
  check_rows
      (λ (a : PersonMediaAttachment).
        not (has_person m a.person_id) || not (has_media m a.media_id))
      (λ x y. (y.person_id == x.person_id) && (y.media_id == x.media_id)) [] m.person_media

unfoldable pub is_missing : (ℕ → Bool) → Option ℕ → Bool
is_missing known none = false
is_missing known (some id) = not (known id)

unfoldable pub validate_pointers : Manifest → Result Error (Unit {0})
unfolding has_person has_media is_missing
validate_pointers m = do
  refuse_if (is_missing (has_person m) (m.tree).root_person_id) invalid_backup
  refuse_if (is_missing (has_media m) (m.tree).cover_media_id) invalid_backup
  refuse_if (any (λ (p : Person). is_missing (has_media m) p.primary_media_id) m.persons)
      invalid_backup

unfoldable pub validate_manifest_relations : List ℕ → Manifest → Result Error (Unit {0})
unfolding validate_people validate_graph validate_unions validate_media validate_pointers
validate_manifest_relations order m = do
  validate_people m
  validate_graph order m
  validate_unions m
  validate_media m
  validate_pointers m
