-- ===== src/Backups/Soundness.antt =====
-- What the checks of a backup promise of its rows.
use family_tree_app.Prelude.{
  any-In, ==_iff, ◌≢◌, ◌<◌, none, some, is_none, text_eq, trim_space, codes, ◌||◌, any-map, ℕ, ◌+◌,
  ◌≤◌, ◌≡◌, ◌∙◌, subst, inl, inr, Bool, true, false, ◌&&◌, List, [], ◌∷◌, map, ◌==◌, any, count_if,
  In, ok, arith,
}
use family_tree_app.Backups.Manifest.{
  PersonName, FamilyUnion, MediaAsset, Manifest, TreeMember, Person, ParentChildRelation,
  UnionMember, MediaVariant, PersonMediaAttachment,
}
use family_tree_app.Backups.Graph.{occurrences}
use family_tree_app.Backups.Order.{occurrences-any}
use family_tree_app.Backups.Validity.{check_rows}

-- No row is the same as an earlier one.
abbrev pub AreDistinct {ℓ} : {A : Type ℓ} → (A → A → Bool) → List A → List A → Type 0
AreDistinct same seen [] = Unit
AreDistinct same seen (x ∷ xs) = (any (same x) seen ≡ false) × AreDistinct same (x ∷ seen) xs

module _ {A : Type 0} (bad : A → Bool) (same : A → A → Bool) where
  pub check_rows-good :
      (seen xs : List A) → check_rows bad same seen xs ≡ ok tt → (x : A) → In x xs → bad x ≡ false
  unfolding check_rows
  check_rows-good seen [] h x i = absurd i
  check_rows-good seen (y ∷ ys) h x (inl e) =
      let good : bad y ≡ false = ground (arith, h) in rw e good
  check_rows-good seen (y ∷ ys) h x (inr i) = check_rows-good (y ∷ seen) ys (ground (arith, h)) x i

  pub check_rows-AreDistinct :
      (seen xs : List A) → check_rows bad same seen xs ≡ ok tt → AreDistinct same seen xs
  unfolding check_rows
  check_rows-AreDistinct seen [] h = tt
  check_rows-AreDistinct seen (y ∷ ys) h =
      (ground (arith, h), check_rows-AreDistinct (y ∷ seen) ys (ground (arith, h)))

abbrev pub person_ids : Manifest → List ℕ
person_ids m = map (λ (p : Person). p.id) m.persons

abbrev pub HasPerson : Manifest → ℕ → Type 0
HasPerson m id = (p : Person) × In p m.persons × (p.id ≡ id)

abbrev pub HasMedia : Manifest → ℕ → Type 0
HasMedia m id = (a : MediaAsset) × In a m.media_assets × (a.id ≡ id)

abbrev pub HasUnion : Manifest → ℕ → Type 0
HasUnion m id = (u : FamilyUnion) × In u m.unions × (u.id ≡ id)

-- The tree has an owner, a name and a version, and one active owner among its members, that owner; the persons are distinct,
-- each name is of a person, and each person has one preferred name.
pub record PeopleAreSound (m : Manifest) : Type 0 where
  pub owned : (m.tree).owner_user_id ≢ 0
  pub titled : trim_space (m.tree).name ≢ []
  pub versioned : 1 ≤ (m.tree).version
  pub members : (k : TreeMember) → In k m.members → k.user_id ≢ 0
  pub members_distinct : AreDistinct (λ (x y : TreeMember). y.user_id == x.user_id) [] m.members
  pub owner_is :
      (k : TreeMember)
      → In k m.members
      → k.role ≡ codes "owner"
      → k.status ≡ codes "active"
      → k.user_id ≡ (m.tree).owner_user_id
  pub one_owner :
      count_if
        (λ (k : TreeMember). text_eq k.role (codes "owner") && text_eq k.status (codes "active"))
        m.members
      ≡ 1
  pub persons : (p : Person) → In p m.persons → p.id ≢ 0
  pub persons_distinct : (c : ℕ) → occurrences c (person_ids m) ≤ 1
  pub names : (n : PersonName) → In n m.person_names → (n.id ≢ 0) × HasPerson m n.person_id
  pub names_distinct : AreDistinct (λ (x y : PersonName). y.id == x.id) [] m.person_names
  pub named :
      (p : Person)
      → In p m.persons
      → count_if (λ (n : PersonName). n.is_preferred && (n.person_id == p.id)) m.person_names ≡ 1

-- The relations are between two persons of the backup, none twice, and the active ones have no cycle: the persons have a
-- numbering that each of them raises.
pub record GraphIsSound (m : Manifest) : Type 0 where
  pub relations :
      (r : ParentChildRelation)
      → In r m.parent_child_relations
      → (r.id ≢ 0)
        × (r.parent_person_id ≢ r.child_person_id)
        × HasPerson m r.parent_person_id
        × HasPerson m r.child_person_id
  pub relations_distinct :
      AreDistinct
        (λ (r s : ParentChildRelation).
          (s.id == r.id)
          || (is_none r.deleted_at
              && is_none s.deleted_at
              && (s.parent_person_id == r.parent_person_id)
              && (s.child_person_id == r.child_person_id)
              && text_eq s.relation_type r.relation_type))
        []
        m.parent_child_relations
  pub acyclic :
      (rank : ℕ → ℕ) × ((r : ParentChildRelation)
        → In r m.parent_child_relations
        → r.deleted_at ≡ none
        → rank r.parent_person_id < rank r.child_person_id)

pub record UnionsAreSound (m : Manifest) : Type 0 where
  pub unions : (u : FamilyUnion) → In u m.unions → u.id ≢ 0
  pub unions_distinct : AreDistinct (λ (x y : FamilyUnion). y.id == x.id) [] m.unions
  pub seats :
      (k : UnionMember) → In k m.union_members → HasUnion m k.union_id × HasPerson m k.person_id
  pub seats_distinct :
      AreDistinct
        (λ (x y : UnionMember). (y.union_id == x.union_id) && (y.person_id == x.person_id))
        []
        m.union_members

pub record MediaAreSound (m : Manifest) : Type 0 where
  pub assets : (a : MediaAsset) → In a m.media_assets → a.id ≢ 0
  pub assets_distinct : AreDistinct (λ (x y : MediaAsset). y.id == x.id) [] m.media_assets
  pub variants : (v : MediaVariant) → In v m.media_variants → (v.id ≢ 0) × HasMedia m v.media_id
  pub variants_distinct : AreDistinct (λ (x y : MediaVariant). y.id == x.id) [] m.media_variants
  pub attachments :
      (a : PersonMediaAttachment)
      → In a m.person_media
      → HasPerson m a.person_id × HasMedia m a.media_id
  pub attachments_distinct :
      AreDistinct
        (λ (x y : PersonMediaAttachment).
          (y.person_id == x.person_id) && (y.media_id == x.media_id))
        []
        m.person_media

pub record PointersAreSound (m : Manifest) : Type 0 where
  pub root : (id : ℕ) → (m.tree).root_person_id ≡ some id → HasPerson m id
  pub cover : (id : ℕ) → (m.tree).cover_media_id ≡ some id → HasMedia m id
  pub primary :
      (p : Person) → In p m.persons → (id : ℕ) → p.primary_media_id ≡ some id → HasMedia m id

-- A backup that is fit to be restored.
pub record IsSound (m : Manifest) : Type 0 where
  pub people : PeopleAreSound m
  pub graph : GraphIsSound m
  pub union_rows : UnionsAreSound m
  pub media : MediaAreSound m
  pub pointers : PointersAreSound m

module _ {A : Type 0} (key : A → ℕ) (rows : List A) (id : ℕ) where
  pub any-listed_row : any (λ x. key x == id) rows ≡ true → (x : A) × In x rows × (key x ≡ id)
  any-listed_row h =
      let (x, i, e) = any-In (λ x. key x == id) rows h in (x, i, (==_iff (key x) id).0 e)

pub any-false :
    {A : Type 0} (p : A → Bool) (xs : List A) → any p xs ≡ false → (x : A) → In x xs → p x ≡ false
unfolding any
any-false p [] h x i = absurd i
any-false p (y ∷ ys) h x (inl e) = let here : p y ≡ false = ground (arith, h) in rw e here
any-false p (y ∷ ys) h x (inr i) = any-false p ys (ground (arith, h)) x i

pub distinct-ids :
    (seen xs : List Person)
    → AreDistinct (λ (x y : Person). y.id == x.id) seen xs
    → ((c : ℕ) → occurrences c (map (λ (p : Person). p.id) seen) ≤ 1)
    → (c : ℕ)
    → occurrences c (map (λ (p : Person). p.id) xs)
        + occurrences c (map (λ (p : Person). p.id) seen)
      ≤ 1
unfolding occurrences count_if
distinct-ids seen [] d h c = omega (arith, h c)
distinct-ids seen (x ∷ xs) (fresh, d) h c =
    let ids : List ℕ = map (λ (p : Person). p.id) seen in
    let absent : any (λ n. n == x.id) ids ≡ false =
      any-map (λ n. n == x.id) (λ (p : Person). p.id) seen ∙ fresh in
    let zero : occurrences x.id ids ≡ 0 = occurrences-any x.id ids absent in
    let at : x.id ≡ c → occurrences c ids ≡ 0 = λ e. subst (λ n. occurrences n ids ≡ 0) e zero in
    let more : (n : ℕ) → occurrences n (x.id ∷ ids) ≤ 1 = λ n.
      let at_n : x.id ≡ n → occurrences n ids ≡ 0 =
        λ e. subst (λ k. occurrences k ids ≡ 0) e zero in
      ground (arith, h n, at_n) in
    ground (arith, distinct-ids (x ∷ seen) xs d more c)
