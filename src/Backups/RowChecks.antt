-- ===== src/Backups/RowChecks.antt =====
-- What the parts of `validateManifestRelations` of internal/features/exports/restore/archive.go check, but for the graph.
use family_tree_app.Prelude.{
  ℕ, ◌≤◌, ◌≡◌, Bool, true, false, not, ◌&&◌, ◌||◌, [], ◌==◌, any, count_if, ok, arith, text_eq,
  refl, codes, some, Option,
}
use family_tree_app.Backups.Manifest.{
  Manifest, TreeMember, Person, PersonName, FamilyUnion, UnionMember, MediaAsset, MediaVariant,
  PersonMediaAttachment,
}
use family_tree_app.Backups.Graph.{occurrences}
use family_tree_app.Backups.Validity.{
  check_rows, has_person, has_media, has_union, is_active_owner, is_bad_member, preferred_names,
  validate_people, validate_unions, validate_media, is_missing, validate_pointers,
}
use family_tree_app.Backups.Soundness.{
  check_rows-good, check_rows-AreDistinct, any-false, distinct-ids, any-listed_row, HasPerson,
  HasMedia, HasUnion, PeopleAreSound, UnionsAreSound, MediaAreSound, PointersAreSound,
}

occurrences-empty : (n : ℕ) → occurrences n [] ≤ 1
unfolding occurrences count_if
occurrences-empty n = omega arith

active_owner :
    (k : TreeMember) → k.role ≡ codes "owner" → k.status ≡ codes "active" → is_active_owner k ≡ true
unfolding is_active_owner text_eq
active_owner k role status = rw (role, status) refl

module _ (m : Manifest) where
  pub has_person-HasPerson : (id : ℕ) → has_person m id ≡ true → HasPerson m id
  unfolding has_person
  has_person-HasPerson id h = any-listed_row (λ (p : Person). p.id) m.persons id h

  has_media-HasMedia : (id : ℕ) → has_media m id ≡ true → HasMedia m id
  unfolding has_media
  has_media-HasMedia id h = any-listed_row (λ (a : MediaAsset). a.id) m.media_assets id h

  has_union-HasUnion : (id : ℕ) → has_union m id ≡ true → HasUnion m id
  unfolding has_union
  has_union-HasUnion id h = any-listed_row (λ (u : FamilyUnion). u.id) m.unions id h

  pub validate_people-PeopleAreSound : validate_people m ≡ ok tt → PeopleAreSound m
  unfolding validate_people is_bad_member is_active_owner preferred_names
  validate_people-PeopleAreSound h =
      let bad_name : PersonName → Bool = λ n. (n.id == 0) || not (has_person m n.person_id) in
      let members : check_rows (is_bad_member m) (λ x y. y.user_id == x.user_id) [] m.members
          ≡ ok tt =
        ground (arith, h) in
      let persons : check_rows (λ (p : Person). p.id == 0) (λ x y. y.id == x.id) [] m.persons
          ≡ ok tt =
        ground (arith, h) in
      let names : check_rows bad_name (λ x y. y.id == x.id) [] m.person_names ≡ ok tt =
        ground (arith, h) in
      let preferred : any (λ (p : Person). not (preferred_names m p.id == 1)) m.persons ≡ false =
        ground (arith, h) in
      let good =
        check_rows-good (is_bad_member m) (λ x y. y.user_id == x.user_id) [] m.members members in
      let distinct =
        check_rows-AreDistinct (λ (p : Person). p.id == 0) (λ x y. y.id == x.id) [] m.persons
          persons in
      record {
        owned = λ e. ground (arith, h, e);
        titled = λ e. ground (arith, h, e);
        versioned = ground (arith, h);
        members = λ k i e. ground (arith, good k i, e);
        members_distinct =
            check_rows-AreDistinct (is_bad_member m) (λ x y. y.user_id == x.user_id) [] m.members
              members;
        owner_is = λ k i role status.
            let owner : is_active_owner k ≡ true = active_owner k role status in
            ground (arith, good k i, owner);
        one_owner = ground (arith, h);
        persons = λ p i e. ground (
          arith,
          check_rows-good (λ (p : Person). p.id == 0) (λ x y. y.id == x.id) [] m.persons persons p
              i,
          e,
        );
        persons_distinct =
            λ c. omega (arith, distinct-ids [] m.persons distinct (λ n. occurrences-empty n) c);
        names = λ n i.
            let fine : bad_name n ≡ false =
              check_rows-good bad_name (λ x y. y.id == x.id) [] m.person_names names n i in
            (
              (λ e. ground (arith, fine, e)),
              has_person-HasPerson n.person_id (ground (arith, fine)),
            );
        names_distinct =
            check_rows-AreDistinct bad_name (λ x y. y.id == x.id) [] m.person_names names;
        named = λ p i. ground (
          arith,
          any-false (λ (p : Person). not (preferred_names m p.id == 1)) m.persons preferred p i,
        );
      }

  pub validate_unions-UnionsAreSound : validate_unions m ≡ ok tt → UnionsAreSound m
  unfolding validate_unions
  validate_unions-UnionsAreSound h =
      let bad_seat : UnionMember → Bool =
        λ k. not (has_union m k.union_id) || not (has_person m k.person_id) in
      let same_seat : UnionMember → UnionMember → Bool =
        λ x y. (y.union_id == x.union_id) && (y.person_id == x.person_id) in
      let unions : check_rows (λ (u : FamilyUnion). u.id == 0) (λ x y. y.id == x.id) [] m.unions
          ≡ ok tt =
        ground (arith, h) in
      let seats : check_rows bad_seat same_seat [] m.union_members ≡ ok tt = ground (arith, h) in
      record {
        unions = λ u i e. ground (
          arith,
          check_rows-good (λ (u : FamilyUnion). u.id == 0) (λ x y. y.id == x.id) [] m.unions unions
              u i,
          e,
        );
        unions_distinct =
            check_rows-AreDistinct (λ (u : FamilyUnion). u.id == 0) (λ x y. y.id == x.id) []
              m.unions unions;
        seats = λ k i.
            let fine : bad_seat k ≡ false =
              check_rows-good bad_seat same_seat [] m.union_members seats k i in
            (
              has_union-HasUnion k.union_id (ground (arith, fine)),
              has_person-HasPerson k.person_id (ground (arith, fine)),
            );
        seats_distinct = check_rows-AreDistinct bad_seat same_seat [] m.union_members seats;
      }

  pub validate_media-MediaAreSound : validate_media m ≡ ok tt → MediaAreSound m
  unfolding validate_media
  validate_media-MediaAreSound h =
      let bad_variant : MediaVariant → Bool = λ v. (v.id == 0) || not (has_media m v.media_id) in
      let bad_attachment : PersonMediaAttachment → Bool =
        λ a. not (has_person m a.person_id) || not (has_media m a.media_id) in
      let same_attachment : PersonMediaAttachment → PersonMediaAttachment → Bool =
        λ x y. (y.person_id == x.person_id) && (y.media_id == x.media_id) in
      let assets : check_rows (λ (a : MediaAsset). a.id == 0) (λ x y. y.id == x.id) []
            m.media_assets
          ≡ ok tt =
        ground (arith, h) in
      let variants : check_rows bad_variant (λ x y. y.id == x.id) [] m.media_variants ≡ ok tt =
        ground (arith, h) in
      let attachments : check_rows bad_attachment same_attachment [] m.person_media ≡ ok tt =
        ground (arith, h) in
      record {
        assets = λ a i e. ground (
          arith,
          check_rows-good (λ (a : MediaAsset). a.id == 0) (λ x y. y.id == x.id) [] m.media_assets
              assets a i,
          e,
        );
        assets_distinct =
            check_rows-AreDistinct (λ (a : MediaAsset). a.id == 0) (λ x y. y.id == x.id) []
              m.media_assets assets;
        variants = λ v i.
            let fine : bad_variant v ≡ false =
              check_rows-good bad_variant (λ x y. y.id == x.id) [] m.media_variants variants v i in
            ((λ e. ground (arith, fine, e)), has_media-HasMedia v.media_id (ground (arith, fine)));
        variants_distinct =
            check_rows-AreDistinct bad_variant (λ x y. y.id == x.id) [] m.media_variants variants;
        attachments = λ a i.
            let fine : bad_attachment a ≡ false =
              check_rows-good bad_attachment same_attachment [] m.person_media attachments a i in
            (
              has_person-HasPerson a.person_id (ground (arith, fine)),
              has_media-HasMedia a.media_id (ground (arith, fine)),
            );
        attachments_distinct =
            check_rows-AreDistinct bad_attachment same_attachment [] m.person_media attachments;
      }

  known :
      (test : ℕ → Bool) (pointer : Option ℕ) (id : ℕ)
      → is_missing test pointer ≡ false
      → pointer ≡ some id
      → test id ≡ true
  unfolding is_missing
  known test pointer id h at = ground (arith, h, at)

  pub validate_pointers-PointersAreSound : validate_pointers m ≡ ok tt → PointersAreSound m
  unfolding validate_pointers
  validate_pointers-PointersAreSound h =
      let without : Person → Bool = λ p. is_missing (has_media m) p.primary_media_id in
      let primary : any without m.persons ≡ false = ground (arith, h) in
      record {
        root = λ id at.
            has_person-HasPerson id
              (known (has_person m) (m.tree).root_person_id id (ground (arith, h)) at);
        cover = λ id at.
            has_media-HasMedia id
              (known (has_media m) (m.tree).cover_media_id id (ground (arith, h)) at);
        primary = λ p i id at. has_media-HasMedia id (
            known (has_media m) p.primary_media_id id (any-false without m.persons primary p i) at);
      }
