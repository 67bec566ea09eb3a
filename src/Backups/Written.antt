-- ===== src/Backups/Written.antt =====
-- What `insertTree` and `restoreRecords` of internal/features/exports/restore/postgres.go leave in the tables.
use family_tree_app.Prelude.{
  ℕ, ◌≤◌, ◌≡◌, refl, ap, ◌∙◌, inl, inr, Bool, true, false, none, some, List, [], ◌∷◌, ◌++◌, Text,
  map, ◌==◌, ==_refl, any, count_if, first_row, In, In-any, map-In, ok, Bool-cases, Option-cases,
  Result-cases, arith,
}
use family_tree_app.Backups.Manifest.{Manifest, Tree, Person}
use family_tree_app.Backups.Graph.{occurrences}
use family_tree_app.Backups.Order.{any-listed}
use family_tree_app.Backups.Soundness.{person_ids}
use family_tree_app.Backups.Records.{
  Tables, Call, under, without_media, set_primary, set_tree_pointers, call, insert_people,
  insert_families, restore_pointers, media_row, variant_row, enqueue_processing, insert_all_media,
  restore_records,
}
use family_tree_app.Jobs.Queue.{Job}

module _ {A : Type 0} where
  pub map-same : (f : A → A) (xs : List A) → ((x : A) → In x xs → f x ≡ x) → map f xs ≡ xs
  map-same f [] h = refl
  map-same f (x ∷ xs) h = rw (h x (inl refl), map-same f xs (λ y i. h y (inr i))) refl

  map-append : {B : Type 0} (f : A → B) (xs ys : List A) → map f (xs ++ ys) ≡ map f xs ++ map f ys
  map-append f [] ys = refl
  map-append f (x ∷ xs) ys = ap (λ rest. f x ∷ rest) (map-append f xs ys)

  map-back :
      {B : Type 0} (f : B → B) (g : A → B) (h : A → A) (xs : List A)
      → ((x : A) → In x xs → f (g (h x)) ≡ g x)
      → map f (map g (map h xs)) ≡ map g xs
  map-back f g h [] e = refl
  map-back f g h (x ∷ xs) e = rw (e x (inl refl), map-back f g h xs (λ y i. e y (inr i))) refl

-- The row of a person whose identifier no other has is the first of that identifier.
first_own :
    (p : Person) (ps : List Person)
    → In p ps
    → occurrences p.id (map (λ (q : Person). q.id) ps) ≤ 1
    → first_row (λ (b : Person). b.id == p.id) ps ≡ some p
unfolding first_row occurrences count_if
first_own p [] i h = absurd i
first_own p (x ∷ xs) (inl same) h = rw (same, ==_refl x.id) refl
first_own p (x ∷ xs) (inr i) h = elim (Bool-cases (x.id == p.id)) [
  | inl at ↦
      let ids : List ℕ = map (λ (q : Person). q.id) xs in
      let there : any (λ n. n == p.id) ids ≡ true =
        In-any p.id (λ n. n == p.id) ids (map-In p (λ (q : Person). q.id) xs i) (==_refl p.id) in
      absurd (ground (arith, h, at, any-listed p.id ids there))
  | inr away ↦ rw away (first_own p xs i (ground (arith, h, away)))
]

module _ (m : Manifest) where
  -- The pointer of a person that was inserted is the one of the backup.
  primary_back :
      (p : Person)
      → In p m.persons
      → occurrences p.id (person_ids m) ≤ 1
      → set_primary (m.tree).id m.persons ((m.tree).id, without_media p) ≡ ((m.tree).id, p)
  unfolding set_primary without_media
  primary_back p i h = elim (Option-cases p.primary_media_id) [
    | inl bare ↦ rw (first_own p m.persons i h, set_primary, bare) refl
    | inr (media, at) ↦ rw (first_own p m.persons i h, set_primary, at, ==_refl (m.tree).id) refl
  ]

  primary_other :
      (row : ℕ × Person)
      → (row.0 == (m.tree).id) ≡ false
      → set_primary (m.tree).id m.persons row ≡ row
  unfolding set_primary
  primary_other row other =
      elim (Option-cases (first_row (λ (b : Person). b.id == row.1.id) m.persons)) [
        | inl missing ↦ rw (missing, set_primary) refl
        | inr (b, found) ↦ elim (Option-cases b.primary_media_id) [
          | inl bare ↦ rw (found, set_primary, bare) refl
          | inr (media, at) ↦ rw (found, set_primary, at, other) refl
        ]
      ]

  pub persons_back :
      (rows : List (ℕ × Person))
      → ((row : ℕ × Person) → In row rows → (row.0 == (m.tree).id) ≡ false)
      → ((c : ℕ) → occurrences c (person_ids m) ≤ 1)
      → map
          (set_primary (m.tree).id m.persons)
          (rows ++ under (m.tree).id (map without_media m.persons))
        ≡ rows ++ under (m.tree).id m.persons
  persons_back rows others distinct =
      let f = set_primary (m.tree).id m.persons in
      map-append f rows (under (m.tree).id (map without_media m.persons))
      ∙ ap (λ kept. kept ++ map f (under (m.tree).id (map without_media m.persons)))
          (map-same f rows (λ row i. primary_other row (others row i)))
      ∙ ap (λ new. rows ++ new)
          (map-back f (λ (p : Person). ((m.tree).id, p)) without_media m.persons
            (λ p i. primary_back p i (distinct p.id)))

  pub tree_other : (t : Tree) → (t.id == (m.tree).id) ≡ false → set_tree_pointers m.tree t ≡ t
  unfolding set_tree_pointers
  tree_other t other = rw other refl

  pub tree_back :
      set_tree_pointers m.tree (record (m.tree) { root_person_id = none; cover_media_id = none })
      ≡ m.tree
  unfolding set_tree_pointers
  tree_back = rw (==_refl (m.tree).id) refl

module _ (io : Call → Bool) (uuid_string : ℕ → Text) (json_valid : Text → Bool)
    (canonical_json : Text → Text) (derive : ℕ → Text → ℕ) (now : ℕ) (m : Manifest) where
  people_made :
      (db out : Tables)
      → insert_people io m db ≡ ok out
      → out ≡ record db {
        members = db.members ++ under (m.tree).id m.members;
        persons = db.persons ++ under (m.tree).id (map without_media m.persons);
        person_names = db.person_names ++ under (m.tree).id m.person_names;
      }
  unfolding insert_people call
  people_made db out h = ground (arith, h)

  families_made :
      (db out : Tables)
      → insert_families io m db ≡ ok out
      → out ≡ record db {
        relations = db.relations ++ under (m.tree).id m.parent_child_relations;
        unions = db.unions ++ under (m.tree).id m.unions;
        union_members = db.union_members ++ under (m.tree).id m.union_members;
      }
  unfolding insert_families call
  families_made db out h = ground (arith, h)

  media_made :
      (db out : Tables)
      → insert_all_media io uuid_string json_valid canonical_json derive m now db ≡ ok out
      → (jobs : List Job) × (enqueue_processing io uuid_string json_valid canonical_json derive m
            now m.media_assets db.jobs
          ≡ ok jobs)
        × (out ≡ record db {
          media_assets =
              db.media_assets
              ++ under (m.tree).id (
                  map
                    (media_row io uuid_string json_valid canonical_json derive (m.tree).id now)
                    m.media_assets);
          media_variants =
              db.media_variants
              ++ under (m.tree).id (
                  map
                    (variant_row io uuid_string json_valid canonical_json derive (m.tree).id)
                    m.media_variants);
          person_media = db.person_media ++ under (m.tree).id m.person_media;
          jobs = jobs;
        })
  unfolding insert_all_media call
  media_made db out h =
      elim (Result-cases (
        enqueue_processing io uuid_string json_valid canonical_json derive m now m.media_assets
          db.jobs)) [
            | inr (e, refusal) ↦ absurd (ground (arith, h, refusal))
            | inl (jobs, enqueued) ↦ (jobs, enqueued, ground (arith, h, enqueued))
          ]

  pointers_made :
      (db out : Tables)
      → restore_pointers io m db ≡ ok out
      → out ≡ record db {
        persons = map (set_primary (m.tree).id m.persons) db.persons;
        trees = map (set_tree_pointers m.tree) db.trees;
      }
  unfolding restore_pointers call
  pointers_made db out h = ground (arith, h)

  pub records_made :
      (db after : Tables)
      → restore_records io uuid_string json_valid canonical_json derive m now db ≡ ok after
      → (jobs : List Job) × (enqueue_processing io uuid_string json_valid canonical_json derive m
            now m.media_assets db.jobs
          ≡ ok jobs)
        × (after ≡ record {
          trees = map (set_tree_pointers m.tree) db.trees;
          members = db.members ++ under (m.tree).id m.members;
          persons =
              map
                (set_primary (m.tree).id m.persons)
                (db.persons ++ under (m.tree).id (map without_media m.persons));
          person_names = db.person_names ++ under (m.tree).id m.person_names;
          relations = db.relations ++ under (m.tree).id m.parent_child_relations;
          unions = db.unions ++ under (m.tree).id m.unions;
          union_members = db.union_members ++ under (m.tree).id m.union_members;
          media_assets =
              db.media_assets
              ++ under (m.tree).id (
                  map
                    (media_row io uuid_string json_valid canonical_json derive (m.tree).id now)
                    m.media_assets);
          media_variants =
              db.media_variants
              ++ under (m.tree).id (
                  map
                    (variant_row io uuid_string json_valid canonical_json derive (m.tree).id)
                    m.media_variants);
          person_media = db.person_media ++ under (m.tree).id m.person_media;
          jobs = jobs;
          restored = ((m.tree).id, (m.export_metadata).id) ∷ db.restored;
        })
  unfolding restore_records call
  records_made db after h = elim (Result-cases (insert_people io m db)) [
    | inr (e, r) ↦ absurd (ground (arith, h, r))
    | inl (people, h1) ↦ elim (Result-cases (insert_families io m people)) [
      | inr (e, r) ↦ absurd (ground (arith, h, h1, r))
      | inl (families, h2) ↦
          elim (Result-cases
            (insert_all_media io uuid_string json_valid canonical_json derive m now families)) [
              | inr (e, r) ↦ absurd (ground (arith, h, h1, h2, r))
              | inl (media, h3) ↦ elim (Result-cases (restore_pointers io m media)) [
                | inr (e, r) ↦ absurd (ground (arith, h, h1, h2, h3, r))
                | inl (pointed, h4) ↦
                    let last : after ≡ record pointed {
                      restored = ((m.tree).id, (m.export_metadata).id) ∷ pointed.restored;
                    } =
                      ground (arith, h, h1, h2, h3, h4) in
                    let e1 = people_made db people h1 in
                    let e2 = families_made people families h2 in
                    let (jobs, enqueued, e3) = media_made families media h3 in
                    let e4 = pointers_made media pointed h4 in
                    let before : families.jobs ≡ db.jobs = rw (e2, e1) refl in
                    (jobs, rw (← before) enqueued, rw (last, e4, e3, e2, e1) refl)
              ]
            ]
    ]
  ]
