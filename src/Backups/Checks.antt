-- ===== src/Backups/Checks.antt =====
-- A backup that `validateManifestRelations` accepts is fit to be restored.
use family_tree_app.Prelude.{
  refl, map-In, select-In, length-map, any-map, ℕ, ◌≤◌, ◌≡◌, ap, sym, ◌∙◌, true, false, List, [],
  is_none, ◌==◌, any, length, select, In, In-map, In-select, ok, arith,
}
use family_tree_app.Backups.Manifest.{Manifest, Person, ParentChildRelation}
use family_tree_app.Backups.Graph.{Edge, occurrences, visited_persons}
use family_tree_app.Backups.Search.{IsNumbering, search_iff, persons_visited}
use family_tree_app.Backups.Validity.{
  check_rows, has_person, is_bad_relation, same_relation, active_edges, validate_people,
  validate_graph, validate_unions, validate_media, validate_pointers, validate_manifest_relations,
}
use family_tree_app.Backups.RowChecks.{
  has_person-HasPerson, validate_people-PeopleAreSound, validate_unions-UnionsAreSound,
  validate_media-MediaAreSound, validate_pointers-PointersAreSound,
}
use family_tree_app.Backups.Soundness.{
  GraphIsSound, check_rows-good, check_rows-AreDistinct, person_ids, IsSound,
}

module _ (m : Manifest) where
  graph_rows :
      (order : List ℕ)
      → validate_graph order m ≡ ok tt
      → check_rows (is_bad_relation m) same_relation [] m.parent_child_relations ≡ ok tt
  unfolding validate_graph
  graph_rows order h = ground (arith, h)

  graph_count :
      (order : List ℕ)
      → validate_graph order m ≡ ok tt
      → (visited_persons (active_edges m) (length m.persons) order).0 ≡ length m.persons
  unfolding validate_graph
  graph_count order h = ground (arith, h)

  -- The relations that are active are between persons of the backup.
  edges_known :
      ((r : ParentChildRelation)
        → In r m.parent_child_relations
        → (has_person m r.parent_person_id ≡ true) × (has_person m r.child_person_id ≡ true))
      → (e : Edge) → In e (active_edges m)
      → (any (λ x. x == e.0) (person_ids m) ≡ true) × (any (λ x. x == e.1) (person_ids m) ≡ true)
  unfolding active_edges has_person
  edges_known related e i =
      let (r, j, made) =
        In-map e (λ (r : ParentChildRelation). (r.parent_person_id, r.child_person_id))
          (select (λ (r : ParentChildRelation). is_none r.deleted_at) m.parent_child_relations) i in
      let (listed, _) =
        In-select r (λ (r : ParentChildRelation). is_none r.deleted_at) m.parent_child_relations
          j in
      let (parent, child) = related r listed in
      rw made (
        any-map (λ x. x == r.parent_person_id) (λ (p : Person). p.id) m.persons ∙ parent,
        any-map (λ x. x == r.child_person_id) (λ (p : Person). p.id) m.persons ∙ child,
      )

  graph_acyclic :
      (order : List ℕ)
      → ((c : ℕ) → occurrences c (person_ids m) ≤ 1)
      → ((c : ℕ) → occurrences c order ≡ occurrences c (person_ids m))
      → ((r : ParentChildRelation)
          → In r m.parent_child_relations
          → (has_person m r.parent_person_id ≡ true) × (has_person m r.child_person_id ≡ true))
      → validate_graph order m ≡ ok tt
      → (rank : ℕ → ℕ) × IsNumbering (active_edges m) rank
  graph_acyclic order distinct reordered related h =
      let edges : List Edge = active_edges m in
      let parents = λ (e : Edge) (i : In e edges). (edges_known related e i).0 in
      let known = λ (e : Edge) (i : In e edges). (edges_known related e i).1 in
      let n : length (person_ids m) ≡ length m.persons =
        length-map (λ (p : Person). p.id) m.persons in
      let (final, last, run, _, _) =
        persons_visited edges (person_ids m) order distinct reordered parents known in
      let count : (visited_persons edges (length (person_ids m)) order).0 ≡ length (person_ids m) =
        rw n (graph_count order h) in
      let full : length final ≡ length (person_ids m) =
        ap (λ (r : ℕ × List ℕ). r.0) (sym run) ∙ count in
      let pair : ℕ → ℕ × List ℕ = λ k. (k, []) in
      (search_iff edges (person_ids m) order distinct reordered parents known).0
        (run ∙ ap pair full)

  relation_known :
      (r : ParentChildRelation)
      → is_bad_relation m r ≡ false
      → (has_person m r.parent_person_id ≡ true) × (has_person m r.child_person_id ≡ true)
  unfolding is_bad_relation
  relation_known r h = (ground (arith, h), ground (arith, h))

  related :
      (order : List ℕ)
      → validate_graph order m ≡ ok tt
      → (r : ParentChildRelation) → In r m.parent_child_relations
      → (has_person m r.parent_person_id ≡ true) × (has_person m r.child_person_id ≡ true)
  related order h r i = relation_known r (
      check_rows-good (is_bad_relation m) same_relation [] m.parent_child_relations
        (graph_rows order h) r i)

  validate_graph-GraphIsSound :
      (order : List ℕ)
      → ((c : ℕ) → occurrences c (person_ids m) ≤ 1)
      → ((c : ℕ) → occurrences c order ≡ occurrences c (person_ids m))
      → validate_graph order m ≡ ok tt
      → GraphIsSound m
  unfolding is_bad_relation same_relation active_edges
  validate_graph-GraphIsSound order distinct reordered h =
      let rows = graph_rows order h in
      let (rank, numbering) = graph_acyclic order distinct reordered (related order h) h in
      record {
        relations = λ r i.
            let good =
              check_rows-good (is_bad_relation m) same_relation [] m.parent_child_relations rows r
                i in
            let (parent, child) = relation_known r good in
            (
              (λ e. ground (arith, good, e)),
              (λ e. ground (arith, good, e)),
              has_person-HasPerson m r.parent_person_id parent,
              has_person-HasPerson m r.child_person_id child,
            );
        relations_distinct =
            check_rows-AreDistinct (is_bad_relation m) same_relation [] m.parent_child_relations
              rows;
        acyclic = (
          rank,
          λ r i live.
              numbering.rises (r.parent_person_id, r.child_person_id)
                (map-In r (λ (s : ParentChildRelation). (s.parent_person_id, s.child_person_id)) _
                  (select-In r (λ (s : ParentChildRelation). is_none s.deleted_at)
                    m.parent_child_relations i (rw live refl))),
        );
      }

  pub validated_parts :
      (order : List ℕ)
      → validate_manifest_relations order m ≡ ok tt
      → (validate_people m ≡ ok tt)
        × (validate_graph order m ≡ ok tt)
        × (validate_unions m ≡ ok tt)
        × (validate_media m ≡ ok tt)
        × (validate_pointers m ≡ ok tt)
  unfolding validate_manifest_relations
  validated_parts order h = (
    ground (arith, h),
    ground (arith, h),
    ground (arith, h),
    ground (arith, h),
    ground (arith, h),
  )

  -- A backup that the checks accept is sound, in whatever order the code ranges over the map of the persons. Its rows have
  -- identifiers, and none is there twice; what a row names, and what the tree names as its first person and its cover, is there;
  -- the tree has a name, a version and an owner, who is its one active owner; each person has one preferred name; and the
  -- active relations have no cycle, as the persons can be numbered so that each relation leads to a higher number. The order has
  -- the same identifiers as the persons.
  pub validate_manifest_relations-IsSound :
      (order : List ℕ)
      → ((c : ℕ) → occurrences c order ≡ occurrences c (person_ids m))
      → validate_manifest_relations order m ≡ ok tt
      → IsSound m
  validate_manifest_relations-IsSound order reordered h =
      let (p, g, u, a, x) = validated_parts order h in
      let people = validate_people-PeopleAreSound m p in
      record {
        people = people;
        graph = validate_graph-GraphIsSound order people.persons_distinct reordered g;
        union_rows = validate_unions-UnionsAreSound m u;
        media = validate_media-MediaAreSound m a;
        pointers = validate_pointers-PointersAreSound m x;
      }
