-- ===== src/Backups/Filling.antt =====
-- `insertTree` and `restoreRecords` of internal/features/exports/restore/postgres.go write each row of the backup.
use family_tree_app.Prelude.{
  ℕ, ◌≡◌, ◌⊎◌, refl, ap, sym, ◌∙◌, subst, inl, inr, Bool, true, false, none, List, [], ◌∷◌, ◌++◌,
  Text, codes, text_eq, map, ◌==◌, any, ◌≤◌, trim_space, trim_left, trim_right, is_space, In,
  In-append_left, In-append_right, map-In, ok, Bool-cases, Result-cases, arith,
}
use family_tree_app.Backups.Manifest.{Manifest, Tree, Person, MediaAsset, MediaVariant}
use family_tree_app.Backups.Graph.{occurrences}
use family_tree_app.Backups.Soundness.{person_ids, any-false}
use family_tree_app.Backups.Restorer.{original_object_key, variant_object_key}
use family_tree_app.Backups.Records.{
  Tables, Call, set_primary, without_media, MediaRow, under, restored_media_state,
  set_tree_pointers, call, insert_tree_row, process_job, media_row, variant_row, enqueue_processing,
  restore_records,
}
use family_tree_app.Backups.Written.{map-same, persons_back, tree_other, tree_back, records_made}
use family_tree_app.Jobs.Queue.{Job, EnqueueRequest}
use family_tree_app.Jobs.Enqueue.{enqueue_with}
use family_tree_app.Jobs.Answers.{IsAnswer, enqueue_with-IsAnswer}
use family_tree_app.Backups.Rows.{IsStateOf, text_eq-other, IsProcessing, IsWritten}

module _ (io : Call → Bool) (uuid_string : ℕ → Text) (json_valid : Text → Bool)
    (canonical_json : Text → Text) (derive : ℕ → Text → ℕ) (now : ℕ) (m : Manifest) where
  state_row : (a : MediaAsset) → MediaRow
  state_row a = media_row io uuid_string json_valid canonical_json derive (m.tree).id now a

  state_row-IsStateOf : (a : MediaAsset) → IsStateOf a now (state_row a)
  unfolding state_row media_row restored_media_state text_eq
  state_row-IsStateOf a = record {
    pending = λ e. rw e (refl, refl, refl);
    waiting = λ e. elim e [ inl p ↦ rw p (refl, refl, refl) | inr u ↦ rw u (refl, refl, refl) ];
    rejected = λ e. rw e (refl, refl, refl);
    other = λ p q u r.
        rw
          (
            text_eq-other a.status _ p,
            text_eq-other a.status _ q,
            text_eq-other a.status _ u,
            text_eq-other a.status _ r,
          )
          (refl, refl, refl);
  }

  state_row-same :
      (a : MediaAsset)
      → record (state_row a).asset { status = a.status; processed_at = a.processed_at } ≡ a
  unfolding state_row media_row
  state_row-same a = refl

  state_row-key :
      (a : MediaAsset)
      → (state_row a).object_key
        ≡ codes "trees/"
          ++ (uuid_string (m.tree).id
              ++ (codes "/media/" ++ (uuid_string a.id ++ codes "/original")))
  unfolding state_row media_row original_object_key
  state_row-key a = refl

  waiting-processed :
      (a : MediaAsset)
      → (a.status ≡ codes "processing") ⊎ (a.status ≡ codes "uploaded")
      → (restored_media_state a now).3 ≡ true
  unfolding restored_media_state text_eq
  waiting-processed a (inl p) = rw p refl
  waiting-processed a (inr u) = rw u refl

  request_of : (a : MediaAsset) → EnqueueRequest
  request_of a = process_job io uuid_string json_valid canonical_json derive m a.id now

  answer-IsProcessing :
      (a : MediaAsset) (js out : List Job) (j : Job)
      → IsAnswer canonical_json (request_of a) js out j
      → IsProcessing uuid_string canonical_json now m a j
  unfolding request_of process_job trim_space trim_left trim_right is_space
  answer-IsProcessing a js out j r = record {
    kind = r.kind;
    key = r.key;
    payload = r.payload;
    attempts = r.attempts;
  }

  record JobsEnqueued (assets : List MediaAsset) (js out : List Job) : Type 0 where
    kept : (j : Job) → In j js → In j out
    added :
        (a : MediaAsset)
        → In a assets
        → (a.status ≡ codes "processing") ⊎ (a.status ≡ codes "uploaded")
        → (j : Job) × In j out × IsProcessing uuid_string canonical_json now m a j

  enqueue_processing-JobsEnqueued :
      (assets : List MediaAsset) (js out : List Job)
      → enqueue_processing io uuid_string json_valid canonical_json derive m now assets js ≡ ok out
      → JobsEnqueued assets js out
  unfolding enqueue_processing request_of
  enqueue_processing-JobsEnqueued [] js out h =
      let same : js ≡ out = ground (arith, h) in
      record { kept = λ j i. subst (In j) same i; added = λ a i. absurd i }
  enqueue_processing-JobsEnqueued (a ∷ rest) js out h =
      elim (Bool-cases (restored_media_state a now).3) [
        | inr idle ↦
            let others = enqueue_processing-JobsEnqueued rest js out (ground (arith, h, idle)) in
            record {
              kept = others.kept;
              added = λ b i waits. elim i [
                | inl same ↦
                    let busy = waiting-processed b waits in
                    absurd (
                      ground
                        (arith, subst (λ x. (restored_media_state x now).3 ≡ true) same busy, idle))
                | inr at ↦ others.added b at waits
              ];
            }
        | inl busy ↦
            elim (Result-cases (enqueue_with json_valid canonical_json (request_of a) js)) [
              | inr (e, refusal) ↦ absurd (ground (arith, h, busy, refusal))
              | inl ((j, created, more), answered) ↦
                  let r =
                    enqueue_with-IsAnswer json_valid canonical_json (request_of a) js more j created
                      answered in
                  let others =
                    enqueue_processing-JobsEnqueued rest more out
                      (ground (arith, h, busy, answered)) in
                  record {
                    kept = λ k i. others.kept k (r.kept k i);
                    added = λ b i waits. elim i [
                      | inl same ↦
                          rw same (j, others.kept j r.listed, answer-IsProcessing a js more j r)
                      | inr at ↦ others.added b at waits
                    ];
                  }
            ]
      ]

  -- The table of the trees, with the tree of the backup.
  tree_made :
      (before with_tree : Tables)
      → insert_tree_row io m.tree before ≡ ok with_tree
      → with_tree ≡ record before {
        trees = record (m.tree) { root_person_id = none; cover_media_id = none } ∷ before.trees;
      }
  unfolding insert_tree_row call
  tree_made before with_tree h = ground (arith, h)

  pub tree-new :
      (before with_tree : Tables)
      → insert_tree_row io m.tree before ≡ ok with_tree
      → any (λ (t : Tree). t.id == (m.tree).id) before.trees ≡ false
  unfolding insert_tree_row call
  tree-new before with_tree h = ground (arith, h)

  variants_back :
      (variants : List MediaVariant)
      → under
          (m.tree).id
          (map (variant_row io uuid_string json_valid canonical_json derive (m.tree).id) variants)
        ≡ map
            (λ (v : MediaVariant). (
              (m.tree).id,
              record {
                variant = v;
                object_key =
                    codes "trees/"
                    ++ (uuid_string (m.tree).id
                        ++ (codes "/media/"
                            ++ (uuid_string v.media_id
                                ++ (codes "/variants/" ++ (v.kind ++ codes ".jpg")))));
              },
            ))
            variants
  unfolding variant_row variant_object_key
  variants_back [] = refl
  variants_back (v ∷ rest) =
      ap
        (λ rows.
          ((m.tree).id, variant_row io uuid_string json_valid canonical_json derive (m.tree).id v)
          ∷ rows)
        (variants_back rest)

  pub records-IsWritten :
      (before with_tree after : Tables)
      → ((row : ℕ × Person)
          → In row before.persons
          → any (λ (t : Tree). t.id == row.0) before.trees ≡ true)
      → ((c : ℕ) → occurrences c (person_ids m) ≤ 1)
      → insert_tree_row io m.tree before ≡ ok with_tree
      → restore_records io uuid_string json_valid canonical_json derive m now with_tree ≡ ok after
      → IsWritten uuid_string canonical_json now m before after
  unfolding state_row
  records-IsWritten before with_tree after filed distinct inserted restored =
      let made = tree_made before with_tree inserted in
      let absent = tree-new before with_tree inserted in
      let (jobs, queued, e) =
        records_made io uuid_string json_valid canonical_json derive now m with_tree after
          restored in
      let others : (row : ℕ × Person) → In row before.persons → (row.0 == (m.tree).id) ≡ false =
        λ row i. elim (Bool-cases (row.0 == (m.tree).id)) [
          | inr away ↦ away
          | inl same ↦
              let at : row.0 ≡ (m.tree).id = ground (arith, same) in
              let there =
                subst (λ id. any (λ (t : Tree). t.id == id) before.trees ≡ true) at (filed row i) in
              absurd (ground (arith, there, absent))
        ] in
      let rest : map (set_tree_pointers m.tree) before.trees ≡ before.trees =
        map-same (set_tree_pointers m.tree) before.trees (λ t i.
          tree_other m t (any-false (λ (u : Tree). u.id == (m.tree).id) before.trees absent t i)) in
      let j = enqueue_processing-JobsEnqueued m.media_assets with_tree.jobs jobs queued in
      let after_jobs : after.jobs ≡ jobs = ap (λ (t : Tables). t.jobs) e in
      let media : after.media_assets
          ≡ before.media_assets ++ under (m.tree).id (map state_row m.media_assets) =
        ap (λ (t : Tables). t.media_assets) e
        ∙ ap (λ (t : Tables). t.media_assets ++ under (m.tree).id (map state_row m.media_assets))
            made in
      let same_jobs : with_tree.jobs ≡ before.jobs = ap (λ (t : Tables). t.jobs) made in
      record {
        trees =
            ap (λ (t : Tables). t.trees) e
            ∙ ap (λ (t : Tables). map (set_tree_pointers m.tree) t.trees) made
            ∙ ap (λ t. t ∷ map (set_tree_pointers m.tree) before.trees) (tree_back m)
            ∙ ap (λ ts. m.tree ∷ ts) rest;
        members =
            ap (λ (t : Tables). t.members) e
            ∙ ap (λ (t : Tables). t.members ++ under (m.tree).id m.members) made;
        persons =
            ap (λ (t : Tables). t.persons) e
            ∙ ap
                (λ (t : Tables).
                  map (set_primary (m.tree).id m.persons)
                    (t.persons ++ under (m.tree).id (map without_media m.persons)))
                made
            ∙ persons_back m before.persons others distinct;
        person_names =
            ap (λ (t : Tables). t.person_names) e
            ∙ ap (λ (t : Tables). t.person_names ++ under (m.tree).id m.person_names) made;
        relations =
            ap (λ (t : Tables). t.relations) e
            ∙ ap (λ (t : Tables). t.relations ++ under (m.tree).id m.parent_child_relations) made;
        unions =
            ap (λ (t : Tables). t.unions) e
            ∙ ap (λ (t : Tables). t.unions ++ under (m.tree).id m.unions) made;
        union_members =
            ap (λ (t : Tables). t.union_members) e
            ∙ ap (λ (t : Tables). t.union_members ++ under (m.tree).id m.union_members) made;
        old_media = λ r i. subst (In r) (sym media) (In-append_left r _ _ i);
        media_assets = λ a i. (
          state_row a,
          subst (In ((m.tree).id, state_row a)) (sym media) (
              In-append_right _ before.media_assets _
                (map-In (state_row a) (λ x. ((m.tree).id, x)) _ (map-In a state_row _ i))),
          state_row-key a,
          state_row-same a,
          state_row-IsStateOf a,
        );
        media_variants =
            ap (λ (t : Tables). t.media_variants) e
            ∙ ap
                (λ (t : Tables).
                  t.media_variants
                  ++ under (m.tree).id (
                      map (variant_row io uuid_string json_valid canonical_json derive (m.tree).id)
                        m.media_variants))
                made
            ∙ ap (λ rows. before.media_variants ++ rows) (variants_back m.media_variants);
        person_media =
            ap (λ (t : Tables). t.person_media) e
            ∙ ap (λ (t : Tables). t.person_media ++ under (m.tree).id m.person_media) made;
        old_jobs = λ k i. subst (In k) (sym after_jobs) (j.kept k (subst (In k) (sym same_jobs) i));
        jobs = λ a i waits.
            let (k, at, p) = j.added a i waits in (k, subst (In k) (sym after_jobs) at, p);
        audited =
            ap (λ (t : Tables). t.restored) e
            ∙ ap (λ (t : Tables). ((m.tree).id, (m.export_metadata).id) ∷ t.restored) made;
      }
