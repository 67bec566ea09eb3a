-- ===== src/Backups/Records.antt =====
-- `insertTree` and `restoreRecords` of internal/features/exports/restore/postgres.go: the rows of a backup, written into the
-- tables under the tree's identifier. A row stands beside the identifier of its tree. `io c` says whether the database
-- answers the statements of a loop and accepts their rows; `derive` is `uuid.NewSHA1` under the export's identifier.
use family_tree_app.Prelude.{
  ℕ, Bool, true, false, not, ◌||◌, Option, none, some, List, [], ◌∷◌, ◌++◌, Text, codes, text_eq,
  ◌==◌, if◌then◌else◌, map, any, first_row, or_keep, Result, ok, err, refuse_if, ◌>>=◌, ◌>>◌,
}
use family_tree_app.Backups.Manifest.{
  Manifest, Tree, TreeMember, Person, PersonName, ParentChildRelation, FamilyUnion, UnionMember,
  MediaAsset, MediaVariant, PersonMediaAttachment,
}
use family_tree_app.Backups.Validity.{restore_conflict}
use family_tree_app.Backups.Restorer.{
  Failure, refused, database_failure, original_object_key, variant_object_key,
}
use family_tree_app.Jobs.Queue.{Job, EnqueueRequest}
use family_tree_app.Jobs.Enqueue.{enqueue_with}

pub record MediaRow : Type 0 where
  pub asset : MediaAsset
  pub object_key : Text
  pub processing_error : Text

pub record VariantRow : Type 0 where
  pub variant : MediaVariant
  pub object_key : Text

pub record Tables : Type 0 where
  pub trees : List Tree
  pub members : List (ℕ × TreeMember)
  pub persons : List (ℕ × Person)
  pub person_names : List (ℕ × PersonName)
  pub relations : List (ℕ × ParentChildRelation)
  pub unions : List (ℕ × FamilyUnion)
  pub union_members : List (ℕ × UnionMember)
  pub media_assets : List (ℕ × MediaRow)
  pub media_variants : List (ℕ × VariantRow)
  pub person_media : List (ℕ × PersonMediaAttachment)
  pub jobs : List Job
  pub restored : List (ℕ × ℕ)

pub data Call : Type 0 where
  begin insert_tree insert_members insert_persons insert_names insert_relations insert_unions : Call
  insert_union_members insert_media insert_variants insert_attachments enqueue set_pointers : Call
  write_audit read_audit : Call

abbrev pub under {ℓ} : {A : Type ℓ} → ℕ → List A → List (ℕ × A)
under tree_id xs = map (λ x. (tree_id, x)) xs

-- The status of an asset, its error, the time of its processing, and whether it is processed again.
unfoldable pub restored_media_state : MediaAsset → ℕ → Text × Text × Option ℕ × Bool
restored_media_state asset now =
    if text_eq asset.status (codes "pending")
    then (codes "rejected", codes "incomplete upload was not restored", some now, false)
    else if text_eq asset.status (codes "processing") || text_eq asset.status (codes "uploaded")
    then (codes "uploaded", codes "", none, true)
    else if text_eq asset.status (codes "rejected")
    then (
      codes "rejected",
      codes "rejected media restored without processing details",
      some (or_keep asset.processed_at now),
      false,
    )
    else (asset.status, codes "", asset.processed_at, false)

unfoldable pub without_media : Person → Person
without_media p = record p { primary_media_id = none }

-- `UPDATE persons SET primary_media_id`, for each person of the backup that has one.
unfoldable pub set_primary : ℕ → List Person → ℕ × Person → ℕ × Person
set_primary tree_id backup (t, p) = elim (first_row (λ (b : Person). b.id == p.id) backup) [
  | none ↦ (t, p)
  | some b ↦ elim b.primary_media_id [
    | none ↦ (t, p)
    | some media ↦ if t == tree_id then (t, record p { primary_media_id = some media }) else (t, p)
  ]
]

unfoldable pub set_tree_pointers : Tree → Tree → Tree
set_tree_pointers backup t =
    if t.id == backup.id
    then record t { root_person_id = backup.root_person_id; cover_media_id = backup.cover_media_id }
    else t

module _ (io : Call → Bool) where
  unfoldable pub call : Call → Result Failure (Unit {0})
  call c = refuse_if (not (io c)) database_failure

  -- A tree that is there already is a conflict.
  unfoldable pub insert_tree_row : Tree → Tables → Result Failure Tables
  unfolding call
  insert_tree_row tree db = do
    call insert_tree
    refuse_if (any (λ (t : Tree). t.id == tree.id) db.trees) (refused restore_conflict)
    ok (record db {
      trees = record tree { root_person_id = none; cover_media_id = none } ∷ db.trees;
    })

  unfoldable pub insert_people : Manifest → Tables → Result Failure Tables
  unfolding call without_media
  insert_people m db = do
    let id = (m.tree).id
    call insert_members
    call insert_persons
    call insert_names
    ok (record db {
      members = db.members ++ under id m.members;
      persons = db.persons ++ under id (map without_media m.persons);
      person_names = db.person_names ++ under id m.person_names;
    })

  unfoldable pub insert_families : Manifest → Tables → Result Failure Tables
  unfolding call
  insert_families m db = do
    let id = (m.tree).id
    call insert_relations
    call insert_unions
    call insert_union_members
    ok (record db {
      relations = db.relations ++ under id m.parent_child_relations;
      unions = db.unions ++ under id m.unions;
      union_members = db.union_members ++ under id m.union_members;
    })

  unfoldable pub restore_pointers : Manifest → Tables → Result Failure Tables
  unfolding call set_primary set_tree_pointers
  restore_pointers m db = do
    call set_pointers
    ok (record db {
      persons = map (set_primary (m.tree).id m.persons) db.persons;
      trees = map (set_tree_pointers m.tree) db.trees;
    })

module _ (io : Call → Bool) (uuid_string : ℕ → Text) (json_valid : Text → Bool)
    (canonical_json : Text → Text) (derive : ℕ → Text → ℕ) where
  unfoldable pub process_job : Manifest → ℕ → ℕ → EnqueueRequest
  process_job m media_id now = record {
    id = derive (m.export_metadata).id (codes "restore-job:" ++ uuid_string media_id);
    kind = codes "media.process";
    deduplication_key = uuid_string media_id;
    payload =
        codes "{\"tree_id\":\""
        ++ uuid_string (m.tree).id
        ++ codes "\",\"media_id\":\""
        ++ uuid_string media_id
        ++ codes "\"}";
    max_attempts = 5;
    available_at = now;
    created_at = now;
  }

  unfoldable pub media_row : ℕ → ℕ → MediaAsset → MediaRow
  unfolding restored_media_state original_object_key
  media_row tree_id now asset =
      let (status, problem, processed_at, _) = restored_media_state asset now in
      record {
        asset = record asset { status = status; processed_at = processed_at };
        object_key = original_object_key uuid_string tree_id asset.id;
        processing_error = problem;
      }

  unfoldable pub variant_row : ℕ → MediaVariant → VariantRow
  unfolding variant_object_key
  variant_row tree_id variant = record {
    variant = variant;
    object_key = variant_object_key uuid_string tree_id variant.media_id variant.kind;
  }

  -- The jobs that process the assets again.
  unfoldable pub enqueue_processing :
      Manifest → ℕ → List MediaAsset → List Job → Result Failure (List Job)
  unfolding restored_media_state process_job
  enqueue_processing m now [] jobs = ok jobs
  enqueue_processing m now (a ∷ rest) jobs = elim (restored_media_state a now).3 [
    | false ↦ enqueue_processing m now rest jobs
    | true ↦ elim (enqueue_with json_valid canonical_json (process_job m a.id now) jobs) [
      | err _ ↦ err database_failure
      | ok out ↦ enqueue_processing m now rest out.2
    ]
  ]

  unfoldable pub insert_all_media : Manifest → ℕ → Tables → Result Failure Tables
  unfolding call media_row variant_row enqueue_processing
  insert_all_media m now db = do
    let id = (m.tree).id
    call io insert_media
    call io enqueue
    jobs ← enqueue_processing m now m.media_assets db.jobs
    call io insert_variants
    call io insert_attachments
    ok (record db {
      media_assets = db.media_assets ++ under id (map (media_row id now) m.media_assets);
      media_variants = db.media_variants ++ under id (map (variant_row id) m.media_variants);
      person_media = db.person_media ++ under id m.person_media;
      jobs = jobs;
    })

  unfoldable pub restore_records : Manifest → ℕ → Tables → Result Failure Tables
  unfolding call insert_people insert_families insert_all_media restore_pointers
  restore_records m now db = do
    people ← insert_people io m db
    families ← insert_families io m people
    media ← insert_all_media m now families
    pointed ← restore_pointers io m media
    call io write_audit
    ok (record pointed { restored = ((m.tree).id, (m.export_metadata).id) ∷ pointed.restored })
