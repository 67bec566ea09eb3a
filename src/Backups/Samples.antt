-- ===== src/Backups/Samples.antt =====
-- A backup of a tree with a parent, a child and one photograph; what is read of it, its restoration, and the theorems at these
-- inputs.
use family_tree_app.Prelude.{
  ℕ, ◌≡◌, ◌≤◌, ◌↔◌, ◌⊎◌, refl, inl, inr, arith, Bool, true, false, not, Option, none, some, List,
  [], ◌∷◌, ◌++◌, ◌==◌, Text, codes, text_functions, any, count_if, select, first_row, ok, err, In,
  length,
}
use family_tree_app.Backups.Manifest.{Manifest, Person, PersonName, MediaAsset}
use family_tree_app.Backups.Graph.{
  Edge, occurrences, children, indegree, update, relax, visit, visited_persons,
}
use family_tree_app.Backups.Search.{search_iff, IsNumbering, visited_persons-ends}
use family_tree_app.Backups.Validity.{
  invalid_backup, check_rows, has_person, has_media, has_union, is_active_owner, is_bad_member,
  preferred_names, is_bad_relation, same_relation, active_edges, validate_people, validate_graph,
  validate_unions, validate_media, is_missing, validate_pointers, validate_manifest_relations,
}
use family_tree_app.Backups.Validity
use family_tree_app.Backups.Paths.{
  has_prefix, put_first, split_on, parts, join, is_parent, clean_part, clean_parts, backwards,
  written, clean, safe_archive_path, is_hex, is_upper_hex, valid_checksum,
}
use family_tree_app.Backups.PathSafety.{is_name, safe_archive_path-below}
use family_tree_app.Backups.Files.{
  Object, Archive, is_at, add_expected_file, expect_file, requires_file, media_requires_files,
  asset_path, variant_path, expect_asset, expect_assets, expect_variant, expect_variants,
  expected_manifest_files, is_mismatch, is_supported, validate_archive,
}
use family_tree_app.Backups.Zip.{
  Entry, max_archive_entries, read_entry, read_entries, trim_newline, cut, parse_line, parse_lines,
  parse_checksums, is_altered, pick_files, parse_manifest, parse_entries, parse_zip,
}
use family_tree_app.Backups.Reading.{total_bytes, read_entries-bounded}
use family_tree_app.Jobs.Enqueue.{enqueue_with, first_of_list}
use family_tree_app.Backups.Restorer.{
  database_failure, original_object_key, variant_object_key, put_new_object, restore_object,
  restore_each, asset_rows, variant_rows, restore_objects, cleanup_objects,
}
use family_tree_app.Backups.Records.{
  Call, read_audit, restored_media_state, without_media, set_primary, set_tree_pointers, call,
  insert_tree_row, insert_people, insert_families, restore_pointers, process_job, media_row,
  variant_row, enqueue_processing, insert_all_media, restore_records,
}
use family_tree_app.Backups.Restoration.{
  World, unanswered, Outcome, restored, failed, give_up, is_restored, finish_restore,
  restore_content, restore,
}
use family_tree_app.Backups.Atomicity.{IsWhole, restore-IsWhole}

checks_program : Unit {0}
unfolding first_row any count_if select text_functions occurrences children indegree update relax
    visit visited_persons check_rows has_person has_media has_union is_active_owner is_bad_member
    preferred_names is_bad_relation same_relation active_edges validate_people validate_graph
    validate_unions validate_media is_missing validate_pointers validate_manifest_relations
checks_program = tt

program : Unit {0}
unfolding checks_program has_prefix put_first split_on join is_parent clean_part clean_parts
    backwards written clean safe_archive_path is_hex is_upper_hex valid_checksum is_at
    add_expected_file expect_file requires_file media_requires_files asset_path variant_path
    expect_asset expect_assets expect_variant expect_variants expected_manifest_files is_mismatch
    is_supported validate_archive max_archive_entries read_entry read_entries trim_newline cut
    parse_line parse_lines parse_checksums is_altered pick_files parse_manifest parse_entries
    parse_zip
program = tt

restore_program : Unit {0}
unfolding program enqueue_with first_of_list original_object_key variant_object_key put_new_object
    restore_object restore_each asset_rows variant_rows restore_objects cleanup_objects
    restored_media_state without_media set_primary set_tree_pointers call insert_tree_row
    insert_people insert_families restore_pointers process_job media_row variant_row
    enqueue_processing insert_all_media restore_records give_up is_restored finish_restore
    restore_content restore
restore_program = tt

parts_run : clean (codes "a/./b/../../../x//y") ≡ codes "../x/y"
unfolding program
parts_run = refl

parent_run : safe_archive_path (codes "..") ≡ true
unfolding program
parent_run = refl

abbrev edges : List Edge
edges = (66, 67) ∷ []

abbrev persons : List ℕ
persons = 66 ∷ 67 ∷ []

edges_parents : (e : Edge) → In e edges → any (λ x. x == e.0) persons ≡ true
unfolding any
edges_parents e (inl same) = rw same refl
edges_parents e (inr i) = absurd i

edges_children : (e : Edge) → In e edges → any (λ x. x == e.1) persons ≡ true
unfolding any
edges_children e (inl same) = rw same refl
edges_children e (inr i) = absurd i

persons_distinct : (c : ℕ) → occurrences c persons ≤ 1
unfolding occurrences count_if
persons_distinct c = ground arith

persons_reordered : (c : ℕ) → occurrences c (67 ∷ 66 ∷ []) ≡ occurrences c persons
unfolding occurrences count_if
persons_reordered c = ground arith

search_iff_example :
    (visited_persons edges 2 (67 ∷ 66 ∷ []) ≡ (2, [])) ↔ ((rank : ℕ → ℕ) × IsNumbering edges rank)
search_iff_example =
    search_iff edges persons (67 ∷ 66 ∷ []) persons_distinct persons_reordered edges_parents
      edges_children

visited_persons-ends_example : (visited_persons edges 2 (67 ∷ 66 ∷ [])).1 ≡ []
visited_persons-ends_example =
    visited_persons-ends edges persons (67 ∷ 66 ∷ []) persons_distinct persons_reordered
      edges_parents edges_children

cycle_run : visited_persons ((66, 67) ∷ (67, 66) ∷ []) 2 persons ≡ (0, [])
unfolding checks_program
cycle_run = refl

safe_run : safe_archive_path (codes "media/a/original") ≡ true
unfolding program
safe_run = refl

safe_archive_path-below_example :
    (codes "media/a/original" ≡ codes "..")
    ⊎ (any (λ part. not (is_name part)) (parts (codes "media/a/original")) ≡ false)
safe_archive_path-below_example = safe_archive_path-below (codes "media/a/original") safe_run

abbrev digest : Text
digest = codes "0123456789abcdef0123456789abcdef0123456789abcdef0123456789abcdef"

abbrev checksum : Text → Text
checksum body = digest

abbrev uuid_string : ℕ → Text
uuid_string i = i ∷ codes "-0000-0000-0000-0000-0000-0000-0000"

abbrev person : ℕ → Person
person id = record {
  id = id;
  sex = codes "unknown";
  life_status = codes "unknown";
  biography = [];
  notes = [];
  primary_media_id = none;
  privacy_level = codes "tree_members";
  created_by = 9;
  updated_by = 9;
  created_at = 100;
  updated_at = 100;
  deleted_at = none;
  version = 1;
}

abbrev name_of : ℕ → ℕ → PersonName
name_of id owner = record {
  id = id;
  person_id = owner;
  name_type = codes "birth";
  given_name = codes "Anna";
  patronymic = [];
  family_name = [];
  prefix = [];
  suffix = [];
  full_text = codes "Anna";
  is_preferred = true;
  language_code = [];
  created_at = 100;
  updated_at = 100;
}

abbrev photo_path : Text
photo_path = codes "media/" ++ (uuid_string 65 ++ codes "/original")

abbrev photo : MediaAsset
photo = record {
  id = 65;
  kind = codes "photo";
  status = codes "processing";
  original_filename = codes "a.jpg";
  mime_type = codes "image/jpeg";
  size_bytes = 3;
  checksum = digest;
  width = none;
  height = none;
  caption = [];
  description = [];
  uploaded_by = 9;
  uploaded_at = some 100;
  created_at = 100;
  updated_at = 100;
  deleted_at = none;
  processed_at = none;
  version = 1;
  archive_path = photo_path;
}

abbrev backup : Manifest
backup = record {
  schema = record { name = codes "family_tree_backup"; version = 1 };
  export_metadata = record {
    id = 71;
    format = codes "zip_backup";
    requested_by = 9;
    created_at = 200;
  };
  tree = record {
    id = 1;
    name = codes "Family";
    description = [];
    owner_user_id = 9;
    root_person_id = some 66;
    cover_media_id = none;
    privacy = codes "private";
    locale = codes "en";
    timezone = codes "UTC";
    created_at = 100;
    updated_at = 100;
    deleted_at = none;
    version = 1;
  };
  members =
      record {
        user_id = 9;
        role = codes "owner";
        status = codes "active";
        invited_by = none;
        created_at = 100;
        accepted_at = some 100;
      }
      ∷ [];
  persons = person 66 ∷ person 67 ∷ [];
  person_names = name_of 76 66 ∷ name_of 77 67 ∷ [];
  parent_child_relations =
      record {
        id = 86;
        parent_person_id = 66;
        child_person_id = 67;
        relation_type = codes "biological";
        confidence = codes "confirmed";
        note = [];
        created_by = 9;
        created_at = 100;
        updated_at = 100;
        deleted_at = none;
        version = 1;
      }
      ∷ [];
  unions = [];
  union_members = [];
  media_assets = photo ∷ [];
  media_variants = [];
  person_media = [];
}

abbrev archive : Archive
archive = record { manifest = backup; files = (photo_path, codes "jpg") ∷ [] }

abbrev order : List ℕ
order = 67 ∷ 66 ∷ []

abbrev decode : Text → Option Manifest
decode body = some backup

abbrev entries : List Entry
entries =
    record {
      name = photo_path;
      is_dir = false;
      uncompressed_size = 3;
      content = some (codes "jpg");
    }
    ∷ record {
      name = codes "manifest.json";
      is_dir = false;
      uncompressed_size = 2;
      content = some (codes "{}");
    }
    ∷ record {
      name = codes "checksums.sha256";
      is_dir = false;
      uncompressed_size = 200;
      content = some (
          digest
          ++ (codes "  manifest.json\n" ++ (digest ++ (codes "  " ++ (photo_path ++ codes "\n")))));
    }
    ∷ []

abbrev open_zip : Text → Option (List Entry)
open_zip body = some entries

too_large_run :
    parse_zip checksum uuid_string order open_zip decode (codes "PK") 100
    ≡ err Validity.backup_too_large
unfolding program
too_large_run = refl

abbrev read : List Object
read =
    (
      codes "checksums.sha256",
      digest
          ++ (codes "  manifest.json\n" ++ (digest ++ (codes "  " ++ (photo_path ++ codes "\n")))),
    )
    ∷ (codes "manifest.json", codes "{}")
    ∷ (photo_path, codes "jpg")
    ∷ []

read_run : read_entries 1000 0 entries [] ≡ ok read
unfolding program
read_run = refl

read_entries-bounded_example :
    (total_bytes read ≤ 1000) × (any (λ (o : Object). not (safe_archive_path o.0)) read ≡ false)
read_entries-bounded_example = read_entries-bounded 1000 entries read read_run

abbrev all_answer : Call → Bool
all_answer c = true

-- The database answers all but the question that follows the commit.
abbrev no_question : Call → Bool
no_question read_audit = false
no_question _ = true

abbrev every_key : Text → Bool
every_key key = true

every_key_answers : (key : Text) → every_key key ≡ true
every_key_answers key = refl

abbrev any_text : Text → Bool
any_text s = true

abbrev same_text : Text → Text
same_text s = s

abbrev derive : ℕ → Text → ℕ
derive space name = 500

abbrev empty_world : World
empty_world = record {
  tables = record {
    trees = [];
    members = [];
    persons = [];
    person_names = [];
    relations = [];
    unions = [];
    union_members = [];
    media_assets = [];
    media_variants = [];
    person_media = [];
    jobs = [];
    restored = [];
  };
  objects = (codes "other", codes "x") ∷ [];
}

abbrev after_commit : Outcome × World
after_commit =
    restore all_answer every_key every_key unanswered uuid_string any_text same_text derive checksum
      order 300 archive empty_world

restored_run : after_commit.0 ≡ restored 1
unfolding restore_program
restored_run = refl

restore-IsWhole_example : IsWhole uuid_string same_text 300 archive empty_world after_commit
unfolding is_restored any
restore-IsWhole_example =
    restore-IsWhole all_answer uuid_string any_text same_text derive 300 archive every_key every_key
      every_key_answers unanswered (λ h. refl) checksum order empty_world (λ row i. absurd i)
      (λ h. ground (arith, h))

abbrev after_lost_answers : Outcome × World
after_lost_answers =
    restore no_question every_key every_key unanswered uuid_string any_text same_text derive
      checksum order 300 archive empty_world

-- The commit is applied, neither it nor the question is answered: the tree is there, without its photograph.
lost_answers_run :
    (after_lost_answers.0 ≡ failed database_failure true)
    × (length after_lost_answers.1.tables.trees ≡ 1)
    × (length after_lost_answers.1.tables.media_assets ≡ 1)
    × (after_lost_answers.1.objects ≡ empty_world.objects)
unfolding restore_program
lost_answers_run = (refl, refl, refl, refl)
