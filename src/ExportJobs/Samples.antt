-- ===== src/ExportJobs/Samples.antt =====
-- A tree whose owner asks for an export, runs of the handlers, and the theorems at these inputs.
use family_tree_app.Prelude.{
  first_row, ℕ, ◌≡◌, ◌≤◌, refl, inl, arith, Bool, true, false, not, ◌&&◌, ◌||◌, Option, none, some,
  [], ◌∷◌, map, Text, codes, is_empty, text_eq, text_functions, any, count_if, select, update_first,
  In, length, ok, err,
}
use family_tree_app.Relations.Store.{Database, is_editable}
use family_tree_app.ExportJobs.Domain.{
  Export, CreateValues, CleanupCandidate, new, supported_format, is_visual_format, result_filename,
  can_download, expires_after, is_completed, is_expired,
}
use family_tree_app.ExportJobs.Store.{
  ExportDatabase, MutationContext, Call, refused, is_export, is_active_member, is_live_tree,
  can_see, is_newer, insert_newest, newest_first, from_queue, call, require_export_creator,
}
use family_tree_app.ExportJobs.Requests.{
  created_export, same_request, expire, is_before, same_json, encode_payload, export_job,
  create_accessible, expire_accessible, get_accessible, list_accessible, record_download,
}
use family_tree_app.ExportJobs.Steps.{
  start_generation, complete, record_failure, clear_result, has_mime_type, has_result, shares_key,
  is_running_export, is_unfinished_export, is_expired_export, expires_by, is_cleanup_candidate,
  expires_earlier, insert_earliest, earliest_first, candidates, to_candidate,
  acquire_for_generation, mark_completed, mark_failed, reserve_cleanup_candidates,
  get_deletion_candidate, clear_expired_result,
}
use family_tree_app.ExportJobs.Generator.{
  World, Renderers, Config, is_refusal, has_key, put, remove, result_name, result_object_key,
  within, build, mark_failed_or_join, retry_or_fail, settle_failure, finish, store_result, generate,
  handle_acquired, handle_generate,
}
use family_tree_app.ExportJobs.Cleanup.{
  clear_row, delete_candidate, delete_candidates, handle_cleanup, handle_delete,
}
use family_tree_app.ExportJobs.Keys.{IsCanonical}
use family_tree_app.ExportJobs.Rows.{is_unfinished}
use family_tree_app.ExportJobs.Kept.{IsKept}
use family_tree_app.ExportJobs.History.{
  done, create, generates, ExportSteps-IsKept, handle_generate-ends,
}
use family_tree_app.ExportJobs.Promises.{create_accessible_twice, reserve_cleanup_candidates_takes}
use family_tree_app.ExportJobs.Domain
use family_tree_app.ExportJobs.Store
use family_tree_app.Jobs.Queue.{Job, text_is}
use family_tree_app.Jobs.Enqueue.{
  enqueue_with, validate, queued_job, stored_key, same_key, first_of_list,
}

program : Unit {0}
unfolding first_row any count_if select update_first text_functions is_editable new supported_format
    is_visual_format can_download expires_after is_export is_active_member is_live_tree can_see
    is_newer insert_newest newest_first from_queue call require_export_creator created_export
    same_request expire is_before same_json encode_payload export_job create_accessible
    expire_accessible get_accessible list_accessible record_download enqueue_with validate
    queued_job stored_key same_key first_of_list text_is
program = tt

worker_program : Unit {0}
unfolding program start_generation complete record_failure clear_result has_mime_type has_result
    shares_key is_running_export is_unfinished_export is_expired_export expires_by
    is_cleanup_candidate expires_earlier insert_earliest earliest_first candidates
    acquire_for_generation mark_completed mark_failed reserve_cleanup_candidates
    get_deletion_candidate clear_expired_result is_refusal has_key put remove result_name
    result_object_key within build mark_failed_or_join retry_or_fail settle_failure finish
    store_result generate handle_acquired handle_generate clear_row delete_candidate
    delete_candidates handle_cleanup handle_delete
worker_program = tt

abbrev answers : Call → Bool
answers c = true

-- Identifiers of 36 characters that tell them apart.
abbrev uuid_string : ℕ → Text
uuid_string i = i ∷ codes "-0000-0000-0000-0000-0000-0000-0000"

uuid_string-IsCanonical : IsCanonical uuid_string
uuid_string-IsCanonical = record { width = λ i. refl; distinct = λ i j h. cc }

abbrev any_text : Text → Bool
any_text s = true

abbrev same_text : Text → Text
same_text s = s

abbrev some_text : Text → Option Text
some_text s = some s

abbrev base : Database
base = record {
  trees = record { id = 1; deleted_at = none } ∷ [];
  members = record { tree_id = 1; user_id = 9; role = codes "owner"; status = codes "active" } ∷ [];
  persons = [];
  relations = [];
  audit_log = [];
}

abbrev empty_database : ExportDatabase
empty_database = record { base = base; exports = []; jobs = []; audit_log = [] }

abbrev renderers : Renderers (Unit {0})
renderers = record {
  load_manifest = λ e db. ok tt;
  encode_manifest = λ s. ok (codes "{}");
  build_zip = λ e s objects. ok (codes "zip");
  render_visual = λ s format. ok (codes "<svg/>", codes "image/svg+xml");
  render_gedcom = λ s. ok (codes "0 HEAD");
  build_gedzip = λ e s objects. ok (codes "zip");
}

abbrev config : Config
config = record { result_ttl = 1000; max_archive_bytes = 100 }

abbrev asked : Export
asked = record {
  id = 71;
  tree_id = 1;
  client_request_id = 5;
  requested_by = 9;
  format = codes "json_backup";
  schema_version = 1;
  parameters = codes "{}";
  status = Domain.queued;
  progress = 0;
  result_object_key = [];
  result_mime_type = [];
  result_size_bytes = 0;
  result_checksum = [];
  error_code = [];
  created_at = 100;
  updated_at = 100;
  started_at = none;
  finished_at = none;
  expires_at = none;
}

new_run :
    new 71 1 9 (record { client_request_id = 5; format = codes " json_backup " }) 100 ≡ ok asked
unfolding program
new_run = refl

abbrev after_request : ExportDatabase
after_request = record empty_database {
  exports = asked ∷ [];
  jobs = queued_job (export_job uuid_string (codes "export.generate") 81 1 71 100) ∷ [];
  audit_log =
      record {
        id = 31;
        tree_id = 1;
        actor_user_id = 9;
        action = Store.export_created;
        entity_id = 71;
        created_at = 100;
      }
      ∷ [];
}

create_run :
    create_accessible answers uuid_string any_text same_text some_text 31 81 asked empty_database
    ≡ ok (asked, true, after_request)
unfolding program
create_run = refl

create_accessible_twice_example :
    create_accessible answers uuid_string any_text same_text some_text 32 82
      (record asked { id = 72; created_at = 150 })
      after_request
    ≡ ok (created_export asked, false, after_request)
create_accessible_twice_example =
    create_accessible_twice answers uuid_string any_text same_text some_text 31 81 32 82 asked
      (record asked { id = 72; created_at = 150 }) asked empty_database after_request (λ c. refl)
      (record {
        same_tree = refl;
        same_actor = refl;
        same_request_id = refl;
        same_format = refl;
        same_schema = refl;
        same_parameters = refl;
      })
      create_run

-- The payload that the queue has, read.
abbrev decode : Text → Option (ℕ × ℕ)
decode payload = some (1, 71)

abbrev generate_job : Job
generate_job = record (queued_job (export_job uuid_string (codes "export.generate") 81 1 71 100)) {
  attempts = 5;
}

abbrev start_world : World
start_world = record { database = empty_database; objects = [] }

abbrev asked_world : World
asked_world = record { database = after_request; objects = [] }

-- The checksum of every body.
abbrev checksum : Text → Text
checksum body = codes "c0ffee"

abbrev nothing : World → World
nothing w = w

abbrev after_generation : World
after_generation =
    (handle_generate answers renderers config uuid_string checksum nothing decode generate_job 110
      120 asked_world).1

generate_run :
    (handle_generate answers renderers config uuid_string checksum nothing decode generate_job 110
      120 asked_world).0
    ≡ []
unfolding worker_program
generate_run = refl

download_run :
    map (λ (e : Export). can_download e 130) after_generation.database.exports ≡ true ∷ []
unfolding worker_program
download_run = refl

-- The owner removes the export while its result is stored and not marked: the object goes again.
abbrev removal : MutationContext
removal = record {
  audit_id = 33;
  actor_user_id = 9;
  tree_id = 1;
  export_id = 71;
  occurred_at = 115;
}

abbrev removes : World → World
removes w =
    elim (expire_accessible answers uuid_string any_text same_text some_text 83 removal
      w.database) [ ok db ↦ record w { database = db } | err failure ↦ w ]

conflict_run :
    handle_generate answers renderers config uuid_string checksum removes decode generate_job 110
      120 asked_world
    ≡ (
      [],
      (removes (record asked_world {
        database = record after_request { exports = start_generation 110 asked ∷ [] };
      })),
    )
unfolding worker_program
conflict_run = refl

start_world-IsKept : IsKept uuid_string start_world
unfolding count_if
start_world-IsKept = record {
  unique = λ i. omega arith;
  keyed = λ e i. absurd i;
  present = λ e i c. absurd i;
}

ExportSteps-IsKept_example : IsKept uuid_string after_generation
ExportSteps-IsKept_example =
    ExportSteps-IsKept renderers config uuid_string checksum any_text same_text some_text decode
      uuid_string-IsCanonical start_world-IsKept
      (generates answers generate_job 110 120 nothing
        (create answers 31 81 asked asked true after_request done create_run) (λ v. done))

asked_world-IsKept : IsKept uuid_string asked_world
asked_world-IsKept =
    ExportSteps-IsKept renderers config uuid_string checksum any_text same_text some_text decode
      uuid_string-IsCanonical start_world-IsKept
      (create answers 31 81 asked asked true after_request done create_run)

-- The export of the last attempt: here it is completed.
abbrev ended : Export
ended = record asked {
  status = Domain.completed;
  progress = 100;
  result_object_key = result_object_key uuid_string 1 71 (codes "json_backup") (codes "c0ffee");
  result_mime_type = codes "application/json";
  result_size_bytes = 2;
  result_checksum = codes "c0ffee";
  updated_at = 120;
  started_at = some 110;
  finished_at = some 120;
  expires_at = some 1120;
}

ended-In : In ended after_generation.database.exports
unfolding worker_program
ended-In = inl refl

generate_kind : text_eq generate_job.kind (codes "export.generate") ≡ true
unfolding worker_program
generate_kind = refl

last_attempt : generate_job.max_attempts ≤ generate_job.attempts
unfolding worker_program
last_attempt = omega arith

handle_generate-ends_example : is_unfinished ended ≡ false
handle_generate-ends_example =
    handle_generate-ends renderers config uuid_string checksum any_text same_text some_text decode
      uuid_string-IsCanonical answers generate_job 1 71 110 120 nothing asked_world (λ c. refl)
      (λ v. done) generate_kind refl refl refl last_attempt asked_world-IsKept ended ended-In refl
      refl

reserve_run :
    reserve_cleanup_candidates answers 2000 10 2001 after_generation.database
    ≡ ok (to_candidate ended ∷ [], record after_request { exports = expire 2001 ended ∷ [] })
unfolding worker_program
reserve_run = refl

reserve_cleanup_candidates_takes_example :
    (length (to_candidate ended ∷ []) ≤ 10)
    × ((c : CleanupCandidate)
        → In c (to_candidate ended ∷ [])
        → (e : Export) × In e after_generation.database.exports
          × (c ≡ to_candidate e)
          × (((is_completed e.status && expires_by 2000 e.expires_at)
                || (is_expired e.status && not (is_empty e.result_object_key)))
              ≡ true))
reserve_cleanup_candidates_takes_example =
    reserve_cleanup_candidates_takes answers 2000 10 2001 after_generation.database
      (record after_request { exports = expire 2001 ended ∷ [] }) (to_candidate ended ∷ [])
      reserve_run

-- The storage does not answer the removal of the object.
abbrev stuck : Call → Bool
stuck Store.delete_object = false
stuck _ = true

abbrev after_conflict : World
after_conflict =
    (handle_generate stuck renderers config uuid_string checksum removes decode generate_job 110 120
      asked_world).1

-- The job is tried again, and returns nil at once: the object stays.
retry_run :
    handle_generate answers renderers config uuid_string checksum nothing decode generate_job 130
      140 after_conflict
    ≡ ([], after_conflict)
unfolding worker_program
retry_run = refl

left_object_run : length after_conflict.objects ≡ 1
unfolding worker_program
left_object_run = refl
