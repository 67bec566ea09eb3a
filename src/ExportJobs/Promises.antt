-- ===== src/ExportJobs/Promises.antt =====
-- What the statements promise their callers: a request for an export that is repeated makes no second one, and a
-- reservation takes no more than its limit, and only what has expired.
use family_tree_app.Prelude.{
  select, first_row, ℕ, ◌≤◌, ◌≡◌, refl, inl, inr, Bool, true, false, not, ◌||◌, ◌&&◌, Option, some,
  List, ◌∷◌, [], Text, codes, length, length-map, length-take-le, text_eq_refl, is_empty, text_eq,
  ◌==◌, ==_refl, Option-cases, Result-cases, In, In-map, ok, arith,
}
use family_tree_app.ExportJobs.Domain.{Export, CleanupCandidate, is_completed, is_expired}
use family_tree_app.ExportJobs.Store.{
  ExportDatabase, Call, begin, authorize, insert_export, read_existing, commit, from_queue, call,
  require_export_creator,
}
use family_tree_app.ExportJobs.Requests.{
  created_export, same_request, same_json, export_job, create_accessible,
}
use family_tree_app.ExportJobs.Steps.{
  expires_by, is_cleanup_candidate, earliest_first, candidates, to_candidate,
  reserve_cleanup_candidates,
}
use family_tree_app.ExportJobs.Changes.{reserve_cleanup_candidates-Rows}
use family_tree_app.ExportJobs.Candidates.{candidates-In}
use family_tree_app.Relations.Store.{is_editable}
use family_tree_app.Jobs.Enqueue.{enqueue_with}

-- The identifier and the time of a request that is repeated are its own.
pub record IsRepeated (e e2 : Export) : Type 0 where
  pub same_tree : e2.tree_id ≡ e.tree_id
  pub same_actor : e2.requested_by ≡ e.requested_by
  pub same_request_id : e2.client_request_id ≡ e.client_request_id
  pub same_format : e2.format ≡ e.format
  pub same_schema : e2.schema_version ≡ e.schema_version
  pub same_parameters : e2.parameters ≡ e.parameters

module _ (io : Call → Bool) (uuid_string : ℕ → Text) (json_valid : Text → Bool)
    (canonical_json : Text → Text) (canonical : Text → Option Text) where
  same_json_refl : (t : Text) → same_json canonical t t ≡ true
  unfolding same_json
  same_json_refl t = elim (Option-cases (canonical t)) [
    | inl bad ↦ ground (arith, bad, text_eq_refl t)
    | inr (c, good) ↦ ground (arith, good, text_eq_refl c)
  ]

  again :
      (audit_id job_id : ℕ) (e2 r : Export) (db : ExportDatabase)
      → io begin ≡ true
      → io authorize ≡ true
      → io insert_export ≡ true
      → io read_existing ≡ true
      → io commit ≡ true
      → is_editable db.base e2.tree_id e2.requested_by ≡ true
      → first_row (same_request e2) db.exports ≡ some r
      → text_eq r.format e2.format ≡ true
      → (r.schema_version == e2.schema_version) ≡ true
      → same_json canonical r.parameters e2.parameters ≡ true
      → create_accessible io uuid_string json_valid canonical_json canonical audit_id job_id e2 db
        ≡ ok (r, false, db)
  unfolding create_accessible call require_export_creator
  again audit_id job_id e2 r db b a i x c may found format schema json =
      rw (b, a, i, may, found, format, schema, json, x, c) refl

  -- A request that has made an export, asked again, gives that export and changes nothing, where the
  -- database answers: the job that makes the result is not there twice.
  pub create_accessible_twice :
      (audit_id job_id audit_id2 job_id2 : ℕ) (e e2 e' : Export) (db db' : ExportDatabase)
      → ((c : Call) → io c ≡ true)
      → IsRepeated e e2
      → create_accessible io uuid_string json_valid canonical_json canonical audit_id job_id e db
        ≡ ok (e', true, db')
      → create_accessible io uuid_string json_valid canonical_json canonical audit_id2 job_id2 e2
          db'
        ≡ ok (created_export e, false, db')
  unfolding create_accessible call require_export_creator from_queue same_request created_export
      first_row
  create_accessible_twice audit_id job_id audit_id2 job_id2 e e2 e' db db' answers same h =
      elim (Option-cases (first_row (same_request e) db.exports)) [
        | inr (r, found) ↦ absurd (ground (arith, found))
        | inl missing ↦
            elim (Result-cases (
              enqueue_with json_valid canonical_json
                (export_job uuid_string (codes "export.generate") job_id e.tree_id e.id
                  e.created_at)
                db.jobs)) [
                  | inr (f, q) ↦ absurd (ground (arith, missing, q))
                  | inl (out, q) ↦
                      let base : db'.base ≡ db.base = ground (arith, missing, q) in
                      let rows : db'.exports ≡ created_export e ∷ db.exports =
                        ground (arith, missing, q) in
                      let allowed : is_editable db.base e.tree_id e.requested_by ≡ true =
                        ground (arith, missing, q) in
                      let may : is_editable db'.base e2.tree_id e2.requested_by ≡ true =
                        rw (base, same.same_tree, same.same_actor) allowed in
                      let found : first_row (same_request e2) db'.exports
                          ≡ some (created_export e) =
                        rw (rows, same.same_tree, same.same_actor, same.same_request_id)
                          (ground (
                            arith,
                            ==_refl e.tree_id,
                            ==_refl e.requested_by,
                            ==_refl e.client_request_id,
                          )) in
                      let format : text_eq e.format e2.format ≡ true =
                        rw same.same_format (text_eq_refl e.format) in
                      let schema : (e.schema_version == e2.schema_version) ≡ true =
                        rw same.same_schema (==_refl e.schema_version) in
                      let json : same_json canonical e.parameters e2.parameters ≡ true =
                        rw same.same_parameters (same_json_refl e.parameters) in
                      again audit_id2 job_id2 e2 (created_export e) db' (answers begin)
                        (answers authorize) (answers insert_export) (answers read_existing)
                        (answers commit) may found format schema json
                ]
      ]

module _ (io : Call → Bool) where
  -- A reservation takes no more exports than its limit, and each is one that has expired by the instant, or
  -- that was expired and has a result still.
  pub reserve_cleanup_candidates_takes :
      (instant limit now : ℕ) (db db' : ExportDatabase) (cs : List CleanupCandidate)
      → reserve_cleanup_candidates io instant limit now db ≡ ok (cs, db')
      → (length cs ≤ limit)
        × ((c : CleanupCandidate)
            → In c cs
            → (e : Export) × In e db.exports
              × (c ≡ to_candidate e)
              × (((is_completed e.status && expires_by instant e.expires_at)
                    || (is_expired e.status && not (is_empty e.result_object_key)))
                  ≡ true))
  unfolding candidates is_cleanup_candidate
  reserve_cleanup_candidates_takes instant limit now db db' cs h =
      let (_, taken, _) = reserve_cleanup_candidates-Rows io (λ _. []) instant limit now db h in
      (
        rw taken (
            omega (
              arith,
              length-map to_candidate (candidates instant limit db.exports),
              length-take-le limit
                  (earliest_first (select (is_cleanup_candidate instant) db.exports)),
            )),
        λ c i.
            let (e, j, same) =
              In-map c to_candidate (candidates instant limit db.exports) (rw taken at i) in
            let (listed, expired) = candidates-In instant limit db.exports e j in
            (e, listed, same, expired),
      )
