-- ===== src/ExportJobs/Asking.antt =====
-- The requests of the users that write are safe: a creation adds a row that has no result, and an expiry
-- is a change of the row.
use family_tree_app.Prelude.{
  first_row, ℕ, ◌≡◌, refl, subst, inl, inr, Bool, false, not, Option, List, ◌∷◌, [], Text, codes,
  ◌==◌, Bool-cases, Option-cases, Result-cases, In, any, count_if, update_first, ok, arith,
  if◌then◌else◌,
}
use family_tree_app.ExportJobs.Domain.{Export, is_expired}
use family_tree_app.ExportJobs.Store.{
  ExportDatabase, MutationContext, Call, is_export, is_active_member, from_queue, call,
  require_export_creator,
}
use family_tree_app.ExportJobs.Requests.{
  created_export, same_request, expire, export_job, create_accessible, expire_accessible,
}
use family_tree_app.ExportJobs.Generator.{World}
use family_tree_app.ExportJobs.Rows.{
  has_id, is_unfinished, Continues-refl, Rows, Rows-refl, update_first-Rows,
}
use family_tree_app.ExportJobs.Marks.{NoKey, expire-RowStep}
use family_tree_app.ExportJobs.Kept.{IsSafe, IsSafe-refl}
use family_tree_app.ExportJobs.Safety.{database-IsSafe}
use family_tree_app.Jobs.Enqueue.{enqueue_with}

fresh-count :
    (i : ℕ) (rows : List Export)
    → any (λ (r : Export). r.id == i) rows ≡ false
    → count_if (has_id i) rows ≡ 0
unfolding count_if any has_id
fresh-count i [] h = refl
fresh-count i (r ∷ rows) h = ground (arith, fresh-count i rows)

module _ (uuid_string : ℕ → Text) where
  -- A row more, of an identifier that no row has.
  created-IsSafe :
      (e : Export) (w : World) (db : ExportDatabase)
      → db.exports ≡ created_export e ∷ w.database.exports
      → any (λ (r : Export). r.id == e.id) w.database.exports ≡ false
      → IsSafe uuid_string w (record w { database = db })
  unfolding created_export count_if has_id is_unfinished
  created-IsSafe e w db rows fresh k = (
    record {
      unique = λ i.
          let none_yet = fresh-count e.id w.database.exports fresh in
          let before = k.unique i in
          let none_here : e.id ≡ i → count_if (has_id i) w.database.exports ≡ 0 =
            λ q. subst (λ n. count_if (has_id n) w.database.exports ≡ 0) q none_yet in
          rw rows (ground (arith, before, none_here));
      keyed = λ x i. elim (subst (λ r. In x r) rows i) [
        | inl same ↦ rw same (inl refl)
        | inr j ↦ k.keyed x j
      ];
      present = λ x i c. elim (subst (λ r. In x r) rows i) [
        | inl same ↦ absurd (ground (arith, same, c))
        | inr j ↦ k.present x j c
      ];
    },
    record {
      stays = λ x i. (x, rw rows (inr i), Continues-refl x);
      opens = λ i o x j q. o x (rw rows (inr j)) q;
      keeps = λ t i f c o h. h;
    },
  )

module _ (io : Call → Bool) (uuid_string : ℕ → Text) (json_valid : Text → Bool)
    (canonical_json : Text → Text) (canonical : Text → Option Text) where
  pub create_accessible-IsSafe :
      (audit_id job_id : ℕ) (e : Export) (w : World) {e' : Export} {created : Bool}
      {db : ExportDatabase}
      → create_accessible io uuid_string json_valid canonical_json canonical audit_id job_id e
          w.database
        ≡ ok (e', created, db)
      → IsSafe uuid_string w (record w { database = db })
  unfolding create_accessible call require_export_creator from_queue
  create_accessible-IsSafe audit_id job_id e w {e'} {created} {db} h =
      elim (Option-cases (first_row (same_request e) w.database.exports)) [
        | inr (r, found) ↦
            let same : db ≡ w.database = ground (arith, found) in
            rw same (IsSafe-refl uuid_string w)
        | inl missing ↦
            elim (Result-cases (
              enqueue_with json_valid canonical_json
                (export_job uuid_string (codes "export.generate") job_id e.tree_id e.id
                  e.created_at)
                w.database.jobs)) [
                  | inr (f, q) ↦ absurd (ground (arith, missing, q))
                  | inl (out, q) ↦
                      created-IsSafe uuid_string e w db (ground (arith, missing, q))
                        (ground (arith, missing, q))
                ]
      ]

  pub expire_accessible-IsSafe :
      (job_id : ℕ) (mutation : MutationContext) (w : World) {db : ExportDatabase}
      → expire_accessible io uuid_string json_valid canonical_json canonical job_id mutation
          w.database
        ≡ ok db
      → IsSafe uuid_string w (record w { database = db })
  unfolding expire_accessible call from_queue
  expire_accessible-IsSafe job_id mutation w {db} h =
      let t : ℕ = mutation.tree_id in
      let i : ℕ = mutation.export_id in
      let now : ℕ = mutation.occurred_at in
      elim (Option-cases (first_row (is_export t i) w.database.exports)) [
        | inl missing ↦ absurd (ground (arith, missing))
        | inr (r, found) ↦
            elim (Option-cases
              (first_row (is_active_member t mutation.actor_user_id) w.database.base.members)) [
                | inl outside ↦ absurd (ground (arith, found, outside))
                | inr (m, inside) ↦
                    elim (Option-cases
                      (update_first (is_export t i) (expire now) w.database.exports)) [
                        | inl stopped ↦ absurd (ground (arith, found, inside, stopped))
                        | inr ((y, ys), changed) ↦
                            elim (Result-cases (
                              enqueue_with json_valid canonical_json
                                (export_job uuid_string (codes "export.delete") job_id t i now)
                                w.database.jobs)) [
                                  | inr (f, q) ↦ absurd (ground (arith, found, inside, changed, q))
                                  | inl (out, q) ↦
                                      let rows : db.exports ≡ (
                                          if not (is_expired r.status)
                                          then ys
                                          else w.database.exports) =
                                        ground (arith, found, inside, changed, q) in
                                      let steps =
                                        update_first-Rows uuid_string NoKey (is_export t i)
                                          (expire now) w.database.exports
                                          (λ x first. expire-RowStep uuid_string now x) changed in
                                      let all : Rows uuid_string NoKey w.database.exports
                                          db.exports =
                                        elim (Bool-cases (is_expired r.status)) [
                                          | inl gone ↦
                                              rw (rows, gone)
                                                (Rows-refl uuid_string NoKey w.database.exports)
                                          | inr live ↦ rw (rows, live) steps
                                        ] in
                                      database-IsSafe io uuid_string w db all
                                ]
                      ]
              ]
      ]
