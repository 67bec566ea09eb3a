-- ===== src/ExportJobs/Candidates.antt =====
-- The candidates for removal that the worker reads: exports that have expired, or expire in the same statement.
use family_tree_app.Prelude.{
  first_row-In, first_row, ℕ, zero, suc, ◌≡◌, refl, ◌∙◌, ◌⊎◌, inl, inr, Bool, true, List, ◌∷◌, [],
  map, Text, is_empty, Bool-cases, Option-cases, In, In-select, All, take, ok, arith,
}
use family_tree_app.ExportJobs.Domain.{Export, CleanupCandidate, is_expired}
use family_tree_app.ExportJobs.Store.{call, ExportDatabase, Call}
use family_tree_app.ExportJobs.Steps.{
  is_expired_export, is_cleanup_candidate, expires_earlier, insert_earliest, earliest_first,
  candidates, to_candidate, get_deletion_candidate,
}
use family_tree_app.ExportJobs.Generator.{World, result_object_key}
use family_tree_app.ExportJobs.Rows.{IsKeyed}
use family_tree_app.ExportJobs.Kept.{Follows}

In-take : {A : Type 0} (a : A) (n : ℕ) (xs : List A) → In a (take n xs) → In a xs
In-take a zero xs i = absurd i
In-take a (suc n) [] i = absurd i
In-take a (suc n) (x ∷ xs) (inl e) = inl e
In-take a (suc n) (x ∷ xs) (inr i) = inr (In-take a n xs i)

In-insert_earliest :
    (a e : Export) (xs : List Export) → In a (insert_earliest e xs) → (a ≡ e) ⊎ In a xs
unfolding insert_earliest
In-insert_earliest a e [] (inl q) = inl q
In-insert_earliest a e [] (inr i) = absurd i
In-insert_earliest a e (x ∷ xs) i = elim (Bool-cases (expires_earlier x e)) [
  | inl h ↦ elim (rw h at i) [
    | inl q ↦ inr (inl q)
    | inr j ↦ elim (In-insert_earliest a e xs j) [ inl q ↦ inl q | inr l ↦ inr (inr l) ]
  ]
  | inr h ↦ elim (rw h at i) [ inl q ↦ inl q | inr j ↦ inr j ]
]

In-earliest_first : (a : Export) (xs : List Export) → In a (earliest_first xs) → In a xs
unfolding earliest_first
In-earliest_first a [] i = absurd i
In-earliest_first a (x ∷ xs) i = elim (In-insert_earliest a x (earliest_first xs) i) [
  | inl q ↦ inl q
  | inr j ↦ inr (In-earliest_first a xs j)
]

pub candidates-In :
    (instant limit : ℕ) (rows : List Export) (e : Export)
    → In e (candidates instant limit rows)
    → In e rows × (is_cleanup_candidate instant e ≡ true)
unfolding candidates
candidates-In instant limit rows e i =
    In-select e (is_cleanup_candidate instant) rows (In-earliest_first e _ (In-take e limit _ i))

pub List-cases : {A : Type 0} (xs : List A) → (xs ≡ []) ⊎ ((x : A) × (ys : List A) × (xs ≡ x ∷ ys))
List-cases [] = inl refl
List-cases (x ∷ xs) = inr (x, xs, refl)

pub deletion_candidate-row :
    (io : Call → Bool) (t i : ℕ) (db : ExportDatabase) {c : CleanupCandidate}
    → get_deletion_candidate io t i db ≡ ok c
    → (e : Export) × In e db.exports × (is_expired e.status ≡ true) × (c ≡ to_candidate e)
unfolding get_deletion_candidate call is_expired_export
deletion_candidate-row io t i db {c} h =
    elim (Option-cases (first_row (is_expired_export t i) db.exports)) [
      | inl missing ↦ absurd (ground (arith, missing))
      | inr (e, found) ↦
          let (listed, passes) = first_row-In (is_expired_export t i) db.exports found in
          (e, listed, ground (arith, passes), ground (arith, found))
    ]

-- The candidate has no object, or one of an export that has expired.
pub record IsRemovable (uuid_string : ℕ → Text) (w : World) (c : CleanupCandidate) : Type 0 where
  pub id : ℕ
  pub row : Export
  pub listed : In row w.database.exports
  pub same : row.id ≡ id
  pub gone : is_expired row.status ≡ true
  pub key :
      (is_empty c.result_object_key ≡ true)
      ⊎ ((t : ℕ) × (f : Text) × (k : Text) × (c.result_object_key
            ≡ result_object_key uuid_string t id f k))

module _ (uuid_string : ℕ → Text) where
  IsRemovable-later :
      {w w' : World} (c : CleanupCandidate)
      → Follows uuid_string w w'
      → IsRemovable uuid_string w c
      → IsRemovable uuid_string w' c
  IsRemovable-later c f r =
      let (row, listed, s) = f.stays r.row r.listed in
      record {
        id = r.id;
        row = row;
        listed = listed;
        same = s.same_id ∙ r.same;
        gone = s.stays_expired r.gone;
        key = r.key;
      }

  pub All-later :
      {w w' : World} (cs : List CleanupCandidate)
      → Follows uuid_string w w'
      → All (IsRemovable uuid_string w) cs
      → All (IsRemovable uuid_string w') cs
  All-later [] f rs = tt
  All-later (c ∷ cs) f (r, rs) = (IsRemovable-later c f r, All-later cs f rs)

  pub keyed-IsRemovable :
      (w : World) (e row : Export)
      → IsKeyed uuid_string e
      → In row w.database.exports
      → row.id ≡ e.id
      → is_expired row.status ≡ true
      → IsRemovable uuid_string w (to_candidate e)
  keyed-IsRemovable w e row keyed listed same gone = record {
    id = e.id;
    row = row;
    listed = listed;
    same = same;
    gone = gone;
    key = elim keyed [
      | inl empty ↦ inl empty
      | inr made ↦ inr (e.tree_id, e.format, e.result_checksum, made)
    ];
  }

  pub All-candidates :
      (w : World) (es : List Export)
      → ((e : Export) → In e es → IsRemovable uuid_string w (to_candidate e))
      → All (IsRemovable uuid_string w) (map to_candidate es)
  All-candidates w [] f = tt
  All-candidates w (e ∷ es) f = (f e (inl refl), All-candidates w es (λ x i. f x (inr i)))
