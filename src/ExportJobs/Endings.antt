-- ===== src/ExportJobs/Endings.antt =====
-- The last attempt at a generation: where the database and the storage answer, it leaves no export queued or
-- running.
use family_tree_app.Prelude.{
  first_row, ℕ, ◌≤◌, ◌≡◌, refl, ap, subst, inl, inr, Bool, true, false, none, some, List, ◌∷◌, [],
  Text, Bool-cases, Option-cases, Result-cases, In, count_if, update_first, update_first-some,
  Updated, update_first-Updated, arith,
}
use family_tree_app.ExportJobs.Domain.{Export}
use family_tree_app.ExportJobs.Store.{ExportDatabase, Call, write_status, Failure, is_export, call}
use family_tree_app.ExportJobs.Steps.{record_failure, is_unfinished_export, mark_failed}
use family_tree_app.ExportJobs.Generator.{World, mark_failed_or_join}
use family_tree_app.ExportJobs.Rows.{has_id, is_unfinished, count_listed}
use family_tree_app.ExportJobs.Kept.{IsKept}
use family_tree_app.ExportJobs.Changes.{IsAcquired}

-- No row of the export is queued or running.
abbrev pub IsEnded : World → ℕ → ℕ → Type 0
IsEnded w t i =
    (x : Export) → In x w.database.exports → x.tree_id ≡ t → x.id ≡ i → is_unfinished x ≡ false

-- The one row that has the identifier is changed to one that is finished.
pub changed-IsEnded :
    (p : Export → Bool) (f : Export → Export) (xs : List Export) (i : ℕ) {y : Export}
    {ys : List Export}
    → ((e : Export) → (f e).id ≡ e.id)
    → ((e : Export) → p e ≡ true → e.id ≡ i)
    → ((e : Export) → is_unfinished (f e) ≡ false)
    → count_if (has_id i) xs ≤ 1
    → update_first p f xs ≡ some (y, ys)
    → (x : Export) → In x ys
    → x.id ≡ i
    → is_unfinished x ≡ false
unfolding count_if has_id update_first
changed-IsEnded p f [] i same passes ends unique h z listed at = cc
changed-IsEnded p f (x ∷ xs) i {y} {ys} same passes ends unique h z listed at =
    elim (Bool-cases (p x)) [
      | inl e ↦
          let rows : ys ≡ f x ∷ xs = ground (arith, e) in
          elim (subst (In z) rows listed) [
            | inl made ↦ rw made (ends x)
            | inr j ↦ absurd (ground (arith, passes x e, count_listed i xs z j at))
          ]
      | inr e ↦ elim (Option-cases (update_first p f xs)) [
        | inl stopped ↦ absurd (ground (arith, e, stopped))
        | inr ((y', ys'), found) ↦
            let rows : ys ≡ x ∷ ys' = ground (arith, e, found) in
            let u : Updated p f xs y' ys' = update_first-Updated p f xs found in
            let others = count_listed i xs u.old u.listed (passes u.old u.passes) in
            elim (subst (In z) rows listed) [
              | inl first ↦
                  let here : x.id ≡ i = subst (λ (r : Export). r.id ≡ i) first at in
                  absurd (ground (arith, here, others))
              | inr j ↦
                  changed-IsEnded p f xs i same passes ends (ground (arith, unique)) found z j at
            ]
      ]
    ]

module _ (io : Call → Bool) (answers : (c : Call) → io c ≡ true) (uuid_string : ℕ → Text) where
  pub mark_failed-ends :
      (e : Export) (code : Text) (now : ℕ) (returned joined : List Failure) (w : World)
      → IsKept uuid_string w
      → IsAcquired e w.database.exports
      → IsEnded (mark_failed_or_join io e code now returned joined w).1 e.tree_id e.id
  unfolding mark_failed_or_join mark_failed call is_unfinished_export is_unfinished record_failure
  mark_failed-ends e code now returned joined w k acquired x listed in_tree at =
      let p : Export → Bool = is_unfinished_export e.tree_id e.id in
      let db : ExportDatabase = w.database in
      elim (Option-cases (update_first p (record_failure code now) db.exports)) [
        | inr ((y, ys), changed) ↦
            let rows : (mark_failed_or_join io e code now returned joined w).1.database.exports
                ≡ ys =
              ground (arith, changed, answers write_status) in
            changed-IsEnded p (record_failure code now) db.exports e.id (λ r. refl)
              (λ r h. ground (arith, h)) (λ r. refl) (k.unique e.id) changed x
              (subst (In x) rows listed) at
        | inl stopped ↦
            let rows : (mark_failed_or_join io e code now returned joined w).1.database.exports
                ≡ db.exports =
              elim (Result-cases (mark_failed io e code now db)) [
                | inr (f, h) ↦ rw (h, mark_failed_or_join) refl
                | inl (d, h) ↦
                    let kept : d ≡ db =
                      elim (Option-cases (first_row (is_export e.tree_id e.id) db.exports)) [
                        | inl missing ↦ absurd (ground (arith, stopped, missing))
                        | inr (r, found) ↦ ground (arith, stopped, found)
                      ] in
                    rw (h, mark_failed_or_join) (ap (λ (v : ExportDatabase). v.exports) kept)
              ] in
            still p stopped x (subst (In x) rows listed) in_tree at
      ]
    where
      still :
          (p : Export → Bool)
          → update_first
              (is_unfinished_export e.tree_id e.id)
              (record_failure code now)
              w.database.exports
            ≡ none
          → (x : Export) → In x w.database.exports
          → x.tree_id ≡ e.tree_id
          → x.id ≡ e.id
          → is_unfinished x ≡ false
      still p stopped x listed in_tree at = elim (Bool-cases (is_unfinished x)) [
        | inr h ↦ h
        | inl h ↦
            let (y, ys, changed) =
              update_first-some (is_unfinished_export e.tree_id e.id) (record_failure code now) x
                w.database.exports listed (ground (arith, h, in_tree, at)) in
            absurd (ground (arith, stopped, changed))
      ]
