-- ===== src/ExportJobs/Rows.antt =====
-- How a statement of the worker changes the rows of the table of exports: each row goes on as itself.
use family_tree_app.Prelude.{
  first_row, ℕ, ◌≤◌, ◌≡◌, refl, subst, ◌⊎◌, inl, inr, sym, ◌∙◌, Bool, true, ◌||◌, some, List, [],
  ◌∷◌, map, Text, is_empty, ◌==◌, Bool-cases, Option-cases, In, count_if, update_first, arith,
}
use family_tree_app.ExportJobs.Domain.{Export, is_completed, is_expired}
use family_tree_app.ExportJobs.Steps.{is_queued, is_running}
use family_tree_app.ExportJobs.Generator.{result_object_key}

unfoldable pub has_id : ℕ → Export → Bool
has_id i e = e.id == i

unfoldable pub is_unfinished : Export → Bool
is_unfinished e = is_queued e.status || is_running e.status

-- The key of the result, where there is one, is that of the export and its checksum.
abbrev pub IsKeyed : (ℕ → Text) → Export → Type 0
IsKeyed uuid_string e =
    (is_empty e.result_object_key ≡ true)
    ⊎ (e.result_object_key
        ≡ result_object_key uuid_string e.tree_id e.id e.format e.result_checksum)

-- A row is the same export later on.
pub record Continues (e e' : Export) : Type 0 where
  pub same_id : e'.id ≡ e.id
  pub same_tree : e'.tree_id ≡ e.tree_id
  pub same_format : e'.format ≡ e.format
  pub was_queued : is_queued e'.status ≡ true → is_queued e.status ≡ true
  pub was_unfinished : is_unfinished e' ≡ true → is_unfinished e ≡ true
  pub stays_expired : is_expired e.status ≡ true → is_expired e'.status ≡ true

pub Continues-refl : (e : Export) → Continues e e
Continues-refl e = record {
  same_id = refl;
  same_tree = refl;
  same_format = refl;
  was_queued = λ h. h;
  was_unfinished = λ h. h;
  stays_expired = λ h. h;
}

pub Continues-trans : {a b c : Export} → Continues a b → Continues b c → Continues a c
Continues-trans p q = record {
  same_id = q.same_id ∙ p.same_id;
  same_tree = q.same_tree ∙ p.same_tree;
  same_format = q.same_format ∙ p.same_format;
  was_queued = λ h. p.was_queued (q.was_queued h);
  was_unfinished = λ h. p.was_unfinished (q.was_unfinished h);
  stays_expired = λ h. q.stays_expired (p.stays_expired h);
}

-- The row before and after a statement: a row that is completed was so before, or has a key that is new.
pub record RowStep (uuid_string : ℕ → Text) (New : Text → Type 0) (e e' : Export) : Type 0 where
  pub continues : Continues e e'
  pub keyed : IsKeyed uuid_string e → IsKeyed uuid_string e'
  pub was_completed :
      is_completed e'.status ≡ true
      → (is_completed e.status ≡ true) × (e'.result_object_key ≡ e.result_object_key)
        ⊎ New e'.result_object_key

module _ (uuid_string : ℕ → Text) (New : Text → Type 0) where
  abbrev pub Rows : List Export → List Export → Type 0
  Rows [] [] = Unit
  Rows (x ∷ xs) (y ∷ ys) = RowStep uuid_string New x y × Rows xs ys
  Rows _ _ = ⊥

  pub RowStep-refl : (e : Export) → RowStep uuid_string New e e
  RowStep-refl e = record {
    continues = Continues-refl e;
    keyed = λ h. h;
    was_completed = λ h. inl (h, refl);
  }

  pub Rows-refl : (xs : List Export) → Rows xs xs
  Rows-refl [] = tt
  Rows-refl (x ∷ xs) = (RowStep-refl x, Rows-refl xs)

  pub update_first-Rows :
      (p : Export → Bool) (f : Export → Export) (xs : List Export) {y : Export} {ys : List Export}
      → ((e : Export) → first_row p xs ≡ some e → RowStep uuid_string New e (f e))
      → update_first p f xs ≡ some (y, ys)
      → Rows xs ys
  unfolding update_first first_row
  update_first-Rows p f [] step h = cc
  update_first-Rows p f (x ∷ xs) {y} {ys} step h = elim (Bool-cases (p x)) [
    | inl e ↦
        let rows : ys ≡ f x ∷ xs = ground (arith, e) in
        rw rows (step x (ground (arith, e)), Rows-refl xs)
    | inr e ↦ elim (Option-cases (update_first p f xs)) [
      | inl stopped ↦ absurd (ground (arith, e, stopped))
      | inr ((y', ys'), found) ↦
          let rows : ys ≡ x ∷ ys' = ground (arith, e, found) in
          let rest = update_first-Rows p f xs (λ a i. step a (ground (arith, e, i))) found in
          rw rows (RowStep-refl x, rest)
    ]
  ]

  pub map-Rows :
      (g : Export → Export) (xs : List Export)
      → ((e : Export) → In e xs → RowStep uuid_string New e (g e))
      → Rows xs (map g xs)
  map-Rows g [] step = tt
  map-Rows g (x ∷ xs) step = (step x (inl refl), map-Rows g xs (λ e i. step e (inr i)))

  pub Rows-comes :
      (xs ys : List Export) (e' : Export)
      → Rows xs ys
      → In e' ys
      → (e : Export) × In e xs × RowStep uuid_string New e e'
  Rows-comes [] [] e' r i = absurd i
  Rows-comes [] (y ∷ ys) e' r i = absurd r
  Rows-comes (x ∷ xs) [] e' r i = absurd i
  Rows-comes (x ∷ xs) (y ∷ ys) e' (r, rs) (inl same) = (x, inl refl, rw same r)
  Rows-comes (x ∷ xs) (y ∷ ys) e' (r, rs) (inr i) =
      let (e, j, s) = Rows-comes xs ys e' rs i in (e, inr j, s)

  pub Rows-goes :
      (xs ys : List Export) (e : Export)
      → Rows xs ys
      → In e xs
      → (e' : Export) × In e' ys × RowStep uuid_string New e e'
  Rows-goes [] [] e r i = absurd i
  Rows-goes (x ∷ xs) [] e r i = absurd r
  Rows-goes [] (y ∷ ys) e r i = absurd i
  Rows-goes (x ∷ xs) (y ∷ ys) e (r, rs) (inl same) = (y, inl refl, rw same r)
  Rows-goes (x ∷ xs) (y ∷ ys) e (r, rs) (inr i) =
      let (e', j, s) = Rows-goes xs ys e rs i in (e', inr j, s)

  pub Rows-count :
      (xs ys : List Export) (i : ℕ) → Rows xs ys → count_if (has_id i) ys ≡ count_if (has_id i) xs
  unfolding count_if has_id
  Rows-count [] [] i r = refl
  Rows-count [] (y ∷ ys) i r = absurd r
  Rows-count (x ∷ xs) [] i r = absurd r
  Rows-count (x ∷ xs) (y ∷ ys) i (r, rs) =
      let rest = Rows-count xs ys i rs in rw (r.continues.same_id, rest) refl

pub count_listed :
    (i : ℕ) (xs : List Export) (a : Export) → In a xs → a.id ≡ i → 1 ≤ count_if (has_id i) xs
unfolding count_if has_id
count_listed i [] a p e = absurd p
count_listed i (x ∷ xs) a (inl p) e =
    let here : x.id ≡ i = subst (λ (y : Export). y.id ≡ i) p e in ground (arith, here)
count_listed i (x ∷ xs) a (inr p) e = ground (arith, count_listed i xs a p e)

-- Where at most one row has an identifier, it tells the row.
pub count_one :
    (i : ℕ) (xs : List Export) (a b : Export)
    → count_if (has_id i) xs ≤ 1
    → In a xs
    → a.id ≡ i
    → In b xs
    → b.id ≡ i
    → a ≡ b
unfolding count_if has_id
count_one i [] a b n p e q e' = absurd p
count_one i (x ∷ xs) a b n (inl p) e (inl q) e' = p ∙ sym q
count_one i (x ∷ xs) a b n (inl p) e (inr q) e' =
    let here : x.id ≡ i = subst (λ (y : Export). y.id ≡ i) p e in
    absurd (ground (arith, here, count_listed i xs b q e'))
count_one i (x ∷ xs) a b n (inr p) e (inl q) e' =
    let here : x.id ≡ i = subst (λ (y : Export). y.id ≡ i) q e' in
    absurd (ground (arith, here, count_listed i xs a p e))
count_one i (x ∷ xs) a b n (inr p) e (inr q) e' = count_one i xs a b (ground (arith, n)) p e q e'
