-- ===== src/Backups/PathSafety.antt =====
-- A path that `safeArchivePath` of internal/features/exports/restore/archive.go accepts names a file below the folder that it is
-- read from, but for the path "..".
use family_tree_app.Prelude.{
  ◌≡◌, ◌⊎◌, refl, ap, sym, subst, ◌∙◌, inl, inr, Bool, true, false, not, ◌&&◌, ◌||◌, List, [], ◌∷◌,
  Text, codes, text_eq, text_eq-eq, is_empty, if◌then◌else◌, any, Bool-cases, arith,
}
use family_tree_app.Backups.Paths.{
  has_prefix, parts, join, is_parent, clean_part, clean_parts, backwards, written, clean,
  safe_archive_path,
}
use family_tree_app.Backups.Parts.{has_slash, parts-any, parts-join}

-- A part with a name: not empty, not the folder itself and not the one above.
abbrev pub is_name : Text → Bool
is_name part = not (is_empty part) && not (text_eq part (codes ".")) && not (is_parent part)

-- What `path.Clean` keeps, the last part first: names, on parts that lead above.
is_kept : List Text → Bool
is_kept [] = true
is_kept (part ∷ kept) =
    if is_parent part then not (any (λ p. not (is_parent p)) kept) else is_name part && is_kept kept

clean_part-is_kept :
    (part : Text) (kept : List Text) → is_kept kept ≡ true → is_kept (clean_part part kept) ≡ true
unfolding clean_part is_kept any
clean_part-is_kept part [] k = elim (Bool-cases (is_empty part || text_eq part (codes "."))) [
  | inl skipped ↦ rw skipped refl
  | inr named ↦ rw named (elim (Bool-cases (is_parent part)) [
    | inl up ↦ rw up refl
    | inr down ↦ ground (arith, named, down)
  ])
]
clean_part-is_kept part (last ∷ kept) k =
    elim (Bool-cases (is_empty part || text_eq part (codes "."))) [
      | inl skipped ↦ rw skipped k
      | inr named ↦ rw named (elim (Bool-cases (is_parent part)) [
        | inl up ↦ elim (Bool-cases (is_parent last)) [
          | inl above ↦ rw (up, above) (ground (arith, k, above, up))
          | inr below ↦ rw (up, below) (ground (arith, k, below))
        ]
        | inr down ↦ rw down (ground (arith, named, down, k))
      ])
    ]

clean_parts-is_kept :
    (ps kept : List Text) → is_kept kept ≡ true → is_kept (clean_parts ps kept) ≡ true
unfolding clean_parts
clean_parts-is_kept [] kept k = k
clean_parts-is_kept (part ∷ ps) kept k =
    clean_parts-is_kept ps (clean_part part kept) (clean_part-is_kept part kept k)

-- All are names, or the first is the folder above.
kept_cases :
    (kept done : List Text)
    → is_kept kept ≡ true
    → (any (λ part. not (is_name part)) kept ≡ false)
      ⊎ ((first : Text) × (rest : List Text) × (backwards kept done ≡ first ∷ rest)
          × (is_parent first ≡ true))
unfolding is_kept backwards any
kept_cases [] done k = inl refl
kept_cases (part ∷ []) done k = elim (Bool-cases (is_parent part)) [
  | inl up ↦ inr (part, done, refl, up)
  | inr down ↦ inl (ground (arith, k, down))
]
kept_cases (part ∷ next ∷ kept) done k = elim (Bool-cases (is_parent part)) [
  | inl up ↦
      let next_up : is_parent next ≡ true = ground (arith, k, up) in
      let k' : is_kept (next ∷ kept) ≡ true = ground (arith, k, up, next_up) in
      elim (kept_cases (next ∷ kept) (part ∷ done) k') [
        | inl names ↦ absurd (ground (arith, names, next_up))
        | inr found ↦ inr found
      ]
  | inr down ↦
      let k' : is_kept (next ∷ kept) ≡ true = ground (arith, k, down) in
      let name : is_name part ≡ true = ground (arith, k, down) in
      elim (kept_cases (next ∷ kept) (part ∷ done) k') [
        | inl names ↦ inl (rw name names)
        | inr found ↦ inr found
      ]
]

clean_part-plain :
    (part : Text) (kept : List Text)
    → has_slash part ≡ false
    → any has_slash kept ≡ false
    → any has_slash (clean_part part kept) ≡ false
unfolding clean_part any
clean_part-plain part [] here k = ground (arith, here, k)
clean_part-plain part (last ∷ kept) here k = ground (arith, here, k)

clean_parts-plain :
    (ps kept : List Text)
    → any has_slash ps ≡ false
    → any has_slash kept ≡ false
    → any has_slash (clean_parts ps kept) ≡ false
unfolding clean_parts any
clean_parts-plain [] kept p k = k
clean_parts-plain (part ∷ ps) kept p k =
    let here : has_slash part ≡ false = ground (arith, p) in
    let there : any has_slash ps ≡ false = ground (arith, p, here) in
    clean_parts-plain ps (clean_part part kept) there (clean_part-plain part kept here k)

backwards-any :
    (bad : Text → Bool) (kept done : List Text)
    → any bad kept ≡ false
    → any bad done ≡ false
    → any bad (backwards kept done) ≡ false
unfolding backwards any
backwards-any bad [] done k d = d
backwards-any bad (part ∷ kept) done k d =
    let here : bad part ≡ false = ground (arith, k) in
    let there : any bad kept ≡ false = ground (arith, k, here) in
    backwards-any bad kept (part ∷ done) there (rw here d)

List-cases : (xs : List Text) → (xs ≡ []) ⊎ ((x : Text) × (rest : List Text) × (xs ≡ x ∷ rest))
List-cases [] = inl refl
List-cases (x ∷ rest) = inr (x, rest, refl)

-- Joined parts that begin with the folder above.
joined_above :
    (rest : List Text)
    → (join (codes ".." ∷ rest) ≡ codes "..")
      ⊎ (has_prefix (join (codes ".." ∷ rest)) (codes "../") ≡ true)
unfolding join has_prefix
joined_above [] = inl refl
joined_above (next ∷ rest) = inr refl

-- The parts of a path that is its own clean form, where it is not the folder itself.
below :
    (path : Text) (kept : List Text)
    → is_kept kept ≡ true
    → any has_slash kept ≡ false
    → join (backwards kept []) ≡ path
    → is_empty path ≡ false
    → has_prefix path (codes "../") ≡ false
    → (path ≡ codes "..") ⊎ (any (λ part. not (is_name part)) (parts path) ≡ false)
unfolding join any text_eq is_parent
below path kept k plain whole named low = elim (List-cases (backwards kept [])) [
  | inl nothing ↦ absurd (ground (arith, whole, nothing, named))
  | inr (first, rest, order) ↦
      let whole' : join (first ∷ rest) ≡ path = subst (λ xs. join xs ≡ path) order whole in
      elim (kept_cases kept [] k) [
        | inl names ↦
            let good : any (λ part. not (is_name part)) (first ∷ rest) ≡ false =
              subst (λ xs. any (λ part. not (is_name part)) xs ≡ false) order
                (backwards-any _ kept [] names refl) in
            let same : parts path ≡ first ∷ rest =
              ap parts (sym whole')
              ∙ parts-join first rest (
                  subst (λ xs. any has_slash xs ≡ false) order
                    (backwards-any has_slash kept [] plain refl)) in
            inr (rw same good)
        | inr (first', rest', order', up) ↦
            let dots : first' ≡ codes ".." = text_eq-eq first' (codes "..") up in
            let whole'' : join (codes ".." ∷ rest') ≡ path =
              subst (λ d. join (d ∷ rest') ≡ path) dots
                (subst (λ xs. join xs ≡ path) order' whole) in
            elim (joined_above rest') [
              | inl only ↦ inl (sym whole'' ∙ only)
              | inr deep ↦ absurd (ground (arith, deep, whole'', low))
            ]
      ]
]

written-kept :
    (kept rest : List Text) (last : Text)
    → kept ≡ last ∷ rest
    → written kept ≡ join (backwards kept [])
unfolding written
written-kept kept rest last there = rw there refl

written-empty : (kept : List Text) → kept ≡ [] → written kept ≡ codes "."
unfolding written
written-empty kept nothing = rw nothing refl

-- A path that the check accepts is "..", or each of its parts, between the slashes, is a name: none is empty, and none is the
-- folder itself or the folder above. So no other path leads out of the folder.
pub safe_archive_path-below :
    (path : Text)
    → safe_archive_path path ≡ true
    → (path ≡ codes "..") ⊎ (any (λ part. not (is_name part)) (parts path) ≡ false)
unfolding safe_archive_path clean any is_kept
safe_archive_path-below path safe =
    let kept : List Text = clean_parts (parts path) [] in
    let k : is_kept kept ≡ true = clean_parts-is_kept (parts path) [] refl in
    let plain : any has_slash kept ≡ false =
      clean_parts-plain (parts path) [] (parts-any path) refl in
    let same : clean path ≡ path = text_eq-eq (clean path) path (ground (arith, safe)) in
    let named : is_empty path ≡ false = ground (arith, safe) in
    let low : has_prefix path (codes "../") ≡ false = ground (arith, safe) in
    let elsewhere : text_eq path (codes ".") ≡ false = ground (arith, safe) in
    elim (List-cases kept) [
      | inl none_kept ↦ absurd (ground (arith, sym same ∙ written-empty kept none_kept, elsewhere))
      | inr (last, rest, there) ↦
          below path kept k plain (sym (written-kept kept rest last there) ∙ same) named low
    ]
