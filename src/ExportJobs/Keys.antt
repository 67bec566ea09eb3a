-- ===== src/ExportJobs/Keys.antt =====
-- What the keys of results tell apart: `ResultObjectKey` of internal/features/exports/processing/generator.go.
use family_tree_app.Prelude.{
  ℕ, ◌≡◌, refl, ap, inl, inr, ◌∙◌, sym, [], ◌∷◌, ◌++◌, Text, codes, text_eq, length, length-append,
  Bool-cases, arith,
}
use family_tree_app.ExportJobs.Domain.{is_visual_format}
use family_tree_app.ExportJobs.Generator.{result_name, result_object_key}

-- Texts of one length before two texts that are equal.
cancel_prefix : (a b c d : Text) → length a ≡ length b → a ++ c ≡ b ++ d → (a ≡ b) × (c ≡ d)
cancel_prefix [] [] c d n h = (refl, h)
cancel_prefix [] (y ∷ b) c d n h = absurd (omega (arith, n))
cancel_prefix (x ∷ a) [] c d n h = absurd (omega (arith, n))
cancel_prefix (x ∷ a) (y ∷ b) c d n h =
    let (same, rest) = cancel_prefix a b c d (omega (arith, n)) cc in (cc, rest)

cancel_suffix : (a b c : Text) → a ++ c ≡ b ++ c → a ≡ b
cancel_suffix a b c h =
    let n = ap length h in
    (cancel_prefix a b c c (omega (arith, n, length-append a c, length-append b c)) h).0

-- Between a prefix and a suffix that are known.
cancel_around : (p a b s : Text) → p ++ (a ++ s) ≡ p ++ (b ++ s) → a ≡ b
cancel_around p a b s h = cancel_suffix a b s (cancel_prefix p p (a ++ s) (b ++ s) refl h).1

-- The name of a result tells its checksum.
result_name_inj : (f c d : Text) → result_name f c ≡ result_name f d → c ≡ d
unfolding result_name
result_name_inj f c d h = elim (Bool-cases (text_eq f (codes "zip_backup"))) [
  | inl e ↦ cancel_around (codes "backup-") c d (codes ".zip") (rw e at h)
  | inr e ↦ elim (Bool-cases (is_visual_format f)) [
    | inl e' ↦ cancel_around (codes "tree-") c d (codes "." ++ f) (rw (e, e') at h)
    | inr e' ↦ elim (Bool-cases (text_eq f (codes "gedcom"))) [
      | inl e'' ↦ cancel_around (codes "tree-") c d (codes ".ged") (rw (e, e', e'') at h)
      | inr e'' ↦ elim (Bool-cases (text_eq f (codes "gedzip"))) [
        | inl q ↦ cancel_around (codes "tree-") c d (codes ".gdz") (rw (e, e', e'', q) at h)
        | inr q ↦ cancel_around (codes "manifest-") c d (codes ".json") (rw (e, e', e'', q) at h)
      ]
    ]
  ]
]

-- What google/uuid documents of `String`: 36 characters that tell the identifier.
pub record IsCanonical (uuid_string : ℕ → Text) : Type 0 where
  pub width : (i : ℕ) → length (uuid_string i) ≡ 36
  pub distinct : (i j : ℕ) → uuid_string i ≡ uuid_string j → i ≡ j

module _ {uuid_string : ℕ → Text} (canonical : IsCanonical uuid_string) where
  pub result_object_key_inj :
      (t t' i i' : ℕ) (f f' c c' : Text)
      → result_object_key uuid_string t i f c ≡ result_object_key uuid_string t' i' f' c'
      → (i ≡ i') × (result_name f c ≡ result_name f' c')
  unfolding result_object_key
  result_object_key_inj t t' i i' f f' c c' h =
      let widths : (a b : ℕ) → length (uuid_string a) ≡ length (uuid_string b) =
        λ a b. canonical.width a ∙ sym (canonical.width b) in
      let (_, h1) = cancel_prefix (codes "trees/") (codes "trees/") _ _ refl h in
      let (_, h2) = cancel_prefix (uuid_string t) (uuid_string t') _ _ (widths t t') h1 in
      let (_, h3) = cancel_prefix (codes "/exports/") (codes "/exports/") _ _ refl h2 in
      let (same, h4) = cancel_prefix (uuid_string i) (uuid_string i') _ _ (widths i i') h3 in
      let (_, h5) = cancel_prefix (codes "/") (codes "/") _ _ refl h4 in
      (canonical.distinct i i' same, h5)

  pub result_object_key_checksum :
      (t t' i i' : ℕ) (f c c' : Text)
      → result_object_key uuid_string t i f c ≡ result_object_key uuid_string t' i' f c'
      → c ≡ c'
  result_object_key_checksum t t' i i' f c c' h =
      result_name_inj f c c' (result_object_key_inj t t' i i' f f c c' h).1
