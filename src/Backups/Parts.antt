-- ===== src/Backups/Parts.antt =====
-- Paths and their parts, between slashes, for internal/features/exports/restore/archive.go.
use family_tree_app.Prelude.{
  ℕ, ◌≡◌, refl, ap, inl, inr, Bool, false, List, [], ◌∷◌, ◌++◌, Text, ◌==◌, any, Bool-cases, arith,
}
use family_tree_app.Backups.Paths.{put_first, split_on, parts, join}

abbrev pub has_slash : Text → Bool
has_slash part = any (λ c. c == 47) part

put_first-any :
    (c : ℕ) (ps : List Text)
    → (c == 47) ≡ false
    → any has_slash ps ≡ false
    → any has_slash (put_first c ps) ≡ false
unfolding put_first any
put_first-any c [] h plain = rw h refl
put_first-any c (part ∷ ps) h plain = rw h plain

pub parts-any : (s : Text) → any has_slash (parts s) ≡ false
unfolding split_on any
parts-any [] = refl
parts-any (c ∷ s) = elim (Bool-cases (c == 47)) [
  | inl slash ↦ rw slash (parts-any s)
  | inr other ↦ rw other (put_first-any c (parts s) other (parts-any s))
]

parts-one : (part : Text) → has_slash part ≡ false → parts part ≡ part ∷ []
unfolding split_on put_first any
parts-one [] h = refl
parts-one (c ∷ part) h = elim (Bool-cases (c == 47)) [
  | inl slash ↦ absurd (ground (arith, h, slash))
  | inr other ↦
      let rest : has_slash part ≡ false = ground (arith, h, other) in
      rw (other, parts-one part rest) refl
]

parts-slash :
    (part rest : Text) → has_slash part ≡ false → parts (part ++ (47 ∷ rest)) ≡ part ∷ parts rest
unfolding split_on put_first any
parts-slash [] rest h = refl
parts-slash (c ∷ part) rest h = elim (Bool-cases (c == 47)) [
  | inl slash ↦ absurd (ground (arith, h, slash))
  | inr other ↦
      let plain : has_slash part ≡ false = ground (arith, h, other) in
      rw (other, parts-slash part rest plain) refl
]

-- The parts of joined parts.
pub parts-join :
    (first : Text) (rest : List Text)
    → any has_slash (first ∷ rest) ≡ false
    → parts (join (first ∷ rest)) ≡ first ∷ rest
unfolding join any
parts-join first [] plain = parts-one first (ground (arith, plain))
parts-join first (next ∷ rest) plain =
    let here : has_slash first ≡ false = ground (arith, plain) in
    let there : any has_slash (next ∷ rest) ≡ false = ground (arith, plain) in
    rw (parts-slash first (join (next ∷ rest)) here)
      (ap (λ more. first ∷ more) (parts-join next rest there))
