-- ===== src/Languages.antt =====
-- `languagePattern` of internal/features/persons/domain/person.go, which is also `localePattern` of
-- internal/features/trees/domain/tree.go: ^[A-Za-z]{2,3}(?:-[A-Za-z0-9]{2,8})*$.
use family_tree_app.Prelude.{
  ℕ, Bool, true, ◌&&◌, ◌||◌, List, [], ◌∷◌, ◌++◌, Text, length, leb, ◌==◌, if◌then◌else◌, flat_map,
}

unfoldable pub is_letter : ℕ → Bool
is_letter c = (leb 65 c && leb c 90) || (leb 97 c && leb c 122)

unfoldable pub is_alphanumeric : ℕ → Bool
unfolding is_letter
is_alphanumeric c = is_letter c || (leb 48 c && leb c 57)

unfoldable pub all {ℓ} : {A : Type ℓ} → (A → Bool) → List A → Bool
all p [] = true
all p (x ∷ xs) = p x && all p xs

abbrev pub hyphen : ℕ
hyphen = 45

-- The text before the first hyphen, and the pieces after each hyphen.
unfoldable pub pieces : Text → Text × List Text
pieces [] = ([], [])
pieces (c ∷ s) = let (p, ps) = pieces s in if c == hyphen then ([], p ∷ ps) else (c ∷ p, ps)

-- [A-Za-z]{2,3}
unfoldable pub is_primary : Text → Bool
unfolding all
is_primary p = leb 2 (length p) && leb (length p) 3 && all is_letter p

-- [A-Za-z0-9]{2,8}
unfoldable pub is_subtag : Text → Bool
unfolding all
is_subtag p = leb 2 (length p) && leb (length p) 8 && all is_alphanumeric p

unfoldable pub is_language_tag : Text → Bool
unfolding is_primary is_subtag pieces all
is_language_tag s = is_primary (pieces s).0 && all is_subtag (pieces s).1

abbrev pub join_pieces : Text → List Text → Text
join_pieces p ps = p ++ flat_map (λ q. hyphen ∷ q) ps
