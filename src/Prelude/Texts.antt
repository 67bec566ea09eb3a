-- ===== src/Prelude/Texts.antt =====
-- Go strings as lists of code points: equality, `strings.TrimSpace`, `utf8.RuneCountInString` (the
-- length) and `len` (the bytes of the UTF-8 form).
use Prim.Native.Nat.{ℕ, ◌+◌, ◌≤◌}
use Prim.Native.Char.{code}
use Prim.Native.String.{String}
use mathlib.Core.Path.{◌≡◌, refl}
use mathlib.Core.Bool.{Bool, true, false, not, ◌&&◌, ◌||◌}
use mathlib.Core.List.{List, [], ◌∷◌}
use native.Mathlib.Omega.{arith}
use family_tree_app.Prelude.Tests.{ltb, leb, ◌==◌, if◌then◌else◌}
use family_tree_app.Prelude.Lists.{length}

abbrev pub Text : Type 0
Text = List ℕ

abbrev pub codes : String → Text
codes String.[] = []
codes (String.◌∷◌ c s) = code c ∷ codes s

unfoldable pub text_eq : Text → Text → Bool
text_eq [] [] = true
text_eq (a ∷ s) (b ∷ t) = (a == b) && text_eq s t
text_eq _ _ = false

pub text_eq_refl : (s : Text) → text_eq s s ≡ true
unfolding text_eq
text_eq_refl [] = refl
text_eq_refl (a ∷ s) = ground (arith, text_eq_refl s)

pub text_eq-eq : (s t : Text) → text_eq s t ≡ true → s ≡ t
unfolding text_eq
text_eq-eq [] [] h = refl
text_eq-eq [] (b ∷ t) h = cc
text_eq-eq (a ∷ s) [] h = cc
text_eq-eq (a ∷ s) (b ∷ t) h = ground (arith, text_eq-eq s t)

abbrev pub is_empty : Text → Bool
is_empty [] = true
is_empty (c ∷ s) = false

-- `unicode.IsSpace`.
unfoldable pub is_space : ℕ → Bool
is_space c =
    (leb 9 c && leb c 13)
    || (c == 32)
    || (c == 0x85)
    || (c == 0xa0)
    || (c == 0x1680)
    || (leb 0x2000 c && leb c 0x200a)
    || (c == 0x2028)
    || (c == 0x2029)
    || (c == 0x202f)
    || (c == 0x205f)
    || (c == 0x3000)

unfoldable pub trim_left : Text → Text
trim_left [] = []
trim_left (c ∷ s) = if is_space c then trim_left s else c ∷ s

unfoldable pub trim_right : Text → Text
trim_right [] = []
trim_right (c ∷ s) = let t = trim_right s in if is_empty t && is_space c then [] else c ∷ t

-- `strings.TrimSpace`.
unfoldable pub trim_space : Text → Text
unfolding trim_left trim_right
trim_space s = trim_right (trim_left s)

trim_right_idem : (s : Text) → trim_right (trim_right s) ≡ trim_right s
unfolding trim_right
trim_right_idem [] = refl
trim_right_idem (c ∷ s) = ground (arith, trim_right_idem s)

-- A text that begins with no space.
starts_inked : Text → Bool
starts_inked [] = true
starts_inked (c ∷ s) = not (is_space c)

trim_left-inked : (s : Text) → starts_inked (trim_left s) ≡ true
unfolding starts_inked trim_left
trim_left-inked [] = refl
trim_left-inked (c ∷ s) = ground (arith, trim_left-inked s)

trim_right-inked : (s : Text) → starts_inked s ≡ true → starts_inked (trim_right s) ≡ true
unfolding starts_inked trim_right
trim_right-inked [] h = refl
trim_right-inked (c ∷ s) h = ground arith

trim_left_of_inked : (s : Text) → starts_inked s ≡ true → trim_left s ≡ s
unfolding starts_inked trim_left
trim_left_of_inked [] h = refl
trim_left_of_inked (c ∷ s) h = ground arith

pub trim_space_idem : (s : Text) → trim_space (trim_space s) ≡ trim_space s
unfolding trim_space
trim_space_idem s =
    let t = trim_left s in
    rw (trim_left_of_inked (trim_right t) (trim_right-inked t (trim_left-inked s)))
      (trim_right_idem t)

trim_left-le : (s : Text) → length (trim_left s) ≤ length s
unfolding trim_left
trim_left-le [] = omega arith
trim_left-le (c ∷ s) = ground (arith, trim_left-le s)

trim_right-le : (s : Text) → length (trim_right s) ≤ length s
unfolding trim_right
trim_right-le [] = omega arith
trim_right-le (c ∷ s) = ground (arith, trim_right-le s)

pub length-trim_space-le : (s : Text) → length (trim_space s) ≤ length s
unfolding trim_space
length-trim_space-le s = omega (arith, trim_right-le (trim_left s), trim_left-le s)

-- `len`: the bytes of the UTF-8 form.
unfoldable pub byte_len : Text → ℕ
byte_len [] = 0
byte_len (c ∷ s) =
    (if ltb c 0x80 then 1 else if ltb c 0x800 then 2 else if ltb c 0x10000 then 3 else 4)
    + byte_len s

-- What a run over texts computes with.
unfoldable pub text_functions : Unit {0}
unfolding text_eq trim_space trim_left trim_right is_space byte_len
text_functions = tt
