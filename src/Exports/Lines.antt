-- ===== src/Exports/Lines.antt =====
-- `line` of internal/features/exports/gedcom/gedcom.go: one GEDCOM structure, with a continuation line for
-- each line break of its payload.
use family_tree_app.Prelude.{
  ℕ, zero, suc, ◌+◌, ◌/◌, ◌%◌, ◌≡◌, refl, ap, Bool, false, ◌||◌, List, [], ◌∷◌, ◌++◌, map, Text,
  codes, is_empty, ltb, ◌==◌, if◌then◌else◌, any, any-append, flat_map, All, Bool-cases, inl, inr,
  arith,
}
use family_tree_app.Exports.Texts.{
  line_feed, carriage_return, clean_text, has_cr, has_cr-clean_text, starts_with,
}

abbrev pub at_sign : ℕ
at_sign = 64

-- `strings.Split(value, "\n")`: the text before the first line feed, and those after each.
unfoldable pub split_lines : Text → Text × List Text
split_lines [] = ([], [])
split_lines (c ∷ s) =
    let (first, rest) = split_lines s in
    if c == line_feed then ([], first ∷ rest) else (c ∷ first, rest)

unfoldable pub escape_line_string : Text → Text
unfolding starts_with
escape_line_string value = if starts_with at_sign value then at_sign ∷ value else value

abbrev pub pointer : Text → Text
pointer xref = at_sign ∷ (xref ++ (at_sign ∷ []))

-- `fmt.Sprintf("%d", n)`; the number itself bounds the digits.
unfoldable pub decimal_from : ℕ → ℕ → Text
decimal_from zero n = (48 + n) ∷ []
decimal_from (suc rounds) n =
    let rest = decimal_from rounds (n / 10) in
    if ltb n 10 then (48 + n) ∷ [] else rest ++ ((48 + n % 10) ∷ [])

unfoldable pub decimal : ℕ → Text
unfolding decimal_from
decimal n = decimal_from n n

-- A space and the text, escaped, where there is a text.
unfoldable pub payload_part : Text → Text
unfolding escape_line_string
payload_part value = if is_empty value then [] else 32 ∷ escape_line_string value

-- A space and the reference, where there is one.
abbrev pub reference_part : Text → Text
reference_part xref = if is_empty xref then [] else 32 ∷ pointer xref

unfoldable pub first_line : ℕ → Text → Text → Text → Text
unfolding decimal payload_part
first_line level xref tag value =
    decimal level ++ (reference_part xref ++ (32 ∷ (tag ++ payload_part value)))

unfoldable pub continuation : ℕ → Text → Text
unfolding decimal payload_part
continuation level value = decimal (level + 1) ++ (codes " CONT" ++ payload_part value)

abbrev pub terminated : Text → Text
terminated s = s ++ (carriage_return ∷ line_feed ∷ [])

-- What `line` appends to the buffer.
unfoldable pub line : ℕ → Text → Text → Text → Text
unfolding split_lines first_line continuation flat_map
line level xref tag payload =
    let lines = split_lines (clean_text payload) in
    terminated (first_line level xref tag lines.0)
    ++ flat_map (λ value. terminated (continuation level value)) lines.1

unfoldable pub pointer_line : ℕ → Text → Text → Text
pointer_line level tag xref = terminated (decimal level ++ (32 ∷ (tag ++ (32 ∷ pointer xref))))

abbrev pub breaks : ℕ → Bool
breaks c = (c == carriage_return) || (c == line_feed)

-- The text has no character that ends a line.
abbrev pub IsOneLine : Text → Type 0
IsOneLine s = any breaks s ≡ false

++-IsOneLine : (s t : Text) → IsOneLine s → IsOneLine t → IsOneLine (s ++ t)
++-IsOneLine s t h k = rw (any-append breaks s t, h) k

digit-IsOneLine : (n : ℕ) → IsOneLine ((48 + n) ∷ [])
unfolding any
digit-IsOneLine n = ground arith

decimal_from-IsOneLine : (rounds n : ℕ) → IsOneLine (decimal_from rounds n)
unfolding decimal_from
decimal_from-IsOneLine zero n = digit-IsOneLine n
decimal_from-IsOneLine (suc rounds) n = elim (Bool-cases (ltb n 10)) [
  | inl e ↦ rw e (digit-IsOneLine n)
  | inr e ↦ rw e (
      ++-IsOneLine (decimal_from rounds (n / 10)) ((48 + n % 10) ∷ [])
        (decimal_from-IsOneLine rounds (n / 10)) (digit-IsOneLine (n % 10)))
]

payload_part-IsOneLine : (s : Text) → IsOneLine s → IsOneLine (payload_part s)
unfolding payload_part escape_line_string starts_with any
payload_part-IsOneLine [] h = refl
payload_part-IsOneLine (c ∷ s) h = elim (Bool-cases (c == at_sign)) [
  | inl e ↦ ground (arith, e)
  | inr e ↦ ground (arith, e)
]

split_lines-IsOneLine :
    (s : Text) → has_cr s ≡ false → IsOneLine (split_lines s).0 × All IsOneLine (split_lines s).1
unfolding split_lines any
split_lines-IsOneLine [] h = (refl, tt)
split_lines-IsOneLine (c ∷ s) h =
    let rest : has_cr s ≡ false = ground arith in
    let (first, others) = split_lines-IsOneLine s rest in
    elim (Bool-cases (c == line_feed)) [
      | inl e ↦ rw e (refl, (first, others))
      | inr e ↦ rw e (ground (arith, e), others)
    ]

All-map :
    {A B : Type 0} (P : A → Type 0) (Q : B → Type 0) (f : A → B)
    → ((a : A) → P a → Q (f a))
    → (xs : List A) → All P xs
    → All Q (map f xs)
All-map P Q f h [] a = tt
All-map P Q f h (x ∷ xs) (a, rest) = (h x a, All-map P Q f h xs rest)

flat_map-terminated :
    (f : Text → Text) (xs : List Text)
    → flat_map (λ x. terminated (f x)) xs ≡ flat_map terminated (map f xs)
unfolding flat_map
flat_map-terminated f [] = refl
flat_map-terminated f (x ∷ xs) = ap (λ z. terminated (f x) ++ z) (flat_map-terminated f xs)

reference_part-IsOneLine : (xref : Text) → IsOneLine xref → IsOneLine (reference_part xref)
unfolding any
reference_part-IsOneLine [] h = refl
reference_part-IsOneLine (c ∷ s) h = ++-IsOneLine (c ∷ s) (at_sign ∷ []) h refl

first_line-IsOneLine :
    (level : ℕ) (xref tag value : Text)
    → IsOneLine xref
    → IsOneLine tag
    → IsOneLine value
    → IsOneLine (first_line level xref tag value)
unfolding first_line decimal any
first_line-IsOneLine level xref tag value one_xref one_tag one_value =
    let after_tag : IsOneLine (tag ++ payload_part value) =
      ++-IsOneLine tag (payload_part value) one_tag (payload_part-IsOneLine value one_value) in
    ++-IsOneLine (decimal level) (reference_part xref ++ (32 ∷ (tag ++ payload_part value)))
      (decimal_from-IsOneLine level level)
      (++-IsOneLine (reference_part xref) (32 ∷ (tag ++ payload_part value))
        (reference_part-IsOneLine xref one_xref) after_tag)

continuation-IsOneLine :
    (level : ℕ) (value : Text) → IsOneLine value → IsOneLine (continuation level value)
unfolding continuation decimal any
continuation-IsOneLine level value one =
    ++-IsOneLine (decimal (level + 1)) (codes " CONT" ++ payload_part value)
      (decimal_from-IsOneLine (level + 1) (level + 1)) (payload_part-IsOneLine value one)

-- What `line` writes, for a tag and a reference with no line break, is a first line with the level, the
-- reference and the tag, and continuation lines of the next level alone, each line ended by CR LF and
-- with no line break inside: no payload begins a structure of its own.
pub line_is_one_structure :
    (level : ℕ) (xref tag payload : Text)
    → IsOneLine xref
    → IsOneLine tag
    → (first : Text) × (rest : List Text) × (line level xref tag payload
        ≡ terminated (first_line level xref tag first)
          ++ flat_map terminated (map (continuation level) rest))
      × IsOneLine (first_line level xref tag first)
      × All IsOneLine (map (continuation level) rest)
unfolding line first_line continuation decimal
line_is_one_structure level xref tag payload one_xref one_tag =
    let lines : Text × List Text = split_lines (clean_text payload) in
    let (head, tail) = split_lines-IsOneLine (clean_text payload) (has_cr-clean_text payload) in
    (
      lines.0,
      lines.1,
      ap (λ z. terminated (first_line level xref tag lines.0) ++ z)
          (flat_map-terminated (continuation level) lines.1),
      first_line-IsOneLine level xref tag lines.0 one_xref one_tag head,
      All-map IsOneLine IsOneLine (continuation level) (continuation-IsOneLine level) lines.1 tail,
    )
