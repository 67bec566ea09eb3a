-- ===== src/Exports/Texts.antt =====
-- `cleanText` of internal/features/exports/gedcom/gedcom.go: the text of a payload, with every line break
-- a line feed and no other control character than the tab.
use family_tree_app.Prelude.{
  ℕ, ◌≡◌, refl, Bool, false, not, ◌&&◌, ◌||◌, [], ◌∷◌, Text, leb, ◌==◌, if◌then◌else◌, select, any,
  Bool-cases, inl, inr, arith,
}

abbrev pub line_feed : ℕ
line_feed = 10

abbrev pub carriage_return : ℕ
carriage_return = 13

unfoldable pub starts_with : ℕ → Text → Bool
starts_with c [] = false
starts_with c (d ∷ s) = d == c

-- `strings.ReplaceAll(value, "\r\n", "\n")`: a carriage return before a line feed goes.
unfoldable pub replace_crlf : Text → Text
unfolding starts_with
replace_crlf [] = []
replace_crlf (c ∷ s) =
    let rest = replace_crlf s in
    if (c == carriage_return) && starts_with line_feed s then rest else c ∷ rest

-- `strings.ReplaceAll(value, "\r", "\n")`.
unfoldable pub replace_cr : Text → Text
replace_cr [] = []
replace_cr (c ∷ s) = (if c == carriage_return then line_feed else c) ∷ replace_cr s

-- `unicode.IsControl`.
unfoldable pub is_control : ℕ → Bool
is_control c = leb c 0x1f || (leb 0x7f c && leb c 0x9f)

-- The characters that the mapping keeps.
unfoldable pub is_kept : ℕ → Bool
unfolding is_control
is_kept c =
    (c == line_feed)
    || (c == 9)
    || not (is_control c || (c == 0x7f) || (c == 0xfffe) || (c == 0xffff))

unfoldable pub clean_text : Text → Text
unfolding replace_crlf replace_cr is_kept select
clean_text value = select is_kept (replace_cr (replace_crlf value))

abbrev pub has_cr : Text → Bool
has_cr s = any (λ c. c == carriage_return) s

has_cr-replace_cr : (s : Text) → has_cr (replace_cr s) ≡ false
unfolding any replace_cr
has_cr-replace_cr [] = refl
has_cr-replace_cr (c ∷ s) = ground (arith, has_cr-replace_cr s)

has_cr-select : (p : ℕ → Bool) (s : Text) → has_cr s ≡ false → has_cr (select p s) ≡ false
unfolding any select
has_cr-select p [] h = refl
has_cr-select p (c ∷ s) h =
    let rest : has_cr s ≡ false = ground arith in ground (arith, has_cr-select p s rest)

-- No carriage return is left in a cleaned text.
pub has_cr-clean_text : (s : Text) → has_cr (clean_text s) ≡ false
unfolding clean_text
has_cr-clean_text s =
    has_cr-select is_kept (replace_cr (replace_crlf s)) (has_cr-replace_cr (replace_crlf s))

replace_crlf-same : (s : Text) → has_cr s ≡ false → replace_crlf s ≡ s
unfolding any replace_crlf
replace_crlf-same [] h = refl
replace_crlf-same (c ∷ s) h =
    let rest : has_cr s ≡ false = ground arith in ground (arith, replace_crlf-same s rest)

replace_cr-same : (s : Text) → has_cr s ≡ false → replace_cr s ≡ s
unfolding any replace_cr
replace_cr-same [] h = refl
replace_cr-same (c ∷ s) h =
    let rest : has_cr s ≡ false = ground arith in ground (arith, replace_cr-same s rest)

select_idem : (p : ℕ → Bool) (s : Text) → select p (select p s) ≡ select p s
unfolding select
select_idem p [] = refl
select_idem p (c ∷ s) = elim (Bool-cases (p c)) [
  | inl e ↦ ground (arith, e, select_idem p s)
  | inr e ↦ ground (arith, e, select_idem p s)
]

-- Cleaning a cleaned text changes nothing.
pub clean_text_idem : (s : Text) → clean_text (clean_text s) ≡ clean_text s
unfolding clean_text
clean_text_idem s =
    let t : Text = clean_text s in
    rw (replace_crlf-same t (has_cr-clean_text s), replace_cr-same t (has_cr-clean_text s))
      (select_idem is_kept (replace_cr (replace_crlf s)))
