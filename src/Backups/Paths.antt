-- ===== src/Backups/Paths.antt =====
-- `safeArchivePath` and `validChecksum` of internal/features/exports/restore/archive.go, with what they call of the packages
-- strings and path.
use family_tree_app.Prelude.{
  ℕ, Bool, true, false, not, ◌&&◌, ◌||◌, List, [], ◌∷◌, ◌++◌, Text, codes, text_eq, is_empty, leb,
  ◌==◌, if◌then◌else◌, any, length,
}

-- `strings.HasPrefix`.
unfoldable pub has_prefix : Text → Text → Bool
has_prefix s [] = true
has_prefix [] (b ∷ prefix) = false
has_prefix (a ∷ s) (b ∷ prefix) = (a == b) && has_prefix s prefix

unfoldable pub put_first : ℕ → List Text → List Text
put_first c [] = (c ∷ []) ∷ []
put_first c (part ∷ parts) = (c ∷ part) ∷ parts

-- `strings.Split`, at one character.
unfoldable pub split_on : ℕ → Text → List Text
unfolding put_first
split_on separator [] = [] ∷ []
split_on separator (c ∷ s) =
    if c == separator then [] ∷ split_on separator s else put_first c (split_on separator s)

-- The parts of a path, between its slashes.
abbrev pub parts : Text → List Text
parts path = split_on 47 path

unfoldable pub join : List Text → Text
join [] = []
join (part ∷ []) = part
join (part ∷ next ∷ rest) = part ++ (47 ∷ join (next ∷ rest))

unfoldable pub is_parent : Text → Bool
is_parent part = text_eq part (codes "..")

-- One part of the path, on the parts that `path.Clean` has kept, the last one first.
unfoldable pub clean_part : Text → List Text → List Text
unfolding is_parent
clean_part part [] = if is_empty part || text_eq part (codes ".") then [] else part ∷ []
clean_part part (last ∷ kept) =
    if is_empty part || text_eq part (codes ".")
    then last ∷ kept
    else if is_parent part && not (is_parent last)
    then kept
    else part ∷ last ∷ kept

unfoldable pub clean_parts : List Text → List Text → List Text
unfolding clean_part
clean_parts [] kept = kept
clean_parts (part ∷ rest) kept = clean_parts rest (clean_part part kept)

unfoldable pub backwards : List Text → List Text → List Text
backwards [] done = done
backwards (part ∷ rest) done = backwards rest (part ∷ done)

unfoldable pub written : List Text → Text
unfolding join backwards
written [] = codes "."
written (last ∷ rest) = join (backwards (last ∷ rest) [])

-- `path.Clean` of a path that does not begin with a slash.
unfoldable pub clean : Text → Text
unfolding clean_parts split_on written
clean path = written (clean_parts (parts path) [])

unfoldable pub safe_archive_path : Text → Bool
unfolding has_prefix clean
safe_archive_path value =
    not (is_empty value)
    && not (any (λ c. c == 92) value)
    && not (has_prefix value (codes "/"))
    && text_eq (clean value) value
    && not (text_eq value (codes "."))
    && not (has_prefix value (codes "../"))

-- What `hex.DecodeString` accepts.
unfoldable pub is_hex : ℕ → Bool
is_hex c = (leb 48 c && leb c 57) || (leb 65 c && leb c 70) || (leb 97 c && leb c 102)

-- A letter that `strings.ToLower` changes, among the ones that are hexadecimal digits.
unfoldable pub is_upper_hex : ℕ → Bool
is_upper_hex c = leb 65 c && leb c 70

unfoldable pub valid_checksum : Text → Bool
unfolding is_hex is_upper_hex
valid_checksum value =
    (length value == 64) && not (any (λ c. not (is_hex c)) value) && not (any is_upper_hex value)
