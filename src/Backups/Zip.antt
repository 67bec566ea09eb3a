-- ===== src/Backups/Zip.antt =====
-- `ParseZIP` and `parseChecksums` of internal/features/exports/restore/archive.go. A body, and a string that is read from one, is
-- the list of its bytes. `open_zip` is `zip.NewReader` with its entries, and `decode` is the decoder of the JSON of a
-- manifest, which refuses unknown fields and what follows the manifest.
use family_tree_app.Prelude.{
  ℕ, ◌+◌, ◌-◌, Bool, true, not, ◌&&◌, ◌||◌, Option, none, some, List, [], ◌∷◌, Text, codes, text_eq,
  is_empty, ltb, length, ◌==◌, if◌then◌else◌, any, take, first_row, Result, ok, err, refuse_if,
  ◌>>=◌, ◌>>◌,
}
use family_tree_app.Backups.Manifest.{Manifest}
use family_tree_app.Backups.Validity.{
  Error, invalid_backup, backup_too_large, validate_manifest_relations,
}
use family_tree_app.Backups.Paths.{split_on, safe_archive_path, valid_checksum}
use family_tree_app.Backups.Files.{
  Object, Archive, Expected, is_at, expected_manifest_files, is_mismatch, is_supported,
  validate_archive,
}

unfoldable pub max_archive_entries : ℕ
max_archive_entries = 10000

-- An entry of the ZIP: its name, whether it is a folder, the size that it declares, and its content, where that can
-- be read.
pub record Entry : Type 0 where
  pub name : Text
  pub is_dir : Bool
  pub uncompressed_size : ℕ
  pub content : Option Text

-- The loop over the entries; `total` is the number of bytes so far.
unfoldable pub read_entry : ℕ → ℕ → Entry → List Object → Result Error (ℕ × List Object)
unfolding safe_archive_path is_at
read_entry max total file entries = do
  refuse_if (not (safe_archive_path file.name) || file.is_dir) invalid_backup
  refuse_if (any (is_at file.name) entries) invalid_backup
  refuse_if (ltb (max - total) file.uncompressed_size) backup_too_large
  elim file.content [
    | none ↦ err invalid_backup
    | some content ↦
        let body = take ((max - total) + 1) content in
        if ltb max (total + length body)
        then err backup_too_large
        else ok (total + length body, (file.name, body) ∷ entries)
  ]

unfoldable pub read_entries : ℕ → ℕ → List Entry → List Object → Result Error (List Object)
unfolding read_entry
read_entries max total [] entries = ok entries
read_entries max total (file ∷ rest) entries = do
  (total', entries') ← read_entry max total file entries
  read_entries max total' rest entries'

-- `strings.TrimSuffix` of one newline.
unfoldable pub trim_newline : Text → Text
trim_newline [] = []
trim_newline (c ∷ []) = if c == 10 then [] else c ∷ []
trim_newline (c ∷ d ∷ s) = c ∷ trim_newline (d ∷ s)

-- `strings.SplitN(line, "  ", 2)`, where it gives two parts.
unfoldable pub cut : Text → Option (Text × Text)
cut [] = none
cut (c ∷ []) = none
cut (c ∷ d ∷ s) =
    let rest = cut (d ∷ s) in
    if (c == 32) && (d == 32)
    then some ([], s)
    else elim rest [ none ↦ none | some (left, right) ↦ some (c ∷ left, right) ]

-- A line gives a path and its checksum.
unfoldable pub parse_line : Text → List Object → Result Error (List Object)
unfolding cut valid_checksum safe_archive_path is_at
parse_line line result = elim (cut line) [
  | none ↦ err invalid_backup
  | some (sum, path) ↦ do
    refuse_if
        (not (valid_checksum sum)
          || not (safe_archive_path path)
          || text_eq path (codes "checksums.sha256"))
        invalid_backup
    refuse_if (any (is_at path) result) invalid_backup
    ok ((path, sum) ∷ result)
]

unfoldable pub parse_lines : List Text → List Object → Result Error (List Object)
unfolding parse_line
parse_lines [] result = ok result
parse_lines (line ∷ rest) result = do more ← parse_line line result; parse_lines rest more

unfoldable pub parse_checksums : Text → Result Error (List Object)
unfolding parse_lines split_on trim_newline
parse_checksums body = parse_lines (split_on 10 (trim_newline body)) []

-- An entry whose checksum is not the one that is listed.
unfoldable pub is_altered : (Text → Text) → List Object → Object → Bool
unfolding is_at first_row
is_altered checksum checksums (name, body) =
    not (text_eq name (codes "checksums.sha256")) && elim (first_row (is_at name) checksums) [
      | none ↦ true
      | some listed ↦ not (text_eq (checksum body) listed.1)
    ]

-- The entries that the manifest refers to.
unfoldable pub pick_files : List Object → Expected → List Object
unfolding is_at first_row
pick_files entries [] = []
pick_files entries ((name, _) ∷ expected) =
    let rest = pick_files entries expected in
    elim (first_row (is_at name) entries) [ none ↦ rest | some entry ↦ (name, entry.1) ∷ rest ]

module _ (checksum : Text → Text) (uuid_string : ℕ → Text) (order : List ℕ)
    (open_zip : Text → Option (List Entry)) (decode : Text → Option Manifest) where
  -- `ParseZIP` from the manifest on.
  unfoldable pub parse_manifest : List Object → Text → Result Error Archive
  parse_manifest entries manifest_body = elim (decode manifest_body) [
    | none ↦ err invalid_backup
    | some m ↦ do
      refuse_if (not (is_supported m) || ((m.tree).id == 0)) invalid_backup
      validate_manifest_relations order m
      expected ← expected_manifest_files uuid_string m
      refuse_if (not (length entries == length expected + 2)) invalid_backup
      refuse_if (any (is_mismatch checksum entries) expected) invalid_backup
      let archive : Archive = record { manifest = m; files = pick_files entries expected }
      validate_archive checksum uuid_string order archive
      ok archive
  ]

  -- `ParseZIP` once the entries are read.
  unfoldable pub parse_entries : List Object → Result Error Archive
  parse_entries entries = elim (first_row (is_at (codes "manifest.json")) entries) [
    | none ↦ err invalid_backup
    | some manifest_file ↦ elim (first_row (is_at (codes "checksums.sha256")) entries) [
      | none ↦ err invalid_backup
      | some list_file ↦ do
        checksums ← parse_checksums list_file.1
        refuse_if (not (length checksums == length entries - 1)) invalid_backup
        refuse_if (any (is_altered checksum checksums) entries) invalid_backup
        parse_manifest entries manifest_file.1
    ]
  ]

  unfoldable pub parse_zip : Text → ℕ → Result Error Archive
  parse_zip body max =
      if is_empty body || (max == 0) || ltb max (length body)
      then err backup_too_large
      else elim (open_zip body) [
        | none ↦ err invalid_backup
        | some files ↦ do
          refuse_if (ltb (length files) 2 || ltb max_archive_entries (length files)) invalid_backup
          entries ← read_entries max 0 files []
          parse_entries entries
      ]
