-- ===== src/Backups/Reading.antt =====
-- What `ParseZIP` of internal/features/exports/restore/archive.go reads of a ZIP.
use family_tree_app.Prelude.{
  ℕ, ◌+◌, ◌-◌, ◌≤◌, ◌≡◌, refl, inl, inr, true, false, not, List, [], ◌∷◌, ltb, length, any, take,
  ok, Option-cases, Result-cases, arith,
}
use family_tree_app.Backups.Files.{Object}
use family_tree_app.Backups.Paths.{safe_archive_path}
use family_tree_app.Backups.Zip.{Entry, read_entry, read_entries}

abbrev pub total_bytes : List Object → ℕ
total_bytes [] = 0
total_bytes (o ∷ objects) = length o.1 + total_bytes objects

-- What was read stays within the bound, under safe paths.
pub record IsWithin (max total : ℕ) (entries : List Object) : Type 0 where
  pub counted : total_bytes entries ≡ total
  pub bounded : total ≤ max
  pub safe : any (λ (o : Object). not (safe_archive_path o.0)) entries ≡ false

read_entry-IsWithin :
    (max total : ℕ) (file : Entry) (entries : List Object) (out : ℕ × List Object)
    → read_entry max total file entries ≡ ok out
    → IsWithin max total entries
    → IsWithin max out.0 out.1
unfolding read_entry any
read_entry-IsWithin max total file entries out h w = elim (Option-cases file.content) [
  | inl unread ↦ absurd (ground (arith, h, unread))
  | inr (content, read) ↦
      let body = take ((max - total) + 1) content in
      let fits : ltb max (total + length body) ≡ false = ground (arith, h, read) in
      let made : out ≡ (total + length body, (file.name, body) ∷ entries) =
        ground (arith, h, read, fits) in
      let safe : safe_archive_path file.name ≡ true = ground (arith, h) in
      rw made (record {
        counted = omega (arith, w.counted);
        bounded = ground (arith, fits);
        safe = rw safe w.safe;
      })
]

read_entries-IsWithin :
    (max total : ℕ) (files : List Entry) (entries out : List Object)
    → read_entries max total files entries ≡ ok out
    → IsWithin max total entries
    → (last : ℕ) × IsWithin max last out
unfolding read_entries
read_entries-IsWithin max total [] entries out h w =
    let same : entries ≡ out = ground (arith, h) in (total, rw (← same) w)
read_entries-IsWithin max total (file ∷ rest) entries out h w =
    elim (Result-cases (read_entry max total file entries)) [
      | inr (e, refusal) ↦ absurd (ground (arith, h, refusal))
      | inl (next, read) ↦
          read_entries-IsWithin max next.0 rest next.1 out (ground (arith, h, read))
            (read_entry-IsWithin max total file entries next read w)
    ]

-- The entries that are read of a ZIP have together no more bytes than the bound, whatever sizes the ZIP declares, and each
-- stands under a path that is safe.
pub read_entries-bounded :
    (max : ℕ) (files : List Entry) (entries : List Object)
    → read_entries max 0 files [] ≡ ok entries
    → (total_bytes entries ≤ max)
      × (any (λ (o : Object). not (safe_archive_path o.0)) entries ≡ false)
unfolding any
read_entries-bounded max files entries h =
    let (last, w) =
      read_entries-IsWithin max 0 files [] entries h
        (record { counted = refl; bounded = omega arith; safe = refl }) in
    (omega (arith, w.counted, w.bounded), w.safe)
