-- ===== src/RateLimit/Memory.antt =====
-- internal/features/auth/ratelimit/memory.go. The mutex makes each call one step on the entries, which are
-- an association list with one entry for each key.
use family_tree_app.Prelude.{
  ℕ, suc, ◌+◌, ◌-◌, ◌≤◌, ◌≡◌, refl, inl, inr, Bool, true, not, ◌&&◌, Option, none, some, is_none,
  List, [], ◌∷◌, Text, text_eq, length, leb, ltb, if◌then◌else◌, select, Bool-cases, Option-cases,
  Result, ok, err, arith,
}

pub data Error : Type 0 where
  limiter_nil limiter_uninitialized scope_and_subject_required rule_not_positive memory_capacity :
      Error

pub record MemoryEntry : Type 0 where
  pub count : ℕ
  pub expires_at : ℕ

abbrev pub Entries : Type 0
Entries = List (Text × MemoryEntry)

unfoldable pub get_entry : Text → Entries → Option MemoryEntry
get_entry key [] = none
get_entry key (entry ∷ entries) =
    let rest = get_entry key entries in if text_eq entry.0 key then some entry.1 else rest

-- The assignment to a key of the map.
unfoldable pub set_entry : Text → MemoryEntry → Entries → Entries
set_entry key value [] = (key, value) ∷ []
set_entry key value (entry ∷ entries) =
    let rest = set_entry key value entries in
    if text_eq entry.0 key then (key, value) ∷ entries else entry ∷ rest

unfoldable pub is_running : ℕ → Text × MemoryEntry → Bool
is_running now entry = ltb now (entry.1).expires_at

-- The entries that are left once those of the past are deleted, where the store is full.
unfoldable pub make_room : ℕ → ℕ → Bool → Entries → Entries
unfolding is_running select
make_room max_keys now exists entries =
    if not exists && leb max_keys (length entries) then select (is_running now) entries else entries

-- The count, the time left and the entries after the call.
unfoldable pub increment : ℕ → ℕ → Text → ℕ → Entries → Result Error (ℕ × ℕ × Entries)
unfolding get_entry set_entry make_room
increment max_keys now key window entries =
    let fresh =
      (let room = make_room max_keys now (not (is_none (get_entry key entries))) entries in
        if is_none (get_entry key entries) && leb max_keys (length room)
        then err memory_capacity
        else ok
            (1, window, set_entry key (record { count = 1; expires_at = now + window }) room)) in
    elim (get_entry key entries) [
      | none ↦ fresh
      | some entry ↦
          if ltb now entry.expires_at
          then ok (
            entry.count + 1,
            entry.expires_at - now,
            set_entry key (record entry { count = entry.count + 1 }) entries,
          )
          else fresh
    ]

length-set_entry :
    (key : Text) (value : MemoryEntry) (entries : Entries)
    → length (set_entry key value entries)
      ≡ (if is_none (get_entry key entries) then suc (length entries) else length entries)
unfolding set_entry get_entry
length-set_entry key value [] = refl
length-set_entry key value (entry ∷ entries) = elim (Bool-cases (text_eq entry.0 key)) [
  | inl e ↦ ground (arith, e)
  | inr e ↦ ground (arith, e, length-set_entry key value entries)
]

length-select-le :
    (p : Text × MemoryEntry → Bool) (entries : Entries) → length (select p entries) ≤ length entries
unfolding select
length-select-le p [] = omega arith
length-select-le p (entry ∷ entries) = ground (arith, length-select-le p entries)

get_entry-select :
    (p : Text × MemoryEntry → Bool) (key : Text) (entries : Entries)
    → get_entry key entries ≡ none
    → get_entry key (select p entries) ≡ none
unfolding select get_entry
get_entry-select p key [] h = refl
get_entry-select p key (entry ∷ entries) h = elim (Bool-cases (text_eq entry.0 key)) [
  | inl e ↦ absurd (ground (arith, e))
  | inr e ↦
      let rest : get_entry key entries ≡ none = ground (arith, e) in
      ground (arith, e, get_entry-select p key entries rest)
]

-- The store never grows past the number of keys that it is made for.
pub increment-le :
    (max_keys now window : ℕ) (key : Text) (entries : Entries) {count left : ℕ} {entries' : Entries}
    → length entries ≤ max_keys
    → increment max_keys now key window entries ≡ ok (count, left, entries')
    → length entries' ≤ max_keys
unfolding increment make_room
increment-le max_keys now window key entries {entries' = entries'} small h =
    let past : Entries = select (is_running now) entries in
    let one : MemoryEntry = record { count = 1; expires_at = now + window } in
    elim (Option-cases (get_entry key entries)) [
      | inl e ↦ ground (
        arith,
        e,
        length-set_entry key one entries,
        length-set_entry key one past,
        get_entry-select (is_running now) key entries e,
      )
      | inr (entry, e) ↦ ground (
        arith,
        e,
        length-set_entry key one entries,
        length-set_entry key (record entry { count = entry.count + 1 }) entries,
      )
    ]

pub get_entry-set_entry :
    (key : Text) (value : MemoryEntry) (entries : Entries)
    → text_eq key key ≡ true
    → get_entry key (set_entry key value entries) ≡ some value
unfolding set_entry get_entry
get_entry-set_entry key value [] same = ground (arith, same)
get_entry-set_entry key value (entry ∷ entries) same = elim (Bool-cases (text_eq entry.0 key)) [
  | inl e ↦ ground (arith, e, same)
  | inr e ↦ ground (arith, e, get_entry-set_entry key value entries same)
]
