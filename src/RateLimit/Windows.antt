-- ===== src/RateLimit/Windows.antt =====
-- How many attempts a window lets through.
use family_tree_app.Prelude.{
  ℕ, ◌+◌, ◌-◌, ◌<◌, min, ◌≡◌, ◌≢◌, inl, inr, true, false, some, List, [], ◌∷◌, Text, text_eq_refl,
  is_empty, trim_space, length, leb, if◌then◌else◌, All, Bool-cases, ok, err, arith,
}
use family_tree_app.RateLimit.Memory.{
  MemoryEntry, Entries, get_entry, set_entry, increment, get_entry-set_entry,
}
use family_tree_app.RateLimit.Limiter.{Rule, Decision, Limiter, is_valid_scope, key_of, allow}

-- The limiter is set up, and the attempt has a scope, a subject and a rule.
pub record IsUsable (l : Limiter) (scope subject : Text) (rule : Rule) : Type 0 where
  pub enabled : l.disabled ≡ false
  pub stored : l.has_store ≡ true
  pub secret : is_empty l.secret ≡ false
  pub scope_valid : is_valid_scope scope ≡ true
  pub subject_given : is_empty (trim_space subject) ≡ false
  pub limited : rule.limit ≢ 0
  pub windowed : rule.window ≢ 0

module _ (digest : Text → Text → Text) where
  -- Attempts one after another, at the times of the list: how many are let through, and the entries after.
  unfoldable pub count_allowed : Limiter → Text → Text → Rule → List ℕ → Entries → ℕ
  count_allowed l scope subject rule [] entries = 0
  count_allowed l scope subject rule (now ∷ times) entries =
      elim (allow digest (some l) now scope subject rule entries) [
        | err _ ↦ count_allowed l scope subject rule times entries
        | ok (decision, entries') ↦
            (if decision.allowed then 1 else 0) + count_allowed l scope subject rule times entries'
      ]

  -- An attempt while the window of its key runs.
  allow_within :
      (l : Limiter) (now : ℕ) (scope subject : Text) (rule : Rule) (entries : Entries)
      (entry : MemoryEntry)
      → IsUsable l scope subject rule
      → get_entry (key_of digest l scope subject) entries ≡ some entry
      → now < entry.expires_at
      → (decision : Decision) × (allow digest (some l) now scope subject rule entries
          ≡ ok (
            decision,
            set_entry
                (key_of digest l scope subject)
                (record entry { count = entry.count + 1 })
                entries,
          ))
        × (decision.allowed ≡ leb (entry.count + 1) rule.limit)
  unfolding allow increment
  allow_within l now scope subject rule entries entry u found intime =
      elim (Bool-cases (leb (entry.count + 1) rule.limit)) [
        | inl e ↦ (
          record { allowed = true; retry_after = 0 },
          ground (
            arith, e, found, u.enabled, u.stored, u.secret, u.scope_valid, u.subject_given,
            u.limited, u.windowed,
          ),
          ground (arith, e),
        )
        | inr e ↦ (
          record { allowed = false; retry_after = entry.expires_at - now },
          ground (
            arith, e, found, u.enabled, u.stored, u.secret, u.scope_valid, u.subject_given,
            u.limited, u.windowed,
          ),
          ground (arith, e),
        )
      ]

  -- Of the attempts of one subject in a window that has already counted some, those are let through that
  -- the limit still has room for, and the others not.
  pub count_allowed-eq-min :
      (l : Limiter) (scope subject : Text) (rule : Rule) (times : List ℕ) (entries : Entries)
      (entry : MemoryEntry)
      → IsUsable l scope subject rule
      → get_entry (key_of digest l scope subject) entries ≡ some entry
      → All (λ now. now < entry.expires_at) times
      → count_allowed l scope subject rule times entries
        ≡ min (length times) (rule.limit - entry.count)
  unfolding count_allowed
  count_allowed-eq-min l scope subject rule [] entries entry u found intime = omega arith
  count_allowed-eq-min l scope subject rule (now ∷ times) entries entry u found (first, rest) =
      let (decision, decided, let_through) =
        allow_within l now scope subject rule entries entry u found first in
      let key : Text = key_of digest l scope subject in
      let next : MemoryEntry = record entry { count = entry.count + 1 } in
      let later =
        count_allowed-eq-min l scope subject rule times (set_entry key next entries) next u
          (get_entry-set_entry key next entries (text_eq_refl key)) rest in
      rw (count_allowed, decided, later) (ground (arith, let_through))
