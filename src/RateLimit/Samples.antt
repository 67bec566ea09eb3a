-- ===== src/RateLimit/Samples.antt =====
-- A limiter, runs of its attempts, and the theorems at these inputs.
use family_tree_app.Prelude.{
  ℕ, ◌-◌, min, ◌≡◌, refl, true, false, some, [], ◌∷◌, Text, codes, text_functions, select, ok, err,
  arith,
}
use family_tree_app.Languages.{all}
use family_tree_app.RateLimit.Memory.{
  MemoryEntry, Entries, memory_capacity, get_entry, set_entry, is_running, make_room, increment,
}
use family_tree_app.RateLimit.Limiter.{
  Rule, Limiter, is_scope_character, is_valid_scope, key_of, allow,
}
use family_tree_app.RateLimit.Windows.{count_allowed, IsUsable, count_allowed-eq-min}

program : Unit {0}
unfolding get_entry set_entry is_running make_room increment is_scope_character is_valid_scope
    key_of allow count_allowed all select text_functions
program = tt

-- A digest that is not one.
abbrev digest : Text → Text → Text
digest secret subject = subject

abbrev entry : ℕ → ℕ → MemoryEntry
entry count expires_at = record { count = count; expires_at = expires_at }

abbrev one_key : Entries
one_key = (codes "a", entry 1 50) ∷ []

abbrev new_key : Entries
new_key = (codes "b", entry 1 90) ∷ []

full_run : increment 1 20 (codes "b") 30 one_key ≡ err memory_capacity
unfolding program
full_run = refl

past_run : increment 1 60 (codes "b") 30 one_key ≡ ok (1, 30, new_key)
unfolding program
past_run = refl

abbrev limiter : Limiter
limiter = record {
  secret = codes "s";
  prefix = codes "p";
  disabled = false;
  has_store = true;
  max_keys = 10;
}

abbrev rule : Rule
rule = record { limit = 3; window = 30 }

abbrev scope : Text
scope = codes "login"

abbrev subject : Text
subject = codes "u"

abbrev counted_once : Entries
counted_once = (codes "p:login:u", entry 1 50) ∷ []

limiter-IsUsable : IsUsable limiter scope subject rule
unfolding program
limiter-IsUsable = record {
  enabled = refl;
  stored = refl;
  secret = refl;
  scope_valid = refl;
  subject_given = refl;
  limited = omega arith;
  windowed = omega arith;
}

entry_found : get_entry (key_of digest limiter scope subject) counted_once ≡ some (entry 1 50)
unfolding program
entry_found = refl

count_allowed-eq-min_example :
    count_allowed digest limiter scope subject rule (21 ∷ 22 ∷ 23 ∷ 24 ∷ []) counted_once
    ≡ min 4 (3 - 1)
count_allowed-eq-min_example =
    count_allowed-eq-min digest limiter scope subject rule (21 ∷ 22 ∷ 23 ∷ 24 ∷ []) counted_once
      (entry 1 50) limiter-IsUsable entry_found
      (omega arith, (omega arith, (omega arith, (omega arith, tt))))
