-- ===== src/RateLimit/Limiter.antt =====
-- `Allow` of internal/features/auth/ratelimit/limiter.go, over the store in memory. The hexadecimal form
-- of the HMAC of a subject under the secret is a parameter.
use family_tree_app.Prelude.{
  ℕ, Option, none, some, Bool, true, false, not, ◌&&◌, ◌||◌, ◌∷◌, ◌++◌, Text, is_empty, trim_space,
  leb, ◌==◌, if◌then◌else◌, Result, ok, err, ◌>>=◌, ◌>>◌, refuse_if,
}
use family_tree_app.RateLimit.Memory.{
  Error, limiter_nil, limiter_uninitialized, scope_and_subject_required, rule_not_positive, Entries,
  increment,
}
use family_tree_app.Languages.{all}

pub record Rule : Type 0 where
  pub limit : ℕ
  pub window : ℕ

pub record Decision : Type 0 where
  pub allowed : Bool
  pub retry_after : ℕ

pub record Limiter : Type 0 where
  pub secret : Text
  pub prefix : Text
  pub disabled : Bool
  pub has_store : Bool
  pub max_keys : ℕ

unfoldable pub is_scope_character : ℕ → Bool
is_scope_character c =
    (leb 97 c && leb c 122) || (leb 48 c && leb c 57) || (c == 45) || (c == 95) || (c == 58)

unfoldable pub is_valid_scope : Text → Bool
unfolding is_scope_character all
is_valid_scope scope = not (is_empty scope) && all is_scope_character scope

module _ (digest : Text → Text → Text) where
  unfoldable pub key_of : Limiter → Text → Text → Text
  key_of l scope subject = l.prefix ++ (58 ∷ (scope ++ (58 ∷ digest l.secret subject)))

  -- The decision, and the entries after the call; a nil pointer to the limiter is `none`.
  unfoldable pub allow :
      Option Limiter → ℕ → Text → Text → Rule → Entries → Result Error (Decision × Entries)
  unfolding is_valid_scope key_of increment
  allow none now scope subject rule entries = err limiter_nil
  allow (some l) now scope subject rule entries =
      if l.disabled then ok (record { allowed = true; retry_after = 0 }, entries) else do
        refuse_if (not l.has_store || is_empty l.secret) limiter_uninitialized
        refuse_if (not (is_valid_scope scope) || is_empty (trim_space subject))
            scope_and_subject_required
        refuse_if ((rule.limit == 0) || (rule.window == 0)) rule_not_positive
        counted ← increment l.max_keys now (key_of l scope subject) rule.window entries
        let left = counted.1
        ok (
          if leb counted.0 rule.limit then record { allowed = true; retry_after = 0 } else record {
            allowed = false;
            retry_after = if left == 0 then rule.window else left;
          },
          counted.2,
        )
