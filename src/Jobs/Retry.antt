-- ===== src/Jobs/Retry.antt =====
-- The delay before a retry doubles with each attempt up to its maximum.
use native.Mathlib.Nat.{pow-suc}
use family_tree_app.Prelude.{
  ℕ, zero, suc, ◌-◌, ◌*◌, ◌/◌, ◌%◌, ◌^◌, ◌≤◌, ◌<◌, min, ◌≡◌, true, ltb, Bool-cases, inl, inr, arith,
  tests,
}
use family_tree_app.Jobs.Worker.{Config, is_valid_config, retry_delay, retry_delay_from}

one-le-pow : (n : ℕ) → 1 ≤ 2 ^ n
one-le-pow zero = omega arith
one-le-pow (suc n) = rw pow-suc (omega (arith, one-le-pow n))

le-mul-pow : (d n : ℕ) → d ≤ d * 2 ^ n
le-mul-pow d n = grind (arith, one-le-pow n)

double-mul-pow : (d n : ℕ) → d * 2 ^ suc n ≡ (d * 2) * 2 ^ n
double-mul-pow d n = rw pow-suc (omega arith)

retry_delay_from_lem :
    (maximum n delay : ℕ)
    → maximum < 2 ^ 63
    → delay ≤ maximum
    → retry_delay_from maximum n delay ≡ min (delay * 2 ^ n) maximum
unfolding retry_delay_from
retry_delay_from_lem maximum zero delay small below = ground arith
retry_delay_from_lem maximum (suc n) delay small below =
    let step = double-mul-pow delay n in
    let grows = le-mul-pow (delay * 2) n in
    elim (Bool-cases (ltb delay maximum)) [
      | inr full ↦ rw full (ground (arith, step, grows))
      | inl room ↦ elim (Bool-cases (ltb (maximum / 2) delay)) [
        | inl past ↦ rw (room, past) (omega (tests, step, grows))
        | inr within ↦
            let fits : delay * 2 ≤ maximum = ground arith in
            let whole : (delay * 2) % 2 ^ 64 ≡ delay * 2 = omega arith in
            rw (room, within, whole, retry_delay_from_lem maximum n (delay * 2) small fits, step)
      ]
    ]

-- The delay before the retry of attempt n is the base delay times 2 ^ (n - 1), or the maximum if
-- that is less: the doubling never wraps.
pub retry_delay-eq-min :
    (config : Config) (attempt : ℕ)
    → is_valid_config config ≡ true
    → config.retry_max_delay < 2 ^ 63
    → retry_delay config attempt
      ≡ min (config.retry_base_delay * 2 ^ (attempt - 1)) config.retry_max_delay
unfolding retry_delay is_valid_config
retry_delay-eq-min config attempt valid small =
    retry_delay_from_lem config.retry_max_delay (attempt - 1) config.retry_base_delay small
      (ground arith)
