-- ===== src/Jobs/Leases.antt =====
-- Leases: a job is in the hands of one worker at a time, and only its holder ends it.
use family_tree_app.Prelude.{
  ℕ, ◌+◌, ◌<◌, ◌≡◌, ◌≢◌, inl, inr, Bool, true, false, Option, some, List, map, Text, trim_space,
  is_empty, text_eq, text_eq_refl, text_eq-eq, In, map-In, Bool-cases, Option-cases, subst, ap, ◌∙◌,
  ok, err, arith, leb, update_first, Updated, update_first-Updated, update_first-none,
  update_first-some,
}
use family_tree_app.Jobs.Queue.{
  Job, lease_lost, is_running, claim, claim_row, start, is_exhausted, is_claimable, candidate,
  is_after, is_due, text_is, is_held, complete, succeed, heartbeat, fail, record_failure,
  extend_lease, FailureResult, is_dead, truncate, max_stored_error_runes,
}
use family_tree_app.Jobs.Claims.{IsFirst, candidate-IsFirst}
use family_tree_app.Jobs.Soundness.{IsQueue, UniqueIds-eq, claim-IsQueue}

abbrev pub IsLeased : ℕ → Job → Type 0
IsLeased now j = (is_running j.status ≡ true) × (is_after j.lease_expires_at now ≡ true)

leased_not_claimable : (now : ℕ) (j : Job) → IsLeased now j → is_claimable now j ≡ false
unfolding is_claimable is_after is_due
leased_not_claimable now j h = ground arith

leased_not_exhausted : (now : ℕ) (j : Job) → IsLeased now j → is_exhausted now j ≡ false
unfolding is_exhausted is_after is_due
leased_not_exhausted now j h = ground arith

claimable_not_exhausted :
    (now : ℕ) (j : Job) → is_claimable now j ≡ true → is_exhausted now j ≡ false
unfolding is_claimable is_exhausted
claimable_not_exhausted now j h = ground arith

-- The job that is chosen is not one whose lease runs on.
candidate-ne_leased :
    (now : ℕ) (jobs : List Job) (c j : Job)
    → IsQueue jobs
    → candidate now jobs ≡ some c
    → In j jobs
    → IsLeased now j
    → c.id ≢ j.id
candidate-ne_leased now jobs c j q e i leased same =
    let f : IsFirst now jobs c = candidate-IsFirst now jobs e in
    let at_c : c ≡ j = UniqueIds-eq jobs c j q.unique f.listed i same in
    cc (leased_not_claimable now j leased, subst (λ z. is_claimable now z ≡ true) at_c f.claimable)

claim_row-leased :
    (worker : Text) (expires now : ℕ) (jobs : List Job) (j : Job)
    → IsQueue jobs
    → In j jobs
    → IsLeased now j
    → claim_row worker expires now (candidate now jobs) j ≡ j
unfolding claim_row
claim_row-leased worker expires now jobs j q i leased = elim (Option-cases (candidate now jobs)) [
  | inl e ↦ ground (arith, e, leased_not_exhausted now j leased)
  | inr (c, e) ↦
      ground
        (arith, e, leased_not_exhausted now j leased, candidate-ne_leased now jobs c j q e i leased)
]

-- A claim neither takes a job whose lease runs on, nor changes its row.
pub claim_respects_leases :
    (worker : Text) (lease now : ℕ) (jobs : List Job) {taken : Option Job} {jobs' : List Job}
    (j : Job)
    → IsQueue jobs
    → claim worker lease now jobs ≡ ok (taken, jobs')
    → In j jobs
    → IsLeased now j
    → In j jobs' × ((k : Job) → taken ≡ some k → k.id ≢ j.id)
unfolding claim start
claim_respects_leases worker lease now jobs {taken} {jobs'} j q h i leased =
    let f : Job → Job = claim_row (trim_space worker) (now + lease) now (candidate now jobs) in
    let rows : jobs' ≡ map f jobs = ground arith in
    let kept : f j ≡ j = claim_row-leased (trim_space worker) (now + lease) now jobs j q i leased in
    (
      rw rows (subst (λ z. In z (map f jobs)) kept (map-In j f jobs i)),
      λ k got. elim (Option-cases (candidate now jobs)) [
        | inl e ↦ absurd (ground (arith, e, got))
        | inr (c, e) ↦ ground (arith, e, got, candidate-ne_leased now jobs c j q e i leased)
      ],
    )

-- The row of the job that was taken stands in the table.
claimed_row :
    (worker : Text) (lease now : ℕ) (jobs : List Job) {j : Job} {jobs' : List Job}
    → IsQueue jobs
    → claim worker lease now jobs ≡ ok (some j, jobs')
    → In j jobs' × ((c : Job) × (j ≡ start (trim_space worker) (now + lease) now c))
unfolding claim claim_row
claimed_row worker lease now jobs {j} {jobs'} q h = elim (Option-cases (candidate now jobs)) [
  | inl e ↦ absurd (ground (arith, e))
  | inr (c, e) ↦
      let f : Job → Job = claim_row (trim_space worker) (now + lease) now (candidate now jobs) in
      let rows : jobs' ≡ map f jobs = ground arith in
      let first : IsFirst now jobs c = candidate-IsFirst now jobs e in
      let made : j ≡ start (trim_space worker) (now + lease) now c = ground (arith, e) in
      let alive : is_exhausted now c ≡ false = claimable_not_exhausted now c first.claimable in
      let taken : f c ≡ j = ground (arith, e, made, alive) in
      (rw rows (subst (λ z. In z (map f jobs)) taken (map-In c f jobs first.listed)), (c, made))
]

claim-named :
    (worker : Text) (lease now : ℕ) (jobs : List Job) {taken : Option Job} {jobs' : List Job}
    → claim worker lease now jobs ≡ ok (taken, jobs')
    → is_empty (trim_space worker) ≡ false
unfolding claim
claim-named worker lease now jobs h = ground arith

module _ (worker : Text) (lease now : ℕ) (jobs : List Job) {j : Job} {jobs' : List Job}
    (q : IsQueue jobs) (claimed : claim worker lease now jobs ≡ ok (some j, jobs')) where
  -- A row that the claim's holder may change is the row of the job that was claimed.
  held_is_claimed : (later : ℕ) (z : Job) → In z jobs' → is_held j.id worker later z ≡ true → z ≡ j
  unfolding is_held
  held_is_claimed later z i held =
      let (row, from) = claimed_row worker lease now jobs q claimed in
      UniqueIds-eq jobs' z j (claim-IsQueue worker lease now jobs q claimed).unique i row
        (ground (arith, held))

  -- The holder of the claim finds its row, and changes it, until the lease ends.
  holder_updates :
      (later : ℕ) (f : Job → Job)
      → trim_space worker ≡ worker
      → later < now + lease
      → (y : Job) × (jobs'' : List Job) × (update_first (is_held j.id worker later) f jobs'
          ≡ some (y, jobs''))
        × (y ≡ f j)
        × In (f j) jobs''
  unfolding is_held start text_is is_after
  holder_updates later f trimmed intime =
      let (row, (c, made)) = claimed_row worker lease now jobs q claimed in
      let held : is_held j.id worker later j ≡ true =
        ground (arith, made, trimmed, text_eq_refl worker) in
      let (y, jobs'', found) = update_first-some (is_held j.id worker later) f j jobs' row held in
      let u : Updated (is_held j.id worker later) f jobs' y jobs'' =
        update_first-Updated (is_held j.id worker later) f jobs' found in
      let same : y ≡ f j = u.made ∙ ap f (held_is_claimed later u.old u.listed u.passes) in
      (y, jobs'', found, same, subst (λ z. In z jobs'') same u.placed)

  -- It can report a failure just as well, which is final if that was the last attempt.
  pub claim_then_fail :
      (later available : ℕ) (message : Text)
      → trim_space worker ≡ worker
      → j.id ≢ 0
      → 0 < later
      → 0 < available
      → later < now + lease
      → (result : FailureResult) × (jobs'' : List Job) × (fail j.id worker message available later
            jobs'
          ≡ ok (result, jobs''))
        × (result.is_final ≡ leb j.max_attempts j.attempts)
        × In
            (record_failure
              (truncate (trim_space message) max_stored_error_runes)
              available
              later
              j)
            jobs''
  unfolding fail record_failure
  claim_then_fail later available message trimmed named dated set intime =
      let f : Job → Job =
        record_failure (truncate (trim_space message) max_stored_error_runes) available later in
      let (y, jobs'', found, same, listed) = holder_updates later f trimmed intime in
      (
        record { is_final = is_dead y.status; status = y.status; available = y.available_at },
        jobs'',
        ground (arith, found, claim-named worker lease now jobs claimed),
        ground (arith, same),
        listed,
      )

  not_held_untrimmed :
      (later : ℕ)
      → trim_space worker ≢ worker
      → (z : Job) → In z jobs'
      → is_held j.id worker later z ≡ false
  unfolding is_held start text_is
  not_held_untrimmed later untrimmed z i = elim (Bool-cases (is_held j.id worker later z)) [
    | inr e ↦ e
    | inl held ↦
        let (row, (c, made)) = claimed_row worker lease now jobs q claimed in
        let same : z ≡ j = held_is_claimed later z i held in
        let matches : text_eq (trim_space worker) worker ≡ true =
          ground (arith, held, same, made) in
        absurd (untrimmed (text_eq-eq (trim_space worker) worker matches))
  ]

  -- A worker whose name has space around it loses every job that it claims: the name is trimmed when
  -- the lease is taken, and not when it is used to keep the lease, to complete the job or to fail it.
  pub claim_lost_untrimmed :
      (later extension available : ℕ) (message : Text)
      → trim_space worker ≢ worker
      → j.id ≢ 0
      → 0 < later
      → 0 < extension
      → 0 < available
      → (heartbeat j.id worker extension later jobs' ≡ err lease_lost)
        × (succeed j.id worker later jobs' ≡ err lease_lost)
        × (fail j.id worker message available later jobs' ≡ err lease_lost)
  unfolding succeed heartbeat fail
  claim_lost_untrimmed later extension available message untrimmed named dated longer set =
      let stored : Text = truncate (trim_space message) max_stored_error_runes in
      let lost = not_held_untrimmed later untrimmed in
      let usable = claim-named worker lease now jobs claimed in
      let p : Job → Bool = is_held j.id worker later in
      (
        ground (arith, usable, update_first-none p (extend_lease extension later) jobs' lost),
        ground (arith, usable, update_first-none p (complete later) jobs' lost),
        ground
            (arith, usable, update_first-none p (record_failure stored available later) jobs' lost),
      )
