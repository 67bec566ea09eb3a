-- ===== src/Jobs/Claims.antt =====
-- Which job `Claim` takes: the first in the order of the queue among those that can be claimed.
use family_tree_app.Prelude.{
  ℕ, ◌+◌, ◌≡◌, ◌⊎◌, inl, inr, true, false, Option, none, some, List, [], ◌∷◌, Text, trim_space, In,
  Bool-cases, Option-cases, subst, sym, ok, arith,
}
use family_tree_app.Jobs.Queue.{Job, claim, start, is_claimable, candidate, is_earlier}

is_earlier_asym : (a b : Job) → is_earlier a b ≡ true → is_earlier b a ≡ false
unfolding is_earlier
is_earlier_asym a b h = ground arith

is_earlier_irrefl : (a : Job) → is_earlier a a ≡ false
unfolding is_earlier
is_earlier_irrefl a = ground arith

is_earlier_negtrans :
    (a b c : Job) → is_earlier a b ≡ false → is_earlier b c ≡ false → is_earlier a c ≡ false
unfolding is_earlier
is_earlier_negtrans a b c h k = ground arith

-- `c` is a job of the list that can be claimed, and none that can be claimed stands before it.
pub record IsFirst (now : ℕ) (jobs : List Job) (c : Job) : Type 0 where
  pub listed : In c jobs
  pub claimable : is_claimable now c ≡ true
  pub first : (k : Job) → In k jobs → is_claimable now k ≡ true → is_earlier k c ≡ false

pub candidate-none :
    (now : ℕ) (jobs : List Job)
    → candidate now jobs ≡ none
    → (k : Job) → In k jobs
    → is_claimable now k ≡ false
unfolding candidate
candidate-none now [] h k i = absurd i
candidate-none now (j ∷ js) h k i = elim (Bool-cases (is_claimable now j)) [
  | inl ready ↦ elim (Option-cases (candidate now js)) [
    | inl e ↦ absurd (ground (arith, ready, e))
    | inr (c, e) ↦ absurd (ground (arith, ready, e))
  ]
  | inr idle ↦ elim i [
    | inl e ↦ rw e idle
    | inr i' ↦ candidate-none now js (ground (arith, idle)) k i'
  ]
]

pub candidate-IsFirst :
    (now : ℕ) (jobs : List Job) {c : Job} → candidate now jobs ≡ some c → IsFirst now jobs c
unfolding candidate
candidate-IsFirst now [] h = cc
candidate-IsFirst now (j ∷ js) {c} h = elim (Bool-cases (is_claimable now j)) [
  | inr idle ↦
      let f : IsFirst now js c = candidate-IsFirst now js (ground (arith, idle)) in
      record {
        listed = inr f.listed;
        claimable = f.claimable;
        first = λ k i t. elim i [
          | inl e ↦ absurd (ground (arith, idle, t, e))
          | inr i' ↦ f.first k i' t
        ];
      }
  | inl ready ↦ elim (Option-cases (candidate now js)) [
    | inl e ↦
        let same : c ≡ j = ground (arith, ready, e) in
        record {
          listed = inl same;
          claimable = rw same ready;
          first = λ k i t. elim i [
            | inl at_j ↦ rw (same, at_j) (is_earlier_irrefl j)
            | inr i' ↦ absurd (ground (arith, candidate-none now js e k i', t))
          ];
        }
    | inr (b, e) ↦
        let f : IsFirst now js b = candidate-IsFirst now js e in
        elim (Bool-cases (is_earlier b j)) [
          | inl sooner ↦
              let same : c ≡ b = ground (arith, ready, e, sooner) in
              record {
                listed = inr (subst (λ z. In z js) (sym same) f.listed);
                claimable = rw same f.claimable;
                first = λ k i t. elim i [
                  | inl at_j ↦ rw (same, at_j) (is_earlier_asym b j sooner)
                  | inr i' ↦ rw same (f.first k i' t)
                ];
              }
          | inr later ↦
              let same : c ≡ j = ground (arith, ready, e, later) in
              record {
                listed = inl same;
                claimable = rw same ready;
                first = λ k i t. elim i [
                  | inl at_j ↦ rw (same, at_j) (is_earlier_irrefl j)
                  | inr i' ↦ rw same (is_earlier_negtrans k b j (f.first k i' t) later)
                ];
              }
        ]
  ]
]

-- `Claim` with a usable name, a positive lease and a date either takes the first job that can be
-- claimed, under one more attempt and a lease of the length asked, or finds that there is none.
pub claim_cases :
    (worker : Text) (lease now : ℕ) (jobs : List Job) {taken : Option Job} {jobs' : List Job}
    → claim worker lease now jobs ≡ ok (taken, jobs')
    → ((c : Job) × IsFirst now jobs c
        × (taken ≡ some (start (trim_space worker) (now + lease) now c)))
      ⊎ (taken ≡ none) × ((k : Job) → In k jobs → is_claimable now k ≡ false)
unfolding claim
claim_cases worker lease now jobs h = elim (Option-cases (candidate now jobs)) [
  | inl e ↦ inr (ground (arith, e), candidate-none now jobs e)
  | inr (c, e) ↦ inl (c, candidate-IsFirst now jobs e, ground (arith, e))
]
