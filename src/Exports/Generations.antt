-- ===== src/Exports/Generations.antt =====
-- What the ranks promise that `alignUnionRanks` returns.
use family_tree_app.Prelude.{
  ℕ, zero, suc, ◌+◌, ◌≤◌, ◌<◌, ◌≡◌, refl, sym, subst, ◌∙◌, inl, inr, false, List, [], ◌∷◌, ltb, leb,
  if◌then◌else◌, In, Bool-cases, Result-cases, ok, err, arith,
}
use family_tree_app.Exports.Alignment.{
  Ranks, State, max_rank, raise_member, raise_members, align_unions, lower_child, lower_children,
  align_round, export_source_invalid, align_from, align_union_ranks,
}

-- Members of one union share a rank, and children have greater ranks than their parents.
pub record IsAligned (unions : List (List ℕ)) (edges : List (ℕ × ℕ)) (ranks : Ranks) : Type 0 where
  pub level : (ids : List ℕ) → In ids unions → (p q : ℕ) → In p ids → In q ids → ranks p ≡ ranks q
  pub below : (edge : ℕ × ℕ) → In edge edges → ranks edge.0 < ranks edge.1

max_rank-ge : (ranks : Ranks) (ids : List ℕ) (m : ℕ) → m ≤ max_rank ranks ids m
unfolding max_rank
max_rank-ge ranks [] m = omega arith
max_rank-ge ranks (p ∷ ps) m =
    ground (arith, max_rank-ge ranks ps (if ltb m (ranks p) then ranks p else m))

le-max_rank : (ranks : Ranks) (ids : List ℕ) (m p : ℕ) → In p ids → ranks p ≤ max_rank ranks ids m
unfolding max_rank
le-max_rank ranks [] m p i = absurd i
le-max_rank ranks (q ∷ qs) m p (inl e) =
    rw e (ground (arith, max_rank-ge ranks qs (if ltb m (ranks q) then ranks q else m)))
le-max_rank ranks (q ∷ qs) m p (inr i) =
    le-max_rank ranks qs (if ltb m (ranks q) then ranks q else m) p i

-- A state that a step leaves without a change was the same before, and had no change.
raise_member-still :
    (m q : ℕ) (s : State)
    → (raise_member m q s).1 ≡ false
    → (raise_member m q s ≡ s) × (s.1 ≡ false) × (m ≤ s.0 q)
unfolding raise_member
raise_member-still m q s h = elim (Bool-cases (ltb (s.0 q) m)) [
  | inl e ↦ absurd (ground (arith, e))
  | inr e ↦ (rw e refl, ground (arith, e), ground (arith, e))
]

raise_members-still :
    (m : ℕ) (ids : List ℕ) (s : State)
    → (raise_members m ids s).1 ≡ false
    → (raise_members m ids s ≡ s) × (s.1 ≡ false) × ((p : ℕ) → In p ids → m ≤ s.0 p)
unfolding raise_members
raise_members-still m [] s h = (refl, h, λ p i. absurd i)
raise_members-still m (q ∷ qs) s h =
    let (later, clear, above) = raise_members-still m qs (raise_member m q s) h in
    let (same, clean, first) = raise_member-still m q s clear in
    (
      later ∙ same,
      clean,
      λ p i. elim i [
        | inl e ↦ rw e first
        | inr j ↦ subst (λ (z : State). m ≤ z.0 p) same (above p j)
      ],
    )

align_unions-still :
    (unions : List (List ℕ)) (s : State)
    → (align_unions unions s).1 ≡ false
    → (align_unions unions s ≡ s)
      × (s.1 ≡ false)
      × ((ids : List ℕ) → In ids unions → (p : ℕ) → In p ids → max_rank s.0 ids 0 ≤ s.0 p)
unfolding align_unions
align_unions-still [] s h = (refl, h, λ ids i. absurd i)
align_unions-still (ids ∷ unions) s h =
    let t : State = raise_members (max_rank s.0 ids 0) ids s in
    let (later, clear, above) = align_unions-still unions t h in
    let (same, clean, first) = raise_members-still (max_rank s.0 ids 0) ids s clear in
    (
      later ∙ same,
      clean,
      λ ks i. elim i [
        | inl e ↦ λ p j. subst (λ z. max_rank s.0 z 0 ≤ s.0 p) (sym e) (first p (subst (In p) e j))
        | inr k ↦ λ p j. subst (λ (z : State). max_rank z.0 ks 0 ≤ z.0 p) same (above ks k p j)
      ],
    )

lower_child-still :
    (edge : ℕ × ℕ) (s : State)
    → (lower_child edge s).1 ≡ false
    → (lower_child edge s ≡ s) × (s.1 ≡ false) × (s.0 edge.0 < s.0 edge.1)
unfolding lower_child
lower_child-still edge s h = elim (Bool-cases (leb (s.0 edge.1) (s.0 edge.0))) [
  | inl e ↦ absurd (ground (arith, e))
  | inr e ↦ (rw e refl, ground (arith, e), ground (arith, e))
]

lower_children-still :
    (edges : List (ℕ × ℕ)) (s : State)
    → (lower_children edges s).1 ≡ false
    → (lower_children edges s ≡ s)
      × (s.1 ≡ false)
      × ((edge : ℕ × ℕ) → In edge edges → s.0 edge.0 < s.0 edge.1)
unfolding lower_children
lower_children-still [] s h = (refl, h, λ edge i. absurd i)
lower_children-still (e ∷ es) s h =
    let (later, clear, below) = lower_children-still es (lower_child e s) h in
    let (same, clean, first) = lower_child-still e s clear in
    (
      later ∙ same,
      clean,
      λ edge i. elim i [
        | inl at ↦ subst (λ (z : ℕ × ℕ). s.0 z.0 < s.0 z.1) (sym at) first
        | inr j ↦ subst (λ (z : State). z.0 edge.0 < z.0 edge.1) same (below edge j)
      ],
    )

-- A round that changes nothing has found the ranks aligned.
align_round-IsAligned :
    (unions : List (List ℕ)) (edges : List (ℕ × ℕ)) (ranks : Ranks)
    → (align_round unions edges ranks).1 ≡ false
    → IsAligned unions edges (align_round unions edges ranks).0
unfolding align_round
align_round-IsAligned unions edges ranks h =
    let t : State = align_unions unions (ranks, false) in
    let (same, clear, below) = lower_children-still edges t h in
    let (kept, _, above) = align_unions-still unions (ranks, false) clear in
    let whole : lower_children edges t ≡ (ranks, false) = same ∙ kept in
    subst (λ (z : State). IsAligned unions edges z.0) (sym whole)
      (record {
        level = λ ids i p q a b.
            let m : ℕ = max_rank ranks ids 0 in
            omega (
              arith,
              above ids i p a,
              above ids i q b,
              le-max_rank ranks ids 0 p a,
              le-max_rank ranks ids 0 q b,
            );
        below = λ edge i. subst (λ (z : State). z.0 edge.0 < z.0 edge.1) kept (below edge i);
      })

align_from-IsAligned :
    (n : ℕ) (unions : List (List ℕ)) (edges : List (ℕ × ℕ)) (ranks : Ranks) {ranks' : Ranks}
    → align_from n unions edges ranks ≡ ok ranks'
    → IsAligned unions edges ranks'
unfolding align_from
align_from-IsAligned zero unions edges ranks h = cc
align_from-IsAligned (suc n) unions edges ranks {ranks'} h =
    let next : State = align_round unions edges ranks in
    elim (Bool-cases (next.1)) [
      | inl e ↦
          let rest : align_from n unions edges next.0 ≡ ok ranks' = rw e at h in
          align_from-IsAligned n unions edges next.0 rest
      | inr e ↦
          let same : ok next.0 ≡ ok ranks' = rw e at h in
          let rows : next.0 ≡ ranks' = cc in
          subst (IsAligned unions edges) rows (align_round-IsAligned unions edges ranks e)
    ]

-- The ranks that are returned put the members of each union on one level, and each child below its
-- parent: its rank is greater.
pub align_union_ranks-IsAligned :
    (unions : List (List ℕ)) (edges : List (ℕ × ℕ)) (person_count : ℕ) (ranks : Ranks)
    {ranks' : Ranks}
    → align_union_ranks unions edges person_count ranks ≡ ok ranks'
    → IsAligned unions edges ranks'
unfolding align_union_ranks
align_union_ranks-IsAligned unions edges person_count ranks h =
    align_from-IsAligned (person_count + 1) unions edges ranks h

-- A way down from parents to children, one step or more.
pub data Descends (edges : List (ℕ × ℕ)) (a : ℕ) : ℕ → Type 0 where
  child : (b : ℕ) → In (a, b) edges → Descends edges a b
  further : (b c : ℕ) → Descends edges a b → In (b, c) edges → Descends edges a c

Descends-lt :
    (unions : List (List ℕ)) (edges : List (ℕ × ℕ)) (ranks : Ranks) (a b : ℕ)
    → IsAligned unions edges ranks
    → Descends edges a b
    → ranks a < ranks b
Descends-lt unions edges ranks a b w (child _ i) = w.below (a, b) i
Descends-lt unions edges ranks a c w (further b _ d i) =
    omega (arith, Descends-lt unions edges ranks a b w d, w.below (b, c) i)

-- Where a person descends from another member of its union, no ranks are returned: the export ends with
-- the error, after at most one iteration more than there are persons.
pub align_union_ranks_conflict :
    (unions : List (List ℕ)) (edges : List (ℕ × ℕ)) (person_count : ℕ) (ranks : Ranks)
    (ids : List ℕ) (a b : ℕ)
    → In ids unions
    → In a ids
    → In b ids
    → Descends edges a b
    → align_union_ranks unions edges person_count ranks ≡ err export_source_invalid
align_union_ranks_conflict unions edges person_count ranks ids a b i p q d =
    elim (Result-cases (align_union_ranks unions edges person_count ranks)) [
      | inl (ranks', made) ↦
          let w = align_union_ranks-IsAligned unions edges person_count ranks made in
          absurd (omega (arith, w.level ids i a b p q, Descends-lt unions edges ranks' a b w d))
      | inr (export_source_invalid, refused) ↦ refused
    ]
