-- ===== src/Exports/Alignment.antt =====
-- `alignUnionRanks` of internal/features/exports/visual/scene.go: the generations of the persons, raised
-- until the members of a union share one and children stand below their parents. The map of ranks is a
-- function, 0 for a person that it lacks; a map is walked in the order of the list that stands for it.
use family_tree_app.Prelude.{
  ℕ, zero, suc, ◌+◌, Bool, true, false, List, [], ◌∷◌, ltb, leb, ◌==◌, if◌then◌else◌, Result, ok,
  err,
}

abbrev pub Ranks : Type 0
Ranks = ℕ → ℕ

-- The ranks, and whether the round has changed one.
abbrev pub State : Type 0
State = Ranks × Bool

unfoldable pub set_rank : Ranks → ℕ → ℕ → Ranks
set_rank ranks person rank = λ p. if p == person then rank else ranks p

unfoldable pub max_rank : Ranks → List ℕ → ℕ → ℕ
max_rank ranks [] maximum = maximum
max_rank ranks (p ∷ ps) maximum =
    max_rank ranks ps (if ltb maximum (ranks p) then ranks p else maximum)

unfoldable pub raise_member : ℕ → ℕ → State → State
unfolding set_rank
raise_member maximum person state =
    if ltb (state.0 person) maximum then (set_rank state.0 person maximum, true) else state

unfoldable pub raise_members : ℕ → List ℕ → State → State
unfolding raise_member
raise_members maximum [] state = state
raise_members maximum (p ∷ ps) state = raise_members maximum ps (raise_member maximum p state)

unfoldable pub align_unions : List (List ℕ) → State → State
unfolding raise_members max_rank
align_unions [] state = state
align_unions (ids ∷ unions) state =
    align_unions unions (raise_members (max_rank state.0 ids 0) ids state)

-- One pair of a parent and a child.
unfoldable pub lower_child : ℕ × ℕ → State → State
unfolding set_rank
lower_child edge state =
    if leb (state.0 edge.1) (state.0 edge.0)
    then (set_rank state.0 edge.1 (state.0 edge.0 + 1), true)
    else state

unfoldable pub lower_children : List (ℕ × ℕ) → State → State
unfolding lower_child
lower_children [] state = state
lower_children (edge ∷ edges) state = lower_children edges (lower_child edge state)

unfoldable pub align_round : List (List ℕ) → List (ℕ × ℕ) → Ranks → State
unfolding align_unions lower_children
align_round unions edges ranks = lower_children edges (align_unions unions (ranks, false))

pub data Error : Type 0 where
  export_source_invalid : Error

-- The loop, over the iterations left.
unfoldable pub align_from : ℕ → List (List ℕ) → List (ℕ × ℕ) → Ranks → Result Error Ranks
unfolding align_round
align_from zero unions edges ranks = err export_source_invalid
align_from (suc iterations) unions edges ranks =
    let next = align_round unions edges ranks in
    let rest = align_from iterations unions edges next.0 in if next.1 then rest else ok next.0

unfoldable pub align_union_ranks : List (List ℕ) → List (ℕ × ℕ) → ℕ → Ranks → Result Error Ranks
unfolding align_from
align_union_ranks unions edges person_count ranks = align_from (person_count + 1) unions edges ranks
