-- ===== src/Backups/Graph.antt =====
-- The search for a cycle in `validateManifestRelations` of internal/features/exports/restore/archive.go. An edge is an
-- active relation: the parent and the child. A map of the code is a function, and the order in which
-- Go ranges over the map of the persons, which it does not specify, is an argument. The stack of the code
-- has its end at the head of the list here.
use family_tree_app.Prelude.{
  ℕ, zero, suc, ◌+◌, ◌-◌, List, [], ◌∷◌, map, ◌==◌, if◌then◌else◌, count_if, select,
}

abbrev pub Edge : Type 0
Edge = ℕ × ℕ

-- How often the number stands in the list.
unfoldable pub occurrences : ℕ → List ℕ → ℕ
occurrences c xs = count_if (λ x. x == c) xs

-- `children[parent]`, in the order of the relations.
unfoldable pub children : List Edge → ℕ → List ℕ
children edges parent = map (λ (e : Edge). e.1) (select (λ (e : Edge). e.0 == parent) edges)

-- `indegrees` after the loop over the relations.
unfoldable pub indegree : List Edge → ℕ → ℕ
indegree edges child = count_if (λ (e : Edge). e.1 == child) edges

unfoldable pub update : (ℕ → ℕ) → ℕ → ℕ → ℕ → ℕ
update degrees child degree c = if c == child then degree else degrees c

-- The loop over the children of a person: a degree that falls to 0 puts the child on the stack. A degree that the
-- code would take below 0 stays at 0 here, and neither is ever 1 again.
unfoldable pub relax : List ℕ → (ℕ → ℕ) → List ℕ → (ℕ → ℕ) × List ℕ
unfolding update
relax [] degrees stack = (degrees, stack)
relax (c ∷ cs) degrees stack =
    let degree = degrees c in
    relax cs (update degrees c (degree - 1)) (if degree == 1 then c ∷ stack else stack)

-- `for len(queue) > 0`: how many persons were visited, and what is left on the stack when the fuel
-- ends.
unfoldable pub visit : List Edge → ℕ → (ℕ → ℕ) → List ℕ → ℕ → ℕ × List ℕ
unfolding children relax
visit edges zero degrees stack visited = (visited, stack)
visit edges (suc fuel) degrees [] visited = (visited, [])
visit edges (suc fuel) degrees (p ∷ stack) visited =
    let (degrees', stack') = relax (children edges p) degrees stack in
    visit edges fuel degrees' stack' (visited + 1)

-- One round for each person, and one to see that the stack is empty.
unfoldable pub visited_persons : List Edge → ℕ → List ℕ → ℕ × List ℕ
unfolding visit indegree
visited_persons edges persons order =
    visit edges (suc persons) (indegree edges) (select (λ p. indegree edges p == 0) order) 0
