-- ===== src/Backups/Kahn.antt =====
-- What one visit of the search in `validateManifestRelations` does to the degrees and the stack.
use family_tree_app.Prelude.{
  ℕ, ◌+◌, ◌-◌, ◌≤◌, ◌≡◌, refl, subst, inl, inr, true, false, not, ◌&&◌, List, [], ◌∷◌, leb, ◌==◌,
  ==_refl, if◌then◌else◌, Bool-cases, count_if, select, any, In, arith,
}
use family_tree_app.Backups.Graph.{Edge, occurrences, children, indegree, update, relax}
use family_tree_app.Backups.Order.{any-occurrences}

-- The edges to the person from persons that were not visited.
pub open_edges : List Edge → List ℕ → ℕ → ℕ
open_edges edges seen c =
    count_if (λ (e : Edge). (e.1 == c) && not (any (λ v. v == e.0) seen)) edges

relax-degrees :
    (cs : List ℕ) (degrees : ℕ → ℕ) (stack : List ℕ) (c : ℕ)
    → (relax cs degrees stack).0 c ≡ degrees c - occurrences c cs
unfolding relax update occurrences count_if
relax-degrees [] degrees stack c = omega arith
relax-degrees (x ∷ cs) degrees stack c =
    let rest =
      relax-degrees cs (update degrees x (degrees x - 1))
        (if degrees x == 1 then x ∷ stack else stack) c in
    elim (Bool-cases (c == x)) [
      | inl e ↦ let same : c ≡ x = ground (arith, e) in ground (arith, rest, same)
      | inr e ↦ ground (arith, rest, e)
    ]

relax-stack :
    (cs : List ℕ) (degrees : ℕ → ℕ) (stack : List ℕ) (c : ℕ)
    → occurrences c (relax cs degrees stack).1
      ≡ occurrences c stack
        + (if leb 1 (degrees c) && leb (degrees c) (occurrences c cs) then 1 else 0)
unfolding relax update occurrences count_if
relax-stack [] degrees stack c = ground arith
relax-stack (x ∷ cs) degrees stack c =
    let rest =
      relax-stack cs (update degrees x (degrees x - 1))
        (if degrees x == 1 then x ∷ stack else stack) c in
    elim (Bool-cases (c == x)) [
      | inl e ↦ let same : c ≡ x = ground (arith, e) in ground (arith, rest, same)
      | inr e ↦ ground (arith, rest, e)
    ]

-- A person that is visited takes its edges away.
open_edges-visit :
    (edges : List Edge) (seen : List ℕ) (p c : ℕ)
    → any (λ v. v == p) seen ≡ false
    → open_edges edges seen c ≡ open_edges edges (p ∷ seen) c + occurrences c (children edges p)
unfolding open_edges occurrences children count_if select any
open_edges-visit [] seen p c h = omega arith
open_edges-visit ((a, b) ∷ edges) seen p c h =
    let rest = open_edges-visit edges seen p c h in
    elim (Bool-cases (a == p)) [
      | inl e ↦
          let same : a ≡ p = ground (arith, e) in
          let fresh : any (λ v. v == a) seen ≡ false = rw same h in
          let again : (p == a) ≡ true = ground (arith, e) in ground (arith, e, fresh, again, rest)
      | inr e ↦ let other : (p == a) ≡ false = ground (arith, e) in ground (arith, e, other, rest)
    ]

-- Every edge that is open is one from a person that was not visited.
pub open_edges-none :
    (edges : List Edge) (seen : List ℕ) (e : Edge)
    → open_edges edges seen e.1 ≡ 0
    → In e edges
    → any (λ v. v == e.0) seen ≡ true
unfolding open_edges count_if
open_edges-none [] seen e h i = absurd i
open_edges-none (x ∷ edges) seen e h (inl same) =
    let h' = subst (λ (y : Edge). open_edges (x ∷ edges) seen y.1 ≡ 0) same h in
    let seen_x : any (λ v. v == x.0) seen ≡ true = ground (arith, h', ==_refl x.1) in rw same seen_x
open_edges-none (x ∷ edges) seen e h (inr i) = open_edges-none edges seen e (ground (arith, h)) i

-- The state of the loop: the persons that were visited, the last one first; the stack; and the degrees.
pub record IsSearch (edges : List Edge) (persons seen stack : List ℕ) (degrees : ℕ → ℕ)
    : Type 0 where
  pub open_degrees : (c : ℕ) → degrees c ≡ open_edges edges seen c
  pub placed :
      (c : ℕ)
      → occurrences c stack + occurrences c seen
        ≡ (if (degrees c == 0) && any (λ x. x == c) persons then 1 else 0)

children-listed :
    (edges : List Edge) (persons : List ℕ) (p c : ℕ)
    → ((e : Edge) → In e edges → any (λ x. x == e.1) persons ≡ true)
    → 1 ≤ occurrences c (children edges p)
    → any (λ x. x == c) persons ≡ true
unfolding occurrences children count_if select
children-listed [] persons p c known h = absurd (omega (arith, h))
children-listed ((a, b) ∷ edges) persons p c known h = elim (Bool-cases (a == p)) [
  | inr e ↦ children-listed edges persons p c (λ x i. known x (inr i)) (ground (arith, e))
  | inl e ↦ elim (Bool-cases (b == c)) [
    | inl q ↦
        let same : b ≡ c = ground (arith, q) in
        subst (λ n. any (λ x. x == n) persons ≡ true) same (known (a, b) (inl refl))
    | inr q ↦ children-listed edges persons p c (λ x i. known x (inr i)) (ground (arith, e, q))
  ]
]

pub visit-IsSearch :
    (edges : List Edge) (persons seen stack : List ℕ) (degrees : ℕ → ℕ) (p : ℕ)
    → ((e : Edge) → In e edges → any (λ x. x == e.1) persons ≡ true)
    → IsSearch edges persons seen (p ∷ stack) degrees
    → IsSearch edges persons
        (p ∷ seen)
        (relax (children edges p) degrees stack).1
        (relax (children edges p) degrees stack).0
unfolding occurrences count_if
visit-IsSearch edges persons seen stack degrees p known s =
    let cs : List ℕ = children edges p in
    let here : occurrences p (p ∷ stack) + occurrences p seen ≤ 1 = ground (arith, s.placed p) in
    let fresh : any (λ v. v == p) seen ≡ false =
      any-occurrences p seen (ground (arith, here, ==_refl p)) in
    record {
      open_degrees = λ c. omega (
        arith,
        relax-degrees cs degrees stack c,
        s.open_degrees c,
        open_edges-visit edges seen p c fresh,
      );
      placed = λ c.
          let degree = relax-degrees cs degrees stack c in
          let pushed = relax-stack cs degrees stack c in
          let before = s.placed c in
          elim (Bool-cases (any (λ x. x == c) persons)) [
            | inl listed ↦ ground (arith, degree, pushed, before, listed)
            | inr unknown ↦
                let childless : occurrences c cs ≡ 0 =
                  elim (Bool-cases (leb 1 (occurrences c cs))) [
                    | inr e ↦ ground (arith, e)
                    | inl e ↦
                        let listed = children-listed edges persons p c known (ground (arith, e)) in
                        absurd (ground (arith, unknown, listed))
                  ] in
                ground (arith, degree, pushed, before, unknown, childless)
          ];
    }

pub indegree-eq-open_edges : (edges : List Edge) (c : ℕ) → indegree edges c ≡ open_edges edges [] c
unfolding indegree open_edges count_if any
indegree-eq-open_edges [] c = refl
indegree-eq-open_edges (e ∷ edges) c = ground (arith, indegree-eq-open_edges edges c)

pub open_edges-closed :
    (edges : List Edge) (seen : List ℕ) (c : ℕ)
    → ((e : Edge) → In e edges → e.1 ≡ c → any (λ v. v == e.0) seen ≡ true)
    → open_edges edges seen c ≡ 0
unfolding open_edges count_if
open_edges-closed [] seen c h = refl
open_edges-closed (e ∷ edges) seen c h =
    let rest = open_edges-closed edges seen c (λ x i. h x (inr i)) in
    elim (Bool-cases (e.1 == c)) [
      | inr q ↦ ground (arith, q, rest)
      | inl q ↦ let seen_e = h e (inl refl) (ground (arith, q)) in ground (arith, q, seen_e, rest)
    ]
