-- ===== src/Unions/Members.antt =====
-- The members of a union of union.go, and when its constructor makes one.
use family_tree_app.Prelude.{
  ℕ, ◌≤◌, ◌≡◌, ◌≢◌, inl, inr, ◌↔◌, refl, sym, subst, true, false, List, [], ◌∷◌, map, Text, codes,
  trim_space, length, is_empty, if◌then◌else◌, any, any-In, In-any, In, All, ◌==◌, ==_iff,
  Bool-cases, Result-cases, ok, arith,
}
use family_tree_app.Unions.Domain.{
  UnionMember, Aggregate, MemberValues, CreateValues, min_members, max_members,
  max_end_reason_runes, max_note_runes, max_role_runes, is_union_type, validate_union_values,
  new_member, new_members, new,
}

-- No number stands twice in the list.
abbrev pub Distinct : List ℕ → Type 0
Distinct [] = Unit
Distinct (x ∷ xs) = ¬ In x xs × Distinct xs

abbrev pub persons_of : List MemberValues → List ℕ
persons_of vs = map (λ v. v.person_id) vs

abbrev pub made_member : ℕ → ℕ → ℕ → MemberValues → UnionMember
made_member id tree_id now v = record {
  union_id = id;
  person_id = v.person_id;
  tree_id = tree_id;
  role = trim_space v.role;
  created_at = now;
}

abbrev pub IsMemberValid : MemberValues → Type 0
IsMemberValid v = (v.person_id ≢ 0) × (length (trim_space v.role) ≤ max_role_runes)

-- None of the first stands among the second.
abbrev pub Fresh : List ℕ → List ℕ → Type 0
Fresh seen [] = Unit
Fresh seen (x ∷ xs) = ¬ In x seen × Fresh seen xs

Fresh-weaken : (s : ℕ) (seen xs : List ℕ) → Fresh (s ∷ seen) xs → ¬ In s xs × Fresh seen xs
Fresh-weaken s seen [] h = (λ i. i, tt)
Fresh-weaken s seen (x ∷ xs) (out, f) =
    let (rest, g) = Fresh-weaken s seen xs f in
    ((λ i. elim i [ inl e ↦ out (inl (sym e)) | inr j ↦ rest j ]), ((λ i. out (inr i)), g))

Fresh-extend : (s : ℕ) (seen xs : List ℕ) → ¬ In s xs → Fresh seen xs → Fresh (s ∷ seen) xs
Fresh-extend s seen [] out f = tt
Fresh-extend s seen (x ∷ xs) out (h, f) = (
  (λ i. elim i [ inl e ↦ out (inl (sym e)) | inr j ↦ h j ]),
  Fresh-extend s seen xs (λ i. out (inr i)) f,
)

any-eq_In : (p : ℕ) (seen : List ℕ) → (any (λ q. q == p) seen ≡ true) ↔ In p seen
any-eq_In p seen = (
  λ h. let (q, i, e) = any-In (λ q. q == p) seen h in subst (λ z. In z seen) ((==_iff q p).0 e) i,
  λ i. In-any p (λ q. q == p) seen i ((==_iff p p).1 refl),
)

module _ (id tree_id now : ℕ) (named : id ≢ 0) (placed : tree_id ≢ 0) (dated : now ≢ 0) where
  new_members_sound :
      (seen : List ℕ) (vs : List MemberValues) {ms : List UnionMember}
      → new_members id tree_id now seen vs ≡ ok ms
      → All IsMemberValid vs
        × Distinct (persons_of vs)
        × Fresh seen (persons_of vs)
        × (ms ≡ map (made_member id tree_id now) vs)
  unfolding new_members new_member
  new_members_sound seen [] h = (tt, tt, tt, ground arith)
  new_members_sound seen (v ∷ vs) {ms} h =
      elim (Result-cases (new_members id tree_id now (v.person_id ∷ seen) vs)) [
        | inr (e, refused) ↦ absurd (ground (arith, refused))
        | inl (rest, made) ↦
            let (valid, distinct, fresh, same) = new_members_sound (v.person_id ∷ seen) vs made in
            let (alone, fresh') = Fresh-weaken v.person_id seen (persons_of vs) fresh in
            let unseen : any (λ q. q == v.person_id) seen ≡ false = ground (arith, made) in
            (
              (ground (arith, made), valid),
              (alone, distinct),
              ((λ i. cc ((any-eq_In v.person_id seen).1 i, unseen)), fresh'),
              ground (arith, made, same),
            )
      ]

  new_members_total :
      (seen : List ℕ) (vs : List MemberValues)
      → All IsMemberValid vs
      → Distinct (persons_of vs)
      → Fresh seen (persons_of vs)
      → new_members id tree_id now seen vs ≡ ok (map (made_member id tree_id now) vs)
  unfolding new_members new_member
  new_members_total seen [] valid distinct fresh = refl
  new_members_total seen (v ∷ vs) ((real, short), valid) (alone, distinct) (out, fresh) =
      let rest =
        new_members_total (v.person_id ∷ seen) vs valid distinct
          (Fresh-extend v.person_id seen (persons_of vs) alone fresh) in
      elim (Bool-cases (any (λ q. q == v.person_id) seen)) [
        | inl e ↦ absurd (out ((any-eq_In v.person_id seen).0 e))
        | inr e ↦ ground (arith, rest, e, real, short, named, placed, dated)
      ]

abbrev pub type_of : CreateValues → Text
type_of values = if is_empty values.union_type then codes "unknown" else values.union_type

Fresh-nil : (xs : List ℕ) → Fresh [] xs
Fresh-nil [] = tt
Fresh-nil (x ∷ xs) = ((λ i. i), Fresh-nil xs)

-- What `New` asks of its arguments.
pub record IsCreatable (id tree_id actor : ℕ) (values : CreateValues) (now : ℕ) : Type 0 where
  pub named : id ≢ 0
  pub placed : tree_id ≢ 0
  pub acted : actor ≢ 0
  pub dated : now ≢ 0
  pub known_type : is_union_type (type_of values) ≡ true
  pub reason_bounded : length (trim_space values.end_reason) ≤ max_end_reason_runes
  pub note_bounded : length (trim_space values.note) ≤ max_note_runes
  pub enough : min_members ≤ length values.members
  pub not_too_many : length values.members ≤ max_members
  pub valid : All IsMemberValid values.members
  pub distinct : Distinct (persons_of values.members)

pub new_union-IsCreatable :
    (id tree_id actor : ℕ) (values : CreateValues) (now : ℕ) {a : Aggregate}
    → new id tree_id actor values now ≡ ok a
    → IsCreatable id tree_id actor values now
      × (a.members ≡ map (made_member id tree_id now) values.members)
unfolding new validate_union_values
new_union-IsCreatable id tree_id actor values now h =
    let named : id ≢ 0 = ground arith in
    let placed : tree_id ≢ 0 = ground arith in
    let dated : now ≢ 0 = ground arith in
    elim (Result-cases (new_members id tree_id now [] values.members)) [
      | inr (e, refused) ↦ absurd (ground (arith, refused))
      | inl (rest, made) ↦
          let (valid, distinct, _, same) =
            new_members_sound id tree_id now named placed dated [] values.members made in
          (
            record {
              named = named;
              placed = placed;
              acted = ground arith;
              dated = dated;
              known_type = ground arith;
              reason_bounded = ground arith;
              note_bounded = ground arith;
              enough = ground arith;
              not_too_many = ground arith;
              valid = valid;
              distinct = distinct;
            },
            ground (arith, made, same),
          )
    ]

new_union_total :
    (id tree_id actor : ℕ) (values : CreateValues) (now : ℕ)
    → IsCreatable id tree_id actor values now
    → (a : Aggregate) × (new id tree_id actor values now ≡ ok a)
unfolding new validate_union_values
new_union_total id tree_id actor values now c =
    let rest =
      new_members_total id tree_id now c.named c.placed c.dated [] values.members c.valid c.distinct
        (Fresh-nil (persons_of values.members)) in
    elim (Result-cases (new id tree_id actor values now)) [
      | inl made ↦ made
      | inr (e, refused) ↦ absurd (ground (arith, rest, refused))
    ]

-- `New` makes a union exactly of two to ten distinct persons, with a known type, bounded texts and roles,
-- and identifiers and a date that are set; its members are those persons, in their order.
pub new_union_iff :
    (id tree_id actor : ℕ) (values : CreateValues) (now : ℕ)
    → ((a : Aggregate) × (new id tree_id actor values now ≡ ok a)
        × (a.members ≡ map (made_member id tree_id now) values.members))
      ↔ IsCreatable id tree_id actor values now
new_union_iff id tree_id actor values now = (
  λ (a, made, _). (new_union-IsCreatable id tree_id actor values now made).0,
  λ c.
      let (a, made) = new_union_total id tree_id actor values now c in
      (a, made, (new_union-IsCreatable id tree_id actor values now made).1),
)
