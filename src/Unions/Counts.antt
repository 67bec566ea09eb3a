-- ===== src/Unions/Counts.antt =====
-- How the statements of the union transactions change the unions that there are and their seats.
use family_tree_app.Prelude.{
  first_row, ℕ, ◌+◌, ◌≡◌, inl, inr, refl, ◌∙◌, Bool, true, false, not, ◌&&◌, some, List, [], ◌∷◌,
  map, length, ◌==◌, if◌then◌else◌, any, count_if, select, update_first, Bool-cases, Option-cases,
  Result-cases, ok, arith,
}
use family_tree_app.Unions.Domain.{UnionMember, MemberValues}
use family_tree_app.Unions.Members.{made_member}
use family_tree_app.Unions.Store.{UnionDatabase, Call, is_union, is_seat, seats, call}
use family_tree_app.Unions.Writes.{insert_member, insert_members}

unfoldable pub has_union : UnionDatabase → ℕ → ℕ → Bool
unfolding is_union
has_union db tree_id id = any (is_union tree_id id) db.unions

-- A change that a test does not see leaves what it finds.
pub any-update_first :
    {A : Type 0} (q p : A → Bool) (f : A → A)
    → ((x : A) → q (f x) ≡ q x)
    → (xs : List A) {y : A} {ys : List A} → update_first p f xs ≡ some (y, ys)
    → any q ys ≡ any q xs
unfolding update_first any
any-update_first q p f same [] h = cc
any-update_first q p f same (x ∷ xs) {ys = ys} h = elim (Bool-cases (p x)) [
  | inl e ↦ let rows : ys ≡ f x ∷ xs = ground (arith, e) in rw (rows, same x) refl
  | inr e ↦ elim (Option-cases (update_first p f xs)) [
    | inl stopped ↦ absurd (ground (arith, e, stopped))
    | inr ((y', ys'), found) ↦
        let rows : ys ≡ x ∷ ys' = ground (arith, e, found) in
        rw (rows, any-update_first q p f same xs found) refl
  ]
]

pub first_row-any :
    {A : Type 0} (p : A → Bool) (xs : List A) {y : A} → first_row p xs ≡ some y → any p xs ≡ true
unfolding first_row any
first_row-any p [] h = cc
first_row-any p (x ∷ xs) {y} h = elim (Bool-cases (p x)) [
  | inl e ↦ ground (arith, e)
  | inr e ↦
      let rest : first_row p xs ≡ some y = ground (arith, e) in
      ground (arith, e, first_row-any p xs rest)
]

pub any_mono :
    {A : Type 0} (p q : A → Bool) (xs : List A)
    → ((x : A) → p x ≡ true → q x ≡ true)
    → any p xs ≡ true
    → any q xs ≡ true
unfolding any
any_mono p q [] h k = cc
any_mono p q (x ∷ xs) h k = elim (Bool-cases (p x)) [
  | inl e ↦ rw (h x e) refl
  | inr e ↦ ground (arith, any_mono p q xs h (ground (arith, e)))
]

-- The rows that are removed are those that the wider test loses.
pub count_if-remove :
    {A : Type 0} (wide gone : A → Bool)
    → ((x : A) → gone x ≡ true → wide x ≡ true)
    → (xs : List A)
    → count_if wide (select (λ x. not (gone x)) xs) + count_if gone xs ≡ count_if wide xs
unfolding count_if select
count_if-remove wide gone h [] = refl
count_if-remove wide gone h (x ∷ xs) = elim (Bool-cases (gone x)) [
  | inl e ↦ ground (arith, e, h x e, count_if-remove wide gone h xs)
  | inr e ↦ ground (arith, e, count_if-remove wide gone h xs)
]

pub count_if-remove_other :
    {A : Type 0} (other gone : A → Bool)
    → ((x : A) → gone x ≡ true → other x ≡ false)
    → (xs : List A) → count_if other (select (λ x. not (gone x)) xs) ≡ count_if other xs
unfolding count_if select
count_if-remove_other other gone h [] = refl
count_if-remove_other other gone h (x ∷ xs) = elim (Bool-cases (gone x)) [
  | inl e ↦ ground (arith, e, h x e, count_if-remove_other other gone h xs)
  | inr e ↦ ground (arith, e, count_if-remove_other other gone h xs)
]

-- The seats that one more member of union `i` of tree `t` fills.
unfoldable pub filled : ℕ → ℕ → ℕ → ℕ → ℕ → ℕ
filled n t i tree_id id = if (t == tree_id) && (i == id) then n else 0

module _ (io : Call → Bool) where
  pub insert_member-seats :
      (m : UnionMember) (db : UnionDatabase) {db' : UnionDatabase}
      → insert_member io m db ≡ ok db'
      → (db'.unions ≡ db.unions)
        × ((tree_id id : ℕ)
            → seats db' tree_id id ≡ filled 1 m.tree_id m.union_id tree_id id + seats db tree_id id)
  unfolding insert_member call seats count_if is_seat filled
  insert_member-seats m db h = (ground arith, λ tree_id id. ground arith)

  pub insert_members-seats :
      (t i now : ℕ) (vs : List MemberValues) (db : UnionDatabase) {db' : UnionDatabase}
      → insert_members io (map (made_member i t now) vs) db ≡ ok db'
      → (db'.unions ≡ db.unions)
        × ((tree_id id : ℕ)
            → seats db' tree_id id ≡ filled (length vs) t i tree_id id + seats db tree_id id)
  unfolding insert_members filled
  insert_members-seats t i now [] db {db'} h =
      let same : db' ≡ db = ground arith in (rw same refl, λ tree_id id. rw same (ground arith))
  insert_members-seats t i now (v ∷ vs) db {db'} h =
      elim (Result-cases (insert_member io (made_member i t now v) db)) [
        | inr (e, refused) ↦ absurd (ground (arith, refused))
        | inl (db1, first) ↦
            let (same, one) = insert_member-seats (made_member i t now v) db first in
            let rest : insert_members io (map (made_member i t now) vs) db1 ≡ ok db' =
              ground (arith, first) in
            let (same', more) = insert_members-seats t i now vs db1 rest in
            (same' ∙ same, λ tree_id id. ground (arith, one tree_id id, more tree_id id))
      ]
