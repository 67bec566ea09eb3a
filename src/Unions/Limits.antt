-- ===== src/Unions/Limits.antt =====
-- The limits of two and ten members, and what the statements of a transaction leave of them.
use family_tree_app.Prelude.{
  first_row, ℕ, ◌+◌, ◌≤◌, ◌<◌, ◌≡◌, inl, inr, refl, sym, ◌∙◌, Bool, true, false, not, ◌&&◌, ◌||◌,
  some, List, ◌∷◌, ◌==◌, any, count_if, select, update_first, Bool-cases, Option-cases, ok, arith,
}
use family_tree_app.Unions.Domain.{FamilyUnion, Aggregate, CreateValues, new}
use family_tree_app.Unions.Store.{
  UnionDatabase, Call, is_union, is_live_union, is_seat, is_seat_of, seats, call,
}
use family_tree_app.Unions.Writes.{bump_union_version, created_union, bumped_union}
use family_tree_app.Unions.Counts.{
  has_union, any-update_first, first_row-any, any_mono, count_if-remove, count_if-remove_other,
  filled,
}

-- Each union has at least two members and at most ten, and there are no members of no union.
pub record IsWithinLimits (db : UnionDatabase) : Type 0 where
  pub enough : (t i : ℕ) → has_union db t i ≡ true → 2 ≤ seats db t i
  pub not_too_many : (t i : ℕ) → seats db t i ≤ 10
  pub owned : (t i : ℕ) → has_union db t i ≡ false → seats db t i ≡ 0

-- Where neither the unions nor the seats change, the limits hold on.
pub IsWithinLimits-same :
    (db db' : UnionDatabase)
    → ((t i : ℕ) → has_union db' t i ≡ has_union db t i)
    → ((t i : ℕ) → seats db' t i ≡ seats db t i)
    → IsWithinLimits db
    → IsWithinLimits db'
IsWithinLimits-same db db' unions members w = record {
  enough = λ t i h. rw (members t i) (w.enough t i (sym (unions t i) ∙ h));
  not_too_many = λ t i. rw (members t i) (w.not_too_many t i);
  owned = λ t i h. members t i ∙ w.owned t i (sym (unions t i) ∙ h);
}

-- Updating rows of unions keeps the limits where the key of a row stays.
pub rows-IsWithinLimits :
    (p : FamilyUnion → Bool) (f : FamilyUnion → FamilyUnion) (db db' : UnionDatabase)
    → ((t i : ℕ) (u : FamilyUnion) → is_union t i (f u) ≡ is_union t i u)
    → {y : FamilyUnion} {rows : List FamilyUnion} → update_first p f db.unions ≡ some (y, rows)
    → db'.unions ≡ rows
    → db'.union_members ≡ db.union_members
    → IsWithinLimits db
    → IsWithinLimits db'
unfolding has_union seats
rows-IsWithinLimits p f db db' keyed found unions members w =
    IsWithinLimits-same db db'
      (λ t i. rw unions (any-update_first (is_union t i) p f (keyed t i) db.unions found))
      (λ t i. rw members refl) w

-- What the version counter of a union leaves.
pub bump-keeps :
    (io : Call → Bool) (u : FamilyUnion) (actor now : ℕ) (db : UnionDatabase) {row : FamilyUnion}
    {db' : UnionDatabase}
    → bump_union_version io u actor now db ≡ ok (row, db')
    → ((t i : ℕ) → has_union db' t i ≡ has_union db t i)
      × ((t i : ℕ) → seats db' t i ≡ seats db t i)
unfolding bump_union_version has_union seats call bumped_union is_union
bump-keeps io u actor now db {row} {db'} h =
    elim (Option-cases
      (update_first (is_live_union u.tree_id u.id) (bumped_union actor now) db.unions)) [
        | inl e ↦ absurd (ground (arith, e))
        | inr ((y, rows), found) ↦
            let unions : db'.unions ≡ rows = ground (arith, found) in
            let members : db'.union_members ≡ db.union_members = ground (arith, found) in
            (
              (λ t i. rw unions (
                  any-update_first (is_union t i) (is_live_union u.tree_id u.id)
                    (bumped_union actor now) (λ x. refl) db.unions found)),
              λ t i. rw members refl,
            )
      ]

pub unions-has_union :
    (db db' : UnionDatabase)
    → db'.unions ≡ db.unions
    → (t i : ℕ) → has_union db' t i ≡ has_union db t i
unfolding has_union
unions-has_union db db' same t i = rw same refl

pub live_union-exists :
    (t i : ℕ) (db : UnionDatabase) {u : FamilyUnion}
    → first_row (is_live_union t i) db.unions ≡ some u
    → has_union db t i ≡ true
unfolding has_union is_live_union
live_union-exists t i db found =
    any_mono (is_live_union t i) (is_union t i) db.unions (λ u h. ground arith)
      (first_row-any (is_live_union t i) db.unions found)

-- Filling seats of a union that there is, within its limit.
pub IsWithinLimits-filled :
    (db db' : UnionDatabase) (t i n : ℕ)
    → IsWithinLimits db
    → has_union db t i ≡ true
    → n + seats db t i ≤ 10
    → ((t' i' : ℕ) → has_union db' t' i' ≡ has_union db t' i')
    → ((t' i' : ℕ) → seats db' t' i' ≡ filled n t i t' i' + seats db t' i')
    → IsWithinLimits db'
unfolding filled
IsWithinLimits-filled db db' t i n w exists room unions members = record {
  enough = λ t' i' h. ground (arith, members t' i', unions t' i', w.enough t' i');
  not_too_many = λ t' i'. ground (arith, members t' i', w.not_too_many t' i');
  owned = λ t' i' h. ground (arith, members t' i', unions t' i', w.owned t' i', exists);
}

abbrev pub removed : UnionDatabase → ℕ → ℕ → ℕ → UnionDatabase
removed db t i p = record db {
  union_members = select (λ m. not (is_seat_of t i p m)) db.union_members;
}

removed-seats :
    (db : UnionDatabase) (t i p t' i' : ℕ)
    → count_if (is_seat_of t i p) db.union_members ≡ 1
    → seats (removed db t i p) t' i' + filled 1 t i t' i' ≡ seats db t' i'
unfolding seats filled is_seat_of is_seat
removed-seats db t i p t' i' one = elim (Bool-cases ((t == t') && (i == i'))) [
  | inl e ↦ ground (
    arith,
    e,
    one,
    count_if-remove (is_seat t' i') (is_seat_of t i p) (λ m g. ground (arith, e)) db.union_members,
  )
  | inr e ↦ ground (
    arith,
    e,
    count_if-remove_other (is_seat t' i') (is_seat_of t i p) (λ m g. ground (arith, e))
        db.union_members,
  )
]

-- Freeing the one seat of a person in a union with more than two.
pub removed-IsWithinLimits :
    (db : UnionDatabase) (t i p : ℕ)
    → IsWithinLimits db
    → 2 < seats db t i
    → count_if (is_seat_of t i p) db.union_members ≡ 1
    → IsWithinLimits (removed db t i p)
unfolding filled has_union
removed-IsWithinLimits db t i p w more one = record {
  enough = λ t' i' h. ground (arith, removed-seats db t i p t' i' one, w.enough t' i' h);
  not_too_many = λ t' i'. omega (arith, removed-seats db t i p t' i' one, w.not_too_many t' i');
  owned = λ t' i' h. omega (arith, removed-seats db t i p t' i' one, w.owned t' i' h);
}

pub fresh-has_union :
    (db : UnionDatabase) (t i : ℕ)
    → any (λ (row : FamilyUnion). row.id == i) db.unions ≡ false
    → has_union db t i ≡ false
unfolding has_union is_union
fresh-has_union db t i fresh = elim (Bool-cases (has_union db t i)) [
  | inr e ↦ e
  | inl e ↦ absurd (
      cc (
        any_mono (is_union t i) (λ (row : FamilyUnion). row.id == i) db.unions (λ u h. ground arith)
            e,
        fresh,
      ))
]

pub new_union-keyed :
    (id tree_id author : ℕ) (values : CreateValues) (now : ℕ) {a : Aggregate}
    → new id tree_id author values now ≡ ok a
    → (a.family_union.id ≡ id) × (a.family_union.tree_id ≡ tree_id)
unfolding new
new_union-keyed id tree_id author values now h = ground arith

-- A new union, with two to ten seats filled.
pub created-IsWithinLimits :
    (db db' : UnionDatabase) (actor : ℕ) (u : FamilyUnion) (n : ℕ)
    → IsWithinLimits db
    → any (λ (row : FamilyUnion). row.id == u.id) db.unions ≡ false
    → 2 ≤ n
    → n ≤ 10
    → db'.unions ≡ created_union actor u ∷ db.unions
    → ((t' i' : ℕ) → seats db' t' i' ≡ filled n u.tree_id u.id t' i' + seats db t' i')
    → IsWithinLimits db'
unfolding filled has_union any is_union created_union
created-IsWithinLimits db db' actor u n w fresh enough few unions members =
    let empty : seats db u.tree_id u.id ≡ 0 =
      w.owned u.tree_id u.id (fresh-has_union db u.tree_id u.id fresh) in
    let exists : (t i : ℕ)
        → has_union db' t i ≡ (((u.tree_id == t) && (u.id == i)) || has_union db t i) =
      λ t i. rw unions refl in
    record {
      enough = λ t i h. elim (Bool-cases ((u.tree_id == t) && (u.id == i))) [
        | inl e ↦ ground (arith, e, members t i)
        | inr e ↦ ground (arith, e, members t i, w.enough t i (ground (arith, e, exists t i)))
      ];
      not_too_many = λ t i. elim (Bool-cases ((u.tree_id == t) && (u.id == i))) [
        | inl e ↦ ground (arith, e, members t i, empty)
        | inr e ↦ ground (arith, e, members t i, w.not_too_many t i)
      ];
      owned = λ t i h. elim (Bool-cases ((u.tree_id == t) && (u.id == i))) [
        | inl e ↦ absurd (ground (arith, e, exists t i))
        | inr e ↦ ground (arith, e, members t i, w.owned t i (ground (arith, e, exists t i)))
      ];
    }
