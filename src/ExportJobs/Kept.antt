-- ===== src/ExportJobs/Kept.antt =====
-- What the operations on exports keep: the storage has the object of every completed export. A change of
-- the tables or the storage is safe where it keeps this, and the objects of the exports that are
-- not finished.
use family_tree_app.Prelude.{
  ℕ, ◌≤◌, ◌≡◌, refl, sym, subst, ◌∙◌, inl, inr, Bool, true, false, not, List, ◌∷◌, Text, is_empty,
  text_eq, text_eq_refl, text_eq-eq, Bool-cases, In, any, any-In, In-any, select-In, select,
  count_if, arith,
}
use family_tree_app.ExportJobs.Domain.{Export, is_completed}
use family_tree_app.ExportJobs.Generator.{Object, World, has_key, put, remove, result_object_key}
use family_tree_app.ExportJobs.Keys.{IsCanonical, result_object_key_inj}
use family_tree_app.ExportJobs.Rows.{
  has_id, is_unfinished, IsKeyed, Continues, Continues-refl, Continues-trans, Rows, Rows-comes,
  Rows-goes, Rows-count, count_one,
}

unfoldable pub has_object : Text → List Object → Bool
unfolding has_key
has_object key objects = any (has_key key) objects

-- Every row with the identifier is queued or running.
abbrev pub IsOpen : World → ℕ → Type 0
IsOpen w i = (e : Export) → In e w.database.exports → e.id ≡ i → is_unfinished e ≡ true

module _ (uuid_string : ℕ → Text) where
  pub record IsKept (w : World) : Type 0 where
    pub unique : (i : ℕ) → count_if (has_id i) w.database.exports ≤ 1
    pub keyed : (e : Export) → In e w.database.exports → IsKeyed uuid_string e
    pub present :
        (e : Export)
        → In e w.database.exports
        → is_completed e.status ≡ true
        → has_object e.result_object_key w.objects ≡ true

  pub record Follows (w w' : World) : Type 0 where
    pub stays :
        (e : Export)
        → In e w.database.exports
        → (e' : Export) × In e' w'.database.exports × Continues e e'
    pub opens : (i : ℕ) → IsOpen w' i → IsOpen w i
    pub keeps :
        (t i : ℕ) (f c : Text)
        → IsOpen w' i
        → has_object (result_object_key uuid_string t i f c) w.objects ≡ true
        → has_object (result_object_key uuid_string t i f c) w'.objects ≡ true

  -- A change that keeps what was kept.
  abbrev pub IsSafe : World → World → Type 0
  IsSafe w w' = IsKept w → IsKept w' × Follows w w'

  pub IsSafe-refl : (w : World) → IsSafe w w
  IsSafe-refl w k = (
    k,
    record { stays = λ e i. (e, i, Continues-refl e); opens = λ i o. o; keeps = λ t i f c o h. h },
  )

  pub IsSafe-trans : {a b c : World} → IsSafe a b → IsSafe b c → IsSafe a c
  IsSafe-trans p q k =
      let (kb, f) = p k in
      let (kc, g) = q kb in
      (
        kc,
        record {
          stays = λ e i.
              let (e', j, s) = f.stays e i in
              let (e'', l, t) = g.stays e' j in (e'', l, Continues-trans s t);
          opens = λ i o. f.opens i (g.opens i o);
          keeps = λ t i m c o h. g.keeps t i m c o (f.keeps t i m c (g.opens i o) h);
        },
      )

module _ (uuid_string : ℕ → Text) where
  -- A statement on the rows, where every key that it adds has its object.
  pub Rows-IsSafe :
      (New : Text → Type 0) (w w' : World)
      → Rows uuid_string New w.database.exports w'.database.exports
      → w'.objects ≡ w.objects
      → ((key : Text) → New key → has_object key w.objects ≡ true)
      → IsSafe uuid_string w w'
  unfolding is_unfinished
  Rows-IsSafe New w w' rows same added k = (
    record {
      unique = λ i. rw (Rows-count uuid_string New _ _ i rows) (k.unique i);
      keyed =
          λ e' i. let (e, j, s) = Rows-comes uuid_string New _ _ e' rows i in s.keyed (k.keyed e j);
      present = λ e' i c.
          let (e, j, s) = Rows-comes uuid_string New _ _ e' rows i in
          elim (s.was_completed c) [
            | inl (d, key) ↦ rw (same, key) (k.present e j d)
            | inr new ↦ rw same (added e'.result_object_key new)
          ];
    },
    record {
      stays =
          λ e i. let (e', j, s) = Rows-goes uuid_string New _ _ e rows i in (e', j, s.continues);
      opens = λ i o e j q.
          let (e', l, s) = Rows-goes uuid_string New _ _ e rows j in
          s.continues.was_unfinished (o e' l (s.continues.same_id ∙ q));
      keeps = λ t i f c o h. rw same h;
    },
  )

pub put-has_object :
    (key body : Text) (objects : List Object) → has_object key (put key body objects) ≡ true
unfolding has_object put has_key any
put-has_object key body objects = rw (text_eq_refl key) refl

has_object-remove :
    (key k : Text) (objects : List Object)
    → (key ≡ k → ⊥)
    → has_object key objects ≡ true
    → has_object key (remove k objects) ≡ true
unfolding has_object remove has_key
has_object-remove key k objects other h =
    let (o, i, e) = any-In (has_key key) objects h in
    let passes : not (text_eq o.0 k) ≡ true = elim (Bool-cases (text_eq o.0 k)) [
      | inl same ↦ absurd (other (sym (text_eq-eq o.0 key e) ∙ text_eq-eq o.0 k same))
      | inr differs ↦ rw differs refl
    ] in
    In-any o (has_key key) (remove k objects)
      (select-In o (λ x. not (has_key k x)) objects i passes) e

pub both : {b : Bool} → b ≡ true → b ≡ false → ⊥
both {b} h h' = absurd (ground arith)

any_more :
    {A : Type 0} (a : A) (p : A → Bool) (xs : List A) → any p xs ≡ true → any p (a ∷ xs) ≡ true
unfolding any
any_more a p xs h = ground arith

has_object-put :
    (key k body : Text) (objects : List Object)
    → has_object key objects ≡ true
    → has_object key (put k body objects) ≡ true
unfolding put has_object select remove
has_object-put key k body objects h = elim (Bool-cases (text_eq k key)) [
  | inl same ↦ rw (text_eq-eq k key same) (put-has_object key body objects)
  | inr differs ↦
      let rest : has_object key (remove k objects) ≡ true =
        has_object-remove key k objects (λ e. both (rw e (text_eq_refl k)) differs) h in
      any_more (k, body) (has_key key) (remove k objects) rest
]

module _ (uuid_string : ℕ → Text) where
  -- An object more.
  pub put-IsSafe :
      (key body : Text) (w : World)
      → IsSafe uuid_string w (record w { objects = put key body w.objects })
  put-IsSafe key body w k = (
    record {
      unique = k.unique;
      keyed = k.keyed;
      present = λ e i c. has_object-put e.result_object_key key body w.objects (k.present e i c);
    },
    record {
      stays = λ e i. (e, i, Continues-refl e);
      opens = λ i o. o;
      keeps = λ t i f c o h. has_object-put _ key body w.objects h;
    },
  )

module _ {uuid_string : ℕ → Text} (canonical : IsCanonical uuid_string) where
  pub key-inked : (t i : ℕ) (f c : Text) → is_empty (result_object_key uuid_string t i f c) ≡ false
  unfolding result_object_key
  key-inked t i f c = refl

  -- The object of an export that is finished, and that has no such object as its result, may go.
  pub remove-IsSafe :
      (t i : ℕ) (f c : Text) (r : Export) (w : World)
      → In r w.database.exports
      → r.id ≡ i
      → is_unfinished r ≡ false
      → (is_completed r.status ≡ true
          → r.result_object_key ≡ result_object_key uuid_string t i f c
          → ⊥)
      → IsSafe uuid_string w
          (record w { objects = remove (result_object_key uuid_string t i f c) w.objects })
  remove-IsSafe t i f c r w listed same closed other k = (
    record {
      unique = k.unique;
      keyed = k.keyed;
      present = λ e j d.
          has_object-remove e.result_object_key _ w.objects (λ q. differs e j d q)
            (k.present e j d);
    },
    record {
      stays = λ e j. (e, j, Continues-refl e);
      opens = λ j o. o;
      keeps = λ t' j f' c' o h.
          has_object-remove _ _ w.objects
            (λ q.
              let e : j ≡ i = (result_object_key_inj canonical t' t j i f' f c' c q).0 in
              both (o r listed (same ∙ sym e)) closed)
            h;
    },
  )
    where
      differs :
          (e : Export)
          → In e w.database.exports
          → is_completed e.status ≡ true
          → e.result_object_key ≡ result_object_key uuid_string t i f c
          → ⊥
      differs e j d q = elim (k.keyed e j) [
        | inl empty ↦
            absurd (both (subst (λ (x : Text). is_empty x ≡ true) q empty) (key-inked t i f c))
        | inr keyed ↦
            let at : e.id ≡ i =
              (result_object_key_inj canonical e.tree_id t e.id i e.format f e.result_checksum c
                (sym keyed ∙ q)).0 in
            let is_r : e ≡ r = count_one i w.database.exports e r (k.unique i) j at listed same in
            other (subst (λ (x : Export). is_completed x.status ≡ true) is_r d) (
              subst (λ (x : Export). x.result_object_key ≡ result_object_key uuid_string t i f c)
                is_r q)
      ]
