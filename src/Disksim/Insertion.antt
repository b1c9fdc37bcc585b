-- ===== src/Disksim/Insertion.antt =====
-- A sort by insertion, which does what is relied on of `qsort`.
use mathlib.Core.Bool.{true≢false}
use mathlib.Core.List.{Perm}
use mathlib.Core.List.Perm
use ia_operating_systems.Base.{
  Each, Ordered, Each-map, ℕ, ◌≡◌, inl, inr, Bool, true, false, if◌then◌else◌, List, [], ◌∷◌, refl,
  sym, ◌∙◌, subst, Bool-cases,
}
use ia_operating_systems.Disksim.Qsort.{IsOrder, AtMost, IsQsort}

abbrev insert : (ℕ → ℕ → Bool) → ℕ → List ℕ → List ℕ
insert before x [] = x ∷ []
insert before x (y ∷ ys) =
    let rest = insert before x ys in if before y x then y ∷ rest else x ∷ y ∷ ys

abbrev pub insertion_sort : (ℕ → ℕ → Bool) → List ℕ → List ℕ
insertion_sort before [] = []
insertion_sort before (x ∷ xs) = insert before x (insertion_sort before xs)

module _ (before : ℕ → ℕ → Bool) where
  past :
      (x y : ℕ) (ys : List ℕ)
      → before y x ≡ true
      → insert before x (y ∷ ys) ≡ y ∷ insert before x ys
  past x y ys e = rw e refl

  here : (x y : ℕ) (ys : List ℕ) → before y x ≡ false → insert before x (y ∷ ys) ≡ x ∷ y ∷ ys
  here x y ys e = rw e refl

  insert-Perm : (x : ℕ) (ys : List ℕ) → Perm (insert before x ys) (x ∷ ys)
  insert-Perm x [] = Perm.rfl
  insert-Perm x (y ∷ ys) = elim (Bool-cases (before y x)) [
    | inl e ↦
        subst (λ zs. Perm zs (x ∷ y ∷ ys)) (sym (past x y ys e))
          (Perm.trans (Perm.cons y (insert-Perm x ys)) (Perm.swap _ _ ys))
    | inr e ↦ subst (λ zs. Perm zs (x ∷ y ∷ ys)) (sym (here x y ys e)) Perm.rfl
  ]

  pub insertion_sort-Perm : (xs : List ℕ) → Perm (insertion_sort before xs) xs
  insertion_sort-Perm [] = Perm.rfl
  insertion_sort-Perm (x ∷ xs) =
      Perm.trans (insert-Perm x (insertion_sort before xs)) (Perm.cons x (insertion_sort-Perm xs))

  Each-insert :
      (P : ℕ → Type 0) (x : ℕ) (ys : List ℕ) → P x → Each P ys → Each P (insert before x ys)
  Each-insert P x [] p v = (p, tt)
  Each-insert P x (y ∷ ys) p v = elim (Bool-cases (before y x)) [
    | inl e ↦ subst (Each P) (sym (past x y ys e)) (v.0, Each-insert P x ys p v.1)
    | inr e ↦ subst (Each P) (sym (here x y ys e)) (p, v)
  ]

  module _ (o : IsOrder before) where
    AtMost-trans : (x y z : ℕ) → AtMost before x y → AtMost before y z → AtMost before x z
    AtMost-trans x y z (inl e) (inl f) = inl (o.trans x y z e f)
    AtMost-trans x y z (inl e) (inr f) = inl (subst (λ w. before x w ≡ true) f e)
    AtMost-trans x y z (inr e) v = subst (λ w. AtMost before w z) (sym e) v

    AtMost-flip : (x y : ℕ) → before y x ≡ false → AtMost before x y
    AtMost-flip x y e = elim (o.total x y) [
      | inl f ↦ inl f
      | inr (inl f) ↦ absurd (true≢false (sym f ∙ e))
      | inr (inr f) ↦ inr f
    ]

    insert-Ordered :
        (x : ℕ) (ys : List ℕ)
        → Ordered (AtMost before) ys
        → Ordered (AtMost before) (insert before x ys)
    insert-Ordered x [] v = (tt, tt)
    insert-Ordered x (y ∷ ys) v = elim (Bool-cases (before y x)) [
      | inl e ↦
          subst (Ordered (AtMost before)) (sym (past x y ys e))
            (Each-insert (AtMost before y) x ys (inl e) v.0, insert-Ordered x ys v.1)
      | inr e ↦
          let first = AtMost-flip x y e in
          subst (Ordered (AtMost before)) (sym (here x y ys e))
            ((first, Each-map ys (λ z w. AtMost-trans x y z first w) v.0), v)
    ]

    insertion_sort-Ordered : (xs : List ℕ) → Ordered (AtMost before) (insertion_sort before xs)
    insertion_sort-Ordered [] = tt
    insertion_sort-Ordered (x ∷ xs) =
        insert-Ordered x (insertion_sort before xs) (insertion_sort-Ordered xs)

pub insertion_sort-IsQsort : IsQsort insertion_sort
insertion_sort-IsQsort = record {
  perm = λ before xs. insertion_sort-Perm before xs;
  sorts = λ before xs o. insertion_sort-Ordered before o xs;
}
