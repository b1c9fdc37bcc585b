-- ===== src/Disksim/Lists.antt =====
-- Lists of indices: the runs that a loop picks.
use mathlib.Core.List.{reverse, reverse-cons, Perm, perm_middle, append-nil}
use mathlib.Core.List.Perm
use ia_operating_systems.Base.{
  Each, Ordered, Each-map, ℕ, ◌≡◌, inl, inr, Bool, true, false, not, List, [], ◌∷◌, ◌++◌, refl, ap,
  sym, ◌∙◌, subst, Bool-cases,
}
use ia_operating_systems.Disksim.Schedule.{pick}

module _ (test : ℕ → Bool) where
  pick_yes : (x : ℕ) (xs : List ℕ) → test x ≡ true → pick test (x ∷ xs) ≡ x ∷ pick test xs
  pick_yes x xs e = rw e refl

  pick_no : (x : ℕ) (xs : List ℕ) → test x ≡ false → pick test (x ∷ xs) ≡ pick test xs
  pick_no x xs e = rw e refl

  pub Each-pick :
      (P : ℕ → Type 0) (xs : List ℕ) → Each P xs → Each (λ x. P x × (test x ≡ true)) (pick test xs)
  Each-pick P [] v = tt
  Each-pick P (x ∷ xs) v = elim (Bool-cases (test x)) [
    | inl e ↦
        subst (Each (λ x. P x × (test x ≡ true))) (sym (pick_yes x xs e))
          ((v.0, e), Each-pick P xs v.1)
    | inr e ↦ subst (Each (λ x. P x × (test x ≡ true))) (sym (pick_no x xs e)) (Each-pick P xs v.1)
  ]

  pub Ordered-pick : (R : ℕ → ℕ → Type 0) (xs : List ℕ) → Ordered R xs → Ordered R (pick test xs)
  Ordered-pick R [] v = tt
  Ordered-pick R (x ∷ xs) v = elim (Bool-cases (test x)) [
    | inl e ↦
        subst (Ordered R) (sym (pick_yes x xs e))
          (Each-map (pick test xs) (λ y w. w.0) (Each-pick (R x) xs v.0), Ordered-pick R xs v.1)
    | inr e ↦ subst (Ordered R) (sym (pick_no x xs e)) (Ordered-pick R xs v.1)
  ]

  pub pick-append : (xs ys : List ℕ) → pick test (xs ++ ys) ≡ pick test xs ++ pick test ys
  pick-append [] ys = refl
  pick-append (x ∷ xs) ys = elim (Bool-cases (test x)) [
    | inl e ↦ rw (e) (ap (λ zs. x ∷ zs) (pick-append xs ys))
    | inr e ↦ rw (e) (pick-append xs ys)
  ]

  pub Perm-pick-reverse : (xs : List ℕ) → Perm (pick test (reverse xs)) (pick test xs)
  Perm-pick-reverse [] = Perm.rfl
  Perm-pick-reverse (x ∷ xs) =
      let turned : pick test (reverse (x ∷ xs)) ≡ pick test (reverse xs) ++ pick test (x ∷ []) =
        ap (pick test) (reverse-cons x xs) ∙ pick-append (reverse xs) (x ∷ []) in
      subst (λ ys. Perm ys (pick test (x ∷ xs))) (sym turned)
        (elim (Bool-cases (test x)) [
          | inl e ↦ rw e (
              Perm.trans (Perm.append_right (x ∷ []) (Perm-pick-reverse xs)) (
                subst (λ ys. Perm (pick test xs ++ x ∷ []) (x ∷ ys)) (append-nil (pick test xs))
                  (perm_middle (pick test xs) [])))
          | inr e ↦ rw e (
              subst (λ ys. Perm ys (pick test xs)) (sym (append-nil (pick test (reverse xs))))
                (Perm-pick-reverse xs))
        ])

-- What passes a test and what fails it, together, is the whole list.
pub Perm-pick :
    (p q : ℕ → Bool) (xs : List ℕ) → ((x : ℕ) → q x ≡ not (p x)) → Perm (pick p xs ++ pick q xs) xs
Perm-pick p q [] f = Perm.rfl
Perm-pick p q (x ∷ xs) f = elim (Bool-cases (p x)) [
  | inl e ↦ rw (e, no_too e) (Perm.cons x (Perm-pick p q xs f))
  | inr e ↦
      rw (e, yes_too e)
        (Perm.trans (perm_middle (pick p xs) (pick q xs)) (Perm.cons x (Perm-pick p q xs f)))
]
  where
    no_too : p x ≡ true → q x ≡ false
    no_too e = f x ∙ ap not e

    yes_too : p x ≡ false → q x ≡ true
    yes_too e = f x ∙ ap not e
