-- ===== src/Base/Every.antt =====
-- What holds of each element of a list, and of every two in their order.
use mathlib.Core.Path.{sym, subst}
use mathlib.Core.List.{List, [], ◌∷◌, ◌++◌, reverse, reverse-cons}

abbrev pub Each {ℓ} : {A : Type ℓ} → (A → Type 0) → List A → Type 0
Each P [] = Unit {0}
Each P (x ∷ xs) = P x × Each P xs

-- Every element stands in relation to all that come after it.
abbrev pub Ordered {ℓ} : {A : Type ℓ} → (A → A → Type 0) → List A → Type 0
Ordered R [] = Unit {0}
Ordered R (x ∷ xs) = Each (R x) xs × Ordered R xs

module _ {ℓ} {A : Type ℓ} where
  pub Each-map : {P Q : A → Type 0} (xs : List A) → ((x : A) → P x → Q x) → Each P xs → Each Q xs
  Each-map [] f v = tt
  Each-map (x ∷ xs) f v = (f x v.0, Each-map xs f v.1)

  pub Each-append : (P : A → Type 0) (xs ys : List A) → Each P xs → Each P ys → Each P (xs ++ ys)
  Each-append P [] ys v w = w
  Each-append P (x ∷ xs) ys v w = (v.0, Each-append P xs ys v.1 w)

  pub Each-reverse : (P : A → Type 0) (xs : List A) → Each P xs → Each P (reverse xs)
  Each-reverse P [] v = tt
  Each-reverse P (x ∷ xs) v =
      subst (Each P) (sym (reverse-cons x xs))
        (Each-append P (reverse xs) (x ∷ []) (Each-reverse P xs v.1) (v.0, tt))

  pub Ordered-map :
      {R S : A → A → Type 0} (xs : List A)
      → ((x y : A) → R x y → S x y)
      → Ordered R xs
      → Ordered S xs
  Ordered-map [] f v = tt
  Ordered-map (x ∷ xs) f v = (Each-map xs (f x) v.0, Ordered-map xs f v.1)

  pub Ordered-snoc :
      (R : A → A → Type 0) (xs : List A) (y : A)
      → Ordered R xs
      → Each (λ x. R x y) xs
      → Ordered R (xs ++ y ∷ [])
  Ordered-snoc R [] y v w = (tt, tt)
  Ordered-snoc R (x ∷ xs) y v w =
      (Each-append (R x) xs (y ∷ []) v.0 (w.0, tt), Ordered-snoc R xs y v.1 w.1)

  pub Ordered-reverse :
      (R : A → A → Type 0) (xs : List A) → Ordered R xs → Ordered (λ x y. R y x) (reverse xs)
  Ordered-reverse R [] v = tt
  Ordered-reverse R (x ∷ xs) v = subst (Ordered (λ x y. R y x)) (sym (reverse-cons x xs)) (
      Ordered-snoc (λ x y. R y x) (reverse xs) x (Ordered-reverse R xs v.1)
        (Each-reverse (R x) xs v.0))
