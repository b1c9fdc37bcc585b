-- ===== src/Disksim/Qsort.antt =====
-- our-course/labs/lab06-io-storage/solutions/disksim.c: what is relied on of `qsort`, and the indices
-- sorted by it with `cmp_up`.
use mathlib.Core.List.{
  Mem, Perm, mem-cons_self, mem-cons_of_mem, not-mem-nil, eq-or-mem_of_mem-cons,
}
use mathlib.Core.Logic.Or
use native.Mathlib.Bridge.{le_prop}
use mathlib.Core.List.Perm
use ia_operating_systems.Base.{
  Each, Ordered, Ordered-map, ℕ, zero, suc, ◌+◌, ◌≤◌, ◌<◌, ◌≡◌, ◌⊎◌, inl, inr, Bool, true, List, [],
  ◌∷◌, arith, ap, dec_lt,
}
use ia_operating_systems.Disksim.State.{Stream}
use ia_operating_systems.Disksim.Schedule.{cyl_of, indices, cmp_up, sorted_up}

-- A comparison that orders any two things.
pub record IsOrder (before : ℕ → ℕ → Bool) : Type 0 where
  pub total : (x y : ℕ) → (before x y ≡ true) ⊎ (before y x ≡ true) ⊎ (x ≡ y)
  pub trans : (x y z : ℕ) → before x y ≡ true → before y z ≡ true → before x z ≡ true

abbrev pub AtMost : (ℕ → ℕ → Bool) → ℕ → ℕ → Type 0
AtMost before x y = (before x y ≡ true) ⊎ (x ≡ y)

-- By its documentation `qsort` rearranges an array, and orders it where the comparison is an order.
pub record IsQsort (qsort : (ℕ → ℕ → Bool) → List ℕ → List ℕ) : Type 0 where
  pub perm : (before : ℕ → ℕ → Bool) (xs : List ℕ) → Perm (qsort before xs) xs
  pub sorts :
      (before : ℕ → ℕ → Bool) (xs : List ℕ)
      → IsOrder before
      → Ordered (AtMost before) (qsort before xs)

pub tri : (x y : ℕ) → (x < y) ⊎ (y < x) ⊎ (x ≡ y)
tri x y = elim (dec_lt x y) [
  | yes lt ↦ inl lt
  | no ge ↦ elim (dec_lt y x) [ yes lt ↦ inr (inl lt) | no le ↦ inr (inr (omega arith)) ]
]

cmp_up-total : (s : Stream) (x y : ℕ) → (cmp_up s x y ≡ true) ⊎ (cmp_up s y x ≡ true) ⊎ (x ≡ y)
unfolding cmp_up
cmp_up-total s x y = elim (tri (cyl_of s x) (cyl_of s y)) [
  | inl lt ↦ inl (ground arith)
  | inr (inl gt) ↦ inr (inl (ground arith))
  | inr (inr e) ↦ elim (tri x y) [
    | inl lt ↦ inl (ground arith)
    | inr (inl gt) ↦ inr (inl (ground arith))
    | inr (inr f) ↦ inr (inr f)
  ]
]

pub cmp_up-IsOrder : (s : Stream) → IsOrder (cmp_up s)
unfolding cmp_up
cmp_up-IsOrder s = record { total = cmp_up-total s; trans = λ x y z e f. ground arith }

AtMost-cmp_up : (s : Stream) (x y : ℕ) → AtMost (cmp_up s) x y → cyl_of s x ≤ cyl_of s y
unfolding cmp_up
AtMost-cmp_up s x y (inl e) = ground arith
AtMost-cmp_up s x y (inr e) = omega (arith, ap (cyl_of s) e)

Each-of_mem : (P : ℕ → Type 0) (xs : List ℕ) → ((x : ℕ) → Mem x xs → P x) → Each P xs
Each-of_mem P [] f = tt
Each-of_mem P (x ∷ xs) f = (f x mem-cons_self, Each-of_mem P xs (λ y m. f y (mem-cons_of_mem x m)))

mem-indices : (x i n : ℕ) → Mem x (indices i n) → x < i + n
mem-indices x i zero m = absurd (not-mem-nil m)
mem-indices x i (suc n) m =
    Or.elim le_prop (eq-or-mem_of_mem-cons m) (λ e. omega arith)
      (λ w. omega (arith, mem-indices x (suc i) n w))

module _ {qsort : (ℕ → ℕ → Bool) → List ℕ → List ℕ} (q : IsQsort qsort) (s : Stream) where
  pub sorted_up-Perm : Perm (sorted_up qsort s) (indices 0 s.nreq)
  sorted_up-Perm = q.perm (cmp_up s) (indices 0 s.nreq)

  pub sorted_up-Ordered : Ordered (λ x y. cyl_of s x ≤ cyl_of s y) (sorted_up qsort s)
  sorted_up-Ordered =
      Ordered-map (sorted_up qsort s) (AtMost-cmp_up s)
        (q.sorts (cmp_up s) (indices 0 s.nreq) (cmp_up-IsOrder s))

  -- What holds of all requests in use holds along the sorted indices.
  pub Each-sorted_up : (P : ℕ → Type 0) → ((i : ℕ) → i < s.nreq → P i) → Each P (sorted_up qsort s)
  Each-sorted_up P f =
      Each-of_mem P (sorted_up qsort s)
        (λ x m. f x (omega (arith, mem-indices x 0 s.nreq ((Perm.mem_iff sorted_up-Perm).0 m))))
