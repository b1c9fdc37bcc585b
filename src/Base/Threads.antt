-- ===== src/Base/Threads.antt =====
-- Threads as a family over their indices: how many of the first `n` are at a point of their
-- program, with one thread moved.
use Prim.Native.Nat.{ℕ, zero, suc, ◌+◌, ◌≤◌, ◌<◌}
use mathlib.Core.Path.{◌≡◌, refl}
use mathlib.Core.Logic.{◌≢◌}
use native.Mathlib.Decide.{dec_lt, ℕ_discrete}
use native.Mathlib.Omega.{arith}
use ia_operating_systems.Base.Maps.{update}

module _ {ℓ} {A : Type ℓ} (weight : A → ℕ) where
  -- The weights of the first `n` threads, added up.
  unfoldable pub tally : ℕ → (ℕ → A) → ℕ
  tally zero f = 0
  tally (suc n) f = tally n f + weight (f n)

  tally-update_above :
      (n : ℕ) (f : ℕ → A) (i : ℕ) (a : A) → n ≤ i → tally n (update f i a) ≡ tally n f
  unfolding tally
  tally-update_above zero f i a h = refl
  tally-update_above (suc n) f i a h = ground (arith, tally-update_above n f i a)

  pub tally-update :
      (n : ℕ) (f : ℕ → A) (i : ℕ) (a : A)
      → i < n
      → tally n (update f i a) + weight (f i) ≡ tally n f + weight a
  unfolding tally
  tally-update zero f i a h = absurd (omega arith)
  tally-update (suc n) f i a h = elim (ℕ_discrete i n) [
    | yes last ↦ ground (arith, tally-update_above n f i a)
    | no below ↦ ground (arith, tally-update n f i a)
  ]

  pub weight-le-tally : (n : ℕ) (f : ℕ → A) (i : ℕ) → i < n → weight (f i) ≤ tally n f
  unfolding tally
  weight-le-tally zero f i h = absurd (omega arith)
  weight-le-tally (suc n) f i h = elim (ℕ_discrete i n) [
    | yes last ↦ ground arith
    | no below ↦ omega (arith, weight-le-tally n f i (omega arith))
  ]

  weights_below :
      (n : ℕ) (f : ℕ → A) (i j : ℕ) → i < j → j < n → weight (f i) + weight (f j) ≤ tally n f
  unfolding tally
  weights_below zero f i j h k = absurd (omega arith)
  weights_below (suc n) f i j h k = elim (ℕ_discrete j n) [
    | yes last ↦ ground (arith, weight-le-tally n f i)
    | no below ↦ omega (arith, weights_below n f i j h (omega arith))
  ]

  -- Two threads count twice.
  pub two-weights-le-tally :
      (n : ℕ) (f : ℕ → A) (i j : ℕ)
      → i ≢ j
      → i < n
      → j < n
      → weight (f i) + weight (f j) ≤ tally n f
  two-weights-le-tally n f i j ne h k = elim (dec_lt i j) [
    | yes before ↦ weights_below n f i j before k
    | no after ↦ omega (arith, weights_below n f j i (omega arith) h)
  ]

  pub tally-zero : (n : ℕ) (f : ℕ → A) → ((i : ℕ) → i < n → weight (f i) ≡ 0) → tally n f ≡ 0
  unfolding tally
  tally-zero zero f h = refl
  tally-zero (suc n) f h =
      omega (arith, tally-zero n f (λ i lt. h i (omega arith)), h n (omega arith))

  -- A positive tally has a thread that counts.
  pub tally_witness : (n : ℕ) (f : ℕ → A) → 1 ≤ tally n f → (i : ℕ) × (i < n) × (1 ≤ weight (f i))
  unfolding tally
  tally_witness zero f h = absurd (omega arith)
  tally_witness (suc n) f h = elim (dec_lt (weight (f n)) 1) [
    | yes none_here ↦ let (i, lt, w) = tally_witness n f (omega arith) in (i, omega arith, w)
    | no here ↦ (n, omega arith, omega arith)
  ]

  -- If every thread counts, the tally is at least their number.
  pub tally-full : (n : ℕ) (f : ℕ → A) → ((i : ℕ) → i < n → 1 ≤ weight (f i)) → n ≤ tally n f
  unfolding tally
  tally-full zero f h = omega arith
  tally-full (suc n) f h =
      omega (arith, tally-full n f (λ i lt. h i (omega arith)), h n (omega arith))
