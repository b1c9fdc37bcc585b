-- ===== src/Raid/Xor.antt =====
-- Blocks under `xor_into` form a commutative group in which each is its own inverse; sums of the
-- blocks of a row, and what a change of one disk does to them.
use mathlib.Core.Path.{ap₂, ◌≡⟨◌⟩◌, ◌∎}
use ia_operating_systems.Base.{
  ℕ, zero, suc, ◌+◌, ◌<◌, ◌≡◌, refl, ap, sym, ◌∙◌, fun_ext, arith, bit_xor_assoc, bit_xor_comm,
  bit_xor_self, bit_xor-zero, zero-bit_xor, update, update_self, update_ne, leb, if◌then◌else◌,
  dec_lt, ◌≤◌,
}
use ia_operating_systems.Raid.State.{Block, zeros, xor_into}

pub xor_assoc : (x y z : Block) → xor_into (xor_into x y) z ≡ xor_into x (xor_into y z)
unfolding xor_into
xor_assoc x y z = fun_ext λ i. bit_xor_assoc (x i) (y i) (z i)

pub xor_comm : (x y : Block) → xor_into x y ≡ xor_into y x
unfolding xor_into
xor_comm x y = fun_ext λ i. bit_xor_comm (x i) (y i)

pub xor_self : (x : Block) → xor_into x x ≡ zeros
unfolding xor_into
xor_self x = fun_ext λ i. bit_xor_self (x i)

pub xor-zeros : (x : Block) → xor_into x zeros ≡ x
unfolding xor_into
xor-zeros x = fun_ext λ i. bit_xor-zero (x i)

pub zeros-xor : (x : Block) → xor_into zeros x ≡ x
unfolding xor_into
zeros-xor x = fun_ext λ i. zero-bit_xor (x i)

pub xor_cancel : (x y : Block) → xor_into (xor_into x y) y ≡ x
xor_cancel x y = rw (xor_assoc, xor_self, xor-zeros)

pub xor_right_comm : (x y z : Block) → xor_into (xor_into x y) z ≡ xor_into (xor_into x z) y
xor_right_comm x y z = rw (xor_assoc x y z, xor_comm y z, ← xor_assoc x z y)

-- Two blocks whose sum is zero are equal.
pub xor_eq : (x y : Block) → xor_into x y ≡ zeros → x ≡ y
xor_eq x y h =
    x
    ≡⟨ sym (xor_cancel x y) ⟩ xor_into (xor_into x y) y
    ≡⟨ ap (λ b. xor_into b y) h ⟩ xor_into zeros y
    ≡⟨ zeros-xor y ⟩ y ∎

-- The sum of the first `n` blocks of a family.
unfoldable pub xor_sum : ℕ → (ℕ → Block) → Block
xor_sum zero f = zeros
xor_sum (suc n) f = xor_into (xor_sum n f) (f n)

pub xor_sum-suc : (n : ℕ) (f : ℕ → Block) → xor_sum (suc n) f ≡ xor_into (xor_sum n f) (f n)
unfolding xor_sum
xor_sum-suc n f = refl

pub xor_sum-zero : (f : ℕ → Block) → xor_sum 0 f ≡ zeros
unfolding xor_sum
xor_sum-zero f = refl

pub xor_sum_congr :
    (n : ℕ) (f g : ℕ → Block) → ((i : ℕ) → i < n → f i ≡ g i) → xor_sum n f ≡ xor_sum n g
unfolding xor_sum
xor_sum_congr zero f g h = refl
xor_sum_congr (suc n) f g h =
    rw (xor_sum_congr n f g (λ i lt. h i (omega arith)), h n (omega arith))

-- The new value takes the place of the old one in the sum.
pub xor_sum-update :
    (n : ℕ) (f : ℕ → Block) (k : ℕ) (b : Block)
    → k < n
    → xor_sum n (update f k b) ≡ xor_into (xor_into (xor_sum n f) (f k)) b
unfolding xor_sum
xor_sum-update zero f k b h = absurd (omega arith)
xor_sum-update (suc n) f k b h = elim (dec_lt k n) [
  | yes below ↦ rw (
    xor_sum-update n f k b below,
    update_ne f k b n (omega arith),
    xor_right_comm (xor_into (xor_sum n f) (f k)) b (f n),
    xor_right_comm (xor_sum n f) (f k) (f n),
  )
  | no last ↦
      rw (xor_sum_congr n (update f k b) f (λ i lt. update_ne f k b i (omega arith)), show last)
        (rw (update_self f n b, xor_cancel (xor_sum n f) (f n)))
]
  where
    show : ¬ (k < n) → k ≡ n
    show last = omega arith

-- Column `col` stands on the disk after it from the stepped-over disk `p` on.
abbrev pub step_over : ℕ → ℕ → ℕ
step_over p col = if leb p col then col + 1 else col

step_over_below : {p col : ℕ} → col < p → step_over p col ≡ col
step_over_below h = ground arith

step_over_above : {p col : ℕ} → p ≤ col → step_over p col ≡ suc col
step_over_above h = ground arith

-- The columns that step over disk `p`, and disk `p`, make up all the disks.
pub xor_sum-step_over :
    (n p : ℕ) (f : ℕ → Block)
    → p ≤ n
    → xor_into (xor_sum n (λ col. f (step_over p col))) (f p) ≡ xor_sum (suc n) f
unfolding xor_sum
xor_sum-step_over zero p f h = let e : p ≡ 0 = omega arith in rw e
xor_sum-step_over (suc n) p f h = elim (dec_lt n p) [
  | yes last ↦
      ap₂ xor_into
        (xor_sum_congr (suc n) (λ col. f (step_over p col)) f
          (λ i lt. ap f (step_over_below (omega arith))))
        (ap f (omega arith))
  | no inner ↦
      xor_right_comm (xor_sum n (λ col. f (step_over p col))) (f (step_over p n)) (f p)
      ∙ ap₂ xor_into (xor_sum-step_over n p f (omega arith)) (ap f (step_over_above (omega arith)))
]
