-- ===== src/Raid/Columns.antt =====
-- our-course/labs/lab06-io-storage/solutions/raidsim.c: the loops over the columns of a stripe add
-- up the blocks of its row. With one disk left out, that is the block of this disk.
use ia_operating_systems.Base.{
  ℕ, zero, suc, ◌+◌, ◌-◌, ◌≤◌, ◌<◌, ◌≡◌, ◌≢◌, true, false, ◌==◌, if◌then◌else◌, arith, ap, ◌∙◌,
  some, update, ℕ_discrete,
}
use ia_operating_systems.Raid.State.{Array, Block, zeros, cell, phys_read, xor_into}
use ia_operating_systems.Raid.Geometry.{data_disks, parity_disk_of, has_parity, column_disk}
use ia_operating_systems.Raid.Access.{then_disk, reconstruct_disk, reconstruct_columns, reconstruct}
use ia_operating_systems.Raid.Placement.{IsArray, parity_disk_of-lt}
use ia_operating_systems.Raid.Xor.{
  xor_sum, xor_sum_congr, xor_sum-update, xor_sum-step_over, step_over, xor-zeros, zeros-xor,
}

-- The blocks of a row, by disk.
abbrev pub row_of : Array → ℕ → ℕ → Block
row_of a row d = cell a d row

-- The blocks of a row, with zeros for one disk.
abbrev pub row_without : Array → ℕ → ℕ → ℕ → Block
row_without a row want = update (row_of a row) want zeros

-- Every disk but `want` is live.
abbrev pub LiveBut : Array → ℕ → Type 0
LiveBut a want = (x : ℕ) → x < a.ndisks → x ≢ want → a.failed x ≡ false

-- In each row of the array the blocks add up to zero: the parity block is the sum of the data.
pub record HasParity (a : Array) : Type 0 where
  pub array : IsArray a
  pub level : has_parity a ≡ true
  pub sums : (row : ℕ) → row < a.rows → xor_sum a.ndisks (row_of a row) ≡ zeros

pub data_disks-eq : {a : Array} → IsArray a → has_parity a ≡ true → suc (data_disks a) ≡ a.ndisks
unfolding data_disks
data_disks-eq {a} v h = ground (arith, v.disks)

four_parity : (a : Array) (s : ℕ) → a.level ≡ 4 → parity_disk_of a s ≡ a.ndisks - 1
unfolding parity_disk_of
four_parity a s h = ground arith

pub column_disk-eq :
    {a : Array} (s col : ℕ)
    → IsArray a
    → has_parity a ≡ true
    → col < data_disks a
    → column_disk a s col ≡ step_over (parity_disk_of a s) col
unfolding column_disk data_disks
column_disk-eq {a} s col v h lt = ground (arith, four_parity a s)

pub column_disk-lt :
    {a : Array} (s col : ℕ)
    → IsArray a
    → has_parity a ≡ true
    → col < data_disks a
    → column_disk a s col < a.ndisks
unfolding column_disk data_disks
column_disk-lt {a} s col v h lt = ground arith

pub column_disk-ne :
    {a : Array} (s col : ℕ)
    → IsArray a
    → has_parity a ≡ true
    → col < data_disks a
    → column_disk a s col ≢ parity_disk_of a s
column_disk-ne {a} s col v h lt = ground (arith, column_disk-eq s col v h lt)

-- The data columns and the parity disk make up the row.
pub columns_sum :
    {a : Array} (s : ℕ) (f : ℕ → Block)
    → IsArray a
    → has_parity a ≡ true
    → xor_into (xor_sum (data_disks a) (λ col. f (column_disk a s col))) (f (parity_disk_of a s))
      ≡ xor_sum a.ndisks f
columns_sum {a} s f v h =
    ap (λ b. xor_into b (f (parity_disk_of a s)))
      (xor_sum_congr (data_disks a) (λ col. f (column_disk a s col))
        (λ col. f (step_over (parity_disk_of a s) col)) (λ i lt. ap f (column_disk-eq s i v h lt)))
    ∙ xor_sum-step_over (data_disks a) (parity_disk_of a s) f
        (omega (arith, data_disks-eq v h, parity_disk_of-lt s v))
    ∙ ap (λ n. xor_sum n f) (data_disks-eq v h)

-- A row whose blocks add up to zero gives each block as the sum of the others.
pub row_without-sum :
    (a : Array) (row want : ℕ)
    → xor_sum a.ndisks (row_of a row) ≡ zeros
    → want < a.ndisks
    → xor_sum a.ndisks (row_without a row want) ≡ cell a want row
row_without-sum a row want even w =
    rw (xor_sum-update a.ndisks (row_of a row) want zeros w, even, zeros-xor, xor-zeros)

-- The reads that disk `x` costs when disk `want` is left out.
abbrev pub cost_but : ℕ → ℕ → ℕ
cost_but want x = if x == want then 0 else 1

-- The reads that the columns below `n` cost.
unfoldable pub others : Array → ℕ → ℕ → ℕ → ℕ
others a want stripe zero = 0
others a want stripe (suc n) = others a want stripe n + cost_but want (column_disk a stripe n)

-- The array after some reads.
abbrev pub read_more : Array → ℕ → Array
read_more a k = record a { phys_reads = a.phys_reads + k }

pub read_more-zero : (a : Array) → read_more a 0 ≡ a
read_more-zero a = ground arith

reconstruct_disk_lem :
    (a : Array) (want row phys : ℕ) (acc : Block) (k : ℕ)
    → (phys ≢ want → a.failed phys ≡ false)
    → reconstruct_disk (read_more a k) want row phys acc
      ≡ (some (xor_into acc (row_without a row want phys)), read_more a (k + cost_but want phys))
unfolding reconstruct_disk phys_read
reconstruct_disk_lem a want row phys acc k live = elim (ℕ_discrete phys want) [
  | yes same ↦ ground (arith, xor-zeros acc)
  | no other ↦ ground (arith, live other)
]

pub reconstruct_columns_lem :
    {a : Array} (want row s n : ℕ)
    → IsArray a
    → has_parity a ≡ true
    → LiveBut a want
    → n ≤ data_disks a
    → reconstruct_columns a want row s n ≡ (
      some (xor_sum n (λ col. row_without a row want (column_disk a s col))),
      read_more a (others a want s n),
    )
unfolding reconstruct_columns others xor_sum
reconstruct_columns_lem {a} want row s zero v h live le = rw (read_more-zero a)
reconstruct_columns_lem {a} want row s (suc n) v h live le =
    ap (then_disk want row (column_disk a s n))
      (reconstruct_columns_lem want row s n v h live (omega arith))
    ∙ reconstruct_disk_lem a want row (column_disk a s n)
        (xor_sum n (λ col. row_without a row want (column_disk a s col))) (others a want s n)
        (live (column_disk a s n) (column_disk-lt s n v h le))

-- With every other disk live, `reconstruct` returns the sum of the blocks of the other disks and
-- changes nothing but the count of reads.
pub reconstruct_lem :
    {a : Array} (want row s : ℕ)
    → IsArray a
    → has_parity a ≡ true
    → LiveBut a want
    → reconstruct a want row s ≡ (
      some (xor_sum a.ndisks (row_without a row want)),
      read_more a (others a want s (data_disks a) + cost_but want (parity_disk_of a s)),
    )
unfolding reconstruct
reconstruct_lem {a} want row s v h live = rw h (
    ap (then_disk want row (parity_disk_of a s))
      (reconstruct_columns_lem want row s (data_disks a) v h live (omega arith))
    ∙ reconstruct_disk_lem a want row (parity_disk_of a s)
        (xor_sum (data_disks a) (λ col. row_without a row want (column_disk a s col)))
        (others a want s (data_disks a)) (live (parity_disk_of a s) (parity_disk_of-lt s v))
    ∙ ap
        (λ b. (
          some b,
          read_more a (others a want s (data_disks a) + cost_but want (parity_disk_of a s)),
        ))
        (columns_sum s (row_without a row want) v h))
