-- ===== src/Raid/State.antt =====
-- our-course/labs/lab06-io-storage/solutions/raidsim.c: the array's globals, the physical block
-- access with its I/O counters, and the XOR of blocks.
-- A cell (disk, row) is only ever read and written whole, as `bs` bytes, so the memory of a disk is
-- a map from rows to blocks, and a block gives its byte at each index (below `bs` when printed).
use ia_operating_systems.Base.{ℕ, ◌+◌, Bool, bit_xor, update}

pub data ParityMode : Type 0 where
  auto additive subtractive : ParityMode

abbrev pub Block : Type 0
Block = ℕ → ℕ

-- The static variables of the program. `level` is whatever number the script gave.
pub record Array : Type 0 where
  pub level : ℕ
  pub ndisks : ℕ
  pub chunk : ℕ
  pub rows : ℕ
  pub bs : ℕ
  pub parity_mode : ParityMode
  pub disk : ℕ → ℕ → Block
  pub failed : ℕ → Bool
  pub phys_reads : ℕ
  pub phys_writes : ℕ

-- `memset(b, val, bs)`
abbrev pub filled : ℕ → Block
filled val i = val

abbrev pub zeros : Block
zeros = filled 0

abbrev pub cell : Array → ℕ → ℕ → Block
cell a d row = a.disk d row

unfoldable pub phys_read : Array → ℕ → ℕ → Block × Array
phys_read a d row = (cell a d row, record a { phys_reads = a.phys_reads + 1 })

-- The disks with block `b` in one cell.
abbrev pub put : (ℕ → ℕ → Block) → ℕ → ℕ → Block → ℕ → ℕ → Block
put disk d row b = update disk d (update (disk d) row b)

unfoldable pub phys_write : Array → ℕ → ℕ → Block → Array
phys_write a d row b = record a { disk = put a.disk d row b; phys_writes = a.phys_writes + 1 }

unfoldable pub xor_into : Block → Block → Block
xor_into acc src i = bit_xor (acc i) (src i)
