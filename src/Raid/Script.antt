-- ===== src/Raid/Script.antt =====
-- our-course/labs/lab06-io-storage/solutions/raidsim.c: the set-up of an array, the checksum, and
-- the commands of a script once `sscanf` has split the line. Numbers of the script are taken from 0
-- on: a negative disk count, chunk, row count or block size fails the tests that 0 fails.
use ia_operating_systems.Base.{
  ℕ, zero, suc, ◌+◌, ◌*◌, ◌%◌, ◌^◌, Bool, true, false, not, ◌&&◌, ◌||◌, ◌==◌, ltb, leb,
  if◌then◌else◌, Option, none, some, List, [], ◌∷◌, bit_xor,
}
use ia_operating_systems.Raid.State.{Array, Block, ParityMode, auto, zeros, cell}
use ia_operating_systems.Raid.Geometry.{
  Place, parity_disk_of, has_parity, map_data, capacity_blocks,
}
use ia_operating_systems.Raid.Access.{logical_read, logical_write, rebuild, set_failed}

abbrev pub max_disks : ℕ
max_disks = 32

abbrev pub max_rows : ℕ
max_rows = 4096

abbrev pub max_bs : ℕ
max_bs = 4096

-- The tests of `do_init`, any of which refuses the array.
unfoldable pub init_refused : ℕ → ℕ → ℕ → ℕ → ℕ → Bool
init_refused level ndisks chunk rows bs =
    (ltb ndisks 1 || ltb max_disks ndisks)
    || (ltb rows 1 || ltb max_rows rows)
    || (ltb bs 1 || ltb max_bs bs)
    || (ltb chunk 1 || not (rows % chunk == 0))
    || ((level == 4 || level == 5) && ltb ndisks 2)
    || (level == 1 && ltb ndisks 2)

-- Fresh disks of zeros, none failed; what lies past the new disks is not touched.
abbrev pub fresh_array : Array → ℕ → ℕ → ℕ → ℕ → ℕ → Array
fresh_array a level ndisks chunk rows bs = record {
  level = level;
  ndisks = ndisks;
  chunk = chunk;
  rows = rows;
  bs = bs;
  parity_mode = auto;
  disk = λ d. if ltb d ndisks then (λ row. zeros) else a.disk d;
  failed = λ d. if ltb d ndisks then false else a.failed d;
  phys_reads = 0;
  phys_writes = 0;
}

-- A refused set-up leaves the array alone.
unfoldable pub do_init : Array → ℕ → ℕ → ℕ → ℕ → ℕ → Bool × Array
do_init a level ndisks chunk rows bs =
    if init_refused level ndisks chunk rows bs
    then (false, a)
    else (true, fresh_array a level ndisks chunk rows bs)

-- 64-bit FNV-1a.
abbrev pub fnv_step : ℕ → ℕ → ℕ
fnv_step h x = bit_xor h x * 1099511628211 % 2 ^ 64

unfoldable pub hash_block : Block → ℕ → ℕ → ℕ
hash_block b zero h = h
hash_block b (suc n) h = fnv_step (hash_block b n h) (b n)

unfoldable pub checksum_blocks : Array → ℕ → ℕ × Array
checksum_blocks a zero = (1469598103934665603, a)
checksum_blocks a (suc n) =
    let (h, a1) = checksum_blocks a n in
    let (out, a2) = logical_read a1 n in
    elim out [ none ↦ (fnv_step h 0xDEADBEEFCAFEBABE, a2) | some b ↦ (hash_block b a.bs h, a2) ]

unfoldable pub checksum : Array → ℕ × Array
checksum a = checksum_blocks a (capacity_blocks a)

-- The byte that `fill` writes to a block.
abbrev pub pattern_byte : ℕ → ℕ → ℕ
pattern_byte lba seed = (lba * 2654435761 + seed) % 2 ^ 64 % 256

unfoldable pub fill_blocks : Array → ℕ → ℕ → Array
fill_blocks a seed zero = a
fill_blocks a seed (suc n) = (logical_write (fill_blocks a seed n) n (pattern_byte n seed)).1

pub data Command : Type 0 where
  init : (level ndisks chunk rows bs : ℕ) → Command
  parity : ParityMode → Command
  capacity : Command
  place : (lba : ℕ) → Command
  fill : (seed : ℕ) → Command
  write : (lba val : ℕ) → Command
  read : (lba : ℕ) → Command
  readraw : (d row : ℕ) → Command
  iostat : Command
  reset : Command
  fail : (d : ℕ) → Command
  rebuild_disk : (d : ℕ) → Command
  hash : Command

-- What a command prints, as a value.
pub data Reply : Type 0 where
  done : Reply
  init_failed : Reply
  out_of_range : Reply
  lost : Reply
  block : Block → Reply
  number : ℕ → Reply
  place_at : Place → Option ℕ → Reply
  counts : (reads writes : ℕ) → Reply

abbrev reply_read : Option Block × Array → Reply × Array
reply_read (none, a) = (lost, a)
reply_read (some b, a) = (block b, a)

abbrev reply_number : ℕ × Array → Reply × Array
reply_number (n, a) = (number n, a)

-- One round of the loop of `run_script`.
unfoldable pub exec : Array → Command → Reply × Array
exec a (init level ndisks chunk rows bs) =
    let (good, a') = do_init a level ndisks chunk rows bs in
    (if good then done else init_failed, a')
exec a (parity m) = (done, record a { parity_mode = m })
exec a capacity = (number (capacity_blocks a), a)
exec a (place lba) =
    let p = map_data a lba in
    (place_at p (if has_parity a then some (parity_disk_of a p.stripe) else none), a)
exec a (fill seed) = (number (capacity_blocks a), fill_blocks a seed (capacity_blocks a))
exec a (write lba val) =
    let (good, a') = logical_write a lba (val % 256) in (if good then done else lost, a')
exec a (read lba) = reply_read (logical_read a lba)
exec a (readraw d row) =
    if leb a.ndisks d || leb a.rows row
    then (out_of_range, a)
    else if a.failed d
    then (lost, a)
    else (block (cell a d row), a)
exec a iostat = (counts a.phys_reads a.phys_writes, a)
exec a reset = (done, record a { phys_reads = 0; phys_writes = 0 })
exec a (fail d) = if leb a.ndisks d then (out_of_range, a) else (done, set_failed a d true)
exec a (rebuild_disk d) = if leb a.ndisks d then (out_of_range, a) else reply_number (rebuild a d)
exec a hash = reply_number (checksum a)

-- The loop of `run_script`, with the replies in order.
unfoldable pub run_script : Array → List Command → List Reply × Array
run_script a [] = ([], a)
run_script a (c ∷ cs) = let (r, a1) = exec a c in let (rs, a2) = run_script a1 cs in (r ∷ rs, a2)
