-- ===== src/Raid/Access.antt =====
-- our-course/labs/lab06-io-storage/solutions/raidsim.c: reconstruction of a block from its stripe,
-- logical reads and writes, and the rebuild of a failed disk.
-- A function that touches the counters or the disks returns the new array beside its result; the
-- C return value -1 is `none` or `false`. A counted loop `for (i = 0; i < n; i++)` is a recursion
-- whose case `suc n` runs round `n` after the rounds below it.
use ia_operating_systems.Base.{
  ℕ, zero, suc, ◌+◌, ◌-◌, ◌/◌, Bool, true, false, not, ◌||◌, ◌==◌, leb, if◌then◌else◌, Option, none,
  some, update,
}
use ia_operating_systems.Raid.State.{
  Array, Block, auto, additive, subtractive, filled, zeros, phys_read, phys_write, xor_into,
}
use ia_operating_systems.Raid.Geometry.{
  data_disks, parity_disk_of, has_parity, column_disk, map_data,
}

-- One round of the loops of `reconstruct` over the disks: disk `phys` is added up unless it is the
-- wanted one, and a failed disk ends the loop.
unfoldable pub reconstruct_disk : Array → ℕ → ℕ → ℕ → Block → Option Block × Array
reconstruct_disk a want row phys acc =
    if phys == want
    then (some acc, a)
    else if a.failed phys
    then (none, a)
    else (let (tmp, a') = phys_read a phys row in (some (xor_into acc tmp), a'))

-- The same after the rounds before it, if they did not end the loop.
abbrev pub then_disk : ℕ → ℕ → ℕ → Option Block × Array → Option Block × Array
then_disk want row phys (none, a) = (none, a)
then_disk want row phys (some acc, a) = reconstruct_disk a want row phys acc

-- The loop of `reconstruct` over the data columns below the last argument.
unfoldable pub reconstruct_columns : Array → ℕ → ℕ → ℕ → ℕ → Option Block × Array
reconstruct_columns a want row stripe zero = (some zeros, a)
reconstruct_columns a want row stripe (suc n) =
    then_disk want row (column_disk a stripe n) (reconstruct_columns a want row stripe n)

unfoldable pub reconstruct : Array → ℕ → ℕ → ℕ → Option Block × Array
reconstruct a want row stripe =
    let columns = reconstruct_columns a want row stripe (data_disks a) in
    if has_parity a then then_disk want row (parity_disk_of a stripe) columns else columns

-- One round of the loop of `parity_recompute`.
abbrev pub add_disk : ℕ → ℕ → Block × Array → Block × Array
add_disk row phys (acc, a) = let (tmp, a') = phys_read a phys row in (xor_into acc tmp, a')

unfoldable pub recompute_columns : Array → ℕ → ℕ → ℕ → Block × Array
recompute_columns a stripe row zero = (zeros, a)
recompute_columns a stripe row (suc n) =
    add_disk row (column_disk a stripe n) (recompute_columns a stripe row n)

unfoldable pub parity_recompute : Array → ℕ → ℕ → Array
parity_recompute a stripe row =
    let (acc, a') = recompute_columns a stripe row (data_disks a) in
    phys_write a' (parity_disk_of a stripe) row acc

-- The first disk at or after `i` that `skip` does not rule out, among the next `n`.
unfoldable pub first_disk : (ℕ → Bool) → ℕ → ℕ → Option ℕ
first_disk skip zero i = none
first_disk skip (suc n) i = let rest = first_disk skip n (i + 1) in if skip i then rest else some i

unfoldable pub logical_read : Array → ℕ → Option Block × Array
logical_read a lba =
    let p = map_data a lba in
    let mirror = first_disk a.failed a.ndisks 0 in
    if a.level == 1
    then elim mirror [
      | none ↦ (none, a)
      | some i ↦ let (b, a') = phys_read a i p.row in (some b, a')
    ]
    else if not (a.failed p.disk)
    then (let (b, a') = phys_read a p.disk p.row in (some b, a'))
    else if a.level == 0
    then (none, a)
    else reconstruct a p.disk p.row p.stripe

-- Level 1: the new data goes to every mirror below the last argument that has not failed.
unfoldable pub write_mirrors : Array → ℕ → Block → ℕ → Array
write_mirrors a row nd zero = a
write_mirrors a row nd (suc n) =
    let a' = write_mirrors a row nd n in if a'.failed n then a' else phys_write a' n row nd

-- One round of the additive loop: every data column but the written one is added up.
abbrev pub add_other : ℕ → ℕ → ℕ → Block × Array → Block × Array
add_other d row phys (par, a) =
    if phys == d then (par, a) else (let (old, a') = phys_read a phys row in (xor_into par old, a'))

unfoldable pub other_columns : Array → ℕ → ℕ → ℕ → ℕ → Block × Array
other_columns a d row stripe zero = (zeros, a)
other_columns a d row stripe (suc n) =
    add_other d row (column_disk a stripe n) (other_columns a d row stripe n)

-- `auto` takes the subtractive form when it costs no more I/O.
unfoldable pub use_subtractive : Array → Bool
use_subtractive a = elim a.parity_mode [
  | subtractive ↦ true
  | additive ↦ false
  | auto ↦ leb (2 + 2) (data_disks a - 1 + 2)
]

unfoldable pub write_subtractive : Array → ℕ → ℕ → ℕ → Block → Array
write_subtractive a d pdisk row nd =
    let (old_d, a1) = phys_read a d row in
    let (par, a2) = phys_read a1 pdisk row in
    phys_write (phys_write a2 d row nd) pdisk row (xor_into (xor_into par old_d) nd)

unfoldable pub write_additive : Array → ℕ → ℕ → ℕ → ℕ → Block → Array
write_additive a d pdisk row stripe nd =
    let (par, a1) = other_columns a d row stripe (data_disks a) in
    phys_write (phys_write a1 d row nd) pdisk row (xor_into par nd)

-- A write of levels 4 and 5 when the data disk or the parity disk has failed.
unfoldable pub write_degraded : Array → ℕ → ℕ → ℕ → ℕ → Block → Array
write_degraded a d pdisk row stripe nd =
    let a1 = if not (a.failed d) then phys_write a d row nd else a in
    if not (a.failed pdisk) then parity_recompute a1 stripe row else a1

unfoldable pub logical_write : Array → ℕ → ℕ → Bool × Array
logical_write a lba val =
    let p = map_data a lba in
    let nd = filled val in
    let pdisk = parity_disk_of a p.stripe in
    if a.level == 0
    then if a.failed p.disk then (false, a) else (true, phys_write a p.disk p.row nd)
    else if a.level == 1
    then (true, write_mirrors a p.row nd a.ndisks)
    else if a.failed p.disk || a.failed pdisk
    then (true, write_degraded a p.disk pdisk p.row p.stripe nd)
    else if use_subtractive a
    then (true, write_subtractive a p.disk pdisk p.row nd)
    else (true, write_additive a p.disk pdisk p.row p.stripe nd)

abbrev pub set_failed : Array → ℕ → Bool → Array
set_failed a d f = record a { failed = update a.failed d f }

-- A block lands on the replacement while it counts as live.
unfoldable pub write_replacement : Array → ℕ → ℕ → Block → Array
write_replacement a d row tmp = set_failed (phys_write (set_failed a d false) d row tmp) d true

-- A block that was reconstructed goes to the replacement.
abbrev pub keep_block : ℕ → ℕ → Option Block × Array → Array
keep_block d row (none, a) = a
keep_block d row (some tmp, a) = write_replacement a d row tmp

unfoldable pub rebuild_row : Array → ℕ → ℕ → Array
rebuild_row a d row =
    let src = first_disk (λ i. i == d || a.failed i) a.ndisks 0 in
    if a.level == 0
    then a
    else if a.level == 1
    then elim src [
      | none ↦ a
      | some s ↦ let (tmp, a') = phys_read a s row in write_replacement a' d row tmp
    ]
    else keep_block d row (reconstruct a d row (row / a.chunk))

unfoldable pub rebuild_rows : Array → ℕ → ℕ → Array
rebuild_rows a d zero = a
rebuild_rows a d (suc n) = rebuild_row (rebuild_rows a d n) d n

-- The result is the number of blocks read.
unfoldable pub rebuild : Array → ℕ → ℕ × Array
rebuild a d =
    let fresh = record a { disk = update a.disk d (λ row. zeros) } in
    let a' = rebuild_rows fresh d a.rows in
    if a.failed d then (a'.phys_reads - a.phys_reads, set_failed a' d false) else (0, a)
