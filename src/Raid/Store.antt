-- ===== src/Raid/Store.antt =====
-- our-course/labs/lab06-io-storage/solutions/raidsim.c: an array without failures is a store of
-- logical blocks.
use Prim.Native.Nat.{min}
use ia_operating_systems.Base.{
  ℕ, ◌+◌, ◌-◌, ◌/◌, ◌<◌, ◌≡◌, ◌≢◌, Bool, true, ◌==◌, ◌&&◌, if◌then◌else◌, arith, ap, ◌∙◌, sym, refl,
  ℕ_discrete, subst,
}
use ia_operating_systems.Raid.State.{Array, auto, filled, cell}
use ia_operating_systems.Raid.Geometry.{
  data_disks, parity_disk_of, has_parity, map_data, capacity_blocks, Place,
}
use ia_operating_systems.Raid.Access.{use_subtractive, logical_write}
use ia_operating_systems.Raid.Placement.{IsArray, map_data-disk, map_data_injective, data_disks_pos}
use ia_operating_systems.Raid.Columns.{HasParity, data_disks-eq}
use ia_operating_systems.Raid.Reads.{content, AllLive}
use ia_operating_systems.Raid.Writes.{
  after_write, logical_write_form, after_write-cell, after_write-HasParity, map_data-after_write,
}

-- The data cell of a block is not on the parity disk of another block's stripe in the same row.
cell-ne-parity :
    {a : Array} (i j : ℕ)
    → IsArray a
    → has_parity a ≡ true
    → (map_data a j).row ≡ (map_data a i).row
    → (map_data a j).disk ≢ parity_disk_of a (map_data a i).stripe
cell-ne-parity {a} i j v h same e = (map_data-disk j v).2 h (
    e
    ∙ ap (parity_disk_of a)
        ((map_data-disk i v).0 ∙ ap (λ r. r / a.chunk) (sym same) ∙ sym (map_data-disk j v).0))

same_cell :
    {a : Array} (i j : ℕ)
    → IsArray a
    → ((map_data a i).disk == (map_data a j).disk && (map_data a i).row == (map_data a j).row)
      ≡ (i == j)
same_cell {a} i j v = elim (ℕ_discrete i j) [
  | yes e ↦ rw e (ground arith)
  | no ne ↦ ground (arith, map_data_injective a i j v)
]

-- A write to an array of level 4 or 5 without failures succeeds, in the additive and in the
-- subtractive form alike: the written block has the new byte everywhere, every other block is what
-- it was, and each row still adds up to zero.
pub logical_write_lem :
    {a : Array} (lba val : ℕ)
    → HasParity a
    → AllLive a
    → lba < capacity_blocks a
    → let (done, a') = logical_write a lba val in
      (done ≡ true)
      × HasParity a'
      × ((i : ℕ) → content a' i ≡ (if lba == i then filled val else content a i))
logical_write_lem {a} lba val v live lt =
    subst
      (λ (r : Bool × Array).
        (r.0 ≡ true)
        × HasParity r.1
        × ((i : ℕ) → content r.1 i ≡ (if lba == i then filled val else content a i)))
      (sym (logical_write_form lba val v live lt))
      (
        refl,
        after_write-HasParity d row s (filled val) reads v (map_data-disk lba v.array).1
            ((map_data-disk lba v.array).2 v.level),
        stored,
      )
  where
    open (map_data a lba) use {disk as d, row, stripe as s}

    reads : ℕ
    reads = if use_subtractive a then 2 else data_disks a - 1

    stored :
        (i : ℕ)
        → content (after_write a d (parity_disk_of a s) row (filled val) reads) i
          ≡ (if lba == i then filled val else content a i)
    stored i =
        ap
          (λ (p : Place).
            cell (after_write a d (parity_disk_of a s) row (filled val) reads) p.disk p.row)
          (map_data-after_write a d (parity_disk_of a s) row (filled val) reads i)
        ∙ after_write-cell a d (parity_disk_of a s) row (filled val) reads (map_data a i).disk
            (map_data a i).row (cell-ne-parity lba i v.array v.level)
        ∙ ap (λ (b : Bool). if b then filled val else content a i) (same_cell lba i v.array)

-- With the mode `auto` such a write transfers as many blocks as the array has disks, or four where
-- that is fewer; two of the transfers are writes.
pub auto_write_cost :
    {a : Array} (lba val : ℕ)
    → HasParity a
    → AllLive a
    → lba < capacity_blocks a
    → a.parity_mode ≡ auto
    → let a' = (logical_write a lba val).1 in
      (a'.phys_reads + a'.phys_writes ≡ a.phys_reads + a.phys_writes + min 4 a.ndisks)
      × (a'.phys_writes ≡ a.phys_writes + 2)
unfolding use_subtractive
auto_write_cost {a} lba val v live lt mode =
    rw (logical_write_form lba val v live lt)
      (ground (arith, data_disks-eq v.array v.level, data_disks_pos v.array), refl)
