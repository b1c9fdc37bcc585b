-- ===== src/Raid/Degraded.antt =====
-- our-course/labs/lab06-io-storage/solutions/raidsim.c: a write of levels 4 and 5 to a block on a
-- failed disk. The program recomputes the parity from the memory of all data disks, the failed one
-- included, and stores the new data nowhere.
use ia_operating_systems.Base.{
  ℕ, zero, suc, ◌+◌, ◌<◌, ◌≡◌, ◌≢◌, true, false, arith, ap, ap₂, ◌∙◌, sym, refl, some, Option,
  update,
}
use ia_operating_systems.Raid.State.{
  Array, Block, zeros, cell, put, phys_read, phys_write, xor_into,
}
use ia_operating_systems.Raid.Geometry.{
  Place, data_disks, parity_disk_of, has_parity, column_disk, map_data, capacity_blocks,
}
use ia_operating_systems.Raid.Access.{
  add_disk, recompute_columns, parity_recompute, write_degraded, logical_read, logical_write,
}
use ia_operating_systems.Raid.Placement.{IsArray, map_data-disk, parity_disk_of-lt}
use ia_operating_systems.Raid.Xor.{xor_sum_congr, xor_sum, xor_self}
use ia_operating_systems.Raid.Columns.{
  HasParity, column_disk-ne, row_of, read_more, read_more-zero, columns_sum, row_without-sum,
  reconstruct_lem, others, cost_but,
}
use ia_operating_systems.Raid.Reads.{
  parity_disk_of-variant, AllLive, variant, variant-IsArray, lose, lose-live, map_data-variant,
  logical_read_failed,
}

recompute_columns_lem :
    (a : Array) (s row n : ℕ)
    → recompute_columns a s row n
      ≡ (xor_sum n (λ col. cell a (column_disk a s col) row), read_more a n)
unfolding recompute_columns xor_sum phys_read
recompute_columns_lem a s row zero = ap (λ b. (zeros, b)) (sym (read_more-zero a))
recompute_columns_lem a s row (suc n) =
    ap (add_disk row (column_disk a s n)) (recompute_columns_lem a s row n)
    ∙ ap
        (λ b. (
          xor_into (xor_sum n (λ col. cell a (column_disk a s col) row))
              (cell a (column_disk a s n) row),
          b,
        ))
        (ground arith)

-- The sum of the data blocks of a row.
abbrev data_sum : Array → ℕ → ℕ → Block
data_sum a s row = xor_sum (data_disks a) (λ col. cell a (column_disk a s col) row)

-- `parity_recompute` makes the row add up to zero.
abbrev recomputed : Array → ℕ → ℕ → Array
recomputed a s row =
    variant a (put a.disk (parity_disk_of a s) row (data_sum a s row)) a.failed
      (a.phys_reads + data_disks a) (a.phys_writes + 1)

parity_recompute_lem : (a : Array) (s row : ℕ) → parity_recompute a s row ≡ recomputed a s row
unfolding parity_recompute phys_write
parity_recompute_lem a s row =
    ap (λ (st : Block × Array). phys_write st.1 (parity_disk_of a s) row st.0)
      (recompute_columns_lem a s row (data_disks a))

recomputed-even :
    {a : Array} (s row : ℕ)
    → IsArray a
    → has_parity a ≡ true
    → xor_sum a.ndisks (row_of (recomputed a s row) row) ≡ zeros
recomputed-even {a} s row v h =
    sym (columns_sum s (row_of (recomputed a s row) row) v h)
    ∙ ap₂ xor_into
        (xor_sum_congr (data_disks a)
          (λ col. put a.disk p row (data_sum a s row) (column_disk a s col) row)
          (λ col. cell a (column_disk a s col) row)
          (λ col lt. kept col (column_disk-ne s col v h lt)))
        (ground arith)
    ∙ xor_self (data_sum a s row)
  where
    p : ℕ
    p = parity_disk_of a s

    kept :
        (col : ℕ)
        → column_disk a s col ≢ p
        → put a.disk p row (data_sum a s row) (column_disk a s col) row
          ≡ cell a (column_disk a s col) row
    kept col ne = ground arith

put_stale :
    (disk : ℕ → ℕ → Block) (f p row : ℕ) (b : Block) (junk : ℕ → Block)
    → f ≢ p
    → put (update disk f junk) p row b f row ≡ junk row
put_stale disk f p row b junk ne = ground arith

degraded_form :
    (b : Array) (lba val : ℕ) (p : Place)
    → map_data b lba ≡ p
    → has_parity b ≡ true
    → b.failed p.disk ≡ true
    → b.failed (parity_disk_of b p.stripe) ≡ false
    → logical_write b lba val ≡ (true, parity_recompute b p.stripe p.row)
unfolding logical_write write_degraded
degraded_form b lba val p e h down up = ground arith

-- A write to a block on the failed disk reports success, and the block then reads as whatever the
-- memory of the failed disk holds: the new data is lost.
pub degraded_write_lost :
    {a : Array} (lba val : ℕ) (junk : ℕ → Block)
    → HasParity a
    → AllLive a
    → lba < capacity_blocks a
    → let p = map_data a lba in
      let (done, a') = logical_write (lose a p.disk junk) lba val in
      (done ≡ true) × ((logical_read a' lba).0 ≡ some (junk p.row))
degraded_write_lost {a} lba val junk v live lt =
    rw (written) (refl, ap (λ (r : Option Block × Array). r.0) reads)
  where
    open (map_data a lba) use {disk as f, row, stripe as s}

    b : Array
    b = lose a f junk

    array : IsArray b
    array = variant-IsArray b.disk b.failed b.phys_reads b.phys_writes v.array

    f_lt : f < a.ndisks
    f_lt = (map_data-disk lba v.array).1

    f_ne : f ≢ parity_disk_of a s
    f_ne = (map_data-disk lba v.array).2 v.level

    same_parity : parity_disk_of b s ≡ parity_disk_of a s
    same_parity = parity_disk_of-variant a b.disk b.failed b.phys_reads b.phys_writes s

    written : logical_write b lba val ≡ (true, recomputed b s row)
    written =
        degraded_form b lba val (map_data a lba)
          (map_data-variant a b.disk b.failed b.phys_reads b.phys_writes lba) v.level (ground arith)
          (lose-live a f live (parity_disk_of b s) (parity_disk_of-lt s array)
            (λ e. f_ne (sym e ∙ same_parity)))
        ∙ ap (λ c. (true, c)) (parity_recompute_lem b s row)

    c : Array
    c = recomputed b s row

    reads : logical_read c lba ≡ (
      some (junk row),
      read_more c (others c f s (data_disks c) + cost_but f (parity_disk_of c s)),
    )
    reads =
        logical_read_failed c lba (map_data a lba)
          (map_data-variant a c.disk c.failed c.phys_reads c.phys_writes lba) v.level (ground arith)
        ∙ reconstruct_lem f row s
            (variant-IsArray c.disk c.failed c.phys_reads c.phys_writes v.array) v.level
            (λ x xlt ne. lose-live a f live x xlt ne)
        ∙ ap
            (λ blk. (
              some blk,
              read_more c (others c f s (data_disks c) + cost_but f (parity_disk_of c s)),
            ))
            (row_without-sum c row f (recomputed-even s row array v.level) f_lt ∙ stale)
      where
        stale : cell c f row ≡ junk row
        stale =
            put_stale a.disk f (parity_disk_of b s) row (data_sum b s row) junk
              (λ e. f_ne (e ∙ same_parity))
