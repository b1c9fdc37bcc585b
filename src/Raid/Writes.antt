-- ===== src/Raid/Writes.antt =====
-- our-course/labs/lab06-io-storage/solutions/raidsim.c: a logical write of levels 4 and 5 while no
-- disk has failed.
use mathlib.Core.Path.{◌≡⟨◌⟩◌, ◌∎}
use ia_operating_systems.Base.{
  ℕ, zero, suc, ◌+◌, ◌-◌, ◌<◌, ◌≡◌, ◌≢◌, true, ◌==◌, ◌&&◌, if◌then◌else◌, arith, ap, ap₂, ◌∙◌, sym,
  refl, ℕ_discrete, update, update_ne, fun_ext,
}
use ia_operating_systems.Raid.State.{
  Array, Block, filled, zeros, cell, put, phys_read, phys_write, xor_into,
}
use ia_operating_systems.Raid.Geometry.{
  data_disks, parity_disk_of, column_disk, map_data, capacity_blocks,
}
use ia_operating_systems.Raid.Access.{
  add_other, other_columns, use_subtractive, write_subtractive, write_additive, logical_write,
}
use ia_operating_systems.Raid.Placement.{parity_disk_of-lt, map_data-disk, map_data-row}
use ia_operating_systems.Raid.Xor.{
  xor_sum, xor_sum-update, xor_assoc, xor_comm, xor_self, xor-zeros, zeros-xor, xor_cancel,
}
use ia_operating_systems.Raid.Columns.{
  HasParity, row_of, row_without, others, cost_but, read_more, columns_sum, row_without-sum,
  read_more-zero,
}
use ia_operating_systems.Raid.Reads.{AllLive, reconstruct_cost}

put_row :
    (disk : ℕ → ℕ → Block) (d row : ℕ) (b : Block)
    → ◌≡◌ {A = ℕ → Block} (λ x. put disk d row b x row) (update (λ x. disk x row) d b)
put_row disk d row b = fun_ext λ x. ground arith

put_other_row :
    (disk : ℕ → ℕ → Block) (d row : ℕ) (b : Block) (r : ℕ)
    → r ≢ row
    → ◌≡◌ {A = ℕ → Block} (λ x. put disk d row b x r) (λ x. disk x r)
put_other_row disk d row b r ne = fun_ext λ x. ground arith

add_other_lem :
    (a : Array) (d row phys : ℕ) (acc : Block) (k : ℕ)
    → add_other d row phys (acc, read_more a k)
      ≡ (xor_into acc (row_without a row d phys), read_more a (k + cost_but d phys))
unfolding phys_read
add_other_lem a d row phys acc k = elim (ℕ_discrete phys d) [
  | yes same ↦ ground (arith, xor-zeros acc)
  | no other ↦ ground arith
]

-- The additive loop adds up the other data columns.
other_columns_lem :
    (a : Array) (d row s n : ℕ)
    → other_columns a d row s n
      ≡ (xor_sum n (λ col. row_without a row d (column_disk a s col)), read_more a (others a d s n))
unfolding other_columns others xor_sum
other_columns_lem a d row s zero = rw (read_more-zero a)
other_columns_lem a d row s (suc n) =
    ap (add_other d row (column_disk a s n)) (other_columns_lem a d row s n)
    ∙ add_other_lem a d row (column_disk a s n)
        (xor_sum n (λ col. row_without a row d (column_disk a s col))) (others a d s n)

-- Old parity, less the old data, with the new data.
abbrev pub new_parity : Array → ℕ → ℕ → ℕ → Block → Block
new_parity a d p row nd = xor_into (xor_into (cell a p row) (cell a d row)) nd

-- Under the parity invariant the sum of the other data columns is the old parity less the old data.
other_columns-parity :
    {a : Array} (d row s : ℕ)
    → HasParity a
    → row < a.rows
    → d < a.ndisks
    → d ≢ parity_disk_of a s
    → xor_sum (data_disks a) (λ col. row_without a row d (column_disk a s col))
      ≡ xor_into (cell a (parity_disk_of a s) row) (cell a d row)
other_columns-parity {a} d row s v r lt ne =
    sum
    ≡⟨ sym (xor_cancel sum par) ⟩ xor_into (xor_into sum par) par
    ≡⟨ ap (λ b. xor_into b par) whole ⟩ xor_into (cell a d row) par
    ≡⟨ xor_comm (cell a d row) par ⟩ xor_into par (cell a d row) ∎
  where
    sum : Block
    sum = xor_sum (data_disks a) (λ col. row_without a row d (column_disk a s col))

    par : Block
    par = cell a (parity_disk_of a s) row

    whole : xor_into sum par ≡ cell a d row
    whole =
        ap (xor_into sum) (sym (update_ne (row_of a row) d zeros (parity_disk_of a s) ne))
        ∙ columns_sum s (row_without a row d) v.array v.level
        ∙ row_without-sum a row d (v.sums row r) lt

-- The array after a write of `nd` to disk `d`, with the parity on disk `p`, that cost some reads.
abbrev pub after_write : Array → ℕ → ℕ → ℕ → Block → ℕ → Array
after_write a d p row nd reads = record a {
  disk = put (put a.disk d row nd) p row (new_parity a d p row nd);
  phys_reads = a.phys_reads + reads;
  phys_writes = a.phys_writes + 2;
}

write_subtractive_lem :
    (a : Array) (d p row : ℕ) (nd : Block)
    → write_subtractive a d p row nd ≡ after_write a d p row nd 2
unfolding write_subtractive phys_read phys_write
write_subtractive_lem a d p row nd = ground arith

-- The parity block of the additive form is that of the subtractive form.
write_additive_lem :
    {a : Array} (d row s : ℕ) (nd : Block)
    → HasParity a
    → row < a.rows
    → d < a.ndisks
    → d ≢ parity_disk_of a s
    → write_additive a d (parity_disk_of a s) row s nd
      ≡ after_write a d (parity_disk_of a s) row nd (data_disks a - 1)
unfolding write_additive phys_write
write_additive_lem {a} d row s nd v r lt ne =
    ap
      (λ (st : Block × Array).
        phys_write (phys_write st.1 d row nd) (parity_disk_of a s) row (xor_into st.0 nd))
      (other_columns_lem a d row s (data_disks a)
        ∙ ap₂ (λ b k. (b, read_more a k)) (other_columns-parity d row s v r lt ne) reads)
    ∙ counted
  where
    reads : others a d s (data_disks a) ≡ data_disks a - 1
    reads = ground (arith, reconstruct_cost d s v.array v.level lt)

    counted :
        phys_write
          (phys_write (read_more a (data_disks a - 1)) d row nd)
          (parity_disk_of a s)
          row
          (new_parity a d (parity_disk_of a s) row nd)
        ≡ after_write a d (parity_disk_of a s) row nd (data_disks a - 1)
    counted = ground arith

-- A row with a new data block and the parity block for it adds up to zero, as before.
row_sum-write :
    (n : ℕ) (f : ℕ → Block) (d p : ℕ) (nd : Block)
    → xor_sum n f ≡ zeros
    → d < n
    → p < n
    → d ≢ p
    → xor_sum n (update (update f d nd) p (xor_into (xor_into (f p) (f d)) nd)) ≡ zeros
row_sum-write n f d p nd even dlt plt ne =
    rw
      (
        xor_sum-update n (update f d nd) p (xor_into (xor_into (f p) (f d)) nd) plt,
        xor_sum-update n f d nd dlt,
        update_ne f d nd p ne,
        even,
        zeros-xor (f d),
        xor_comm (xor_into (f d) nd) (f p),
        ← xor_assoc (f p) (f d) nd,
      )
      (xor_self (xor_into (xor_into (f p) (f d)) nd))

pub after_write-HasParity :
    {a : Array} (d row s : ℕ) (nd : Block) (reads : ℕ)
    → HasParity a
    → d < a.ndisks
    → d ≢ parity_disk_of a s
    → HasParity (after_write a d (parity_disk_of a s) row nd reads)
after_write-HasParity {a} d row s nd reads v lt ne = record {
  array = record {
    known = v.array.known;
    disks = v.array.disks;
    redundant = v.array.redundant;
    units = v.array.units;
    whole = v.array.whole;
  };
  level = v.level;
  sums = λ r rlt. elim (ℕ_discrete r row) [
    | yes same ↦
        ap (xor_sum a.ndisks) (
          rw same (
            put_row (put a.disk d row nd) p row par
            ∙ ap (λ f. update f p par) (put_row a.disk d row nd)))
        ∙ row_sum-write a.ndisks (row_of a row) d p nd (v.sums row (rw same at rlt)) lt
            (parity_disk_of-lt s v.array) ne
    | no other ↦
        ap (xor_sum a.ndisks) (
          put_other_row (put a.disk d row nd) p row par r other
          ∙ put_other_row a.disk d row nd r other)
        ∙ v.sums r rlt
  ];
}
  where
    p : ℕ
    p = parity_disk_of a s

    par : Block
    par = new_parity a d p row nd

-- The placement depends on the geometry alone.
pub map_data-after_write :
    (a : Array) (d p row : ℕ) (nd : Block) (reads lba : ℕ)
    → map_data (after_write a d p row nd reads) lba ≡ map_data a lba
unfolding map_data data_disks parity_disk_of
map_data-after_write a d p row nd reads lba = refl

-- A cell that is not the parity cell has the new data if it is the written one.
pub after_write-cell :
    (a : Array) (d p row : ℕ) (nd : Block) (reads d' row' : ℕ)
    → (row' ≡ row → d' ≢ p)
    → cell (after_write a d p row nd reads) d' row'
      ≡ (if d == d' && row == row' then nd else cell a d' row')
after_write-cell a d p row nd reads d' row' ne = ground arith

-- `logical_write` as one of its two forms.
pub logical_write_form :
    {a : Array} (lba val : ℕ)
    → HasParity a
    → AllLive a
    → lba < capacity_blocks a
    → let p = map_data a lba in
      logical_write a lba val ≡ (
        true,
        after_write a p.disk
            (parity_disk_of a p.stripe)
            p.row
            (filled val)
            (if use_subtractive a then 2 else data_disks a - 1),
      )
unfolding logical_write
logical_write_form {a} lba val v live lt = ground (
  arith,
  v.level,
  live (map_data a lba).disk,
  live (parity_disk_of a (map_data a lba).stripe),
  (map_data-disk lba v.array).1,
  parity_disk_of-lt (map_data a lba).stripe v.array,
  write_subtractive_lem a (map_data a lba).disk (parity_disk_of a (map_data a lba).stripe)
      (map_data a lba).row (filled val),
  write_additive_lem (map_data a lba).disk (map_data a lba).row (map_data a lba).stripe (filled val)
      v ((map_data-row lba v.array).1 lt) ((map_data-disk lba v.array).1)
      ((map_data-disk lba v.array).2 v.level),
)
