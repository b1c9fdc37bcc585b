-- ===== src/Raid/Reads.antt =====
-- our-course/labs/lab06-io-storage/solutions/raidsim.c: `logical_read` with at most one disk failed.
use ia_operating_systems.Base.{
  ℕ, zero, suc, ◌+◌, ◌-◌, ◌≤◌, ◌<◌, ◌≡◌, ◌≢◌, Bool, true, false, ◌==◌, ◌||◌, ◌&&◌, leb, ltb,
  if◌then◌else◌, arith, update, update_ne, ap, ap₂, dec_lt, ◌∙◌, sym, refl, some, ℕ_discrete,
  fun_ext,
}
use ia_operating_systems.Raid.State.{Array, Block, cell, phys_read}
use ia_operating_systems.Raid.Geometry.{
  Place, data_disks, parity_disk_of, has_parity, map_data, capacity_blocks,
}
use ia_operating_systems.Raid.Access.{reconstruct, logical_read}
use ia_operating_systems.Raid.Placement.{IsArray, parity_disk_of-lt, map_data-disk, map_data-row}
use ia_operating_systems.Raid.Xor.{xor_sum, step_over}
use ia_operating_systems.Raid.Columns.{
  HasParity, others, cost_but, read_more, row_without, row_without-sum, column_disk-eq,
  data_disks-eq, reconstruct_lem,
}

-- The disks other than `want` among the first `n` columns that step over disk `p`.
abbrev others_of : ℕ → ℕ → ℕ → ℕ
others_of want p n = if ltb want p && ltb want n || ltb p want && leb want n then n - 1 else n

others_of-suc :
    (want p n : ℕ) → others_of want p (suc n) ≡ others_of want p n + cost_but want (step_over p n)
others_of-suc want p n = elim (dec_lt want p) [
  | yes before ↦ ground arith
  | no after ↦ elim (dec_lt p want) [ yes past ↦ ground arith | no same ↦ ground arith ]
]

others_lem :
    {a : Array} (want s n : ℕ)
    → IsArray a
    → has_parity a ≡ true
    → n ≤ data_disks a
    → others a want s n ≡ others_of want (parity_disk_of a s) n
unfolding others
others_lem {a} want s zero v h le = others_of_zero want (parity_disk_of a s)
  where
    others_of_zero : (want p : ℕ) → 0 ≡ others_of want p 0
    others_of_zero want p = ground arith
others_lem {a} want s (suc n) v h le =
    ap₂ (λ k x. k + cost_but want x) (others_lem want s n v h (omega arith))
      (column_disk-eq s n v h le)
    ∙ sym (others_of-suc want (parity_disk_of a s) n)

others_of_all : (want p n : ℕ) → want ≤ n → p ≤ n → others_of want p n + cost_but want p ≡ n
others_of_all want p n w h = ground arith

-- A reconstruction reads every disk but the wanted one, once.
pub reconstruct_cost :
    {a : Array} (want s : ℕ)
    → IsArray a
    → has_parity a ≡ true
    → want < a.ndisks
    → others a want s (data_disks a) + cost_but want (parity_disk_of a s) ≡ data_disks a
reconstruct_cost {a} want s v h w =
    ap (λ k. k + cost_but want (parity_disk_of a s))
      (others_lem want s (data_disks a) v h (omega arith))
    ∙ others_of_all want (parity_disk_of a s) (data_disks a) (omega (arith, data_disks-eq v h))
        (omega (arith, data_disks-eq v h, parity_disk_of-lt s v))

-- What is stored in the cell of a logical block.
abbrev pub content : Array → ℕ → Block
content a lba = let p = map_data a lba in cell a p.disk p.row

logical_read_live :
    (a : Array) (lba : ℕ) (p : Place)
    → map_data a lba ≡ p
    → has_parity a ≡ true
    → a.failed p.disk ≡ false
    → logical_read a lba ≡ (some (cell a p.disk p.row), read_more a 1)
unfolding logical_read phys_read
logical_read_live a lba p e h up = ground arith

pub logical_read_failed :
    (a : Array) (lba : ℕ) (p : Place)
    → map_data a lba ≡ p
    → has_parity a ≡ true
    → a.failed p.disk ≡ true
    → logical_read a lba ≡ reconstruct a p.disk p.row p.stripe
unfolding logical_read
logical_read_failed a lba p e h down = ground arith

-- No disk has failed.
abbrev pub AllLive : Array → Type 0
AllLive a = (x : ℕ) → x < a.ndisks → a.failed x ≡ false

-- An array of the geometry of `a` with other disks, failures and counts.
abbrev pub variant : Array → (ℕ → ℕ → Block) → (ℕ → Bool) → ℕ → ℕ → Array
variant a disk failed reads writes = record a {
  disk = disk;
  failed = failed;
  phys_reads = reads;
  phys_writes = writes;
}

pub variant-IsArray :
    {a : Array} (disk : ℕ → ℕ → Block) (failed : ℕ → Bool) (reads writes : ℕ)
    → IsArray a
    → IsArray (variant a disk failed reads writes)
variant-IsArray disk failed reads writes v = record {
  known = v.known;
  disks = v.disks;
  redundant = v.redundant;
  units = v.units;
  whole = v.whole;
}

-- Disk `f` is reconstructed from the other disks, whatever its own memory holds.
pub reconstruct-variant :
    {a : Array} (disk : ℕ → ℕ → Block) (failed : ℕ → Bool) (reads writes f row s : ℕ)
    → HasParity a
    → ((x : ℕ) → x < a.ndisks → x ≢ f → failed x ≡ false)
    → ((x : ℕ) → f ≢ x → disk x row ≡ cell a x row)
    → row < a.rows
    → f < a.ndisks
    → reconstruct (variant a disk failed reads writes) f row s
      ≡ (some (cell a f row), variant a disk failed (reads + data_disks a) writes)
unfolding data_disks
reconstruct-variant {a} disk failed reads writes f row s v live same r lt =
    reconstruct_lem f row s array v.level live
    ∙ ap₂ (λ b k. (some b, variant a disk failed (reads + k) writes))
        (ap (xor_sum a.ndisks) (fun_ext others_same) ∙ row_without-sum a row f (v.sums row r) lt)
        (reconstruct_cost f s array v.level lt)
  where
    array : IsArray (variant a disk failed reads writes)
    array = variant-IsArray disk failed reads writes v.array

    others_same :
        (x : ℕ) → row_without (variant a disk failed reads writes) row f x ≡ row_without a row f x
    others_same x = ground (arith, same x)

-- The array whose disk `f` has failed, with anything in the memory of that disk.
abbrev pub lose : Array → ℕ → (ℕ → Block) → Array
lose a f junk = variant a (update a.disk f junk) (update a.failed f true) a.phys_reads a.phys_writes

pub lose-live :
    (a : Array) (f : ℕ)
    → AllLive a
    → (x : ℕ) → x < a.ndisks
    → x ≢ f
    → update a.failed f true x ≡ false
lose-live a f live x lt ne = ground (arith, live x lt)

pub parity_disk_of-variant :
    (a : Array) (disk : ℕ → ℕ → Block) (failed : ℕ → Bool) (reads writes s : ℕ)
    → parity_disk_of (variant a disk failed reads writes) s ≡ parity_disk_of a s
unfolding parity_disk_of
parity_disk_of-variant a disk failed reads writes s = refl

pub map_data-variant :
    (a : Array) (disk : ℕ → ℕ → Block) (failed : ℕ → Bool) (reads writes lba : ℕ)
    → map_data (variant a disk failed reads writes) lba ≡ map_data a lba
unfolding map_data data_disks parity_disk_of
map_data-variant a disk failed reads writes lba = refl

-- After the loss of any one disk of levels 4 and 5 every logical block reads as before, whatever the
-- memory of the lost disk holds. A read changes only the count of reads: by one for a block on a
-- live disk, by the number of the other disks for a block on the lost one.
pub logical_read-lose :
    {a : Array} (f lba : ℕ) (junk : ℕ → Block)
    → HasParity a
    → AllLive a
    → f < a.ndisks
    → lba < capacity_blocks a
    → logical_read (lose a f junk) lba ≡ (
      some (content a lba),
      read_more (lose a f junk) (if f == (map_data a lba).disk then data_disks a else 1),
    )
logical_read-lose {a} f lba junk v live lt cap = elim (ℕ_discrete f d) [
  | yes own ↦
      logical_read_failed lost lba (map_data a lba) same_place v.level (ground arith)
      ∙ reconstruct-variant (update a.disk f junk) (update a.failed f true) a.phys_reads
          a.phys_writes d (map_data a lba).row (map_data a lba).stripe v
          (λ x xlt ne. lose-live a f live x xlt (λ e. ne (e ∙ own))) (λ x ne. ground arith)
          ((map_data-row lba v.array).1 cap) (map_data-disk lba v.array).1
      ∙ ap (λ k. (some (content a lba), read_more lost k)) (ground arith)
  | no other ↦
      logical_read_live lost lba (map_data a lba) same_place v.level
        (lose-live a f live d (map_data-disk lba v.array).1 (λ e. other (sym e)))
      ∙ ap₂ (λ b k. (some b, read_more lost k))
          (ap (λ (g : ℕ → Block). g (map_data a lba).row) (update_ne a.disk f junk d other))
          (ground arith)
]
  where
    d : ℕ
    d = (map_data a lba).disk

    lost : Array
    lost = lose a f junk

    same_place : map_data lost lba ≡ map_data a lba
    same_place =
        map_data-variant a (update a.disk f junk) (update a.failed f true) a.phys_reads
          a.phys_writes lba
