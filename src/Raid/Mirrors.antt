-- ===== src/Raid/Mirrors.antt =====
-- our-course/labs/lab06-io-storage/solutions/raidsim.c: level 1, where every live disk holds every
-- block, under any number of failures.
use mathlib.Core.Bool.{true≢false}
use native.Mathlib.Nat.{div-one, div-add-mod'}
use ia_operating_systems.Base.{
  ℕ, zero, suc, ◌+◌, ◌≤◌, ◌<◌, ◌≡◌, Bool, true, false, not, ◌&&◌, ◌==◌, ltb, if◌then◌else◌, arith,
  ap, ap₂, ◌∙◌, sym, refl, some, none, ℕ_discrete, update, fun_ext, Bool-cases, inl, inr,
}
use ia_operating_systems.Raid.State.{Array, Block, filled, cell, put, phys_read, phys_write}
use ia_operating_systems.Raid.Geometry.{data_disks, map_data, capacity_blocks}
use ia_operating_systems.Raid.Access.{first_disk, logical_read, write_mirrors, logical_write}
use ia_operating_systems.Raid.Placement.{IsArray}
use ia_operating_systems.Raid.Reads.{variant, variant-IsArray}

-- Every live disk of a level 1 array holds block `view row` in each row.
pub record IsMirror (a : Array) (view : ℕ → Block) : Type 0 where
  pub array : IsArray a
  pub level : a.level ≡ 1
  pub holds :
      (x row : ℕ) → x < a.ndisks → row < a.rows → a.failed x ≡ false → cell a x row ≡ view row

-- A disk that `skip` leaves, found by the search.
pub first_disk_found :
    (skip : ℕ → Bool) (n i x : ℕ)
    → i ≤ x
    → x < i + n
    → skip x ≡ false
    → (j : ℕ) × (first_disk skip n i ≡ some j) × (skip j ≡ false) × (j < i + n)
unfolding first_disk
first_disk_found skip zero i x le lt free = absurd (omega arith)
first_disk_found skip (suc n) i x le lt free = elim (Bool-cases (skip i)) [
  | inl taken ↦
      let (j, e, f, l) = first_disk_found skip n (i + 1) x (next taken) (omega arith) free in
      (j, rw taken e, f, omega arith)
  | inr good ↦ (i, rw good, good, omega arith)
]
  where
    next : skip i ≡ true → i + 1 ≤ x
    next taken = elim (ℕ_discrete i x) [
      | yes e ↦ absurd (true≢false (sym taken ∙ ap skip e ∙ free))
      | no ne ↦ omega arith
    ]

first_disk-none :
    (skip : ℕ → Bool) (n i : ℕ) → ((x : ℕ) → x < i + n → skip x ≡ true) → first_disk skip n i ≡ none
unfolding first_disk
first_disk-none skip zero i all = refl
first_disk-none skip (suc n) i all =
    rw (all i (omega arith)) (first_disk-none skip n (i + 1) (λ x lt. all x (omega arith)))

data_disks-mirror : (a : Array) → a.level ≡ 1 → data_disks a ≡ 1
unfolding data_disks
data_disks-mirror a h = ground arith

-- The rows of a mirror are the logical blocks.
map_data-mirror : (a : Array) (lba : ℕ) → a.level ≡ 1 → (map_data a lba).row ≡ lba
unfolding map_data
map_data-mirror a lba h = rw (data_disks-mirror a h, div-one) (div-add-mod' lba a.chunk)

capacity-mirror : (a : Array) → a.level ≡ 1 → capacity_blocks a ≡ a.rows
unfolding capacity_blocks
capacity-mirror a h = rw (data_disks-mirror a h) (omega arith)

-- A mirror returns every block as long as one of its disks is live.
pub logical_read-mirror :
    {a : Array} {view : ℕ → Block} (lba x : ℕ)
    → IsMirror a view
    → lba < capacity_blocks a
    → x < a.ndisks
    → a.failed x ≡ false
    → (logical_read a lba).0 ≡ some (view lba)
unfolding logical_read phys_read
logical_read-mirror {a} lba x v lt xlt up =
    let (j, e, f, l) = first_disk_found a.failed a.ndisks 0 x (omega arith) (omega arith) up in
    rw v.level
      (rw (e, map_data-mirror a lba v.level) (ap some (v.holds j lba (omega arith) row_lt f)))
  where
    row_lt : lba < a.rows
    row_lt = omega (arith, capacity-mirror a v.level)

-- A mirror whose disks have all failed reports the loss of every block and reads nothing.
pub logical_read-mirror_lost :
    {a : Array} {view : ℕ → Block} (lba : ℕ)
    → IsMirror a view
    → ((x : ℕ) → x < a.ndisks → a.failed x ≡ true)
    → logical_read a lba ≡ (none, a)
unfolding logical_read
logical_read-mirror_lost {a} lba v down =
    ground (arith, v.level, first_disk-none a.failed a.ndisks 0 (λ x l. down x (omega arith)))

-- The disks after block `nd` went to row `row` of the live disks below `n`.
abbrev mirrored : Array → ℕ → Block → ℕ → ℕ → ℕ → Block
mirrored a row nd n x r = if ltb x n && not (a.failed x) && r == row then nd else a.disk x r

pub live_below : Array → ℕ → ℕ
live_below a zero = 0
live_below a (suc n) = live_below a n + (if a.failed n then 0 else 1)

mirrored-suc :
    (a : Array) (row : ℕ) (nd : Block) (n : ℕ)
    → (if a.failed n then mirrored a row nd n else put (mirrored a row nd n) n row nd)
      ≡ mirrored a row nd (suc n)
mirrored-suc a row nd n =
    fun_ext
      λ x. fun_ext λ r. elim (ℕ_discrete n x) [ yes same ↦ ground arith | no other ↦ ground arith ]

write_mirror_round :
    (a : Array) (row : ℕ) (nd : Block) (disk : ℕ → ℕ → Block) (n k : ℕ)
    → (if a.failed n
        then variant a disk a.failed a.phys_reads k
        else phys_write (variant a disk a.failed a.phys_reads k) n row nd)
      ≡ variant a
          (if a.failed n then disk else put disk n row nd)
          a.failed
          a.phys_reads
          (k + (if a.failed n then 0 else 1))
unfolding phys_write
write_mirror_round a row nd disk n k = ground arith

write_mirrors_lem :
    (a : Array) (row : ℕ) (nd : Block) (n : ℕ)
    → write_mirrors a row nd n
      ≡ variant a (mirrored a row nd n) a.failed a.phys_reads (a.phys_writes + live_below a n)
unfolding write_mirrors live_below
write_mirrors_lem a row nd zero =
    ap₂ (λ (disk : ℕ → ℕ → Block) (k : ℕ). variant a disk a.failed a.phys_reads k)
      (fun_ext λ x. fun_ext λ r. ground arith) (omega arith)
write_mirrors_lem a row nd (suc n) =
    ap (λ (b : Array). if b.failed n then b else phys_write b n row nd)
      (write_mirrors_lem a row nd n)
    ∙ write_mirror_round a row nd (mirrored a row nd n) n (a.phys_writes + live_below a n)
    ∙ ap₂ (λ disk k. variant a disk a.failed a.phys_reads k) (mirrored-suc a row nd n) (omega arith)

logical_write_mirror_form :
    (a : Array) (lba val : ℕ)
    → a.level ≡ 1
    → logical_write a lba val ≡ (true, write_mirrors a lba (filled val) a.ndisks)
unfolding logical_write
logical_write_mirror_form a lba val h = ground (arith, map_data-mirror a lba h)

-- A write to a mirror reaches every live disk: the array mirrors the new contents, under any
-- failures, at the cost of one write for each live disk.
pub logical_write-IsMirror :
    {a : Array} {view : ℕ → Block} (lba val : ℕ)
    → IsMirror a view
    → let (done, a') = logical_write a lba val in
      (done ≡ true)
      × IsMirror a' (update view lba (filled val))
      × (a'.failed ≡ a.failed)
      × (a'.phys_writes ≡ a.phys_writes + live_below a a.ndisks)
logical_write-IsMirror {a} {view} lba val v =
    rw (logical_write_mirror_form a lba val v.level, write_mirrors_lem a lba (filled val) a.ndisks)
      (
        refl,
        record {
          array =
              variant-IsArray (mirrored a lba (filled val) a.ndisks) a.failed a.phys_reads
                (a.phys_writes + live_below a a.ndisks) v.array;
          level = v.level;
          holds = λ x row xlt rlt up. ground (arith, v.holds x row);
        },
        refl,
        refl,
      )
