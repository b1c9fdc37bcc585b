-- ===== src/Raid/Geometry.antt =====
-- our-course/labs/lab06-io-storage/solutions/raidsim.c: where a logical block lives.
use ia_operating_systems.Base.{
  ℕ, ◌+◌, ◌-◌, ◌*◌, ◌/◌, ◌%◌, Bool, ◌&&◌, ◌||◌, ◌==◌, leb, if◌then◌else◌,
}
use ia_operating_systems.Raid.State.{Array}

unfoldable pub data_disks : Array → ℕ
data_disks a = if a.level == 0 then a.ndisks else if a.level == 1 then 1 else a.ndisks - 1

-- `ndisks - 1 - stripe % ndisks` is not negative for `ndisks ≥ 1`.
unfoldable pub parity_disk_of : Array → ℕ → ℕ
parity_disk_of a stripe =
    if a.level == 4 then a.ndisks - 1 else (a.ndisks - 1 - stripe % a.ndisks + a.ndisks) % a.ndisks

-- Levels 4 and 5 are those with a parity disk.
abbrev pub has_parity : Array → Bool
has_parity a = a.level == 4 || a.level == 5

-- The disk of data column `col` in a stripe: level 5 steps over the parity disk.
unfoldable pub column_disk : Array → ℕ → ℕ → ℕ
column_disk a stripe col =
    if a.level == 5 && leb (parity_disk_of a stripe) col then col + 1 else col

-- What `map_data` writes through its three pointers.
pub record Place : Type 0 where
  pub disk : ℕ
  pub row : ℕ
  pub stripe : ℕ

unfoldable pub map_data : Array → ℕ → Place
map_data a lba =
    let dd = data_disks a in
    let chunk_index = lba / a.chunk in
    let chunk_off = lba % a.chunk in
    let stripe = chunk_index / dd in
    let col = chunk_index % dd in
    let row = stripe * a.chunk + chunk_off in
    let phys =
      if a.level == 0 || a.level == 1
      then col
      else if a.level == 4
      then col
      else if leb (parity_disk_of a stripe) col
      then col + 1
      else col in
    record { disk = phys; row = row; stripe = stripe }

unfoldable pub capacity_blocks : Array → ℕ
capacity_blocks a = data_disks a * a.rows
