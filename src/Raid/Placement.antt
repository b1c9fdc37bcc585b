-- ===== src/Raid/Placement.antt =====
-- our-course/labs/lab06-io-storage/solutions/raidsim.c: `map_data` spreads the logical blocks over
-- the data cells of the array, one to each.
use native.Mathlib.Nat.{
  div-lt_iff_lt-mul, div-add-mod', mod-lt, mul-add-div_right, mul-add-mod_self_right,
  div-mul_cancel, mod-eq_of_lt, mod-eq-sub-mod, mod-add-mod, mod_self, add-mod_right, div-eq_of_lt,
  dvd_of_mod-eq-zero,
}
use ia_operating_systems.Base.{
  ℕ, ◌+◌, ◌-◌, ◌*◌, ◌/◌, ◌%◌, ◌≤◌, ◌<◌, ◌≡◌, ◌≢◌, ◌↔◌, ◌⊎◌, true, ◌==◌, leb, if◌then◌else◌, arith,
  ap, ap₂, ◌∙◌, sym, refl, ◌&&◌, dec_lt,
}
use ia_operating_systems.Raid.State.{Array}
use ia_operating_systems.Raid.Geometry.{
  data_disks, parity_disk_of, has_parity, map_data, capacity_blocks,
}

-- What `do_init` checks, and a level that the program knows.
pub record IsArray (a : Array) : Type 0 where
  pub known : (a.level ≡ 0) ⊎ (a.level ≡ 1) ⊎ (a.level ≡ 4) ⊎ (a.level ≡ 5)
  pub disks : 1 ≤ a.ndisks
  pub redundant : a.level ≢ 0 → 2 ≤ a.ndisks
  pub units : 1 ≤ a.chunk
  pub whole : a.rows % a.chunk ≡ 0

unit-lt_iff : (s o c k : ℕ) → o < c → (s * c + o < k * c) ↔ (s < k)
unit-lt_iff s o c k h = (forth, back)
  where
    forth : s * c + o < k * c → s < k
    forth lt = grind arith

    back : s < k → s * c + o < k * c
    back lt = grind arith

-- The row is below `k` units exactly for the blocks below `k` stripes.
row-lt_iff :
    (lba c dd k rows : ℕ)
    → 0 < c
    → 0 < dd
    → k * c ≡ rows
    → (lba / c / dd * c + lba % c < rows) ↔ (lba < dd * rows)
row-lt_iff lba c dd k rows hc hd whole = rw (← whole) (forth, back)
  where
    regroup : dd * (k * c) ≡ k * dd * c
    regroup = grind arith

    fits : (lba / c / dd * c + lba % c < k * c) ↔ (lba / c / dd < k)
    fits = unit-lt_iff (lba / c / dd) (lba % c) c k (mod-lt lba hc)

    forth : lba / c / dd * c + lba % c < k * c → lba < dd * (k * c)
    forth h = rw regroup ((div-lt_iff_lt-mul hc).0 ((div-lt_iff_lt-mul hd).0 (fits.0 h)))

    back : lba < dd * (k * c) → lba / c / dd * c + lba % c < k * c
    back h = fits.1 ((div-lt_iff_lt-mul hd).1 ((div-lt_iff_lt-mul hc).1 (rw regroup at h)))

stripe_of_row : (s c o : ℕ) → 0 < c → o < c → (s * c + o) / c ≡ s
stripe_of_row s c o hc ho = omega (arith, mul-add-div_right hc s o, div-eq_of_lt ho)

pub data_disks_pos : {a : Array} → IsArray a → 0 < data_disks a
unfolding data_disks
data_disks_pos v = ground (arith, v.redundant)

pub parity_disk_of-lt : {a : Array} (s : ℕ) → IsArray a → parity_disk_of a s < a.ndisks
unfolding parity_disk_of
parity_disk_of-lt {a} s v =
    ground (arith, mod-lt (a.ndisks - 1 - s % a.ndisks + a.ndisks) {m = a.ndisks})

parity_disk_of_four : (a : Array) (s : ℕ) → a.level ≡ 4 → parity_disk_of a s ≡ a.ndisks - 1
unfolding parity_disk_of
parity_disk_of_four a s h = ground arith

parity_disk_of_five :
    (a : Array) (s : ℕ)
    → a.level ≡ 5
    → parity_disk_of a s ≡ (a.ndisks - 1 - s % a.ndisks + a.ndisks) % a.ndisks
unfolding parity_disk_of
parity_disk_of_five a s h = ground arith

-- `map_data` gives a row of the disks exactly for the blocks below the capacity: the program's
-- `read`, `write` and `place` check no range, and reach past the disks beyond it.
pub map_data-row :
    {a : Array} (lba : ℕ) → IsArray a → ((map_data a lba).row < a.rows) ↔ (lba < capacity_blocks a)
unfolding map_data capacity_blocks
map_data-row {a} lba v =
    row-lt_iff lba a.chunk (data_disks a) (a.rows / a.chunk) a.rows v.units (data_disks_pos v)
      (div-mul_cancel a.chunk (dvd_of_mod-eq-zero a.chunk v.whole))

column-lt : {a : Array} (lba : ℕ) → IsArray a → lba / a.chunk % data_disks a < data_disks a
column-lt {a} lba v = mod-lt (lba / a.chunk) (data_disks_pos v)

-- The stripe is that of the row, and the disk is one of the array and not the parity disk of the
-- stripe.
pub map_data-disk :
    {a : Array} (lba : ℕ)
    → IsArray a
    → let p = map_data a lba in
      (p.stripe ≡ p.row / a.chunk)
      × (p.disk < a.ndisks)
      × (has_parity a ≡ true → p.disk ≢ parity_disk_of a p.stripe)
unfolding map_data data_disks
map_data-disk {a} lba v = (
  sym (
      stripe_of_row (lba / a.chunk / data_disks a) a.chunk (lba % a.chunk) v.units
        (mod-lt lba v.units)),
  ground (arith, column-lt lba v, v.redundant),
  λ par same. ground (arith, column-lt lba v, parity_disk_of_four a (lba / a.chunk / data_disks a)),
)

-- Every block of levels 4 and 5 has its cell on a disk of the array that does not hold the parity of
-- the row it is in.
pub map_data-ne-parity :
    {a : Array} (lba : ℕ)
    → IsArray a
    → has_parity a ≡ true
    → let p = map_data a lba in (p.disk < a.ndisks) × (p.disk ≢ parity_disk_of a (p.row / a.chunk))
map_data-ne-parity {a} lba v h =
    let (s, lt, ne) = map_data-disk lba v in (lt, λ e. ne h (e ∙ ap (parity_disk_of a) (sym s)))

-- The inverse of `map_data`: the logical block that is stored in a data cell.
pub lba_at : Array → ℕ → ℕ → ℕ
lba_at a d row =
    let stripe = row / a.chunk in
    let col = if a.level == 5 && leb (parity_disk_of a stripe) d then d - 1 else d in
    (stripe * data_disks a + col) * a.chunk + row % a.chunk

offset_of_row : (s c o : ℕ) → o < c → (s * c + o) % c ≡ o
offset_of_row s c o ho = mul-add-mod_self_right s c o ∙ mod-eq_of_lt ho

-- The data column of a block, found again from its disk.
column_back :
    (a : Array) (lba : ℕ)
    → IsArray a
    → (if a.level == 5 && leb (parity_disk_of a (map_data a lba).stripe) (map_data a lba).disk
        then (map_data a lba).disk - 1
        else (map_data a lba).disk)
      ≡ lba / a.chunk % data_disks a
unfolding map_data
column_back a lba v = ground arith

regroup_blocks : (lba c dd : ℕ) → (lba / c / dd * dd + lba / c % dd) * c + lba % c ≡ lba
regroup_blocks lba c dd = rw (div-add-mod' (lba / c) dd, div-add-mod' lba c)

map_data-row_lem :
    (a : Array) (lba : ℕ) → (map_data a lba).row ≡ (map_data a lba).stripe * a.chunk + lba % a.chunk
unfolding map_data
map_data-row_lem a lba = refl

map_data-stripe_lem : (a : Array) (lba : ℕ) → (map_data a lba).stripe ≡ lba / a.chunk / data_disks a
unfolding map_data
map_data-stripe_lem a lba = refl

-- Each logical block can be told from its cell, so no two blocks share one.
pub lba_at-map_data :
    (a : Array) (lba : ℕ) → IsArray a → lba_at a (map_data a lba).disk (map_data a lba).row ≡ lba
unfolding lba_at
lba_at-map_data a lba v =
    rw
      (
        ← (map_data-disk lba v).0,
        column_back a lba v,
        map_data-row_lem a lba,
        offset_of_row (map_data a lba).stripe a.chunk (lba % a.chunk) (mod-lt lba v.units),
        map_data-stripe_lem a lba,
      )
      (regroup_blocks lba a.chunk (data_disks a))

pub map_data_injective :
    (a : Array) (i j : ℕ)
    → IsArray a
    → (map_data a i).disk ≡ (map_data a j).disk
    → (map_data a i).row ≡ (map_data a j).row
    → i ≡ j
map_data_injective a i j v d r =
    sym (lba_at-map_data a i v) ∙ ap₂ (lba_at a) d r ∙ lba_at-map_data a j v

rotate_right : (n r : ℕ) → r < n → (n - 1 - r + n) % n ≡ n - 1 - r
rotate_right n r h = add-mod_right (n - 1 - r) n ∙ mod-eq_of_lt (omega arith)

-- A sum of two numbers below `n`, one of them positive, is a multiple of `n` only if it is `n`.
sum-mod_iff : (n r y : ℕ) → r < n → 0 < y → y ≤ n → ((r + y) % n ≡ 0) ↔ (r + y ≡ n)
sum-mod_iff n r y hr pos hy = elim (dec_lt (r + y) n) [
  | yes small ↦ ((λ e. absurd (omega (arith, mod-eq_of_lt small))), (λ e. absurd (omega arith)))
  | no large ↦ (
    (λ e. omega (
      arith,
      mod-eq-sub-mod {n = r + y} {m = n} (omega arith),
      mod-eq_of_lt {n = r + y - n} {m = n} (omega arith),
    )),
    (λ e. ap (λ k. k % n) e ∙ mod_self n),
  )
]

-- Level 5 rotates the parity: disk `x` has that of stripe `s` exactly when `s + x + 1` is a multiple
-- of the number of disks.
pub parity_rotation :
    {a : Array} (s x : ℕ)
    → IsArray a
    → a.level ≡ 5
    → x < a.ndisks
    → (parity_disk_of a s ≡ x) ↔ ((s + x + 1) % a.ndisks ≡ 0)
parity_rotation {a} s x v five lt = (forth, back)
  where
    low : s % a.ndisks < a.ndisks
    low = mod-lt s v.disks

    there : parity_disk_of a s ≡ a.ndisks - 1 - s % a.ndisks
    there = parity_disk_of_five a s five ∙ rotate_right a.ndisks (s % a.ndisks) low

    fold : (s % a.ndisks + (x + 1)) % a.ndisks ≡ (s + x + 1) % a.ndisks
    fold = mod-add-mod s a.ndisks (x + 1) ∙ ap (λ k. k % a.ndisks) (omega arith)

    forth : parity_disk_of a s ≡ x → (s + x + 1) % a.ndisks ≡ 0
    forth e =
        sym fold
        ∙ (sum-mod_iff a.ndisks (s % a.ndisks) (x + 1) low (omega arith) (omega arith)).1
            (omega (arith, there))

    back : (s + x + 1) % a.ndisks ≡ 0 → parity_disk_of a s ≡ x
    back e = omega (
      arith,
      there,
      (sum-mod_iff a.ndisks (s % a.ndisks) (x + 1) low (omega arith) (omega arith)).0 (fold ∙ e),
    )
