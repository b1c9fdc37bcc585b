-- ===== src/Raid/Recovery.antt =====
-- our-course/labs/lab06-io-storage/solutions/raidsim.c: `rebuild` of a lost disk at levels 4 and 5.
use ia_operating_systems.Base.{
  ℕ, zero, suc, ◌+◌, ◌-◌, ◌*◌, ◌/◌, ◌≤◌, ◌<◌, ◌≡◌, true, false, ltb, if◌then◌else◌, arith, ap, ap₂,
  ◌∙◌, refl, ℕ_discrete, update, update_self, fun_ext,
}
use ia_operating_systems.Raid.State.{Array, Block, zeros, cell, put, phys_write}
use ia_operating_systems.Raid.Geometry.{data_disks, has_parity}
use ia_operating_systems.Raid.Access.{
  keep_block, reconstruct, write_replacement, rebuild_row, rebuild_rows, rebuild, set_failed,
}
use ia_operating_systems.Raid.Columns.{HasParity}
use ia_operating_systems.Raid.Reads.{AllLive, variant, lose, lose-live, reconstruct-variant}

-- The replacement of disk `f` of `a` with its first `n` rows restored, and zeros below.
abbrev restored : Array → ℕ → ℕ → ℕ → ℕ → Block
restored a f n = update a.disk f (λ row. if ltb row n then a.disk f row else zeros)

restored-cell : (a : Array) (f x row : ℕ) → row < a.rows → restored a f a.rows x row ≡ cell a x row
restored-cell a f x row r = elim (ℕ_discrete f x) [
  | yes same ↦ ground arith
  | no other ↦ ground arith
]

restored-suc : (a : Array) (f n : ℕ) → put (restored a f n) f n (cell a f n) ≡ restored a f (suc n)
restored-suc a f n =
    fun_ext λ x.
      fun_ext λ row. elim (ℕ_discrete f x) [ yes same ↦ ground arith | no other ↦ ground arith ]

-- The rebuild after `n` rows.
abbrev rebuilding : Array → ℕ → ℕ → Array
rebuilding a f n =
    variant a (restored a f n) (update a.failed f true) (a.phys_reads + n * data_disks a)
      (a.phys_writes + n)

write_replacement_lem :
    (a : Array) (f n reads : ℕ)
    → write_replacement
        (variant a (restored a f n) (update a.failed f true) reads (a.phys_writes + n))
        f
        n
        (cell a f n)
      ≡ variant a (restored a f (suc n)) (update a.failed f true) reads (a.phys_writes + suc n)
unfolding write_replacement phys_write
write_replacement_lem a f n reads =
    ap₂ (λ disk failed. variant a disk failed reads (a.phys_writes + n + 1)) (restored-suc a f n)
      (fun_ext λ x. ground arith)
    ∙ ap (λ k. variant a (restored a f (suc n)) (update a.failed f true) reads k) (omega arith)

rebuild_row_form :
    (a : Array) (d row : ℕ)
    → has_parity a ≡ true
    → rebuild_row a d row ≡ keep_block d row (reconstruct a d row (row / a.chunk))
unfolding rebuild_row
rebuild_row_form a d row h = ground arith

module _ {a : Array} (f : ℕ) (v : HasParity a) (live : AllLive a) (lt : f < a.ndisks) where
  rebuild_row_lem :
      (n : ℕ) → n < a.rows → rebuild_row (rebuilding a f n) f n ≡ rebuilding a f (suc n)
  rebuild_row_lem n r =
      rebuild_row_form (rebuilding a f n) f n v.level
      ∙ ap (keep_block f n) (
          reconstruct-variant (restored a f n) (update a.failed f true)
            (a.phys_reads + n * data_disks a) (a.phys_writes + n) f n (n / a.chunk) v
            (lose-live a f live) (λ x ne. ground arith) r lt)
      ∙ write_replacement_lem a f n (a.phys_reads + n * data_disks a + data_disks a)
      ∙ ap
          (λ k. variant a (restored a f (suc n)) (update a.failed f true) k (a.phys_writes + suc n))
          (grind arith)

  rebuild_rows_lem : (n : ℕ) → n ≤ a.rows → rebuild_rows (rebuilding a f 0) f n ≡ rebuilding a f n
  unfolding rebuild_rows
  rebuild_rows_lem zero le = refl
  rebuild_rows_lem (suc n) le =
      ap (λ b. rebuild_row b f n) (rebuild_rows_lem n (omega arith)) ∙ rebuild_row_lem n le

  -- The rebuild starts from zeros, whatever the memory of the lost disk holds.
  rebuild_start :
      (junk : ℕ → Block)
      → record (lose a f junk) { disk = update (lose a f junk).disk f (λ row. zeros) }
        ≡ rebuilding a f 0
  rebuild_start junk =
      ap
        (λ (disk : ℕ → ℕ → Block).
          variant a disk (update a.failed f true) a.phys_reads a.phys_writes)
        (fun_ext λ x. fun_ext λ row. ground arith)
      ∙ ap₂ (variant a (restored a f 0) (update a.failed f true)) (omega arith) (omega arith)

  rebuild_form :
      (junk : ℕ → Block)
      → rebuild (lose a f junk) f ≡ (
        (rebuilding a f a.rows).phys_reads - a.phys_reads,
        set_failed (rebuilding a f a.rows) f false,
      )
  unfolding rebuild
  rebuild_form junk = rw (update_self a.failed f true) (
      ap (λ (b : Array). (b.phys_reads - a.phys_reads, set_failed b f false))
        (ap (λ (b : Array). rebuild_rows b f a.rows) (rebuild_start junk)
          ∙ rebuild_rows_lem a.rows (omega arith)))

  -- Rebuilding a lost disk of levels 4 and 5 restores every block of every disk, whatever the memory
  -- of the lost disk holds, leaves no disk failed, and reads each row of every other disk once.
  pub rebuild-lose :
      (junk : ℕ → Block) (x row : ℕ)
      → row < a.rows
      → let (reads, a') = rebuild (lose a f junk) f in
        (reads ≡ a.rows * data_disks a) × (cell a' x row ≡ cell a x row) × AllLive a'
  rebuild-lose junk x row r =
      rw (rebuild_form junk)
        (omega arith, restored-cell a f x row r, λ x xlt. ground (arith, live x xlt))
