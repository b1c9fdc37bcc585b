-- ===== src/Raid/MirrorRebuild.antt =====
-- our-course/labs/lab06-io-storage/solutions/raidsim.c: `rebuild` of a failed disk at level 1.
use ia_operating_systems.Base.{
  ℕ, zero, suc, ◌+◌, ◌-◌, ◌≤◌, ◌<◌, ◌≡◌, true, false, ◌||◌, ◌==◌, ltb, if◌then◌else◌, arith, ap,
  ap₂, ◌∙◌, refl, some, ℕ_discrete, update, fun_ext,
}
use ia_operating_systems.Raid.State.{Array, Block, zeros, cell, put, phys_read, phys_write}
use ia_operating_systems.Raid.Access.{
  first_disk, write_replacement, rebuild_row, rebuild_rows, rebuild, set_failed,
}
use ia_operating_systems.Raid.Reads.{variant, variant-IsArray}
use ia_operating_systems.Raid.Mirrors.{IsMirror, first_disk_found}

-- The rebuild of disk `d` of a mirror after `n` rows: the rows below are copied, zeros follow.
abbrev copied : Array → (ℕ → Block) → ℕ → ℕ → ℕ → ℕ → Block
copied a view d n = update a.disk d (λ row. if ltb row n then view row else zeros)

copied-suc :
    (a : Array) (view : ℕ → Block) (d n : ℕ)
    → put (copied a view d n) d n (view n) ≡ copied a view d (suc n)
copied-suc a view d n =
    fun_ext λ x.
      fun_ext λ row. elim (ℕ_discrete d x) [ yes same ↦ ground arith | no other ↦ ground arith ]

copy_form :
    (b : Array) (d row s : ℕ)
    → b.level ≡ 1
    → first_disk (λ i. i == d || b.failed i) b.ndisks 0 ≡ some s
    → rebuild_row b d row
      ≡ write_replacement (record b { phys_reads = b.phys_reads + 1 }) d row (cell b s row)
unfolding rebuild_row phys_read
copy_form b d row s h e = ground arith

module _ {a : Array} {view : ℕ → Block} (d : ℕ) (v : IsMirror a view)
    (down : a.failed d ≡ true) where
  abbrev copying : ℕ → Array
  copying n = variant a (copied a view d n) a.failed (a.phys_reads + n) (a.phys_writes + n)

  copy_replacement :
      (n : ℕ)
      → write_replacement (record (copying n) { phys_reads = a.phys_reads + n + 1 }) d n (view n)
        ≡ copying (suc n)
  unfolding write_replacement phys_write
  copy_replacement n =
      ap₂ (λ disk failed. variant a disk failed (a.phys_reads + n + 1) (a.phys_writes + n + 1))
        (copied-suc a view d n) (fun_ext λ x. ground arith)
      ∙ ap₂ (variant a (copied a view d (suc n)) a.failed) (omega arith) (omega arith)

  copy_row :
      (x n : ℕ)
      → x < a.ndisks
      → a.failed x ≡ false
      → n < a.rows
      → rebuild_row (copying n) d n ≡ copying (suc n)
  copy_row x n xlt up lt =
      let (s, e, f, l) =
        first_disk_found (λ i. i == d || a.failed i) a.ndisks 0 x (omega arith) (omega arith)
          (ground arith) in
      copy_form (copying n) d n s v.level e
      ∙ ap (write_replacement (record (copying n) { phys_reads = a.phys_reads + n + 1 }) d n)
          (source s l f)
      ∙ copy_replacement n
    where
      source :
          (s : ℕ)
          → s < 0 + a.ndisks
          → (s == d || a.failed s) ≡ false
          → copied a view d n s n ≡ view n
      source s l f = ground (arith, v.holds s n)

  copy_rows :
      (x n : ℕ)
      → x < a.ndisks
      → a.failed x ≡ false
      → n ≤ a.rows
      → rebuild_rows (copying 0) d n ≡ copying n
  unfolding rebuild_rows
  copy_rows x zero xlt up le = refl
  copy_rows x (suc n) xlt up le =
      ap (λ b. rebuild_row b d n) (copy_rows x n xlt up (omega arith)) ∙ copy_row x n xlt up le

  copy_start : record a { disk = update a.disk d (λ row. zeros) } ≡ copying 0
  copy_start =
      ap (λ (disk : ℕ → ℕ → Block). variant a disk a.failed a.phys_reads a.phys_writes)
        (fun_ext λ x. fun_ext λ row. ground arith)
      ∙ ap₂ (variant a (copied a view d 0) a.failed) (omega arith) (omega arith)

  copy_rebuild :
      (x : ℕ)
      → x < a.ndisks
      → a.failed x ≡ false
      → rebuild a d ≡ (a.phys_reads + a.rows - a.phys_reads, set_failed (copying a.rows) d false)
  unfolding rebuild
  copy_rebuild x xlt up = rw down (
      ap (λ (b : Array). (b.phys_reads - a.phys_reads, set_failed b d false))
        (ap (λ (b : Array). rebuild_rows b d a.rows) copy_start
          ∙ copy_rows x a.rows xlt up (omega arith)))

  -- Rebuilding a failed disk of a mirror from any live disk makes it live with the mirror's contents,
  -- and reads one block for each row.
  pub rebuild-IsMirror :
      (x : ℕ)
      → x < a.ndisks
      → a.failed x ≡ false
      → let (reads, a') = rebuild a d in
        (reads ≡ a.rows) × IsMirror a' view × (a'.failed ≡ update a.failed d false)
  rebuild-IsMirror x xlt up = rw (copy_rebuild x xlt up) (
    omega arith,
    record {
      array =
          variant-IsArray (copied a view d a.rows) (update a.failed d false) (a.phys_reads + a.rows)
            (a.phys_writes + a.rows) v.array;
      level = v.level;
      holds = λ y row ylt rlt live. ground (arith, v.holds y row);
    },
    refl,
  )
