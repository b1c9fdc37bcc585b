-- ===== src/Raid/Tests.antt =====
-- Runs of the model on small arrays, and the theorems at those arrays.
use mathlib.Core.Bool.{true≢false}
use ia_operating_systems.Base.{
  ℕ, ◌+◌, ◌*◌, ◌<◌, ◌≡◌, true, false, ◌==◌, if◌then◌else◌, arith, refl, inl, inr, some, update, [],
  ◌∷◌,
}
use ia_operating_systems.Raid.State.{
  Array, auto, filled, zeros, cell, phys_read, phys_write, xor_into,
}
use ia_operating_systems.Raid.Geometry.{
  data_disks, parity_disk_of, map_data, capacity_blocks, column_disk,
}
use ia_operating_systems.Raid.Access.{
  write_additive, other_columns, logical_read, logical_write, rebuild, write_mirrors,
  write_degraded, write_subtractive, use_subtractive, parity_recompute, recompute_columns,
  reconstruct, reconstruct_columns, reconstruct_disk, first_disk, write_replacement, rebuild_rows,
  rebuild_row,
}
use ia_operating_systems.Raid.Script.{init_refused, do_init, exec, run_script, Command, Reply}
use ia_operating_systems.Raid.Placement.{lba_at, lba_at-map_data}
use ia_operating_systems.Raid.Columns.{HasParity, read_more}
use ia_operating_systems.Raid.Reads.{AllLive, lose, content, logical_read-lose}
use ia_operating_systems.Raid.Store.{logical_write_lem}
use ia_operating_systems.Raid.Recovery.{rebuild-lose}
use ia_operating_systems.Raid.Mirrors.{IsMirror, live_below, logical_write-IsMirror}
use ia_operating_systems.Raid.MirrorRebuild.{rebuild-IsMirror}
use ia_operating_systems.Raid.Degraded.{degraded_write_lost}
use ia_operating_systems.Raid.Setup.{IsFit, do_init-HasParity, do_init-IsMirror}

abbrev blank : Array
blank = record {
  level = 0;
  ndisks = 0;
  chunk = 0;
  rows = 0;
  bs = 0;
  parity_mode = auto;
  disk = λ d row. zeros;
  failed = λ d. false;
  phys_reads = 0;
  phys_writes = 0;
}

small : (level : ℕ) → IsFit level 3 2 4 1
small level = record {
  disks = omega arith;
  height = omega arith;
  size = omega arith;
  whole = omega arith;
  redundant = λ r. omega arith;
}

-- Three disks of four rows in chunks of two, at level 5 and at level 1.
abbrev five : Array
five = (do_init blank 5 3 2 4 1).1

abbrev mirror : Array
mirror = (do_init blank 1 3 2 4 1).1

five_lem : AllLive five × HasParity five
five_lem = do_init-HasParity blank 5 3 2 4 1 (inr refl) (small 5)

five-HasParity : HasParity five
five-HasParity = five_lem.1

five-live : AllLive five
five-live = five_lem.0

mirror-IsMirror : IsMirror mirror (λ row. zeros)
mirror-IsMirror = (do_init-IsMirror blank 3 2 4 1 (small 1)).1

in_five : (lba : ℕ) → lba < 8 → lba < capacity_blocks five
unfolding capacity_blocks data_disks do_init init_refused
in_five lba h = h

lba_at-map_data_example : lba_at five (map_data five 7).disk (map_data five 7).row ≡ 7
lba_at-map_data_example = lba_at-map_data five 7 five-HasParity.array

logical_write_lem_example :
    let (done, a') = logical_write five 5 77 in
    (done ≡ true)
    × HasParity a'
    × ((i : ℕ) → content a' i ≡ (if 5 == i then filled 77 else content five i))
logical_write_lem_example =
    logical_write_lem 5 77 five-HasParity five-live (in_five 5 (omega arith))

logical_read-lose_example : logical_read (lose five 1 (λ row. filled 9)) 5 ≡ (
  some (content five 5),
  read_more
      (lose five 1 (λ row. filled 9))
      (if 1 == (map_data five 5).disk then data_disks five else 1),
)
unfolding do_init init_refused
logical_read-lose_example =
    logical_read-lose {a = five} 1 5 (λ row. filled 9) five-HasParity five-live (omega arith)
      (in_five 5 (omega arith))

rebuild-lose_example :
    let (reads, a') = rebuild (lose five 1 (λ row. filled 9)) 1 in
    (reads ≡ five.rows * data_disks five) × (cell a' 1 3 ≡ cell five 1 3) × AllLive a'
unfolding do_init init_refused
rebuild-lose_example =
    rebuild-lose {a = five} 1 five-HasParity five-live (omega arith) (λ row. filled 9) 1 3
      (omega arith)

degraded_write_lost_example :
    let p = map_data five 5 in
    let (done, a') = logical_write (lose five p.disk (λ row. filled 9)) 5 77 in
    (done ≡ true) × ((logical_read a' 5).0 ≡ some (filled 9))
degraded_write_lost_example =
    degraded_write_lost 5 77 (λ row. filled 9) five-HasParity five-live (in_five 5 (omega arith))

in_mirror : (lba : ℕ) → lba < 4 → lba < capacity_blocks mirror
unfolding capacity_blocks data_disks do_init init_refused
in_mirror lba h = h

logical_write-IsMirror_example :
    let (done, a') = logical_write mirror 2 7 in
    (done ≡ true)
    × IsMirror a' (update (λ row. zeros) 2 (filled 7))
    × (a'.failed ≡ mirror.failed)
    × (a'.phys_writes ≡ mirror.phys_writes + live_below mirror mirror.ndisks)
logical_write-IsMirror_example = logical_write-IsMirror 2 7 mirror-IsMirror

-- The mirror with its first disk failed.
abbrev half : Array
half = record mirror { failed = update mirror.failed 0 true }

half-IsMirror : IsMirror half (λ row. zeros)
unfolding do_init init_refused
half-IsMirror = record {
  array = record {
    known = inr (inl refl);
    disks = omega arith;
    redundant = λ ne. omega arith;
    units = omega arith;
    whole = refl;
  };
  level = refl;
  holds = λ x row xlt rlt up. ground arith;
}

in_half : (lba : ℕ) → lba < 4 → lba < capacity_blocks half
unfolding capacity_blocks data_disks do_init init_refused
in_half lba h = h

rebuild-IsMirror_example :
    let (reads, a') = rebuild half 0 in
    (reads ≡ half.rows) × IsMirror a' (λ row. zeros) × (a'.failed ≡ update half.failed 0 false)
unfolding do_init init_refused
rebuild-IsMirror_example = rebuild-IsMirror {a = half} 0 half-IsMirror refl 1 (omega arith) refl

-- The mirror with every disk failed.
abbrev dead : Array
dead = record mirror { failed = λ d. true }

dead-IsMirror : IsMirror dead (λ row. zeros)
unfolding do_init init_refused
dead-IsMirror = record {
  array = record {
    known = inr (inl refl);
    disks = omega arith;
    redundant = λ ne. omega arith;
    units = omega arith;
    whole = refl;
  };
  level = refl;
  holds = λ x row xlt rlt up. absurd (true≢false up);
}

-- A script: a write to the block of a failed disk answers `done`, and the block reads as before the
-- write.
replies :
    (run_script blank (
      Command.init 5 3 2 4 1
      ∷ Command.write 0 7
      ∷ Command.fail 0
      ∷ Command.write 0 8
      ∷ Command.read 0
      ∷ Command.rebuild_disk 0
      ∷ Command.iostat
      ∷ [])).0
    ≡ (Reply.done
        ∷ Reply.done
        ∷ Reply.done
        ∷ Reply.done
        ∷ Reply.block (λ i. 7)
        ∷ Reply.number 8
        ∷ Reply.counts 13 7
        ∷ [])
unfolding run_script exec do_init init_refused logical_write logical_read rebuild rebuild_rows
    rebuild_row write_mirrors write_degraded write_subtractive use_subtractive parity_recompute
    recompute_columns reconstruct reconstruct_columns reconstruct_disk first_disk write_replacement
    data_disks parity_disk_of column_disk map_data capacity_blocks phys_read phys_write xor_into
    write_additive other_columns
replies = refl
