-- ===== src/Disksim/Once.antt =====
-- our-course/labs/lab06-io-storage/solutions/disksim.c: every policy serves every request once.
use mathlib.Core.List.{Perm}
use mathlib.Core.List.Perm
use ia_operating_systems.Base.{
  ℕ, ◌≡◌, Bool, true, false, not, ltb, leb, some, List, ◌++◌, arith, refl,
}
use ia_operating_systems.Disksim.State.{Stream}
use ia_operating_systems.Disksim.Schedule.{
  cyl_of, indices, pick, sorted_up, sched_fifo, sched_scan, sched_cscan, Policy, fifo, sstf, scan,
  cscan, schedule,
}
use ia_operating_systems.Disksim.Lists.{Perm-pick, Perm-pick-reverse}
use ia_operating_systems.Disksim.Shortest.{sched_sstf-Greedy}
use ia_operating_systems.Disksim.Qsort.{IsQsort, sorted_up-Perm}

behind_up : (c head : ℕ) → ltb c head ≡ not (leb head c)
behind_up c head = ground arith

behind_down : (c head : ℕ) → ltb head c ≡ not (leb c head)
behind_down c head = ground arith

module _ {qsort : (ℕ → ℕ → Bool) → List ℕ → List ℕ} (q : IsQsort qsort) (s : Stream)
    (head : ℕ) where
  abbrev idx : List ℕ
  idx = sorted_up qsort s

  up :
      Perm
        (pick (λ i. leb head (cyl_of s i)) idx ++ pick (λ i. ltb (cyl_of s i) head) idx)
        (indices 0 s.nreq)
  up = Perm.trans (Perm-pick _ _ idx (λ i. behind_up (cyl_of s i) head)) (sorted_up-Perm q s)

  down :
      Perm
        (pick (λ i. leb (cyl_of s i) head) idx ++ pick (λ i. ltb head (cyl_of s i)) idx)
        (indices 0 s.nreq)
  down = Perm.trans (Perm-pick _ _ idx (λ i. behind_down (cyl_of s i) head)) (sorted_up-Perm q s)

  -- SCAN serves every request once, in either direction.
  pub sched_scan-Perm : (dir_up : Bool) → Perm (sched_scan qsort s head dir_up) (indices 0 s.nreq)
  unfolding sched_scan
  sched_scan-Perm true = Perm.trans (Perm.append_left _ (Perm-pick-reverse _ idx)) up
  sched_scan-Perm false = Perm.trans (Perm.append_right _ (Perm-pick-reverse _ idx)) down

  -- C-SCAN serves every request once, in either direction.
  pub sched_cscan-Perm : (dir_up : Bool) → Perm (sched_cscan qsort s head dir_up) (indices 0 s.nreq)
  unfolding sched_cscan
  sched_cscan-Perm true = up
  sched_cscan-Perm false =
      Perm.trans (Perm.append (Perm-pick-reverse _ idx) (Perm-pick-reverse _ idx)) down

-- With a `qsort` that rearranges as documented, every policy yields an order, and serves every request
-- once.
pub schedule-Perm :
    {qsort : (ℕ → ℕ → Bool) → List ℕ → List ℕ} (policy : Policy) (s : Stream) (start : ℕ)
    (dir_up : Bool)
    → IsQsort qsort
    → (order : List ℕ) × (schedule qsort policy s start dir_up ≡ some order)
      × Perm order (indices 0 s.nreq)
unfolding schedule sched_fifo
schedule-Perm fifo s start dir_up q = (indices 0 s.nreq, refl, Perm.rfl)
schedule-Perm sstf s start dir_up q =
    let (order, e, perm, greedy) = sched_sstf-Greedy s start in (order, e, perm)
schedule-Perm {qsort} scan s start dir_up q =
    (sched_scan qsort s start dir_up, refl, sched_scan-Perm q s start dir_up)
schedule-Perm {qsort} cscan s start dir_up q =
    (sched_cscan qsort s start dir_up, refl, sched_cscan-Perm q s start dir_up)
