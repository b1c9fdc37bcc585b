-- ===== src/Toolkit/Barrier/Promises.antt =====
-- our-course/labs/lab05-concurrency/part4-toolkit/solutions/toolkit.c: what the barrier promises to its
-- threads.
use ia_operating_systems.Base.{ℕ, ◌+◌, ◌≤◌, ◌<◌, ◌≡◌, arith, refl}
use ia_operating_systems.Toolkit.Barrier.{
  Barrier, Pc, out, arriving, shut_b, open_a, arrival_done, at_a, System, Reach,
}
use ia_operating_systems.Toolkit.Barrier.Counts.{
  early, shutting_b, opening_a, before_a, Counts, Within, one_part, counts, counts-Within,
}
use ia_operating_systems.Toolkit.Barrier.Phases.{
  Phase, filling, full, turning, draining, empty, returning, Inv,
}
use ia_operating_systems.Toolkit.Barrier.Rounds.{late, Reach-Rounded}

-- Whether a thread has arrived in its present round, and whether it is past the first gate in it.
abbrev pub announced : Pc → ℕ
announced out = 0
announced arriving = 0
announced _ = 1

abbrev pub passed : Pc → ℕ
passed out = 0
passed arriving = 0
passed shut_b = 0
passed open_a = 0
passed arrival_done = 0
passed at_a = 0
passed _ = 1

announced_lem : (u : Pc) → announced u + early u ≡ 1
announced_lem out = refl
announced_lem u = refl

passed_lem : (u : Pc) → passed u + early u + shutting_b u + opening_a u + before_a u ≡ 1
passed_lem out = refl
passed_lem u = refl

-- In every phase.
after_all :
    (f : Phase) (n : ℕ) (b : Barrier) (c : Counts) (u w : Pc) (j k r : ℕ)
    → Inv f n b c
    → Within u c
    → Within w c
    → j + late f u ≡ r
    → k + late f w ≡ r
    → j + passed u ≤ k + announced w
after_all filling n b c u w j k r v x y e g = omega (
  arith,
  v.phase,
  x.inside_a,
  x.past_a,
  x.shutting_a,
  x.opening_b,
  y.inside_a,
  one_part u,
  one_part w,
  announced_lem w,
  passed_lem u,
)
after_all full n b c u w j k r v x y e g = omega (
  arith,
  v.phase,
  v.arrived,
  v.all,
  x.before_b,
  x.inside_b,
  y.before_b,
  y.inside_b,
  y.early,
  announced_lem w,
  passed_lem u,
)
after_all turning n b c u w j k r v x y e g =
    omega (arith, v.phase, v.arrived, v.all, y.early, announced_lem w, passed_lem u)
after_all draining n b c u w j k r v x y e g =
    omega (arith, v.phase, y.early, announced_lem w, passed_lem u)
after_all empty n b c u w j k r v x y e g =
    omega (arith, v.phase, y.early, announced_lem w, passed_lem u)
after_all returning n b c u w j k r v x y e g =
    omega (arith, v.phase, y.early, announced_lem w, passed_lem u)

-- While at least one thread uses the barrier, none is past the first gate in a round before all have
-- arrived in that round.
pub barrier_waits_for_all :
    {n : ℕ} {s : System} (i j : ℕ)
    → 1 ≤ n
    → Reach n s
    → i < n
    → j < n
    → s.rounds i + passed (s.pc i) ≤ s.rounds j + announced (s.pc j)
barrier_waits_for_all {n} {s} i j pos r lt jlt =
    let v = Reach-Rounded pos r in
    after_all v.phase n s.barrier (counts n s.pc) (s.pc i) (s.pc j) (s.rounds i) (s.rounds j)
      v.round v.inv (counts-Within n s.pc i lt) (counts-Within n s.pc j jlt) (v.late i lt)
      (v.late j jlt)
