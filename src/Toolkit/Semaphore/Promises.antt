-- ===== src/Toolkit/Semaphore/Promises.antt =====
-- our-course/labs/lab05-concurrency/part4-toolkit/solutions/toolkit.c: no wake-up of the semaphore is
-- lost.
use ia_operating_systems.Base.{ℕ, ◌+◌, ◌≤◌, ◌<◌, ◌≡◌, arith, refl, ap, tally-zero, weight-le-tally}
use ia_operating_systems.Toolkit.Semaphore.{Pc, idle, wait_sleep, System, Reach}
use ia_operating_systems.Toolkit.Semaphore.Invariant.{
  tests, sleeps, wakes, takes, signals, Reach-Inv,
}

-- A thread that is not in a call, or asleep in one.
pub data AtRest : Pc → Type 0 where
  out : AtRest idle
  asleep : AtRest wait_sleep

resting : {q : Pc} → AtRest q → tests q + wakes q + takes q + signals q ≡ 0
resting out = refl
resting asleep = refl

-- No wake-up is lost: where every thread is out of the calls or asleep and one is asleep, the value is
-- zero.
pub semaphore_no_lost_wake :
    {n value : ℕ} {s : System} (i : ℕ)
    → Reach n value s
    → ((j : ℕ) → j < n → AtRest (s.pc j))
    → i < n
    → s.pc i ≡ wait_sleep
    → s.sem.value ≡ 0
semaphore_no_lost_wake {n} {s = s} i r rest lt e =
    let none_in = λ (w : Pc → ℕ) (le : (q : Pc) → w q ≤ tests q + wakes q + takes q + signals q).
      tally-zero w n s.pc (λ j jlt. omega (arith, le (s.pc j), resting (rest j jlt))) in
    omega (
      arith,
      (Reach-Inv r).told (omega (arith, ap sleeps e, weight-le-tally sleeps n s.pc i lt)),
      none_in tests (λ q. omega arith),
      none_in wakes (λ q. omega arith),
      none_in takes (λ q. omega arith),
      none_in signals (λ q. omega arith),
    )
