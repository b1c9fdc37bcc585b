-- ===== src/Locks/Sleeplock/Promises.antt =====
-- our-course/labs/lab05-concurrency/part2-locks/solutions/mylock.c: what the sleeping lock promises.
use ia_operating_systems.Base.{
  ℕ, ◌+◌, ◌<◌, ◌≡◌, ◌≢◌, ◌↔◌, some, arith, refl, tally, tally-zero, weight-le-tally,
  two-weights-le-tally, dec_lt,
}
use ia_operating_systems.Locks.Sleeplock.{Pc, idle, take, asleep, holding, advance, System, Reach}
use ia_operating_systems.Locks.Sleeplock.Invariant.{holds, helps, sleeps, Inv, Reach-Inv}

-- No two threads hold the sleeping lock at once.
pub sleeplock_exclusion :
    {n : ℕ} {s : System} (i j : ℕ)
    → Reach n s
    → i < n
    → j < n
    → i ≢ j
    → s.pc i ≡ holding
    → s.pc j ≢ holding
sleeplock_exclusion {n} {s} i j r ilt jlt ne e f =
    ground (arith, Reach-Inv r, two-weights-le-tally holds n s.pc i j ne ilt jlt)

-- A thread that sleeps, or that is out of the calls and does not hold the lock.
pub data AtRest : Pc → Type 0 where
  out : AtRest idle
  parked : AtRest asleep

resting : {q : Pc} → AtRest q → holds q + helps q ≡ 0
resting out = refl
resting parked = refl

-- No wake-up is lost: when every thread is out of the calls or asleep, none is asleep and the lock
-- is free.
pub sleeplock_no_lost_wake :
    {n : ℕ} {s : System} (i : ℕ)
    → Reach n s
    → ((j : ℕ) → j < n → AtRest (s.pc j))
    → i < n
    → (s.pc i ≡ idle) × (s.state ≡ 0)
sleeplock_no_lost_wake {n} {s} i r rest lt =
    (awake (rest i lt) (omega (arith, nobody_asleep, weight-le-tally sleeps n s.pc i lt)), unlocked)
  where
    v : Inv n s
    v = Reach-Inv r

    nobody : tally holds n s.pc ≡ 0
    nobody = tally-zero holds n s.pc λ j jlt. omega (arith, resting (rest j jlt))

    helpless : tally helps n s.pc ≡ 0
    helpless = tally-zero helps n s.pc λ j jlt. omega (arith, resting (rest j jlt))

    unlocked : s.state ≡ 0
    unlocked = ground (arith, v.held, nobody)

    nobody_asleep : tally sleeps n s.pc ≡ 0
    nobody_asleep = elim (dec_lt 0 (tally sleeps n s.pc)) [
      | yes some_asleep ↦ absurd (omega (arith, v.heard some_asleep, helpless, unlocked))
      | no none_asleep ↦ omega arith
    ]

    awake : {q : Pc} → AtRest q → sleeps q ≡ 0 → q ≡ idle
    awake out e = refl
    awake parked e = absurd (omega arith)

-- The word tells a thread that comes whether the lock is free: it gets the lock with its first swap
-- exactly when no thread holds it or has still to write 0.
pub sleeplock_taken :
    {n : ℕ} {s : System} (i : ℕ)
    → Reach n s
    → i < n
    → s.pc i ≡ take
    → (advance s.state (s.pc i) ≡ some (1, holding)) ↔ ((j : ℕ) → j < n → holds (s.pc j) ≡ 0)
unfolding advance
sleeplock_taken {n} {s} i r lt e = (forth, back)
  where
    v : Inv n s
    v = Reach-Inv r

    forth : advance s.state (s.pc i) ≡ some (1, holding) → (j : ℕ) → j < n → holds (s.pc j) ≡ 0
    forth h j jlt = ground (arith, v.free, weight-le-tally holds n s.pc j jlt)

    free : ((j : ℕ) → j < n → holds (s.pc j) ≡ 0) → s.state ≡ 0
    free h = ground (arith, v.held, tally-zero holds n s.pc h)

    back : ((j : ℕ) → j < n → holds (s.pc j) ≡ 0) → advance s.state (s.pc i) ≡ some (1, holding)
    back h = ground (arith, free h)
