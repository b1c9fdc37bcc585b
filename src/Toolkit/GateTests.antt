-- ===== src/Toolkit/GateTests.antt =====
-- Runs of the semaphore and of the barrier, and the theorems at the states that they reach.
use ia_operating_systems.Base.{ℕ, zero, suc, ◌+◌, ◌≤◌, ◌<◌, ◌≡◌, ◌≢◌, arith, refl, update, none}
use ia_operating_systems.Toolkit.Barrier
use ia_operating_systems.Toolkit.Barrier.Promises.{announced, passed, barrier_waits_for_all}
use ia_operating_systems.Toolkit.Barrier.Progress.{barrier_no_deadlock}
use ia_operating_systems.Toolkit.Semaphore
use ia_operating_systems.Toolkit.Semaphore.Refinement.{Refines, semaphore-Refines}
use ia_operating_systems.Toolkit.Semaphore.Promises.{AtRest, out, asleep, semaphore_no_lost_wake}

abbrev gates : ℕ → ℕ → ℕ → ℕ → Barrier.Barrier
gates arrived mutex gate_a gate_b = record {
  n = 2;
  arrived = arrived;
  mutex = mutex;
  gate_a = gate_a;
  gate_b = gate_b;
}

abbrev moved : Barrier.System → ℕ → Barrier.Barrier → Barrier.Pc → Barrier.System
moved s i b p = record {
  barrier = b;
  pc = update s.pc i p;
  rounds = update s.rounds i (s.rounds i + Barrier.comes_out (s.pc i));
}

abbrev before : Barrier.System
before = record { barrier = Barrier.mbarrier_init 2; pc = λ i. Barrier.out; rounds = λ i. 0 }

-- One thread waits at the first gate.
abbrev one_waits : Barrier.System
one_waits =
    moved
      (moved (moved before 0 (gates 0 0 0 1) Barrier.arriving) 0 (gates 1 0 0 1)
        Barrier.arrival_done)
      0 (gates 1 1 0 1) Barrier.at_a

one_waits-Reach : Barrier.Reach 2 one_waits
unfolding Barrier.advance
one_waits-Reach =
    Barrier.then_step
      (Barrier.then_step (Barrier.then_step Barrier.start (Barrier.move 0 (omega arith) refl))
        (Barrier.move 0 (omega arith) refl))
      (Barrier.move 0 (omega arith) refl)

-- The other one opens it.
abbrev gate_opens : Barrier.System
gate_opens =
    moved
      (moved
        (moved (moved one_waits 1 (gates 1 0 0 1) Barrier.arriving) 1 (gates 2 0 0 1)
          Barrier.shut_b)
        1 (gates 2 0 0 0) Barrier.open_a)
      1 (gates 2 0 1 0) Barrier.arrival_done

gate_opens-Reach : Barrier.Reach 2 gate_opens
unfolding Barrier.advance
gate_opens-Reach =
    Barrier.then_step
      (Barrier.then_step
        (Barrier.then_step (Barrier.then_step one_waits-Reach (Barrier.move 1 (omega arith) refl))
          (Barrier.move 1 (omega arith) refl))
        (Barrier.move 1 (omega arith) refl))
      (Barrier.move 1 (omega arith) refl)

-- The first one goes through.
abbrev one_through : Barrier.System
one_through = moved gate_opens 0 (gates 2 0 0 0) Barrier.through_a

one_through-Reach : Barrier.Reach 2 one_through
unfolding Barrier.advance
one_through-Reach = Barrier.then_step gate_opens-Reach (Barrier.move 0 (omega arith) refl)

barrier_waits_for_all_example :
    one_through.rounds 0 + passed (one_through.pc 0)
    ≤ one_through.rounds 1 + announced (one_through.pc 1)
barrier_waits_for_all_example =
    barrier_waits_for_all 0 1 (omega arith) one_through-Reach (omega arith) (omega arith)

barrier_no_deadlock_example :
    (i : ℕ) × (i < 2) × (Barrier.advance one_through.barrier (one_through.pc i) ≢ none)
barrier_no_deadlock_example = barrier_no_deadlock (omega arith) one_through-Reach

-- A thread that waits for a semaphore of value zero falls asleep.
abbrev stands : ℕ → Semaphore.System → Semaphore.Pc → Semaphore.System
stands lock s p = record {
  sem = record { value = 0; lock = lock; waits = 0; posts = 0 };
  pc = update s.pc 0 p;
}

abbrev quiet : Semaphore.System
quiet = record { sem = Semaphore.msem_init 0; pc = λ i. Semaphore.idle }

abbrev sleeper : Semaphore.System
sleeper =
    stands 1 (stands 0 (stands 1 quiet Semaphore.wait_lock) Semaphore.wait_test)
      Semaphore.wait_sleep

sleeper-Reach : Semaphore.Reach 2 0 sleeper
unfolding Semaphore.advance
sleeper-Reach =
    Semaphore.then_step
      (Semaphore.then_step
        (Semaphore.then_step Semaphore.start (Semaphore.alone 0 Semaphore.wait (omega arith) refl))
        (Semaphore.alone 0 Semaphore.wait (omega arith) refl))
      (Semaphore.alone 0 Semaphore.wait (omega arith) refl)

-- A thread takes one from a semaphore of value one.
abbrev holder : ℕ → ℕ → ℕ → Semaphore.System → Semaphore.Pc → Semaphore.System
holder value lock waits s p = record {
  sem = record { value = value; lock = lock; waits = waits; posts = 0 };
  pc = update s.pc 0 p;
}

abbrev full : Semaphore.System
full = record { sem = Semaphore.msem_init 1; pc = λ i. Semaphore.idle }

abbrev taking : Semaphore.System
taking =
    holder 1 0 0 (holder 1 0 0 (holder 1 1 0 full Semaphore.wait_lock) Semaphore.wait_test)
      Semaphore.wait_take

taking-Reach : Semaphore.Reach 2 1 taking
unfolding Semaphore.advance
taking-Reach =
    Semaphore.then_step
      (Semaphore.then_step
        (Semaphore.then_step Semaphore.start (Semaphore.alone 0 Semaphore.wait (omega arith) refl))
        (Semaphore.alone 0 Semaphore.wait (omega arith) refl))
      (Semaphore.alone 0 Semaphore.wait (omega arith) refl)

taking-Step : Semaphore.Step 2 taking (holder 0 0 1 taking Semaphore.wait_unlock)
unfolding Semaphore.advance
taking-Step = Semaphore.alone 0 Semaphore.wait (omega arith) refl

semaphore-Refines_example : Refines 2 taking (holder 0 0 1 taking Semaphore.wait_unlock)
semaphore-Refines_example = semaphore-Refines taking-Reach taking-Step

sleeper-AtRest : (j : ℕ) → j < 2 → AtRest (sleeper.pc j)
sleeper-AtRest zero lt = asleep
sleeper-AtRest (suc zero) lt = out
sleeper-AtRest (suc (suc j)) lt = absurd (omega arith)

semaphore_no_lost_wake_example : sleeper.sem.value ≡ 0
semaphore_no_lost_wake_example =
    semaphore_no_lost_wake 0 sleeper-Reach sleeper-AtRest (omega arith) refl
