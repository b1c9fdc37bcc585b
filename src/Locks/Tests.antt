-- ===== src/Locks/Tests.antt =====
-- Runs of the locks, and the theorems at the states that they reach.
use ia_operating_systems.Base.{ℕ, zero, suc, ◌<◌, ◌≡◌, ◌≢◌, ◌⊎◌, inr, arith, refl, update}
use ia_operating_systems.Locks.Spinlock
use ia_operating_systems.Locks.Spinlock.{spinlock_exclusion, spinlock_taken}
use ia_operating_systems.Locks.Ticketlock
use ia_operating_systems.Locks.Ticketlock.Line.{held, active}
use ia_operating_systems.Locks.Ticketlock.Order.{Before, ticketlock_in_order}
use ia_operating_systems.Locks.Sleeplock
use ia_operating_systems.Locks.Sleeplock.Promises.{
  sleeplock_exclusion, AtRest, out, sleeplock_no_lost_wake,
}

-- The first of two threads at the exchange, and then with the lock.
abbrev spin_free : Spinlock.System
spin_free = record { flag = 0; pc = update (λ i. Spinlock.idle) 0 Spinlock.exchange }

spin_free-Reach : Spinlock.Reach 2 spin_free
unfolding Spinlock.advance
spin_free-Reach = Spinlock.then_step Spinlock.start (Spinlock.move 0 (omega arith) refl)

abbrev spin_held : Spinlock.System
spin_held = record { flag = 1; pc = update spin_free.pc 0 Spinlock.holding }

spin_held-Reach : Spinlock.Reach 2 spin_held
unfolding Spinlock.advance
spin_held-Reach = Spinlock.then_step spin_free-Reach (Spinlock.move 0 (omega arith) refl)

-- The first of two threads at its first swap, then with the lock, then the second one asleep.
abbrev at_swap : Sleeplock.System
at_swap = record { state = 0; pc = update (λ i. Sleeplock.idle) 0 Sleeplock.take }

at_swap-Reach : Sleeplock.Reach 2 at_swap
unfolding Sleeplock.advance
at_swap-Reach = Sleeplock.then_step Sleeplock.start (Sleeplock.alone 0 (omega arith) refl)

abbrev one_asleep : Sleeplock.System
one_asleep = record {
  state = 2;
  pc =
      update
        (update
          (update (update (update at_swap.pc 0 Sleeplock.holding) 1 Sleeplock.take) 1
            Sleeplock.mark)
          1 Sleeplock.park)
        1 Sleeplock.asleep;
}

one_asleep-Reach : Sleeplock.Reach 2 one_asleep
unfolding Sleeplock.advance
one_asleep-Reach =
    Sleeplock.then_step
      (Sleeplock.then_step
        (Sleeplock.then_step
          (Sleeplock.then_step
            (Sleeplock.then_step at_swap-Reach (Sleeplock.alone 0 (omega arith) refl))
            (Sleeplock.alone 1 (omega arith) refl))
          (Sleeplock.alone 1 (omega arith) refl))
        (Sleeplock.alone 1 (omega arith) refl))
      (Sleeplock.alone 1 (omega arith) refl)

sleeplock_exclusion_example : one_asleep.pc 1 ≢ Sleeplock.holding
sleeplock_exclusion_example =
    sleeplock_exclusion 0 1 one_asleep-Reach (omega arith) (omega arith) (λ e. omega arith) refl

-- One thread that took the lock and gave it back.
abbrev back_again : Sleeplock.System
back_again = record {
  state = 0;
  pc =
      update
        (update (update (update (λ i. Sleeplock.idle) 0 Sleeplock.take) 0 Sleeplock.holding) 0
          Sleeplock.drop)
        0 Sleeplock.idle;
}

back_again-Reach : Sleeplock.Reach 1 back_again
unfolding Sleeplock.advance
back_again-Reach =
    Sleeplock.then_step
      (Sleeplock.then_step
        (Sleeplock.then_step
          (Sleeplock.then_step Sleeplock.start (Sleeplock.alone 0 (omega arith) refl))
          (Sleeplock.alone 0 (omega arith) refl))
        (Sleeplock.alone 0 (omega arith) refl))
      (Sleeplock.alone 0 (omega arith) refl)

all_out : (j : ℕ) → j < 1 → AtRest (back_again.pc j)
all_out zero lt = out
all_out (suc j) lt = absurd (omega arith)

sleeplock_no_lost_wake_example : (back_again.pc 0 ≡ Sleeplock.idle) × (back_again.state ≡ 0)
sleeplock_no_lost_wake_example = sleeplock_no_lost_wake 0 back_again-Reach all_out (omega arith)

-- The second of two threads about to take a ticket while the first one has the lock.
abbrev one_holds : Ticketlock.System
one_holds = record {
  lock = record { ticket = 1; serving = 0 };
  pc =
      update
        (update (update (update (λ i. Ticketlock.idle) 1 Ticketlock.fetch) 0 Ticketlock.fetch) 0
          (Ticketlock.load 0))
        0 (Ticketlock.holding 0);
}

one_holds-Reach : Ticketlock.Reach 2 one_holds
unfolding Ticketlock.advance
one_holds-Reach =
    Ticketlock.then_step
      (Ticketlock.then_step
        (Ticketlock.then_step
          (Ticketlock.then_step Ticketlock.start (Ticketlock.move 1 (omega arith) refl))
          (Ticketlock.move 0 (omega arith) refl))
        (Ticketlock.move 0 (omega arith) refl))
      (Ticketlock.move 0 (omega arith) refl)

abbrev one_waits : Ticketlock.System
one_waits = record {
  lock = record { ticket = 2; serving = 0 };
  pc = update one_holds.pc 1 (Ticketlock.load 1);
}

joins : Ticketlock.Step 2 one_holds one_waits
unfolding Ticketlock.advance
joins = Ticketlock.move 1 (omega arith) refl

ticketlock_in_order_example :
    (held (one_holds.pc 1) ≢ 1) × (Before one_waits 0 1 ⊎ (active (one_waits.pc 0) ≡ 0))
ticketlock_in_order_example =
    ticketlock_in_order 0 1 one_holds-Reach (omega arith) joins (omega arith) (omega arith)
      (inr (refl, refl, refl))
