-- ===== src/Toolkit/Tests.antt =====
-- Runs of the reader-writer lock and of the philosophers, and the theorems at the states that they
-- reach.
use ia_operating_systems.Base.{◌+◌, ◌%◌, ◌≢◌, true, false, arith, refl, update}
use ia_operating_systems.Toolkit.Rwlock
use ia_operating_systems.Toolkit.Phils
use ia_operating_systems.Toolkit.Rendezvous
use ia_operating_systems.Toolkit.Rendezvous.{rendezvous_meets, rendezvous_no_deadlock, waits}
use ia_operating_systems.Toolkit.Rwlock.Exclusion
use ia_operating_systems.Toolkit.Phils.Progress
use ia_operating_systems.Toolkit.Rwlock.Exclusion.{
  exclusion, admitted, no_overtaking, rwlock_no_deadlock,
}
use ia_operating_systems.Toolkit.Phils.Invariant.{neighbours_exclude}
use ia_operating_systems.Toolkit.Phils.Progress.{phils_no_deadlock}

-- Two threads, the first of them a writer at the room.
abbrev at_room : Rwlock.System
at_room = record {
  lock = record { readers = 0; mutex = 1; room_empty = 1; turnstile = 0 };
  pc = update (update (λ i. Rwlock.idle) 0 Rwlock.write_gate) 0 Rwlock.write_room;
}

at_room-Reach : Rwlock.Reach 2 at_room
unfolding Rwlock.advance
at_room-Reach =
    Rwlock.then_step (Rwlock.then_step Rwlock.start (Rwlock.move 0 true (omega arith) refl))
      (Rwlock.move 0 true (omega arith) refl)

abbrev in_room : Rwlock.System
in_room = record {
  lock = record { readers = 0; mutex = 1; room_empty = 0; turnstile = 0 };
  pc = update at_room.pc 0 Rwlock.writing;
}

in_room-Reach : Rwlock.Reach 2 in_room
unfolding Rwlock.advance
in_room-Reach = Rwlock.then_step at_room-Reach (Rwlock.move 0 true (omega arith) refl)

exclusion_example : (in_room.pc 1 ≢ Rwlock.reading) × (in_room.pc 1 ≢ Rwlock.writing)
exclusion_example = exclusion 0 1 in_room-Reach (omega arith) (omega arith) (λ e. omega arith) refl

-- A reader comes to the turnstile while the writer waits.
abbrev reader_comes : Rwlock.System
reader_comes = record { lock = at_room.lock; pc = update at_room.pc 1 Rwlock.read_gate }

reader-Step : Rwlock.Step 2 at_room reader_comes
unfolding Rwlock.advance
reader-Step = Rwlock.move 1 false (omega arith) refl

rwlock_no_deadlock_example : Exclusion.SomeMoves 2 at_room
rwlock_no_deadlock_example = rwlock_no_deadlock 0 at_room-Reach (omega arith) (λ e. ground arith)

-- Two philosophers, the first one eating.
abbrev dinner : Phils.System
dinner = record {
  table = record { n = 2; fork = update (update (λ i. 1) 0 0) 1 0; footman = 0 };
  pc =
      update
        (update (update (update (λ w. Phils.thinking) 0 Phils.to_footman) 0 Phils.to_own) 0
          Phils.to_other)
        0 Phils.eating;
}

dinner-Reach : Phils.Reach 2 dinner
unfolding Phils.advance
dinner-Reach =
    Phils.then_step
      (Phils.then_step
        (Phils.then_step (Phils.then_step Phils.start (Phils.move 0 (omega arith) refl))
          (Phils.move 0 (omega arith) refl))
        (Phils.move 0 (omega arith) refl))
      (Phils.move 0 (omega arith) refl)

neighbours_exclude_example : dinner.pc ((0 + 1) % 2) ≢ Phils.eating
neighbours_exclude_example = neighbours_exclude 0 (omega arith) dinner-Reach (omega arith) refl

phils_no_deadlock_example : Progress.SomeMoves 2 dinner
phils_no_deadlock_example =
    phils_no_deadlock 0 (omega arith) dinner-Reach (omega arith) (λ e. ground arith)

-- Both sides have arrived, and the second one is out again.
abbrev met : Rendezvous.System
met = record {
  meeting = record { arrived = update (update (update (λ side. 0) 0 1) 1 1) 0 0 };
  pc =
      update (update (update (λ side. Rendezvous.out) 0 Rendezvous.waiting) 1 Rendezvous.waiting) 1
        Rendezvous.out;
  rounds = update (update (update (λ side. 0) 0 0) 1 0) 1 1;
}

met-Reach : Rendezvous.Reach met
unfolding Rendezvous.advance
met-Reach =
    Rendezvous.then_step
      (Rendezvous.then_step
        (Rendezvous.then_step Rendezvous.start (Rendezvous.move 0 (omega arith) refl))
        (Rendezvous.move 1 (omega arith) refl))
      (Rendezvous.move 1 (omega arith) refl)
