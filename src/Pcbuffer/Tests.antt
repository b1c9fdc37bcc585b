-- ===== src/Pcbuffer/Tests.antt =====
-- Runs of the bounded buffer, and the theorems at the states that they reach.
use ia_operating_systems.Base.{ℕ, zero, suc, ◌<◌, ◌≡◌, ◌≢◌, arith, refl, List, [], ◌∷◌, update}
use ia_operating_systems.Pcbuffer.{
  pcb_init, store_item, take_item, Pc, idle, put_lock, put_test, put_sleep, put_store, put_signal,
  put_unlock, get_lock, get_test, get_sleep, get_take, get_signal, put, get, advance, System,
  no_consumer, alone, unheard, Reach, start, then_step,
}
use ia_operating_systems.Pcbuffer.Promises.{
  fifo, AtRest, producer_asleep, consumer_asleep, producer_waits_for_room, consumer_waits_for_items,
}

-- All threads idle, then the points that the threads went to, the last one first.
abbrev trail : List (ℕ × Pc) → ℕ → Pc
trail [] = λ i. idle
trail ((i, p) ∷ ps) = update (trail ps) i p

-- One thread and one slot, with the item 7 stored.
abbrev full_trail : List (ℕ × Pc)
full_trail =
    (0, idle)
    ∷ (0, put_unlock)
    ∷ (0, put_signal)
    ∷ (0, put_store 7)
    ∷ (0, put_test 7)
    ∷ (0, put_lock 7)
    ∷ []

abbrev full : System
full = record { buffer = store_item (pcb_init 1) 7; pc = trail full_trail }

no_sleeper :
    (j : ℕ)
    → j < 1
    → trail ((0, put_signal) ∷ (0, put_store 7) ∷ (0, put_test 7) ∷ (0, put_lock 7) ∷ []) j
      ≢ get_sleep
no_sleeper j lt e = ground arith

full-Reach : Reach 1 1 full
unfolding advance store_item
full-Reach =
    then_step
      (then_step
        (then_step
          (then_step
            (then_step (then_step start (alone 0 (put 7) (omega arith) refl))
              (alone 0 get (omega arith) refl))
            (alone 0 get (omega arith) refl))
          (alone 0 get (omega arith) refl))
        (unheard 0 (omega arith) (no_consumer no_sleeper)))
      (alone 0 get (omega arith) refl)

-- The item taken again, up to the signal.
abbrev taken : System
taken = record {
  buffer = record (take_item full.buffer) { lock = 0 };
  pc = trail ((0, get_signal 7) ∷ (0, get_take) ∷ (0, get_test) ∷ (0, get_lock) ∷ full_trail);
}

taken-Reach : Reach 1 1 taken
unfolding advance store_item take_item
taken-Reach =
    then_step
      (then_step
        (then_step (then_step full-Reach (alone 0 get (omega arith) refl))
          (alone 0 get (omega arith) refl))
        (alone 0 get (omega arith) refl))
      (alone 0 get (omega arith) refl)

fifo_example : taken.buffer.got_items 0 ≡ taken.buffer.put_items 0
unfolding take_item store_item
fifo_example = fifo 0 (omega arith) taken-Reach (omega arith)

-- A second put on the full buffer goes to sleep.
abbrev stuck : System
stuck = record {
  buffer = store_item (pcb_init 1) 7;
  pc = trail ((0, put_sleep 8) ∷ (0, put_test 8) ∷ (0, put_lock 8) ∷ full_trail);
}

stuck-Reach : Reach 1 1 stuck
unfolding advance store_item
stuck-Reach =
    then_step
      (then_step (then_step full-Reach (alone 0 (put 8) (omega arith) refl))
        (alone 0 get (omega arith) refl))
      (alone 0 get (omega arith) refl)

stuck_asleep : (j : ℕ) → j < 1 → AtRest (stuck.pc j)
stuck_asleep zero lt = producer_asleep
stuck_asleep (suc j) lt = absurd (omega arith)

producer_waits_for_room_example : (stuck.buffer.count ≡ 1) × (stuck.pc 0 ≢ get_sleep)
producer_waits_for_room_example =
    producer_waits_for_room 0 0 8 (omega arith) stuck-Reach stuck_asleep (omega arith) (omega arith)
      refl

-- A get on an empty buffer goes to sleep.
abbrev waiting : System
waiting = record {
  buffer = pcb_init 1;
  pc = trail ((0, get_sleep) ∷ (0, get_test) ∷ (0, get_lock) ∷ []);
}

waiting-Reach : Reach 1 1 waiting
unfolding advance
waiting-Reach =
    then_step
      (then_step (then_step start (alone 0 get (omega arith) refl))
        (alone 0 get (omega arith) refl))
      (alone 0 get (omega arith) refl)

waiting_asleep : (j : ℕ) → j < 1 → AtRest (waiting.pc j)
waiting_asleep zero lt = consumer_asleep
waiting_asleep (suc j) lt = absurd (omega arith)

consumer_waits_for_items_example : (waiting.buffer.count ≡ 0) × (waiting.pc 0 ≢ put_sleep 7)
consumer_waits_for_items_example =
    consumer_waits_for_items 0 0 7 (omega arith) waiting-Reach waiting_asleep (omega arith)
      (omega arith) refl

-- Two threads in their calls, one of them with the mutex.
abbrev held : System
held = record {
  buffer = record (pcb_init 1) { lock = 0 };
  pc = trail ((0, put_test 7) ∷ (1, get_lock) ∷ (0, put_lock 7) ∷ []);
}

held-Reach : Reach 2 1 held
unfolding advance
held-Reach =
    then_step
      (then_step (then_step start (alone 0 (put 7) (omega arith) refl))
        (alone 1 get (omega arith) refl))
      (alone 0 get (omega arith) refl)
