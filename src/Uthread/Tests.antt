-- ===== src/Uthread/Tests.antt =====
-- our-course/labs/lab05-concurrency/part1-uthread/solutions/uthread.c: two threads, the first of which
-- creates a third.
use ia_operating_systems.Base.{ℕ, ◌≡◌, none, some, List, [], ◌∷◌, refl}
use ia_operating_systems.Uthread.State.{
  Threads, blank, uthread_init, find_slot, enqueue, create_in, uthread_create,
}
use ia_operating_systems.Uthread.Scheduler.{Slice, yields, run_rounds}
use ia_operating_systems.Uthread.Slots.{Scheduled}
use ia_operating_systems.Uthread.Create.{slot_taken, uthread_create-Scheduled}
use ia_operating_systems.Uthread.Fair.{
  uthread_init-Scheduled, Turn, run_round-Turn, run_rounds-turn,
}

abbrev entry : ℕ
entry = 4096

abbrev empty : Threads
empty = uthread_init record {
  table = λ i. blank;
  qhead = none;
  qtail = none;
  current = none;
  next_tid = 0;
  mem = λ a. 0;
}

abbrev one : Threads
one = (uthread_create entry empty (some 100000) 5 0).1

abbrev two : Threads
two = (uthread_create entry one (some 200000) 6 0).1

two-Scheduled : Scheduled two none (0 ∷ 1 ∷ [])
unfolding uthread_init uthread_create create_in enqueue slot_taken find_slot
two-Scheduled =
    uthread_create-Scheduled entry one (some 200000) 6 0 none (0 ∷ []) (
      uthread_create-Scheduled entry empty (some 100000) 5 0 none [] (uthread_init-Scheduled empty))

abbrev busy : Slice
busy = record { creations = record { malloc = some 300000; fn = 7; arg = 0 } ∷ []; ending = yields }

run_round-Turn_example : (s' : Threads) × Turn entry two s' 0 (1 ∷ []) busy
run_round-Turn_example = run_round-Turn entry two 0 (1 ∷ []) busy two-Scheduled

run_rounds-turn_example :
    (s' : Threads) × (zs : List ℕ) × (run_rounds entry two (busy ∷ []) ≡ some s')
    × Scheduled s' none (1 ∷ zs)
run_rounds-turn_example = run_rounds-turn entry two 1 (0 ∷ []) [] (busy ∷ []) two-Scheduled refl
