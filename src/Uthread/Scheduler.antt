-- ===== src/Uthread/Scheduler.antt =====
-- our-course/labs/lab05-concurrency/part1-uthread/solutions/uthread.c: the loop of `uthread_run`. What
-- a thread does from one switch to the next is a parameter: it creates threads, then it yields or
-- exits.
use ia_operating_systems.Base.{ℕ, List, [], ◌∷◌, Option, none, some}
use ia_operating_systems.Uthread.State.{
  TState, unused, runnable, running, Threads, put, set_state, enqueue, dequeue, uthread_create,
  uthread_yield, uthread_exit,
}

-- A call of `uthread_create`, with what `malloc` gives in it.
pub record Creation : Type 0 where
  pub malloc : Option ℕ
  pub fn : ℕ
  pub arg : ℕ

pub data Ending : Type 0 where
  yields exits : Ending

pub record Slice : Type 0 where
  pub creations : List Creation
  pub ending : Ending

-- The end of a slice, up to the switch to the scheduler.
abbrev pub switch_back : Threads → Ending → Threads
switch_back s yields = uthread_yield s
switch_back s exits = uthread_exit s

-- What the scheduler does with the thread that it ran, by the state that it finds it in.
abbrev pub put_by : Threads → ℕ → TState → Threads
put_by s t runnable = enqueue s t
put_by s t _ = put s t (record (s.table t) { stack = none; state = unused })

abbrev pub put_away : Threads → ℕ → Threads
put_away s t = put_by s t (s.table t).state

module _ (uthread_entry : ℕ) where
  unfoldable pub create_all : Threads → List Creation → Threads
  create_all s [] = s
  create_all s (c ∷ cs) = create_all (uthread_create uthread_entry s c.malloc c.fn c.arg).1 cs

  -- From the switch to a thread up to the switch back to the scheduler.
  abbrev pub run_slice : Threads → Slice → Threads
  run_slice s w = switch_back (create_all s w.creations) w.ending

  -- One round of the loop for what `dequeue` gave; `none` where the loop returns.
  abbrev pub round_of : Option ℕ × Threads → Slice → Option Threads
  round_of (none, s) w = none
  round_of (some t, s) w =
      let s' = run_slice (record (set_state s t running) { current = some t }) w in
      some (put_away (record s' { current = none }) t)

  unfoldable pub run_round : Threads → Slice → Option Threads
  run_round s w = round_of (dequeue s) w

  -- The rounds for these slices; `none` where the loop returns before it has them all.
  unfoldable pub run_rounds : Threads → List Slice → Option Threads
  run_rounds s [] = some s
  run_rounds s (w ∷ ws) = elim (run_round s w) [ none ↦ none | some s' ↦ run_rounds s' ws ]
