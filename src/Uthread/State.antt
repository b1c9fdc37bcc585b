-- ===== src/Uthread/State.antt =====
-- our-course/labs/lab05-concurrency/part1-uthread/solutions/uthread.c: the table of threads, the ready
-- queue, and the functions that a thread calls. A pointer to a slot of the table is the slot's number,
-- `none` for NULL; the memory is a map from addresses to 64-bit words.
use ia_operating_systems.Base.{
  ℕ, zero, suc, ◌+◌, ◌-◌, ◌*◌, ◌/◌, ◌%◌, ◌^◌, Option, none, some, if◌then◌else◌, Bool, true, false,
  update,
}

pub data TState : Type 0 where
  unused runnable running zombie : TState

pub record Thread : Type 0 where
  pub rsp : ℕ
  pub stack : Option ℕ
  pub fn : ℕ
  pub arg : ℕ
  pub state : TState
  pub tid : ℕ
  pub next : Option ℕ

abbrev pub uthread_max : ℕ
uthread_max = 64

abbrev pub uthread_stack : ℕ
uthread_stack = 65536

pub record Threads : Type 0 where
  pub table : ℕ → Thread
  pub qhead : Option ℕ
  pub qtail : Option ℕ
  pub current : Option ℕ
  pub next_tid : ℕ
  pub mem : ℕ → ℕ

abbrev pub blank : Thread
blank = record { rsp = 0; stack = none; fn = 0; arg = 0; state = unused; tid = 0; next = none }

unfoldable pub uthread_init : Threads → Threads
uthread_init s = record s {
  table = λ i. blank;
  qhead = none;
  qtail = none;
  current = none;
  next_tid = 1;
}

abbrev pub put : Threads → ℕ → Thread → Threads
put s t x = record s { table = update s.table t x }

abbrev pub set_next : Threads → ℕ → Option ℕ → Threads
set_next s t p = put s t (record (s.table t) { next = p })

abbrev pub set_state : Threads → ℕ → TState → Threads
set_state s t x = put s t (record (s.table t) { state = x })

abbrev pub link_last : Threads → Option ℕ → ℕ → Threads
link_last s (some q) t = set_next s q (some t)
link_last s none t = record s { qhead = some t }

unfoldable pub enqueue : Threads → ℕ → Threads
enqueue s t = record (link_last (set_next s t none) s.qtail t) { qtail = some t }

abbrev pub tail_after : Option ℕ → Option ℕ → Option ℕ
tail_after none qtail = none
tail_after (some x) qtail = qtail

abbrev pub pop : Threads → Option ℕ → Option ℕ × Threads
pop s none = (none, s)
pop s (some t) =
    let rest = (s.table t).next in
    (some t, set_next (record s { qhead = rest; qtail = tail_after rest s.qtail }) t none)

unfoldable pub dequeue : Threads → Option ℕ × Threads
dequeue s = pop s s.qhead

abbrev pub is_unused : TState → Bool
is_unused unused = true
is_unused _ = false

-- The first unused slot of the `n` from `i` on.
unfoldable pub find_slot : Threads → ℕ → ℕ → Option ℕ
find_slot s i zero = none
find_slot s i (suc n) =
    let rest = find_slot s (suc i) n in if is_unused (s.table i).state then some i else rest

-- The end of a stack, rounded down to a multiple of 16 in an `unsigned long`.
abbrev pub top_of : ℕ → ℕ
top_of stack = (stack + uthread_stack) % 2 ^ 64 / 16 * 16

abbrev pub new_thread : Threads → ℕ → ℕ → ℕ → ℕ → Thread
new_thread s t stack fn arg = record (s.table t) {
  rsp = top_of stack - 16;
  stack = some stack;
  fn = fn;
  arg = arg;
  state = runnable;
  tid = s.next_tid;
}

-- The address of `uthread_entry`, where a new thread begins.
module _ (uthread_entry : ℕ) where
  -- The new thread in slot `t`, on the stack at `stack`.
  abbrev pub placed : Threads → ℕ → ℕ → ℕ → ℕ → Threads
  placed s t stack fn arg =
      let sp = top_of stack - 16 in
      record (put s t (new_thread s t stack fn arg)) {
        next_tid = s.next_tid + 1;
        mem = update (update s.mem sp uthread_entry) (sp + 8) 0;
      }

  unfoldable pub create_in : Threads → ℕ → ℕ → ℕ → ℕ → Threads
  create_in s t stack fn arg = enqueue (placed s t stack fn arg) t

  -- With the slot that the search found and what `malloc` gives for the stack. The result is the
  -- thread's number, `none` for -1.
  abbrev pub create_at : Threads → Option ℕ → Option ℕ → ℕ → ℕ → Option ℕ × Threads
  create_at s none malloc fn arg = (none, s)
  create_at s (some t) none fn arg = (none, put s t (record (s.table t) { stack = none }))
  create_at s (some t) (some stack) fn arg = (some s.next_tid, create_in s t stack fn arg)

  unfoldable pub uthread_create : Threads → Option ℕ → ℕ → ℕ → Option ℕ × Threads
  uthread_create s malloc fn arg = create_at s (find_slot s 0 uthread_max) malloc fn arg

-- The current thread's state changes, where there is one.
abbrev pub mark : Threads → Option ℕ → TState → Threads
mark s none x = s
mark s (some t) x = set_state s t x

-- Until the switch to the scheduler.
unfoldable pub uthread_yield : Threads → Threads
uthread_yield s = mark s s.current runnable

unfoldable pub uthread_exit : Threads → Threads
uthread_exit s = mark s s.current zombie

unfoldable pub uthread_self : Threads → ℕ
uthread_self s = elim s.current [ none ↦ 0 | some t ↦ (s.table t).tid ]
