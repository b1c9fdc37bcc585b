-- ===== src/Toolkit/Barrier.antt =====
-- our-course/labs/lab05-concurrency/part4-toolkit/solutions/toolkit.c: the barrier with two turnstiles,
-- which `n` threads pass again and again, in any interleaving. A semaphore is its value: a wait is one
-- step that a zero value blocks.
pub mod Counts
pub mod Phases
pub mod Rounds
pub mod Promises
pub mod Progress
use ia_operating_systems.Base.{
  ℕ, ◌+◌, ◌-◌, ◌<◌, ◌≡◌, ◌==◌, if◌then◌else◌, Option, none, some, update,
}

-- `struct mbarrier`
pub record Barrier : Type 0 where
  pub n : ℕ
  pub arrived : ℕ
  pub mutex : ℕ
  pub gate_a : ℕ
  pub gate_b : ℕ

-- `mbarrier_init`
abbrev pub mbarrier_init : ℕ → Barrier
mbarrier_init n = record { n = n; arrived = 0; mutex = 1; gate_a = 0; gate_b = 1 }

-- Where a thread stands: each point names what comes next.
pub data Pc : Type 0 where
  out : Pc  -- msem_wait(&b->mutex)
  arriving : Pc  -- ++b->arrived == b->n
  shut_b : Pc  -- msem_wait(&b->gate_b)
  open_a : Pc  -- msem_post(&b->gate_a)
  arrival_done : Pc  -- msem_post(&b->mutex)
  at_a : Pc  -- msem_wait(&b->gate_a)
  through_a : Pc  -- msem_post(&b->gate_a)
  to_leave : Pc  -- msem_wait(&b->mutex)
  leaving : Pc  -- --b->arrived == 0
  shut_a : Pc  -- msem_wait(&b->gate_a)
  open_b : Pc  -- msem_post(&b->gate_b)
  leave_done : Pc  -- msem_post(&b->mutex)
  at_b : Pc  -- msem_wait(&b->gate_b)
  through_b : Pc  -- msem_post(&b->gate_b)

-- One step of a thread, `none` where it blocks.
unfoldable pub advance : Barrier → Pc → Option (Barrier × Pc)
advance b out = if b.mutex == 0 then none else some (record b { mutex = b.mutex - 1 }, arriving)
advance b arriving =
    let b' = record b { arrived = b.arrived + 1 } in
    some (b', if b'.arrived == b.n then shut_b else arrival_done)
advance b shut_b = if b.gate_b == 0 then none else some (record b { gate_b = b.gate_b - 1 }, open_a)
advance b open_a = some (record b { gate_a = b.gate_a + 1 }, arrival_done)
advance b arrival_done = some (record b { mutex = b.mutex + 1 }, at_a)
advance b at_a =
    if b.gate_a == 0 then none else some (record b { gate_a = b.gate_a - 1 }, through_a)
advance b through_a = some (record b { gate_a = b.gate_a + 1 }, to_leave)
advance b to_leave = if b.mutex == 0 then none else some (record b { mutex = b.mutex - 1 }, leaving)
advance b leaving =
    let b' = record b { arrived = b.arrived - 1 } in
    some (b', if b'.arrived == 0 then shut_a else leave_done)
advance b shut_a = if b.gate_a == 0 then none else some (record b { gate_a = b.gate_a - 1 }, open_b)
advance b open_b = some (record b { gate_b = b.gate_b + 1 }, leave_done)
advance b leave_done = some (record b { mutex = b.mutex + 1 }, at_b)
advance b at_b =
    if b.gate_b == 0 then none else some (record b { gate_b = b.gate_b - 1 }, through_b)
advance b through_b = some (record b { gate_b = b.gate_b + 1 }, out)

-- A thread that comes out of `mbarrier_wait`.
abbrev pub comes_out : Pc → ℕ
comes_out through_b = 1
comes_out _ = 0

-- `rounds`, which the program does not keep, counts how often each thread came out.
pub record System : Type 0 where
  pub barrier : Barrier
  pub pc : ℕ → Pc
  pub rounds : ℕ → ℕ

pub data Step (s : System) : System → Type 0 where
  move :
      (i : ℕ) {b : Barrier} {p : Pc}
      → i < s.barrier.n
      → advance s.barrier (s.pc i) ≡ some (b, p)
      → Step s (record {
        barrier = b;
        pc = update s.pc i p;
        rounds = update s.rounds i (s.rounds i + comes_out (s.pc i));
      })

pub data Reach (n : ℕ) : System → Type 0 where
  start : Reach n (record { barrier = mbarrier_init n; pc = λ i. out; rounds = λ i. 0 })
  then_step : {s t : System} → Reach n s → Step s t → Reach n t
