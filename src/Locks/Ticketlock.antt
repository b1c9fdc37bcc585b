-- ===== src/Locks/Ticketlock.antt =====
-- our-course/labs/lab05-concurrency/part2-locks/solutions/mylock.c: the ticket lock, as threads that
-- acquire and release it in any interleaving. Each atomic access is one step; the two counters are
-- unsigned and wrap round at 2 ^ 32.
pub mod Line
pub mod Invariant
pub mod Order
use ia_operating_systems.Base.{ℕ, ◌+◌, ◌%◌, ◌^◌, ◌<◌, ◌≡◌, ◌==◌, if◌then◌else◌, update}

pub record Lock : Type 0 where
  pub ticket : ℕ
  pub serving : ℕ

-- Where a thread stands, with its local variable `mine`.
pub data Pc : Type 0 where
  idle : Pc
  fetch : Pc  -- __atomic_fetch_add(&l->ticket, 1, __ATOMIC_RELAXED)
  load : ℕ → Pc  -- __atomic_load_n(&l->serving, __ATOMIC_ACQUIRE)
  holding : ℕ → Pc
  add : ℕ → Pc  -- __atomic_fetch_add(&l->serving, 1, __ATOMIC_RELEASE)

-- One step of a thread, with the lock; no step waits.
unfoldable pub advance : Lock → Pc → Lock × Pc
advance l idle = (l, fetch)
advance l fetch = (record l { ticket = (l.ticket + 1) % 2 ^ 32 }, load l.ticket)
advance l (load mine) = (l, if l.serving == mine then holding mine else load mine)
advance l (holding mine) = (l, add mine)
advance l (add mine) = (record l { serving = (l.serving + 1) % 2 ^ 32 }, idle)

pub record System : Type 0 where
  pub lock : Lock
  pub pc : ℕ → Pc

pub data Step (n : ℕ) (s : System) : System → Type 0 where
  move :
      (i : ℕ) {l : Lock} {p : Pc}
      → i < n
      → advance s.lock (s.pc i) ≡ (l, p)
      → Step n s (record { lock = l; pc = update s.pc i p })

pub data Reach (n : ℕ) : System → Type 0 where
  start : Reach n (record { lock = record { ticket = 0; serving = 0 }; pc = λ i. idle })
  then_step : {s t : System} → Reach n s → Step n s t → Reach n t
