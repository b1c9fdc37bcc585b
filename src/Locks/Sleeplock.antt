-- ===== src/Locks/Sleeplock.antt =====
-- our-course/labs/lab05-concurrency/part2-locks/solutions/mylock.c: the lock that sleeps in the
-- kernel, as threads that acquire and release it in any interleaving. Each atomic access is one
-- step. FUTEX_WAIT tests the word and sleeps in one step; FUTEX_WAKE wakes one sleeper, any of them,
-- if there is one; a sleeper also wakes by a signal.
pub mod Invariant
pub mod Promises
use ia_operating_systems.Base.{
  ℕ, ◌-◌, ◌<◌, ◌≡◌, ◌≢◌, ◌==◌, if◌then◌else◌, Option, none, some, update,
}

-- Where a thread stands: each point names what comes next.
pub data Pc : Type 0 where
  idle : Pc
  -- sleeplock_acquire
  take : Pc  -- c = cas(&l->state, 0, 1)
  mark : Pc  -- cas(&l->state, 1, 2) != 0
  park : Pc  -- futex_wait(&l->state, 2)
  asleep : Pc
  retry : Pc  -- c = cas(&l->state, 0, 2)
  holding : Pc
  -- sleeplock_release
  drop : Pc  -- __atomic_fetch_sub(&l->state, 1)
  clear : Pc  -- __atomic_store_n(&l->state, 0)
  wake : Pc  -- futex_wake_one(&l->state)

-- Back in the loop with what the swap found: 2 is already marked.
abbrev look : ℕ → Pc
look c = if c == 2 then park else mark

-- One step of a thread on its own, with the lock word; `none` where it sleeps or is to wake another.
unfoldable pub advance : ℕ → Pc → Option (ℕ × Pc)
advance state idle = some (state, take)
advance state take = some (if state == 0 then (1, holding) else (state, look state))
advance state mark =
    some (if state == 1 then (2, park) else (state, if state == 0 then retry else park))
advance state park = some (state, if state == 2 then asleep else retry)
advance state asleep = none
advance state retry = some (if state == 0 then (2, holding) else (state, look state))
advance state holding = some (state, drop)
advance state drop = some (state - 1, if state == 1 then idle else clear)
advance state clear = some (0, wake)
advance state wake = none

pub record System : Type 0 where
  pub state : ℕ
  pub pc : ℕ → Pc

pub data Step (n : ℕ) (s : System) : System → Type 0 where
  alone :
      (i : ℕ) {state : ℕ} {p : Pc}
      → i < n
      → advance s.state (s.pc i) ≡ some (state, p)
      → Step n s (record { state = state; pc = update s.pc i p })
  wake_one :
      (i j : ℕ)
      → i < n
      → j < n
      → s.pc i ≡ wake
      → s.pc j ≡ asleep
      → Step n s (record { state = s.state; pc = update (update s.pc i idle) j retry })
  wake_none :
      (i : ℕ)
      → i < n
      → s.pc i ≡ wake
      → ((j : ℕ) → j < n → s.pc j ≢ asleep)
      → Step n s (record { state = s.state; pc = update s.pc i idle })
  interrupt :
      (j : ℕ)
      → j < n
      → s.pc j ≡ asleep
      → Step n s (record { state = s.state; pc = update s.pc j retry })

pub data Reach (n : ℕ) : System → Type 0 where
  start : Reach n (record { state = 0; pc = λ i. idle })
  then_step : {s t : System} → Reach n s → Step n s t → Reach n t
