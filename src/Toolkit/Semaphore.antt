-- ===== src/Toolkit/Semaphore.antt =====
-- our-course/labs/lab05-concurrency/part4-toolkit/solutions/toolkit.c: the semaphore of a mutex and a
-- condition variable, as threads that call `msem_wait` and `msem_post` in any interleaving. The mutex
-- and the condition variable are those of Pcbuffer.antt.
pub mod Invariant
pub mod Refinement
pub mod Promises
use ia_operating_systems.Base.{
  ℕ, ◌+◌, ◌-◌, ◌<◌, ◌≡◌, ◌≢◌, ◌==◌, if◌then◌else◌, Option, none, some, update,
}

-- `struct msem`, with the mutex as 1 when it is free and 0 when it is held. `waits` and `posts` are not
-- in the program: they count how often the value went down and up.
pub record Semaphore : Type 0 where
  pub value : ℕ
  pub lock : ℕ
  pub waits : ℕ
  pub posts : ℕ

-- `msem_init`, for a value that its assertion admits.
abbrev pub msem_init : ℕ → Semaphore
msem_init value = record { value = value; lock = 1; waits = 0; posts = 0 }

-- Where a thread stands: each point names what comes next.
pub data Pc : Type 0 where
  idle : Pc
  -- msem_wait
  wait_lock : Pc  -- pthread_mutex_lock
  wait_test : Pc  -- while (s->value == 0)
  wait_sleep : Pc  -- asleep on s->cv
  wait_wake : Pc  -- woken, before it has the mutex again
  wait_take : Pc  -- s->value--
  wait_unlock : Pc  -- pthread_mutex_unlock
  -- msem_post
  post_lock : Pc  -- pthread_mutex_lock
  post_add : Pc  -- s->value++
  post_signal : Pc  -- pthread_cond_signal(&s->cv)
  post_unlock : Pc  -- pthread_mutex_unlock

-- What an idle thread calls.
pub data Call : Type 0 where
  wait post : Call

abbrev entry : Call → Pc
entry wait = wait_lock
entry post = post_lock

abbrev lock_then : Semaphore → Pc → Option (Semaphore × Pc)
lock_then s p = if s.lock == 0 then none else some (record s { lock = s.lock - 1 }, p)

-- One step of a thread on its own, `none` where it waits for the mutex or for a wake-up, or is to
-- signal.
unfoldable pub advance : Call → Semaphore → Pc → Option (Semaphore × Pc)
advance c s idle = some (s, entry c)
advance c s wait_lock = lock_then s wait_test
advance c s wait_test =
    if s.value == 0 then some (record s { lock = s.lock + 1 }, wait_sleep) else some (s, wait_take)
advance c s wait_sleep = none
advance c s wait_wake = lock_then s wait_test
advance c s wait_take = some (record s { value = s.value - 1; waits = s.waits + 1 }, wait_unlock)
advance c s wait_unlock = some (record s { lock = s.lock + 1 }, idle)
advance c s post_lock = lock_then s post_add
advance c s post_add = some (record s { value = s.value + 1; posts = s.posts + 1 }, post_signal)
advance c s post_signal = none
advance c s post_unlock = some (record s { lock = s.lock + 1 }, idle)

pub record System : Type 0 where
  pub sem : Semaphore
  pub pc : ℕ → Pc

pub data Step (n : ℕ) (s : System) : System → Type 0 where
  alone :
      (i : ℕ) (c : Call) {b : Semaphore} {p : Pc}
      → i < n
      → advance c s.sem (s.pc i) ≡ some (b, p)
      → Step n s (record { sem = b; pc = update s.pc i p })
  signal :
      (i j : ℕ)
      → i < n
      → j < n
      → s.pc i ≡ post_signal
      → s.pc j ≡ wait_sleep
      → Step n s (record { sem = s.sem; pc = update (update s.pc i post_unlock) j wait_wake })
  unheard :
      (i : ℕ)
      → i < n
      → s.pc i ≡ post_signal
      → ((j : ℕ) → j < n → s.pc j ≢ wait_sleep)
      → Step n s (record { sem = s.sem; pc = update s.pc i post_unlock })
  spurious :
      (j : ℕ)
      → j < n
      → s.pc j ≡ wait_sleep
      → Step n s (record { sem = s.sem; pc = update s.pc j wait_wake })

pub data Reach (n value : ℕ) : System → Type 0 where
  start : Reach n value (record { sem = msem_init value; pc = λ i. idle })
  then_step : {s t : System} → Reach n value s → Step n s t → Reach n value t
