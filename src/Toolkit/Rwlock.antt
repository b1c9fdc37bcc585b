-- ===== src/Toolkit/Rwlock.antt =====
-- our-course/labs/lab05-concurrency/part4-toolkit/solutions/toolkit.c: the reader-writer lock, as
-- threads that run its four functions in any interleaving. A semaphore is its value: `msem_wait`
-- is one step that a zero value blocks, `msem_post` is one step.
pub mod Invariant
pub mod Exclusion
use ia_operating_systems.Base.{
  ℕ, ◌+◌, ◌-◌, ◌<◌, ◌≡◌, Bool, true, false, ◌==◌, if◌then◌else◌, Option, none, some, update,
}

-- `struct rwlock`
pub record Rwlock : Type 0 where
  pub readers : ℕ
  pub mutex : ℕ
  pub room_empty : ℕ
  pub turnstile : ℕ

-- `rw_init`
abbrev pub rw_init : Rwlock
rw_init = record { readers = 0; mutex = 1; room_empty = 1; turnstile = 1 }

-- Where a thread stands: each point names the call that comes next.
pub data Pc : Type 0 where
  idle : Pc
  -- rw_acquire_read
  read_gate : Pc  -- msem_wait(&l->turnstile)
  read_pass : Pc  -- msem_post(&l->turnstile)
  read_lock : Pc  -- msem_wait(&l->mutex)
  read_count : Pc  -- ++l->readers
  read_room : Pc  -- msem_wait(&l->room_empty)
  read_unlock : Pc  -- msem_post(&l->mutex)
  reading : Pc
  -- rw_release_read
  leave_lock : Pc  -- msem_wait(&l->mutex)
  leave_count : Pc  -- --l->readers
  leave_room : Pc  -- msem_post(&l->room_empty)
  leave_unlock : Pc  -- msem_post(&l->mutex)
  -- rw_acquire_write
  write_gate : Pc  -- msem_wait(&l->turnstile)
  write_room : Pc  -- msem_wait(&l->room_empty)
  writing : Pc
  -- rw_release_write
  done_gate : Pc  -- msem_post(&l->turnstile)
  done_room : Pc  -- msem_post(&l->room_empty)

-- The value after a wait, which blocks at zero.
abbrev wait : ℕ → Option ℕ
wait v = if v == 0 then none else some (v - 1)

abbrev at {ℓ κ} : {A : Type ℓ} {B : Type κ} → Option A → (A → B) → Option B
at none f = none
at (some a) f = some (f a)

-- One step of a thread, `none` where it blocks. The flag chooses what an idle thread calls.
unfoldable pub advance : Bool → Rwlock → Pc → Option (Rwlock × Pc)
advance writer l idle = some (l, if writer then write_gate else read_gate)
advance writer l read_gate = at (wait l.turnstile) λ v. (record l { turnstile = v }, read_pass)
advance writer l read_pass = some (record l { turnstile = l.turnstile + 1 }, read_lock)
advance writer l read_lock = at (wait l.mutex) λ v. (record l { mutex = v }, read_count)
advance writer l read_count =
    some
      (record l { readers = l.readers + 1 }, if l.readers + 1 == 1 then read_room else read_unlock)
advance writer l read_room = at (wait l.room_empty) λ v. (record l { room_empty = v }, read_unlock)
advance writer l read_unlock = some (record l { mutex = l.mutex + 1 }, reading)
advance writer l reading = some (l, leave_lock)
advance writer l leave_lock = at (wait l.mutex) λ v. (record l { mutex = v }, leave_count)
advance writer l leave_count =
    some (
      record l { readers = l.readers - 1 },
      if l.readers - 1 == 0 then leave_room else leave_unlock,
    )
advance writer l leave_room = some (record l { room_empty = l.room_empty + 1 }, leave_unlock)
advance writer l leave_unlock = some (record l { mutex = l.mutex + 1 }, idle)
advance writer l write_gate = at (wait l.turnstile) λ v. (record l { turnstile = v }, write_room)
advance writer l write_room = at (wait l.room_empty) λ v. (record l { room_empty = v }, writing)
advance writer l writing = some (l, done_gate)
advance writer l done_gate = some (record l { turnstile = l.turnstile + 1 }, done_room)
advance writer l done_room = some (record l { room_empty = l.room_empty + 1 }, idle)

pub record System : Type 0 where
  pub lock : Rwlock
  pub pc : ℕ → Pc

-- Any of the `n` threads that is not blocked may move.
pub data Step (n : ℕ) (s : System) : System → Type 0 where
  move :
      (i : ℕ) (writer : Bool) {l : Rwlock} {p : Pc}
      → i < n
      → advance writer s.lock (s.pc i) ≡ some (l, p)
      → Step n s (record { lock = l; pc = update s.pc i p })

pub data Reach (n : ℕ) : System → Type 0 where
  start : Reach n (record { lock = rw_init; pc = λ i. idle })
  then_step : {s t : System} → Reach n s → Step n s t → Reach n t
