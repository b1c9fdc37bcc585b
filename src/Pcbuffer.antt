-- ===== src/Pcbuffer.antt =====
-- our-course/labs/lab05-concurrency/part3-pcbuffer/solutions/pcbuffer.c: the bounded buffer of a mutex
-- and two condition variables, as threads that call `pcb_put` and `pcb_get` in any interleaving.
-- A mutex is taken and given back in one step each. `pthread_cond_wait` gives the mutex back and
-- sleeps in one step; a sleeper wakes by a signal or spuriously, takes the mutex again and goes back
-- to the test. `pthread_cond_signal` wakes one sleeper, any of them, if there is one.
pub mod Counts
pub mod Fifo
pub mod Invariant
pub mod Promises
mod Tests
use ia_operating_systems.Base.{
  ℕ, ◌+◌, ◌-◌, ◌%◌, ◌<◌, ◌≡◌, ◌≢◌, ◌==◌, if◌then◌else◌, Option, none, some, update,
}

-- `struct pcbuffer`, with the mutex as 1 when it is free and 0 when it is held. `puts` and `gets` are
-- not in the program: they count the items stored and taken so far and remember them in order.
pub record Buffer : Type 0 where
  pub slots : ℕ → ℕ
  pub capacity : ℕ
  pub count : ℕ
  pub head : ℕ
  pub tail : ℕ
  pub lock : ℕ
  pub puts : ℕ
  pub gets : ℕ
  pub put_items : ℕ → ℕ
  pub got_items : ℕ → ℕ

-- `pcb_init`, for a capacity that its assertion admits.
abbrev pub pcb_init : ℕ → Buffer
pcb_init capacity = record {
  slots = λ i. 0;
  capacity = capacity;
  count = 0;
  head = 0;
  tail = 0;
  lock = 1;
  puts = 0;
  gets = 0;
  put_items = λ k. 0;
  got_items = λ k. 0;
}

-- The three statements of `pcb_put` that store the item.
unfoldable pub store_item : Buffer → ℕ → Buffer
store_item b item = record b {
  slots = update b.slots b.tail item;
  tail = (b.tail + 1) % b.capacity;
  count = b.count + 1;
  puts = b.puts + 1;
  put_items = update b.put_items b.puts item;
}

-- The three statements of `pcb_get` that take the item.
unfoldable pub take_item : Buffer → Buffer
take_item b = record b {
  head = (b.head + 1) % b.capacity;
  count = b.count - 1;
  gets = b.gets + 1;
  got_items = update b.got_items b.gets (b.slots b.head);
}

-- Where a thread stands: each point names what comes next.
pub data Pc : Type 0 where
  idle : Pc
  -- pcb_put
  put_lock : (item : ℕ) → Pc  -- pthread_mutex_lock
  put_test : (item : ℕ) → Pc  -- while (b->count == b->capacity)
  put_sleep : (item : ℕ) → Pc  -- asleep on b->empty
  put_wake : (item : ℕ) → Pc  -- woken, before it has the mutex again
  put_store : (item : ℕ) → Pc
  put_signal : Pc  -- pthread_cond_signal(&b->fill)
  put_unlock : Pc  -- pthread_mutex_unlock
  -- pcb_get
  get_lock : Pc  -- pthread_mutex_lock
  get_test : Pc  -- while (b->count == 0)
  get_sleep : Pc  -- asleep on b->fill
  get_wake : Pc  -- woken, before it has the mutex again
  get_take : Pc
  get_signal : (item : ℕ) → Pc  -- pthread_cond_signal(&b->empty)
  get_unlock : (item : ℕ) → Pc  -- pthread_mutex_unlock

-- What an idle thread calls.
pub data Call : Type 0 where
  put : (item : ℕ) → Call
  get : Call

abbrev entry : Call → Pc
entry (put item) = put_lock item
entry get = get_lock

-- One step of a thread on its own, `none` where it waits for the mutex or for a wake-up, or is to
-- signal.
unfoldable pub advance : Call → Buffer → Pc → Option (Buffer × Pc)
advance c b idle = some (b, entry c)
advance c b (put_lock item) =
    if b.lock == 0 then none else some (record b { lock = b.lock - 1 }, put_test item)
advance c b (put_test item) =
    if b.count == b.capacity
    then some (record b { lock = b.lock + 1 }, put_sleep item)
    else some (b, put_store item)
advance c b (put_sleep item) = none
advance c b (put_wake item) =
    if b.lock == 0 then none else some (record b { lock = b.lock - 1 }, put_test item)
advance c b (put_store item) = some (store_item b item, put_signal)
advance c b put_signal = none
advance c b put_unlock = some (record b { lock = b.lock + 1 }, idle)
advance c b get_lock = if b.lock == 0 then none else some (record b { lock = b.lock - 1 }, get_test)
advance c b get_test =
    if b.count == 0 then some (record b { lock = b.lock + 1 }, get_sleep) else some (b, get_take)
advance c b get_sleep = none
advance c b get_wake = if b.lock == 0 then none else some (record b { lock = b.lock - 1 }, get_test)
advance c b get_take = some (take_item b, get_signal (b.slots b.head))
advance c b (get_signal item) = none
advance c b (get_unlock item) = some (record b { lock = b.lock + 1 }, idle)

pub record System : Type 0 where
  pub buffer : Buffer
  pub pc : ℕ → Pc

-- A sleeper on either condition variable, and a signaller of either, with where they go.
pub data Wakes : Pc → Pc → Type 0 where
  producer : {item : ℕ} → Wakes (put_sleep item) (put_wake item)
  consumer : Wakes get_sleep get_wake

pub data Signals : Pc → Pc → Pc → Pc → Type 0 where
  fill : Signals put_signal put_unlock get_sleep get_wake
  empty :
      {item other : ℕ}
      → Signals (get_signal item) (get_unlock item) (put_sleep other) (put_wake other)

-- A signal that finds no sleeper.
pub data Unheard (n : ℕ) (pc : ℕ → Pc) : Pc → Pc → Type 0 where
  no_consumer : ((j : ℕ) → j < n → pc j ≢ get_sleep) → Unheard n pc put_signal put_unlock
  no_producer :
      {item : ℕ}
      → ((j other : ℕ) → j < n → pc j ≢ put_sleep other)
      → Unheard n pc (get_signal item) (get_unlock item)

pub data Step (n : ℕ) (s : System) : System → Type 0 where
  alone :
      (i : ℕ) (c : Call) {b : Buffer} {p : Pc}
      → i < n
      → advance c s.buffer (s.pc i) ≡ some (b, p)
      → Step n s (record { buffer = b; pc = update s.pc i p })
  signal :
      (i j : ℕ) {p q : Pc}
      → i < n
      → j < n
      → Signals (s.pc i) p (s.pc j) q
      → Step n s (record { buffer = s.buffer; pc = update (update s.pc i p) j q })
  unheard :
      (i : ℕ) {p : Pc}
      → i < n
      → Unheard n s.pc (s.pc i) p
      → Step n s (record { buffer = s.buffer; pc = update s.pc i p })
  spurious :
      (j : ℕ) {q : Pc}
      → j < n
      → Wakes (s.pc j) q
      → Step n s (record { buffer = s.buffer; pc = update s.pc j q })

pub data Reach (n capacity : ℕ) : System → Type 0 where
  start : Reach n capacity (record { buffer = pcb_init capacity; pc = λ i. idle })
  then_step : {s t : System} → Reach n capacity s → Step n s t → Reach n capacity t
