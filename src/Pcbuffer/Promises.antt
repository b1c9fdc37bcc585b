-- ===== src/Pcbuffer/Promises.antt =====
-- our-course/labs/lab05-concurrency/part3-pcbuffer/solutions/pcbuffer.c: what the bounded buffer
-- promises its threads.
use ia_operating_systems.Base.{
  ℕ, zero, suc, ◌+◌, ◌≤◌, ◌<◌, ◌≡◌, ◌≢◌, arith, refl, ap, tally, tally-zero, two-weights-le-tally,
  weight-le-tally,
}
use ia_operating_systems.Pcbuffer.{
  Pc, idle, put_test, put_sleep, put_store, put_signal, put_unlock, get_test, get_sleep, get_take,
  get_signal, get_unlock, System, Reach,
}
use ia_operating_systems.Pcbuffer.Counts.{
  p_test, p_sleep, p_wake, p_store, p_signal, g_test, g_sleep, g_wake, g_take, g_signal, unlocks,
}
use ia_operating_systems.Pcbuffer.Invariant.{Inv, Reach-Inv}

-- With a capacity of at least one, in every interleaving the item that was taken as number `k` is the
-- one that was put as number `k`.
pub fifo :
    {n capacity : ℕ} {s : System} (k : ℕ)
    → 1 ≤ capacity
    → Reach n capacity s
    → k < s.buffer.gets
    → s.buffer.got_items k ≡ s.buffer.put_items k
fifo k h r lt = (Reach-Inv h r).items.taken k lt

-- With a capacity of at least one, in every interleaving `count` is the number of items put and not
-- yet taken, and is at most the capacity.
pub bounded :
    {n capacity : ℕ} {s : System}
    → 1 ≤ capacity
    → Reach n capacity s
    → (s.buffer.puts ≡ s.buffer.gets + s.buffer.count) × (s.buffer.count ≤ capacity)
bounded h r = let v = Reach-Inv h r in (v.items.flow, omega (arith, v.size, v.items.fits))

-- The points between the lock and the unlock, the sleep on a condition variable apart.
abbrev pub inside : Pc → ℕ
inside (put_test _) = 1
inside (put_store _) = 1
inside put_signal = 1
inside put_unlock = 1
inside get_test = 1
inside get_take = 1
inside (get_signal _) = 1
inside (get_unlock _) = 1
inside _ = 0

inside-eq :
    (q : Pc)
    → inside q ≡ p_test q + p_store q + p_signal q + g_test q + g_take q + g_signal q + unlocks q
inside-eq idle = refl
inside-eq q = ground arith

tally-inside :
    (n : ℕ) (pc : ℕ → Pc)
    → tally inside n pc
      ≡ tally p_test n pc
        + tally p_store n pc
        + tally p_signal n pc
        + tally g_test n pc
        + tally g_take n pc
        + tally g_signal n pc
        + tally unlocks n pc
unfolding tally
tally-inside zero pc = refl
tally-inside (suc n) pc = omega (arith, tally-inside n pc, inside-eq (pc n))

-- With a capacity of at least one, at most one thread at a time is between the lock and the unlock of the mutex.
pub one_inside :
    {n capacity : ℕ} {s : System} (i j : ℕ)
    → 1 ≤ capacity
    → Reach n capacity s
    → i < n
    → j < n
    → i ≢ j
    → inside (s.pc i) + inside (s.pc j) ≤ 1
one_inside {n} {s = s} i j h r ilt jlt ne = omega (
  arith,
  (Reach-Inv h r).threads.mutex,
  tally-inside n s.pc,
  two-weights-le-tally inside n s.pc i j ne ilt jlt,
)

-- A thread that is not in a call, or asleep in one.
pub data AtRest : Pc → Type 0 where
  out : AtRest idle
  producer_asleep : {item : ℕ} → AtRest (put_sleep item)
  consumer_asleep : AtRest get_sleep

resting : {q : Pc} → AtRest q → inside q + p_wake q + g_wake q ≡ 0
resting out = refl
resting producer_asleep = refl
resting consumer_asleep = refl

-- With every thread at rest nobody holds the mutex or is about to take it again.
record Quiet (n : ℕ) (pc : ℕ → Pc) : Type 0 where
  holders : tally inside n pc ≡ 0
  producers : tally p_wake n pc ≡ 0
  consumers : tally g_wake n pc ≡ 0

quiet : {n : ℕ} {pc : ℕ → Pc} → ((j : ℕ) → j < n → AtRest (pc j)) → Quiet n pc
quiet {n} {pc} h = record {
  holders = tally-zero inside n pc λ j lt. omega (arith, resting (h j lt));
  producers = tally-zero p_wake n pc λ j lt. omega (arith, resting (h j lt));
  consumers = tally-zero g_wake n pc λ j lt. omega (arith, resting (h j lt));
}

-- No wake-up of a producer is lost, with a capacity of at least one: when every thread is out of the calls or asleep and a producer
-- sleeps, the buffer is full and no consumer sleeps.
pub producer_waits_for_room :
    {n capacity : ℕ} {s : System} (i j item : ℕ)
    → 1 ≤ capacity
    → Reach n capacity s
    → ((j : ℕ) → j < n → AtRest (s.pc j))
    → i < n
    → j < n
    → s.pc i ≡ put_sleep item
    → (s.buffer.count ≡ capacity) × (s.pc j ≢ get_sleep)
producer_waits_for_room {n} {capacity} {s} i j item h r rest lt jlt e = (full, nobody)
  where
    v : Inv n capacity s
    v = Reach-Inv h r

    full : s.buffer.count ≡ capacity
    full = omega (
      arith,
      v.size,
      v.threads.producers (omega (arith, ap p_sleep e, weight-le-tally p_sleep n s.pc i lt)),
      v.items.fits,
      (quiet rest).holders,
      (quiet rest).producers,
      tally-inside n s.pc,
    )

    nobody : s.pc j ≢ get_sleep
    nobody f = omega (
      arith,
      full,
      v.threads.consumers (omega (arith, ap g_sleep f, weight-le-tally g_sleep n s.pc j jlt)),
      (quiet rest).holders,
      (quiet rest).consumers,
      tally-inside n s.pc,
    )

-- No wake-up of a consumer is lost, with a capacity of at least one: when every thread is out of the calls or asleep and a consumer
-- sleeps, the buffer is empty and no producer sleeps.
pub consumer_waits_for_items :
    {n capacity : ℕ} {s : System} (i j item : ℕ)
    → 1 ≤ capacity
    → Reach n capacity s
    → ((j : ℕ) → j < n → AtRest (s.pc j))
    → i < n
    → j < n
    → s.pc i ≡ get_sleep
    → (s.buffer.count ≡ 0) × (s.pc j ≢ put_sleep item)
consumer_waits_for_items {n} {capacity} {s} i j item h r rest lt jlt e = (empty_buffer, nobody)
  where
    v : Inv n capacity s
    v = Reach-Inv h r

    empty_buffer : s.buffer.count ≡ 0
    empty_buffer = omega (
      arith,
      v.threads.consumers (omega (arith, ap g_sleep e, weight-le-tally g_sleep n s.pc i lt)),
      (quiet rest).holders,
      (quiet rest).consumers,
      tally-inside n s.pc,
    )

    nobody : s.pc j ≢ put_sleep item
    nobody f = (producer_waits_for_room j i item h r rest jlt lt f).1 e
