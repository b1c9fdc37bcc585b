-- ===== src/Pcbuffer/Invariant.antt =====
-- our-course/labs/lab05-concurrency/part3-pcbuffer/solutions/pcbuffer.c: the invariant of the buffer
-- and its threads, which every step keeps.
use ia_operating_systems.Base.{
  ℕ, ◌+◌, ◌≤◌, ◌<◌, ◌≡◌, ◌≢◌, some, update, arith, refl, ap, ◌∙◌, subst, tally, tally-zero,
  weight-le-tally, update_ne,
}
use ia_operating_systems.Pcbuffer.{
  Buffer, pcb_init, store_item, take_item, Pc, idle, put_sleep, get_sleep, Call, advance, System,
  Wakes, producer, consumer, Signals, fill, empty, Unheard, no_consumer, no_producer, Step, alone,
  signal, unheard, spurious, Reach, start, then_step,
}
use ia_operating_systems.Pcbuffer.Counts.{
  Counts, counts, Shifted, counts-update, p_test, p_sleep, p_store, p_signal, g_test, g_sleep,
  g_take, g_signal, unlocks,
}
use ia_operating_systems.Pcbuffer.Fifo.{FifoInv, advance-FifoInv, pcb_init-FifoInv}

-- The mutex has at most one holder, a thread about to store has room, one about to take has an item,
-- and the room that a sleeping producer is not told of is at most what others are about to use or to
-- announce; likewise for the items and the sleeping consumers.
pub record CountsInv (b : Buffer) (c : Counts) : Type 0 where
  pub mutex : b.lock + (c.pt + c.pst + c.psg + c.gt + c.gtk + c.gsg + c.un) ≡ 1
  pub fits : b.count ≤ b.capacity
  pub room : 1 ≤ c.pst → b.count < b.capacity
  pub item : 1 ≤ c.gtk → 1 ≤ b.count
  pub producers : 1 ≤ c.ps → b.capacity ≤ b.count + c.pw + c.pt + c.pst + c.gsg
  pub consumers : 1 ≤ c.gs → b.count ≤ c.gw + c.gt + c.gtk + c.psg

advance-CountsInv :
    {b b' : Buffer} {c d : Counts} {p : Pc} (call : Call) (q : Pc)
    → CountsInv b c
    → advance call b q ≡ some (b', p)
    → Shifted q p c d
    → CountsInv b' d
unfolding advance store_item take_item
advance-CountsInv call idle v e m = ground arith
advance-CountsInv call q v e m = ground arith

-- A signal moves the signaller and then the sleeper.
Signals-CountsInv :
    {b : Buffer} {c d e : Counts} {q p q' p' : Pc}
    → CountsInv b c
    → Signals q p q' p'
    → Shifted q p c d
    → Shifted q' p' d e
    → CountsInv b e
Signals-CountsInv v fill m m' = ground arith
Signals-CountsInv v empty m m' = ground arith

Wakes-CountsInv :
    {b : Buffer} {c d : Counts} {q p : Pc}
    → CountsInv b c
    → Wakes q p
    → Shifted q p c d
    → CountsInv b d
Wakes-CountsInv v producer m = ground arith
Wakes-CountsInv v consumer m = ground arith

-- With nobody asleep on a condition variable, none counts as asleep there.
sleep-zero :
    (n : ℕ) (pc : ℕ → Pc)
    → ((j other : ℕ) → j < n → pc j ≢ put_sleep other)
    → tally p_sleep n pc ≡ 0
sleep-zero n pc h = tally-zero p_sleep n pc (λ j lt. awake (pc j) (λ x. h j x lt))
  where
    awake : (q : Pc) → ((x : ℕ) → q ≢ put_sleep x) → p_sleep q ≡ 0
    awake (put_sleep x) h = absurd (h x refl)
    awake q h = ground arith

sleep-zero_get :
    (n : ℕ) (pc : ℕ → Pc) → ((j : ℕ) → j < n → pc j ≢ get_sleep) → tally g_sleep n pc ≡ 0
sleep-zero_get n pc h = tally-zero g_sleep n pc (λ j lt. awake (pc j) (h j lt))
  where
    awake : (q : Pc) → q ≢ get_sleep → g_sleep q ≡ 0
    awake get_sleep h = absurd (h refl)
    awake q h = ground arith

Unheard-CountsInv :
    {b : Buffer} {n : ℕ} {pc : ℕ → Pc} {d : Counts} {q p : Pc}
    → CountsInv b (counts n pc)
    → Unheard n pc q p
    → Shifted q p (counts n pc) d
    → CountsInv b d
Unheard-CountsInv {n} {pc} v (no_consumer h) m = ground (arith, sleep-zero_get n pc h)
Unheard-CountsInv {n} {pc} v (no_producer h) m = ground (arith, sleep-zero n pc h)

Signals-ne : {q p q' p' : Pc} → Signals q p q' p' → q ≢ q'
Signals-ne fill e = ground arith
Signals-ne empty e = ground arith

pub Step-CountsInv :
    {n : ℕ} {s t : System}
    → Step n s t
    → CountsInv s.buffer (counts n s.pc)
    → CountsInv t.buffer (counts n t.pc)
Step-CountsInv {n} {s} (alone i c {p = p} lt e) v =
    advance-CountsInv c (s.pc i) v e (counts-update n s.pc i p lt)
Step-CountsInv {n} {s} (signal i j {p = p} {q = q} ilt jlt w) v =
    Signals-CountsInv v w (counts-update n s.pc i p ilt) (
      subst
        (λ r. Shifted r q (counts n (update s.pc i p)) (counts n (update (update s.pc i p) j q)))
        (update_ne s.pc i p j (λ e. Signals-ne w (ap s.pc e)))
        (counts-update n (update s.pc i p) j q jlt))
Step-CountsInv {n} {s} (unheard i {p = p} lt u) v =
    Unheard-CountsInv v u (counts-update n s.pc i p lt)
Step-CountsInv {n} {s} (spurious j {q = q} lt w) v =
    Wakes-CountsInv v w (counts-update n s.pc j q lt)

pub record Inv (n capacity : ℕ) (s : System) : Type 0 where
  pub size : s.buffer.capacity ≡ capacity
  pub threads : CountsInv s.buffer (counts n s.pc)
  pub items : FifoInv s.buffer

Step-items :
    {n : ℕ} {s t : System}
    → Step n s t
    → CountsInv s.buffer (counts n s.pc)
    → FifoInv s.buffer
    → FifoInv t.buffer × (t.buffer.capacity ≡ s.buffer.capacity)
Step-items {n} {s} (alone i c lt e) v w =
    advance-FifoInv c (s.pc i) w (λ h. v.room (omega (arith, weight-le-tally p_store n s.pc i lt)))
      (λ h. v.item (omega (arith, weight-le-tally g_take n s.pc i lt))) e
Step-items (signal i j ilt jlt x) v w = (w, refl)
Step-items (unheard i lt u) v w = (w, refl)
Step-items (spurious j lt x) v w = (w, refl)

pub Step-Inv : {n capacity : ℕ} {s t : System} → Step n s t → Inv n capacity s → Inv n capacity t
Step-Inv st v = record {
  size = (Step-items st v.threads v.items).1 ∙ v.size;
  threads = Step-CountsInv st v.threads;
  items = (Step-items st v.threads v.items).0;
}

idle-tally : (weight : Pc → ℕ) (n : ℕ) → weight idle ≡ 0 → tally weight n (λ i. idle) ≡ 0
idle-tally weight n e = tally-zero weight n (λ i. idle) (λ i lt. e)

start-CountsInv : (n capacity : ℕ) → CountsInv (pcb_init capacity) (counts n (λ i. idle))
start-CountsInv n capacity = omega (
  arith,
  idle-tally p_test n refl,
  idle-tally p_sleep n refl,
  idle-tally p_store n refl,
  idle-tally p_signal n refl,
  idle-tally g_test n refl,
  idle-tally g_sleep n refl,
  idle-tally g_take n refl,
  idle-tally g_signal n refl,
  idle-tally unlocks n refl,
)

pub Reach-Inv : {n capacity : ℕ} {s : System} → 1 ≤ capacity → Reach n capacity s → Inv n capacity s
Reach-Inv {n} {capacity} h start = record {
  size = refl;
  threads = start-CountsInv n capacity;
  items = pcb_init-FifoInv capacity h;
}
Reach-Inv h (then_step r st) = Step-Inv st (Reach-Inv h r)
