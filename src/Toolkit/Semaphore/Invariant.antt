-- ===== src/Toolkit/Semaphore/Invariant.antt =====
-- our-course/labs/lab05-concurrency/part4-toolkit/solutions/toolkit.c: the invariant of the semaphore and
-- its threads.
use ia_operating_systems.Base.{
  ℕ, ◌+◌, ◌≤◌, ◌<◌, ◌≡◌, ◌≢◌, some, update, update_ne, arith, refl, ap, sym, ◌∙◌, subst, tally,
  tally-update, tally-zero, weight-le-tally,
}
use ia_operating_systems.Toolkit.Semaphore.{
  Semaphore, msem_init, Pc, idle, wait_test, wait_sleep, wait_wake, wait_take, wait_unlock,
  post_add, post_signal, post_unlock, Call, advance, System, Step, alone, signal, unheard, spurious,
  Reach, start, then_step,
}

abbrev pub tests : Pc → ℕ
tests wait_test = 1
tests _ = 0

abbrev pub sleeps : Pc → ℕ
sleeps wait_sleep = 1
sleeps _ = 0

abbrev pub wakes : Pc → ℕ
wakes wait_wake = 1
wakes _ = 0

abbrev pub takes : Pc → ℕ
takes wait_take = 1
takes _ = 0

abbrev pub signals : Pc → ℕ
signals post_signal = 1
signals _ = 0

-- The other points at which the mutex is held.
abbrev pub holds : Pc → ℕ
holds wait_unlock = 1
holds post_add = 1
holds post_unlock = 1
holds _ = 0

pub record Counts : Type 0 where
  pub tests : ℕ
  pub sleeps : ℕ
  pub wakes : ℕ
  pub takes : ℕ
  pub signals : ℕ
  pub holds : ℕ

abbrev pub counts : ℕ → (ℕ → Pc) → Counts
counts n pc = record {
  tests = tally tests n pc;
  sleeps = tally sleeps n pc;
  wakes = tally wakes n pc;
  takes = tally takes n pc;
  signals = tally signals n pc;
  holds = tally holds n pc;
}

-- The mutex has at most one holder, a thread about to take finds a positive value, and a value that a
-- sleeper is not told of is at most what others are about to take or to announce.
pub record Inv (b : Semaphore) (c : Counts) : Type 0 where
  pub mutex : b.lock + (c.tests + c.takes + c.signals + c.holds) ≡ 1
  pub positive : 1 ≤ c.takes → 1 ≤ b.value
  pub told : 1 ≤ c.sleeps → b.value ≤ c.wakes + c.tests + c.takes + c.signals

abbrev Moves : (Pc → ℕ) → Pc → Pc → ℕ → ℕ → Type 0
Moves weight q p c d = (d + weight q ≡ c + weight p) × (weight q ≤ c)

-- The counts after one thread went from `q` to `p`.
record Shifted (q p : Pc) (c d : Counts) : Type 0 where
  tests : Moves tests q p c.tests d.tests
  sleeps : Moves sleeps q p c.sleeps d.sleeps
  wakes : Moves wakes q p c.wakes d.wakes
  takes : Moves takes q p c.takes d.takes
  signals : Moves signals q p c.signals d.signals
  holds : Moves holds q p c.holds d.holds

tally-Moves :
    (weight : Pc → ℕ) (n : ℕ) (pc : ℕ → Pc) (i : ℕ) (q p : Pc)
    → i < n
    → pc i ≡ q
    → Moves weight q p (tally weight n pc) (tally weight n (update pc i p))
tally-Moves weight n pc i q p lt e =
    subst (λ u. Moves weight u p (tally weight n pc) (tally weight n (update pc i p))) e
      (tally-update weight n pc i p lt, weight-le-tally weight n pc i lt)

counts-Shifted :
    (n : ℕ) (pc : ℕ → Pc) (i : ℕ) (q p : Pc)
    → i < n
    → pc i ≡ q
    → Shifted q p (counts n pc) (counts n (update pc i p))
counts-Shifted n pc i q p lt e = record {
  tests = tally-Moves tests n pc i q p lt e;
  sleeps = tally-Moves sleeps n pc i q p lt e;
  wakes = tally-Moves wakes n pc i q p lt e;
  takes = tally-Moves takes n pc i q p lt e;
  signals = tally-Moves signals n pc i q p lt e;
  holds = tally-Moves holds n pc i q p lt e;
}

advance-Inv :
    {b b' : Semaphore} {c d : Counts} {p : Pc} (call : Call) (q : Pc)
    → Inv b c
    → advance call b q ≡ some (b', p)
    → Shifted q p c d
    → Inv b' d
unfolding advance
advance-Inv call idle v e m = ground arith
advance-Inv call q v e m = ground arith

-- A signal moves the signaller and then the sleeper.
signal-Inv :
    {b : Semaphore} {c d e : Counts}
    → Inv b c
    → Shifted post_signal post_unlock c d
    → Shifted wait_sleep wait_wake d e
    → Inv b e
signal-Inv v m m' = ground arith

unheard-Inv :
    {b : Semaphore} {c d : Counts}
    → Inv b c
    → c.sleeps ≡ 0
    → Shifted post_signal post_unlock c d
    → Inv b d
unheard-Inv v none_asleep m = ground arith

spurious-Inv : {b : Semaphore} {c d : Counts} → Inv b c → Shifted wait_sleep wait_wake c d → Inv b d
spurious-Inv v m = ground arith

sleeps-zero : (n : ℕ) (pc : ℕ → Pc) → ((j : ℕ) → j < n → pc j ≢ wait_sleep) → tally sleeps n pc ≡ 0
sleeps-zero n pc h = tally-zero sleeps n pc (λ j lt. awake (pc j) (h j lt))
  where
    awake : (q : Pc) → q ≢ wait_sleep → sleeps q ≡ 0
    awake wait_sleep h = absurd (h refl)
    awake q h = ground arith

signals-is_sleeps : post_signal ≢ wait_sleep
signals-is_sleeps = cc

step-Inv :
    {n : ℕ} {s t : System} → Step n s t → Inv s.sem (counts n s.pc) → Inv t.sem (counts n t.pc)
step-Inv {n} {s} (alone i c {p = p} lt e) v =
    advance-Inv c (s.pc i) v e (counts-Shifted n s.pc i (s.pc i) p lt refl)
step-Inv {n} {s} (signal i j ilt jlt e f) v =
    let apart = λ (h : i ≡ j). signals-is_sleeps (sym e ∙ ap s.pc h ∙ f) in
    signal-Inv v (counts-Shifted n s.pc i post_signal post_unlock ilt e) (
      counts-Shifted n (update s.pc i post_unlock) j wait_sleep wait_wake jlt
        (update_ne s.pc i post_unlock j apart ∙ f))
step-Inv {n} {s} (unheard i lt e h) v =
    unheard-Inv v (sleeps-zero n s.pc h) (counts-Shifted n s.pc i post_signal post_unlock lt e)
step-Inv {n} {s} (spurious j lt e) v =
    spurious-Inv v (counts-Shifted n s.pc j wait_sleep wait_wake lt e)

start-Inv : (n value : ℕ) → Inv (msem_init value) (counts n (λ i. idle))
start-Inv n value =
    let z = λ (w : Pc → ℕ) (e : w idle ≡ 0). tally-zero w n (λ i. idle) (λ i lt. e) in
    omega
      (arith, z tests refl, z sleeps refl, z wakes refl, z takes refl, z signals refl, z holds refl)

pub Reach-Inv : {n value : ℕ} {s : System} → Reach n value s → Inv s.sem (counts n s.pc)
Reach-Inv {n} {value} start = start-Inv n value
Reach-Inv (then_step r st) = step-Inv st (Reach-Inv r)
