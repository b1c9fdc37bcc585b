-- ===== src/Locks/Spinlock.antt =====
-- our-course/labs/lab05-concurrency/part2-locks/solutions/mylock.c: the test-and-test-and-set lock, as
-- threads that acquire and release it in any interleaving. Each atomic access is one step.
use ia_operating_systems.Base.{
  ℕ, ◌+◌, ◌≤◌, ◌<◌, ◌≡◌, ◌≢◌, ◌↔◌, ◌==◌, if◌then◌else◌, arith, refl, ◌∙◌, update, tally,
  tally-update, tally-zero, weight-le-tally, two-weights-le-tally,
}

-- Where a thread stands: each point names the access that comes next.
pub data Pc : Type 0 where
  idle : Pc
  exchange : Pc  -- __atomic_exchange_n(&l->flag, 1, __ATOMIC_ACQUIRE)
  load : Pc  -- __atomic_load_n(&l->flag, __ATOMIC_RELAXED)
  holding : Pc
  store : Pc  -- __atomic_store_n(&l->flag, 0, __ATOMIC_RELEASE)

-- One step of a thread, with the flag; no step waits.
unfoldable pub advance : ℕ → Pc → ℕ × Pc
advance flag idle = (flag, exchange)
advance flag exchange = (1, if flag == 0 then holding else load)
advance flag load = (flag, if flag == 0 then exchange else load)
advance flag holding = (flag, store)
advance flag store = (0, idle)

pub record System : Type 0 where
  pub flag : ℕ
  pub pc : ℕ → Pc

pub data Step (n : ℕ) (s : System) : System → Type 0 where
  move :
      (i : ℕ) {flag : ℕ} {p : Pc}
      → i < n
      → advance s.flag (s.pc i) ≡ (flag, p)
      → Step n s (record { flag = flag; pc = update s.pc i p })

pub data Reach (n : ℕ) : System → Type 0 where
  start : Reach n (record { flag = 0; pc = λ i. idle })
  then_step : {s t : System} → Reach n s → Step n s t → Reach n t

abbrev holds : Pc → ℕ
holds holding = 1
holds store = 1
holds _ = 0

-- The flag is the number of holders.
abbrev Inv : ℕ → System → Type 0
Inv n s = (s.flag ≡ tally holds n s.pc) × (s.flag ≤ 1)

advance-count :
    {flag flag' c d : ℕ} {p : Pc} (q : Pc)
    → flag ≡ c
    → flag ≤ 1
    → advance flag q ≡ (flag', p)
    → (d + holds q ≡ c + holds p) × (holds q ≤ c)
    → (flag' ≡ d) × (flag' ≤ 1)
unfolding advance
advance-count idle e l st m = ground arith
advance-count q e l st m = ground arith

Step-Inv : {n : ℕ} {s t : System} → Step n s t → Inv n s → Inv n t
Step-Inv {n} {s} (move i {p = p} lt e) v =
    advance-count (s.pc i) v.0 v.1 e
      (tally-update holds n s.pc i p lt, weight-le-tally holds n s.pc i lt)

Reach-Inv : {n : ℕ} {s : System} → Reach n s → Inv n s
Reach-Inv {n} start = omega (arith, tally-zero holds n (λ i. idle) (λ i lt. refl))
Reach-Inv (then_step r st) = Step-Inv st (Reach-Inv r)

-- No two threads hold the spinlock at once.
pub spinlock_exclusion :
    {n : ℕ} {s : System} (i j : ℕ)
    → Reach n s
    → i < n
    → j < n
    → i ≢ j
    → s.pc i ≡ holding
    → s.pc j ≢ holding
spinlock_exclusion {n} {s} i j r ilt jlt ne e f =
    ground (arith, Reach-Inv r, two-weights-le-tally holds n s.pc i j ne ilt jlt)

-- A thread at the exchange gets the lock exactly when no thread holds it or is about to release it.
pub spinlock_taken :
    {n : ℕ} {s : System} (i : ℕ)
    → Reach n s
    → i < n
    → s.pc i ≡ exchange
    → ((advance s.flag (s.pc i)).1 ≡ holding)
      ↔ ((j : ℕ) → j < n → (s.pc j ≢ holding) × (s.pc j ≢ store))
unfolding advance
spinlock_taken {n} {s} i r lt e = (forth, back)
  where
    v : Inv n s
    v = Reach-Inv r

    forth :
        (advance s.flag (s.pc i)).1 ≡ holding
        → (j : ℕ) → j < n
        → (s.pc j ≢ holding) × (s.pc j ≢ store)
    forth h j jlt = (
      λ f. ground (arith, v, weight-le-tally holds n s.pc j jlt),
      λ f. ground (arith, v, weight-le-tally holds n s.pc j jlt),
    )

    free : ((j : ℕ) → j < n → (s.pc j ≢ holding) × (s.pc j ≢ store)) → s.flag ≡ 0
    free h = v.0 ∙ tally-zero holds n s.pc (λ j jlt. nobody (s.pc j) (h j jlt))
      where
        nobody : (q : Pc) → (q ≢ holding) × (q ≢ store) → holds q ≡ 0
        nobody idle k = refl
        nobody q k = ground arith

    back :
        ((j : ℕ) → j < n → (s.pc j ≢ holding) × (s.pc j ≢ store))
        → (advance s.flag (s.pc i)).1 ≡ holding
    back h = ground (arith, free h)
