-- ===== src/Locks/Sleeplock/Invariant.antt =====
-- our-course/labs/lab05-concurrency/part2-locks/solutions/mylock.c: the sleeping lock has one holder,
-- and no sleeper is forgotten.
use ia_operating_systems.Base.{
  ℕ, ◌+◌, ◌≤◌, ◌<◌, ◌≡◌, ◌≢◌, some, arith, refl, ◌∙◌, subst, update, update_ne, tally, tally-update,
  tally-zero, weight-le-tally,
}
use ia_operating_systems.Locks.Sleeplock.{
  Pc, idle, mark, park, asleep, retry, holding, drop, clear, wake, advance, System, Step, alone,
  wake_one, wake_none, interrupt, Reach, start, then_step,
}

-- What a thread counts for: a holder until the word is 0 again, a thread that will mark the word,
-- look at it again or wake a sleeper, and a sleeper.
abbrev pub holds : Pc → ℕ
holds holding = 1
holds drop = 1
holds clear = 1
holds _ = 0

abbrev pub helps : Pc → ℕ
helps mark = 1
helps park = 1
helps retry = 1
helps clear = 1
helps wake = 1
helps _ = 0

abbrev pub sleeps : Pc → ℕ
sleeps asleep = 1
sleeps _ = 0

pub record Counts : Type 0 where
  pub holders : ℕ
  pub helpers : ℕ
  pub sleepers : ℕ

abbrev pub counts : ℕ → (ℕ → Pc) → Counts
counts n pc = record {
  holders = tally holds n pc;
  helpers = tally helps n pc;
  sleepers = tally sleeps n pc;
}

pub record CountsInv (state : ℕ) (c : Counts) : Type 0 where
  pub word : state ≤ 2
  pub free : state ≡ 0 → c.holders ≡ 0
  pub held : 1 ≤ state → c.holders ≡ 1
  pub heard : 1 ≤ c.sleepers → 2 ≤ state + c.helpers + c.helpers

pub record Shifted (q p : Pc) (c d : Counts) : Type 0 where
  pub holders : (d.holders + holds q ≡ c.holders + holds p) × (holds q ≤ c.holders)
  pub helpers : (d.helpers + helps q ≡ c.helpers + helps p) × (helps q ≤ c.helpers)
  pub sleepers : (d.sleepers + sleeps q ≡ c.sleepers + sleeps p) × (sleeps q ≤ c.sleepers)

counts-update :
    (n : ℕ) (pc : ℕ → Pc) (i : ℕ) {q : Pc} (p : Pc)
    → i < n
    → pc i ≡ q
    → Shifted q p (counts n pc) (counts n (update pc i p))
counts-update n pc i p lt e =
    subst (λ r. Shifted r p (counts n pc) (counts n (update pc i p))) e
      (record {
        holders = (tally-update holds n pc i p lt, weight-le-tally holds n pc i lt);
        helpers = (tally-update helps n pc i p lt, weight-le-tally helps n pc i lt);
        sleepers = (tally-update sleeps n pc i p lt, weight-le-tally sleeps n pc i lt);
      })

advance-CountsInv :
    {state state' : ℕ} {c d : Counts} {p : Pc} (q : Pc)
    → CountsInv state c
    → advance state q ≡ some (state', p)
    → Shifted q p c d
    → CountsInv state' d
unfolding advance
advance-CountsInv idle v e m = ground arith
advance-CountsInv q v e m = ground arith

woken-CountsInv :
    {state : ℕ} {c d : Counts} → CountsInv state c → Shifted asleep retry c d → CountsInv state d
woken-CountsInv v m = ground arith

wake_one-CountsInv :
    {state : ℕ} {c d e : Counts}
    → CountsInv state c
    → Shifted wake idle c d
    → Shifted asleep retry d e
    → CountsInv state e
wake_one-CountsInv v m k = ground arith

wake_none-CountsInv :
    {state : ℕ} {c d : Counts}
    → CountsInv state c
    → Shifted wake idle c d
    → c.sleepers ≡ 0
    → CountsInv state d
wake_none-CountsInv v m k = ground arith

sleeps-zero : (q : Pc) → q ≢ asleep → sleeps q ≡ 0
sleeps-zero asleep ne = absurd (ne refl)
sleeps-zero q ne = ground arith

abbrev pub Inv : ℕ → System → Type 0
Inv n s = CountsInv s.state (counts n s.pc)

pub Step-Inv : {n : ℕ} {s t : System} → Step n s t → Inv n s → Inv n t
Step-Inv {n} {s} (alone i {p = p} lt e) v =
    advance-CountsInv (s.pc i) v e (counts-update n s.pc i p lt refl)
Step-Inv {n} {s} (wake_one i j ilt jlt at to) v =
    wake_one-CountsInv v (counts-update n s.pc i idle ilt at)
      (counts-update n (update s.pc i idle) j retry jlt (update_ne s.pc i idle j apart ∙ to))
  where
    apart : i ≢ j
    apart e = ground arith
Step-Inv {n} {s} (wake_none i lt at none_asleep) v =
    wake_none-CountsInv v (counts-update n s.pc i idle lt at)
      (tally-zero sleeps n s.pc (λ j jlt. sleeps-zero (s.pc j) (none_asleep j jlt)))
Step-Inv {n} {s} (interrupt j lt at) v = woken-CountsInv v (counts-update n s.pc j retry lt at)

pub Reach-Inv : {n : ℕ} {s : System} → Reach n s → Inv n s
Reach-Inv {n} start = omega (
  arith,
  tally-zero holds n (λ i. idle) (λ i lt. refl),
  tally-zero helps n (λ i. idle) (λ i lt. refl),
  tally-zero sleeps n (λ i. idle) (λ i lt. refl),
)
Reach-Inv (then_step r st) = Step-Inv st (Reach-Inv r)
