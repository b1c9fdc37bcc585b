-- ===== src/Locks/Ticketlock/Line.antt =====
-- our-course/labs/lab05-concurrency/part2-locks/solutions/mylock.c: the threads that have a ticket, in
-- line for the lock, and what holds of them when one thread moves.
use ia_operating_systems.Base.{
  ℕ, zero, suc, ◌+◌, ◌-◌, ◌%◌, ◌^◌, ◌≤◌, ◌<◌, ◌≡◌, ◌≢◌, arith, ap, sym, ◌∙◌, subst, update,
  update_self, update_ne, tally, ℕ_discrete,
}
use ia_operating_systems.Locks.Ticketlock.{Lock, Pc, idle, fetch, load, holding, add, System}

-- Whether a thread has a ticket, and whether it has the lock.
abbrev pub active : Pc → ℕ
active idle = 0
active fetch = 0
active (load mine) = 1
active (holding mine) = 1
active (add mine) = 1

abbrev pub held : Pc → ℕ
held (holding mine) = 1
held (add mine) = 1
held _ = 0

abbrev pub mine_of : Pc → ℕ
mine_of (load mine) = mine
mine_of (holding mine) = mine
mine_of (add mine) = mine
mine_of _ = 0

-- How many tickets are served before this one.
abbrev pub ahead : Lock → ℕ → ℕ
ahead l mine = (mine + 2 ^ 32 - l.serving) % 2 ^ 32

-- A thread with a ticket, where `out` of them are out.
pub record InLine (l : Lock) (out : ℕ) (p : Pc) : Type 0 where
  pub small : mine_of p < 2 ^ 32
  pub waits : ahead l (mine_of p) < out
  pub served : held p ≡ 1 → mine_of p ≡ l.serving

pub record Inv (n : ℕ) (s : System) : Type 0 where
  pub low : s.lock.serving < 2 ^ 32
  pub count : s.lock.ticket ≡ (s.lock.serving + tally active n s.pc) % 2 ^ 32
  pub line : (i : ℕ) → i < n → active (s.pc i) ≡ 1 → InLine s.lock (tally active n s.pc) (s.pc i)
  pub apart :
      (i j : ℕ)
      → i < n
      → j < n
      → i ≢ j
      → active (s.pc i) ≡ 1
      → active (s.pc j) ≡ 1
      → mine_of (s.pc i) ≢ mine_of (s.pc j)

pub tally-le : (n : ℕ) (f : ℕ → Pc) → tally active n f ≤ n
unfolding tally
tally-le zero f = omega arith
tally-le (suc n) f = omega (arith, tally-le n f, one (f n))
  where
    one : (p : Pc) → active p ≤ 1
    one idle = omega arith
    one fetch = omega arith
    one (load m) = omega arith
    one (holding m) = omega arith
    one (add m) = omega arith

-- A thread in line after a ticket is given out.
pub InLine-ticket :
    {l : Lock} {out ticket : ℕ} {p : Pc}
    → InLine l out p
    → InLine (record l { ticket = ticket }) (suc out) p
InLine-ticket v = record { small = v.small; waits = omega (arith, v.waits); served = v.served }

-- A thread in line after the holder has left.
pub InLine-next :
    {l : Lock} {out : ℕ} {p : Pc}
    → InLine l (suc out) p
    → l.serving < 2 ^ 32
    → mine_of p ≢ l.serving
    → InLine (record l { serving = (l.serving + 1) % 2 ^ 32 }) out p
InLine-next {l} {out} {p} v low ne = record {
  small = v.small;
  waits = shift l.serving (mine_of p) out low v.small ne v.waits;
  served = λ h. absurd (ne (v.served h));
}
  where
    shift :
        (s m out : ℕ)
        → s < 2 ^ 32
        → m < 2 ^ 32
        → m ≢ s
        → (m + 2 ^ 32 - s) % 2 ^ 32 < suc out
        → (m + 2 ^ 32 - (s + 1) % 2 ^ 32) % 2 ^ 32 < out
    shift s m out a b c d = omega arith

-- What holds at every thread after one has moved.
pub at_update :
    (P : ℕ → Pc → Type 0) (f : ℕ → Pc) (i : ℕ) (p : Pc)
    → ((j : ℕ) → i ≢ j → P j (f j))
    → P i p
    → (j : ℕ) → P j (update f i p j)
at_update P f i p others own j = elim (ℕ_discrete i j) [
  | yes e ↦ subst (λ k. P k (update f i p k)) e (subst (P i) (sym (update_self f i p)) own)
  | no ne ↦ subst (P j) (sym (update_ne f i p j ne)) (others j ne)
]

unfoldable pub Apart : ℕ → (ℕ → Pc) → Type 0
Apart n f =
    (j k : ℕ)
    → j < n
    → k < n
    → j ≢ k
    → active (f j) ≡ 1
    → active (f k) ≡ 1
    → mine_of (f j) ≢ mine_of (f k)

pub Apart-update :
    (n : ℕ) (f : ℕ → Pc) (i : ℕ) (p : Pc)
    → Apart n f
    → ((k : ℕ) → k < n → i ≢ k → active p ≡ 1 → active (f k) ≡ 1 → mine_of p ≢ mine_of (f k))
    → Apart n (update f i p)
unfolding Apart
Apart-update n f i p old new j k jlt klt =
    at_update
      (λ k q.
        k < n
        → j ≢ k
        → active (update f i p j) ≡ 1
        → active q ≡ 1
        → mine_of (update f i p j) ≢ mine_of q)
      f i p (λ k ne klt. row k ne klt j jlt) (λ ilt ne. own j jlt ilt (λ e. ne (sym e))) k klt
  where
    row :
        (k : ℕ)
        → i ≢ k
        → k < n
        → (j : ℕ) → j < n
        → j ≢ k
        → active (update f i p j) ≡ 1
        → active (f k) ≡ 1
        → mine_of (update f i p j) ≢ mine_of (f k)
    row k ne klt =
        at_update
          (λ j q. j < n → j ≢ k → active q ≡ 1 → active (f k) ≡ 1 → mine_of q ≢ mine_of (f k)) f i p
          (λ j nej jlt njk. old j k jlt klt njk) (λ ilt nik. new k klt nik)

    own :
        (j : ℕ)
        → j < n
        → i < n
        → i ≢ j
        → active (update f i p j) ≡ 1
        → active p ≡ 1
        → mine_of (update f i p j) ≢ mine_of p
    own j jlt ilt ne a b e =
        let same = update_ne f i p j ne in
        new j jlt ne b (sym (ap active same) ∙ a) (sym (sym (ap mine_of same) ∙ e))
