-- ===== src/Toolkit/Phils/Invariant.antt =====
-- our-course/labs/lab05-concurrency/part4-toolkit/solutions/toolkit.c: the dining philosophers: who
-- holds which fork, and how many sit at the table.
use native.Mathlib.Nat.{mod-eq_of_lt, mod_self}
use ia_operating_systems.Base.{
  ℕ, ◌+◌, ◌-◌, ◌%◌, ◌≤◌, ◌<◌, ◌≡◌, ◌≢◌, ◌==◌, if◌then◌else◌, some, update, arith, refl, ap, ◌∙◌,
  tally, tally-update, tally-zero, weight-le-tally, dec_lt, ℕ_discrete,
}
use ia_operating_systems.Toolkit.Phils.{
  Phils, Pc, thinking, to_own, to_other, eating, drop_other, drop_own, drop_seat, advance, System,
  Step, move, Reach, start, then_step,
}

-- The forks that a philosopher holds at each point: its own one and the other one.
abbrev pub own : Pc → ℕ
own to_other = 1
own eating = 1
own drop_other = 1
own drop_own = 1
own _ = 0

abbrev pub other : Pc → ℕ
other eating = 1
other drop_other = 1
other _ = 0

-- Seated philosophers: before the first fork, before the second, and those that nothing blocks.
abbrev pub at_own : Pc → ℕ
at_own to_own = 1
at_own _ = 0

abbrev pub at_other : Pc → ℕ
at_other to_other = 1
at_other _ = 0

abbrev pub busy : Pc → ℕ
busy eating = 1
busy drop_other = 1
busy drop_own = 1
busy drop_seat = 1
busy _ = 0

pub record Inv (n : ℕ) (s : System) : Type 0 where
  pub size : s.table.n ≡ n
  pub forks :
      (w : ℕ) → w < n → s.table.fork ((w + 1) % n) + own (s.pc ((w + 1) % n)) + other (s.pc w) ≡ 1
  pub seats :
      s.table.footman + tally at_own n s.pc + tally at_other n s.pc + tally busy n s.pc ≡ n - 1

-- The neighbour at a table of at least two, and that no two philosophers share one.
pub next-ne : (n w : ℕ) → 2 ≤ n → w < n → (w + 1) % n ≢ w
next-ne n w h lt e = elim (dec_lt (w + 1) n) [
  | yes inner ↦ omega (arith, mod-eq_of_lt inner)
  | no last ↦ let full : w + 1 ≡ n = omega arith in omega (arith, ap (λ k. k % n) full, mod_self n)
]

pub next_lem : (n w : ℕ) → w < n → (w + 1) % n ≡ (if w + 1 == n then 0 else w + 1)
next_lem n w lt = elim (ℕ_discrete (w + 1) n) [
  | yes last ↦ ground (arith, ap (λ k. k % n) last, mod_self n)
  | no inner ↦ ground (arith, mod-eq_of_lt {n = w + 1} {m = n} (omega arith))
]

pub next_injective : (n v w : ℕ) → v < n → w < n → (v + 1) % n ≡ (w + 1) % n → v ≡ w
next_injective n v w hv hw e = ground (arith, next_lem n v hv, next_lem n w hw)

forks-advance :
    (n : ℕ) (s : System) (i : ℕ) (q : Pc) {t : Phils} {p : Pc}
    → Inv n s
    → 2 ≤ n
    → i < n
    → s.pc i ≡ q
    → advance s.table i q ≡ some (t, p)
    → (w : ℕ) → w < n
    → t.fork ((w + 1) % n) + own (update s.pc i p ((w + 1) % n)) + other (update s.pc i p w) ≡ 1
unfolding advance
forks-advance n s i thinking v h lt at e w wlt = ground (arith, v.forks w, v.size, next-ne n w)
forks-advance n s i q v h lt at e w wlt =
    ground (arith, v.forks w, v.size, next-ne n w, next_injective n i w)

-- The seats after one philosopher went from `q` to `p`.
record Shifted (q p : Pc) (c d : ℕ × ℕ × ℕ) : Type 0 where
  own_fork : (d.0 + at_own q ≡ c.0 + at_own p) × (at_own q ≤ c.0)
  other_fork_wait : (d.1 + at_other q ≡ c.1 + at_other p) × (at_other q ≤ c.1)
  unblocked : (d.2 + busy q ≡ c.2 + busy p) × (busy q ≤ c.2)

seats-advance :
    (s : Phils) (i : ℕ) (q : Pc) {t : Phils} {p : Pc} (c d : ℕ × ℕ × ℕ) (room : ℕ)
    → s.footman + c.0 + c.1 + c.2 ≡ room
    → advance s i q ≡ some (t, p)
    → Shifted q p c d
    → (t.footman + d.0 + d.1 + d.2 ≡ room) × (t.n ≡ s.n)
unfolding advance
seats-advance s i thinking c d room h e m = ground arith
seats-advance s i q c d room h e m = ground arith

abbrev seated : ℕ → (ℕ → Pc) → ℕ × ℕ × ℕ
seated n pc = (tally at_own n pc, tally at_other n pc, tally busy n pc)

pub Step-Inv : {n : ℕ} {s t : System} → 2 ≤ n → Step s t → Inv n s → Inv n t
Step-Inv {n} {s} h (move i {t = t} {p = p} lt e) v = record {
  size = seats.1 ∙ v.size;
  forks = forks-advance n s i (s.pc i) v h lt' refl e;
  seats = seats.0;
}
  where
    lt' : i < n
    lt' = omega (arith, v.size)

    seats :
        (t.footman
            + tally at_own n (update s.pc i p)
            + tally at_other n (update s.pc i p)
            + tally busy n (update s.pc i p)
          ≡ n - 1)
        × (t.n ≡ s.table.n)
    seats =
        seats-advance s.table i (s.pc i) (seated n s.pc) (seated n (update s.pc i p)) (n - 1)
          v.seats e
          (record {
            own_fork = (tally-update at_own n s.pc i p lt', weight-le-tally at_own n s.pc i lt');
            other_fork_wait =
                (tally-update at_other n s.pc i p lt', weight-le-tally at_other n s.pc i lt');
            unblocked = (tally-update busy n s.pc i p lt', weight-le-tally busy n s.pc i lt');
          })

pub Reach-Inv : {n : ℕ} {s : System} → 2 ≤ n → Reach n s → Inv n s
Reach-Inv {n} h start = record {
  size = refl;
  forks = λ w lt. refl;
  seats = omega (
    arith,
    tally-zero at_own n (λ i. thinking) (λ i lt. refl),
    tally-zero at_other n (λ i. thinking) (λ i lt. refl),
    tally-zero busy n (λ i. thinking) (λ i lt. refl),
  );
}
Reach-Inv h (then_step r st) = Step-Inv h st (Reach-Inv h r)

-- At a table of at least two, no philosopher eats while the next one does.
pub neighbours_exclude :
    {n : ℕ} {s : System} (w : ℕ)
    → 2 ≤ n
    → Reach n s
    → w < n
    → s.pc w ≡ eating
    → s.pc ((w + 1) % n) ≢ eating
neighbours_exclude w h r lt e f = ground (arith, (Reach-Inv h r).forks w lt)
