-- ===== src/Toolkit/Phils/Progress.antt =====
-- our-course/labs/lab05-concurrency/part4-toolkit/solutions/toolkit.c: the philosophers never
-- deadlock, because the footman keeps one of them from the table.
use mathlib.Core.Logic.{◌⊎◌, inl, inr}
use native.Mathlib.Nat.{mod-lt, mod-eq_of_lt, mod_self, add-mod_right, mod-add-mod}
use ia_operating_systems.Base.{
  ℕ, zero, suc, ◌+◌, ◌-◌, ◌%◌, ◌≤◌, ◌<◌, ◌≡◌, ◌≢◌, none, arith, refl, ap, sym, ◌∙◌, tally,
  tally_witness, tally-full, dec_lt, ℕ_discrete, weight-le-tally, subst,
}
use ia_operating_systems.Toolkit.Phils.{Phils, other_fork, Pc, thinking, advance, System, Reach}
use ia_operating_systems.Toolkit.Phils.Invariant.{
  own, other, at_own, at_other, busy, Inv, Reach-Inv,
}

abbrev pub CanMove : System → ℕ → Type 0
CanMove s w = advance s.table w (s.pc w) ≢ none

-- Some philosopher that is not thinking can move.
abbrev pub SomeMoves : ℕ → System → Type 0
SomeMoves n s = (w : ℕ) × (w < n) × (s.pc w ≢ thinking) × CanMove s w

busy_moves : (t : Phils) (w : ℕ) (q : Pc) → 1 ≤ busy q → (q ≢ thinking) × (advance t w q ≢ none)
unfolding advance
busy_moves t w thinking h = absurd (omega arith)
busy_moves t w q h = (λ e. cc, λ e. ground arith)

own_moves :
    (t : Phils) (w : ℕ) (q : Pc)
    → 1 ≤ at_own q
    → 1 ≤ t.fork w
    → (q ≢ thinking) × (advance t w q ≢ none)
unfolding advance
own_moves t w thinking h f = absurd (omega arith)
own_moves t w q h f = (λ e. ground arith, λ e. ground arith)

other_moves :
    (t : Phils) (w : ℕ) (q : Pc)
    → 1 ≤ at_other q
    → 1 ≤ t.fork (other_fork t w)
    → (q ≢ thinking) × (advance t w q ≢ none)
unfolding advance
other_moves t w thinking h f = absurd (omega arith)
other_moves t w q h f = (λ e. ground arith, λ e. ground arith)

-- With nobody seated the footman lets the next one in.
seat_moves :
    (t : Phils) (w : ℕ) (q : Pc)
    → at_own q ≡ 0
    → at_other q ≡ 0
    → busy q ≡ 0
    → 1 ≤ t.footman
    → advance t w q ≢ none
unfolding advance
seat_moves t w thinking a b c f e = ground arith
seat_moves t w q a b c f e = ground arith

-- Going round the table from `w`, either all of `k + 1` philosophers satisfy `f`, or one does whose
-- neighbour does not.
round :
    (n : ℕ) (f : ℕ → ℕ) (w k : ℕ)
    → 0 < n
    → 1 ≤ f (w % n)
    → ((j : ℕ) → j ≤ k → 1 ≤ f ((w + j) % n))
      ⊎ ((v : ℕ) × (v < n) × (1 ≤ f v) × (f ((v + 1) % n) ≡ 0))
round n f w zero pos h = inl (λ j le. let e : w + j ≡ w = omega arith in rw e h)
round n f w (suc k) pos h = elim (round n f w k pos h) [
  | inr found ↦ inr found
  | inl all ↦ elim (dec_lt 0 (f ((w + suc k) % n))) [
    | yes more ↦ inl (extend all more)
    | no gap ↦ inr ((w + k) % n, mod-lt (w + k) pos, all k (omega arith), ap f next ∙ omega arith)
  ]
]
  where
    next : ((w + k) % n + 1) % n ≡ (w + suc k) % n
    next = mod-add-mod (w + k) n 1 ∙ ap (λ x. x % n) (omega arith)

    extend :
        ((j : ℕ) → j ≤ k → 1 ≤ f ((w + j) % n))
        → 1 ≤ f ((w + suc k) % n)
        → (j : ℕ) → j ≤ suc k
        → 1 ≤ f ((w + j) % n)
    extend all more j le = elim (ℕ_discrete j (suc k)) [
      | yes e ↦ rw e more
      | no ne ↦ all j (omega arith)
    ]

-- Once round the table is everybody.
everybody : (n w v : ℕ) → w < n → v < n → (j : ℕ) × (j ≤ n - 1) × ((w + j) % n ≡ v)
everybody n w v hw hv = elim (dec_lt v w) [
  | yes before ↦
      let e : w + (v + n - w) ≡ v + n = omega arith in
      (v + n - w, omega arith, ap (λ x. x % n) e ∙ add-mod_right v n ∙ mod-eq_of_lt hv)
  | no after ↦
      let e : w + (v - w) ≡ v = omega arith in
      (v - w, omega arith, ap (λ x. x % n) e ∙ mod-eq_of_lt hv)
]

-- If not everybody waits for a second fork, somebody who does has a neighbour who does not.
last_in_chain :
    (n : ℕ) (pc : ℕ → Pc)
    → 1 ≤ tally at_other n pc
    → tally at_other n pc < n
    → (v : ℕ) × (v < n) × (1 ≤ at_other (pc v)) × (at_other (pc ((v + 1) % n)) ≡ 0)
last_in_chain n pc some_wait not_all =
    let (w, wlt, here) = tally_witness at_other n pc some_wait in
    elim (round n (λ i. at_other (pc i)) w (n - 1) (omega arith) (rw (mod-eq_of_lt wlt) here)) [
      | inr found ↦ found
      | inl all ↦ absurd (omega (arith, tally-full at_other n pc (λ v vlt. fill w v all wlt vlt)))
    ]
  where
    fill :
        (w v : ℕ)
        → ((j : ℕ) → j ≤ n - 1 → 1 ≤ at_other (pc ((w + j) % n)))
        → w < n
        → v < n
        → 1 ≤ at_other (pc v)
    fill w v all wlt vlt =
        let (j, le, e) = everybody n w v wlt vlt in subst (λ x. 1 ≤ at_other (pc x)) e (all j le)

holds_own : (q : Pc) → at_other q ≡ 0 → busy q ≡ 0 → own q ≡ 0
holds_own thinking a b = refl
holds_own q a b = ground arith

holds_other : (q : Pc) → busy q ≡ 0 → other q ≡ 0
holds_other thinking b = refl
holds_other q b = ground arith

neighbour_before : (n w : ℕ) → w < n → (u : ℕ) × (u < n) × ((u + 1) % n ≡ w)
neighbour_before n w lt = elim (ℕ_discrete w 0) [
  | yes e ↦
      let full : n - 1 + 1 ≡ n = omega arith in
      (n - 1, omega arith, ap (λ x. x % n) full ∙ mod_self n ∙ sym e)
  | no ne ↦
      let back : w - 1 + 1 ≡ w = omega arith in
      (w - 1, omega arith, ap (λ x. x % n) back ∙ mod-eq_of_lt lt)
]

module _ (n : ℕ) (s : System) (v : Inv n s) (h : 2 ≤ n) (quiet : tally busy n s.pc ≡ 0) where
  nobody_busy : (w : ℕ) → w < n → busy (s.pc w) ≡ 0
  nobody_busy w lt = omega (arith, weight-le-tally busy n s.pc w lt)

  own_fork_free : (w : ℕ) → w < n → 1 ≤ at_own (s.pc w) → 1 ≤ s.table.fork w
  own_fork_free w lt here = let (u, ult, e) = neighbour_before n w lt in free u ult e
    where
      at_own_holds : (q : Pc) → 1 ≤ at_own q → own q ≡ 0
      at_own_holds thinking g = refl
      at_own_holds q g = ground arith

      free : (u : ℕ) → u < n → (u + 1) % n ≡ w → 1 ≤ s.table.fork w
      free u ult e = omega (
        arith,
        subst (λ x. s.table.fork x + own (s.pc x) + other (s.pc u) ≡ 1) e (v.forks u ult),
        at_own_holds (s.pc w) here,
        holds_other (s.pc u) (nobody_busy u ult),
      )

  other_fork_free :
      (w : ℕ) → w < n → at_other (s.pc ((w + 1) % n)) ≡ 0 → 1 ≤ s.table.fork (other_fork s.table w)
  other_fork_free w lt gap = rw v.size (
      omega (
        arith,
        v.forks w lt,
        holds_own (s.pc ((w + 1) % n)) gap
            (nobody_busy ((w + 1) % n) (mod-lt (w + 1) (omega arith))),
        holds_other (s.pc w) (nobody_busy w lt),
      ))

-- No deadlock at a table of at least two: while some philosopher is hungry, eats or puts its forks down, one such philosopher
-- can move.
pub phils_no_deadlock :
    {n : ℕ} {s : System} (i : ℕ) → 2 ≤ n → Reach n s → i < n → s.pc i ≢ thinking → SomeMoves n s
phils_no_deadlock {n} {s} i h r ilt hungry = elim (dec_lt 0 (tally busy n s.pc)) [
  | yes some_busy ↦
      let (w, lt, here) = tally_witness busy n s.pc some_busy in
      let (a, b) = busy_moves s.table w (s.pc w) here in (w, lt, a, b)
  | no quiet ↦ elim (dec_lt 0 (tally at_own n s.pc)) [
    | yes some_own ↦
        let (w, lt, here) = tally_witness at_own n s.pc some_own in
        let (a, b) =
          own_moves s.table w (s.pc w) here (own_fork_free n s inv h (omega arith) w lt here) in
        (w, lt, a, b)
    | no no_own ↦ elim (dec_lt 0 (tally at_other n s.pc)) [
      | yes some_other ↦
          let (w, lt, here, gap) = last_in_chain n s.pc some_other (omega (arith, inv.seats)) in
          let (a, b) =
            other_moves s.table w (s.pc w) here
              (other_fork_free n s inv h (omega arith) w lt gap) in
          (w, lt, a, b)
      | no no_other ↦ (
        i,
        ilt,
        hungry,
        seat_moves s.table i (s.pc i) (omega (arith, weight-le-tally at_own n s.pc i ilt))
            (omega (arith, weight-le-tally at_other n s.pc i ilt))
            (omega (arith, weight-le-tally busy n s.pc i ilt)) (omega (arith, inv.seats)),
      )
    ]
  ]
]
  where
    inv : Inv n s
    inv = Reach-Inv h r
