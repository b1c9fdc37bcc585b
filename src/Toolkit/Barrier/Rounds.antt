-- ===== src/Toolkit/Barrier/Rounds.antt =====
-- our-course/labs/lab05-concurrency/part4-toolkit/solutions/toolkit.c: the rounds of the barrier: which
-- threads have been through it how often.
use ia_operating_systems.Base.{
  ℕ, zero, suc, sym, subst, ◌+◌, ◌≤◌, ◌<◌, ◌≡◌, ◌≢◌, some, update, update_self, update_ne, arith,
  refl, tally, tally-zero, ℕ_discrete,
}
use ia_operating_systems.Toolkit.Barrier.{
  Barrier, mbarrier_init, Pc, out, shut_b, open_b, advance, comes_out, System, Step, move, Reach,
  start, then_step,
}
use ia_operating_systems.Toolkit.Barrier.Counts.{
  early, shutting_b, opening_a, before_a, inside_a, past_a, shutting_a, opening_b, before_b,
  inside_b, holds, Counts, Shifted, Within, one_part, counts, counts-Within, counts-Shifted,
}
use ia_operating_systems.Toolkit.Barrier.Phases.{
  Phase, filling, full, turning, draining, empty, returning, Inv, next, advance-Inv,
}

-- A thread that is still in the round before the one that the phase belongs to.
abbrev pub late : Phase → Pc → ℕ
late filling u = before_b u + inside_b u
late full u = before_b u + inside_b u
late _ u = 0

-- The second gate opens to a new round.
abbrev turns : Phase → Pc → ℕ
turns returning open_b = 1
turns _ _ = 0

advance-round :
    (f : Phase) (n : ℕ) (b b' : Barrier) (c d : Counts) (q p : Pc) (k r : ℕ)
    → Inv f n b c
    → advance b q ≡ some (b', p)
    → Shifted q p c d
    → k + late f q ≡ r
    → k + comes_out q + late (next f n b q) p ≡ r + turns f q
unfolding advance
advance-round filling n b b' c d out p k r v e w h = ground arith
advance-round full n b b' c d out p k r v e w h = ground arith
advance-round turning n b b' c d out p k r v e w h = ground arith
advance-round draining n b b' c d out p k r v e w h = ground arith
advance-round empty n b b' c d out p k r v e w h = ground arith
advance-round returning n b b' c d out p k r v e w h = ground arith
advance-round f n b b' c d q p k r v e w h = ground arith

-- Another thread, at `u` before and after the step, is late in the same round as before.
others-round :
    (f : Phase) (n : ℕ) (b b' : Barrier) (c d : Counts) (q u p : Pc)
    → Inv f n b c
    → advance b q ≡ some (b', p)
    → Inv (next f n b q) n b' d
    → Within u c
    → Within u d
    → late (next f n b q) u ≡ late f u + turns f q
unfolding advance
others-round filling n b b' c d out u p v e v' w w' = ground arith
others-round full n b b' c d shut_b u p v e v' w w' =
    omega (arith, v'.phase, v'.all, v'.arrived, w'.before_b, w'.inside_b)
others-round returning n b b' c d open_b u p v e v' w w' = omega (
  arith,
  one_part u,
  v.phase,
  v.arrived,
  v'.phase,
  w.early,
  w.shutting_b,
  w.opening_a,
  w.before_a,
  w.inside_a,
  w.past_a,
  w.shutting_a,
  w'.opening_b,
)
others-round f n b b' c d q u p v e v' w w' = ground arith

-- The phase that a state is in, and the number of its round.
pub record Rounded (n : ℕ) (s : System) : Type 0 where
  pub phase : Phase
  pub round : ℕ
  pub inv : Inv phase n s.barrier (counts n s.pc)
  pub late : (i : ℕ) → i < n → s.rounds i + late phase (s.pc i) ≡ round

all_out : (n : ℕ) → tally early n (λ i. out) ≡ n
unfolding tally
all_out zero = refl
all_out (suc n) = omega (arith, all_out n)

none_in : (w : Pc → ℕ) (n : ℕ) → w out ≡ 0 → tally w n (λ i. out) ≡ 0
none_in w n e = tally-zero w n (λ i. out) (λ i lt. e)

start-Rounded :
    (n : ℕ)
    → 1 ≤ n
    → Rounded n (record { barrier = mbarrier_init n; pc = λ i. out; rounds = λ i. 0 })
start-Rounded n pos =
    let e1 = all_out n in
    let e2 = none_in shutting_b n refl in
    let e3 = none_in opening_a n refl in
    let e4 = none_in before_a n refl in
    let e5 = none_in inside_a n refl in
    let e6 = none_in past_a n refl in
    let e7 = none_in shutting_a n refl in
    let e8 = none_in opening_b n refl in
    let e9 = none_in before_b n refl in
    let e10 = none_in inside_b n refl in
    let e11 = none_in holds n refl in
    record {
      phase = filling;
      round = 0;
      inv = record {
        size = refl;
        lock = omega arith;
        arrived = omega arith;
        all = omega arith;
        phase = ground arith;
      };
      late = λ i lt. refl;
    }

Step-Rounded : {n : ℕ} {s t : System} → Rounded n s → Step s t → Rounded n t
Step-Rounded {n} {s} v (move i {b} {p} lt e) = record {
  phase = f';
  round = v.round + turns v.phase (s.pc i);
  inv = v';
  late = λ j jlt. elim (ℕ_discrete i j) [
    | yes same ↦ subst (λ k. rounds' k + late f' (pc' k) ≡ r') same moved
    | no ne ↦ other j jlt ne
  ];
}
  where
    below : i < n
    below = omega (arith, v.inv.size)

    pc' : ℕ → Pc
    pc' = update s.pc i p

    rounds' : ℕ → ℕ
    rounds' = update s.rounds i (s.rounds i + comes_out (s.pc i))

    f' : Phase
    f' = next v.phase n s.barrier (s.pc i)

    r' : ℕ
    r' = v.round + turns v.phase (s.pc i)

    w : Shifted (s.pc i) p (counts n s.pc) (counts n pc')
    w = counts-Shifted n s.pc i p below

    v' : Inv f' n b (counts n pc')
    v' = advance-Inv v.phase n s.barrier b (counts n s.pc) (counts n pc') (s.pc i) p v.inv e w

    moved : rounds' i + late f' (pc' i) ≡ r'
    moved =
        subst (λ u. rounds' i + late f' u ≡ r') (sym (update_self s.pc i p))
          (subst (λ k. k + late f' p ≡ r')
            (sym (update_self s.rounds i (s.rounds i + comes_out (s.pc i))))
            (advance-round v.phase n s.barrier b (counts n s.pc) (counts n pc') (s.pc i) p
              (s.rounds i) v.round v.inv e w (v.late i below)))

    other : (j : ℕ) → j < n → i ≢ j → rounds' j + late f' (pc' j) ≡ r'
    other j jlt ne =
        let kept : pc' j ≡ s.pc j = update_ne s.pc i p j ne in
        let within = subst (λ u. Within u (counts n pc')) kept (counts-Within n pc' j jlt) in
        let same =
          others-round v.phase n s.barrier b (counts n s.pc) (counts n pc') (s.pc i) (s.pc j) p
            v.inv e v' (counts-Within n s.pc j jlt) within in
        subst (λ u. rounds' j + late f' u ≡ r') (sym kept)
          (subst (λ k. k + late f' (s.pc j) ≡ r')
            (sym (update_ne s.rounds i (s.rounds i + comes_out (s.pc i)) j ne))
            (omega (arith, same, v.late j jlt)))

pub Reach-Rounded : {n : ℕ} {s : System} → 1 ≤ n → Reach n s → Rounded n s
Reach-Rounded {n} pos start = start-Rounded n pos
Reach-Rounded pos (then_step r st) = Step-Rounded (Reach-Rounded pos r) st
