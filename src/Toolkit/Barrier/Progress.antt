-- ===== src/Toolkit/Barrier/Progress.antt =====
-- our-course/labs/lab05-concurrency/part4-toolkit/solutions/toolkit.c: the threads at a barrier never all
-- block.
use ia_operating_systems.Base.{
  ℕ, zero, suc, ◌+◌, ◌≤◌, ◌<◌, ◌≡◌, ◌≢◌, ◌==◌, if◌then◌else◌, none, arith, refl, tally, tally-zero,
  tally_witness, weight-le-tally, ℕ_discrete,
}
use ia_operating_systems.Toolkit.Barrier.{Barrier, Pc, out, advance, System, Reach}
use ia_operating_systems.Toolkit.Barrier.Counts.{
  early, shutting_b, opening_a, before_a, inside_a, past_a, shutting_a, opening_b, before_b,
  inside_b, holds, Counts, Within, counts, counts-Within,
}
use ia_operating_systems.Toolkit.Barrier.Phases.{
  Phase, filling, full, turning, draining, empty, returning, Inv,
}
use ia_operating_systems.Toolkit.Barrier.Rounds.{Reach-Rounded}

-- A thread that nothing blocks, where no thread holds the mutex.
abbrev ready : Phase → ℕ → ℕ → Pc → ℕ
ready filling a zero u = inside_b u
ready filling a (suc b) u = early u + before_b u
ready full a b u = shutting_b u
ready turning a b u = opening_a u
ready draining zero b u = inside_a u
ready draining (suc a) b u = before_a u + past_a u
ready empty a b u = shutting_a u
ready returning a b u = opening_b u

-- The same where a thread may hold it.
abbrev ready_now : Phase → Barrier → Pc → ℕ
ready_now f b u = if b.mutex == 0 then holds u else ready f b.gate_a b.gate_b u

goes :
    (f : Phase) (n : ℕ) (b : Barrier) (c : Counts) (u : Pc)
    → Inv f n b c
    → Within u c
    → 1 ≤ ready_now f b u
    → advance b u ≢ none
unfolding advance
goes filling n b c out v w h e = ground arith
goes f n b c u v w h e = ground arith

-- Where no thread is ready, none is in the parts that would be.
stuck_part :
    (f : Phase) (b : Barrier) (n : ℕ) (pc : ℕ → Pc) (weight : Pc → ℕ)
    → tally (ready_now f b) n pc ≡ 0
    → ((u : Pc) → weight u ≤ ready_now f b u)
    → tally weight n pc ≡ 0
stuck_part f b n pc weight none_ready le =
    tally-zero weight n pc
      (λ i lt. omega (arith, le (pc i), weight-le-tally (ready_now f b) n pc i lt))

-- `ready` by the gates.
ready_inside_b : (a b : ℕ) (u : Pc) → b ≡ 0 → inside_b u ≤ ready filling a b u
ready_inside_b a zero u e = omega arith
ready_inside_b a (suc b) u e = absurd (omega arith)

ready_filling : (a b : ℕ) (u : Pc) → b ≢ 0 → early u + before_b u ≤ ready filling a b u
ready_filling a zero u ne = absurd (ne refl)
ready_filling a (suc b) u ne = omega arith

ready_inside_a : (a b : ℕ) (u : Pc) → a ≡ 0 → inside_a u ≤ ready draining a b u
ready_inside_a zero b u e = omega arith
ready_inside_a (suc a) b u e = absurd (omega arith)

ready_draining : (a b : ℕ) (u : Pc) → a ≢ 0 → before_a u + past_a u ≤ ready draining a b u
ready_draining zero b u ne = absurd (ne refl)
ready_draining (suc a) b u ne = omega arith

loose_ready :
    (f : Phase) (n : ℕ) (b : Barrier) (pc : ℕ → Pc)
    → Inv f n b (counts n pc)
    → b.mutex ≢ 0
    → tally (ready_now f b) n pc ≢ 0
loose_ready filling n b pc v m h =
    let stuck = stuck_part filling b n pc in
    elim (ℕ_discrete b.gate_b 0) [
      | yes shut ↦ omega (
        arith,
        v.phase,
        stuck inside_b h (λ u. ground (arith, ready_inside_b b.gate_a b.gate_b u shut)),
      )
      | no open_gate ↦ omega (
        arith,
        v.phase,
        v.arrived,
        v.all,
        stuck early h (λ u. ground (arith, ready_filling b.gate_a b.gate_b u open_gate)),
        stuck before_b h (λ u. ground (arith, ready_filling b.gate_a b.gate_b u open_gate)),
      )
    ]
loose_ready draining n b pc v m h =
    let stuck = stuck_part draining b n pc in
    elim (ℕ_discrete b.gate_a 0) [
      | yes shut ↦ omega (
        arith,
        v.phase,
        stuck inside_a h (λ u. ground (arith, ready_inside_a b.gate_a b.gate_b u shut)),
      )
      | no open_gate ↦ omega (
        arith,
        v.phase,
        v.arrived,
        stuck before_a h (λ u. ground (arith, ready_draining b.gate_a b.gate_b u open_gate)),
        stuck past_a h (λ u. ground (arith, ready_draining b.gate_a b.gate_b u open_gate)),
      )
    ]
loose_ready full n b pc v m h =
    omega (arith, v.phase, stuck_part full b n pc shutting_b h (λ u. ground arith))
loose_ready turning n b pc v m h =
    omega (arith, v.phase, stuck_part turning b n pc opening_a h (λ u. ground arith))
loose_ready empty n b pc v m h =
    omega (arith, v.phase, stuck_part empty b n pc shutting_a h (λ u. ground arith))
loose_ready returning n b pc v m h =
    omega (arith, v.phase, stuck_part returning b n pc opening_b h (λ u. ground arith))

some_ready :
    (f : Phase) (n : ℕ) (b : Barrier) (pc : ℕ → Pc)
    → Inv f n b (counts n pc)
    → tally (ready_now f b) n pc ≢ 0
some_ready f n b pc v h = elim (ℕ_discrete b.mutex 0) [
  | yes taken ↦ omega (arith, v.lock, stuck_part f b n pc holds h (λ u. ground arith))
  | no loose ↦ loose_ready f n b pc v loose h
]

-- The threads that use a barrier never all block: one of them can always go on.
pub barrier_no_deadlock :
    {n : ℕ} {s : System}
    → 1 ≤ n
    → Reach n s
    → (i : ℕ) × (i < n) × (advance s.barrier (s.pc i) ≢ none)
barrier_no_deadlock {n} {s} pos r =
    let v = Reach-Rounded pos r in
    let (i, lt, w) =
      tally_witness (ready_now v.phase s.barrier) n s.pc
        (omega (arith, some_ready v.phase n s.barrier s.pc v.inv)) in
    (i, lt, goes v.phase n s.barrier (counts n s.pc) (s.pc i) v.inv (counts-Within n s.pc i lt) w)
