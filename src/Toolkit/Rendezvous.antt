-- ===== src/Toolkit/Rendezvous.antt =====
-- our-course/labs/lab05-concurrency/part4-toolkit/solutions/toolkit.c: the rendezvous of two sides, each
-- of which arrives again and again, in any interleaving. A semaphore is its value, as in the locks.
use ia_operating_systems.Base.{
  ℕ, zero, suc, ◌+◌, ◌-◌, ◌≤◌, ◌<◌, ◌≡◌, ◌≢◌, ◌==◌, if◌then◌else◌, Option, none, some, arith, refl,
  update, dec_lt,
}

-- `struct rendezvous`
pub record Rendezvous : Type 0 where
  pub arrived : ℕ → ℕ

-- `rv_init`
abbrev pub rv_init : Rendezvous
rv_init = record { arrived = λ side. 0 }

-- Where a side stands: each point names the call of `rv_arrive` that comes next.
pub data Pc : Type 0 where
  out : Pc  -- msem_post(&r->arrived[side])
  waiting : Pc  -- msem_wait(&r->arrived[1 - side])

-- One step of a side, `none` where it blocks.
unfoldable pub advance : Rendezvous → ℕ → Pc → Option (Rendezvous × Pc)
advance r side out = some (record { arrived = update r.arrived side (r.arrived side + 1) }, waiting)
advance r side waiting =
    if r.arrived (1 - side) == 0
    then none
    else some (record { arrived = update r.arrived (1 - side) (r.arrived (1 - side) - 1) }, out)

abbrev pub waits : Pc → ℕ
waits out = 0
waits waiting = 1

-- `rounds`, which the program does not keep, counts how often each side came out of `rv_arrive`.
pub record System : Type 0 where
  pub meeting : Rendezvous
  pub pc : ℕ → Pc
  pub rounds : ℕ → ℕ

pub data Step (s : System) : System → Type 0 where
  move :
      (side : ℕ) {r : Rendezvous} {p : Pc}
      → side < 2
      → advance s.meeting side (s.pc side) ≡ some (r, p)
      → Step s (record {
        meeting = r;
        pc = update s.pc side p;
        rounds = update s.rounds side (s.rounds side + waits (s.pc side));
      })

pub data Reach : System → Type 0 where
  start : Reach (record { meeting = rv_init; pc = λ side. out; rounds = λ side. 0 })
  then_step : {s t : System} → Reach s → Step s t → Reach t

-- What one side announced and the other has not yet taken.
record Inv (r : Rendezvous) (pc : ℕ → Pc) (rounds : ℕ → ℕ) : Type 0 where
  left : r.arrived 0 + rounds 1 ≡ rounds 0 + waits (pc 0)
  right : r.arrived 1 + rounds 0 ≡ rounds 1 + waits (pc 1)

advance-Inv :
    {r r' : Rendezvous} {pc : ℕ → Pc} {rounds : ℕ → ℕ} {p : Pc} (side : ℕ) (q : Pc)
    → side < 2
    → pc side ≡ q
    → Inv r pc rounds
    → advance r side q ≡ some (r', p)
    → Inv r' (update pc side p) (update rounds side (rounds side + waits q))
unfolding advance
advance-Inv zero out lt at v e = ground arith
advance-Inv zero waiting lt at v e = ground arith
advance-Inv (suc zero) out lt at v e = ground arith
advance-Inv (suc zero) waiting lt at v e = ground arith
advance-Inv (suc (suc side)) q lt at v e = absurd (omega arith)

Reach-Inv : {s : System} → Reach s → Inv s.meeting s.pc s.rounds
Reach-Inv start = record { left = refl; right = refl }
Reach-Inv (then_step {s} r (move side lt e)) = advance-Inv side (s.pc side) lt refl (Reach-Inv r) e

-- A side comes out of its rendezvous number `k` only when the other side has arrived at its own
-- number `k`.
pub rendezvous_meets :
    {s : System} (side : ℕ)
    → Reach s
    → side < 2
    → s.rounds (1 - side) ≤ s.rounds side + waits (s.pc side)
rendezvous_meets zero r lt = omega (arith, (Reach-Inv r).left)
rendezvous_meets (suc zero) r lt = omega (arith, (Reach-Inv r).right)
rendezvous_meets (suc (suc side)) r lt = absurd (omega arith)

moves :
    (r : Rendezvous) (side : ℕ) (q : Pc)
    → 1 ≤ r.arrived (1 - side) + (1 - waits q)
    → advance r side q ≢ none
unfolding advance
moves r side out h e = ground arith
moves r side waiting h e = ground arith

-- The two sides never block each other: one of them can always go on.
pub rendezvous_no_deadlock :
    {s : System} → Reach s → (side : ℕ) × (side < 2) × (advance s.meeting side (s.pc side) ≢ none)
rendezvous_no_deadlock {s} r = elim (dec_lt 0 (s.meeting.arrived 1 + (1 - waits (s.pc 0)))) [
  | yes first ↦ (0, omega arith, moves s.meeting 0 (s.pc 0) first)
  | no blocked ↦ (
    1,
    omega arith,
    moves s.meeting 1 (s.pc 1) (omega (arith, (Reach-Inv r).left, (Reach-Inv r).right)),
  )
]
