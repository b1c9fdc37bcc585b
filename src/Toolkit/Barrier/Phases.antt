-- ===== src/Toolkit/Barrier/Phases.antt =====
-- our-course/labs/lab05-concurrency/part4-toolkit/solutions/toolkit.c: the phases of a round of the
-- barrier, as numbers of threads.
use ia_operating_systems.Base.{ℕ, ◌+◌, ◌<◌, ◌≡◌, ◌==◌, if◌then◌else◌, some, arith}
use ia_operating_systems.Toolkit.Barrier.{
  Barrier, Pc, out, arriving, shut_b, open_a, leaving, shut_a, open_b, advance,
}
use ia_operating_systems.Toolkit.Barrier.Counts.{Counts, Shifted}

-- The second gate is open and threads arrive; the last one shuts it and opens the first; the first
-- gate is open and threads leave; the last one shuts it and opens the second.
pub data Phase : Type 0 where
  filling full turning draining empty returning : Phase

-- The gates and the parts that are empty or not in each phase.
abbrev pub InPhase : Phase → ℕ → Barrier → Counts → Type 0
InPhase filling n b c =
    (b.gate_a ≡ 0)
    × (b.gate_b + c.inside_b ≡ 1)
    × (b.arrived < n)
    × (c.shutting_b ≡ 0)
    × (c.opening_a ≡ 0)
    × (c.inside_a ≡ 0)
    × (c.past_a ≡ 0)
    × (c.shutting_a ≡ 0)
    × (c.opening_b ≡ 0)
InPhase full n b c =
    (b.gate_a ≡ 0)
    × (b.gate_b ≡ 1)
    × (b.arrived ≡ n)
    × (c.shutting_b ≡ 1)
    × (c.opening_a ≡ 0)
    × (c.inside_a ≡ 0)
    × (c.past_a ≡ 0)
InPhase turning n b c =
    (b.gate_a ≡ 0)
    × (b.gate_b ≡ 0)
    × (b.arrived ≡ n)
    × (c.shutting_b ≡ 0)
    × (c.opening_a ≡ 1)
    × (c.inside_a ≡ 0)
    × (c.past_a ≡ 0)
InPhase draining n b c =
    (b.gate_a + c.inside_a ≡ 1)
    × (b.gate_b ≡ 0)
    × (0 < b.arrived)
    × (c.early ≡ 0)
    × (c.shutting_b ≡ 0)
    × (c.opening_a ≡ 0)
    × (c.shutting_a ≡ 0)
    × (c.opening_b ≡ 0)
    × (c.inside_b ≡ 0)
InPhase empty n b c =
    (b.gate_a ≡ 1)
    × (b.gate_b ≡ 0)
    × (b.arrived ≡ 0)
    × (c.early ≡ 0)
    × (c.shutting_a ≡ 1)
    × (c.opening_b ≡ 0)
    × (c.inside_b ≡ 0)
InPhase returning n b c =
    (b.gate_a ≡ 0)
    × (b.gate_b ≡ 0)
    × (b.arrived ≡ 0)
    × (c.early ≡ 0)
    × (c.shutting_a ≡ 0)
    × (c.opening_b ≡ 1)
    × (c.inside_b ≡ 0)

pub record Inv (f : Phase) (n : ℕ) (b : Barrier) (c : Counts) : Type 0 where
  pub size : b.n ≡ n
  pub lock : b.mutex + c.holds ≡ 1
  pub arrived : b.arrived ≡ c.shutting_b + c.opening_a + c.before_a + c.inside_a + c.past_a
  pub all :
      c.early + c.shutting_b + c.opening_a + c.before_a + c.inside_a + c.past_a + c.shutting_a
        + c.opening_b + c.before_b + c.inside_b
      ≡ n
  pub phase : InPhase f n b c

-- The next phase, where a thread at this point goes on.
abbrev pub next : Phase → ℕ → Barrier → Pc → Phase
next filling n b arriving = if b.arrived + 1 == n then full else filling
next full n b shut_b = turning
next turning n b open_a = draining
next draining n b leaving = if b.arrived == 1 then empty else draining
next empty n b shut_a = returning
next returning n b open_b = filling
next f n b q = f

pub advance-Inv :
    (f : Phase) (n : ℕ) (b b' : Barrier) (c d : Counts) (q p : Pc)
    → Inv f n b c
    → advance b q ≡ some (b', p)
    → Shifted q p c d
    → Inv (next f n b q) n b' d
unfolding advance
advance-Inv filling n b b' c d out p v e w = ground arith
advance-Inv full n b b' c d out p v e w = ground arith
advance-Inv turning n b b' c d out p v e w = ground arith
advance-Inv draining n b b' c d out p v e w = ground arith
advance-Inv empty n b b' c d out p v e w = ground arith
advance-Inv returning n b b' c d out p v e w = ground arith
advance-Inv f n b b' c d q p v e w = ground arith
