-- ===== src/Toolkit/Barrier/Counts.antt =====
-- our-course/labs/lab05-concurrency/part4-toolkit/solutions/toolkit.c: how many threads stand in each
-- part of `mbarrier_wait`.
use ia_operating_systems.Base.{
  ℕ, ◌+◌, ◌≤◌, ◌<◌, ◌≡◌, refl, update, tally, tally-update, weight-le-tally,
}
use ia_operating_systems.Toolkit.Barrier.{
  Pc, out, arriving, shut_b, open_a, arrival_done, at_a, through_a, to_leave, leaving, shut_a,
  open_b, leave_done, at_b, through_b,
}

-- The parts of the program that the phases tell apart.
abbrev pub early : Pc → ℕ
early out = 1
early arriving = 1
early _ = 0

abbrev pub shutting_b : Pc → ℕ
shutting_b shut_b = 1
shutting_b _ = 0

abbrev pub opening_a : Pc → ℕ
opening_a open_a = 1
opening_a _ = 0

abbrev pub before_a : Pc → ℕ
before_a arrival_done = 1
before_a at_a = 1
before_a _ = 0

abbrev pub inside_a : Pc → ℕ
inside_a through_a = 1
inside_a _ = 0

abbrev pub past_a : Pc → ℕ
past_a to_leave = 1
past_a leaving = 1
past_a _ = 0

abbrev pub shutting_a : Pc → ℕ
shutting_a shut_a = 1
shutting_a _ = 0

abbrev pub opening_b : Pc → ℕ
opening_b open_b = 1
opening_b _ = 0

abbrev pub before_b : Pc → ℕ
before_b leave_done = 1
before_b at_b = 1
before_b _ = 0

abbrev pub inside_b : Pc → ℕ
inside_b through_b = 1
inside_b _ = 0

abbrev pub holds : Pc → ℕ
holds arriving = 1
holds shut_b = 1
holds open_a = 1
holds arrival_done = 1
holds leaving = 1
holds shut_a = 1
holds open_b = 1
holds leave_done = 1
holds _ = 0

-- How many threads are in each part.
pub record Counts : Type 0 where
  pub early : ℕ
  pub shutting_b : ℕ
  pub opening_a : ℕ
  pub before_a : ℕ
  pub inside_a : ℕ
  pub past_a : ℕ
  pub shutting_a : ℕ
  pub opening_b : ℕ
  pub before_b : ℕ
  pub inside_b : ℕ
  pub holds : ℕ

-- The counts after one thread went from `q` to `p`.
pub record Shifted (q p : Pc) (c d : Counts) : Type 0 where
  pub early : (d.early + early q ≡ c.early + early p) × (early q ≤ c.early)
  pub shutting_b :
      (d.shutting_b + shutting_b q ≡ c.shutting_b + shutting_b p) × (shutting_b q ≤ c.shutting_b)
  pub opening_a :
      (d.opening_a + opening_a q ≡ c.opening_a + opening_a p) × (opening_a q ≤ c.opening_a)
  pub before_a : (d.before_a + before_a q ≡ c.before_a + before_a p) × (before_a q ≤ c.before_a)
  pub inside_a : (d.inside_a + inside_a q ≡ c.inside_a + inside_a p) × (inside_a q ≤ c.inside_a)
  pub past_a : (d.past_a + past_a q ≡ c.past_a + past_a p) × (past_a q ≤ c.past_a)
  pub shutting_a :
      (d.shutting_a + shutting_a q ≡ c.shutting_a + shutting_a p) × (shutting_a q ≤ c.shutting_a)
  pub opening_b :
      (d.opening_b + opening_b q ≡ c.opening_b + opening_b p) × (opening_b q ≤ c.opening_b)
  pub before_b : (d.before_b + before_b q ≡ c.before_b + before_b p) × (before_b q ≤ c.before_b)
  pub inside_b : (d.inside_b + inside_b q ≡ c.inside_b + inside_b p) × (inside_b q ≤ c.inside_b)
  pub holds : (d.holds + holds q ≡ c.holds + holds p) × (holds q ≤ c.holds)

-- A thread at this point is one of those counted.
pub record Within (u : Pc) (c : Counts) : Type 0 where
  pub early : early u ≤ c.early
  pub shutting_b : shutting_b u ≤ c.shutting_b
  pub opening_a : opening_a u ≤ c.opening_a
  pub before_a : before_a u ≤ c.before_a
  pub inside_a : inside_a u ≤ c.inside_a
  pub past_a : past_a u ≤ c.past_a
  pub shutting_a : shutting_a u ≤ c.shutting_a
  pub opening_b : opening_b u ≤ c.opening_b
  pub before_b : before_b u ≤ c.before_b
  pub inside_b : inside_b u ≤ c.inside_b
  pub holds : holds u ≤ c.holds

-- A thread is in one part.
pub one_part :
    (u : Pc)
    → early u
        + shutting_b u
        + opening_a u
        + before_a u
        + inside_a u
        + past_a u
        + shutting_a u
        + opening_b u
        + before_b u
        + inside_b u
      ≡ 1
one_part out = refl
one_part u = refl

abbrev pub counts : ℕ → (ℕ → Pc) → Counts
counts n pc = record {
  early = tally early n pc;
  shutting_b = tally shutting_b n pc;
  opening_a = tally opening_a n pc;
  before_a = tally before_a n pc;
  inside_a = tally inside_a n pc;
  past_a = tally past_a n pc;
  shutting_a = tally shutting_a n pc;
  opening_b = tally opening_b n pc;
  before_b = tally before_b n pc;
  inside_b = tally inside_b n pc;
  holds = tally holds n pc;
}

pub counts-Within : (n : ℕ) (pc : ℕ → Pc) (i : ℕ) → i < n → Within (pc i) (counts n pc)
counts-Within n pc i lt = record {
  early = weight-le-tally early n pc i lt;
  shutting_b = weight-le-tally shutting_b n pc i lt;
  opening_a = weight-le-tally opening_a n pc i lt;
  before_a = weight-le-tally before_a n pc i lt;
  inside_a = weight-le-tally inside_a n pc i lt;
  past_a = weight-le-tally past_a n pc i lt;
  shutting_a = weight-le-tally shutting_a n pc i lt;
  opening_b = weight-le-tally opening_b n pc i lt;
  before_b = weight-le-tally before_b n pc i lt;
  inside_b = weight-le-tally inside_b n pc i lt;
  holds = weight-le-tally holds n pc i lt;
}

pub counts-Shifted :
    (n : ℕ) (pc : ℕ → Pc) (i : ℕ) (p : Pc)
    → i < n
    → Shifted (pc i) p (counts n pc) (counts n (update pc i p))
counts-Shifted n pc i p lt =
    let w = counts-Within n pc i lt in
    record {
      early = (tally-update early n pc i p lt, w.early);
      shutting_b = (tally-update shutting_b n pc i p lt, w.shutting_b);
      opening_a = (tally-update opening_a n pc i p lt, w.opening_a);
      before_a = (tally-update before_a n pc i p lt, w.before_a);
      inside_a = (tally-update inside_a n pc i p lt, w.inside_a);
      past_a = (tally-update past_a n pc i p lt, w.past_a);
      shutting_a = (tally-update shutting_a n pc i p lt, w.shutting_a);
      opening_b = (tally-update opening_b n pc i p lt, w.opening_b);
      before_b = (tally-update before_b n pc i p lt, w.before_b);
      inside_b = (tally-update inside_b n pc i p lt, w.inside_b);
      holds = (tally-update holds n pc i p lt, w.holds);
    }
