-- ===== src/Toolkit/Phils.antt =====
-- our-course/labs/lab05-concurrency/part4-toolkit/solutions/toolkit.c: the dining philosophers, each
-- a thread that picks its forks up and puts them down for ever, in any interleaving. A semaphore is
-- its value: a wait is one step that a zero value blocks.
pub mod Invariant
pub mod Progress
use ia_operating_systems.Base.{
  ℕ, ◌+◌, ◌-◌, ◌%◌, ◌<◌, ◌≡◌, ◌==◌, if◌then◌else◌, Option, none, some, update,
}

-- `struct phils`
pub record Phils : Type 0 where
  pub n : ℕ
  pub fork : ℕ → ℕ
  pub footman : ℕ

-- `phil_init`
abbrev pub phil_init : ℕ → Phils
phil_init n = record { n = n; fork = λ i. 1; footman = n - 1 }

-- The philosopher's other fork, which is the first one of the next.
abbrev pub other_fork : Phils → ℕ → ℕ
other_fork t w = (w + 1) % t.n

-- Where a philosopher stands: each point names the call that comes next.
pub data Pc : Type 0 where
  thinking : Pc
  -- phil_pickup
  to_footman : Pc  -- msem_wait(&p->footman)
  to_own : Pc  -- msem_wait(&p->fork[w])
  to_other : Pc  -- msem_wait(&p->fork[(w + 1) % p->n])
  eating : Pc
  -- phil_putdown
  drop_other : Pc  -- msem_post(&p->fork[(w + 1) % p->n])
  drop_own : Pc  -- msem_post(&p->fork[w])
  drop_seat : Pc  -- msem_post(&p->footman)

-- `msem_wait` and `msem_post` of a fork.
abbrev take_fork : Phils → ℕ → Pc → Option (Phils × Pc)
take_fork t k p =
    if t.fork k == 0 then none else some (record t { fork = update t.fork k (t.fork k - 1) }, p)

abbrev post_fork : Phils → ℕ → Phils
post_fork t k = record t { fork = update t.fork k (t.fork k + 1) }

-- One step of philosopher `w`, `none` where it blocks.
unfoldable pub advance : Phils → ℕ → Pc → Option (Phils × Pc)
advance t w thinking = some (t, to_footman)
advance t w to_footman =
    if t.footman == 0 then none else some (record t { footman = t.footman - 1 }, to_own)
advance t w to_own = take_fork t w to_other
advance t w to_other = take_fork t (other_fork t w) eating
advance t w eating = some (t, drop_other)
advance t w drop_other = some (post_fork t (other_fork t w), drop_own)
advance t w drop_own = some (post_fork t w, drop_seat)
advance t w drop_seat = some (record t { footman = t.footman + 1 }, thinking)

pub record System : Type 0 where
  pub table : Phils
  pub pc : ℕ → Pc

pub data Step (s : System) : System → Type 0 where
  move :
      (w : ℕ) {t : Phils} {p : Pc}
      → w < s.table.n
      → advance s.table w (s.pc w) ≡ some (t, p)
      → Step s (record { table = t; pc = update s.pc w p })

pub data Reach (n : ℕ) : System → Type 0 where
  start : Reach n (record { table = phil_init n; pc = λ w. thinking })
  then_step : {s t : System} → Reach n s → Step s t → Reach n t
