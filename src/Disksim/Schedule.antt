-- ===== src/Disksim/Schedule.antt =====
-- our-course/labs/lab06-io-storage/solutions/disksim.c: the four policies. An order is the list of the
-- indices in `order`; `qsort` of the C library is a parameter.
use mathlib.Core.List.{reverse}
use mathlib.Core.Option
use ia_operating_systems.Base.{
  ℕ, zero, suc, Bool, true, false, not, ◌&&◌, ◌||◌, ◌==◌, ltb, leb, if◌then◌else◌, Option, none,
  some, List, [], ◌∷◌, ◌++◌, update,
}
use ia_operating_systems.Disksim.State.{Stream, distance}

abbrev pub cyl_of : Stream → ℕ → ℕ
cyl_of s i = (s.reqs i).cyl

-- The `n` indices from `i` on.
abbrev pub indices : ℕ → ℕ → List ℕ
indices i zero = []
indices i (suc n) = i ∷ indices (suc i) n

unfoldable pub sched_fifo : Stream → List ℕ
sched_fifo s = indices 0 s.nreq

-- Whether request `i` takes the place of the best one so far.
unfoldable pub closer : Stream → ℕ → Option ℕ → ℕ → ℕ → ℕ → Bool
closer s cur none bestd bestcyl i = true
closer s cur (some b) bestd bestcyl i =
    let d = distance (cyl_of s i) cur in ltb d bestd || (d == bestd && ltb (cyl_of s i) bestcyl)

-- The inner loop of `sched_sstf` over the `n` requests from `i` on, with its three variables.
unfoldable pub nearest : Stream → (ℕ → Bool) → ℕ → ℕ → ℕ → Option ℕ → ℕ → ℕ → Option ℕ
nearest s done cur i zero best bestd bestcyl = best
nearest s done cur i (suc n) best bestd bestcyl =
    let take = not (done i) && closer s cur best bestd bestcyl i in
    nearest s done cur (suc i) n (if take then some i else best)
      (if take then distance (cyl_of s i) cur else bestd) (if take then cyl_of s i else bestcyl)

-- The last `k` rounds of the outer loop; `none` where no request is left for a round.
unfoldable pub sstf_rounds : Stream → (ℕ → Bool) → ℕ → ℕ → Option (List ℕ)
sstf_rounds s done cur zero = some []
sstf_rounds s done cur (suc k) = elim (nearest s done cur 0 s.nreq none 0 0) [
  | none ↦ none
  | some b ↦ Option.map (◌∷◌ b) (sstf_rounds s (update done b true) (cyl_of s b) k)
]

unfoldable pub sched_sstf : Stream → ℕ → Option (List ℕ)
sched_sstf s head_cyl = sstf_rounds s (λ i. false) head_cyl s.nreq

-- Whether `cmp_up` returns -1 and not 1.
unfoldable pub cmp_up : Stream → ℕ → ℕ → Bool
cmp_up s ia ib =
    if not (cyl_of s ia == cyl_of s ib) then ltb (cyl_of s ia) (cyl_of s ib) else ltb ia ib

-- The requests that a loop over indices appends to the order.
abbrev pub pick : (ℕ → Bool) → List ℕ → List ℕ
pick test [] = []
pick test (i ∷ is) = if test i then i ∷ pick test is else pick test is

pub data Policy : Type 0 where
  fifo sstf scan cscan : Policy

module _ (qsort : (ℕ → ℕ → Bool) → List ℕ → List ℕ) where
  abbrev pub sorted_up : Stream → List ℕ
  sorted_up s = qsort (cmp_up s) (indices 0 s.nreq)

  unfoldable pub sched_scan : Stream → ℕ → Bool → List ℕ
  sched_scan s head_cyl dir_up =
      let idx = sorted_up s in
      if dir_up
      then pick (λ i. leb head_cyl (cyl_of s i)) idx
        ++ pick (λ i. ltb (cyl_of s i) head_cyl) (reverse idx)
      else pick (λ i. leb (cyl_of s i) head_cyl) (reverse idx)
        ++ pick (λ i. ltb head_cyl (cyl_of s i)) idx

  unfoldable pub sched_cscan : Stream → ℕ → Bool → List ℕ
  sched_cscan s head_cyl dir_up =
      let idx = sorted_up s in
      if dir_up
      then pick (λ i. leb head_cyl (cyl_of s i)) idx ++ pick (λ i. ltb (cyl_of s i) head_cyl) idx
      else pick (λ i. leb (cyl_of s i) head_cyl) (reverse idx)
        ++ pick (λ i. ltb head_cyl (cyl_of s i)) (reverse idx)

  -- The choice of `do_run`.
  unfoldable pub schedule : Policy → Stream → ℕ → Bool → Option (List ℕ)
  schedule fifo s start dir_up = some (sched_fifo s)
  schedule sstf s start dir_up = sched_sstf s start
  schedule scan s start dir_up = some (sched_scan s start dir_up)
  schedule cscan s start dir_up = some (sched_cscan s start dir_up)
