-- ===== src/Disksim/Sweep.antt =====
-- our-course/labs/lab06-io-storage/solutions/disksim.c: SCAN crosses the requests' cylinders once back
-- and once forth at most, and so does C-SCAN with its jump.
use mathlib.Core.List.{reverse}
use ia_operating_systems.Base.{
  Each, Ordered, Each-map, Each-reverse, Ordered-reverse, ℕ, ◌+◌, ◌-◌, ◌*◌, ◌≤◌, ◌<◌, ◌≡◌, Bool,
  true, false, ltb, leb, if◌then◌else◌, List, arith,
}
use ia_operating_systems.Disksim.State.{Stream}
use ia_operating_systems.Disksim.Schedule.{cyl_of, pick, sorted_up, sched_scan, sched_cscan}
use ia_operating_systems.Disksim.Lists.{Each-pick, Ordered-pick}
use ia_operating_systems.Disksim.Qsort.{IsQsort, sorted_up-Ordered, Each-sorted_up}
use ia_operating_systems.Disksim.Travel.{
  travel, travel-append, finish, Rises, Falls, rising, falling, jump_up, jump_down,
}

leb_le : (x y : ℕ) → leb x y ≡ true → x ≤ y
leb_le x y e = ground arith

ltb_le : (x y : ℕ) → ltb x y ≡ true → x ≤ y
ltb_le x y e = ground arith

module _ {qsort : (ℕ → ℕ → Bool) → List ℕ → List ℕ} (q : IsQsort qsort) (s : Stream)
    (start lo hi : ℕ) (bounds : (i : ℕ) → i < s.nreq → (lo ≤ cyl_of s i) × (cyl_of s i ≤ hi))
    (low : lo ≤ start) (high : start ≤ hi) where
  abbrev idx : List ℕ
  idx = sorted_up qsort s

  abbrev back : List ℕ
  back = reverse idx

  abbrev Within : ℕ → Type 0
  Within i = (lo ≤ cyl_of s i) × (cyl_of s i ≤ hi)

  inside : Each Within idx
  inside = Each-sorted_up q s Within bounds

  inside_back : Each Within back
  inside_back = Each-reverse Within idx inside

  -- What a test picks lies within the bounds, and the test says how.
  picked :
      (test : ℕ → Bool) (Q : ℕ → Type 0) (xs : List ℕ)
      → Each Within xs
      → ((i : ℕ) → Within i → test i ≡ true → Q i)
      → Each Q (pick test xs)
  picked test Q xs v f = Each-map (pick test xs) (λ i w. f i w.0 w.1) (Each-pick test Within xs v)

  up : (test : ℕ → Bool) → Ordered (Rises s) (pick test idx)
  up test = Ordered-pick test (Rises s) idx (sorted_up-Ordered q s)

  down : (test : ℕ → Bool) → Ordered (Falls s) (pick test back)
  down test =
      Ordered-pick test (Falls s) back (Ordered-reverse (Rises s) idx (sorted_up-Ordered q s))

  abbrev above : ℕ → Bool
  above i = leb start (cyl_of s i)

  abbrev not_above : ℕ → Bool
  not_above i = ltb (cyl_of s i) start

  abbrev below : ℕ → Bool
  below i = leb (cyl_of s i) start

  abbrev not_below : ℕ → Bool
  not_below i = ltb start (cyl_of s i)

  ahead_up :
      (travel s start (pick above idx) + start ≡ finish s start (pick above idx))
      × (finish s start (pick above idx) ≤ hi)
  ahead_up =
      rising s start hi (pick above idx) high (up above)
        (picked above (λ i. start ≤ cyl_of s i) idx inside (λ i w e. leb_le start (cyl_of s i) e))
        (picked above (λ i. cyl_of s i ≤ hi) idx inside (λ i w e. w.1))

  ahead_down :
      (travel s start (pick below back) + finish s start (pick below back) ≡ start)
      × (lo ≤ finish s start (pick below back))
  ahead_down =
      falling s start lo (pick below back) low (down below)
        (picked below (λ i. cyl_of s i ≤ start) back inside_back
          (λ i w e. leb_le (cyl_of s i) start e))
        (picked below (λ i. lo ≤ cyl_of s i) back inside_back (λ i w e. w.0))

  -- SCAN upwards goes to the highest request at most, and from there to the lowest.
  sched_scan-travel_up : travel s start (sched_scan qsort s start true) ≤ (hi - start) + (hi - lo)
  unfolding sched_scan
  sched_scan-travel_up =
      let top = finish s start (pick above idx) in
      let rest =
        falling s top lo (pick not_above back) (omega (arith, ahead_up)) (down not_above)
          (picked not_above (λ i. cyl_of s i ≤ top) back inside_back
            (λ i w e. omega (arith, ahead_up, ltb_le (cyl_of s i) start e)))
          (picked not_above (λ i. lo ≤ cyl_of s i) back inside_back (λ i w e. w.0)) in
      omega (arith, travel-append s start (pick above idx) (pick not_above back), ahead_up, rest)

  sched_scan-travel_down :
      travel s start (sched_scan qsort s start false) ≤ (start - lo) + (hi - lo)
  unfolding sched_scan
  sched_scan-travel_down =
      let bottom = finish s start (pick below back) in
      let rest =
        rising s bottom hi (pick not_below idx) (omega (arith, ahead_down)) (up not_below)
          (picked not_below (λ i. bottom ≤ cyl_of s i) idx inside
            (λ i w e. omega (arith, ahead_down, ltb_le start (cyl_of s i) e)))
          (picked not_below (λ i. cyl_of s i ≤ hi) idx inside (λ i w e. w.1)) in
      omega (arith, travel-append s start (pick below back) (pick not_below idx), ahead_down, rest)

  sched_cscan-travel_up : travel s start (sched_cscan qsort s start true) ≤ 2 * (hi - lo)
  unfolding sched_cscan
  sched_cscan-travel_up =
      let rest =
        jump_up s (finish s start (pick above idx)) lo start (pick not_above idx)
          (omega (arith, ahead_up)) (up not_above)
          (picked not_above (λ i. lo ≤ cyl_of s i) idx inside (λ i w e. w.0))
          (picked not_above (λ i. cyl_of s i ≤ start) idx inside
            (λ i w e. ltb_le (cyl_of s i) start e)) in
      omega (arith, travel-append s start (pick above idx) (pick not_above idx), ahead_up, rest)

  sched_cscan-travel_down : travel s start (sched_cscan qsort s start false) ≤ 2 * (hi - lo)
  unfolding sched_cscan
  sched_cscan-travel_down =
      let rest =
        jump_down s (finish s start (pick below back)) start hi (pick not_below back)
          (omega (arith, ahead_down)) (down not_below)
          (picked not_below (λ i. cyl_of s i ≤ hi) back inside_back (λ i w e. w.1))
          (picked not_below (λ i. start ≤ cyl_of s i) back inside_back
            (λ i w e. ltb_le start (cyl_of s i) e)) in
      omega (arith, travel-append s start (pick below back) (pick not_below back), ahead_down, rest)

  -- With a `qsort` that orders as documented, and the head and all requests between two cylinders: SCAN
  -- moves the head at most to the far end in its direction and from there to the other end, and C-SCAN
  -- moves it at most twice the distance of the two.
  pub sweep_travel :
      (dir_up : Bool)
      → (travel s start (sched_scan qsort s start dir_up)
          ≤ (if dir_up then hi - start else start - lo) + (hi - lo))
        × (travel s start (sched_cscan qsort s start dir_up) ≤ 2 * (hi - lo))
  sweep_travel true = (sched_scan-travel_up, sched_cscan-travel_up)
  sweep_travel false = (sched_scan-travel_down, sched_cscan-travel_down)
