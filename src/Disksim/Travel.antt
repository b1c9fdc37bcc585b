-- ===== src/Disksim/Travel.antt =====
-- our-course/labs/lab06-io-storage/solutions/disksim.c: how far the head travels under SCAN and C-SCAN.
use ia_operating_systems.Base.{
  Each, Ordered, ℕ, ◌+◌, ◌-◌, ◌≤◌, ◌≡◌, List, [], ◌∷◌, ◌++◌, arith, dec_le,
}
use ia_operating_systems.Disksim.State.{Stream, distance}
use ia_operating_systems.Disksim.Schedule.{cyl_of}

-- The cylinders that the head moves over, from `cur`, to serve in this order.
abbrev pub travel : Stream → ℕ → List ℕ → ℕ
travel s cur [] = 0
travel s cur (i ∷ order) = distance (cyl_of s i) cur + travel s (cyl_of s i) order

-- Where the head ends.
abbrev pub finish : Stream → ℕ → List ℕ → ℕ
finish s cur [] = cur
finish s cur (i ∷ order) = finish s (cyl_of s i) order

pub travel-append :
    (s : Stream) (cur : ℕ) (xs ys : List ℕ)
    → travel s cur (xs ++ ys) ≡ travel s cur xs + travel s (finish s cur xs) ys
travel-append s cur [] ys = omega arith
travel-append s cur (x ∷ xs) ys = omega (arith, travel-append s (cyl_of s x) xs ys)

distance_up : (x y : ℕ) → y ≤ x → distance x y ≡ x - y
distance_up x y le = ground arith

distance_down : (x y : ℕ) → x ≤ y → distance x y ≡ y - x
distance_down x y le = ground arith

module _ (s : Stream) where
  abbrev pub Rises : ℕ → ℕ → Type 0
  Rises x y = cyl_of s x ≤ cyl_of s y

  abbrev pub Falls : ℕ → ℕ → Type 0
  Falls x y = cyl_of s y ≤ cyl_of s x

  -- A run outwards ends as far out as it went.
  pub rising :
      (cur hi : ℕ) (xs : List ℕ)
      → cur ≤ hi
      → Ordered Rises xs
      → Each (λ i. cur ≤ cyl_of s i) xs
      → Each (λ i. cyl_of s i ≤ hi) xs
      → (travel s cur xs + cur ≡ finish s cur xs) × (finish s cur xs ≤ hi)
  rising cur hi [] le v low high = (omega arith, le)
  rising cur hi (x ∷ xs) le v low high =
      let rest = rising (cyl_of s x) hi xs high.0 v.1 v.0 high.1 in
      (omega (arith, rest, distance_up (cyl_of s x) cur low.0, low), rest.1)

  pub falling :
      (cur lo : ℕ) (xs : List ℕ)
      → lo ≤ cur
      → Ordered Falls xs
      → Each (λ i. cyl_of s i ≤ cur) xs
      → Each (λ i. lo ≤ cyl_of s i) xs
      → (travel s cur xs + finish s cur xs ≡ cur) × (lo ≤ finish s cur xs)
  falling cur lo [] le v high low = (omega arith, le)
  falling cur lo (x ∷ xs) le v high low =
      let rest = falling (cyl_of s x) lo xs low.0 v.1 v.0 low.1 in
      (omega (arith, rest, distance_down (cyl_of s x) cur high.0, high), rest.1)

  -- A run outwards after a jump to where it begins.
  pub jump_up :
      (cur lo top : ℕ) (ys : List ℕ)
      → lo ≤ cur
      → Ordered Rises ys
      → Each (λ i. lo ≤ cyl_of s i) ys
      → Each (λ i. cyl_of s i ≤ top) ys
      → travel s cur ys ≤ (cur - lo) + (top - lo)
  jump_up cur lo top [] le v low high = omega arith
  jump_up cur lo top (y ∷ ys) le v low high =
      let rest = rising (cyl_of s y) top ys high.0 v.1 v.0 high.1 in
      elim (dec_le (cyl_of s y) cur) [
        | yes back ↦ omega (arith, rest, distance_down (cyl_of s y) cur back, low.0)
        | no on ↦ omega (arith, rest, distance_up (cyl_of s y) cur (omega arith), low.0)
      ]

  pub jump_down :
      (cur bottom hi : ℕ) (ys : List ℕ)
      → cur ≤ hi
      → Ordered Falls ys
      → Each (λ i. cyl_of s i ≤ hi) ys
      → Each (λ i. bottom ≤ cyl_of s i) ys
      → travel s cur ys ≤ (hi - cur) + (hi - bottom)
  jump_down cur bottom hi [] le v high low = omega arith
  jump_down cur bottom hi (y ∷ ys) le v high low =
      let rest = falling (cyl_of s y) bottom ys low.0 v.1 v.0 low.1 in
      elim (dec_le (cyl_of s y) cur) [
        | yes back ↦ omega (arith, rest, distance_down (cyl_of s y) cur back, high.0)
        | no on ↦ omega (arith, rest, distance_up (cyl_of s y) cur (omega arith), high.0)
      ]
