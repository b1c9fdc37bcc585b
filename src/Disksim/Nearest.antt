-- ===== src/Disksim/Nearest.antt =====
-- our-course/labs/lab06-io-storage/solutions/disksim.c: the inner loop of SSTF finds the nearest request
-- that is not served yet.
use mathlib.Core.Bool.{true≢false}
use ia_operating_systems.Base.{
  ℕ, zero, suc, ◌+◌, ◌≤◌, ◌<◌, ◌≡◌, ◌⊎◌, inl, inr, Bool, true, false, not, ◌&&◌, ◌||◌, ◌==◌, ltb,
  Option, none, some, arith, refl, sym, ◌∙◌, subst, dec_lt, Bool-cases,
}
use ia_operating_systems.Disksim.Qsort.{tri}
use ia_operating_systems.Disksim.State.{Stream, distance}
use ia_operating_systems.Disksim.Schedule.{cyl_of, closer, nearest}

-- The order of three numbers by the first, then by the second, then by the third.
abbrev Lex : ℕ → ℕ → ℕ → ℕ → ℕ → ℕ → Type 0
Lex d c b e f j = (d < e) ⊎ ((d ≡ e) × ((c < f) ⊎ ((c ≡ f) × b ≤ j)))

-- Nearest first; of two at the same distance the one on the lower cylinder, and then the earlier one.
abbrev pub Prefer : Stream → ℕ → ℕ → ℕ → Type 0
Prefer s cur b j =
    Lex (distance (cyl_of s b) cur) (cyl_of s b) b (distance (cyl_of s j) cur) (cyl_of s j) j

nearer : ℕ → ℕ → ℕ → ℕ → Bool
nearer d c e f = ltb e d || (e == d && ltb f c)

Lex-not_nearer : (d c b e f i : ℕ) → nearer d c e f ≡ false → b < i → Lex d c b e f i
unfolding nearer
Lex-not_nearer d c b e f i h lt = elim (tri d e) [
  | inl l ↦ inl l
  | inr (inl g) ↦ absurd (true≢false (ground arith))
  | inr (inr g) ↦ elim (tri c f) [
    | inl l ↦ inr (g, inl l)
    | inr (inl k) ↦ absurd (true≢false (ground arith))
    | inr (inr k) ↦ inr (g, inr (k, omega arith))
  ]
]

nearer-cases : (d c e f : ℕ) → nearer d c e f ≡ true → (e < d) ⊎ ((e ≡ d) × (f < c))
unfolding nearer
nearer-cases d c e f h = elim (tri e d) [
  | inl l ↦ inl l
  | inr (inl g) ↦ absurd (true≢false (ground arith))
  | inr (inr g) ↦ inr (g, ground arith)
]

Lex-nearer : (d c b e f i g h j : ℕ) → nearer d c e f ≡ true → Lex d c b g h j → Lex e f i g h j
Lex-nearer d c b e f i g h j n v = join (nearer-cases d c e f n) v
  where
    join : (e < d) ⊎ ((e ≡ d) × (f < c)) → Lex d c b g h j → Lex e f i g h j
    join (inl l) (inl k) = inl (omega arith)
    join (inl l) (inr (k, m)) = inl (omega arith)
    join (inr (l, r)) (inl k) = inl (omega arith)
    join (inr (l, r)) (inr (k, inl m)) = inr (omega arith, inl (omega arith))
    join (inr (l, r)) (inr (k, inr m)) = inr (omega arith, inl (omega arith))

-- What the choice among the first `n` requests is.
abbrev pub Chosen : Stream → (ℕ → Bool) → ℕ → ℕ → Option ℕ → Type 0
Chosen s done cur n none = (j : ℕ) → j < n → done j ≡ true
Chosen s done cur n (some b) =
    (b < n) × (done b ≡ false) × ((j : ℕ) → j < n → done j ≡ false → Prefer s cur b j)

-- The two other variables of the loop go with the best request.
abbrev Kept : Stream → ℕ → Option ℕ → ℕ → ℕ → Type 0
Kept s cur none d c = Unit {0}
Kept s cur (some b) d c = (d ≡ distance (cyl_of s b) cur) × (c ≡ cyl_of s b)

below_suc : (P : ℕ → Type 0) (i : ℕ) → ((j : ℕ) → j < i → P j) → P i → (j : ℕ) → j < suc i → P j
below_suc P i f p j lt = elim (dec_lt j i) [ yes l ↦ f j l | no g ↦ subst P (omega arith) p ]

absurd_bool : {A : Type 0} {b : Bool} → b ≡ true → b ≡ false → A
absurd_bool e f = absurd (true≢false (sym e ∙ f))

module _ (s : Stream) (done : ℕ → Bool) (cur i : ℕ) where
  Prefer-refl : Prefer s cur i i
  Prefer-refl = inr (refl, inr (refl, omega arith))

  keeps :
      (best : Option ℕ) → Chosen s done cur i best → done i ≡ true → Chosen s done cur (suc i) best
  keeps none v e = below_suc (λ j. done j ≡ true) i v e
  keeps (some b) v e = (
    omega (arith, v.0),
    v.1,
    below_suc (λ j. done j ≡ false → Prefer s cur b j) i v.2 (λ f. absurd_bool e f),
  )

  takes_first : Chosen s done cur i none → done i ≡ false → Chosen s done cur (suc i) (some i)
  takes_first v e = (
    omega arith,
    e,
    below_suc (λ j. done j ≡ false → Prefer s cur i j) i (λ j lt f. absurd_bool (v j lt) f)
        (λ f. Prefer-refl),
  )

  stays :
      (b d c : ℕ)
      → Chosen s done cur i (some b)
      → Kept s cur (some b) d c
      → closer s cur (some b) d c i ≡ false
      → Chosen s done cur (suc i) (some b)
  unfolding closer nearer
  stays b d c v k e = (
    omega (arith, v.0),
    v.1,
    below_suc (λ j. done j ≡ false → Prefer s cur b j) i v.2
        (λ f. Lex-not_nearer _ _ b _ _ i tested v.0),
  )
    where
      tested :
          nearer (distance (cyl_of s b) cur) (cyl_of s b) (distance (cyl_of s i) cur) (cyl_of s i)
          ≡ false
      tested =
          subst (λ (w : ℕ × ℕ). nearer w.0 w.1 (distance (cyl_of s i) cur) (cyl_of s i) ≡ false)
            (λ t. (k.0 t, k.1 t)) e

  replaces :
      (b d c : ℕ)
      → Chosen s done cur i (some b)
      → Kept s cur (some b) d c
      → done i ≡ false
      → closer s cur (some b) d c i ≡ true
      → Chosen s done cur (suc i) (some i)
  unfolding closer nearer
  replaces b d c v k f e = (
    omega arith,
    f,
    below_suc (λ j. done j ≡ false → Prefer s cur i j) i
        (λ j lt g. Lex-nearer _ _ b _ _ i _ _ j tested (v.2 j lt g)) (λ g. Prefer-refl),
  )
    where
      tested :
          nearer (distance (cyl_of s b) cur) (cyl_of s b) (distance (cyl_of s i) cur) (cyl_of s i)
          ≡ true
      tested =
          subst (λ (w : ℕ × ℕ). nearer w.0 w.1 (distance (cyl_of s i) cur) (cyl_of s i) ≡ true)
            (λ t. (k.0 t, k.1 t)) e

module _ (s : Stream) (done : ℕ → Bool) (cur : ℕ) where
  skip :
      (i n : ℕ) (best : Option ℕ) (d c : ℕ)
      → (not (done i) && closer s cur best d c i) ≡ false
      → nearest s done cur i (suc n) best d c ≡ nearest s done cur (suc i) n best d c
  unfolding nearest
  skip i n best d c e = rw e refl

  take :
      (i n : ℕ) (best : Option ℕ) (d c : ℕ)
      → (not (done i) && closer s cur best d c i) ≡ true
      → nearest s done cur i (suc n) best d c
        ≡ nearest s done cur (suc i) n (some i) (distance (cyl_of s i) cur) (cyl_of s i)
  unfolding nearest
  take i n best d c e = rw e refl

  Kept-self : (i : ℕ) → Kept s cur (some i) (distance (cyl_of s i) cur) (cyl_of s i)
  Kept-self i = (refl, refl)

  skips :
      (i : ℕ) (best : Option ℕ) (d c : ℕ)
      → done i ≡ true
      → (not (done i) && closer s cur best d c i) ≡ false
  skips i best d c e = rw e refl

  takes :
      (i : ℕ) (best : Option ℕ) (d c : ℕ) (t : Bool)
      → done i ≡ false
      → closer s cur best d c i ≡ t
      → (not (done i) && closer s cur best d c i) ≡ t
  takes i best d c t e f = rw (e, f) refl

  first_closer : (d c i : ℕ) → closer s cur none d c i ≡ true
  unfolding closer
  first_closer d c i = refl

  module _ (i n m : ℕ)
      (rest : (best : Option ℕ) (d c : ℕ)
        → Chosen s done cur (suc i) best
        → Kept s cur best d c
        → Chosen s done cur m (nearest s done cur (suc i) n best d c)) where
    taken :
        (best : Option ℕ) (d c : ℕ)
        → done i ≡ false
        → closer s cur best d c i ≡ true
        → Chosen s done cur (suc i) (some i)
        → Chosen s done cur m (nearest s done cur i (suc n) best d c)
    taken best d c f g w =
        subst (Chosen s done cur m) (sym (take i n best d c (takes i best d c true f g)))
          (rest (some i) (distance (cyl_of s i) cur) (cyl_of s i) w (Kept-self i))

    skipped :
        (best : Option ℕ) (d c : ℕ)
        → (not (done i) && closer s cur best d c i) ≡ false
        → Chosen s done cur (suc i) best
        → Kept s cur best d c
        → Chosen s done cur m (nearest s done cur i (suc n) best d c)
    skipped best d c f w k =
        subst (Chosen s done cur m) (sym (skip i n best d c f)) (rest best d c w k)

    round :
        (done i ≡ true) ⊎ (done i ≡ false)
        → (best : Option ℕ) (d c : ℕ) → Chosen s done cur i best
        → Kept s cur best d c
        → Chosen s done cur m (nearest s done cur i (suc n) best d c)
    round (inl f) best d c v k =
        skipped best d c (skips i best d c f) (keeps s done cur i best v f) k
    round (inr f) none d c v k =
        taken none d c f (first_closer d c i) (takes_first s done cur i v f)
    round (inr f) (some b) d c v k = elim (Bool-cases (closer s cur (some b) d c i)) [
      | inl g ↦ taken (some b) d c f g (replaces s done cur i b d c v k f g)
      | inr g ↦
          skipped (some b) d c (takes i (some b) d c false f g) (stays s done cur i b d c v k g) k
    ]

  -- The loop makes the choice among all the requests.
  pub nearest_lem :
      (i n m : ℕ) (best : Option ℕ) (d c : ℕ)
      → i + n ≡ m
      → Chosen s done cur i best
      → Kept s cur best d c
      → Chosen s done cur m (nearest s done cur i n best d c)
  unfolding nearest
  nearest_lem i zero m best d c e v k = subst (λ m. Chosen s done cur m best) (omega arith) v
  nearest_lem i (suc n) m best d c e v k =
      round i n m (λ best d c. nearest_lem (suc i) n m best d c (omega arith)) (Bool-cases (done i))
        best d c v k
