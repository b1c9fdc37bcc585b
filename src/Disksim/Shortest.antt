-- ===== src/Disksim/Shortest.antt =====
-- our-course/labs/lab06-io-storage/solutions/disksim.c: SSTF ends, serves every request once, and always
-- the one nearest to the head.
use mathlib.Core.List.{Perm}
use mathlib.Core.List.Perm
use ia_operating_systems.Base.{
  Each, Each-map, ℕ, zero, suc, ◌+◌, ◌≤◌, ◌<◌, ◌≡◌, ◌⊎◌, inl, inr, Bool, true, false, not, none,
  some, List, [], ◌∷◌, length, arith, refl, ap, sym, ◌∙◌, subst, update, update_self, update_ne,
  ℕ_discrete, Bool-cases, Option-cases,
}
use ia_operating_systems.Disksim.State.{Stream}
use ia_operating_systems.Disksim.Schedule.{cyl_of, indices, pick, nearest, sstf_rounds, sched_sstf}
use ia_operating_systems.Disksim.Nearest.{Prefer, Chosen, nearest_lem}

-- The requests not served yet, of the `n` from `i` on.
abbrev left : (ℕ → Bool) → ℕ → ℕ → List ℕ
left done i n = pick (λ j. not (done j)) (indices i n)

-- Every request in the order is preferred to the later ones, from where the head then is.
abbrev pub Greedy : Stream → ℕ → List ℕ → Type 0
Greedy s cur [] = Unit {0}
Greedy s cur (b ∷ order) = Each (Prefer s cur b) order × Greedy s (cyl_of s b) order

left_done : (done : ℕ → Bool) (i n : ℕ) → done i ≡ true → left done i (suc n) ≡ left done (suc i) n
left_done done i n e = rw e refl

left_open :
    (done : ℕ → Bool) (i n : ℕ) → done i ≡ false → left done i (suc n) ≡ i ∷ left done (suc i) n
left_open done i n e = rw e refl

left-update_ne :
    (done : ℕ → Bool) (b i n : ℕ) → b < i → left (update done b true) i n ≡ left done i n
left-update_ne done b i zero lt = refl
left-update_ne done b i (suc n) lt =
    let rest = left-update_ne done b (suc i) n (omega arith) in
    let same = update_ne done b true i (omega arith) in
    elim (Bool-cases (done i)) [
      | inl e ↦ left_done (update done b true) i n (same ∙ e) ∙ rest ∙ sym (left_done done i n e)
      | inr e ↦
          left_open (update done b true) i n (same ∙ e)
          ∙ ap (λ xs. i ∷ xs) rest
          ∙ sym (left_open done i n e)
    ]

-- A list and the same list with one more element somewhere.
abbrev Extends : ℕ → List ℕ → List ℕ → Type 0
Extends b xs ys = Perm (b ∷ xs) ys × (suc (length xs) ≡ length ys)

Extends-head : (b : ℕ) (xs : List ℕ) → Extends b xs (b ∷ xs)
Extends-head b xs = (Perm.rfl, refl)

Extends-cons : (b i : ℕ) (xs ys : List ℕ) → Extends b xs ys → Extends b (i ∷ xs) (i ∷ ys)
Extends-cons b i xs ys v = (Perm.trans (Perm.swap _ _ xs) (Perm.cons i v.0), omega (arith, v.1))

left-update :
    (done : ℕ → Bool) (b i n : ℕ)
    → done b ≡ false
    → i ≤ b
    → b < i + n
    → Extends b (left (update done b true) i n) (left done i n)
left-update done b i zero free le lt = absurd (omega arith)
left-update done b i (suc n) free le lt = elim (ℕ_discrete b i) [
  | yes e ↦
      let now : left (update done b true) i (suc n) ≡ left done (suc i) n =
        left_done (update done b true) i n
          (ap (update done b true) (sym e) ∙ update_self done b true)
        ∙ left-update_ne done b (suc i) n (omega arith) in
      let before : left done i (suc n) ≡ b ∷ left done (suc i) n =
        left_open done i n (ap done (sym e) ∙ free) ∙ ap (λ j. j ∷ left done (suc i) n) (sym e) in
      subst (λ (w : List ℕ × List ℕ). Extends b w.0 w.1) (λ t. (sym now t, sym before t))
        (Extends-head b (left done (suc i) n))
  | no ne ↦
      let rest = left-update done b (suc i) n free (omega arith) (omega arith) in
      let same = update_ne done b true i ne in
      elim (Bool-cases (done i)) [
        | inl e ↦
            subst (λ (w : List ℕ × List ℕ). Extends b w.0 w.1)
              (λ t. (
                sym (left_done (update done b true) i n (same ∙ e)) t,
                sym (left_done done i n e) t,
              ))
              rest
        | inr e ↦
            subst (λ (w : List ℕ × List ℕ). Extends b w.0 w.1)
              (λ t. (
                sym (left_open (update done b true) i n (same ∙ e)) t,
                sym (left_open done i n e) t,
              ))
              (Extends-cons b i _ _ rest)
      ]
]

left-none : (done : ℕ → Bool) (i n : ℕ) → ((j : ℕ) → j < i + n → done j ≡ true) → left done i n ≡ []
left-none done i zero f = refl
left-none done i (suc n) f =
    left_done done i n (f i (omega arith)) ∙ left-none done (suc i) n (λ j lt. f j (omega arith))

left-all : (i n : ℕ) → left (λ j. false) i n ≡ indices i n
left-all i zero = refl
left-all i (suc n) = ap (λ xs. i ∷ xs) (left-all (suc i) n)

length-indices : (i n : ℕ) → length (indices i n) ≡ n
length-indices i zero = refl
length-indices i (suc n) = omega (arith, length-indices (suc i) n)

nothing : (xs : List ℕ) → length xs ≡ 0 → [] ≡ xs
nothing [] e = refl
nothing (x ∷ xs) e = absurd (omega arith)

-- What the rounds left make of the requests left.
abbrev Served : Stream → (ℕ → Bool) → ℕ → ℕ → Type 0
Served s done cur k =
    (order : List ℕ) × (sstf_rounds s done cur k ≡ some order)
    × Perm order (left done 0 s.nreq)
    × Each (λ j. (j < s.nreq) × (done j ≡ false)) order
    × Greedy s cur order

module _ (s : Stream) where
  goes_on :
      (done : ℕ → Bool) (cur k b : ℕ) (order : List ℕ)
      → nearest s done cur 0 s.nreq none 0 0 ≡ some b
      → sstf_rounds s (update done b true) (cyl_of s b) k ≡ some order
      → sstf_rounds s done cur (suc k) ≡ some (b ∷ order)
  unfolding sstf_rounds
  goes_on done cur k b order e f = cc

  still_open : (done : ℕ → Bool) (b j : ℕ) → update done b true j ≡ false → done j ≡ false
  still_open done b j e = ground (arith, e)

  rounds :
      (k : ℕ) (done : ℕ → Bool) (cur : ℕ) → length (left done 0 s.nreq) ≡ k → Served s done cur k
  unfolding sstf_rounds
  rounds zero done cur e =
      ([], refl, subst (λ xs. Perm [] xs) (nothing (left done 0 s.nreq) e) Perm.rfl, tt, tt)
  rounds (suc k) done cur e =
      from (Option-cases (nearest s done cur 0 s.nreq none 0 0))
        (λ b. rounds k (update done b true) (cyl_of s b))
    where
      choice : Chosen s done cur s.nreq (nearest s done cur 0 s.nreq none 0 0)
      choice =
          nearest_lem s done cur 0 s.nreq s.nreq none 0 0 (omega arith)
            (λ j lt. absurd (omega arith)) tt

      serves :
          (b : ℕ)
          → nearest s done cur 0 s.nreq none 0 0 ≡ some b
          → Chosen s done cur s.nreq (some b)
          → Extends b (left (update done b true) 0 s.nreq) (left done 0 s.nreq)
          → Served s (update done b true) (cyl_of s b) k
          → Served s done cur (suc k)
      serves b found v w (order, f, perm, each, greedy) = (
        b ∷ order,
        goes_on done cur k b order found f,
        Perm.trans (Perm.cons b perm) w.0,
        ((v.0, v.1), Each-map order (λ j u. (u.0, still_open done b j u.1)) each),
        (Each-map order (λ j u. v.2 j u.0 (still_open done b j u.1)) each, greedy),
      )

      from :
          (nearest s done cur 0 s.nreq none 0 0 ≡ none)
            ⊎ ((b : ℕ) × (nearest s done cur 0 s.nreq none 0 0 ≡ some b))
          → ((b : ℕ)
              → length (left (update done b true) 0 s.nreq) ≡ k
              → Served s (update done b true) (cyl_of s b) k)
          → Served s done cur (suc k)
      from (inl f) rest =
          let empty =
            left-none done 0 s.nreq
              (λ j lt. subst (Chosen s done cur s.nreq) f choice j (omega arith)) in
          absurd (omega (arith, e, ap length empty))
      from (inr (b, f)) rest =
          let v = subst (Chosen s done cur s.nreq) f choice in
          let w = left-update done b 0 s.nreq v.1 (omega arith) (omega (arith, v.0)) in
          serves b f v w (rest b (omega (arith, w.1, e)))

-- SSTF comes to an end without running out of requests. It serves every request once, and each before
-- all later ones because it is nearer to where the head then is; at the same distance the one on the
-- lower cylinder goes first, and on the same cylinder the one that came first.
pub sched_sstf-Greedy :
    (s : Stream) (start : ℕ)
    → (order : List ℕ) × (sched_sstf s start ≡ some order)
      × Perm order (indices 0 s.nreq)
      × Greedy s start order
unfolding sched_sstf
sched_sstf-Greedy s start =
    let (order, e, perm, each, greedy) =
      rounds s s.nreq (λ j. false) start
        (ap length (left-all 0 s.nreq) ∙ length-indices 0 s.nreq) in
    (order, e, subst (Perm order) (left-all 0 s.nreq) perm, greedy)
