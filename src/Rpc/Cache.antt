-- ===== src/Rpc/Cache.antt =====
-- our-course/labs/lab10-distributed/solutions/rpc.c: the slots of the reply cache.
use mathlib.Core.Option.{some-injective, none-ne-some}
use ia_operating_systems.Base.{
  ℕ, zero, suc, ◌+◌, ◌≤◌, ◌<◌, ◌≡◌, inl, inr, Bool, true, false, if◌then◌else◌, none, some, arith,
  refl, ap, ap₂, sym, ◌∙◌, subst, ℕ_discrete, Bool-cases,
}
use ia_operating_systems.Rpc.{CacheEnt, first_slot}

-- What the search finds.
pub record Found (test : CacheEnt → Bool) (cache : ℕ → CacheEnt) (i n t : ℕ) : Type 0 where
  pub passes : test (cache t) ≡ true
  pub from : i ≤ t
  pub below : t < i + n
  pub first : (j : ℕ) → i ≤ j → j < t → test (cache j) ≡ false

pub first_slot-Found :
    (test : CacheEnt → Bool) (cache : ℕ → CacheEnt) (i n t : ℕ)
    → first_slot test cache i n ≡ some t
    → Found test cache i n t
unfolding first_slot
first_slot-Found test cache i zero t e = absurd (none-ne-some t e)
first_slot-Found test cache i (suc n) t e = elim (Bool-cases (test (cache i))) [
  | inl hit ↦
      let here : i ≡ t =
        some-injective i t
          (sym (ap (λ b. if b then some i else first_slot test cache (suc i) n) hit) ∙ e) in
      record {
        passes = subst (λ k. test (cache k) ≡ true) here hit;
        from = omega arith;
        below = omega arith;
        first = λ j le lt. absurd (omega arith);
      }
  | inr miss ↦
      let v =
        first_slot-Found test cache (suc i) n t
          (sym (ap (λ b. if b then some i else first_slot test cache (suc i) n) miss) ∙ e) in
      record {
        passes = v.passes;
        from = omega (arith, v.from);
        below = omega (arith, v.below);
        first = λ j le lt. elim (ℕ_discrete i j) [
          | yes e ↦ subst (λ k. test (cache k) ≡ false) e miss
          | no ne ↦ v.first j (omega arith) lt
        ];
      }
]

-- A slot that no earlier one precedes is the one found.
pub first_slot-is :
    (test : CacheEnt → Bool) (cache : ℕ → CacheEnt) (i n t : ℕ)
    → Found test cache i n t
    → first_slot test cache i n ≡ some t
unfolding first_slot
first_slot-is test cache i zero t v = absurd (omega (arith, v.from, v.below))
first_slot-is test cache i (suc n) t v = elim (ℕ_discrete i t) [
  | yes e ↦
      ap (λ b. if b then some i else first_slot test cache (suc i) n)
        (subst (λ k. test (cache k) ≡ true) (sym e) v.passes)
      ∙ ap some e
  | no ne ↦
      ap (λ b. if b then some i else first_slot test cache (suc i) n)
        (v.first i (omega arith) (omega (arith, v.from)))
      ∙ first_slot-is test cache (suc i) n t record {
        passes = v.passes;
        from = omega (arith, v.from);
        below = omega (arith, v.below);
        first = λ j le lt. v.first j (omega arith) lt;
      }
]

-- Where no slot is found, none passes.
pub first_slot-none :
    (test : CacheEnt → Bool) (cache : ℕ → CacheEnt) (i n j : ℕ)
    → first_slot test cache i n ≡ none
    → i ≤ j
    → j < i + n
    → test (cache j) ≡ false
unfolding first_slot
first_slot-none test cache i zero j e le lt = absurd (omega arith)
first_slot-none test cache i (suc n) j e le lt = elim (Bool-cases (test (cache i))) [
  | inl hit ↦
      absurd (
        none-ne-some i
          (sym e ∙ ap (λ b. if b then some i else first_slot test cache (suc i) n) hit))
  | inr miss ↦ elim (ℕ_discrete i j) [
    | yes here ↦ subst (λ k. test (cache k) ≡ false) here miss
    | no ne ↦
        first_slot-none test cache (suc i) n j
          (sym (ap (λ b. if b then some i else first_slot test cache (suc i) n) miss) ∙ e)
          (omega arith) (omega arith)
  ]
]

-- The search sees of the slots only whether they pass.
pub first_slot-same :
    (test : CacheEnt → Bool) (cache cache' : ℕ → CacheEnt) (i n : ℕ)
    → ((j : ℕ) → test (cache' j) ≡ test (cache j))
    → first_slot test cache' i n ≡ first_slot test cache i n
unfolding first_slot
first_slot-same test cache cache' i zero same = refl
first_slot-same test cache cache' i (suc n) same =
    ap₂ (λ b rest. if b then some i else rest) (same i)
      (first_slot-same test cache cache' (suc i) n same)
