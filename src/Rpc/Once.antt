-- ===== src/Rpc/Once.antt =====
-- our-course/labs/lab10-distributed/solutions/rpc.c: no call is handed to the handler twice.
use mathlib.Core.Bool.{false≢true}
use mathlib.Core.Option.{some-injective, none-ne-some}
use ia_operating_systems.Base.{
  ℕ, ◌+◌, ◌≤◌, ◌<◌, ◌≡◌, ◌≢◌, true, false, not, ◌&&◌, ◌==◌, Option, none, some, List, ◌∷◌, arith,
  refl, ap, ap₂, sym, ◌∙◌, subst, ℕ_discrete, dec_lt, ==_iff, Each, Ordered, Each-map,
}
use ia_operating_systems.Rpc.{CacheEnt, cache_slots, first_slot, belongs, is_free}
use ia_operating_systems.Rpc.Cache.{
  Found, first_slot-Found, first_slot-is, first_slot-none, first_slot-same,
}

abbrev find : (ℕ → CacheEnt) → ℕ → Option ℕ
find cache client = first_slot (belongs client) cache 0 cache_slots

-- The client has a slot, whose number the call does not exceed.
abbrev Kept : (ℕ → CacheEnt) → (ℕ × ℕ) → Type 0
Kept cache call = (t : ℕ) × (find cache call.0 ≡ some t) × (call.1 ≤ (cache t).seq)

-- A later call of the same client has the greater number.
abbrev pub Later : (ℕ × ℕ) → (ℕ × ℕ) → Type 0
Later new old = new.0 ≡ old.0 → old.1 < new.1

-- As long as the cache has had room for every client.
pub record Inv (cache : ℕ → CacheEnt) (takes : ℕ) (log : List (ℕ × ℕ)) : Type 0 where
  pub free : (i : ℕ) → takes ≤ i → i < cache_slots → (cache i).used ≡ false
  pub kept : takes ≤ cache_slots → Each (Kept cache) log
  pub once : takes ≤ cache_slots → Ordered Later log

-- The slot `t` has become the client's, with the call's number.
pub record Put (cache cache' : ℕ → CacheEnt) (t c q : ℕ) : Type 0 where
  pub used : (cache' t).used ≡ true
  pub client : (cache' t).client ≡ c
  pub seq : (cache' t).seq ≡ q
  pub others : (j : ℕ) → t ≢ j → cache' j ≡ cache j

-- Without a free slot the cache has had as many clients as it has slots.
pub full-Inv :
    {cache : ℕ → CacheEnt} {takes : ℕ} {log : List (ℕ × ℕ)} (cache' : ℕ → CacheEnt)
    (log' : List (ℕ × ℕ))
    → Inv cache takes log
    → first_slot is_free cache 0 cache_slots ≡ none
    → Inv cache' (takes + 1) log'
full-Inv {cache} {takes} cache' log' v e = record {
  free = λ i le lt. absurd (omega (arith, many));
  kept = λ le. absurd (omega (arith, many));
  once = λ le. absurd (omega (arith, many));
}
  where
    many : cache_slots ≤ takes
    many = elim (dec_lt takes cache_slots) [
      | no h ↦ omega arith
      | yes lt ↦ absurd (
          false≢true (
            sym (first_slot-none is_free cache 0 cache_slots takes e (omega arith) (omega arith))
            ∙ ap not (v.free takes (omega arith) lt)))
    ]

-- The test by what the slot says.
belongs-of : (d : ℕ) (e : CacheEnt) (c : ℕ) → e.used ≡ true → e.client ≡ c → belongs d e ≡ (c == d)
belongs-of d e c u k = ap₂ (λ a b. a && b == d) u k

pub belongs-is : (d : ℕ) (e : CacheEnt) → belongs d e ≡ true → (e.used ≡ true) × (e.client ≡ d)
belongs-is d e h = ground (arith, ==_iff e.client d)

same_find :
    {cache cache' : ℕ → CacheEnt} {t c q : ℕ} (d : ℕ)
    → Put cache cache' t c q
    → belongs d (cache t) ≡ (c == d)
    → find cache' d ≡ find cache d
same_find {cache} {cache'} {t} {c} d w same =
    first_slot-same (belongs d) cache cache' 0 cache_slots (λ j. elim (ℕ_discrete t j) [
      | yes e ↦
          subst (λ k. belongs d (cache' k) ≡ belongs d (cache k)) e
            (belongs-of d (cache' t) c w.used w.client ∙ sym same)
      | no ne ↦ ap (belongs d) (w.others j ne)
    ])

-- A new call of a client that has a slot.
pub again-Inv :
    {cache cache' : ℕ → CacheEnt} {takes t c q : ℕ} {log : List (ℕ × ℕ)}
    → Inv cache takes log
    → find cache c ≡ some t
    → (cache t).seq < q
    → Put cache cache' t c q
    → Inv cache' takes ((c, q) ∷ log)
again-Inv {cache} {cache'} {takes} {t} {c} {q} {log} v e lt w = record {
  free = λ i le il. free i le il;
  kept = λ le. ((t, same c ∙ e, omega (arith, w.seq)), Each-map log old (v.kept le));
  once = λ le. (Each-map log later (v.kept le), v.once le);
}
  where
    found : Found (belongs c) cache 0 cache_slots t
    found = first_slot-Found (belongs c) cache 0 cache_slots t e

    mine : ((cache t).used ≡ true) × ((cache t).client ≡ c)
    mine = belongs-is c (cache t) found.passes

    same : (d : ℕ) → find cache' d ≡ find cache d
    same d = same_find d w (belongs-of d (cache t) c mine.0 mine.1)

    free : (i : ℕ) → takes ≤ i → i < cache_slots → (cache' i).used ≡ false
    free i le il = elim (ℕ_discrete t i) [
      | yes h ↦
          absurd (false≢true (sym (v.free i le il) ∙ subst (λ k. (cache k).used ≡ true) h mine.0))
      | no ne ↦ ap (λ k. k.used) (w.others i ne) ∙ v.free i le il
    ]

    old : (call : ℕ × ℕ) → Kept cache call → Kept cache' call
    old call (t0, f, le) = (
      t0,
      same call.0 ∙ f,
      elim (ℕ_discrete t t0) [
        | yes h ↦
            subst (λ k. call.1 ≤ (cache' k).seq) h
              (let le' = subst (λ k. call.1 ≤ (cache k).seq) (sym h) le in omega (arith, w.seq))
        | no ne ↦ subst (λ k. call.1 ≤ k.seq) (sym (w.others t0 ne)) le
      ],
    )

    later : (call : ℕ × ℕ) → Kept cache call → Later (c, q) call
    later call (t0, f, le) h =
        let at_t : t0 ≡ t = some-injective t0 t (sym f ∙ ap (find cache) (sym h) ∙ e) in
        let le' = subst (λ k. call.1 ≤ (cache k).seq) at_t le in omega arith

-- The first call of a client, or the first since it lost its slot.
pub new-Inv :
    {cache cache' : ℕ → CacheEnt} {takes t c q : ℕ} {log : List (ℕ × ℕ)}
    → Inv cache takes log
    → find cache c ≡ none
    → first_slot is_free cache 0 cache_slots ≡ some t
    → Put cache cache' t c q
    → Inv cache' (takes + 1) ((c, q) ∷ log)
new-Inv {cache} {cache'} {takes} {t} {c} {q} {log} v e f w = record {
  free = λ i le il. ap (λ k. k.used) (w.others i (early i le)) ∙ v.free i (omega arith) il;
  kept = λ le. ((t, mine, omega (arith, w.seq)), Each-map log old (v.kept (omega arith)));
  once = λ le. (Each-map log later (v.kept (omega arith)), v.once (omega arith));
}
  where
    found : Found is_free cache 0 cache_slots t
    found = first_slot-Found is_free cache 0 cache_slots t f

    before : (cache t).used ≡ false
    before = ground (arith, found.passes)

    early : (i : ℕ) → takes + 1 ≤ i → t ≢ i
    early i le h = absurd (
        false≢true (
          sym (found.first takes (omega arith) (omega arith))
          ∙ ap not (v.free takes (omega arith) (omega (arith, found.below)))))

    mine : find cache' c ≡ some t
    mine = first_slot-is (belongs c) cache' 0 cache_slots t record {
      passes = belongs-of c (cache' t) c w.used w.client ∙ (==_iff c c).1 refl;
      from = omega arith;
      below = found.below;
      first = λ j le lt.
          ap (belongs c) (w.others j (λ h. omega arith))
          ∙ first_slot-none (belongs c) cache 0 cache_slots j e le (omega (arith, found.below));
    }

    not_ours : (call : ℕ × ℕ) → Kept cache call → c ≢ call.0
    not_ours call (t0, g, le) h = none-ne-some t0 (sym e ∙ ap (find cache) h ∙ g)

    old : (call : ℕ × ℕ) → Kept cache call → Kept cache' call
    old call (t0, g, le) =
        let differs : (c == call.0) ≡ false =
          ground (arith, ==_iff c call.0, not_ours call (t0, g, le)) in
        let shut : belongs call.0 (cache t) ≡ false =
          ap (λ u. u && (cache t).client == call.0) before in
        let at_t0 = first_slot-Found (belongs call.0) cache 0 cache_slots t0 g in
        let ne = λ (h : t ≡ t0).
          false≢true
            (sym shut ∙ subst (λ k. belongs call.0 (cache k) ≡ true) (sym h) at_t0.passes) in
        (
          t0,
          same_find call.0 w (shut ∙ sym differs) ∙ g,
          subst (λ k. call.1 ≤ k.seq) (sym (w.others t0 ne)) le,
        )

    later : (call : ℕ × ℕ) → Kept cache call → Later (c, q) call
    later call k h = absurd (not_ours call k h)
