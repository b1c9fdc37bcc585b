-- ===== src/Locks/Ticketlock/Order.antt =====
-- our-course/labs/lab05-concurrency/part2-locks/solutions/mylock.c: the ticket lock has one holder and
-- is given in the order in which the tickets were taken.
use ia_operating_systems.Base.{
  ℕ, ◌+◌, ◌%◌, ◌^◌, ◌<◌, ◌≡◌, ◌≢◌, ◌⊎◌, inl, inr, arith, refl, ap, sym, ◌∙◌, subst, update,
  update_self, update_ne, tally, ℕ_discrete,
}
use ia_operating_systems.Locks.Ticketlock.{
  Lock, Pc, idle, fetch, load, holding, add, advance, System, Step, move, Reach,
}
use ia_operating_systems.Locks.Ticketlock.Line.{active, held, mine_of, ahead, Inv, tally-le}
use ia_operating_systems.Locks.Ticketlock.Invariant.{Reach-Inv, reads_own, reads_other}

held-active : (p : Pc) → held p ≡ 1 → active p ≡ 1
held-active idle e = absurd (omega (arith, e))
held-active fetch e = absurd (omega (arith, e))
held-active (load m) e = refl
held-active (holding m) e = refl
held-active (add m) e = refl

-- With fewer than 2 ^ 32 threads, no two of them have the ticket lock at once.
pub ticketlock_exclusion :
    {n : ℕ} {s : System} (i j : ℕ)
    → Reach n s
    → n < 2 ^ 32
    → i < n
    → j < n
    → i ≢ j
    → held (s.pc i) ≡ 1
    → held (s.pc j) ≢ 1
ticketlock_exclusion {s = s} i j r few ilt jlt ne e f =
    let v = Reach-Inv r few in
    let a = held-active (s.pc i) e in
    let b = held-active (s.pc j) f in
    v.apart i j ilt jlt ne a b ((v.line i ilt a).served e ∙ sym ((v.line j jlt b).served f))

-- Thread `i` has an earlier ticket than thread `j`.
abbrev pub Before : System → ℕ → ℕ → Type 0
Before s i j =
    (active (s.pc i) ≡ 1)
    × (active (s.pc j) ≡ 1)
    × (ahead s.lock (mine_of (s.pc i)) < ahead s.lock (mine_of (s.pc j)))

-- Both have their tickets, or `j` takes its in the step to `t`.
abbrev pub Follows : System → System → ℕ → ℕ → Type 0
Follows s t i j = Before s i j ⊎ ((active (s.pc i) ≡ 1) × (s.pc j ≡ fetch) × (active (t.pc j) ≡ 1))

module _ {n : ℕ} (s : System) (v : Inv n s) (k : ℕ) (klt : k < n) where
  abbrev after : Lock → Pc → System
  after l p = record { lock = l; pc = update s.pc k p }

  keeps :
      (p : Pc) (x : ℕ)
      → (active (s.pc k) ≡ 1 → (active p ≡ 1) × (mine_of p ≡ mine_of (s.pc k)))
      → active (s.pc x) ≡ 1
      → (active (update s.pc k p x) ≡ 1) × (mine_of (update s.pc k p x) ≡ mine_of (s.pc x))
  keeps p x same a = elim (ℕ_discrete k x) [
    | yes e ↦
        let now : update s.pc k p x ≡ p = ap (update s.pc k p) (sym e) ∙ update_self s.pc k p in
        let (b, m) = same (ap (λ y. active (s.pc y)) e ∙ a) in
        (ap active now ∙ b, ap mine_of now ∙ m ∙ ap (λ y. mine_of (s.pc y)) e)
    | no ne ↦ let now = update_ne s.pc k p x ne in (ap active now ∙ a, ap mine_of now)
  ]

  module _ (i j : ℕ) (ilt : i < n) (jlt : j < n) where
    -- A step that serves no new ticket.
    still :
        (l : Lock) (p : Pc)
        → l.serving ≡ s.lock.serving
        → (active (s.pc k) ≡ 1 → (active p ≡ 1) × (mine_of p ≡ mine_of (s.pc k)))
        → Before s i j
        → Before (after l p) i j
    still l p e same (a, b, lt) =
        let (c, f) = keeps p i same a in
        let (d, g) = keeps p j same b in (c, d, omega (arith, e, f, g, lt))

    -- The holder goes.
    goes :
        (m : ℕ)
        → s.pc k ≡ add m
        → Before s i j
        → Before (after (record s.lock { serving = (s.lock.serving + 1) % 2 ^ 32 }) idle) i j
          ⊎ (active (update s.pc k idle i) ≡ 0)
    goes m e (a, b, lt) = elim (ℕ_discrete k i) [
      | yes f ↦
          inr
            (ap (λ y. active (update s.pc k idle y)) (sym f) ∙ ap active (update_self s.pc k idle))
      | no ne ↦
          let here : active (s.pc k) ≡ 1 = ap active e in
          let first : mine_of (s.pc k) ≡ s.lock.serving = (v.line k klt here).served (ap held e) in
          let front : k ≢ j = λ f. omega (arith, first, ap (λ y. mine_of (s.pc y)) f, lt, v.low) in
          let x = update_ne s.pc k idle i ne in
          let y = update_ne s.pc k idle j front in
          inl (
            ap active x ∙ a,
            ap active y ∙ b,
            omega (
              arith,
              ap mine_of x,
              ap mine_of y,
              lt,
              v.low,
              first,
              (v.line i ilt a).small,
              (v.line j jlt b).small,
              v.apart k i klt ilt ne here a,
              v.apart k j klt jlt front here b,
            ),
          )
    ]

    abbrev Kept : Lock × Pc → Type 0
    Kept w = Before (after w.0 w.1) i j ⊎ (active (update s.pc k w.1 i) ≡ 0)

    advance-Before : (q : Pc) → s.pc k ≡ q → Before s i j → Kept (advance s.lock q)
    unfolding advance
    advance-Before idle e w =
        inl (still s.lock fetch refl (λ a. absurd (omega (arith, a, ap active e))) w)
    advance-Before fetch e w = inl (
        still (record s.lock { ticket = (s.lock.ticket + 1) % 2 ^ 32 }) (load s.lock.ticket) refl
          (λ a. absurd (omega (arith, a, ap active e))) w)
    advance-Before (load m) e w = elim (ℕ_discrete s.lock.serving m) [
      | yes f ↦
          subst (λ p. Kept (s.lock, p)) (sym (reads_own s.lock.serving m f))
            (inl (still s.lock (holding m) refl (λ a. (refl, sym (ap mine_of e))) w))
      | no ne ↦
          subst (λ p. Kept (s.lock, p)) (sym (reads_other s.lock.serving m ne))
            (inl (still s.lock (load m) refl (λ a. (refl, sym (ap mine_of e))) w))
    ]
    advance-Before (holding m) e w =
        inl (still s.lock (add m) refl (λ a. (refl, sym (ap mine_of e))) w)
    advance-Before (add m) e w = goes m e w

    -- A ticket that is taken is behind all that are out.
    joins :
        tally active n s.pc < 2 ^ 32
        → active (s.pc i) ≡ 1
        → s.pc j ≡ fetch
        → active (update s.pc k (advance s.lock (s.pc k)).1 j) ≡ 1
        → Kept (advance s.lock (s.pc k))
    unfolding advance
    joins few a e b = elim (ℕ_discrete k j) [
      | yes f ↦
          let here : s.pc k ≡ fetch = ap s.pc f ∙ e in
          let l = record s.lock { ticket = (s.lock.ticket + 1) % 2 ^ 32 } in
          let p = load s.lock.ticket in
          let now : update s.pc k p j ≡ p = ap (update s.pc k p) (sym f) ∙ update_self s.pc k p in
          let other : update s.pc k p i ≡ s.pc i =
            update_ne s.pc k p i
              (λ g. omega (arith, a, ap active here, ap (λ y. active (s.pc y)) g)) in
          subst (λ q. Kept (advance s.lock q)) (sym here)
            (inl (
              ap active other ∙ a,
              ap active now,
              omega (
                arith,
                ap mine_of other,
                ap mine_of now,
                (v.line i ilt a).waits,
                v.count,
                v.low,
                few,
              ),
            ))
      | no ne ↦
          absurd
            (omega (arith, b, ap active (update_ne s.pc k (advance s.lock (s.pc k)).1 j ne ∙ e)))
    ]

-- With fewer than 2 ^ 32 threads, a thread that has a later ticket than another one, or takes its
-- ticket in a step in which the other one has its own, does not have the lock before that step. After
-- it the thread is behind, or the other one has given its ticket back.
pub ticketlock_in_order :
    {n : ℕ} {s t : System} (i j : ℕ)
    → Reach n s
    → n < 2 ^ 32
    → Step n s t
    → i < n
    → j < n
    → Follows s t i j
    → (held (s.pc j) ≢ 1) × (Before t i j ⊎ (active (t.pc i) ≡ 0))
ticketlock_in_order {n} {s} i j r few (move k {l} {p} klt e) ilt jlt w = (waits w, stays w)
  where
    v : Inv n s
    v = Reach-Inv r few

    waits : Follows s (record { lock = l; pc = update s.pc k p }) i j → held (s.pc j) ≢ 1
    waits (inl (a, b, lt)) h = omega (arith, (v.line j jlt b).served h, v.low, lt)
    waits (inr (a, b, c)) h = omega (arith, h, ap held b)

    stays :
        Follows s (record { lock = l; pc = update s.pc k p }) i j
        → Before (record { lock = l; pc = update s.pc k p }) i j ⊎ (active (update s.pc k p i) ≡ 0)
    stays (inl b) =
        subst (Kept s v k klt i j ilt jlt) e (advance-Before s v k klt i j ilt jlt (s.pc k) refl b)
    stays (inr (a, b, c)) = subst (Kept s v k klt i j ilt jlt) e (
        joins s v k klt i j ilt jlt (omega (arith, tally-le n s.pc, few)) a b
          (ap (λ (x : Lock × Pc). active (update s.pc k x.1 j)) e ∙ c))
