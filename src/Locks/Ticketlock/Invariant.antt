-- ===== src/Locks/Ticketlock/Invariant.antt =====
-- our-course/labs/lab05-concurrency/part2-locks/solutions/mylock.c: the tickets that are out.
use ia_operating_systems.Base.{
  ℕ, suc, ◌+◌, ◌%◌, ◌^◌, ◌<◌, ◌≡◌, ◌≢◌, ◌==◌, if◌then◌else◌, arith, refl, ap, sym, ◌∙◌, subst,
  update, tally, tally-update, tally-zero, ℕ_discrete,
}
use ia_operating_systems.Locks.Ticketlock.{
  Lock, Pc, idle, fetch, load, holding, add, advance, System, Step, move, Reach, start, then_step,
}
use ia_operating_systems.Locks.Ticketlock.Line.{
  active, held, mine_of, ahead, InLine, Inv, tally-le, InLine-ticket, InLine-next, at_update, Apart,
  Apart-update,
}

pub reads_own : (s m : ℕ) → s ≡ m → (if s == m then holding m else load m) ≡ holding m
reads_own s m e = ground arith

pub reads_other : (s m : ℕ) → s ≢ m → (if s == m then holding m else load m) ≡ load m
reads_other s m e = ground arith

ticket_count : (t s out : ℕ) → t ≡ (s + out) % 2 ^ 32 → (t + 1) % 2 ^ 32 ≡ (s + suc out) % 2 ^ 32
ticket_count t s out e = omega arith

serving_count :
    (t s out less : ℕ)
    → t ≡ (s + out) % 2 ^ 32
    → suc less ≡ out
    → t ≡ ((s + 1) % 2 ^ 32 + less) % 2 ^ 32
serving_count t s out less e f = omega arith

module _ {n : ℕ} (s : System) (i : ℕ) (lt : i < n) (v : Inv n s) where
  abbrev out : ℕ
  out = tally active n s.pc

  -- A step that keeps the lock and the thread's ticket.
  stays :
      (p : Pc)
      → active p ≡ active (s.pc i)
      → mine_of p ≡ mine_of (s.pc i)
      → (held p ≡ 1 → mine_of p ≡ s.lock.serving)
      → Inv n (record { lock = s.lock; pc = update s.pc i p })
  unfolding Apart
  stays p a m h =
      let same : tally active n (update s.pc i p) ≡ out =
        omega (arith, tally-update active n s.pc i p lt, a) in
      record {
        low = v.low;
        count = v.count ∙ ap (λ k. (s.lock.serving + k) % 2 ^ 32) (sym same);
        line = λ j jlt.
            at_update
              (λ j q. j < n → active q ≡ 1 → InLine s.lock (tally active n (update s.pc i p)) q)
              s.pc i p
              (λ j ne jlt b. subst (λ k. InLine s.lock k (s.pc j)) (sym same) (v.line j jlt b))
              (λ ilt b.
                let w = v.line i lt (sym a ∙ b) in
                record {
                  small = omega (arith, m, w.small);
                  waits =
                      subst (λ k. ahead s.lock k < tally active n (update s.pc i p)) (sym m)
                        (omega (arith, w.waits, same));
                  served = h;
                })
              j jlt;
        apart =
            Apart-update n s.pc i p v.apart
              (λ k klt ne b c e. v.apart i k lt klt ne (sym a ∙ b) c (sym m ∙ e));
      }

  -- A thread takes the next ticket.
  takes :
      s.pc i ≡ fetch
      → n < 2 ^ 32
      → Inv n (record {
        lock = record s.lock { ticket = (s.lock.ticket + 1) % 2 ^ 32 };
        pc = update s.pc i (load s.lock.ticket);
      })
  unfolding Apart
  takes e few =
      let p = load s.lock.ticket in
      let more : tally active n (update s.pc i p) ≡ suc out =
        omega (arith, tally-update active n s.pc i p lt, ap active e) in
      let room : out < 2 ^ 32 = omega (arith, tally-le n (update s.pc i p), more, few) in
      record {
        low = v.low;
        count =
            ticket_count s.lock.ticket s.lock.serving out v.count
            ∙ ap (λ k. (s.lock.serving + k) % 2 ^ 32) (sym more);
        line = λ j jlt.
            at_update
              (λ j q.
                j < n
                → active q ≡ 1
                → InLine (record s.lock { ticket = (s.lock.ticket + 1) % 2 ^ 32 })
                    (tally active n (update s.pc i p)) q)
              s.pc i p
              (λ j ne jlt b.
                subst
                  (λ k. InLine (record s.lock { ticket = (s.lock.ticket + 1) % 2 ^ 32 }) k (s.pc j))
                  (sym more) (InLine-ticket (v.line j jlt b)))
              (λ ilt b. record {
                small = omega (arith, v.count);
                waits = omega (arith, v.count, v.low, room, more);
                served = λ h. absurd (omega (arith, h));
              })
              j jlt;
        apart =
            Apart-update n s.pc i p v.apart
              (λ k klt ne b c f. omega (arith, f, v.count, v.low, room, (v.line k klt c).waits));
      }

  -- The holder goes, and the next ticket is served.
  leaves :
      (m : ℕ)
      → s.pc i ≡ add m
      → Inv n (record {
        lock = record s.lock { serving = (s.lock.serving + 1) % 2 ^ 32 };
        pc = update s.pc i idle;
      })
  unfolding Apart
  leaves m e =
      let here : active (s.pc i) ≡ 1 = ap active e in
      let first : mine_of (s.pc i) ≡ s.lock.serving = (v.line i lt here).served (ap held e) in
      let less : suc (tally active n (update s.pc i idle)) ≡ out =
        omega (arith, tally-update active n s.pc i idle lt, here) in
      record {
        low = omega arith;
        count =
            serving_count s.lock.ticket s.lock.serving out (tally active n (update s.pc i idle))
              v.count less;
        line = λ j jlt.
            at_update
              (λ j q.
                j < n
                → active q ≡ 1
                → InLine (record s.lock { serving = (s.lock.serving + 1) % 2 ^ 32 })
                    (tally active n (update s.pc i idle)) q)
              s.pc i idle
              (λ j ne jlt b.
                InLine-next (subst (λ k. InLine s.lock k (s.pc j)) (sym less) (v.line j jlt b))
                  v.low (λ f. v.apart i j lt jlt ne here b (first ∙ sym f)))
              (λ ilt b. absurd (omega (arith, b))) j jlt;
        apart = Apart-update n s.pc i idle v.apart (λ k klt ne b c f. absurd (omega (arith, b)));
      }

  -- Every step keeps the invariant.
  advance-Inv :
      (q : Pc)
      → s.pc i ≡ q
      → n < 2 ^ 32
      → Inv n (record { lock = (advance s.lock q).0; pc = update s.pc i (advance s.lock q).1 })
  unfolding advance
  advance-Inv idle e few =
      stays fetch (sym (ap active e)) (sym (ap mine_of e)) (λ h. absurd (omega (arith, h)))
  advance-Inv fetch e few = takes e few
  advance-Inv (load m) e few = elim (ℕ_discrete s.lock.serving m) [
    | yes f ↦
        subst (λ p. Inv n (record { lock = s.lock; pc = update s.pc i p }))
          (sym (reads_own s.lock.serving m f))
          (stays (holding m) (sym (ap active e)) (sym (ap mine_of e)) (λ h. sym f))
    | no ne ↦
        subst (λ p. Inv n (record { lock = s.lock; pc = update s.pc i p }))
          (sym (reads_other s.lock.serving m ne))
          (stays (load m) (sym (ap active e)) (sym (ap mine_of e)) (λ h. absurd (omega (arith, h))))
  ]
  advance-Inv (holding m) e few =
      stays (add m) (sym (ap active e)) (sym (ap mine_of e))
        (λ h. sym (ap mine_of e) ∙ (v.line i lt (ap active e)).served (ap held e))
  advance-Inv (add m) e few = leaves m e

Step-Inv : {n : ℕ} {s t : System} → Step n s t → n < 2 ^ 32 → Inv n s → Inv n t
Step-Inv {n} {s} (move i lt e) few v =
    subst (λ (w : Lock × Pc). Inv n (record { lock = w.0; pc = update s.pc i w.1 })) e
      (advance-Inv s i lt v (s.pc i) refl few)

pub Reach-Inv : {n : ℕ} {s : System} → Reach n s → n < 2 ^ 32 → Inv n s
Reach-Inv {n} start few = record {
  low = omega arith;
  count = omega (arith, tally-zero active n (λ i. idle) (λ i lt. refl));
  line = λ i lt b. absurd (omega (arith, b));
  apart = λ i j ilt jlt ne b c f. absurd (omega (arith, b));
}
Reach-Inv (then_step r st) few = Step-Inv st few (Reach-Inv r few)
