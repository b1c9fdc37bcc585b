-- ===== src/Uthread/Rounds.antt =====
-- our-course/labs/lab05-concurrency/part1-uthread/solutions/uthread.c: what one round of the loop in
-- `uthread_run` does to the ready queue.
use mathlib.Core.Option.{some-injective, none-ne-some}
use mathlib.Core.List.{append-nil}
use ia_operating_systems.Base.{
  ℕ, ◌<◌, ◌≡◌, ◌≢◌, inl, inr, none, some, List, [], ◌∷◌, ◌++◌, refl, ap, sym, ◌∙◌, subst, update,
  update_self, ℕ_discrete, Each, Each-map,
}
use ia_operating_systems.Uthread.State.{
  TState, unused, runnable, running, zombie, Thread, Threads, uthread_max, put, set_state, mark,
  uthread_yield, uthread_exit,
}
use ia_operating_systems.Uthread.Scheduler.{Ending, yields, exits, switch_back, put_by, put_away}
use ia_operating_systems.Uthread.Chain.{Ready}
use ia_operating_systems.Uthread.Queue.{Dequeued, put-Ready, Ready-frame}
use ia_operating_systems.Uthread.Slots.{Slot, Scheduled, off_queue, put-Slot, running-is_runnable}
use ia_operating_systems.Uthread.Create.{Slot-same, enqueue-Scheduled}

-- The thread `t` came back from its slice in the state `x`.
abbrev after : Threads → ℕ → TState → Threads
after s t x = record (set_state s t x) { current = none }

after-Ready :
    (s : Threads) (t : ℕ) (x : TState) (xs : List ℕ)
    → Each (λ z. z ≢ t) xs
    → Ready s xs
    → Ready (after s t x) xs
after-Ready s t x xs ne v =
    Ready-frame (set_state s t x) (after s t x) xs refl refl
      (Each-map xs (λ i n. record { next = refl; state = refl }) ne)
      (put-Ready s t (record (s.table t) { state = x }) xs ne v)

-- Another slot than the current thread's is unused or on the queue.
other-Slot :
    (s : Threads) (t i : ℕ) (x : Thread) (xs : List ℕ)
    → t ≢ i
    → Slot s (some t) xs i
    → Slot (put s t x) none xs i
other-Slot s t i x xs ne v = elim (put-Slot s t x (some t) xs i ne v) [
  | inl u ↦ inl u
  | inr (inl a) ↦ inr (inl a)
  | inr (inr e) ↦ absurd (ne (some-injective t i e))
]

current-apart : (s : Threads) (t : ℕ) (xs : List ℕ) → Scheduled s (some t) xs → Each (λ z. z ≢ t) xs
current-apart s t xs v =
    off_queue s xs t v.ready (λ r. running-is_runnable (sym (v.held t refl).1 ∙ r))

-- A thread that yields goes to the end of the queue.
yield-Scheduled :
    (s : Threads) (t : ℕ) (xs : List ℕ)
    → Scheduled s (some t) xs
    → Scheduled (put_away (after s t runnable) t) none (xs ++ t ∷ [])
yield-Scheduled s t xs v =
    let s1 = after s t runnable in
    let x = record (s.table t) { state = runnable } in
    let ne = current-apart s t xs v in
    let run : (s1.table t).state ≡ runnable = ap (λ k. k.state) (update_self s.table t x) in
    subst (λ k. Scheduled (put_by s1 t k) none (xs ++ t ∷ [])) (sym run)
      (enqueue-Scheduled s1 t none xs (after-Ready s t runnable xs ne v.ready) ne (v.held t refl).0
        run refl (λ i lt apart. other-Slot s t i x xs apart (v.slots i lt))
        (λ r e. absurd (none-ne-some r e)))

-- A thread that exits leaves an unused slot without a stack.
exit-Scheduled :
    (s : Threads) (t : ℕ) (xs : List ℕ)
    → Scheduled s (some t) xs
    → Scheduled (put_away (after s t zombie) t) none xs
exit-Scheduled s t xs v =
    let s1 = after s t zombie in
    let x0 = record (s.table t) { state = zombie } in
    let x = record (s1.table t) { stack = none; state = unused } in
    let ne = current-apart s t xs v in
    let gone : (s1.table t).state ≡ zombie = ap (λ k. k.state) (update_self s.table t x0) in
    subst (λ k. Scheduled (put_by s1 t k) none xs) (sym gone)
      record {
        ready = put-Ready s1 t x xs ne (after-Ready s t zombie xs ne v.ready);
        current = refl;
        slots = λ i lt. elim (ℕ_discrete t i) [
          | yes e ↦ subst (Slot (put s1 t x) none xs) e (
              inl (
                ap (λ k. k.state) (update_self s1.table t x),
                ap (λ k. k.stack) (update_self s1.table t x),
              ))
          | no apart ↦ put-Slot s1 t x none xs i apart (other-Slot s t i x0 xs apart (v.slots i lt))
        ];
        held = λ r e. absurd (none-ne-some r e);
      }

-- The state in which the scheduler switches to the thread `t`.
abbrev pub started : Threads → ℕ → Threads
started s t = record (set_state s t running) { current = some t }

pub started-Scheduled :
    (s s1 : Threads) (t : ℕ) (xs : List ℕ)
    → Scheduled s none (t ∷ xs)
    → Dequeued s s1 t xs
    → Scheduled (started s1 t) (some t) xs
started-Scheduled s s1 t xs v d =
    let x = record (s1.table t) { state = running } in
    let ne = Each-map xs (λ z n e. n (sym e)) v.ready.distinct.0 in
    record {
      ready =
          Ready-frame (set_state s1 t running) (started s1 t) xs refl refl
            (Each-map xs (λ i n. record { next = refl; state = refl }) ne)
            (put-Ready s1 t x xs ne d.ready);
      current = refl;
      slots = λ i lt. elim (ℕ_discrete t i) [
        | yes e ↦ inr (inr (ap some e))
        | no apart ↦ put-Slot s1 t x (some t) xs i apart (
            first_off i apart
              (Slot-same s s1 none (t ∷ xs) (t ∷ xs) i d.same (λ a. a) (v.slots i lt)))
      ];
      held = λ r e.
          subst (λ k. (k < uthread_max) × ((update s1.table t x k).state ≡ running))
            (some-injective t r e)
            (v.ready.states.0.0, ap (λ k. k.state) (update_self s1.table t x));
    }
  where
    first_off : (i : ℕ) → t ≢ i → Slot s1 none (t ∷ xs) i → Slot s1 (some t) xs i
    first_off i apart (inl u) = inl u
    first_off i apart (inr (inl (inl e))) = absurd (apart e)
    first_off i apart (inr (inl (inr a))) = inr (inl a)
    first_off i apart (inr (inr e)) = absurd (none-ne-some i e)

-- Where the slice's thread goes.
abbrev pub back : ℕ → Ending → List ℕ
back t yields = t ∷ []
back t exits = []

pub ending-Scheduled :
    (s : Threads) (t : ℕ) (xs : List ℕ) (e : Ending)
    → Scheduled s (some t) xs
    → Scheduled (put_away (record (switch_back s e) { current = none }) t) none (xs ++ back t e)
unfolding uthread_yield uthread_exit
ending-Scheduled s t xs yields v =
    subst
      (λ c.
        Scheduled (put_away (record (mark s c runnable) { current = none }) t) none (xs ++ t ∷ []))
      (sym v.current) (yield-Scheduled s t xs v)
ending-Scheduled s t xs exits v =
    subst
      (λ c. Scheduled (put_away (record (mark s c zombie) { current = none }) t) none (xs ++ []))
      (sym v.current)
      (subst (Scheduled (put_away (after s t zombie) t) none) (sym (append-nil xs))
        (exit-Scheduled s t xs v))
