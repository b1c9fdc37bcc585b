-- ===== src/Uthread/Create.antt =====
-- our-course/labs/lab05-concurrency/part1-uthread/solutions/uthread.c: what `uthread_create` does to
-- the threads that are there, and what it gives the new one.
use mathlib.Core.List.{append-nil}
use ia_operating_systems.Base.{
  ℕ, ◌<◌, ◌≡◌, ◌≢◌, inl, inr, Option, none, some, List, [], ◌∷◌, ◌++◌, refl, ap, sym, ◌∙◌, subst,
  update_self, update_ne, ℕ_discrete, Each, Each-map,
}
use ia_operating_systems.Uthread.State.{
  unused, runnable, running, Threads, uthread_max, put, find_slot, enqueue, new_thread, placed,
  create_in, create_at, uthread_create,
}
use ia_operating_systems.Uthread.Chain.{Ready, SameThreads}
use ia_operating_systems.Uthread.Queue.{enqueue-Ready, enqueue-SameThreads, Ready-frame, put-Ready}
use ia_operating_systems.Uthread.Slots.{
  Among, Among-left, Among-end, Slot, Scheduled, found_unused, off_queue, put-Slot,
  put_unused-Scheduled, held-apart, runnable-is_unused,
}

-- The same slot of the same states.
pub Slot-same :
    (s s' : Threads) (c : Option ℕ) (xs ys : List ℕ) (i : ℕ)
    → SameThreads s s'
    → (Among i xs → Among i ys)
    → Slot s c xs i
    → Slot s' c ys i
Slot-same s s' c xs ys i v f (inl (e, g)) = inl (v.state i ∙ e, v.stack i ∙ g)
Slot-same s s' c xs ys i v f (inr (inl a)) = inr (inl (f a))
Slot-same s s' c xs ys i v f (inr (inr e)) = inr (inr e)

-- A runnable thread goes to the end of the queue, where it alone has no other place.
pub enqueue-Scheduled :
    (s : Threads) (t : ℕ) (c : Option ℕ) (xs : List ℕ)
    → Ready s xs
    → Each (λ z. z ≢ t) xs
    → t < uthread_max
    → (s.table t).state ≡ runnable
    → s.current ≡ c
    → ((i : ℕ) → i < uthread_max → t ≢ i → Slot s c xs i)
    → ((r : ℕ) → c ≡ some r → (r < uthread_max) × ((s.table r).state ≡ running))
    → Scheduled (enqueue s t) c (xs ++ t ∷ [])
enqueue-Scheduled s t c xs q ne lt run cur slots held =
    let same = enqueue-SameThreads s t in
    record {
      ready = enqueue-Ready s t xs q ne lt run;
      current = same.current ∙ cur;
      slots = λ i il. elim (ℕ_discrete t i) [
        | yes e ↦ inr (inl (subst (λ k. Among k (xs ++ t ∷ [])) e (Among-end t xs)))
        | no apart ↦
            Slot-same s (enqueue s t) c xs (xs ++ t ∷ []) i same (Among-left i xs (t ∷ []))
              (slots i il apart)
      ];
      held = λ r e. ((held r e).0, same.state r ∙ (held r e).1);
    }

-- The slot that `uthread_create` takes, where it takes one.
abbrev pub taken : Option ℕ → Option ℕ → List ℕ
taken none malloc = []
taken (some t) none = []
taken (some t) (some stack) = t ∷ []

unfoldable pub slot_taken : Threads → Option ℕ → List ℕ
slot_taken s malloc = taken (find_slot s 0 uthread_max) malloc

module _ (uthread_entry : ℕ) where
  pub placed-Ready :
      (s : Threads) (t stack fn arg : ℕ) (xs : List ℕ)
      → Each (λ z. z ≢ t) xs
      → Ready s xs
      → Ready (placed uthread_entry s t stack fn arg) xs
  placed-Ready s t stack fn arg xs ne v =
      let x = new_thread s t stack fn arg in
      Ready-frame (put s t x) (placed uthread_entry s t stack fn arg) xs refl refl
        (Each-map xs (λ i n. record { next = refl; state = refl }) ne) (put-Ready s t x xs ne v)

  -- The new thread's slot is the last one on the queue.
  create_in-Scheduled :
      (s : Threads) (t stack fn arg : ℕ) (c : Option ℕ) (xs : List ℕ)
      → Scheduled s c xs
      → t < uthread_max
      → (s.table t).state ≡ unused
      → Scheduled (create_in uthread_entry s t stack fn arg) c (xs ++ t ∷ [])
  unfolding create_in
  create_in-Scheduled s t stack fn arg c xs v lt free =
      let x = new_thread s t stack fn arg in
      let ne = off_queue s xs t v.ready (λ r. runnable-is_unused (sym r ∙ free)) in
      enqueue-Scheduled (placed uthread_entry s t stack fn arg) t c xs
        (placed-Ready s t stack fn arg xs ne v.ready) ne lt
        (ap (λ k. k.state) (update_self s.table t x)) v.current
        (λ i il apart. put-Slot s t x c xs i apart (v.slots i il))
        (λ r e. (
          (v.held r e).0,
          ap (λ k. k.state) (update_ne s.table t x r (held-apart s t r c xs v free e))
              ∙ (v.held r e).1,
        ))

  create_at-Scheduled :
      (s : Threads) (found malloc : Option ℕ) (fn arg : ℕ) (c : Option ℕ) (xs : List ℕ)
      → Scheduled s c xs
      → ((t : ℕ) → found ≡ some t → (t < uthread_max) × ((s.table t).state ≡ unused))
      → Scheduled (create_at uthread_entry s found malloc fn arg).1 c (xs ++ taken found malloc)
  create_at-Scheduled s none malloc fn arg c xs v ok = subst (Scheduled s c) (sym (append-nil xs)) v
  create_at-Scheduled s (some t) none fn arg c xs v ok =
      let x = record (s.table t) { stack = none } in
      subst (Scheduled (put s t x) c) (sym (append-nil xs))
        (put_unused-Scheduled s t x c xs v (ok t refl).1 (ok t refl).1 refl)
  create_at-Scheduled s (some t) (some stack) fn arg c xs v ok =
      create_in-Scheduled s t stack fn arg c xs v (ok t refl).0 (ok t refl).1

  -- `uthread_create` puts the slot that it takes, if it takes one, at the end of the queue.
  pub uthread_create-Scheduled :
      (s : Threads) (malloc : Option ℕ) (fn arg : ℕ) (c : Option ℕ) (xs : List ℕ)
      → Scheduled s c xs
      → Scheduled (uthread_create uthread_entry s malloc fn arg).1 c (xs ++ slot_taken s malloc)
  unfolding uthread_create slot_taken
  uthread_create-Scheduled s malloc fn arg c xs v =
      create_at-Scheduled s (find_slot s 0 uthread_max) malloc fn arg c xs v (found_unused s)
