-- ===== src/Uthread/Fair.antt =====
-- our-course/labs/lab05-concurrency/part1-uthread/solutions/uthread.c: the loop of `uthread_run` as
-- turns that the threads take.
use mathlib.Core.Option.{none-ne-some}
use mathlib.Core.List.{append-nil, append_assoc}
use ia_operating_systems.Base.{
  ℕ, ◌<◌, ◌≡◌, inl, inr, Option, none, some, List, [], ◌∷◌, ◌++◌, arith, refl, ap, sym, ◌∙◌, subst,
  length,
}
use ia_operating_systems.Uthread.State.{
  unused, Threads, uthread_max, uthread_init, uthread_create, dequeue,
}
use ia_operating_systems.Uthread.Scheduler.{
  Creation, Slice, create_all, run_slice, put_away, round_of, run_round, run_rounds,
}
use ia_operating_systems.Uthread.Queue.{dequeue-Ready}
use ia_operating_systems.Uthread.Slots.{Scheduled}
use ia_operating_systems.Uthread.Create.{slot_taken, uthread_create-Scheduled}
use ia_operating_systems.Uthread.Rounds.{started, started-Scheduled, back, ending-Scheduled}

-- After `uthread_init` no thread is there.
pub uthread_init-Scheduled : (s : Threads) → Scheduled (uthread_init s) none []
unfolding uthread_init
uthread_init-Scheduled s = record {
  ready = record { chain = refl; tail = refl; distinct = tt; states = tt };
  current = refl;
  slots = λ i lt. inl (refl, refl);
  held = λ t e. absurd (none-ne-some t e);
}

module _ (uthread_entry : ℕ) where
  -- The slots that a thread's calls of `uthread_create` take.
  unfoldable pub slots_made : Threads → List Creation → List ℕ
  slots_made s [] = []
  slots_made s (c ∷ cs) =
      slot_taken s c.malloc ++ slots_made (uthread_create uthread_entry s c.malloc c.fn c.arg).1 cs

  pub create_all-Scheduled :
      (s : Threads) (cs : List Creation) (c : Option ℕ) (xs : List ℕ)
      → Scheduled s c xs
      → Scheduled (create_all uthread_entry s cs) c (xs ++ slots_made s cs)
  unfolding create_all slots_made
  create_all-Scheduled s [] c xs v = subst (Scheduled s c) (sym (append-nil xs)) v
  create_all-Scheduled s (k ∷ ks) c xs v =
      subst (Scheduled (create_all uthread_entry s (k ∷ ks)) c)
        (append_assoc xs (slot_taken s k.malloc)
          (slots_made (uthread_create uthread_entry s k.malloc k.fn k.arg).1 ks))
        (create_all-Scheduled (uthread_create uthread_entry s k.malloc k.fn k.arg).1 ks c
          (xs ++ slot_taken s k.malloc)
          (uthread_create-Scheduled uthread_entry s k.malloc k.fn k.arg c xs v))

  -- The slots on the queue after the round in which its first thread `t` has the slice `w`.
  abbrev pub queue_after : Threads → ℕ → List ℕ → Slice → List ℕ
  queue_after s t xs w = xs ++ (slots_made (started (dequeue s).1 t) w.creations ++ back t w.ending)

  -- The state after that round.
  pub record Turn (s s' : Threads) (t : ℕ) (xs : List ℕ) (w : Slice) : Type 0 where
    pub result : run_round uthread_entry s w ≡ some s'
    pub queue : Scheduled s' none (queue_after s t xs w)

  -- Where the first thread of the ready queue runs until it yields or exits, the queue afterwards is
  -- the rest of the queue, then the threads it created in their order, then the thread itself if it
  -- yielded; every other slot of the table is unused and without a stack, and no thread is current.
  pub run_round-Turn :
      (s : Threads) (t : ℕ) (xs : List ℕ) (w : Slice)
      → Scheduled s none (t ∷ xs)
      → (s' : Threads) × Turn s s' t xs w
  unfolding run_round
  run_round-Turn s t xs w v =
      let (s1, d) = dequeue-Ready s t xs v.ready in
      let made = slots_made (started s1 t) w.creations in
      let s2 = create_all uthread_entry (started s1 t) w.creations in
      let s3 = put_away (record (run_slice uthread_entry (started s1 t) w) { current = none }) t in
      let v2 =
        create_all-Scheduled (started s1 t) w.creations (some t) xs
          (started-Scheduled s s1 t xs v d) in
      let v3 = ending-Scheduled s2 t (xs ++ made) w.ending v2 in
      (
        s3,
        record {
          result = ap (λ r. round_of uthread_entry r w) d.result;
          queue =
              subst
                (λ r.
                  Scheduled s3 none
                    (xs ++ (slots_made (started r.1 t) w.creations ++ back t w.ending)))
                (sym d.result)
                (subst (Scheduled s3 none) (append_assoc xs made (back t w.ending)) v3);
        },
      )

  -- `uthread_run` returns only when no thread is left: every slot of the table is unused and its
  -- stack has been released.
  pub run_round-none :
      (s : Threads) (xs : List ℕ) (w : Slice)
      → Scheduled s none xs
      → run_round uthread_entry s w ≡ none
      → (i : ℕ) → i < uthread_max
      → ((s.table i).state ≡ unused) × ((s.table i).stack ≡ none)
  run_round-none s (x ∷ xs) w v e i lt =
      let (s', u) = run_round-Turn s x xs w v in absurd (none-ne-some s' (sym e ∙ u.result))
  run_round-none s [] w v e i lt = elim (v.slots i lt) [
    | inl u ↦ u
    | inr (inl a) ↦ absurd a
    | inr (inr c) ↦ absurd (none-ne-some i c)
  ]

  -- The scheduler is fair: a thread that stands behind `length xs` others on the ready queue is the
  -- first on it after that many rounds, whatever the slices of these rounds create and however they
  -- end.
  pub run_rounds-turn :
      (s : Threads) (t : ℕ) (xs ys : List ℕ) (ws : List Slice)
      → Scheduled s none (xs ++ t ∷ ys)
      → length ws ≡ length xs
      → (s' : Threads) × (zs : List ℕ) × (run_rounds uthread_entry s ws ≡ some s')
        × Scheduled s' none (t ∷ zs)
  unfolding run_rounds
  run_rounds-turn s t [] ys [] v e = (s, ys, refl, v)
  run_rounds-turn s t [] ys (w ∷ ws) v e = absurd (omega arith)
  run_rounds-turn s t (x ∷ xs) ys [] v e = absurd (omega arith)
  run_rounds-turn s t (x ∷ xs) ys (w ∷ ws) v e =
      let (s1, u) = run_round-Turn s x (xs ++ t ∷ ys) w v in
      let more = slots_made (started (dequeue s).1 x) w.creations ++ back x w.ending in
      let v1 = subst (Scheduled s1 none) (append_assoc xs (t ∷ ys) more) u.queue in
      let (s2, zs, f, v2) = run_rounds-turn s1 t xs (ys ++ more) ws v1 (omega arith) in
      (
        s2,
        zs,
        ap (λ r. elim r [ none ↦ none | some s' ↦ run_rounds uthread_entry s' ws ]) u.result ∙ f,
        v2,
      )
