-- ===== src/Uthread/Slots.antt =====
-- our-course/labs/lab05-concurrency/part1-uthread/solutions/uthread.c: which slots are unused, queued
-- or current, and what `uthread_create` does to them.
use mathlib.Core.Option.{some-injective, none-ne-some}
use ia_operating_systems.Base.{
  ℕ, zero, suc, ◌+◌, ◌<◌, ◌≤◌, ◌≡◌, ◌≢◌, ◌⊎◌, inl, inr, false, if◌then◌else◌, Option, none, some,
  List, [], ◌∷◌, ◌++◌, arith, refl, ap, sym, ◌∙◌, subst, update_self, update_ne, ℕ_discrete, Each,
  Each-map,
}
use ia_operating_systems.Uthread.State.{
  TState, unused, runnable, running, zombie, Thread, Threads, uthread_max, put, is_unused,
  find_slot,
}
use ia_operating_systems.Uthread.Chain.{Ready}
use ia_operating_systems.Uthread.Queue.{put-Ready}

-- One of the elements is `i`.
abbrev pub Among : ℕ → List ℕ → Type 0
Among i [] = ⊥
Among i (x ∷ xs) = (x ≡ i) ⊎ Among i xs

pub Among-left : (i : ℕ) (xs ys : List ℕ) → Among i xs → Among i (xs ++ ys)
Among-left i [] ys v = absurd v
Among-left i (x ∷ xs) ys (inl e) = inl e
Among-left i (x ∷ xs) ys (inr v) = inr (Among-left i xs ys v)

pub Among-end : (t : ℕ) (xs : List ℕ) → Among t (xs ++ t ∷ [])
Among-end t [] = inl refl
Among-end t (x ∷ xs) = inr (Among-end t xs)

-- A slot is unused, and then without a stack, or on the queue, or the current thread's.
abbrev pub Slot : Threads → Option ℕ → List ℕ → ℕ → Type 0
Slot s c xs i =
    (((s.table i).state ≡ unused) × ((s.table i).stack ≡ none)) ⊎ (Among i xs ⊎ (c ≡ some i))

-- The thread `c` runs, `none` for the scheduler, and the queue holds the slots `xs`.
pub record Scheduled (s : Threads) (c : Option ℕ) (xs : List ℕ) : Type 0 where
  pub ready : Ready s xs
  pub current : s.current ≡ c
  pub slots : (i : ℕ) → i < uthread_max → Slot s c xs i
  pub held : (t : ℕ) → c ≡ some t → (t < uthread_max) × ((s.table t).state ≡ running)

-- What the search for an unused slot finds among the `n` from `i` on.
abbrev pub Found : Threads → ℕ → ℕ → Type 0
Found s i n =
    ((t : ℕ) × ((find_slot s i n ≡ some t) × ((t < i + n) × ((s.table t).state ≡ unused))))
    ⊎ ((find_slot s i n ≡ none) × ((j : ℕ) → i ≤ j → j < i + n → (s.table j).state ≢ unused))

pub runnable-is_unused : runnable ≢ unused
runnable-is_unused = grind arith

pub running-is_runnable : running ≢ runnable
running-is_runnable = cc

pub running-is_unused : running ≢ unused
running-is_unused = cc

state-cases : (x : TState) → (x ≡ unused) ⊎ ((is_unused x ≡ false) × (x ≢ unused))
state-cases unused = inl refl
state-cases runnable = inr (refl, runnable-is_unused)
state-cases running = inr (refl, cc)
state-cases zombie = inr (refl, cc)

from_here :
    (i n : ℕ) (s : Threads)
    → (s.table i).state ≢ unused
    → ((j : ℕ) → suc i ≤ j → j < suc i + n → (s.table j).state ≢ unused)
    → (j : ℕ) → i ≤ j
    → j < i + suc n
    → (s.table j).state ≢ unused
from_here i n s ne others j le lt = elim (ℕ_discrete i j) [
  | yes e ↦ subst (λ k. (s.table k).state ≢ unused) e ne
  | no apart ↦ others j (omega arith) (omega arith)
]

pub find_slot-Found : (s : Threads) (i n : ℕ) → Found s i n
unfolding find_slot
find_slot-Found s i zero = inr (refl, λ j le lt. absurd (omega arith))
find_slot-Found s i (suc n) = elim (state-cases (s.table i).state) [
  | inl e ↦
      inl (i, (ap (λ k. if is_unused k then some i else find_slot s (suc i) n) e, (omega arith, e)))
  | inr (used, ne) ↦ elim (find_slot-Found s (suc i) n) [
    | inl (t, (f, (lt, e))) ↦
        inl (t, (ap (λ k. if k then some i else find_slot s (suc i) n) used ∙ f, (omega arith, e)))
    | inr (f, none_of) ↦
        inr (
          ap (λ k. if k then some i else find_slot s (suc i) n) used ∙ f,
          from_here i n s ne none_of,
        )
  ]
]

-- The slot that the search gives is an unused one of the table.
pub found_unused :
    (s : Threads) (t : ℕ)
    → find_slot s 0 uthread_max ≡ some t
    → (t < uthread_max) × ((s.table t).state ≡ unused)
found_unused s t e = elim (find_slot-Found s 0 uthread_max) [
  | inl (u, (f, (lt, free))) ↦
      let w : u ≡ t = some-injective u t (sym f ∙ e) in
      (subst (λ k. k < uthread_max) w lt, subst (λ k. (s.table k).state ≡ unused) w free)
  | inr (f, ne) ↦ absurd (none-ne-some t (sym f ∙ e))
]

-- Where it gives none, none of the table is unused.
pub none_unused :
    (s : Threads)
    → find_slot s 0 uthread_max ≡ none
    → (j : ℕ) → j < uthread_max
    → (s.table j).state ≢ unused
none_unused s e = elim (find_slot-Found s 0 uthread_max) [
  | inl (t, (f, v)) ↦ absurd (none-ne-some t (sym e ∙ f))
  | inr (f, ne) ↦ λ j lt. ne j (omega arith) (omega arith)
]

-- A slot that is not runnable is not on the queue.
pub off_queue :
    (s : Threads) (xs : List ℕ) (t : ℕ)
    → Ready s xs
    → (s.table t).state ≢ runnable
    → Each (λ z. z ≢ t) xs
off_queue s xs t v ne =
    Each-map xs (λ z w e. ne (subst (λ k. (s.table k).state ≡ runnable) e w.1)) v.states

-- The change of one slot leaves the other slots what they were.
pub put-Slot :
    (s : Threads) (t : ℕ) (x : Thread) (c : Option ℕ) (xs : List ℕ) (i : ℕ)
    → t ≢ i
    → Slot s c xs i
    → Slot (put s t x) c xs i
put-Slot s t x c xs i ne (inl (e, f)) = inl (
  ap (λ k. k.state) (update_ne s.table t x i ne) ∙ e,
  ap (λ k. k.stack) (update_ne s.table t x i ne) ∙ f,
)
put-Slot s t x c xs i ne (inr v) = inr v

-- The current thread's slot is in use.
pub held-apart :
    (s : Threads) (t r : ℕ) (c : Option ℕ) (xs : List ℕ)
    → Scheduled s c xs
    → (s.table t).state ≡ unused
    → c ≡ some r
    → t ≢ r
held-apart s t r c xs v free g h =
    running-is_unused (sym (v.held r g).1 ∙ subst (λ k. (s.table k).state ≡ unused) h free)

-- An unused slot may change, where it stays unused and without a stack.
pub put_unused-Scheduled :
    (s : Threads) (t : ℕ) (x : Thread) (c : Option ℕ) (xs : List ℕ)
    → Scheduled s c xs
    → (s.table t).state ≡ unused
    → x.state ≡ unused
    → x.stack ≡ none
    → Scheduled (put s t x) c xs
put_unused-Scheduled s t x c xs v free e f = record {
  ready =
      put-Ready s t x xs (off_queue s xs t v.ready (λ r. runnable-is_unused (sym r ∙ free)))
        v.ready;
  current = v.current;
  slots = λ i lt. elim (ℕ_discrete t i) [
    | yes g ↦ subst (Slot (put s t x) c xs) g (
        inl (
          ap (λ k. k.state) (update_self s.table t x) ∙ e,
          ap (λ k. k.stack) (update_self s.table t x) ∙ f,
        ))
    | no ne ↦ put-Slot s t x c xs i ne (v.slots i lt)
  ];
  held = λ r g. (
    (v.held r g).0,
    ap (λ k. k.state) (update_ne s.table t x r (held-apart s t r c xs v free g)) ∙ (v.held r g).1,
  );
}
