-- ===== src/Uthread/Chain.antt =====
-- our-course/labs/lab05-concurrency/part1-uthread/solutions/uthread.c: the ready queue as a list of
-- slots.
use ia_operating_systems.Base.{
  ℕ, ◌<◌, ◌≡◌, ◌≢◌, Option, none, some, List, [], ◌∷◌, ◌++◌, refl, ap, sym, ◌∙◌, subst, update,
  update_self, update_ne, ℕ_discrete, Each, Ordered, Each-map,
}
use ia_operating_systems.Uthread.State.{runnable, Thread, Threads, uthread_max, set_next, link_last}

-- The links from `h` on lead through these slots.
abbrev pub Chain : (ℕ → Option ℕ) → Option ℕ → List ℕ → Type 0
Chain next h [] = h ≡ none
Chain next h (x ∷ xs) = (h ≡ some x) × Chain next (next x) xs

abbrev pub last : ℕ → List ℕ → ℕ
last x [] = x
last x (y ∷ ys) = last y ys

abbrev pub last_of : List ℕ → Option ℕ
last_of [] = none
last_of (x ∷ xs) = some (last x xs)

pub Chain-frame :
    (next next' : ℕ → Option ℕ) (h : Option ℕ) (xs : List ℕ)
    → Each (λ x. next' x ≡ next x) xs
    → Chain next h xs
    → Chain next' h xs
Chain-frame next next' h [] same c = c
Chain-frame next next' h (x ∷ xs) same c = (
  c.0,
  subst (λ k. Chain next' k xs) (sym same.0) (Chain-frame next next' (next x) xs same.1 c.1),
)

-- One more slot, linked from the last one.
pub Chain-snoc :
    (next next' : ℕ → Option ℕ) (h : Option ℕ) (x t : ℕ) (xs : List ℕ)
    → ((z : ℕ) → z ≢ last x xs → z ≢ t → next' z ≡ next z)
    → next' (last x xs) ≡ some t
    → next' t ≡ none
    → Ordered (λ a b. a ≢ b) (x ∷ xs)
    → Each (λ z. z ≢ t) (x ∷ xs)
    → Chain next h (x ∷ xs)
    → Chain next' h ((x ∷ xs) ++ t ∷ [])
Chain-snoc next next' h x t [] same at_last at_t o ne c = (c.0, (at_last, at_t))
Chain-snoc next next' h x t (y ∷ ys) same at_last at_t o ne c = (
  c.0,
  subst (λ k. Chain next' k ((y ∷ ys) ++ t ∷ [])) (sym (same x (other x y ys o.0) ne.0))
      (Chain-snoc next next' (next x) y t ys same at_last at_t o.1 ne.1 c.1),
)
  where
    other : (x y : ℕ) (ys : List ℕ) → Each (λ b. x ≢ b) (y ∷ ys) → x ≢ last y ys
    other x y [] v = v.0
    other x y (z ∷ zs) v = other x z zs v.1

-- The ready queue holds these slots.
pub record Ready (s : Threads) (xs : List ℕ) : Type 0 where
  pub chain : Chain (λ i. (s.table i).next) s.qhead xs
  pub tail : s.qtail ≡ last_of xs
  pub distinct : Ordered (λ a b. a ≢ b) xs
  pub states : Each (λ i. (i < uthread_max) × ((s.table i).state ≡ runnable)) xs

-- Two states that agree but for the links and the queue.
pub record SameThreads (s s' : Threads) : Type 0 where
  pub state : (i : ℕ) → (s'.table i).state ≡ (s.table i).state
  pub stack : (i : ℕ) → (s'.table i).stack ≡ (s.table i).stack
  pub tid : (i : ℕ) → (s'.table i).tid ≡ (s.table i).tid
  pub rsp : (i : ℕ) → (s'.table i).rsp ≡ (s.table i).rsp
  pub mem : s'.mem ≡ s.mem
  pub next_tid : s'.next_tid ≡ s.next_tid
  pub current : s'.current ≡ s.current

-- A field that a changed thread keeps is kept by all.
pub field-update :
    {A : Type 0} (f : Thread → A) (table : ℕ → Thread) (t : ℕ) (x : Thread) (i : ℕ)
    → f x ≡ f (table t)
    → f (update table t x i) ≡ f (table i)
field-update f table t x i e = elim (ℕ_discrete t i) [
  | yes g ↦ subst (λ k. f (update table t x k) ≡ f (table k)) g (ap f (update_self table t x) ∙ e)
  | no ne ↦ ap f (update_ne table t x i ne)
]

pub set_next-SameThreads : (s : Threads) (t : ℕ) (p : Option ℕ) → SameThreads s (set_next s t p)
set_next-SameThreads s t p = record {
  state = λ i. field-update (λ x. x.state) s.table t (record (s.table t) { next = p }) i refl;
  stack = λ i. field-update (λ x. x.stack) s.table t (record (s.table t) { next = p }) i refl;
  tid = λ i. field-update (λ x. x.tid) s.table t (record (s.table t) { next = p }) i refl;
  rsp = λ i. field-update (λ x. x.rsp) s.table t (record (s.table t) { next = p }) i refl;
  mem = refl;
  next_tid = refl;
  current = refl;
}

pub then-SameThreads : {s t u : Threads} → SameThreads s t → SameThreads t u → SameThreads s u
then-SameThreads v w = record {
  state = λ i. w.state i ∙ v.state i;
  stack = λ i. w.stack i ∙ v.stack i;
  tid = λ i. w.tid i ∙ v.tid i;
  rsp = λ i. w.rsp i ∙ v.rsp i;
  mem = w.mem ∙ v.mem;
  next_tid = w.next_tid ∙ v.next_tid;
  current = w.current ∙ v.current;
}

pub link_last-SameThreads : (s : Threads) (q : Option ℕ) (t : ℕ) → SameThreads s (link_last s q t)
link_last-SameThreads s (some q) t = set_next-SameThreads s q (some t)
link_last-SameThreads s none t = record {
  state = λ i. refl;
  stack = λ i. refl;
  tid = λ i. refl;
  rsp = λ i. refl;
  mem = refl;
  next_tid = refl;
  current = refl;
}

pub states-same :
    {s s' : Threads} (xs : List ℕ)
    → SameThreads s s'
    → Each (λ i. (i < uthread_max) × ((s.table i).state ≡ runnable)) xs
    → Each (λ i. (i < uthread_max) × ((s'.table i).state ≡ runnable)) xs
states-same xs v = Each-map xs (λ i w. (w.0, v.state i ∙ w.1))
