-- ===== src/Uthread/Queue.antt =====
-- our-course/labs/lab05-concurrency/part1-uthread/solutions/uthread.c: what `enqueue` and `dequeue`
-- do to the ready queue.
use ia_operating_systems.Base.{
  ℕ, ◌<◌, ◌≡◌, ◌≢◌, Option, none, some, List, [], ◌∷◌, ◌++◌, refl, ap, sym, ◌∙◌, subst, update_self,
  update_ne, Each, Each-map, Each-append, Ordered-snoc,
}
use ia_operating_systems.Uthread.State.{
  runnable, Thread, Threads, uthread_max, put, set_next, link_last, enqueue, tail_after, pop,
  dequeue,
}
use ia_operating_systems.Uthread.Chain.{
  Chain, last, last_of, Chain-frame, Chain-snoc, Ready, SameThreads, set_next-SameThreads,
  then-SameThreads, link_last-SameThreads, states-same,
}

-- The queue's end is one of its slots.
last-Each : (P : ℕ → Type 0) (x : ℕ) (xs : List ℕ) → Each P (x ∷ xs) → P (last x xs)
last-Each P x [] v = v.0
last-Each P x (y ∷ ys) v = last-Each P y ys v.1

last-snoc : (x t : ℕ) (xs : List ℕ) → last x (xs ++ t ∷ []) ≡ t
last-snoc x t [] = refl
last-snoc x t (y ∷ ys) = last-snoc y t ys

-- The state after `enqueue`, where the queue's end is `q`.
abbrev linked : Threads → Option ℕ → ℕ → Threads
linked s q t = record (link_last (set_next s t none) q t) { qtail = some t }

linked-SameThreads : (s : Threads) (q : Option ℕ) (t : ℕ) → SameThreads s (linked s q t)
linked-SameThreads s q t =
    let v =
      then-SameThreads (set_next-SameThreads s t none)
        (link_last-SameThreads (set_next s t none) q t) in
    record {
      state = v.state;
      stack = v.stack;
      tid = v.tid;
      rsp = v.rsp;
      mem = v.mem;
      next_tid = v.next_tid;
      current = v.current;
    }

-- `enqueue` changes links only.
pub enqueue-SameThreads : (s : Threads) (t : ℕ) → SameThreads s (enqueue s t)
unfolding enqueue
enqueue-SameThreads s t = linked-SameThreads s s.qtail t

next-put : (s : Threads) (t : ℕ) (p : Option ℕ) → ((set_next s t p).table t).next ≡ p
next-put s t p = ap (λ x. x.next) (update_self s.table t (record (s.table t) { next = p }))

next-put-other :
    (s : Threads) (t : ℕ) (p : Option ℕ) (z : ℕ)
    → t ≢ z
    → ((set_next s t p).table z).next ≡ (s.table z).next
next-put-other s t p z ne =
    ap (λ x. x.next) (update_ne s.table t (record (s.table t) { next = p }) z ne)

-- A runnable thread that is not on the queue goes to its end.
linked-Ready :
    (s : Threads) (t : ℕ) (xs : List ℕ)
    → Ready s xs
    → Each (λ z. z ≢ t) xs
    → t < uthread_max
    → (s.table t).state ≡ runnable
    → Ready (linked s (last_of xs) t) (xs ++ t ∷ [])
linked-Ready s t [] v ne lt r = record {
  chain = (refl, next-put s t none);
  tail = refl;
  distinct = (tt, tt);
  states = ((lt, (linked-SameThreads s none t).state t ∙ r), tt);
}
linked-Ready s t (x ∷ xs) v ne lt r =
    let s1 = set_next s t none in
    let q = last x xs in
    let apart = last-Each (λ z. z ≢ t) x xs ne in
    record {
      chain =
          Chain-snoc (λ i. (s.table i).next) (λ i. ((set_next s1 q (some t)).table i).next) s.qhead
            x t xs
            (λ z at_end at_t.
              next-put-other s1 q (some t) z (λ e. at_end (sym e))
              ∙ next-put-other s t none z (λ e. at_t (sym e)))
            (next-put s1 q (some t)) (next-put-other s1 q (some t) t apart ∙ next-put s t none)
            v.distinct ne v.chain;
      tail = ap some (sym (last-snoc x t xs));
      distinct = Ordered-snoc (λ a b. a ≢ b) (x ∷ xs) t v.distinct ne;
      states =
          Each-append (λ i. (i < uthread_max) × (((linked s (some q) t).table i).state ≡ runnable))
            (x ∷ xs) (t ∷ []) (states-same (x ∷ xs) (linked-SameThreads s (some q) t) v.states)
            ((lt, (linked-SameThreads s (some q) t).state t ∙ r), tt);
    }

pub enqueue-Ready :
    (s : Threads) (t : ℕ) (xs : List ℕ)
    → Ready s xs
    → Each (λ z. z ≢ t) xs
    → t < uthread_max
    → (s.table t).state ≡ runnable
    → Ready (enqueue s t) (xs ++ t ∷ [])
unfolding enqueue
enqueue-Ready s t xs v ne lt r =
    subst (λ q. Ready (linked s q t) (xs ++ t ∷ [])) (sym v.tail) (linked-Ready s t xs v ne lt r)

-- What `dequeue` leaves behind.
abbrev popped : Threads → ℕ → Threads
popped s x =
    let rest = (s.table x).next in
    set_next (record s { qhead = rest; qtail = tail_after rest s.qtail }) x none

popped-tail :
    (next : Option ℕ) (q : Option ℕ) (x : ℕ) (xs : List ℕ) (links : ℕ → Option ℕ)
    → Chain links next xs
    → q ≡ last_of (x ∷ xs)
    → tail_after next q ≡ last_of xs
popped-tail next q x [] links c e = ap (λ k. tail_after k q) c
popped-tail next q x (y ∷ ys) links c e = ap (λ k. tail_after k q) c.0 ∙ e

popped-Ready : (s : Threads) (x : ℕ) (xs : List ℕ) → Ready s (x ∷ xs) → Ready (popped s x) xs
popped-Ready s x xs v = record {
  chain =
      Chain-frame (λ i. (s.table i).next) (λ i. ((popped s x).table i).next) (s.table x).next xs
        (Each-map xs (λ z ne. next-put-other s x none z ne) v.distinct.0) v.chain.1;
  tail = popped-tail (s.table x).next s.qtail x xs (λ i. (s.table i).next) v.chain.1 v.tail;
  distinct = v.distinct.1;
  states = Each-map xs (λ i w. (w.0, (set_next-SameThreads s x none).state i ∙ w.1)) v.states.1;
}

popped-SameThreads : (s : Threads) (x : ℕ) → SameThreads s (popped s x)
popped-SameThreads s x =
    let v = set_next-SameThreads s x none in
    record {
      state = v.state;
      stack = v.stack;
      tid = v.tid;
      rsp = v.rsp;
      mem = refl;
      next_tid = refl;
      current = refl;
    }

-- The first slot of the queue comes off it.
pub record Dequeued (s s' : Threads) (x : ℕ) (xs : List ℕ) : Type 0 where
  pub result : dequeue s ≡ (some x, s')
  pub ready : Ready s' xs
  pub same : SameThreads s s'

pub dequeue-Ready :
    (s : Threads) (x : ℕ) (xs : List ℕ) → Ready s (x ∷ xs) → (s' : Threads) × Dequeued s s' x xs
unfolding dequeue
dequeue-Ready s x xs v = (
  popped s x,
  record {
    result = ap (pop s) v.chain.0;
    ready = popped-Ready s x xs v;
    same = popped-SameThreads s x;
  },
)

pub dequeue-empty : (s : Threads) → Ready s [] → dequeue s ≡ (none, s)
unfolding dequeue
dequeue-empty s v = ap (pop s) v.chain

pub record Alike (s s' : Threads) (i : ℕ) : Type 0 where
  pub next : (s'.table i).next ≡ (s.table i).next
  pub state : (s'.table i).state ≡ (s.table i).state

-- A change to a slot that is not on the queue leaves the queue.
pub Ready-frame :
    (s s' : Threads) (xs : List ℕ)
    → s'.qhead ≡ s.qhead
    → s'.qtail ≡ s.qtail
    → Each (Alike s s') xs
    → Ready s xs
    → Ready s' xs
Ready-frame s s' xs h t same v = record {
  chain =
      subst (λ k. Chain (λ i. (s'.table i).next) k xs) (sym h)
        (Chain-frame (λ i. (s.table i).next) (λ i. (s'.table i).next) s.qhead xs
          (Each-map xs (λ i w. w.next) same) v.chain);
  tail = t ∙ v.tail;
  distinct = v.distinct;
  states = moved xs same v.states;
}
  where
    moved :
        (ys : List ℕ)
        → Each (Alike s s') ys
        → Each (λ i. (i < uthread_max) × ((s.table i).state ≡ runnable)) ys
        → Each (λ i. (i < uthread_max) × ((s'.table i).state ≡ runnable)) ys
    moved [] a w = tt
    moved (y ∷ ys) a w = ((w.0.0, a.0.state ∙ w.0.1), moved ys a.1 w.1)

pub put-Ready :
    (s : Threads) (t : ℕ) (x : Thread) (xs : List ℕ)
    → Each (λ z. z ≢ t) xs
    → Ready s xs
    → Ready (put s t x) xs
put-Ready s t x xs ne v =
    Ready-frame s (put s t x) xs refl refl
      (Each-map xs
        (λ i n. record {
          next = ap (λ k. k.next) (update_ne s.table t x i (λ e. n (sym e)));
          state = ap (λ k. k.state) (update_ne s.table t x i (λ e. n (sym e)));
        })
        ne)
      v
