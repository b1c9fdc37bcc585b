-- ===== src/Toolkit/Semaphore/Refinement.antt =====
-- our-course/labs/lab05-concurrency/part4-toolkit/solutions/toolkit.c: the semaphore as a number with an
-- atomic wait and post.
use ia_operating_systems.Base.{
  ℕ, ◌+◌, ◌-◌, ◌≤◌, ◌<◌, ◌≡◌, ◌≢◌, ◌⊎◌, inl, inr, some, arith, refl, ap, sym, ◌∙◌, subst, update,
  update_self, update_ne, ℕ_discrete, weight-le-tally,
}
use ia_operating_systems.Toolkit.Semaphore.{
  Semaphore, Pc, idle, wait_wake, wait_take, wait_unlock, post_lock, post_add, post_signal,
  post_unlock, Call, wait, post, advance, System, Step, alone, signal, unheard, spurious, Reach,
}
use ia_operating_systems.Toolkit.Semaphore.Invariant.{takes, Reach-Inv}

-- What a thread is to the specification: outside, in a wait that has or has not taken yet, or in a post
-- that has or has not added yet.
pub data Stage : Type 0 where
  outside waiting taken posting added : Stage

-- The atomic semaphore: what one thread does to the value.
pub data Does (v : ℕ) : Stage → ℕ → Stage → Type 0 where
  calls_wait : Does v outside v waiting
  takes_one : {w : ℕ} → w + 1 ≡ v → Does v waiting w taken
  leaves_wait : Does v taken v outside
  calls_post : Does v outside v posting
  adds_one : Does v posting (v + 1) added
  leaves_post : Does v added v outside

abbrev pub stage : Pc → Stage
stage idle = outside
stage wait_unlock = taken
stage post_lock = posting
stage post_add = posting
stage post_signal = added
stage post_unlock = added
stage _ = waiting

-- A step is no step of the atomic semaphore, or one of thread `i`.
pub data Refines (n : ℕ) (s t : System) : Type 0 where
  stays : t.sem.value ≡ s.sem.value → ((j : ℕ) → stage (t.pc j) ≡ stage (s.pc j)) → Refines n s t
  acts :
      (i : ℕ)
      → i < n
      → Does s.sem.value (stage (s.pc i)) t.sem.value (stage (t.pc i))
      → ((j : ℕ) → i ≢ j → stage (t.pc j) ≡ stage (s.pc j))
      → Refines n s t

-- One thread's step on its own.
abbrev Moves : ℕ → Stage → ℕ → Stage → Type 0
Moves v x w y = ((w ≡ v) × (y ≡ x)) ⊎ Does v x w y

Does-is : {v w w' : ℕ} {x y y' : Stage} → Does v x w y → w' ≡ w → y' ≡ y → Moves v x w' y'
Does-is {v} {w} {w'} {x} {y} {y'} d e f =
    inr (subst (λ k. Does v x k y') (sym e) (subst (λ k. Does v x w k) (sym f) d))

advance-Moves :
    (b b' : Semaphore) (p : Pc) (call : Call) (q : Pc)
    → (1 ≤ takes q → 1 ≤ b.value)
    → advance call b q ≡ some (b', p)
    → Moves b.value (stage q) b'.value (stage p)
unfolding advance
advance-Moves b b' p wait idle h e = Does-is calls_wait (ground arith) (ground arith)
advance-Moves b b' p post idle h e = Does-is calls_post (ground arith) (ground arith)
advance-Moves b b' p call wait_take h e =
    let some_left : 1 ≤ b.value = h (omega arith) in
    let less : b.value - 1 + 1 ≡ b.value = omega arith in
    Does-is (takes_one less) (ground arith) (ground arith)
advance-Moves b b' p call wait_unlock h e = Does-is leaves_wait (ground arith) (ground arith)
advance-Moves b b' p call post_add h e = Does-is adds_one (ground arith) (ground arith)
advance-Moves b b' p call post_unlock h e = Does-is leaves_post (ground arith) (ground arith)
advance-Moves b b' p call q h e = inl (ground arith)

-- A thread that moves leaves the others where they are.
kept : (pc : ℕ → Pc) (i j : ℕ) (p : Pc) → i ≢ j → stage (update pc i p j) ≡ stage (pc j)
kept pc i j p ne = ap stage (update_ne pc i p j ne)

-- A thread that moves within a stage.
same_stage :
    (pc : ℕ → Pc) (i : ℕ) (p : Pc)
    → stage p ≡ stage (pc i)
    → (j : ℕ) → stage (update pc i p j) ≡ stage (pc j)
same_stage pc i p e j = elim (ℕ_discrete i j) [
  | yes h ↦
      subst (λ k. stage (update pc i p k) ≡ stage (pc k)) h (ap stage (update_self pc i p) ∙ e)
  | no ne ↦ kept pc i j p ne
]

-- In every interleaving the semaphore of a mutex and a condition variable refines the atomic one: each
-- step of a thread is seen as nothing, or as one thread's call or return, or as the taking of one from
-- a positive value in a wait that has not taken yet, or as the adding of one in a post that has not
-- added yet; a wait returns only after it has taken and a post only after it has added.
pub semaphore-Refines : {n value : ℕ} {s t : System} → Reach n value s → Step n s t → Refines n s t
semaphore-Refines {n} {value} {s} r (alone i c {b} {p} lt e) =
    elim (advance-Moves s.sem b p c (s.pc i)
      (λ h. (Reach-Inv r).positive (omega (arith, weight-le-tally takes n s.pc i lt))) e) [
        | inl (v, x) ↦ stays v (same_stage s.pc i p x)
        | inr d ↦
            acts i lt
              (subst (λ q. Does s.sem.value (stage (s.pc i)) b.value (stage q))
                (sym (update_self s.pc i p)) d)
              (λ j ne. kept s.pc i j p ne)
      ]
semaphore-Refines {s = s} r (signal i j ilt jlt e f) =
    stays refl (λ k. both (ap stage (sym e)) (ap stage (sym f)) k)
  where
    both :
        added ≡ stage (s.pc i)
        → waiting ≡ stage (s.pc j)
        → (k : ℕ) → stage (update (update s.pc i post_unlock) j wait_wake k) ≡ stage (s.pc k)
    both x y k = elim (ℕ_discrete j k) [
      | yes h ↦
          subst (λ u. stage (update (update s.pc i post_unlock) j wait_wake u) ≡ stage (s.pc u)) h
            (ap stage (update_self (update s.pc i post_unlock) j wait_wake) ∙ y)
      | no ne ↦
          kept (update s.pc i post_unlock) j k wait_wake ne ∙ same_stage s.pc i post_unlock x k
    ]
semaphore-Refines {s = s} r (unheard i lt e h) =
    stays refl (same_stage s.pc i post_unlock (ap stage (sym e)))
semaphore-Refines {s = s} r (spurious j lt e) =
    stays refl (same_stage s.pc j wait_wake (ap stage (sym e)))
