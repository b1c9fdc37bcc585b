-- ===== src/Uthread/Frame.antt =====
-- our-course/labs/lab05-concurrency/part1-uthread/solutions/uthread.c: the result of `uthread_create`
-- and the new thread's first stack frame.
use ia_operating_systems.Base.{
  ℕ, ◌+◌, ◌%◌, ◌<◌, ◌≤◌, ◌≡◌, ◌≢◌, ◌⊎◌, Option, none, some, List, [], ◌∷◌,
}
use ia_operating_systems.Uthread.State.{unused, runnable, Threads, uthread_max, uthread_stack}

module _ (uthread_entry : ℕ) where
  -- What a new thread starts with: its frame lies in its stack, at a multiple of 16, and holds the
  -- address of `uthread_entry` for the switch to return to.
  pub record Created (s s' : Threads) (t stack fn arg : ℕ) : Type 0 where
    pub unused_before : (s.table t).state ≡ unused
    pub in_table : t < uthread_max
    pub runnable_now : (s'.table t).state ≡ runnable
    pub tid : (s'.table t).tid ≡ s.next_tid
    pub fresh_tid : s'.next_tid ≡ s.next_tid + 1
    pub own_stack : (s'.table t).stack ≡ some stack
    pub aligned : (s'.table t).rsp % 16 ≡ 0
    pub above : stack ≤ (s'.table t).rsp
    pub below : (s'.table t).rsp + 16 ≤ stack + uthread_stack
    pub entry : s'.mem (s'.table t).rsp ≡ uthread_entry
    pub no_return : s'.mem ((s'.table t).rsp + 8) ≡ 0
    pub others : (i : ℕ) → t ≢ i → (s'.table i).state ≡ (s.table i).state

  -- No thread is made, or one is.
  pub data Outcome (s : Threads) (malloc : Option ℕ) (fn arg : ℕ) (r : Option ℕ × Threads)
      (slots : List ℕ) : Type 0 where
    refused :
        r.0 ≡ none
        → slots ≡ []
        → (malloc ≡ none) ⊎ ((j : ℕ) → j < uthread_max → (s.table j).state ≢ unused)
        → Outcome s malloc fn arg r slots
    made :
        (t stack : ℕ)
        → malloc ≡ some stack
        → slots ≡ t ∷ []
        → r.0 ≡ some s.next_tid
        → Created s r.1 t stack fn arg
        → Outcome s malloc fn arg r slots
