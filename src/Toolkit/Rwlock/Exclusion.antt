-- ===== src/Toolkit/Rwlock/Exclusion.antt =====
-- our-course/labs/lab05-concurrency/part4-toolkit/solutions/toolkit.c: what the reader-writer lock
-- promises: exclusion, no overtaking of a waiting writer, and no deadlock.
use ia_operating_systems.Base.{
  ℕ, ◌+◌, ◌≤◌, ◌<◌, ◌≡◌, ◌≢◌, Bool, none, some, arith, refl, tally, tally-update, weight-le-tally,
  two-weights-le-tally, tally_witness, dec_lt, ℕ_discrete, ap, sym, ◌∙◌,
}
use ia_operating_systems.Toolkit.Rwlock.{
  Rwlock, Pc, idle, read_pass, read_lock, read_count, read_room, read_unlock, reading, write_room,
  writing, advance, System, Step, move, Reach,
}
use ia_operating_systems.Toolkit.Rwlock.Invariant.{
  in_mutex, first_in, last_out, at_gate, counted, in_room, Inv, Reach-Inv,
}

-- While a thread writes, no other thread reads or writes.
pub exclusion :
    {n : ℕ} {s : System} (i j : ℕ)
    → Reach n s
    → i < n
    → j < n
    → i ≢ j
    → s.pc i ≡ writing
    → (s.pc j ≢ reading) × (s.pc j ≢ writing)
exclusion {n} {s} i j r ilt jlt ne w = (not_reading, not_writing)
  where
    inv : Inv n s
    inv = Reach-Inv r

    not_reading : s.pc j ≢ reading
    not_reading e = ground (
      arith,
      inv.room,
      inv.alone,
      inv.readers,
      weight-le-tally in_room n s.pc i ilt,
      weight-le-tally counted n s.pc j jlt,
    )

    not_writing : s.pc j ≢ writing
    not_writing e = ground (
      arith,
      inv.room,
      inv.alone,
      inv.readers,
      two-weights-le-tally in_room n s.pc i j ne ilt jlt,
    )

-- The readers that are past the turnstile and not yet on their way out.
abbrev pub admitted : Pc → ℕ
admitted read_lock = 1
admitted read_count = 1
admitted read_room = 1
admitted read_unlock = 1
admitted reading = 1
admitted _ = 0

abbrev passing : Pc → ℕ
passing read_pass = 1
passing _ = 0

admitted-advance :
    (l : Rwlock) {l' : Rwlock} {p : Pc} (b : Bool) (q : Pc)
    → advance b l q ≡ some (l', p)
    → admitted p ≤ admitted q + passing q
unfolding advance
admitted-advance l b idle e = ground arith
admitted-advance l b q e = ground arith

passing-le-at_gate : (q : Pc) → passing q ≤ at_gate q
passing-le-at_gate idle = omega arith
passing-le-at_gate q = ground arith

-- A waiting writer keeps every other thread off the turnstile.
gate_shut :
    (n : ℕ) (s : System) (i j : ℕ)
    → Inv n s
    → i < n
    → j < n
    → s.pc i ≡ write_room
    → passing (s.pc j) ≡ 0
gate_shut n s i j inv ilt jlt w = elim (ℕ_discrete i j) [
  | yes same ↦ ap passing (ap s.pc (sym same) ∙ w)
  | no other ↦ ground (
    arith,
    inv.gate,
    passing-le-at_gate (s.pc j),
    two-weights-le-tally at_gate n s.pc i j other ilt jlt,
  )
]

-- While a writer waits for the room, no step lets one more reader in.
pub no_overtaking :
    {n : ℕ} {s t : System} (i : ℕ)
    → Reach n s
    → i < n
    → s.pc i ≡ write_room
    → Step n s t
    → tally admitted n t.pc ≤ tally admitted n s.pc
no_overtaking {n} {s} i r ilt w (move j b {p = p} jlt e) = omega (
  arith,
  gate_shut n s i j (Reach-Inv r) ilt jlt w,
  admitted-advance s.lock b (s.pc j) e,
  tally-update admitted n s.pc j p jlt,
)

-- A thread that no semaphore blocks.
abbrev pub CanMove : Rwlock → Pc → Type 0
CanMove l q = (b : Bool) → advance b l q ≢ none

room_moves : (l : Rwlock) (q : Pc) → 1 ≤ in_room q → CanMove l q
unfolding advance
room_moves l idle h b e = absurd (omega arith)
room_moves l q h b e = ground arith

mutex_moves : (l : Rwlock) (q : Pc) → 1 ≤ in_mutex q → CanMove l q
unfolding advance
mutex_moves l idle h b e = absurd (omega arith)
mutex_moves l q h b e = ground arith

last_moves : (l : Rwlock) (q : Pc) → 1 ≤ last_out q → CanMove l q
unfolding advance
last_moves l idle h b e = absurd (omega arith)
last_moves l q h b e = ground arith

first_moves : (l : Rwlock) (q : Pc) → 1 ≤ first_in q → 1 ≤ l.room_empty → CanMove l q
unfolding advance
first_moves l idle h r b e = absurd (omega arith)
first_moves l q h r b e = ground arith

inside_moves : (l : Rwlock) (q : Pc) → 1 ≤ counted q → 1 ≤ l.mutex → CanMove l q
unfolding advance
inside_moves l idle h r b e = absurd (omega arith)
inside_moves l q h r b e = ground arith

gate_moves : (l : Rwlock) (q : Pc) → 1 ≤ at_gate q → 1 ≤ l.room_empty → CanMove l q
unfolding advance
gate_moves l idle h r b e = absurd (omega arith)
gate_moves l q h r b e = ground arith

-- With every semaphore open, nothing blocks.
open_moves : (l : Rwlock) (q : Pc) → 1 ≤ l.mutex → 1 ≤ l.turnstile → 1 ≤ l.room_empty → CanMove l q
unfolding advance
open_moves l idle m t r b e = ground arith
open_moves l q m t r b e = ground arith

abbrev pub SomeMoves : ℕ → System → Type 0
SomeMoves n s = (j : ℕ) × (j < n) × (s.pc j ≢ idle) × CanMove s.lock (s.pc j)

witness_moves :
    (n : ℕ) (s : System) (weight : Pc → ℕ)
    → weight idle ≡ 0
    → ((q : Pc) → 1 ≤ weight q → CanMove s.lock q)
    → 1 ≤ tally weight n s.pc
    → SomeMoves n s
witness_moves n s weight z moves h =
    let (j, lt, w) = tally_witness weight n s.pc h in
    (j, lt, (λ e. absurd (omega (arith, ap weight e))), moves (s.pc j) w)

-- No deadlock: while some thread is inside one of the calls or holds the lock, one such thread is not
-- blocked.
pub rwlock_no_deadlock :
    {n : ℕ} {s : System} (i : ℕ) → Reach n s → i < n → s.pc i ≢ idle → SomeMoves n s
rwlock_no_deadlock {n} {s} i r ilt busy = elim (dec_lt 0 (tally in_room n s.pc)) [
  | yes h ↦ witness_moves n s in_room refl (room_moves s.lock) h
  | no rooms ↦ elim (dec_lt 0 (tally in_mutex n s.pc)) [
    | yes h ↦ witness_moves n s in_mutex refl (mutex_moves s.lock) h
    | no mutexes ↦ elim (dec_lt 0 (tally last_out n s.pc)) [
      | yes h ↦ witness_moves n s last_out refl (last_moves s.lock) h
      | no lasts ↦ elim (dec_lt 0 (tally first_in n s.pc)) [
        | yes h ↦
            witness_moves n s first_in refl
              (λ q w. first_moves s.lock q w (ground (arith, inv.room, inv.alone, inv.readers))) h
        | no firsts ↦ elim (dec_lt 0 (tally counted n s.pc)) [
          | yes h ↦
              witness_moves n s counted refl
                (λ q w. inside_moves s.lock q w (omega (arith, inv.mutex))) h
          | no inside ↦ elim (dec_lt 0 (tally at_gate n s.pc)) [
            | yes h ↦
                witness_moves n s at_gate refl
                  (λ q w. gate_moves s.lock q w (ground (arith, inv.room, inv.readers))) h
            | no gates ↦ (
              i,
              ilt,
              busy,
              open_moves s.lock (s.pc i) (omega (arith, inv.mutex)) (omega (arith, inv.gate))
                  (ground (arith, inv.room, inv.readers)),
            )
          ]
        ]
      ]
    ]
  ]
]
  where
    inv : Inv n s
    inv = Reach-Inv r
