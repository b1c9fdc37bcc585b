-- ===== src/Toolkit/Rwlock/Invariant.antt =====
-- our-course/labs/lab05-concurrency/part4-toolkit/solutions/toolkit.c: the invariant of the
-- reader-writer lock, by counts of the threads at each point, and that every step keeps it.
use ia_operating_systems.Base.{
  ℕ, ◌+◌, ◌≤◌, ◌<◌, ◌≡◌, Bool, ◌==◌, if◌then◌else◌, some, update, arith, refl, tally, tally-update,
  tally-zero, weight-le-tally,
}
use ia_operating_systems.Toolkit.Rwlock.{
  Rwlock, rw_init, Pc, idle, read_pass, read_count, read_room, read_unlock, reading, leave_lock,
  leave_count, leave_room, leave_unlock, write_room, writing, done_gate, done_room, advance, System,
  Step, move, Reach, start, then_step,
}

-- What a thread counts for at each point: a holder of `mutex` that is between the tests of the
-- first and the last reader, the first reader before it has the room, the last one before it gives
-- the room back, a holder of `turnstile`, any other reader that `readers`
-- counts, and a writer with the room.
abbrev pub in_mutex : Pc → ℕ
in_mutex read_count = 1
in_mutex read_unlock = 1
in_mutex leave_count = 1
in_mutex leave_unlock = 1
in_mutex _ = 0

abbrev pub first_in : Pc → ℕ
first_in read_room = 1
first_in _ = 0

abbrev pub last_out : Pc → ℕ
last_out leave_room = 1
last_out _ = 0

abbrev pub at_gate : Pc → ℕ
at_gate read_pass = 1
at_gate write_room = 1
at_gate writing = 1
at_gate done_gate = 1
at_gate _ = 0

abbrev pub counted : Pc → ℕ
counted read_unlock = 1
counted reading = 1
counted leave_lock = 1
counted leave_count = 1
counted _ = 0

abbrev pub in_room : Pc → ℕ
in_room writing = 1
in_room done_gate = 1
in_room done_room = 1
in_room _ = 0

-- Whether the readers have the room between them.
abbrev pub some_readers : ℕ → ℕ
some_readers r = if r == 0 then 0 else 1

-- How many threads count for each of these.
pub record Counts : Type 0 where
  pub mutexes : ℕ
  pub firsts : ℕ
  pub lasts : ℕ
  pub gates : ℕ
  pub inside : ℕ
  pub rooms : ℕ

pub record CountsInv (l : Rwlock) (c : Counts) : Type 0 where
  pub mutex : l.mutex + c.mutexes + c.firsts + c.lasts ≡ 1
  pub gate : l.turnstile + c.gates ≡ 1
  pub readers : l.readers ≡ c.firsts + c.inside
  pub room : l.room_empty + c.rooms + c.lasts + some_readers l.readers ≡ 1 + c.firsts
  pub alone : 1 ≤ c.firsts → l.readers ≡ 1
  pub empty : 1 ≤ c.lasts → l.readers ≡ 0

-- The counts after one thread went from `q` to `p`.
record Shifted (q p : Pc) (c d : Counts) : Type 0 where
  mutexes : (d.mutexes + in_mutex q ≡ c.mutexes + in_mutex p) × (in_mutex q ≤ c.mutexes)
  firsts : (d.firsts + first_in q ≡ c.firsts + first_in p) × (first_in q ≤ c.firsts)
  lasts : (d.lasts + last_out q ≡ c.lasts + last_out p) × (last_out q ≤ c.lasts)
  gates : (d.gates + at_gate q ≡ c.gates + at_gate p) × (at_gate q ≤ c.gates)
  inside : (d.inside + counted q ≡ c.inside + counted p) × (counted q ≤ c.inside)
  rooms : (d.rooms + in_room q ≡ c.rooms + in_room p) × (in_room q ≤ c.rooms)

advance-CountsInv :
    {l l' : Rwlock} {c d : Counts} {p : Pc} (writer : Bool) (q : Pc)
    → CountsInv l c
    → advance writer l q ≡ some (l', p)
    → Shifted q p c d
    → CountsInv l' d
unfolding advance
advance-CountsInv writer idle v e m = ground arith
advance-CountsInv writer q v e m = ground arith

abbrev pub counts : ℕ → (ℕ → Pc) → Counts
counts n pc = record {
  mutexes = tally in_mutex n pc;
  firsts = tally first_in n pc;
  lasts = tally last_out n pc;
  gates = tally at_gate n pc;
  inside = tally counted n pc;
  rooms = tally in_room n pc;
}

abbrev pub Inv : ℕ → System → Type 0
Inv n s = CountsInv s.lock (counts n s.pc)

counts-update :
    (n : ℕ) (pc : ℕ → Pc) (i : ℕ) (p : Pc)
    → i < n
    → Shifted (pc i) p (counts n pc) (counts n (update pc i p))
counts-update n pc i p lt = record {
  mutexes = (tally-update in_mutex n pc i p lt, weight-le-tally in_mutex n pc i lt);
  firsts = (tally-update first_in n pc i p lt, weight-le-tally first_in n pc i lt);
  lasts = (tally-update last_out n pc i p lt, weight-le-tally last_out n pc i lt);
  gates = (tally-update at_gate n pc i p lt, weight-le-tally at_gate n pc i lt);
  inside = (tally-update counted n pc i p lt, weight-le-tally counted n pc i lt);
  rooms = (tally-update in_room n pc i p lt, weight-le-tally in_room n pc i lt);
}

pub Step-Inv : {n : ℕ} {s t : System} → Step n s t → Inv n s → Inv n t
Step-Inv {n} {s} (move i writer {l = l} {p = p} lt e) v =
    advance-CountsInv writer (s.pc i) v e (counts-update n s.pc i p lt)

idle-Inv : (n : ℕ) → Inv n (record { lock = rw_init; pc = λ i. idle })
idle-Inv n = omega (
  arith,
  tally-zero in_mutex n (λ i. idle) (λ i lt. refl),
  tally-zero first_in n (λ i. idle) (λ i lt. refl),
  tally-zero last_out n (λ i. idle) (λ i lt. refl),
  tally-zero at_gate n (λ i. idle) (λ i lt. refl),
  tally-zero counted n (λ i. idle) (λ i lt. refl),
  tally-zero in_room n (λ i. idle) (λ i lt. refl),
)

pub Reach-Inv : {n : ℕ} {s : System} → Reach n s → Inv n s
Reach-Inv {n} start = idle-Inv n
Reach-Inv (then_step r st) = Step-Inv st (Reach-Inv r)
