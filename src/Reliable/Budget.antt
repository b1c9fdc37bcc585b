-- ===== src/Reliable/Budget.antt =====
-- our-course/labs/lab10-distributed/solutions/reliable.c: how many packets the client sends.
use native.Mathlib.Nat.{suc-mul, mul-le-mul_right}
use ia_operating_systems.Base.{
  ℕ, zero, suc, ap, [], ◌∷◌, ◌+◌, ◌*◌, ◌^◌, ◌≤◌, ◌≡◌, inl, inr, ◌%◌, false, ltb, leb, if◌then◌else◌,
  Option, none, some, List, length, arith, refl, sym, subst, Bool-cases,
}
use ia_operating_systems.Reliable.Packet.{Packet, Received, got, timed_out, failed}
use ia_operating_systems.Reliable.Client.{
  Setup, Pc, ready, waiting, finished, Client, packet_of, client_send, next_packet, acknowledges,
  client_round,
}
use ia_operating_systems.Reliable.System.{
  System, with_packet, Step, sends, client_receives, server_receives, Reach, start, then_step,
}
use ia_operating_systems.Reliable.Answers.{IsSetup}
use ia_operating_systems.Reliable.Invariant.{Reach-Inv}

-- So many copies of a packet before others.
abbrev pub copies : ℕ → Packet → List Packet → List Packet
copies zero q out = out
copies (suc k) q out = q ∷ copies k q out

-- The packets that the client has sent for the first `i` numbers, the last one first: each packet once at
-- least, and at most once more often than it may be retransmitted.
pub data Runs (p : Setup) : ℕ → List Packet → Type 0 where
  no_run : Runs p 0 []
  run :
      {i : ℕ} {out : List Packet} (k : ℕ)
      → 1 ≤ k
      → k ≤ p.retries + 1
      → Runs p i out
      → Runs p (suc i) (copies k (packet_of p i) out)

-- The packets sent, by where the client stands.
abbrev pub Spent : Setup → List Packet → ℕ → Pc → Type 0
Spent p out i ready = Runs p i out
Spent p out i (waiting r) =
    (before : List Packet) × Runs p i before
    × (out ≡ copies (suc r) (packet_of p i) before)
    × (r ≤ p.retries)
Spent p out i finished = Runs p (suc p.n) out

abbrev SpentBy : Setup → System → Type 0
SpentBy p s = Spent p s.to_server s.client.i s.client.pc

module _ (p : Setup) (c : Client) (sent : List Packet) (r : ℕ) (e : c.pc ≡ waiting r)
    (v : Spent p sent c.i c.pc) (le : c.i ≤ p.n) where
  abbrev By : Client × Option Packet → Type 0
  By w = Spent p (with_packet w.1 sent) w.0.i w.0.pc

  here :
      (before : List Packet) × Runs p c.i before
      × (sent ≡ copies (suc r) (packet_of p c.i) before)
      × (r ≤ p.retries)
  here = subst (Spent p sent c.i) e v

  -- The packets with those of the present number.
  whole : Runs p (suc c.i) sent
  whole =
      let (before, runs, f, few) = here in
      subst (Runs p (suc c.i)) (sym f) (run (suc r) (omega arith) (omega arith) runs)

  -- A message is done.
  moves : (d : Client) → d.pc ≡ ready → d.i ≡ c.i + 1 → By (d, none)
  moves d g h =
      let same : suc c.i ≡ d.i = omega (arith, h) in
      subst (Spent p sent d.i) (sym g) (subst (λ k. Runs p k sent) same whole)

  ends : (d : Client) → d.pc ≡ finished → ltb c.i p.n ≡ false → By (d, none)
  ends d g last =
      let same : suc c.i ≡ suc p.n = ground (arith, last) in
      subst (Spent p sent d.i) (sym g) (subst (λ k. Runs p k sent) same whole)

  next : (o : Option ℕ) → By (next_packet p c o, none)
  unfolding next_packet
  next none = elim (Bool-cases (ltb c.i p.n)) [
    | inl t ↦
        subst
          (λ b. By (
            if b
                then record c { pc = ready; i = c.i + 1; giveups = c.giveups + 1 }
                else record c { pc = finished; giveups = c.giveups + 1 },
            none,
          ))
          (sym t) (moves (record c { pc = ready; i = c.i + 1; giveups = c.giveups + 1 }) refl refl)
    | inr t ↦
        subst
          (λ b. By (
            if b
                then record c { pc = ready; i = c.i + 1; giveups = c.giveups + 1 }
                else record c { pc = finished; giveups = c.giveups + 1 },
            none,
          ))
          (sym t) (ends (record c { pc = finished; giveups = c.giveups + 1 }) refl t)
  ]
  next (some m) = elim (Bool-cases (ltb c.i p.n)) [
    | inl t ↦
        subst
          (λ b. By (
            if b
                then record c {
                  pc = ready;
                  i = c.i + 1;
                  acked = c.acked + 1;
                  retrans = c.retrans + m;
                }
                else record c { pc = finished; retrans = c.retrans + m },
            none,
          ))
          (sym t)
          (moves
            (record c { pc = ready; i = c.i + 1; acked = c.acked + 1; retrans = c.retrans + m })
            refl refl)
    | inr t ↦
        subst
          (λ b. By (
            if b
                then record c {
                  pc = ready;
                  i = c.i + 1;
                  acked = c.acked + 1;
                  retrans = c.retrans + m;
                }
                else record c { pc = finished; retrans = c.retrans + m },
            none,
          ))
          (sym t) (ends (record c { pc = finished; retrans = c.retrans + m }) refl t)
  ]

  again : leb p.retries r ≡ false → By (record c { pc = waiting (suc r) }, some (packet_of p c.i))
  again few =
      let (before, runs, f, le) = here in
      (before, runs, ap (λ out. packet_of p c.i ∷ out) f, ground (arith, few))

  round : (m : Received) → By (client_round p c r m)
  unfolding client_round
  round (got pkt) = elim (Bool-cases (acknowledges pkt (c.i % 2 ^ 32))) [
    | inl t ↦
        subst (λ b. By (if b then next_packet p c (some r) else c, none)) (sym t) (next (some r))
    | inr t ↦ subst (λ b. By (if b then next_packet p c (some r) else c, none)) (sym t) v
  ]
  round failed = v
  round timed_out = elim (Bool-cases (leb p.retries r)) [
    | inl t ↦
        subst
          (λ b. By (
            if b
            then (next_packet p c none, none)
            else (record c { pc = waiting (suc r) }, some (packet_of p c.i))))
          (sym t) (next none)
    | inr t ↦
        subst
          (λ b. By (
            if b
            then (next_packet p c none, none)
            else (record c { pc = waiting (suc r) }, some (packet_of p c.i))))
          (sym t) (again t)
  ]

Step-SpentBy :
    (p : Setup) (storage : ℕ → ℕ) {s t : System}
    → Step p storage s t
    → s.client.i ≤ p.n
    → SpentBy p s
    → SpentBy p t
unfolding client_send
Step-SpentBy p storage {s} (sends e) le v =
    (s.to_server, subst (Spent p s.to_server s.client.i) e v, refl, omega arith)
Step-SpentBy p storage {s} (client_receives r m e i) le v = round p s.client s.to_server r e v le m
Step-SpentBy p storage (server_receives m e i) le v = v

Reach-SpentBy :
    (p : Setup) (storage : ℕ → ℕ) {s : System} → IsSetup p → Reach p storage s → SpentBy p s
Reach-SpentBy p storage v start = no_run
Reach-SpentBy p storage v (then_step r st) =
    Step-SpentBy p storage st (Reach-Inv p v storage r).client.bound (Reach-SpentBy p storage v r)

length-copies : (k : ℕ) (q : Packet) (out : List Packet) → length (copies k q out) ≡ k + length out
length-copies zero q out = omega arith
length-copies (suc k) q out = omega (arith, length-copies k q out)

length-Runs :
    {p : Setup} {i : ℕ} {out : List Packet} → Runs p i out → length out ≤ i * (p.retries + 1)
length-Runs no_run = omega arith
length-Runs {p} (run {i} {out} k pos few v) =
    omega (arith, length-Runs v, length-copies k (packet_of p i) out, suc-mul i (p.retries + 1))

-- With fewer than 2 ^ 32 messages, each short enough for a packet, and however the network behaves: the
-- client sends the packets one after the other, each at least once, and no packet more often than once
-- and the wanted number of retransmissions. So it sends at most that many for each message and for the
-- close of the stream.
pub sent_within_budget :
    {p : Setup} {storage : ℕ → ℕ} {s : System}
    → IsSetup p
    → Reach p storage s
    → Spent p s.to_server s.client.i s.client.pc
      × (length s.to_server ≤ (p.n + 1) * (p.retries + 1))
sent_within_budget {p} {storage} {s} v r = (spent, within s.client.pc refl)
  where
    spent : Spent p s.to_server s.client.i s.client.pc
    spent = Reach-SpentBy p storage v r

    few : s.client.i ≤ p.n
    few = (Reach-Inv p v storage r).client.bound

    enough :
        (i : ℕ)
        → i ≤ p.n + 1
        → Runs p i s.to_server
        → length s.to_server ≤ (p.n + 1) * (p.retries + 1)
    enough i le w =
        omega (arith, length-Runs w, mul-le-mul_right {m = i} {n = p.n + 1} (p.retries + 1) le)

    within : (q : Pc) → s.client.pc ≡ q → length s.to_server ≤ (p.n + 1) * (p.retries + 1)
    within ready e =
        enough s.client.i (omega (arith, few)) (subst (Spent p s.to_server s.client.i) e spent)
    within (waiting k) e =
        enough (suc s.client.i) (omega (arith, few)) (whole p s.client s.to_server k e spent few)
    within finished e =
        enough (suc p.n) (omega arith) (subst (Spent p s.to_server s.client.i) e spent)
