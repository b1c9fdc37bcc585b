-- ===== src/Reliable/Promises.antt =====
-- our-course/labs/lab10-distributed/solutions/reliable.c: delivery exactly once and in order, over a
-- network that loses, repeats and reorders packets.
use ia_operating_systems.Base.{ℕ, ◌≤◌, ◌≡◌, true, arith, ap, sym, ◌∙◌, subst}
use ia_operating_systems.Reliable.Client.{Setup, finished, success}
use ia_operating_systems.Reliable.System.{System, Reach}
use ia_operating_systems.Reliable.Answers.{IsSetup}
use ia_operating_systems.Reliable.Serving.{messages}
use ia_operating_systems.Reliable.Invariant.{Counted, Reach-Inv}

-- With fewer than 2 ^ 32 messages, each short enough for a packet: whatever packets are lost, repeated
-- or reordered and whenever the client times out, the server has printed the first messages, each once
-- and in the order sent, as many as it counts.
pub delivered_in_order :
    {p : Setup} {storage : ℕ → ℕ} {s : System}
    → IsSetup p
    → Reach p storage s
    → (s.server.app ≡ messages p s.server.delivered) × (s.server.delivered ≤ p.n)
delivered_in_order {p} {storage} v r =
    let w = (Reach-Inv p v storage r).server in
    (w.app ∙ ap (messages p) (sym w.delivered), omega (arith, w.within, w.delivered))

-- A client that is done and exits with status 0 has had all messages printed, each once and in the
-- order sent, and the server knows that the stream is closed.
pub success_delivers :
    {p : Setup} {storage : ℕ → ℕ} {s : System}
    → IsSetup p
    → Reach p storage s
    → s.client.pc ≡ finished
    → success s.client ≡ true
    → (s.server.app ≡ messages p p.n) × (s.client.acked ≡ p.n) × (s.server.fin_seen ≡ true)
success_delivers {p} {storage} {s} v r e ok =
    let w = Reach-Inv p v storage r in
    let none_lost : s.client.giveups ≡ 0 = ground (arith, ok) in
    let (at, closed) = w.client.over e none_lost in
    let k = subst (Counted p s.client) e w.client.counted in
    let all : s.server.expected ≡ p.n =
      omega (arith, w.server.within, w.client.passed none_lost, at) in
    (w.server.app ∙ ap (messages p) all, omega (arith, k, none_lost), closed)
