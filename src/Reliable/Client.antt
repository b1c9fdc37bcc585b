-- ===== src/Reliable/Client.antt =====
-- our-course/labs/lab10-distributed/solutions/reliable.c: `client` and `send_reliably` as the steps
-- between two calls of `net_recv`.
use ia_operating_systems.Base.{
  ℕ, suc, ◌+◌, ◌%◌, ◌^◌, Bool, ◌&&◌, ◌==◌, ltb, leb, if◌then◌else◌, Option, none, some,
}
use ia_operating_systems.Reliable.Packet.{
  Packet, t_data, t_ack, t_fin, rel_magic, pack, head, Received, got, timed_out, failed,
}

-- The arguments of the client, what `snprintf` writes for each message, and what its arrays hold
-- before they are written.
pub record Setup : Type 0 where
  pub n : ℕ
  pub retries : ℕ
  pub payload : ℕ → ℕ → ℕ
  pub plen : ℕ → ℕ
  pub storage : ℕ → ℕ

-- Before the first transmission of a packet, after so many retransmissions, or done.
pub data Pc : Type 0 where
  ready : Pc
  waiting : ℕ → Pc
  finished : Pc

pub record Client : Type 0 where
  pub pc : Pc
  pub i : ℕ
  pub sent : ℕ
  pub acked : ℕ
  pub retrans : ℕ
  pub giveups : ℕ

abbrev pub fresh_client : Client
fresh_client = record { pc = ready; i = 0; sent = 0; acked = 0; retrans = 0; giveups = 0 }

-- The packet of message `i`, or the one that closes the stream.
unfoldable pub packet_of : Setup → ℕ → Packet
packet_of p i =
    if ltb i p.n
    then pack p.storage t_data (i % 2 ^ 32) (p.payload i) (p.plen i)
    else pack p.storage t_fin (p.n % 2 ^ 32) (λ k. 0) 0

-- The first transmission.
unfoldable pub client_send : Setup → Client → Client × Packet
client_send p c = (
  record c { pc = waiting 0; sent = if ltb c.i p.n then c.sent + 1 else c.sent },
  packet_of p c.i,
)

-- On to the next packet with the result of `send_reliably`, -1 as `none`.
unfoldable pub next_packet : Setup → Client → Option ℕ → Client
next_packet p c none =
    if ltb c.i p.n
    then record c { pc = ready; i = c.i + 1; giveups = c.giveups + 1 }
    else record c { pc = finished; giveups = c.giveups + 1 }
next_packet p c (some r) =
    if ltb c.i p.n
    then record c { pc = ready; i = c.i + 1; acked = c.acked + 1; retrans = c.retrans + r }
    else record c { pc = finished; retrans = c.retrans + r }

-- Whether a packet acknowledges the one with this number.
unfoldable pub acknowledges : Packet → ℕ → Bool
acknowledges pkt seq =
    let h = head pkt in leb 12 pkt.size && h.magic == rel_magic && h.type == t_ack && h.seq == seq

-- One round of the loop of `send_reliably` after `r` retransmissions, and what it sends.
unfoldable pub client_round : Setup → Client → ℕ → Received → Client × Option Packet
client_round p c r (got pkt) =
    (if acknowledges pkt (c.i % 2 ^ 32) then next_packet p c (some r) else c, none)
client_round p c r failed = (c, none)
client_round p c r timed_out =
    if leb p.retries r
    then (next_packet p c none, none)
    else (record c { pc = waiting (suc r) }, some (packet_of p c.i))

-- Whether the exit status is 0.
abbrev pub success : Client → Bool
success c = c.acked == c.sent && c.giveups == 0
