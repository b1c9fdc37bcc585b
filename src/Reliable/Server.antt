-- ===== src/Reliable/Server.antt =====
-- our-course/labs/lab10-distributed/solutions/reliable.c: the rounds of `server`. The lines that it
-- prints are the list `app`; its packets all come from one client, to which it answers.
use ia_operating_systems.Base.{
  ℕ, zero, suc, ◌+◌, ◌-◌, ◌%◌, ◌^◌, Bool, true, false, not, ◌==◌, ltb, leb, if◌then◌else◌, Option,
  none, some, List, [], ◌∷◌, ◌++◌,
}
use ia_operating_systems.Msg.{mb_get_bytes, mb_remain}
use ia_operating_systems.Reliable.Packet.{
  Packet, max_packet, t_data, t_ack, t_fin, rel_magic, pack, Head, head, Received, got, timed_out,
  failed,
}

pub record Server : Type 0 where
  pub expected : ℕ
  pub delivered : ℕ
  pub dups : ℕ
  pub fin_seen : Bool
  pub fin_seq : ℕ
  pub app : List (List ℕ)

abbrev pub fresh_server : Server
fresh_server = record {
  expected = 0;
  delivered = 0;
  dups = 0;
  fin_seen = false;
  fin_seq = 0;
  app = [];
}

-- The string in the `n` bytes from `i` on: it ends at the first NUL.
unfoldable pub c_string : (ℕ → ℕ) → ℕ → ℕ → List ℕ
c_string bytes i zero = []
c_string bytes i (suc n) =
    let rest = c_string bytes (suc i) n in if bytes i == 0 then [] else bytes i ∷ rest

-- The payload that is printed, of which the array holds `storage` before.
unfoldable pub payload_of : (ℕ → ℕ) → Head → List ℕ
payload_of storage h =
    let plen = if leb max_packet (mb_remain h.rest) then max_packet - 1 else mb_remain h.rest in
    c_string (mb_get_bytes h.rest storage plen).0 0 plen

abbrev pub ack : (ℕ → ℕ) → ℕ → Packet
ack storage seq = pack storage t_ack seq (λ i. 0) 0

abbrev pub deliver : (ℕ → ℕ) → Server → Head → Server
deliver storage s h = record s {
  expected = (s.expected + 1) % 2 ^ 32;
  delivered = s.delivered + 1;
  app = s.app ++ payload_of storage h ∷ [];
}

-- What the server makes of a packet with this head, and its answer.
unfoldable pub serve_head : (ℕ → ℕ) → Server → Head → Server × Option Packet
serve_head storage s h =
    if not (h.magic == rel_magic)
    then (s, none)
    else if h.type == t_data
    then (if h.seq == s.expected
        then (deliver storage s h, some (ack storage h.seq))
        else if ltb h.seq s.expected
        then (record s { dups = s.dups + 1 }, some (ack storage h.seq))
        else (s, none))
    else if h.type == t_fin
    then (let fin_seq = if s.fin_seen then s.fin_seq else h.seq in
        (record s { fin_seen = true; fin_seq = fin_seq }, some (ack storage fin_seq)))
    else (s, none)

unfoldable pub serve_packet : (ℕ → ℕ) → Server → Packet → Server × Option Packet
serve_packet storage s pkt = if ltb pkt.size 12 then (s, none) else serve_head storage s (head pkt)

-- One round of the loop: whether it goes on, and what the server is then and sends.
unfoldable pub server_round : (ℕ → ℕ) → Server → Received → Bool × Server × Option Packet
server_round storage s timed_out = (not s.fin_seen, s, none)
server_round storage s failed = (true, s, none)
server_round storage s (got pkt) = let (s', out) = serve_packet storage s pkt in (true, s', out)
