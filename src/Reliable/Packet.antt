-- ===== src/Reliable/Packet.antt =====
-- our-course/labs/lab10-distributed/solutions/reliable.c: packets, written and read with message
-- buffers. What an array holds before it is written is a parameter, `storage`.
use ia_operating_systems.Base.{ℕ, ltb, if◌then◌else◌}
use ia_operating_systems.Msg.{Mbuf, mb_winit, mb_rinit, mb_put_u32, mb_put_bytes, mb_get_u32}

pub record Packet : Type 0 where
  pub bytes : ℕ → ℕ
  pub size : ℕ

abbrev pub max_packet : ℕ
max_packet = 1400

abbrev pub t_data : ℕ
t_data = 1

abbrev pub t_ack : ℕ
t_ack = 2

abbrev pub t_fin : ℕ
t_fin = 3

abbrev pub rel_magic : ℕ
rel_magic = 0x52454C31

-- The three numbers before the payload.
unfoldable pub put_head : (ℕ → ℕ) → ℕ → ℕ → Mbuf
put_head storage type seq =
    mb_put_u32 (mb_put_u32 (mb_put_u32 (mb_winit storage max_packet) rel_magic) type) seq

unfoldable pub packed : (ℕ → ℕ) → ℕ → ℕ → (ℕ → ℕ) → ℕ → Mbuf
packed storage type seq payload plen =
    let m = put_head storage type seq in if ltb 0 plen then mb_put_bytes m payload plen else m

abbrev pub pack : (ℕ → ℕ) → ℕ → ℕ → (ℕ → ℕ) → ℕ → Packet
pack storage type seq payload plen =
    let m = packed storage type seq payload plen in record { bytes = m.p; size = m.len }

-- The three numbers that begin a packet, and the buffer after them.
pub record Head : Type 0 where
  pub magic : ℕ
  pub type : ℕ
  pub seq : ℕ
  pub rest : Mbuf

unfoldable pub head : Packet → Head
head pkt =
    let (magic, m1) = mb_get_u32 (mb_rinit pkt.bytes pkt.size) in
    let (type, m2) = mb_get_u32 m1 in
    let (seq, m3) = mb_get_u32 m2 in record { magic = magic; type = type; seq = seq; rest = m3 }

-- What `net_recv` comes back with: a packet, -1 or -2.
pub data Received : Type 0 where
  got : Packet → Received
  timed_out failed : Received
