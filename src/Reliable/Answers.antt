-- ===== src/Reliable/Answers.antt =====
-- our-course/labs/lab10-distributed/solutions/reliable.c: what the server makes of the packets of the
-- client, and the client of the acknowledgements.
use ia_operating_systems.Base.{
  ℕ, ◌+◌, ◌%◌, ◌^◌, ◌≤◌, ◌<◌, ◌≡◌, true, ◌&&◌, ◌==◌, ltb, leb, if◌then◌else◌, Option, none, some,
  List, [], ◌∷◌, ◌++◌, arith, ap, sym, ◌∙◌,
}
use ia_operating_systems.Reliable.Packet.{
  Packet, max_packet, t_data, t_ack, t_fin, rel_magic, pack, head,
}
use ia_operating_systems.Reliable.Server.{
  Server, c_string, payload_of, ack, serve_head, serve_packet,
}
use ia_operating_systems.Reliable.Client.{Setup, packet_of, acknowledges}
use ia_operating_systems.Reliable.Format.{head-pack, size-pack, payload_of-pack}

-- The messages have numbers of 32 bits, and each fits into a packet.
pub record IsSetup (p : Setup) : Type 0 where
  pub few : p.n < 2 ^ 32
  pub short : (i : ℕ) → p.plen i + 12 ≤ max_packet

-- Message `i` as a string.
abbrev pub message : Setup → ℕ → List ℕ
message p i = c_string (p.payload i) 0 (p.plen i)

abbrev data_packet : Setup → ℕ → Packet
data_packet p i = pack p.storage t_data i (p.payload i) (p.plen i)

abbrev fin_packet : Setup → Packet
fin_packet p = pack p.storage t_fin p.n (λ k. 0) 0

module _ (p : Setup) (v : IsSetup p) where
  packet_of-data : (i : ℕ) → i < p.n → packet_of p i ≡ data_packet p i
  unfolding packet_of
  packet_of-data i lt =
      let small : i % 2 ^ 32 ≡ i = omega (arith, v.few) in
      ground (arith, ap (λ k. pack p.storage t_data k (p.payload i) (p.plen i)) small)

  packet_of-fin : (i : ℕ) → p.n ≤ i → packet_of p i ≡ fin_packet p
  unfolding packet_of
  packet_of-fin i le =
      let small : p.n % 2 ^ 32 ≡ p.n = omega (arith, v.few) in
      ground (arith, ap (λ k. pack p.storage t_fin k (λ k. 0) 0) small)

  module _ (storage : ℕ → ℕ) (s : Server) where
    -- What the server makes of message `i`.
    abbrev pub on_data : ℕ → Server × Option Packet
    on_data i =
        if i == s.expected
        then (
          record s {
            expected = (s.expected + 1) % 2 ^ 32;
            delivered = s.delivered + 1;
            app = s.app ++ message p i ∷ [];
          },
          some (ack storage i),
        )
        else if ltb i s.expected
        then (record s { dups = s.dups + 1 }, some (ack storage i))
        else (s, none)

    abbrev pub on_fin : Server × Option Packet
    on_fin =
        let fin_seq = if s.fin_seen then s.fin_seq else p.n in
        (record s { fin_seen = true; fin_seq = fin_seq }, some (ack storage fin_seq))

    large_enough :
        (pkt : Packet)
        → 12 ≤ pkt.size
        → serve_packet storage s pkt ≡ serve_head storage s (head pkt)
    unfolding serve_packet
    large_enough pkt le = ground arith

    pub serve-data : (i : ℕ) → i < p.n → serve_packet storage s (packet_of p i) ≡ on_data i
    unfolding serve_head
    serve-data i lt =
        let small : i < 2 ^ 32 = omega (arith, v.few) in
        let read =
          head-pack p.storage t_data i (p.payload i) (p.plen i) (v.short i) (omega arith) small in
        let text =
          payload_of-pack p.storage t_data i (p.payload i) (p.plen i) (v.short i) storage
            (omega arith) small in
        ap (serve_packet storage s) (packet_of-data i lt)
        ∙ large_enough (data_packet p i)
            (omega (arith, size-pack p.storage t_data i (p.payload i) (p.plen i) (v.short i)))
        ∙ ap (serve_head storage s) read
        ∙ ap
            (λ l.
              if i == s.expected
              then (
                record s {
                  expected = (s.expected + 1) % 2 ^ 32;
                  delivered = s.delivered + 1;
                  app = s.app ++ l ∷ [];
                },
                some (ack storage i),
              )
              else if ltb i s.expected
              then (record s { dups = s.dups + 1 }, some (ack storage i))
              else (s, none))
            (sym (ap (payload_of storage) read) ∙ text)

    pub serve-fin : (i : ℕ) → p.n ≤ i → serve_packet storage s (packet_of p i) ≡ on_fin
    unfolding serve_head
    serve-fin i le =
        ap (serve_packet storage s) (packet_of-fin i le)
        ∙ large_enough (fin_packet p)
            (omega (arith, size-pack p.storage t_fin p.n (λ k. 0) 0 (omega arith)))
        ∙ ap (serve_head storage s)
            (head-pack p.storage t_fin p.n (λ k. 0) 0 (omega arith) (omega arith) v.few)

pub acknowledges-ack :
    (storage : ℕ → ℕ) (q seq : ℕ) → q < 2 ^ 32 → acknowledges (ack storage q) seq ≡ (q == seq)
unfolding acknowledges
acknowledges-ack storage q seq small =
    let size : leb 12 (ack storage q).size ≡ true =
      ground (arith, size-pack storage t_ack q (λ i. 0) 0 (omega arith)) in
    ap
      (λ b.
        b
        && (head (ack storage q)).magic == rel_magic
        && (head (ack storage q)).type == t_ack
        && (head (ack storage q)).seq == seq)
      size
    ∙ ap (λ h. h.magic == rel_magic && h.type == t_ack && h.seq == seq)
        (head-pack storage t_ack q (λ i. 0) 0 (omega arith) (omega arith) small)
