-- ===== src/Reliable/Format.antt =====
-- our-course/labs/lab10-distributed/solutions/reliable.c: a packet is read back as it was packed.
use ia_operating_systems.Base.{
  ℕ, zero, suc, ◌+◌, ◌-◌, ◌^◌, ◌≤◌, ◌<◌, ◌≡◌, ◌==◌, ltb, leb, if◌then◌else◌, [], ◌∷◌, arith, refl,
  ap, ap₂, sym, ◌∙◌, subst,
}
use ia_operating_systems.Msg.{Mbuf, mb_winit, mb_put_u32, copied, mb_get_u32, mb_get_bytes}
use ia_operating_systems.Msg.Bounds.{
  IsMbuf, Appends, rroom_lem, mb_put_u32_lem, mb_put_u32-Appends, mb_put_bytes_lem,
}
use ia_operating_systems.Msg.RoundTrip.{reader, Extends, mb_get_u32-mb_put_u32}
use ia_operating_systems.Reliable.Packet.{max_packet, rel_magic, put_head, packed, pack, head}
use ia_operating_systems.Reliable.Server.{c_string, payload_of}

u32_len : (m : Mbuf) (v : ℕ) → IsMbuf m → m.len + 4 ≤ m.cap → (mb_put_u32 m v).len ≡ m.len + 4
u32_len m v h room = ap (λ k. k.len) (mb_put_u32_lem m v h) ∙ ground arith

copied_at :
    (to : ℕ → ℕ) (from : ℕ) (b : ℕ → ℕ) (n i : ℕ) → i < n → copied to from b n (from + i) ≡ b i
unfolding copied
copied_at to from b n i lt = inside ∙ ap b (omega arith)
  where
    inside : copied to from b n (from + i) ≡ b (from + i - from)
    inside = ground arith

c_string-same :
    (b c : ℕ → ℕ) (i n : ℕ)
    → ((k : ℕ) → i ≤ k → k < i + n → b k ≡ c k)
    → c_string b i n ≡ c_string c i n
unfolding c_string
c_string-same b c i zero f = refl
c_string-same b c i (suc n) f =
    ap₂ (λ x rest. if x == 0 then [] else x ∷ rest) (f i (omega arith) (omega arith))
      (c_string-same b c (suc i) n (λ k le lt. f k (omega arith) (omega arith)))

module _ (storage : ℕ → ℕ) (type seq : ℕ) where
  abbrev m0 : Mbuf
  m0 = mb_winit storage max_packet

  abbrev m1 : Mbuf
  m1 = mb_put_u32 m0 rel_magic

  abbrev m2 : Mbuf
  m2 = mb_put_u32 m1 type

  abbrev m3 : Mbuf
  m3 = mb_put_u32 m2 seq

  ok0 : IsMbuf m0
  ok0 = record { read_part = omega arith; fits = omega arith; size = omega arith }

  first : Appends m0 m1 4
  first = mb_put_u32-Appends m0 rel_magic ok0

  second : Appends m1 m2 4
  second = mb_put_u32-Appends m1 type first.ok

  third : Appends m2 m3 4
  third = mb_put_u32-Appends m2 seq second.ok

  caps : (m1.cap ≡ 1400) × (m2.cap ≡ 1400) × (m3.cap ≡ 1400)
  caps = (
    first.same_storage.0,
    second.same_storage.0 ∙ first.same_storage.0,
    third.same_storage.0 ∙ second.same_storage.0 ∙ first.same_storage.0,
  )

  lens : (m1.len ≡ 4) × (m2.len ≡ 8) × (m3.len ≡ 12)
  lens =
      let a : m1.len ≡ 4 = u32_len m0 rel_magic ok0 (omega arith) in
      let b : m2.len ≡ 8 = u32_len m1 type first.ok (omega (arith, a, caps)) ∙ omega (arith, a) in
      (a, b, u32_len m2 seq second.ok (omega (arith, b, caps)) ∙ omega (arith, b))

  -- The finished packet begins with the three numbers.
  module _ (payload : ℕ → ℕ) (plen : ℕ) (short : plen + 12 ≤ max_packet) where
    abbrev whole : Mbuf
    whole = packed storage type seq payload plen

    written : whole ≡ (
        if ltb 0 plen
        then record m3 { p = copied m3.p m3.len payload plen; len = m3.len + plen }
        else m3)
    unfolding packed put_head
    written =
        ap (λ m. if ltb 0 plen then m else m3)
          (mb_put_bytes_lem m3 payload plen third.ok (omega arith) ∙ ground (arith, caps, lens))

    whole_len : whole.len ≡ 12 + plen
    whole_len = ap (λ m. m.len) written ∙ ground (arith, lens)

    kept : (i : ℕ) → i < m3.len → whole.p i ≡ m3.p i
    unfolding copied
    kept i lt = ap (λ m. m.p i) written ∙ ground arith

    pub carried : (i : ℕ) → i < plen → whole.p (12 + i) ≡ payload i
    unfolding copied
    carried i lt =
        ap (λ m. m.p (12 + i)) written
        ∙ step (omega arith)
        ∙ subst (λ k. copied m3.p k payload plen (12 + i) ≡ payload i) (sym lens.2)
            (copied_at m3.p 12 payload plen i lt)
      where
        step :
            0 < plen
            → (if ltb 0 plen
                  then record m3 { p = copied m3.p m3.len payload plen; len = m3.len + plen }
                  else m3).p
                (12 + i)
              ≡ copied m3.p m3.len payload plen (12 + i)
        step pos = ground arith

    whole-Extends :
        (m : Mbuf) → m.len ≤ m3.len → ((i : ℕ) → i < m.len → m3.p i ≡ m.p i) → Extends m whole
    whole-Extends m le same = record {
      kept = λ i lt. kept i (omega arith) ∙ same i lt;
      longer = omega (arith, whole_len, lens);
      size = omega (arith, whole_len);
    }

    -- A packet that was packed is read back: its three numbers, and its payload after them.
    pub head-pack :
        type < 2 ^ 32
        → seq < 2 ^ 32
        → head (pack storage type seq payload plen)
          ≡ record { magic = rel_magic; type = type; seq = seq; rest = reader whole 12 }
    unfolding head
    head-pack t q =
        let a : mb_get_u32 (reader whole 0) ≡ (rel_magic, reader whole 4) =
          mb_get_u32-mb_put_u32 {final = whole} m0 rel_magic ok0 (omega arith) (omega arith) (
            whole-Extends m1 (omega (arith, lens))
              (λ i lt. third.kept i (omega (arith, lens)) ∙ second.kept i lt)) in
        let b : mb_get_u32 (reader whole 4) ≡ (type, reader whole 8) =
          ap (λ k. mb_get_u32 (reader whole k)) (sym lens.0)
          ∙ mb_get_u32-mb_put_u32 {final = whole} m1 type first.ok (omega (arith, lens, caps)) t
              (whole-Extends m2 (omega (arith, lens)) (λ i lt. third.kept i lt))
          ∙ ap (λ k. (type, reader whole k)) (omega (arith, lens)) in
        let c : mb_get_u32 (reader whole 8) ≡ (seq, reader whole 12) =
          ap (λ k. mb_get_u32 (reader whole k)) (sym lens.1)
          ∙ mb_get_u32-mb_put_u32 {final = whole} m2 seq second.ok (omega (arith, lens, caps)) q
              (whole-Extends m3 (omega arith) (λ i lt. refl))
          ∙ ap (λ k. (seq, reader whole k)) (omega (arith, lens)) in
        rw (a, b, c) refl

    pub size-pack : (pack storage type seq payload plen).size ≡ 12 + plen
    size-pack = whole_len

    got_bytes :
        (local : ℕ → ℕ) (i : ℕ)
        → i < plen
        → (mb_get_bytes (reader whole 12) local plen).0 i ≡ payload i
    unfolding mb_get_bytes copied
    got_bytes local i lt =
        rw
          (rroom_lem (reader whole 12) plen
            (record {
              read_part = omega (arith, whole_len);
              fits = omega arith;
              size = omega (arith, whole_len);
            })
            (omega arith))
          (ground (arith, whole_len, carried i lt))

    printed :
        (local : ℕ → ℕ)
        → payload_of local
            (record { magic = rel_magic; type = type; seq = seq; rest = reader whole 12 })
          ≡ c_string payload 0 plen
    unfolding payload_of
    printed local =
        let remain : whole.len - 12 ≡ plen = omega (arith, whole_len) in
        let size : (if leb max_packet (whole.len - 12) then max_packet - 1 else whole.len - 12)
            ≡ plen =
          ground (arith, remain) in
        ap (λ k. c_string (mb_get_bytes (reader whole 12) local k).0 0 k) size
        ∙ c_string-same _ payload 0 plen (λ k le lt. got_bytes local k (omega arith))

    -- The payload that the server prints is the string in the payload that was packed.
    pub payload_of-pack :
        (local : ℕ → ℕ)
        → type < 2 ^ 32
        → seq < 2 ^ 32
        → payload_of local (head (pack storage type seq payload plen)) ≡ c_string payload 0 plen
    payload_of-pack local t q = ap (payload_of local) (head-pack t q) ∙ printed local
