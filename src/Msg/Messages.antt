-- ===== src/Msg/Messages.antt =====
-- our-course/labs/lab10-distributed/solutions/msg.c: whole messages, written and read back, and
-- messages that come from anywhere.
use ia_operating_systems.Base.{
  ℕ, ◌+◌, ◌*◌, ◌/◌, ◌%◌, ◌^◌, ◌≤◌, ◌<◌, ◌≡◌, false, ◌&&◌, leb, if◌then◌else◌, arith, refl, ap, sym,
  ◌∙◌, dec_le,
}
use ia_operating_systems.Msg.{
  Mbuf, mb_winit, failing, mb_put_u32, mb_put_u64, copied, mb_put_bytes, mb_put_blob, mb_get_u32,
  mb_get_u64, mb_get_blob, mb_remain, mb_ok,
}
use ia_operating_systems.Msg.Bounds.{
  max_size, IsMbuf, rroom_lem, with_u32, mb_put_u32_lem, mb_put_bytes_lem, Appends,
  mb_put_u64-Appends, mb_put_blob-Appends,
}
use ia_operating_systems.Msg.RoundTrip.{reader, mb_get_u64-mb_put_u64, mb_get_blob-mb_put_blob}

u64_form :
    (m : Mbuf) (v : ℕ)
    → IsMbuf m
    → m.len + 8 ≤ m.cap
    → mb_put_u64 m v ≡ with_u32 (with_u32 m (v / 2 ^ 32 % 2 ^ 32)) (v % 2 ^ 32)
unfolding mb_put_u64
u64_form m v h room =
    ap (λ b. mb_put_u32 b (v % 2 ^ 32)) (mb_put_u32_lem m (v / 2 ^ 32 % 2 ^ 32) h ∙ ground arith)
    ∙ mb_put_u32_lem (with_u32 m (v / 2 ^ 32 % 2 ^ 32)) (v % 2 ^ 32)
        (record { read_part = omega (arith, h.read_part); fits = omega arith; size = h.size })
    ∙ ground arith

blob_form :
    (m : Mbuf) (b : ℕ → ℕ) (n : ℕ)
    → IsMbuf m
    → m.len + 4 + n ≤ m.cap
    → (mb_put_blob m b n).len ≡ m.len + 4 + n
unfolding mb_put_blob
blob_form m b n h room =
    ap (λ k. (mb_put_bytes k b n).len) (mb_put_u32_lem m (n % 2 ^ 32) h ∙ plain)
    ∙ ap (λ k. k.len)
        (mb_put_bytes_lem (with_u32 m (n % 2 ^ 32)) b n
          (record { read_part = omega (arith, h.read_part); fits = omega arith; size = h.size })
          (omega (arith, h.size)))
    ∙ ground arith
  where
    plain :
        (if leb (m.len + 4) m.cap then with_u32 m (n % 2 ^ 32) else failing m)
        ≡ with_u32 m (n % 2 ^ 32)
    plain = ground arith

-- A message of a 64-bit number and a blob, for which the storage has room, gives the receiver the
-- number and the blob and nothing more.
pub message_lem :
    (storage b out : ℕ → ℕ) (cap id n max : ℕ)
    → cap < max_size
    → 12 + n ≤ cap
    → id < 2 ^ 64
    → n < 2 ^ 32
    → n ≤ max
    → let final = mb_put_blob (mb_put_u64 (mb_winit storage cap) id) b n in
      (mb_get_u64 (reader final 0) ≡ (id, reader final 8))
      × (mb_get_blob (reader final 8) out max ≡ (n, copied out 0 b n, reader final (12 + n)))
      × (mb_remain (reader final (12 + n)) ≡ 0)
message_lem storage b out cap id n max size room small short le =
    (number, blob, omega (arith, whole))
  where
    w : Mbuf
    w = mb_winit storage cap

    w-IsMbuf : IsMbuf w
    w-IsMbuf = record { read_part = omega arith; fits = omega arith; size = size }

    m : Mbuf
    m = mb_put_u64 w id

    m_len : (m.len ≡ 8) × (m.cap ≡ cap)
    m_len = (
      ap (λ k. k.len) (u64_form w id w-IsMbuf (omega arith)),
      (mb_put_u64-Appends w id w-IsMbuf).same_storage.0,
    )

    m-IsMbuf : IsMbuf m
    m-IsMbuf = (mb_put_u64-Appends w id w-IsMbuf).ok

    final : Mbuf
    final = mb_put_blob m b n

    whole : final.len ≡ 12 + n
    whole = blob_form m b n m-IsMbuf (omega (arith, m_len)) ∙ omega (arith, m_len)

    second : Appends m final (4 + n)
    second = mb_put_blob-Appends m b n m-IsMbuf (omega arith)

    short_enough : final.len < max_size
    short_enough = omega (arith, whole)

    number : mb_get_u64 (reader final 0) ≡ (id, reader final 8)
    number =
        mb_get_u64-mb_put_u64 {final = final} w id w-IsMbuf (omega arith) small
          (record { kept = second.kept; longer = second.shrinks_never; size = short_enough })

    blob : mb_get_blob (reader final 8) out max ≡ (n, copied out 0 b n, reader final (12 + n))
    blob =
        ap (λ k. mb_get_blob (reader final k) out max) (sym m_len.0)
        ∙ mb_get_blob-mb_put_blob {final = final} m b out n max m-IsMbuf (omega (arith, m_len))
            short le (record { kept = λ i lt. refl; longer = omega arith; size = short_enough })
        ∙ ap (λ k. (n, copied out 0 b n, reader final k)) (omega (arith, m_len))

-- The number at the cursor.
abbrev u32_at : Mbuf → ℕ
u32_at m = m.p m.off * 2 ^ 24 + m.p (m.off + 1) * 2 ^ 16 + m.p (m.off + 2) * 2 ^ 8 + m.p (m.off + 3)

u32_form :
    (m : Mbuf)
    → IsMbuf m
    → mb_get_u32 m
      ≡ (if leb (m.off + 4) m.len then (u32_at m, record m { off = m.off + 4 }) else (0, failing m))
unfolding mb_get_u32
u32_form m v = rw (rroom_lem m 4 v (omega arith)) (ground arith)

-- Whatever bytes a message has, a blob read from it is no longer than its destination and leaves the
-- destination alone from there on, the reader stays within the message, and an error stays.
pub mb_get_blob-IsMbuf :
    (m : Mbuf) (out : ℕ → ℕ) (max i : ℕ)
    → IsMbuf m
    → ((k : ℕ) → m.p k < 256)
    → max ≤ i
    → let (n, out', m') = mb_get_blob m out max in
      (n ≤ max) × (out' i ≡ out i) × IsMbuf m' × ((m.err && mb_ok m') ≡ false)
unfolding mb_get_blob copied
mb_get_blob-IsMbuf m out max i v bytes le = elim (dec_le (m.off + 4) m.len) [
  | yes room ↦
      rw (u32_form m v ∙ inside room)
        (rw (rroom_lem (record m { off = m.off + 4 }) (u32_at m) (after room) small) (ground arith))
  | no short ↦ rw (u32_form m v ∙ outside short) (ground arith)
]
  where
    after_u32 : ℕ × Mbuf
    after_u32 = (u32_at m, record m { off = m.off + 4 })

    choice : ℕ × Mbuf
    choice = if leb (m.off + 4) m.len then after_u32 else (0, failing m)

    inside : m.off + 4 ≤ m.len → choice ≡ after_u32
    inside h = ground arith

    outside : ¬ (m.off + 4 ≤ m.len) → choice ≡ (0, failing m)
    outside h = ground arith

    after : m.off + 4 ≤ m.len → IsMbuf (record m { off = m.off + 4 })
    after h = record { read_part = h; fits = v.fits; size = v.size }

    small : u32_at m < max_size
    small = omega (arith, bytes m.off, bytes (m.off + 1), bytes (m.off + 2), bytes (m.off + 3))
