-- ===== src/Msg/Tests.antt =====
-- The theorems on message buffers at small messages.
use ia_operating_systems.Base.{ℕ, ◌+◌, ◌≤◌, ◌≡◌, false, ◌&&◌, arith, refl}
use ia_operating_systems.Msg.{
  Mbuf, mb_winit, mb_rinit, wroom, put_byte, mb_put_bytes, mb_put_u32, mb_put_u64, copied,
  mb_put_blob, mb_get_u32, mb_get_u64, mb_get_blob, mb_remain, mb_ok,
}
use ia_operating_systems.Msg.Bounds.{IsMbuf}
use ia_operating_systems.Msg.RoundTrip.{reader, Extends, mb_get_u32-mb_put_u32}
use ia_operating_systems.Msg.Messages.{message_lem, mb_get_blob-IsMbuf}

abbrev blank : Mbuf
blank = mb_winit (λ i. 0) 32

abbrev letters : ℕ → ℕ
letters i = 65 + i

blank-IsMbuf : IsMbuf blank
blank-IsMbuf = record { read_part = omega arith; fits = omega arith; size = omega arith }

message_lem_example :
    let final = mb_put_blob (mb_put_u64 blank 4294967303) letters 3 in
    (mb_get_u64 (reader final 0) ≡ (4294967303, reader final 8))
    × (mb_get_blob (reader final 8) (λ i. 0) 16
        ≡ (3, copied (λ i. 0) 0 letters 3, reader final (12 + 3)))
    × (mb_remain (reader final (12 + 3)) ≡ 0)
message_lem_example =
    message_lem (λ i. 0) letters (λ i. 0) 32 4294967303 3 16 (omega arith) (omega arith)
      (omega arith) (omega arith) (omega arith)

-- A message is its own finished form.
itself : (m : Mbuf) → m.len ≤ 32 → Extends m m
itself m h = record { kept = λ i lt. refl; longer = omega arith; size = omega arith }

u32_len : (mb_put_u32 blank 258).len ≡ 4
unfolding mb_put_u32 wroom put_byte
u32_len = refl

mb_get_u32-mb_put_u32_example :
    mb_get_u32 (reader (mb_put_u32 blank 258) 0) ≡ (258, reader (mb_put_u32 blank 258) 4)
mb_get_u32-mb_put_u32_example =
    mb_get_u32-mb_put_u32 {final = mb_put_u32 blank 258} blank 258 blank-IsMbuf (omega arith)
      (omega arith) (itself (mb_put_u32 blank 258) (omega (arith, u32_len)))

u64_len : (mb_put_u64 blank 258).len ≡ 8
unfolding mb_put_u64 mb_put_u32 wroom put_byte
u64_len = refl

blob_len : (mb_put_blob blank letters 3).len ≡ 7
unfolding mb_put_blob mb_put_bytes mb_put_u32 wroom put_byte
blob_len = refl

-- A message of bytes 255, whose length does not fit.
abbrev junk : Mbuf
junk = mb_rinit (λ i. 255) 10

mb_get_blob-IsMbuf_example :
    let (n, out', m') = mb_get_blob junk (λ i. 0) 16 in
    (n ≤ 16) × (out' 20 ≡ 0) × IsMbuf m' × ((junk.err && mb_ok m') ≡ false)
mb_get_blob-IsMbuf_example =
    mb_get_blob-IsMbuf junk (λ i. 0) 16 20
      (record { read_part = omega arith; fits = omega arith; size = omega arith })
      (λ k. omega arith) (omega arith)
