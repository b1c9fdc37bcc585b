-- ===== src/Msg.antt =====
-- our-course/labs/lab10-distributed/solutions/msg.c: message buffers, written and read with checked
-- bounds. The storage is a map from positions to bytes; a source or destination of `memcpy` is a map
-- too. A function that changes the buffer returns it beside its result. Sizes wrap round at 2 ^ 64.
pub mod Bounds
pub mod RoundTrip
pub mod Messages
mod Tests
use ia_operating_systems.Base.{
  ℕ, ◌+◌, ◌-◌, ◌*◌, ◌/◌, ◌%◌, ◌^◌, Bool, true, false, not, ◌&&◌, ◌||◌, ltb, leb, if◌then◌else◌,
  update,
}

pub record Mbuf : Type 0 where
  pub p : ℕ → ℕ
  pub cap : ℕ
  pub len : ℕ
  pub off : ℕ
  pub err : Bool

abbrev pub mb_winit : (ℕ → ℕ) → ℕ → Mbuf
mb_winit storage cap = record { p = storage; cap = cap; len = 0; off = 0; err = false }

abbrev pub mb_rinit : (ℕ → ℕ) → ℕ → Mbuf
mb_rinit storage len = record { p = storage; cap = len; len = len; off = 0; err = false }

abbrev pub failing : Mbuf → Mbuf
failing m = record m { err = true }

unfoldable pub wroom : Mbuf → ℕ → Bool × Mbuf
wroom m n = if ltb m.cap ((m.len + n) % 2 ^ 64) then (false, failing m) else (true, m)

unfoldable pub rroom : Mbuf → ℕ → Bool × Mbuf
rroom m n = if ltb m.len ((m.off + n) % 2 ^ 64) then (false, failing m) else (true, m)

-- `m->p[m->len++] = (uint8_t)v`
unfoldable pub put_byte : Mbuf → ℕ → Mbuf
put_byte m v = record m { p = update m.p m.len (v % 256); len = m.len + 1 }

unfoldable pub mb_put_u32 : Mbuf → ℕ → Mbuf
mb_put_u32 m v =
    let (room, m1) = wroom m 4 in
    if room
    then put_byte (put_byte (put_byte (put_byte m1 (v / 2 ^ 24)) (v / 2 ^ 16)) (v / 2 ^ 8)) v
    else m1

unfoldable pub mb_put_u64 : Mbuf → ℕ → Mbuf
mb_put_u64 m v = mb_put_u32 (mb_put_u32 m (v / 2 ^ 32 % 2 ^ 32)) (v % 2 ^ 32)

-- `memcpy(to + at, from, n)`
unfoldable pub copied : (ℕ → ℕ) → ℕ → (ℕ → ℕ) → ℕ → ℕ → ℕ
copied to at from n i = if leb at i && ltb i (at + n) then from (i - at) else to i

unfoldable pub mb_put_bytes : Mbuf → (ℕ → ℕ) → ℕ → Mbuf
mb_put_bytes m b n =
    let (room, m1) = wroom m n in
    if room then record m1 { p = copied m1.p m1.len b n; len = m1.len + n } else m1

unfoldable pub mb_put_blob : Mbuf → (ℕ → ℕ) → ℕ → Mbuf
mb_put_blob m b n = mb_put_bytes (mb_put_u32 m (n % 2 ^ 32)) b n

unfoldable pub mb_get_u32 : Mbuf → ℕ × Mbuf
mb_get_u32 m =
    let (room, m1) = rroom m 4 in
    let v =
      m.p m.off * 2 ^ 24 + m.p (m.off + 1) * 2 ^ 16 + m.p (m.off + 2) * 2 ^ 8 + m.p (m.off + 3) in
    if room then (v, record m1 { off = m1.off + 4 }) else (0, m1)

unfoldable pub mb_get_u64 : Mbuf → ℕ × Mbuf
mb_get_u64 m = let (hi, m1) = mb_get_u32 m in let (lo, m2) = mb_get_u32 m1 in (hi * 2 ^ 32 + lo, m2)

-- The result is the destination, of which `n` bytes are written either way.
unfoldable pub mb_get_bytes : Mbuf → (ℕ → ℕ) → ℕ → (ℕ → ℕ) × Mbuf
mb_get_bytes m out n =
    let (room, m1) = rroom m n in
    if room
    then (copied out 0 (λ i. m1.p (m1.off + i)) n, record m1 { off = m1.off + n })
    else (copied out 0 (λ i. 0) n, m1)

-- The result is the length and the destination, which a failure leaves alone.
unfoldable pub mb_get_blob : Mbuf → (ℕ → ℕ) → ℕ → ℕ × (ℕ → ℕ) × Mbuf
mb_get_blob m out max =
    let (n, m1) = mb_get_u32 m in
    let (room, m2) = rroom m1 n in
    if m1.err || ltb max n
    then (0, out, failing m1)
    else if not room
    then (0, out, failing m2)
    else (n, copied out 0 (λ i. m2.p (m2.off + i)) n, record m2 { off = m2.off + n })

abbrev pub mb_remain : Mbuf → ℕ
mb_remain m = m.len - m.off

abbrev pub mb_ok : Mbuf → Bool
mb_ok m = not m.err
