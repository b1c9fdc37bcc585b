-- ===== src/Msg/RoundTrip.antt =====
-- our-course/labs/lab10-distributed/solutions/msg.c: what is written is read back, and a reader of
-- any message stays within it.
use ia_operating_systems.Base.{
  ℕ, ◌+◌, ◌-◌, ◌*◌, ◌/◌, ◌%◌, ◌^◌, ◌≤◌, ◌<◌, ◌≡◌, false, arith, refl, ap, ap₂, sym, ◌∙◌, fun_ext,
  dec_lt, subst,
}
use ia_operating_systems.Msg.{
  Mbuf, mb_rinit, mb_put_u32, mb_put_u64, copied, mb_put_bytes, mb_put_blob, mb_get_u32, mb_get_u64,
  mb_get_blob,
}
use ia_operating_systems.Msg.Bounds.{
  max_size, IsMbuf, rroom_lem, with_u32, mb_put_u32_lem, mb_put_bytes_lem, Appends,
  mb_put_u32-Appends,
}

-- A message as its receiver has it, with the cursor at a position.
abbrev pub reader : Mbuf → ℕ → Mbuf
reader m off = record (mb_rinit m.p m.len) { off = off }

-- The finished message `final` begins with the message `m`.
pub record Extends (m final : Mbuf) : Type 0 where
  pub kept : (i : ℕ) → i < m.len → final.p i ≡ m.p i
  pub longer : m.len ≤ final.len
  pub size : final.len < max_size

reader-IsMbuf : (m : Mbuf) (off : ℕ) → off ≤ m.len → m.len < max_size → IsMbuf (reader m off)
reader-IsMbuf m off h l = record { read_part = h; fits = omega arith; size = l }

four_bytes :
    (v : ℕ)
    → v < 2 ^ 32
    → v / 2 ^ 24 % 256 * 2 ^ 24 + v / 2 ^ 16 % 256 * 2 ^ 16 + v / 2 ^ 8 % 256 * 2 ^ 8 + v % 256 ≡ v
four_bytes v h = omega arith

mb_get_u32_lem :
    (r : Mbuf)
    → IsMbuf r
    → r.off + 4 ≤ r.len
    → mb_get_u32 r ≡ (
      r.p r.off * 2 ^ 24 + r.p (r.off + 1) * 2 ^ 16 + r.p (r.off + 2) * 2 ^ 8 + r.p (r.off + 3),
      record r { off = r.off + 4 },
    )
unfolding mb_get_u32
mb_get_u32_lem r v h = rw (rroom_lem r 4 v (omega arith)) (ground arith)

-- A 32-bit number that was written with room for it is read back from wherever the finished message
-- has it.
pub mb_get_u32-mb_put_u32 :
    {final : Mbuf} (m : Mbuf) (v : ℕ)
    → IsMbuf m
    → m.len + 4 ≤ m.cap
    → v < 2 ^ 32
    → Extends (mb_put_u32 m v) final
    → mb_get_u32 (reader final m.len) ≡ (v, reader final (m.len + 4))
mb_get_u32-mb_put_u32 {final} m v h room small x =
    mb_get_u32_lem (reader final m.len) (reader-IsMbuf final m.len (omega (arith, longer)) x.size)
      longer
    ∙ ap (λ k. (k, reader final (m.len + 4)))
        (omega (arith, first, second, third, fourth, four_bytes v small))
  where
    written : mb_put_u32 m v ≡ with_u32 m v
    written = mb_put_u32_lem m v h ∙ ground arith

    longer : m.len + 4 ≤ final.len
    longer = omega (arith, ap (λ b. b.len) written, x.longer)

    byte : (i : ℕ) → i < m.len + 4 → final.p i ≡ (with_u32 m v).p i
    byte i lt = x.kept i (omega (arith, ap (λ b. b.len) written)) ∙ ap (λ b. b.p i) written

    first : final.p m.len ≡ v / 2 ^ 24 % 256
    first = byte m.len (omega arith) ∙ ground arith

    second : final.p (m.len + 1) ≡ v / 2 ^ 16 % 256
    second = byte (m.len + 1) (omega arith) ∙ ground arith

    third : final.p (m.len + 2) ≡ v / 2 ^ 8 % 256
    third = byte (m.len + 2) (omega arith) ∙ ground arith

    fourth : final.p (m.len + 3) ≡ v % 256
    fourth = byte (m.len + 3) (omega arith) ∙ ground arith

Extends-Appends : {m m' final : Mbuf} {n : ℕ} → Appends m m' n → Extends m' final → Extends m final
Extends-Appends a x = record {
  kept = λ i lt. x.kept i (omega (arith, a.shrinks_never)) ∙ a.kept i lt;
  longer = omega (arith, a.shrinks_never, x.longer);
  size = x.size;
}

-- A 64-bit number that was written with room for it is read back.
pub mb_get_u64-mb_put_u64 :
    {final : Mbuf} (m : Mbuf) (v : ℕ)
    → IsMbuf m
    → m.len + 8 ≤ m.cap
    → v < 2 ^ 64
    → Extends (mb_put_u64 m v) final
    → mb_get_u64 (reader final m.len) ≡ (v, reader final (m.len + 8))
unfolding mb_put_u64 mb_get_u64
mb_get_u64-mb_put_u64 {final} m v h room small x =
    rw high (rw low (ap₂ (λ k off. (k, reader final off)) (omega arith) (omega arith)))
  where
    m1 : Mbuf
    m1 = with_u32 m (v / 2 ^ 32 % 2 ^ 32)

    written : mb_put_u32 m (v / 2 ^ 32 % 2 ^ 32) ≡ m1
    written = mb_put_u32_lem m (v / 2 ^ 32 % 2 ^ 32) h ∙ ground arith

    m1-IsMbuf : IsMbuf m1
    m1-IsMbuf = record { read_part = omega (arith, h.read_part); fits = omega arith; size = h.size }

    x1 : Extends (mb_put_u32 m1 (v % 2 ^ 32)) final
    x1 = subst (λ b. Extends (mb_put_u32 b (v % 2 ^ 32)) final) written x

    high : mb_get_u32 (reader final m.len) ≡ (v / 2 ^ 32 % 2 ^ 32, reader final (m.len + 4))
    high = mb_get_u32-mb_put_u32 m (v / 2 ^ 32 % 2 ^ 32) h (omega arith) (omega arith) (
        subst (λ b. Extends b final) (sym written)
          (Extends-Appends (mb_put_u32-Appends m1 (v % 2 ^ 32) m1-IsMbuf) x1))

    low : mb_get_u32 (reader final (m.len + 4)) ≡ (v % 2 ^ 32, reader final (m.len + 4 + 4))
    low = mb_get_u32-mb_put_u32 m1 (v % 2 ^ 32) m1-IsMbuf (omega arith) (omega arith) x1

copied-below :
    (to : ℕ → ℕ) (at : ℕ) (from : ℕ → ℕ) (n i : ℕ) → i < at → copied to at from n i ≡ to i
unfolding copied
copied-below to at from n i h = ground arith

copied-inside :
    (to : ℕ → ℕ) (at : ℕ) (from : ℕ → ℕ) (n k : ℕ) → k < n → copied to at from n (at + k) ≡ from k
unfolding copied
copied-inside to at from n k h = ground (arith, ap from back)
  where
    back : at + k - at ≡ k
    back = omega arith

copied-congr :
    (to from from' : ℕ → ℕ) (n : ℕ)
    → ((k : ℕ) → k < n → from k ≡ from' k)
    → (i : ℕ) → copied to 0 from n i ≡ copied to 0 from' n i
unfolding copied
copied-congr to from from' n h i = elim (dec_lt i n) [
  | yes inside ↦ ground (arith, h i)
  | no outside ↦ ground arith
]

mb_get_blob_lem :
    (r : Mbuf) (out : ℕ → ℕ) (max n off : ℕ)
    → mb_get_u32 r ≡ (n, record r { off = off })
    → IsMbuf (record r { off = off })
    → r.err ≡ false
    → n ≤ max
    → off + n ≤ r.len
    → mb_get_blob r out max ≡ (n, copied out 0 (λ i. r.p (off + i)) n, record r { off = off + n })
unfolding mb_get_blob
mb_get_blob_lem r out max n off e v ok le room =
    rw e
      (rw (rroom_lem (record r { off = off }) n v (omega (arith, v.fits, v.size))) (ground arith))

-- A blob that was written with room for it is read back, wherever the destination has room for it.
pub mb_get_blob-mb_put_blob :
    {final : Mbuf} (m : Mbuf) (b out : ℕ → ℕ) (n max : ℕ)
    → IsMbuf m
    → m.len + 4 + n ≤ m.cap
    → n < 2 ^ 32
    → n ≤ max
    → Extends (mb_put_blob m b n) final
    → mb_get_blob (reader final m.len) out max ≡ (n, copied out 0 b n, reader final (m.len + 4 + n))
unfolding mb_put_blob
mb_get_blob-mb_put_blob {final} m b out n max h room small le x =
    mb_get_blob_lem (reader final m.len) out max n (m.len + 4) length
      (reader-IsMbuf final (m.len + 4) (omega (arith, longer)) x.size) refl le longer
    ∙ ap (λ (o : ℕ → ℕ). (n, o, reader final (m.len + 4 + n))) (fun_ext λ i. same i)
  where
    m1 : Mbuf
    m1 = with_u32 m n

    plain : mb_put_u32 m n ≡ m1
    plain = mb_put_u32_lem m n h ∙ ground arith

    written : mb_put_u32 m (n % 2 ^ 32) ≡ m1
    written = ap (mb_put_u32 m) (omega arith) ∙ plain

    m1-IsMbuf : IsMbuf m1
    m1-IsMbuf = record { read_part = omega (arith, h.read_part); fits = omega arith; size = h.size }

    m2 : Mbuf
    m2 = record m1 { p = copied m1.p m1.len b n; len = m1.len + n }

    stored : mb_put_bytes m1 b n ≡ m2
    stored = mb_put_bytes_lem m1 b n m1-IsMbuf (omega arith) ∙ ground arith

    x2 : Extends m2 final
    x2 = subst (λ k. Extends k final) (ap (λ k. mb_put_bytes k b n) written ∙ stored) x

    longer : m.len + 4 + n ≤ final.len
    longer = x2.longer

    length : mb_get_u32 (reader final m.len) ≡ (n, reader final (m.len + 4))
    length = mb_get_u32-mb_put_u32 m n h (omega arith) small (
        subst (λ k. Extends k final) (sym plain)
          (record {
            kept = λ i lt. x2.kept i (omega arith) ∙ before i lt;
            longer = omega (arith, longer);
            size = x.size;
          }))
      where
        before : (i : ℕ) → i < m.len + 4 → copied m1.p m1.len b n i ≡ m1.p i
        before i lt = copied-below m1.p m1.len b n i lt

    same : (i : ℕ) → copied out 0 (λ k. final.p (m.len + 4 + k)) n i ≡ copied out 0 b n i
    same i =
        copied-congr out (λ k. final.p (m.len + 4 + k)) b n
          (λ k lt. x2.kept (m.len + 4 + k) (omega arith) ∙ copied-inside m1.p m1.len b n k lt) i
