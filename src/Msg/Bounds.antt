-- ===== src/Msg/Bounds.antt =====
-- our-course/labs/lab10-distributed/solutions/msg.c: writers stay within the storage, readers within
-- the message, and errors stick.
use ia_operating_systems.Base.{
  ℕ, ◌+◌, ◌/◌, ◌%◌, ◌^◌, ◌≤◌, ◌<◌, ◌≡◌, true, false, leb, if◌then◌else◌, arith, ◌∙◌, update,
}
use ia_operating_systems.Msg.{
  Mbuf, failing, wroom, rroom, put_byte, mb_put_u32, mb_put_u64, copied, mb_put_bytes, mb_put_blob,
}

-- No object in memory is longer than half of the address space.
abbrev pub max_size : ℕ
max_size = 2 ^ 63

-- The cursors are within the message, and the message within the storage.
pub record IsMbuf (m : Mbuf) : Type 0 where
  pub read_part : m.off ≤ m.len
  pub fits : m.len ≤ m.cap
  pub size : m.cap < max_size

pub wroom_lem :
    (m : Mbuf) (n : ℕ)
    → IsMbuf m
    → n < max_size
    → wroom m n ≡ (if leb (m.len + n) m.cap then (true, m) else (false, failing m))
unfolding wroom
wroom_lem m n v h = ground arith

pub rroom_lem :
    (m : Mbuf) (n : ℕ)
    → IsMbuf m
    → n < max_size
    → rroom m n ≡ (if leb (m.off + n) m.len then (true, m) else (false, failing m))
unfolding rroom
rroom_lem m n v h = ground arith

-- What an operation that appends may do: the bytes of the message stay, and so do those past the
-- storage; an error stays, and without one the message grew by `n`.
pub record Appends (m m' : Mbuf) (n : ℕ) : Type 0 where
  pub ok : IsMbuf m'
  pub same_storage : (m'.cap ≡ m.cap) × (m'.off ≡ m.off)
  pub kept : (i : ℕ) → i < m.len → m'.p i ≡ m.p i
  pub beyond : (i : ℕ) → m.cap ≤ i → m'.p i ≡ m.p i
  pub sticks : m.err ≡ true → m'.err ≡ true
  pub grown : m'.err ≡ false → m'.len ≡ m.len + n
  pub shrinks_never : m.len ≤ m'.len

-- The four bytes of a number, one after the other.
abbrev pub with_u32 : Mbuf → ℕ → Mbuf
with_u32 m v = record m {
  p =
      update
        (update (update (update m.p m.len (v / 2 ^ 24 % 256)) (m.len + 1) (v / 2 ^ 16 % 256))
          (m.len + 2) (v / 2 ^ 8 % 256))
        (m.len + 3) (v % 256);
  len = m.len + 4;
}

pub mb_put_u32_lem :
    (m : Mbuf) (v : ℕ)
    → IsMbuf m
    → mb_put_u32 m v ≡ (if leb (m.len + 4) m.cap then with_u32 m v else failing m)
unfolding mb_put_u32 put_byte
mb_put_u32_lem m v h = rw (wroom_lem m 4 h (omega arith)) (ground arith)

pub mb_put_bytes_lem :
    (m : Mbuf) (b : ℕ → ℕ) (n : ℕ)
    → IsMbuf m
    → n < max_size
    → mb_put_bytes m b n ≡ (
        if leb (m.len + n) m.cap
        then record m { p = copied m.p m.len b n; len = m.len + n }
        else failing m)
unfolding mb_put_bytes
mb_put_bytes_lem m b n h l = rw (wroom_lem m n h l) (ground arith)

-- A number is appended within the storage, or the error flag is set.
pub mb_put_u32-Appends : (m : Mbuf) (v : ℕ) → IsMbuf m → Appends m (mb_put_u32 m v) 4
mb_put_u32-Appends m v h = rw (mb_put_u32_lem m v h) (ground arith)

-- Bytes are appended within the storage, or the error flag is set.
pub mb_put_bytes-Appends :
    (m : Mbuf) (b : ℕ → ℕ) (n : ℕ) → IsMbuf m → n < max_size → Appends m (mb_put_bytes m b n) n
unfolding copied
mb_put_bytes-Appends m b n h l = rw (mb_put_bytes_lem m b n h l) (ground arith)

pub then-Appends :
    {m m' m'' : Mbuf} {k n : ℕ} → Appends m m' k → Appends m' m'' n → Appends m m'' (k + n)
then-Appends a b = record {
  ok = b.ok;
  same_storage = (b.same_storage.0 ∙ a.same_storage.0, b.same_storage.1 ∙ a.same_storage.1);
  kept = λ i lt. b.kept i (omega (arith, a.shrinks_never)) ∙ a.kept i lt;
  beyond = λ i le. b.beyond i (omega (arith, a.same_storage.0)) ∙ a.beyond i le;
  sticks = λ e. b.sticks (a.sticks e);
  grown = λ e. ground (arith, a.grown, b.grown, b.sticks);
  shrinks_never = omega (arith, a.shrinks_never, b.shrinks_never);
}

-- A blob is appended within the storage, length first, or the error flag is set.
pub mb_put_blob-Appends :
    (m : Mbuf) (b : ℕ → ℕ) (n : ℕ) → IsMbuf m → n < max_size → Appends m (mb_put_blob m b n) (4 + n)
unfolding mb_put_blob
mb_put_blob-Appends m b n h l =
    let first = mb_put_u32-Appends m (n % 2 ^ 32) h in
    then-Appends first (mb_put_bytes-Appends (mb_put_u32 m (n % 2 ^ 32)) b n first.ok l)

-- A long number is appended within the storage, or the error flag is set.
pub mb_put_u64-Appends : (m : Mbuf) (v : ℕ) → IsMbuf m → Appends m (mb_put_u64 m v) 8
unfolding mb_put_u64
mb_put_u64-Appends m v h =
    let first = mb_put_u32-Appends m (v / 2 ^ 32 % 2 ^ 32) h in
    then-Appends first
      (mb_put_u32-Appends (mb_put_u32 m (v / 2 ^ 32 % 2 ^ 32)) (v % 2 ^ 32) first.ok)
