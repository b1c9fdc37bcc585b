-- ===== src/Malloc/Valid.antt =====
-- our-course/labs/lab03-allocator/solutions/mymalloc.c: what the heap checker tests.
use ia_operating_systems.Base.{◌/◌, ◌^◌, ℕ, suc, ◌+◌, ◌%◌, ◌≤◌, ◌<◌, ◌≡◌, ◌≢◌, true, false, arith}
use ia_operating_systems.Malloc.State.{Heap, size_of, fl_next, hdr_ok, hdr_used}
use ia_operating_systems.Malloc.Check.{bad_size, bad_entry}

-- The upper half of the flags is the mark, and their lowest bit tells whether the block is in use.
abbrev pub IsMarked : Heap → ℕ → Type 0
IsMarked h p = h.mem (p + 8) / 2 ^ 32 ≡ 0x4d594d30

abbrev pub IsUsed : Heap → ℕ → Type 0
IsUsed h p = h.mem (p + 8) % 2 ≡ 1

abbrev pub IsFree : Heap → ℕ → Type 0
IsFree h p = h.mem (p + 8) % 2 ≡ 0

pub hdr_ok-IsMarked : (h : Heap) (p : ℕ) → hdr_ok h p ≡ true → IsMarked h p
hdr_ok-IsMarked h p e = ground arith

pub IsMarked-hdr_ok : (h : Heap) (p : ℕ) → IsMarked h p → hdr_ok h p ≡ true
IsMarked-hdr_ok h p e = ground arith

pub hdr_used-IsUsed : (h : Heap) (p : ℕ) → hdr_used h p ≡ true → IsUsed h p
hdr_used-IsUsed h p e = ground arith

pub IsUsed-hdr_used : (h : Heap) (p : ℕ) → IsUsed h p → hdr_used h p ≡ true
IsUsed-hdr_used h p e = ground arith

pub hdr_used-IsFree : (h : Heap) (p : ℕ) → hdr_used h p ≡ false → IsFree h p
hdr_used-IsFree h p e = ground arith

pub IsFree-hdr_used : (h : Heap) (p : ℕ) → IsFree h p → hdr_used h p ≡ false
IsFree-hdr_used h p e = ground arith

-- A header in the arena with the mark, and with a size that is a positive number of 16 bytes and ends in
-- the arena.
pub record IsHeader (h : Heap) (p : ℕ) : Type 0 where
  pub mark : IsMarked h p
  pub positive : size_of h p ≢ 0
  pub whole : size_of h p % 16 ≡ 0
  pub inside : p + 16 + size_of h p ≤ h.arena + h.arena_len

-- Blocks fill the arena from `p` on, with `k` free ones among them, and with no two free ones side by
-- side where merging is on; `prev` is the block before, 0 for none.
pub data Filled (h : Heap) : ℕ → ℕ → ℕ → Type 0 where
  filled_end : {p prev : ℕ} → p ≡ h.arena + h.arena_len → Filled h p prev 0
  used_block :
      {p prev k : ℕ}
      → IsHeader h p
      → IsUsed h p
      → Filled h (p + 16 + size_of h p) p k
      → Filled h p prev k
  free_block :
      {p prev k : ℕ}
      → IsHeader h p
      → IsFree h p
      → (h.coalesce_on ≡ true → prev ≢ 0 → IsUsed h prev)
      → Filled h (p + 16 + size_of h p) p k
      → Filled h p prev (suc k)

-- An entry of the free list after `prev`: the aligned header of a free block in the arena, further on.
pub record IsEntry (h : Heap) (prev cur : ℕ) : Type 0 where
  pub low : h.arena ≤ cur
  pub high : cur + 16 ≤ h.arena + h.arena_len
  pub aligned : cur % 16 ≡ 0
  pub mark : IsMarked h cur
  pub unused : IsFree h cur
  pub later : prev ≢ 0 → prev < cur

-- The list from `cur` on has `k` entries and ends.
pub data Chained (h : Heap) : ℕ → ℕ → ℕ → Type 0 where
  chain_end : {prev : ℕ} → Chained h prev 0 0
  entry :
      {prev cur k : ℕ}
      → cur ≢ 0
      → IsEntry h prev cur
      → Chained h cur (fl_next h cur) k
      → Chained h prev cur (suc k)

-- The blocks fill the arena, and the free list has as many entries as there are free blocks.
pub record Valid (h : Heap) : Type 0 where
  pub frees : ℕ
  pub blocks : Filled h h.arena 0 frees
  pub list : Chained h 0 h.free_head frees

pub bad_size-IsHeader : (h : Heap) (p : ℕ) → hdr_ok h p ≡ true → bad_size h p ≡ false → IsHeader h p
unfolding bad_size
bad_size-IsHeader h p m b = record {
  mark = hdr_ok-IsMarked h p m;
  positive = ground arith;
  whole = ground arith;
  inside = ground arith;
}

pub IsHeader-bad_size : (h : Heap) (p : ℕ) → h.arena ≤ p → IsHeader h p → bad_size h p ≡ false
unfolding bad_size
IsHeader-bad_size h p low v = ground (arith, v.positive, v.whole, v.inside)

pub bad_entry-IsEntry :
    (h : Heap) (prev cur : ℕ) → bad_entry h prev cur ≡ false → IsEntry h prev cur
unfolding bad_entry
bad_entry-IsEntry h prev cur e = record {
  low = ground arith;
  high = ground arith;
  aligned = ground arith;
  mark = hdr_ok-IsMarked h cur (ground arith);
  unused = hdr_used-IsFree h cur (ground arith);
  later = λ ne. ground arith;
}

pub IsEntry-bad_entry :
    (h : Heap) (prev cur : ℕ) → IsEntry h prev cur → bad_entry h prev cur ≡ false
unfolding bad_entry
IsEntry-bad_entry h prev cur v =
    let marked = IsMarked-hdr_ok h cur v.mark in
    let unused = IsFree-hdr_used h cur v.unused in ground (arith, v.low, v.high, v.aligned, v.later)
