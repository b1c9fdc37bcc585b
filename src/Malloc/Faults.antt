-- ===== src/Malloc/Faults.antt =====
-- our-course/labs/lab03-allocator/solutions/mymalloc.c: the pointers that `myfree` turns down.
use ia_operating_systems.Base.{◌/◌, ◌^◌, ℕ, ◌+◌, ◌%◌, ◌<◌, ◌≡◌, ◌≢◌}
use ia_operating_systems.Malloc.State.{Heap}

-- What makes the header before a pointer none of a block: it is not aligned, has not the mark, or a size
-- that is zero, not a whole number of headers, or leads out of the arena.
pub data NotBlock (h : Heap) (b : ℕ) : Type 0 where
  unaligned : b % 16 ≢ 0 → NotBlock h b
  unmarked : h.mem (b + 8) / 2 ^ 32 ≢ 0x4d594d30 → NotBlock h b
  no_size : h.mem b ≡ 0 → NotBlock h b
  odd_size : h.mem b % 16 ≢ 0 → NotBlock h b
  past_end : h.arena + h.arena_len < b + 16 + h.mem b → NotBlock h b
