-- ===== src/Malloc/Check.antt =====
-- our-course/labs/lab03-allocator/solutions/mymalloc.c: the statistics and the heap checker. The
-- checker bounds its own walks; the walk of the statistics recurs on fuel, `none` where it runs out.
use ia_operating_systems.Base.{
  ℕ, zero, suc, ◌+◌, ◌-◌, ◌/◌, ◌%◌, Bool, not, ◌&&◌, ◌||◌, ◌==◌, ltb, leb, if◌then◌else◌, Option,
  none, some,
}
use ia_operating_systems.Malloc.State.{
  Heap, corrupt, add64, size_of, fl_next, hdr_ok, hdr_used, phys_next, fail,
}

pub record Stats : Type 0 where
  pub arena_bytes : ℕ
  pub header_bytes : ℕ
  pub bytes_in_use : ℕ
  pub free_bytes : ℕ
  pub free_blocks : ℕ
  pub largest_free_block : ℕ

-- One round of the loop of `mym_get_stats`.
unfoldable pub count_block : Heap → ℕ → Stats → Stats
count_block h b out =
    let n = size_of h b in
    if hdr_used h b
    then record out {
      header_bytes = add64 out.header_bytes 16;
      bytes_in_use = add64 out.bytes_in_use n;
    }
    else record out {
      header_bytes = add64 out.header_bytes 16;
      free_bytes = add64 out.free_bytes n;
      free_blocks = add64 out.free_blocks 1;
      largest_free_block = if ltb out.largest_free_block n then n else out.largest_free_block;
    }

unfoldable pub stats_from : Heap → ℕ → ℕ → Stats → Option Stats
stats_from h zero b out = if b == 0 then some out else none
stats_from h (suc fuel) b out =
    let rest = stats_from h fuel (phys_next h b) (count_block h b out) in
    if b == 0 then some out else rest

abbrev pub no_stats : Stats
no_stats = record {
  arena_bytes = 0;
  header_bytes = 0;
  bytes_in_use = 0;
  free_bytes = 0;
  free_blocks = 0;
  largest_free_block = 0;
}

unfoldable pub mym_get_stats : Heap → Option Stats
mym_get_stats h =
    let out = stats_from h h.arena_len h.arena (record no_stats { arena_bytes = h.arena_len }) in
    if h.arena == 0 then some no_stats else out

-- Whether the block at `p` has a size that cannot be.
unfoldable pub bad_size : Heap → ℕ → Bool
bad_size h p =
    size_of h p == 0
    || not (size_of h p % 16 == 0)
    || ltb h.arena_len (size_of h p)
    || ltb (h.arena + h.arena_len) (p + 16 + size_of h p)

-- A free block right after another one, where they should have been merged.
unfoldable pub missed_merge : Heap → ℕ → ℕ → Bool
missed_merge h prev p =
    not (hdr_used h p) && h.coalesce_on && not (prev == 0) && not (hdr_used h prev)

-- The first walk of `mym_check_heap`, with the steps left: the faults and the free blocks found.
unfoldable pub phys_walk : Heap → ℕ → ℕ → ℕ → ℕ → ℕ → ℕ × ℕ
phys_walk h zero p prev bad free = (if ltb p (h.arena + h.arena_len) then bad + 1 else bad, free)
phys_walk h (suc steps) p prev bad free =
    let rest =
      phys_walk h steps (p + 16 + size_of h p) p (if missed_merge h prev p then bad + 1 else bad)
        (if hdr_used h p then free else free + 1) in
    if leb (h.arena + h.arena_len) p
    then (bad, free)
    else if ltb (h.arena + h.arena_len - p) 16
    then (bad + 1, free)
    else if not (hdr_ok h p)
    then (bad + 1, free)
    else if bad_size h p
    then (bad + 1, free)
    else rest

-- A list entry that is outside the arena, not aligned, no free block, or not past its predecessor.
unfoldable pub bad_entry : Heap → ℕ → ℕ → Bool
bad_entry h prev cur =
    ltb cur h.arena
    || ltb (h.arena + h.arena_len) (cur + 16)
    || not (cur % 16 == 0)
    || not (hdr_ok h cur)
    || hdr_used h cur
    || (not (prev == 0) && leb cur prev)

-- The second walk, along the free list.
unfoldable pub list_walk : Heap → ℕ → ℕ → ℕ → ℕ → ℕ × ℕ
list_walk h zero prev cur free = (if cur == 0 then 0 else 1, free)
list_walk h (suc steps) prev cur free =
    let rest = list_walk h steps cur (fl_next h cur) (free + 1) in
    if cur == 0 then (0, free) else if bad_entry h prev cur then (1, free) else rest

abbrev pub report : Heap → ℕ → ℕ × Heap
report h bad = (bad, if bad == 0 then h else fail h corrupt)

-- The number of faults, which the last error records.
unfoldable pub mym_check_heap : Heap → ℕ × Heap
mym_check_heap h =
    let steps = h.arena_len / 32 + 1 in
    let (bad, phys_free) = phys_walk h steps h.arena 0 0 0 in
    let (bad_list, list_free) = list_walk h steps 0 h.free_head 0 in
    if h.arena == 0
    then (0, h)
    else if not (bad == 0)
    then report h bad
    else report h (if list_free == phys_free then bad_list else bad_list + 1)
