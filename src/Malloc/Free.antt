-- ===== src/Malloc/Free.antt =====
-- our-course/labs/lab03-allocator/solutions/mymalloc.c: `myfree`. The walk along the free list recurs
-- on fuel, `none` where it runs out.
use ia_operating_systems.Base.{
  ℕ, zero, suc, ◌+◌, ◌-◌, ◌%◌, Bool, not, ◌||◌, ◌==◌, ltb, leb, if◌then◌else◌, Option, none, some,
}
use ia_operating_systems.Malloc.State.{
  Heap, not_ours, not_a_block, double_free, add64, magic, size_of, fl_next, hdr_ok, hdr_used, store,
  fl_set_next, set_link, phys_next, fail,
}

-- Where a block belongs on the list: the last block before it and the first one from it on.
unfoldable pub find_place : Heap → ℕ → ℕ → ℕ → ℕ → Option (ℕ × ℕ)
find_place h b zero prev cur = if cur == 0 || leb b cur then some (prev, cur) else none
find_place h b (suc fuel) prev cur =
    let rest = find_place h b fuel cur (fl_next h cur) in
    if cur == 0 || leb b cur then some (prev, cur) else rest

-- Block `b` swallows the free block `c`, if that comes right after it in memory.
unfoldable pub absorb : Heap → ℕ → ℕ → Heap
absorb h b c =
    let h' = store h b (add64 (size_of h b) (add64 16 (size_of h c))) in
    if phys_next h b == c then fl_set_next h' b (fl_next h' c) else h

unfoldable pub insert_block : Heap → ℕ → ℕ → ℕ → Heap
insert_block h b prev cur =
    let h1 = set_link (fl_set_next h b cur) prev b in
    let h2 = if cur == 0 then h1 else absorb h1 b cur in
    if not h.coalesce_on then h1 else if prev == 0 then h2 else absorb h2 prev b

-- Whether what lies before the pointer is no header of a block that ends in the arena.
unfoldable pub no_block : Heap → ℕ → Bool
no_block h b =
    not (b % 16 == 0)
    || not (hdr_ok h b)
    || size_of h b == 0
    || not (size_of h b % 16 == 0)
    || ltb (h.arena + h.arena_len) (b + 16 + size_of h b)

-- The block on the list at the place that was found.
abbrev pub at_place : Heap → ℕ → Option (ℕ × ℕ) → Option Heap
at_place h b none = none
at_place h b (some (prev, cur)) = some (insert_block h b prev cur)

unfoldable pub release_block : Heap → ℕ → Option Heap
release_block h b =
    let h' = store h (b + 8) magic in at_place h' b (find_place h' b h.arena_len 0 h.free_head)

unfoldable pub myfree : ℕ → Heap → Option Heap
myfree ptr h =
    let b = ptr - 16 in
    let done = release_block h b in
    if ptr == 0
    then some h
    else if h.arena == 0 || leb ptr h.arena || leb (h.arena + h.arena_len) ptr
    then some (fail h not_ours)
    else if no_block h b
    then some (fail h not_a_block)
    else if not (hdr_used h b)
    then some (fail h double_free)
    else done
