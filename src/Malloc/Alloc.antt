-- ===== src/Malloc/Alloc.antt =====
-- our-course/labs/lab03-allocator/solutions/mymalloc.c: `find_block` and `mymalloc`. The walk along
-- the free list recurs on fuel, `none` where it runs out.
use ia_operating_systems.Base.{
  ℕ, zero, suc, ◌+◌, ◌-◌, Bool, true, false, ◌&&◌, ◌||◌, ◌==◌, ltb, leb, if◌then◌else◌, Option,
  none, some,
}
use ia_operating_systems.Malloc.State.{
  Fit, first, best, worst, Heap, add64, magic, size_of, fl_next, store, fl_set_next, set_link,
  round_up, Env, arena_init,
}

abbrev pub is_first : Fit → Bool
is_first first = true
is_first _ = false

-- Whether a block of size `size` takes the place of the best one so far, of size `so_far`.
abbrev pub better : Fit → ℕ → ℕ → Bool
better first size so_far = false
better best size so_far = ltb size so_far
better worst size so_far = ltb so_far size

-- The rest of the loop of `find_block`, with its four variables. The result is the block and its
-- predecessor.
unfoldable pub find_from : Heap → ℕ → ℕ → ℕ → ℕ → ℕ → ℕ → Option (ℕ × ℕ)
find_from h need zero prev cur chosen chosen_prev =
    if cur == 0 then some (chosen, chosen_prev) else none
find_from h need (suc fuel) prev cur chosen chosen_prev =
    let fits = leb need (size_of h cur) in
    let take = fits && (chosen == 0 || better h.fit_policy (size_of h cur) (size_of h chosen)) in
    let rest =
      find_from h need fuel cur (fl_next h cur) (if take then cur else chosen)
        (if take then prev else chosen_prev) in
    if cur == 0
    then some (chosen, chosen_prev)
    else if fits && is_first h.fit_policy
    then some (cur, prev)
    else rest

unfoldable pub find_block : Heap → ℕ → Option (ℕ × ℕ)
find_block h need = find_from h need h.arena_len 0 h.free_head 0 0

-- The size that a request is rounded up to.
unfoldable pub need_of : ℕ → ℕ
need_of size =
    let need = round_up (if size == 0 then 1 else size) 16 in if ltb need 16 then 16 else need

-- The chosen block leaves the free list, and what it does not need of it becomes a block there.
unfoldable pub split_block : Heap → ℕ → ℕ → ℕ → Heap
split_block h need b prev =
    let rem = b + 16 + need in
    let h1 = store (store h rem (size_of h b - need - 16)) (rem + 8) magic in
    let h2 = store (fl_set_next h1 rem (fl_next h1 b)) b need in set_link h2 prev rem

unfoldable pub take_block : Heap → ℕ → ℕ → ℕ → Heap
take_block h need b prev =
    let h' =
      if leb (add64 (add64 need 16) 16) (size_of h b)
      then split_block h need b prev
      else set_link h prev (fl_next h b) in
    store h' (b + 8) (magic + 1)

-- `mymalloc` once there is an arena: the pointer, 0 where there is no room.
unfoldable pub malloc_in : ℕ → Heap → Option (ℕ × Heap)
malloc_in size h =
    let need = need_of size in
    let found = find_block h need in
    if ltb need size then some (0, h) else elim found [
      | none ↦ none
      | some (b, prev) ↦ if b == 0 then some (0, h) else some (b + 16, take_block h need b prev)
    ]

unfoldable pub mymalloc : Env → ℕ → Heap → Option (ℕ × Heap)
mymalloc env size h =
    if h.arena == 0
    then elim (arena_init env h) [ none ↦ some (0, h) | some h' ↦ malloc_in size h' ]
    else malloc_in size h
