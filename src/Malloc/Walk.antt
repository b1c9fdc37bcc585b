-- ===== src/Malloc/Walk.antt =====
-- our-course/labs/lab03-allocator/solutions/mymalloc.c: the heap checker finds no fault in a
-- well-formed heap, and the statistics add up its blocks.
use mathlib.Core.Bool.{true≢false}
use ia_operating_systems.Base.{
  ℕ, zero, suc, ◌+◌, ◌/◌, ◌%◌, ◌≤◌, ◌<◌, ◌≡◌, ◌⊎◌, inl, inr, true, false, not, ◌&&◌, ◌==◌, List, [],
  ◌∷◌, length, arith, refl, ap, sym, ◌∙◌, Bool-cases,
}
use ia_operating_systems.Malloc.State.{Heap, magic, fl_next, hdr_used}
use ia_operating_systems.Malloc.Check.{
  bad_size, missed_merge, phys_walk, bad_entry, list_walk, mym_check_heap,
}
use ia_operating_systems.Malloc.Tiles.{
  Block, taken, free, IsBlock, Seg, end, used, listed, Rep, Seg-end, Seg-length,
}
use ia_operating_systems.Malloc.RoundTrip.{starts_free, NoAdjacent}

abbrev pub frees : List Block → ℕ
frees [] = 0
frees (taken n ∷ xs) = frees xs
frees (free n ∷ xs) = suc (frees xs)

phys_walk-stop :
    (h : Heap) (steps p prev k : ℕ)
    → p ≡ h.arena + h.arena_len
    → phys_walk h steps p prev 0 k ≡ (0, k)
unfolding phys_walk
phys_walk-stop h zero p prev k e = ground arith
phys_walk-stop h (suc steps) p prev k e = ground arith

module _ (h : Heap) (steps p prev k n : ℕ) (low : h.arena ≤ p)
    (high : p + 16 + n ≤ h.arena + h.arena_len) where
  step_taken :
      IsBlock h.mem p n (magic + 1)
      → phys_walk h (suc steps) p prev 0 k ≡ phys_walk h steps (p + 16 + n) p 0 k
  unfolding phys_walk bad_size missed_merge
  step_taken v = rw (v.size, v.flags) (ground (arith, v.least, v.aligned))

  step_free :
      IsBlock h.mem p n magic
      → (h.coalesce_on && not (prev == 0) && not (hdr_used h prev)) ≡ false
      → phys_walk h (suc steps) p prev 0 k ≡ phys_walk h steps (p + 16 + n) p 0 (k + 1)
  unfolding phys_walk bad_size missed_merge
  step_free v fine = rw (v.size, v.flags, fine) (ground (arith, v.least, v.aligned))

-- The first walk goes through all blocks and finds no fault.
phys_walk_lem :
    (h : Heap) {l a : ℕ} {xs : List Block} (steps prev k : ℕ)
    → Seg h.mem 0 (h.arena + h.arena_len) l a xs
    → h.arena ≤ a
    → length xs ≤ steps
    → (h.coalesce_on ≡ true → NoAdjacent xs)
    → (starts_free xs ≡ true → (h.coalesce_on && not (prev == 0) && not (hdr_used h prev)) ≡ false)
    → phys_walk h steps a prev 0 k ≡ (0, k + frees xs)
phys_walk_lem h steps prev k (end f g) low room apart calm =
    phys_walk-stop h steps _ prev k g ∙ ap (λ (j : ℕ). (0, j)) (omega arith)
phys_walk_lem h zero prev k (used v s) low room apart calm = absurd (omega arith)
phys_walk_lem h zero prev k (listed v f s) low room apart calm = absurd (omega arith)
phys_walk_lem h {a = a} (suc steps) prev k (used {n = n} v s) low room apart calm =
    step_taken h steps a prev k n low (omega (arith, Seg-end s)) v
    ∙ phys_walk_lem h steps a k s (omega arith) (omega arith) apart (λ e. ground (arith, v.flags))
phys_walk_lem h {a = a} (suc steps) prev k (listed {n = n} {xs = xs} v f s) low room apart calm =
    step_free h steps a prev k n low (omega (arith, Seg-end s)) v (calm refl)
    ∙ phys_walk_lem h steps a (k + 1) s (omega arith) (omega arith) (λ e. (apart e).1)
        (λ e. next e (Bool-cases h.coalesce_on))
    ∙ ap (λ (j : ℕ). (0, j)) (omega arith)
  where
    next :
        starts_free xs ≡ true
        → (h.coalesce_on ≡ true) ⊎ (h.coalesce_on ≡ false)
        → (h.coalesce_on && not (a == 0) && not (hdr_used h a)) ≡ false
    next e (inl on) = absurd (true≢false (sym e ∙ (apart on).0))
    next e (inr off) = rw off refl

list_walk-stop : (h : Heap) (steps prev cur k : ℕ) → cur ≡ 0 → list_walk h steps prev cur k ≡ (0, k)
unfolding list_walk
list_walk-stop h zero prev cur k e = ground arith
list_walk-stop h (suc steps) prev cur k e = ground arith

list_walk-step :
    (h : Heap) (steps prev cur k n : ℕ)
    → IsBlock h.mem cur n magic
    → 32 ≤ cur
    → h.arena ≤ cur
    → cur + 16 ≤ h.arena + h.arena_len
    → cur % 16 ≡ 0
    → prev < cur
    → list_walk h (suc steps) prev cur k ≡ list_walk h steps cur (fl_next h cur) (k + 1)
unfolding list_walk bad_entry
list_walk-step h steps prev cur k n v pos low high aligned lt = rw (v.flags) (ground arith)

-- The second walk goes through the free blocks and finds no fault.
list_walk_lem :
    (h : Heap) {l a : ℕ} {xs : List Block} (steps prev k : ℕ)
    → Seg h.mem 0 (h.arena + h.arena_len) l a xs
    → 32 ≤ a
    → h.arena ≤ a
    → a % 16 ≡ 0
    → prev < a
    → length xs ≤ steps
    → list_walk h steps prev l k ≡ (0, k + frees xs)
list_walk_lem h steps prev k (end f g) pos low aligned lt room =
    list_walk-stop h steps prev _ k f ∙ ap (λ (j : ℕ). (0, j)) (omega arith)
list_walk_lem h steps prev k (used v s) pos low aligned lt room =
    list_walk_lem h steps prev k s (omega arith) (omega arith) (omega (arith, v.aligned))
      (omega arith) (omega arith)
list_walk_lem h zero prev k (listed v f s) pos low aligned lt room = absurd (omega arith)
list_walk_lem h {l} {a} (suc steps) prev k (listed {n = n} v f s) pos low aligned lt room =
    ap (λ c. list_walk h (suc steps) prev c k) f
    ∙ list_walk-step h steps prev a k n v pos low (omega (arith, Seg-end s)) aligned lt
    ∙ list_walk_lem h steps a (k + 1) s (omega arith) (omega arith) (omega (arith, v.aligned))
        (omega arith) (omega arith)
    ∙ ap (λ (j : ℕ). (0, j)) (omega arith)

-- The checker reports no fault and changes nothing on a heap that its blocks tile, with the free ones
-- listed by address and, where merging is on, no two of them side by side.
pub mym_check_heap_lem :
    {bs : List Block} (h : Heap)
    → Rep h bs
    → (h.coalesce_on ≡ true → NoAdjacent bs)
    → mym_check_heap h ≡ (0, h)
unfolding mym_check_heap
mym_check_heap_lem {bs} h v apart = rw (phys, listing) (ground (arith, v.low))
  where
    steps : ℕ
    steps = h.arena_len / 32 + 1

    room : length bs ≤ steps
    room = omega (arith, Seg-length v.tiles, Seg-end v.tiles)

    phys : phys_walk h steps h.arena 0 0 0 ≡ (0, frees bs)
    phys =
        phys_walk_lem h steps 0 0 v.tiles (omega arith) room apart (λ e. ground arith)
        ∙ ap (λ (j : ℕ). (0, j)) (omega arith)

    listing : list_walk h steps 0 h.free_head 0 ≡ (0, frees bs)
    listing =
        list_walk_lem h steps 0 0 v.tiles v.low (omega arith) v.aligned (omega (arith, v.low)) room
        ∙ ap (λ (j : ℕ). (0, j)) (omega arith)
