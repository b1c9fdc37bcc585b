-- ===== src/Malloc/Place.antt =====
-- our-course/labs/lab03-allocator/solutions/mymalloc.c: `mymalloc` on a well-formed heap.
use ia_operating_systems.Base.{
  ℕ, ◌+◌, ◌%◌, ◌≤◌, ◌<◌, ◌≡◌, ◌≢◌, ◌⊎◌, inl, inr, some, List, ◌∷◌, ◌++◌, arith, sym, ◌∙◌, subst,
  dec_lt,
}
use ia_operating_systems.Malloc.State.{Heap, Env}
use ia_operating_systems.Malloc.Alloc.{find_block, need_of, take_block, malloc_in, mymalloc}
use ia_operating_systems.Malloc.Tiles.{Block, free, span, prev_of, Rep, InUse}
use ia_operating_systems.Malloc.Policy.{Choice, NoFit}
use ia_operating_systems.Malloc.Find.{find_block_lem}
use ia_operating_systems.Malloc.Take.{
  placed, SameStatics, take_block-SameStatics, Cut, cut, need_of_lem, take_block-Rep,
  take_block-frame, InUse-kept,
}

-- What `mymalloc` may answer on a heap of blocks `bs`: NULL, with the heap as it was, where no free
-- block has room or the request is too large to be rounded up; or the payload of the block of the
-- policy, with that block in use and what it does not need of it free.
pub data Served (size : ℕ) (h : Heap) (bs : List Block) : ℕ → Heap → Type 0 where
  refused : NoFit (need_of size) bs ⊎ (need_of size < size) → Served size h bs 0 h
  granted :
      {h' : Heap} {b q : ℕ}
      → (v : Choice h.fit_policy (need_of size) 0 h.arena bs b q) → size ≤ need_of size
      → Rep h' (v.before ++ (placed (need_of size) v.size ++ v.after))
      → ((i : ℕ) → InUse i h.arena bs → h'.mem i ≡ h.mem i)
      → SameStatics h h'
      → Served size h bs (b + 16) h'

grant :
    {h : Heap} {bs : List Block} {b q : ℕ} (size : ℕ)
    → Rep h bs
    → Choice h.fit_policy (need_of size) 0 h.arena bs b q
    → size ≤ need_of size
    → Served size h bs (b + 16) (take_block h (need_of size) b q)
grant {h} {bs} {b} {q} size v k enough =
    subst (λ (c : ℕ × ℕ). Served size h bs (b + 16) (take_block h need c.0 c.1))
      (λ i. (sym k.place i, sym k.prev i))
      (granted k enough (take_block-Rep need r c least.0 least.1 k.fits)
        (λ i u.
          InUse-kept need r c i (take_block-frame need r c least.0 k.fits)
            (subst (InUse i h.arena) k.blocks u))
        (take_block-SameStatics h need (h.arena + span k.before) (prev_of 0 h.arena k.before)))
  where
    need : ℕ
    need = need_of size

    least : (16 ≤ need) × (need % 16 ≡ 0)
    least = need_of_lem size

    r : Rep h (k.before ++ free k.size ∷ k.after)
    r = subst (Rep h) k.blocks v

    c : Cut h k.before k.size k.after (h.arena + span k.before)
    c = cut k.before k.after k.size r

started : (env : Env) (size : ℕ) (h : Heap) → h.arena ≢ 0 → mymalloc env size h ≡ malloc_in size h
unfolding mymalloc
started env size h e = ground arith

too_large : (size : ℕ) (h : Heap) → need_of size < size → malloc_in size h ≡ some (0, h)
unfolding malloc_in
too_large size h e = ground arith

no_room :
    (size : ℕ) (h : Heap) (b q : ℕ)
    → size ≤ need_of size
    → find_block h (need_of size) ≡ some (b, q)
    → b ≡ 0
    → malloc_in size h ≡ some (0, h)
unfolding malloc_in
no_room size h b q e f z = rw f (ground arith)

room :
    (size : ℕ) (h : Heap) (b q : ℕ)
    → size ≤ need_of size
    → find_block h (need_of size) ≡ some (b, q)
    → b ≢ 0
    → malloc_in size h ≡ some (b + 16, take_block h (need_of size) b q)
unfolding malloc_in
room size h b q e f z = rw f (ground arith)

-- On a heap that its blocks tile, with the free ones listed by address, `mymalloc` ends. It answers
-- NULL and changes nothing only where no free block is large enough or the request cannot be rounded
-- up; or it answers the payload of the block that the policy wants (the first, the smallest, the
-- largest that fits, the lowest of equals), the heap is tiled by the same blocks with that one in use
-- and a large enough remainder free, and the memory of the blocks in use stays.
pub mymalloc-Served :
    {bs : List Block} (env : Env) (size : ℕ) (h : Heap)
    → Rep h bs
    → (r : ℕ × Heap) × (mymalloc env size h ≡ some r) × Served size h bs r.0 r.1
mymalloc-Served {bs} env size h v = elim (dec_lt (need_of size) size) [
  | yes large ↦ ((0, h), start ∙ too_large size h large, refused (inr large))
  | no small ↦
      let ((b, q), f, o) = find_block_lem h (need_of size) v in
      elim o [
        | inl (z, none_fits) ↦
            ((0, h), start ∙ no_room size h b q (omega arith) f z, refused (inl none_fits))
        | inr k ↦ (
          (b + 16, take_block h (need_of size) b q),
          start ∙ room size h b q (omega arith) f (λ z. omega (arith, k.place, v.low)),
          grant size v k (omega arith),
        )
      ]
]
  where
    start : mymalloc env size h ≡ malloc_in size h
    start = started env size h (λ z. omega (arith, v.low))
