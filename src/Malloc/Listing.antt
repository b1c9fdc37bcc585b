-- ===== src/Malloc/Listing.antt =====
-- our-course/labs/lab03-allocator/solutions/mymalloc.c: a block in use joins the free list.
use ia_operating_systems.Base.{
  ℕ, zero, suc, ◌+◌, ◌≤◌, ◌<◌, ◌≡◌, ◌≢◌, ◌⊎◌, inl, inr, some, List, ◌∷◌, ◌++◌, length, arith, refl,
  ap, sym, ◌∙◌, subst,
}
use ia_operating_systems.Malloc.State.{Heap, magic, size_of, fl_next, store, fl_set_next, set_link}
use ia_operating_systems.Malloc.Free.{find_place}
use ia_operating_systems.Malloc.Tiles.{
  Block, taken, free, span, IsBlock, Seg, end, used, listed, prev_of, Rep, Seg-end, Seg-split,
  prev_of-range, Seg-frame, InUse-split, InUse-range, InUse-prev,
}
use ia_operating_systems.Malloc.Take.{SameStatics, Linked, SameBut, spliced}
use ia_operating_systems.Malloc.Absorb.{Keeps}

pub find_place-stop :
    (h : Heap) (b fuel p cur : ℕ)
    → (cur ≡ 0) ⊎ (b ≤ cur)
    → find_place h b fuel p cur ≡ some (p, cur)
unfolding find_place
find_place-stop h b zero p cur stop = ground arith
find_place-stop h b (suc fuel) p cur stop = ground arith

pub find_place-step :
    (h : Heap) (b fuel p cur : ℕ)
    → cur ≢ 0
    → cur < b
    → find_place h b (suc fuel) p cur ≡ find_place h b fuel cur (fl_next h cur)
unfolding find_place
find_place-step h b fuel p cur nz lt = ground arith

-- The walk to the place of a block ends at the last free block before it.
pub find_place_lem :
    (h : Heap) (b : ℕ) {m : ℕ} (fuel : ℕ) {l a : ℕ} {xs : List Block} (p : ℕ)
    → Seg h.mem m b l a xs
    → (m ≡ 0) ⊎ (b ≤ m)
    → length xs ≤ fuel
    → 0 < a
    → find_place h b fuel p l ≡ some (prev_of p a xs, m)
find_place_lem h b fuel p (end f g) stop room pos =
    find_place-stop h b fuel p _ (subst (λ k. (k ≡ 0) ⊎ (b ≤ k)) (sym f) stop)
    ∙ ap (λ k. some (p, k)) f
find_place_lem h b fuel p (used v s) stop room pos =
    find_place_lem h b fuel p s stop (omega arith) (omega arith)
find_place_lem h b zero p (listed v f s) stop room pos = absurd (omega arith)
find_place_lem h b (suc fuel) {l = l} {a} p (listed v f s) stop room pos =
    ap (find_place h b (suc fuel) p) f
    ∙ find_place-step h b fuel p a (λ z. omega arith) (omega (arith, Seg-end s, v.least))
    ∙ find_place_lem h b fuel a s stop (omega arith) (omega arith)

-- A well-formed heap cut at a block in use.
pub record CutUsed (h : Heap) (xs : List Block) (n : ℕ) (ys : List Block) (b m : ℕ) : Type 0 where
  pub before : Seg h.mem m b h.free_head h.arena xs
  pub block : IsBlock h.mem b n (magic + 1)
  pub after : Seg h.mem 0 (h.arena + h.arena_len) m (b + 16 + n) ys

pub cut_used :
    {h : Heap} (xs ys : List Block) (n : ℕ)
    → Rep h (xs ++ taken n ∷ ys)
    → (m : ℕ) × CutUsed h xs n ys (h.arena + span xs) m
cut_used {h} xs ys n v = let (m, s, t) = Seg-split xs (taken n ∷ ys) v.tiles in (m, from m s t)
  where
    from :
        (m : ℕ)
        → Seg h.mem m (h.arena + span xs) h.free_head h.arena xs
        → Seg h.mem 0 (h.arena + h.arena_len) m (h.arena + span xs) (taken n ∷ ys)
        → CutUsed h xs n ys (h.arena + span xs) m
    from m s (used block rest) = record { before = s; block = block; after = rest }

-- The block on the list, before any merge.
abbrev pub listed_heap : Heap → ℕ → ℕ → ℕ → Heap
listed_heap h b p m = set_link (fl_set_next (store h (b + 8) magic) b m) p b

pub record Lists (b n p m : ℕ) (h h' : Heap) : Type 0 where
  pub whole : (h'.mem b ≡ n) × (h'.mem (b + 8) ≡ magic) × (h'.mem (b + 16) ≡ m)
  pub link : Linked p b h h'
  pub frame : SameBut b n p h.mem h'.mem
  pub statics : SameStatics h h'

pub listed_heap-Lists :
    (h : Heap) (b n p m : ℕ)
    → size_of h b ≡ n
    → 16 ≤ n
    → p + 32 ≤ b
    → Lists b n p m h (listed_heap h b p m)
listed_heap-Lists h b n p m e least apart = ground arith

module _ {h : Heap} {xs ys : List Block} {n b m : ℕ} (v : Rep h (xs ++ taken n ∷ ys))
    (c : CutUsed h xs n ys b m) where
  abbrev prev : ℕ
  prev = prev_of 0 h.arena xs

  apart : prev + 32 ≤ b
  apart = elim (prev_of-range 0 c.before) [
    | inl e ↦ omega (arith, v.low, Seg-end c.before)
    | inr (lo, hi) ↦ hi
  ]

  pub lists : Lists b n prev m h (listed_heap h b prev m)
  lists = listed_heap-Lists h b n prev m c.block.size c.block.least apart

  -- The list with the block on it.
  pub listed-Keeps : Keeps h (xs ++ free n ∷ ys) (listed_heap h b prev m) (xs ++ free n ∷ ys)
  listed-Keeps = record {
    heap = spliced b n v.low v.aligned v.high c.before lists.statics lists.link lists.frame (
        listed
          (record {
            size = lists.whole.0;
            flags = lists.whole.1;
            least = c.block.least;
            aligned = c.block.aligned;
          })
          refl
          (subst (λ k. Seg (listed_heap h b prev m).mem 0 (h.arena + h.arena_len) k (b + 16 + n) ys)
            (sym lists.whole.2)
            (Seg-frame c.after (λ i le lt. lists.frame i (inr le) (omega (arith, apart))))));
    statics = lists.statics;
    kept = λ i u. elim (InUse-split i (free n ∷ ys) c.before u) [
      | inl w ↦ lists.frame i (inl (InUse-range i c.before w).1) (InUse-prev i 0 c.before v.low w)
      | inr w ↦
          lists.frame i (inr (omega (arith, InUse-range i c.after w)))
            (omega (arith, InUse-range i c.after w, apart))
    ];
  }
