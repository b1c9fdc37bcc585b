-- ===== src/Malloc/Take.antt =====
-- our-course/labs/lab03-allocator/solutions/mymalloc.c: `take_block` on a well-formed heap.
use ia_operating_systems.Base.{
  ℕ, ◌+◌, ◌-◌, ◌%◌, ◌^◌, ◌≤◌, ◌<◌, ◌≡◌, ◌≢◌, ◌⊎◌, inl, inr, ◌==◌, leb, if◌then◌else◌, List, [], ◌∷◌,
  ◌++◌, arith, refl, ap, sym, ◌∙◌, subst, dec_le,
}
use ia_operating_systems.Malloc.State.{Heap, magic, size_of, round_up}
use ia_operating_systems.Malloc.Alloc.{need_of, split_block, take_block}
use ia_operating_systems.Malloc.Tiles.{
  Block, taken, free, span, IsBlock, Seg, used, listed, prev_of, Rep, Seg-end, Seg-split,
  prev_of-range, Seg-frame, Seg-splice, InUse, InUse-split, InUse-range, InUse-prev,
}

-- What becomes of a free block of size `n` that `need` bytes are taken from.
abbrev pub placed : ℕ → ℕ → List Block
placed need n = if leb (need + 32) n then taken need ∷ free (n - need - 16) ∷ [] else taken n ∷ []

pub placed_room :
    (need n : ℕ) → need + 32 ≤ n → placed need n ≡ taken need ∷ free (n - need - 16) ∷ []
placed_room need n h = ground arith

pub placed_tight : (need n : ℕ) → n < need + 32 → placed need n ≡ taken n ∷ []
placed_tight need n h = ground arith

-- The memory is as before but for the block of size `n` at `b`, and the link of the free block `q`.
abbrev pub SameBut : ℕ → ℕ → ℕ → (ℕ → ℕ) → (ℕ → ℕ) → Type 0
SameBut b n q mem mem' = (i : ℕ) → (i < b) ⊎ (b + 16 + n ≤ i) → i ≢ q + 16 → mem' i ≡ mem i

-- The pointer to the block after `q`, or to the first free block where there is no `q`, is `m`.
pub record Linked (q m : ℕ) (h h' : Heap) : Type 0 where
  pub inner : q ≢ 0 → h'.mem (q + 16) ≡ m
  pub outer : h'.free_head ≡ (if q == 0 then m else h.free_head)

-- What `take_block` leaves in memory when it splits the block, and when it does not.
pub record Splits (need n b q : ℕ) (h h' : Heap) : Type 0 where
  pub front : (h'.mem b ≡ need) × (h'.mem (b + 8) ≡ magic + 1)
  pub rest : (h'.mem (b + 16 + need) ≡ n - need - 16) × (h'.mem (b + 16 + need + 8) ≡ magic)
  pub onward : h'.mem (b + 16 + need + 16) ≡ h.mem (b + 16)
  pub link : Linked q (b + 16 + need) h h'
  pub frame : SameBut b n q h.mem h'.mem

pub record Fills (n b q : ℕ) (h h' : Heap) : Type 0 where
  pub whole : (h'.mem b ≡ n) × (h'.mem (b + 8) ≡ magic + 1)
  pub link : Linked q (h.mem (b + 16)) h h'
  pub frame : SameBut b n q h.mem h'.mem

module _ (h : Heap) (need n b q : ℕ) (at : size_of h b ≡ n) (small : n < 2 ^ 63)
    (apart : q + 32 ≤ b) where
  take_block-Splits : 16 ≤ need → need + 32 ≤ n → Splits need n b q h (take_block h need b q)
  unfolding take_block split_block
  take_block-Splits least fits = ground arith

  take_block-Fills : need ≤ n → n < need + 32 → Fills n b q h (take_block h need b q)
  unfolding take_block
  take_block-Fills fits tight = ground arith

-- What `mymalloc` and `myfree` leave alone.
pub record SameStatics (h h' : Heap) : Type 0 where
  pub arena : h'.arena ≡ h.arena
  pub arena_len : h'.arena_len ≡ h.arena_len
  pub fit_policy : h'.fit_policy ≡ h.fit_policy
  pub last_error : h'.last_error ≡ h.last_error
  pub coalesce_on : h'.coalesce_on ≡ h.coalesce_on

pub take_block-SameStatics : (h : Heap) (need b q : ℕ) → SameStatics h (take_block h need b q)
unfolding take_block split_block
take_block-SameStatics h need b q = ground arith

-- A well-formed heap cut at a free block.
pub record Cut (h : Heap) (xs : List Block) (n : ℕ) (ys : List Block) (b : ℕ) : Type 0 where
  pub before : Seg h.mem b b h.free_head h.arena xs
  pub block : IsBlock h.mem b n magic
  pub after : Seg h.mem 0 (h.arena + h.arena_len) (h.mem (b + 16)) (b + 16 + n) ys

pub cut :
    {h : Heap} (xs ys : List Block) (n : ℕ)
    → Rep h (xs ++ free n ∷ ys)
    → Cut h xs n ys (h.arena + span xs)
cut {h} xs ys n v = let (m, s, t) = Seg-split xs (free n ∷ ys) v.tiles in from m s t
  where
    from :
        (m : ℕ)
        → Seg h.mem m (h.arena + span xs) h.free_head h.arena xs
        → Seg h.mem 0 (h.arena + h.arena_len) m (h.arena + span xs) (free n ∷ ys)
        → Cut h xs n ys (h.arena + span xs)
    from m s (listed block at rest) = record {
      before = subst (λ k. Seg h.mem k (h.arena + span xs) h.free_head h.arena xs) at s;
      block = block;
      after = rest;
    }

-- A heap whose list and whose blocks from `b` on were replaced.
pub spliced :
    {h h' : Heap} {xs ws : List Block} {m b : ℕ} (m' n : ℕ)
    → 32 ≤ h.arena
    → h.arena % 16 ≡ 0
    → h.arena + h.arena_len < 2 ^ 63
    → Seg h.mem m b h.free_head h.arena xs
    → SameStatics h h'
    → Linked (prev_of 0 h.arena xs) m' h h'
    → SameBut b n (prev_of 0 h.arena xs) h.mem h'.mem
    → Seg h'.mem 0 (h.arena + h.arena_len) m' b ws
    → Rep h' (xs ++ ws)
spliced {h} {h'} {xs} {ws} m' n low aligned high s statics link frame t = record {
  low = omega (arith, statics.arena);
  aligned = ap (λ a. a % 16) statics.arena ∙ aligned;
  high = omega (arith, statics.arena, statics.arena_len);
  tiles =
      subst (λ (c : ℕ × ℕ × ℕ). Seg h'.mem 0 (c.0 + c.1) c.2 c.0 (xs ++ ws))
        (λ i. (sym statics.arena i, sym statics.arena_len i, sym link.outer i))
        (Seg-splice m' s low (λ i lt ne. frame i (inl lt) ne) link.inner t);
}

module _ {h : Heap} {xs ys : List Block} {n b : ℕ} (need : ℕ) (v : Rep h (xs ++ free n ∷ ys))
    (c : Cut h xs n ys b) where
  abbrev prev : ℕ
  prev = prev_of 0 h.arena xs

  within : b + 16 + n ≤ h.arena + h.arena_len
  within = omega (arith, Seg-end c.after)

  apart : prev + 32 ≤ b
  apart = elim (prev_of-range 0 c.before) [
    | inl e ↦ omega (arith, v.low, Seg-end c.before)
    | inr (lo, hi) ↦ hi
  ]

  after-frame :
      {mem' : ℕ → ℕ}
      → SameBut b n prev h.mem mem'
      → Seg mem' 0 (h.arena + h.arena_len) (h.mem (b + 16)) (b + 16 + n) ys
  after-frame f = Seg-frame c.after (λ i le lt. f i (inr le) (omega (arith, apart)))

  splits-Rep :
      16 ≤ need
      → need % 16 ≡ 0
      → need + 32 ≤ n
      → Rep (take_block h need b prev) (xs ++ taken need ∷ free (n - need - 16) ∷ ys)
  splits-Rep least aligned fits =
      spliced (b + 16 + need) n v.low v.aligned v.high c.before
        (take_block-SameStatics h need b prev) r.link r.frame
        (used (record { size = r.front.0; flags = r.front.1; least = least; aligned = aligned })
          (listed
            (record {
              size = r.rest.0;
              flags = r.rest.1;
              least = omega arith;
              aligned = omega (arith, c.block.aligned);
            })
            refl
            (subst
              (λ (k : ℕ × ℕ).
                Seg (take_block h need b prev).mem 0 (h.arena + h.arena_len) k.0 k.1 ys)
              (λ i. (sym r.onward i, address i)) (after-frame r.frame))))
    where
      r : Splits need n b prev h (take_block h need b prev)
      r =
          take_block-Splits h need n b prev c.block.size (omega (arith, within, v.high)) apart least
            fits

      address : b + 16 + n ≡ b + 16 + need + 16 + (n - need - 16)
      address = omega arith

  fills-Rep : need ≤ n → n < need + 32 → Rep (take_block h need b prev) (xs ++ taken n ∷ ys)
  fills-Rep fits tight =
      spliced (h.mem (b + 16)) n v.low v.aligned v.high c.before
        (take_block-SameStatics h need b prev) r.link r.frame
        (used
          (record {
            size = r.whole.0;
            flags = r.whole.1;
            least = c.block.least;
            aligned = c.block.aligned;
          })
          (after-frame r.frame))
    where
      r : Fills n b prev h (take_block h need b prev)
      r =
          take_block-Fills h need n b prev c.block.size (omega (arith, within, v.high)) apart fits
            tight

  -- The heap after the block is taken.
  pub take_block-Rep :
      16 ≤ need
      → need % 16 ≡ 0
      → need ≤ n
      → Rep (take_block h need b prev) (xs ++ (placed need n ++ ys))
  take_block-Rep least aligned fits = elim (dec_le (need + 32) n) [
    | yes room ↦
        subst (λ zs. Rep (take_block h need b prev) (xs ++ (zs ++ ys)))
          (sym (placed_room need n room)) (splits-Rep least aligned room)
    | no tight ↦
        subst (λ zs. Rep (take_block h need b prev) (xs ++ (zs ++ ys)))
          (sym (placed_tight need n (omega arith))) (fills-Rep fits (omega arith))
  ]

  pub take_block-frame :
      16 ≤ need → need ≤ n → SameBut b n prev h.mem (take_block h need b prev).mem
  take_block-frame least fits = elim (dec_le (need + 32) n) [
    | yes room ↦
        (take_block-Splits h need n b prev c.block.size (omega (arith, within, v.high)) apart least
          room).frame
    | no tight ↦
        (take_block-Fills h need n b prev c.block.size (omega (arith, within, v.high)) apart fits
          (omega arith)).frame
  ]

  -- Memory in use stays.
  pub InUse-kept :
      {mem' : ℕ → ℕ} (i : ℕ)
      → SameBut b n prev h.mem mem'
      → InUse i h.arena (xs ++ free n ∷ ys)
      → mem' i ≡ h.mem i
  InUse-kept i f u = elim (InUse-split i (free n ∷ ys) c.before u) [
    | inl w ↦ f i (inl (InUse-range i c.before w).1) (InUse-prev i 0 c.before v.low w)
    | inr w ↦
        f i (inr (omega (arith, InUse-range i c.after w)))
          (omega (arith, InUse-range i c.after w, apart))
  ]

pub need_of_lem : (size : ℕ) → (16 ≤ need_of size) × (need_of size % 16 ≡ 0)
unfolding need_of round_up
need_of_lem size = ground arith
