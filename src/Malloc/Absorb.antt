-- ===== src/Malloc/Absorb.antt =====
-- our-course/labs/lab03-allocator/solutions/mymalloc.c: a free block swallows the free block right
-- after it.
use ia_operating_systems.Base.{
  ℕ, ◌+◌, ◌%◌, ◌^◌, ◌≤◌, ◌<◌, ◌≡◌, ◌≢◌, inl, inr, List, [], ◌∷◌, ◌++◌, arith, refl, ap, sym, ◌∙◌,
  subst,
}
use ia_operating_systems.Malloc.State.{Heap, size_of, fl_next, phys_next}
use ia_operating_systems.Malloc.Free.{absorb}
use ia_operating_systems.Malloc.Tiles.{
  Block, taken, free, span, Seg, end, used, listed, Rep, Seg-end, Seg-append, Seg-frame, link-range,
  InUse, InUse-split, InUse-range,
}
use ia_operating_systems.Malloc.Take.{Cut, cut, SameStatics}

-- A free block with what comes after it, once the two are merged where they can be.
abbrev pub merged : ℕ → List Block → List Block
merged n (free k ∷ ys) = free (n + 16 + k) ∷ ys
merged n ys = free n ∷ ys

record Absorbs (b n k : ℕ) (h h' : Heap) : Type 0 where
  size : h'.mem b ≡ n + 16 + k
  onward : h'.mem (b + 16) ≡ h.mem (b + 16 + n + 16)
  same : (i : ℕ) → i ≢ b → i ≢ b + 16 → h'.mem i ≡ h.mem i

absorb-Absorbs :
    (h : Heap) (b n k : ℕ)
    → size_of h b ≡ n
    → size_of h (b + 16 + n) ≡ k
    → b + 16 + n + 16 + k < 2 ^ 63
    → b + 16 + n < h.arena + h.arena_len
    → Absorbs b n k h (absorb h b (b + 16 + n))
unfolding absorb phys_next
absorb-Absorbs h b n k e f small inside = ground arith

absorb-apart : (h : Heap) (b c : ℕ) → b + 16 + size_of h b ≢ c → c ≢ 0 → absorb h b c ≡ h
unfolding absorb phys_next
absorb-apart h b c ne nz = ground arith

pub absorb-SameStatics :
    (h : Heap) (b c : ℕ) → SameStatics h (absorb h b c) × ((absorb h b c).free_head ≡ h.free_head)
unfolding absorb
absorb-SameStatics h b c = ground arith

-- What an operation leaves: the heap of these blocks, the statics, and the memory of the blocks of `bs`
-- in use.
pub record Keeps (h : Heap) (bs : List Block) (h' : Heap) (ws : List Block) : Type 0 where
  pub heap : Rep h' ws
  pub statics : SameStatics h h'
  pub kept : (i : ℕ) → InUse i h.arena bs → h'.mem i ≡ h.mem i

pub Keeps-refl : {h : Heap} {bs : List Block} → Rep h bs → Keeps h bs h bs
Keeps-refl v = record {
  heap = v;
  statics = record {
    arena = refl;
    arena_len = refl;
    fit_policy = refl;
    last_error = refl;
    coalesce_on = refl;
  };
  kept = λ i u. refl;
}

absorb_ahead :
    {h : Heap} {xs ys : List Block} {n k b : ℕ}
    → Rep h (xs ++ free n ∷ free k ∷ ys)
    → Cut h xs n (free k ∷ ys) b
    → fl_next h b ≢ 0
    → Keeps h (xs ++ free n ∷ free k ∷ ys) (absorb h b (fl_next h b)) (xs ++ free (n + 16 + k) ∷ ys)
absorb_ahead {h} {xs} {ys} {n} {k} {b} v c nz = from c.after
  where
    from :
        Seg h.mem 0 (h.arena + h.arena_len) (h.mem (b + 16)) (b + 16 + n) (free k ∷ ys)
        → Keeps h
            (xs ++ free n ∷ free k ∷ ys)
            (absorb h b (fl_next h b))
            (xs ++ free (n + 16 + k) ∷ ys)
    from (listed block next rest) =
        subst
          (λ d. Keeps h (xs ++ free n ∷ free k ∷ ys) (absorb h b d) (xs ++ free (n + 16 + k) ∷ ys))
          (sym next) (record { heap = heap; statics = statics; kept = kept })
      where
        h' : Heap
        h' = absorb h b (b + 16 + n)

        statics : SameStatics h h'
        statics = (absorb-SameStatics h b (b + 16 + n)).0

        fits : b + 16 + n + 16 + k ≤ h.arena + h.arena_len
        fits = omega (arith, Seg-end rest)

        r : Absorbs b n k h h'
        r =
            absorb-Absorbs h b n k c.block.size block.size (omega (arith, fits, v.high))
              (omega (arith, fits))

        tail : Seg h'.mem 0 (h.arena + h.arena_len) (h'.mem (b + 16)) (b + 16 + (n + 16 + k)) ys
        tail =
            subst (λ (w : ℕ × ℕ). Seg h'.mem 0 (h.arena + h.arena_len) w.0 w.1 ys)
              (λ i. (sym r.onward i, address i))
              (Seg-frame rest (λ i le lt. r.same i (omega arith) (omega (arith, block.least))))
          where
            address : b + 16 + n + 16 + k ≡ b + 16 + (n + 16 + k)
            address = omega arith

        whole :
            Seg h'.mem 0 (h.arena + h.arena_len) h.free_head h.arena (xs ++ free (n + 16 + k) ∷ ys)
        whole =
            Seg-append (free (n + 16 + k) ∷ ys)
              (Seg-frame c.before (λ i le lt. r.same i (omega arith) (omega arith)))
              (listed
                (record {
                  size = r.size;
                  flags = r.same (b + 8) (omega arith) (omega arith) ∙ c.block.flags;
                  least = omega (arith, c.block.least);
                  aligned = omega (arith, c.block.aligned, block.aligned);
                })
                refl tail)

        heap : Rep h' (xs ++ free (n + 16 + k) ∷ ys)
        heap = record {
          low = omega (arith, v.low, statics.arena);
          aligned = ap (λ a. a % 16) statics.arena ∙ v.aligned;
          high = omega (arith, v.high, statics.arena, statics.arena_len);
          tiles =
              subst
                (λ (w : ℕ × ℕ × ℕ). Seg h'.mem 0 (w.0 + w.1) w.2 w.0 (xs ++ free (n + 16 + k) ∷ ys))
                (λ i. (
                  sym statics.arena i,
                  sym statics.arena_len i,
                  sym (absorb-SameStatics h b (b + 16 + n)).1 i,
                ))
                whole;
        }

        kept : (i : ℕ) → InUse i h.arena (xs ++ free n ∷ free k ∷ ys) → h'.mem i ≡ h.mem i
        kept i u = elim (InUse-split i (free n ∷ free k ∷ ys) c.before u) [
          | inl w ↦
              r.same i (omega (arith, InUse-range i c.before w))
                (omega (arith, InUse-range i c.before w))
          | inr w ↦
              r.same i (omega (arith, InUse-range i rest w)) (omega (arith, InUse-range i rest w))
        ]

-- The merge of a free block with what the list leads on to.
pub absorb_lem :
    {h : Heap} (xs : List Block) (n : ℕ) (ys : List Block)
    → Rep h (xs ++ free n ∷ ys)
    → let b = h.arena + span xs in
      fl_next h b ≢ 0 → Keeps h (xs ++ free n ∷ ys) (absorb h b (fl_next h b)) (xs ++ merged n ys)
absorb_lem xs n (free k ∷ ys) v nz = absorb_ahead v (cut xs (free k ∷ ys) n v) nz
absorb_lem {h} xs n [] v nz = absurd (nz (ends (cut xs [] n v).after))
  where
    ends : {e l a : ℕ} → Seg h.mem 0 e l a [] → l ≡ 0
    ends (end f g) = f
absorb_lem {h} xs n (taken k ∷ ys) v nz =
    subst (λ g. Keeps h (xs ++ free n ∷ taken k ∷ ys) g (xs ++ free n ∷ taken k ∷ ys))
      (sym (
        absorb-apart h (h.arena + span xs) (fl_next h (h.arena + span xs)) (λ e. past c.after e)
          nz))
      (Keeps-refl v)
  where
    c : Cut h xs n (taken k ∷ ys) (h.arena + span xs)
    c = cut xs (taken k ∷ ys) n v

    past :
        {e l : ℕ}
        → Seg h.mem 0 e l (h.arena + span xs + 16 + n) (taken k ∷ ys)
        → h.arena + span xs + 16 + size_of h (h.arena + span xs) ≡ l
        → ⊥
    past (used w s) e = elim (link-range s) [
      | inl z ↦ omega (arith, c.block.size, v.low)
      | inr le ↦ omega (arith, c.block.size)
    ]

-- The merge leaves the memory in use where it is.
InUse-merged : (i a n : ℕ) (ys : List Block) → InUse i a (free n ∷ ys) → InUse i a (merged n ys)
InUse-merged i a n (free k ∷ ys) u = subst (λ d. InUse i d ys) (omega arith) u
InUse-merged i a n [] u = u
InUse-merged i a n (taken k ∷ ys) u = u

InUse-tail :
    (i a : ℕ) (xs zs ws : List Block)
    → ((d : ℕ) → InUse i d zs → InUse i d ws)
    → InUse i a (xs ++ zs)
    → InUse i a (xs ++ ws)
InUse-tail i a [] zs ws f u = f a u
InUse-tail i a (taken n ∷ xs) zs ws f (inl h) = inl h
InUse-tail i a (taken n ∷ xs) zs ws f (inr u) = inr (InUse-tail i (a + 16 + n) xs zs ws f u)
InUse-tail i a (free n ∷ xs) zs ws f u = InUse-tail i (a + 16 + n) xs zs ws f u

pub InUse-absorbed :
    (i a n : ℕ) (xs ys : List Block) → InUse i a (xs ++ free n ∷ ys) → InUse i a (xs ++ merged n ys)
InUse-absorbed i a n xs ys =
    InUse-tail i a xs (free n ∷ ys) (merged n ys) (λ d. InUse-merged i d n ys)

pub then-Keeps :
    {h h' h'' : Heap} {bs ws zs : List Block}
    → Keeps h bs h' ws
    → Keeps h' ws h'' zs
    → ((i : ℕ) → InUse i h.arena bs → InUse i h.arena ws)
    → Keeps h bs h'' zs
then-Keeps {h} {ws = ws} a b f = record {
  heap = b.heap;
  statics = record {
    arena = b.statics.arena ∙ a.statics.arena;
    arena_len = b.statics.arena_len ∙ a.statics.arena_len;
    fit_policy = b.statics.fit_policy ∙ a.statics.fit_policy;
    last_error = b.statics.last_error ∙ a.statics.last_error;
    coalesce_on = b.statics.coalesce_on ∙ a.statics.coalesce_on;
  };
  kept = λ i u. b.kept i (subst (λ d. InUse i d ws) (sym a.statics.arena) (f i u)) ∙ a.kept i u;
}
