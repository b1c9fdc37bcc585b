-- ===== src/Malloc/Stats.antt =====
-- our-course/labs/lab03-allocator/solutions/mymalloc.c: the statistics of a well-formed heap.
use Prim.Native.Nat.{max}
use ia_operating_systems.Base.{
  ℕ, zero, suc, ◌+◌, ◌*◌, ◌^◌, ◌≤◌, ◌<◌, ◌≡◌, ◌≢◌, some, List, [], ◌∷◌, length, arith, refl, ap,
  sym, ◌∙◌,
}
use ia_operating_systems.Malloc.State.{Heap, magic, phys_next}
use ia_operating_systems.Malloc.Check.{Stats, count_block, stats_from, no_stats, mym_get_stats}
use ia_operating_systems.Malloc.Tiles.{
  Block, taken, free, span, IsBlock, Seg, end, used, listed, Rep, Seg-end, Seg-length,
}
use ia_operating_systems.Malloc.Walk.{frees}

abbrev pub in_use : List Block → ℕ
in_use [] = 0
in_use (taken n ∷ xs) = n + in_use xs
in_use (free n ∷ xs) = in_use xs

abbrev pub free_bytes : List Block → ℕ
free_bytes [] = 0
free_bytes (taken n ∷ xs) = free_bytes xs
free_bytes (free n ∷ xs) = n + free_bytes xs

abbrev pub largest : List Block → ℕ
largest [] = 0
largest (taken n ∷ xs) = largest xs
largest (free n ∷ xs) = max n (largest xs)

-- Statistics with those of further blocks added.
abbrev plus : Stats → List Block → Stats
plus out xs = record out {
  header_bytes = out.header_bytes + 16 * length xs;
  bytes_in_use = out.bytes_in_use + in_use xs;
  free_bytes = out.free_bytes + free_bytes xs;
  free_blocks = out.free_blocks + frees xs;
  largest_free_block = max out.largest_free_block (largest xs);
}

abbrev total : Stats → ℕ
total out = out.header_bytes + out.bytes_in_use + out.free_bytes + out.free_blocks

count_taken :
    (h : Heap) (b n : ℕ) (out : Stats)
    → IsBlock h.mem b n (magic + 1)
    → total out + 2 * (16 + n) < 2 ^ 64
    → count_block h b out
      ≡ record out { header_bytes = out.header_bytes + 16; bytes_in_use = out.bytes_in_use + n }
unfolding count_block
count_taken h b n out v small = ground (arith, v.size, v.flags)

count_free :
    (h : Heap) (b n : ℕ) (out : Stats)
    → IsBlock h.mem b n magic
    → total out + 2 * (16 + n) < 2 ^ 64
    → count_block h b out ≡ record out {
      header_bytes = out.header_bytes + 16;
      free_bytes = out.free_bytes + n;
      free_blocks = out.free_blocks + 1;
      largest_free_block = max out.largest_free_block n;
    }
unfolding count_block
count_free h b n out v small = ground (arith, v.size, v.flags)

-- Where the walk goes on to.
abbrev entry : ℕ → List Block → ℕ
entry a [] = 0
entry a (x ∷ xs) = a

next_of :
    (h : Heap) {l a n : ℕ} {xs : List Block}
    → h.mem a ≡ n
    → Seg h.mem 0 (h.arena + h.arena_len) l (a + 16 + n) xs
    → phys_next h a ≡ entry (a + 16 + n) xs
unfolding phys_next
next_of h e (end f g) = ground arith
next_of h e (used v s) = ground (arith, Seg-end s)
next_of h e (listed v f s) = ground (arith, Seg-end s)

max_zero : (x : ℕ) → max x 0 ≡ x
max_zero x = ground arith

max_assoc : (x y z : ℕ) → max (max x y) z ≡ max x (max y z)
max_assoc x y z = ground arith

stats_from-stop : (h : Heap) (fuel : ℕ) (out : Stats) → stats_from h fuel 0 out ≡ some out
unfolding stats_from
stats_from-stop h zero out = refl
stats_from-stop h (suc fuel) out = refl

stats_from-step :
    (h : Heap) (fuel b : ℕ) (out : Stats)
    → b ≢ 0
    → stats_from h (suc fuel) b out ≡ stats_from h fuel (phys_next h b) (count_block h b out)
unfolding stats_from
stats_from-step h fuel b out ne = ground arith

plus-none : (out : Stats) → out ≡ plus out []
plus-none out = λ i. record out {
  header_bytes = zero_right out.header_bytes i;
  bytes_in_use = zero_right out.bytes_in_use i;
  free_bytes = zero_right out.free_bytes i;
  free_blocks = zero_right out.free_blocks i;
  largest_free_block = sym (max_zero out.largest_free_block) i;
}
  where
    zero_right : (x : ℕ) → x ≡ x + 0
    zero_right x = omega arith

sum_header : (x k : ℕ) → x + 16 + 16 * k ≡ x + 16 * suc k
sum_header x k = omega arith

sum_assoc : (x n k : ℕ) → x + n + k ≡ x + (n + k)
sum_assoc x n k = omega arith

sum_suc : (x k : ℕ) → x + 1 + k ≡ x + suc k
sum_suc x k = omega arith

plus-taken :
    (out : Stats) (n : ℕ) (xs : List Block)
    → plus
        (record out { header_bytes = out.header_bytes + 16; bytes_in_use = out.bytes_in_use + n })
        xs
      ≡ plus out (taken n ∷ xs)
plus-taken out n xs = λ i. record out {
  header_bytes = sum_header out.header_bytes (length xs) i;
  bytes_in_use = sum_assoc out.bytes_in_use n (in_use xs) i;
  free_bytes = out.free_bytes + free_bytes xs;
  free_blocks = out.free_blocks + frees xs;
  largest_free_block = max out.largest_free_block (largest xs);
}

plus-free :
    (out : Stats) (n : ℕ) (xs : List Block)
    → plus
        (record out {
          header_bytes = out.header_bytes + 16;
          free_bytes = out.free_bytes + n;
          free_blocks = out.free_blocks + 1;
          largest_free_block = max out.largest_free_block n;
        })
        xs
      ≡ plus out (free n ∷ xs)
plus-free out n xs = λ i. record out {
  header_bytes = sum_header out.header_bytes (length xs) i;
  bytes_in_use = out.bytes_in_use + in_use xs;
  free_bytes = sum_assoc out.free_bytes n (free_bytes xs) i;
  free_blocks = sum_suc out.free_blocks (frees xs) i;
  largest_free_block = max_assoc out.largest_free_block n (largest xs) i;
}

-- The walk adds up all the blocks, while the sums stay below 2 ^ 64.
stats_from_lem :
    (h : Heap) {l a : ℕ} {xs : List Block} (fuel : ℕ) (out : Stats)
    → Seg h.mem 0 (h.arena + h.arena_len) l a xs
    → 0 < a
    → length xs ≤ fuel
    → total out + 2 * span xs < 2 ^ 64
    → stats_from h fuel (entry a xs) out ≡ some (plus out xs)
stats_from_lem h fuel out (end f g) pos room small =
    stats_from-stop h fuel out ∙ ap some (plus-none out)
stats_from_lem h zero out (used v s) pos room small = absurd (omega arith)
stats_from_lem h zero out (listed v f s) pos room small = absurd (omega arith)
stats_from_lem h {a = a} (suc fuel) out (used {n = n} {xs = xs} v s) pos room small =
    stats_from-step h fuel a out (omega arith)
    ∙ ap (λ b. stats_from h fuel b (count_block h a out)) (next_of h v.size s)
    ∙ ap (stats_from h fuel (entry (a + 16 + n) xs)) (count_taken h a n out v (omega arith))
    ∙ stats_from_lem h fuel _ s (omega arith) (omega arith) (omega arith)
    ∙ ap some (plus-taken out n xs)
stats_from_lem h {a = a} (suc fuel) out (listed {n = n} {xs = xs} v f s) pos room small =
    stats_from-step h fuel a out (omega arith)
    ∙ ap (λ b. stats_from h fuel b (count_block h a out)) (next_of h v.size s)
    ∙ ap (stats_from h fuel (entry (a + 16 + n) xs)) (count_free h a n out v (omega arith))
    ∙ stats_from_lem h fuel _ s (omega arith) (omega arith) (omega (arith, v.least))
    ∙ ap some (plus-free out n xs)

abbrev pub counts : Heap → List Block → Stats
counts h bs = record {
  arena_bytes = h.arena_len;
  header_bytes = 16 * length bs;
  bytes_in_use = in_use bs;
  free_bytes = free_bytes bs;
  free_blocks = frees bs;
  largest_free_block = largest bs;
}

plus-no_stats :
    (h : Heap) (xs : List Block)
    → plus (record no_stats { arena_bytes = h.arena_len }) xs ≡ counts h xs
plus-no_stats h xs = λ i. record {
  arena_bytes = h.arena_len;
  header_bytes = zero_left (16 * length xs) i;
  bytes_in_use = zero_left (in_use xs) i;
  free_bytes = zero_left (free_bytes xs) i;
  free_blocks = zero_left (frees xs) i;
  largest_free_block = zero_max (largest xs) i;
}
  where
    zero_left : (x : ℕ) → 0 + x ≡ x
    zero_left x = omega arith

    zero_max : (x : ℕ) → max 0 x ≡ x
    zero_max x = ground arith

span_lem : (xs : List Block) → 16 * length xs + in_use xs + free_bytes xs ≡ span xs
span_lem [] = refl
span_lem (taken n ∷ xs) = omega (arith, span_lem xs)
span_lem (free n ∷ xs) = omega (arith, span_lem xs)

-- The walk of the statistics ends on a heap that its blocks tile and counts every block once, with
-- no sum wrapped round; and the headers, the memory in use and the free memory make up the arena.
pub mym_get_stats_lem :
    {bs : List Block} (h : Heap)
    → Rep h bs
    → length bs ≢ 0
    → (mym_get_stats h ≡ some (counts h bs))
      × (16 * length bs + in_use bs + free_bytes bs ≡ h.arena_len)
unfolding mym_get_stats
mym_get_stats_lem {bs} h v some_block =
    (ground (arith, v.low, walk), omega (arith, span_lem bs, Seg-end v.tiles))
  where
    out : Stats
    out = record no_stats { arena_bytes = h.arena_len }

    start : (xs : List Block) → length xs ≢ 0 → entry h.arena xs ≡ h.arena
    start [] ne = absurd (ne refl)
    start (x ∷ xs) ne = refl

    walk : stats_from h h.arena_len h.arena out ≡ some (counts h bs)
    walk =
        ap (λ b. stats_from h h.arena_len b out) (sym (start bs some_block))
        ∙ stats_from_lem h h.arena_len out v.tiles (omega (arith, v.low))
            (omega (arith, Seg-length v.tiles, Seg-end v.tiles))
            (omega (arith, Seg-end v.tiles, v.high))
        ∙ ap some (plus-no_stats h bs)
