-- ===== src/Malloc/Tests.antt =====
-- our-course/labs/lab03-allocator/solutions/mymalloc.c: a small heap, and the theorems at it.
use ia_operating_systems.Base.{
  ℕ, ◌+◌, ◌*◌, ◌%◌, ◌^◌, ◌≤◌, ◌<◌, ◌≡◌, true, ◌==◌, leb, if◌then◌else◌, none, some, List, [], ◌∷◌,
  length, arith, refl, ap, sym, ◌∙◌, subst, dec_le,
}
use mathlib.Core.Option.{get_or}
use ia_operating_systems.Malloc.State.{Heap, best, fine, Env, magic, round_up}
use ia_operating_systems.Malloc.Alloc.{
  need_of, find_from, find_block, take_block, malloc_in, mymalloc,
}
use ia_operating_systems.Malloc.Free.{myfree}
use ia_operating_systems.Malloc.Check.{mym_get_stats}
use ia_operating_systems.Malloc.Tiles.{Block, taken, free, IsBlock, end, used, listed, Rep}
use ia_operating_systems.Malloc.Place.{Served, mymalloc-Served}
use ia_operating_systems.Malloc.Absorb.{Keeps}
use ia_operating_systems.Malloc.Release.{myfree_lem}
use ia_operating_systems.Malloc.RoundTrip.{NoAdjacent, myfree-mymalloc}
use ia_operating_systems.Malloc.Valid.{Valid}
use ia_operating_systems.Malloc.Stats.{counts, in_use, free_bytes, mym_get_stats_lem}
use ia_operating_systems.Malloc.Setup.{IsEnv, First, mymalloc-First}
use ia_operating_systems.Malloc.Settings.{numeral}

-- Blocks of 32, 16, 16 and 32 bytes from address 64 to 224.
abbrev words : ℕ → ℕ
words a =
    if a == 64
    then 32
    else if a == 72
    then magic + 1
    else if a == 112
    then 16
    else if a == 120
    then magic
    else if a == 128
    then 176
    else if a == 144
    then 16
    else if a == 152
    then magic + 1
    else if a == 176
    then 32
    else if a == 184
    then magic
    else 0

abbrev heap : Heap
heap = record {
  mem = words;
  arena = 64;
  arena_len = 160;
  free_head = 112;
  fit_policy = best;
  last_error = fine;
  coalesce_on = true;
}

abbrev blocks : List Block
blocks = taken 32 ∷ free 16 ∷ taken 16 ∷ free 32 ∷ []

header : (a n w : ℕ) → words a ≡ n → words (a + 8) ≡ w → 16 ≤ n → n % 16 ≡ 0 → IsBlock words a n w
header a n w e f l g = record { size = e; flags = f; least = l; aligned = g }

heap-Rep : Rep heap blocks
heap-Rep = record {
  low = omega arith;
  aligned = refl;
  high = omega arith;
  tiles = used (header 64 32 (magic + 1) refl refl (omega arith) refl) (
      listed (header 112 16 magic refl refl (omega arith) refl) refl (
        used (header 144 16 (magic + 1) refl refl (omega arith) refl)
          (listed (header 176 32 magic refl refl (omega arith) refl) refl (end refl refl))));
}

apart : NoAdjacent blocks
apart = (refl, (refl, tt))

abbrev env : Env
env = record {
  arena_bytes = some (49 ∷ 48 ∷ 48 ∷ 48 ∷ 48 ∷ 48 ∷ []);
  coalesce = none;
  page = 4096;
  mmap = λ len. if leb len (2 ^ 27) then some 4096 else none;
}

IsEnv-env : IsEnv env
IsEnv-env = record {
  pages = (256, omega arith, refl);
  aligned = λ len m e. (place len m e).0;
  placed = λ len m e. (place len m e).1;
}
  where
    place : (len m : ℕ) → env.mmap len ≡ some m → (m % 16 ≡ 0) × ((32 ≤ m) × (m + len < 2 ^ 63))
    place len m e = elim (dec_le len (2 ^ 27)) [
      | yes small ↦
          let at_page : m ≡ 4096 = ap (λ o. get_or o 0) (sym e) ∙ ground (arith, small) in
          (subst (λ k. k % 16 ≡ 0) (sym at_page) refl, (omega arith, omega arith))
      | no large ↦ ground (arith, e)
    ]

mymalloc-Served_example :
    (r : ℕ × Heap) × (mymalloc env 8 heap ≡ some r) × Served 8 heap blocks r.0 r.1
mymalloc-Served_example = mymalloc-Served env 8 heap heap-Rep

myfree_lem_example :
    (h' : Heap) × (myfree 160 heap ≡ some h')
    × Keeps heap (taken 32 ∷ free 16 ∷ free 16 ∷ free 32 ∷ []) h' (taken 32 ∷ free 96 ∷ [])
myfree_lem_example = myfree_lem (taken 32 ∷ free 16 ∷ []) 16 (free 32 ∷ []) heap-Rep

allocates : mymalloc env 8 heap ≡ some (128, take_block heap 16 112 0)
unfolding mymalloc malloc_in need_of round_up find_block find_from
allocates = refl

myfree-mymalloc_example :
    (h' : Heap) × (myfree 128 (take_block heap 16 112 0) ≡ some h') × Rep h' blocks
myfree-mymalloc_example =
    myfree-mymalloc env 8 heap heap-Rep apart refl allocates (λ e. omega (arith, e))

mym_get_stats_example :
    (mym_get_stats heap ≡ some (counts heap blocks))
    × (16 * length blocks + in_use blocks + free_bytes blocks ≡ 160)
mym_get_stats_example = mym_get_stats_lem heap heap-Rep (λ e. omega (arith, e))

abbrev unmapped_heap : Heap
unmapped_heap = record heap { arena = 0; arena_len = 0; free_head = 0 }

mymalloc-First_example : First env 8 unmapped_heap 100000
mymalloc-First_example =
    mymalloc-First env 8 unmapped_heap 100000 IsEnv-env
      (numeral 49 (48 ∷ 48 ∷ 48 ∷ 48 ∷ 48 ∷ []) (omega arith) (omega arith)) refl
