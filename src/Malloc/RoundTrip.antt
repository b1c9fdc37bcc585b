-- ===== src/Malloc/RoundTrip.antt =====
-- our-course/labs/lab03-allocator/solutions/mymalloc.c: no two free blocks lie side by side, and a
-- block that is taken and given back leaves the heap as it was.
use ia_operating_systems.Base.{
  ℕ, ◌+◌, ◌-◌, ◌≤◌, ◌≡◌, ◌≢◌, Bool, true, false, some, List, [], ◌∷◌, ◌++◌, arith, refl, ap, ap₂,
  sym, ◌∙◌, subst, dec_le,
}
use ia_operating_systems.Malloc.State.{Heap, Env}
use ia_operating_systems.Malloc.Alloc.{need_of, mymalloc}
use ia_operating_systems.Malloc.Free.{myfree}
use ia_operating_systems.Malloc.Tiles.{Block, taken, free, span, Rep}
use ia_operating_systems.Malloc.Take.{placed}
use ia_operating_systems.Malloc.Place.{Served, refused, granted, mymalloc-Served}
use ia_operating_systems.Malloc.Absorb.{merged}
use ia_operating_systems.Malloc.Unite.{unite, released}
use ia_operating_systems.Malloc.Release.{myfree_lem}

abbrev pub starts_free : List Block → Bool
starts_free [] = false
starts_free (taken n ∷ xs) = false
starts_free (free n ∷ xs) = true

-- No free block comes right after another one.
abbrev pub NoAdjacent : List Block → Type 0
NoAdjacent [] = Unit {0}
NoAdjacent (taken n ∷ xs) = NoAdjacent xs
NoAdjacent (free n ∷ xs) = (starts_free xs ≡ false) × NoAdjacent xs

unite-NoAdjacent :
    (xs ys : List Block) (n : ℕ)
    → NoAdjacent (xs ++ free n ∷ ys)
    → unite xs (free n ∷ ys) ≡ xs ++ free n ∷ ys
unite-NoAdjacent [] ys n v = refl
unite-NoAdjacent (taken k ∷ xs) ys n v = ap (λ zs. taken k ∷ zs) (unite-NoAdjacent xs ys n v)
unite-NoAdjacent (free k ∷ []) ys n v = cc
unite-NoAdjacent (free k ∷ x ∷ xs) ys n v =
    ap (λ zs. free k ∷ zs) (unite-NoAdjacent (x ∷ xs) ys n v.1)

merged-NoAdjacent :
    (xs ys : List Block) (n : ℕ) → NoAdjacent (xs ++ free n ∷ ys) → merged n ys ≡ free n ∷ ys
merged-NoAdjacent [] [] n v = refl
merged-NoAdjacent [] (taken k ∷ ys) n v = refl
merged-NoAdjacent [] (free k ∷ ys) n v = cc
merged-NoAdjacent (taken k ∷ xs) ys n v = merged-NoAdjacent xs ys n v
merged-NoAdjacent (free k ∷ xs) ys n v = merged-NoAdjacent xs ys n v.1

-- The free block is whole again.
whole_again :
    (xs ys : List Block) (need n : ℕ)
    → NoAdjacent (xs ++ free n ∷ ys)
    → need ≤ n
    → (m : ℕ) × (zs : List Block) × (placed need n ++ ys ≡ taken m ∷ zs)
      × (released true xs m zs ≡ xs ++ free n ∷ ys)
whole_again xs ys need n v fits = elim (dec_le (need + 32) n) [
  | yes room ↦ (
    need,
    free (n - need - 16) ∷ ys,
    ground arith,
    ap (λ k. unite xs (free k ∷ ys)) (omega arith) ∙ unite-NoAdjacent xs ys n v,
  )
  | no tight ↦ (
    n,
    ys,
    ground arith,
    ap (unite xs) (merged-NoAdjacent xs ys n v) ∙ unite-NoAdjacent xs ys n v,
  )
]

freed :
    {h' : Heap} (xs ys : List Block) (need n : ℕ)
    → NoAdjacent (xs ++ free n ∷ ys)
    → need ≤ n
    → h'.coalesce_on ≡ true
    → Rep h' (xs ++ (placed need n ++ ys))
    → (h'' : Heap) × (myfree (h'.arena + span xs + 16) h' ≡ some h'') × Rep h'' (xs ++ free n ∷ ys)
freed {h'} xs ys need n apart fits on v =
    let (m, zs, e, f) = whole_again xs ys need n apart fits in
    let (h'', g, k) = myfree_lem xs m zs (subst (λ ws. Rep h' (xs ++ ws)) e v) in
    (h'', g, subst (Rep h'') (ap (λ b. released b xs m zs) on ∙ f) k.heap)

-- On a heap that its blocks tile with no two free ones side by side, and with merging on, what
-- `mymalloc` gives goes back by `myfree`, and the blocks are then those from before.
pub myfree-mymalloc :
    {bs : List Block} {p : ℕ} {h' : Heap} (env : Env) (size : ℕ) (h : Heap)
    → Rep h bs
    → NoAdjacent bs
    → h.coalesce_on ≡ true
    → mymalloc env size h ≡ some (p, h')
    → p ≢ 0
    → (h'' : Heap) × (myfree p h' ≡ some h'') × Rep h'' bs
myfree-mymalloc {bs} {p} {h'} env size h v apart on e nz =
    let (r, f, s) = mymalloc-Served env size h v in
    let same : r ≡ (p, h') = cc in back s (ap (λ w. w.0) same) (ap (λ w. w.1) same)
  where
    back :
        {q : ℕ} {g : Heap}
        → Served size h bs q g
        → q ≡ p
        → g ≡ h'
        → (h'' : Heap) × (myfree p h' ≡ some h'') × Rep h'' bs
    back (refused why) at same = absurd (nz (sym at))
    back {g = g} (granted {b = b} k enough heap kept statics) at same =
        let (h'', f, w) =
          freed k.before k.after (need_of size) k.size (subst NoAdjacent k.blocks apart) k.fits
            (statics.coalesce_on ∙ on) heap in
        let there : g.arena + span k.before + 16 ≡ p = omega (arith, statics.arena, k.place, at) in
        (h'', sym (ap₂ myfree there same) ∙ f, subst (Rep h'') (sym k.blocks) w)
