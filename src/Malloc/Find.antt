-- ===== src/Malloc/Find.antt =====
-- our-course/labs/lab03-allocator/solutions/mymalloc.c: what `find_block` finds on a well-formed heap.
use mathlib.Core.Bool.{true≢false}
use ia_operating_systems.Base.{
  ℕ, zero, suc, ◌+◌, ◌≤◌, ◌<◌, ◌≡◌, ◌≢◌, ◌⊎◌, inl, inr, Bool, true, false, ◌&&◌, ◌||◌, ◌==◌, leb,
  Option, some, List, [], ◌∷◌, length, arith, refl, sym, ◌∙◌, subst, dec_le, Bool-cases,
}
use ia_operating_systems.Malloc.State.{Fit, first, best, worst, Heap, size_of, fl_next}
use ia_operating_systems.Malloc.Alloc.{is_first, better, find_from, find_block}
use ia_operating_systems.Malloc.Tiles.{
  Block, taken, free, Seg, end, used, listed, Rep, Seg-length, Seg-end,
}
use ia_operating_systems.Malloc.Policy.{
  FitsAll, NoFit, Beats, Holds, Choice, Outcome, skip_taken, skip_free, take_free, kept, chosen,
}

better-Beats : (fit : Fit) (n s : ℕ) → better fit n s ≡ true → Beats fit n s
better-Beats first n s h = cc
better-Beats best n s h = ground arith
better-Beats worst n s h = ground arith

better-Holds : (fit : Fit) (n s : ℕ) → better fit n s ≡ false → Holds fit s n
better-Holds first n s h = tt
better-Holds best n s h = ground arith
better-Holds worst n s h = ground arith

Beats-Holds : (fit : Fit) (k s n : ℕ) → Beats fit k s → Holds fit s n → Beats fit k n
Beats-Holds first k s n h g = elim h [ ]
Beats-Holds best k s n h g = omega arith
Beats-Holds worst k s n h g = omega arith

Beats-trans : (fit : Fit) (k n s : ℕ) → Beats fit k n → Beats fit n s → Beats fit k s
Beats-trans first k n s h g = elim h [ ]
Beats-trans best k n s h g = omega arith
Beats-trans worst k n s h g = omega arith

find_from-stop :
    (h : Heap) (need fuel p cur c cp : ℕ)
    → cur ≡ 0
    → find_from h need fuel p cur c cp ≡ some (c, cp)
unfolding find_from
find_from-stop h need zero p cur c cp e = ground arith
find_from-stop h need (suc fuel) p cur c cp e = ground arith

find_from-first :
    (h : Heap) (need fuel p cur c cp : ℕ)
    → cur ≢ 0
    → need ≤ size_of h cur
    → is_first h.fit_policy ≡ true
    → find_from h need (suc fuel) p cur c cp ≡ some (cur, p)
unfolding find_from
find_from-first h need fuel p cur c cp nz fits e = ground arith

find_from-take :
    (h : Heap) (need fuel p cur c cp : ℕ)
    → cur ≢ 0
    → need ≤ size_of h cur
    → is_first h.fit_policy ≡ false
    → (c == 0 || better h.fit_policy (size_of h cur) (size_of h c)) ≡ true
    → find_from h need (suc fuel) p cur c cp ≡ find_from h need fuel cur (fl_next h cur) cur p
unfolding find_from
find_from-take h need fuel p cur c cp nz fits e t = rw (t, e, enough, somewhere) refl
  where
    enough : leb need (size_of h cur) ≡ true
    enough = ground arith

    somewhere : (cur == 0) ≡ false
    somewhere = ground arith

find_from-skip :
    (h : Heap) (need fuel p cur c cp : ℕ)
    → cur ≢ 0
    → (leb need (size_of h cur) && (c == 0 || better h.fit_policy (size_of h cur) (size_of h c)))
      ≡ false
    → (leb need (size_of h cur) && is_first h.fit_policy) ≡ false
    → find_from h need (suc fuel) p cur c cp ≡ find_from h need fuel cur (fl_next h cur) c cp
unfolding find_from
find_from-skip h need fuel p cur c cp nz t e = rw (t, e) (ground arith)

first-Holds :
    (fit : Fit) (n need : ℕ) (bs : List Block) → is_first fit ≡ true → FitsAll (Holds fit n) need bs
first-Holds fit n need [] e = tt
first-Holds fit n need (taken k ∷ bs) e = first-Holds fit n need bs e
first-Holds first n need (free k ∷ bs) e = ((λ h. tt), first-Holds first n need bs e)
first-Holds best n need (free k ∷ bs) e = absurd (true≢false (sym e))
first-Holds worst n need (free k ∷ bs) e = absurd (true≢false (sym e))

-- The loop of `find_block` ends on the blocks that are left, with the choice that the policy wants.
find_from_lem :
    (h : Heap) {e : ℕ} {bs : List Block} (need fuel : ℕ) {l a : ℕ} (p c cp : ℕ)
    → Seg h.mem 0 e l a bs
    → length bs ≤ fuel
    → 0 < a
    → (is_first h.fit_policy ≡ true → c ≡ 0)
    → (r : ℕ × ℕ) × (find_from h need fuel p l c cp ≡ some r)
      × Outcome h.fit_policy need p a (size_of h c) c cp bs r
find_from_lem h need fuel p c cp (end f g) room pos start =
    ((c, cp), find_from-stop h need fuel p _ c cp f, kept (λ z. tt) (λ nz. tt))
find_from_lem h need fuel {a = a} p c cp (used {n = n} v s) room pos start =
    let (r, f, o) = find_from_lem h need fuel p c cp s (omega arith) (omega arith) start in
    (r, f, skip_taken o)
find_from_lem h need zero p c cp (listed v g s) room pos start = absurd (omega arith)
find_from_lem h {bs = free n ∷ bs} need (suc fuel) {l} {a} p c cp (listed v g s) room pos start =
    elim (dec_le need n) [
      | no small ↦
          let (r, f, o) = find_from_lem h need fuel a c cp s (omega arith) (omega arith) start in
          (
            r,
            at_a c cp (
                find_from-skip h need fuel p a c cp nz (ground (arith, v.size))
                  (ground (arith, v.size))
                ∙ f),
            skip_free (λ k. absurd (small k)) (λ k m. absurd (small m)) o,
          )
      | yes fits ↦ elim (Bool-cases (is_first h.fit_policy)) [
        | inl is ↦ (
          (a, p),
          at_a c cp (find_from-first h need fuel p a c cp nz (omega (arith, v.size)) is),
          chosen
              (record {
                before = [];
                size = n;
                after = bs;
                blocks = refl;
                place = omega arith;
                prev = refl;
                fits = fits;
                earlier = tt;
                later = first-Holds h.fit_policy n need bs is;
              })
              (λ cz. absurd (cz (start is))),
        )
        | inr is_not ↦
            elim (Bool-cases (c == 0 || better h.fit_policy (size_of h a) (size_of h c))) [
              | inl t ↦
                  let (r, f, o) =
                    find_from_lem h need fuel a a p s (omega arith) (omega arith)
                      (λ i. absurd (cc)) in
                  (
                    r,
                    at_a c cp (
                        find_from-take h need fuel p a c cp nz (omega (arith, v.size)) is_not t
                        ∙ f),
                    take_free fits pos
                        (λ cz.
                          here (
                            better-Beats h.fit_policy (size_of h a) (size_of h c) (better_of cz t)))
                        (λ k. Beats-trans h.fit_policy k n (size_of h c))
                        (subst (λ k. Outcome h.fit_policy need a (a + 16 + n) k a p bs r) v.size o),
                  )
              | inr t ↦
                  let (r, f, o) =
                    find_from_lem h need fuel a c cp s (omega arith) (omega arith) start in
                  (
                    r,
                    at_a c cp
                        (find_from-skip h need fuel p a c cp nz (ground arith) (ground arith) ∙ f),
                    let kept_on =
                          better-Holds h.fit_policy (size_of h a) (size_of h c) (worse_of t) in
                        skip_free
                          (λ k.
                            (chosen_of t, subst (Holds h.fit_policy (size_of h c)) v.size kept_on))
                          (λ k m b.
                            Beats-Holds h.fit_policy k (size_of h c) n (b (chosen_of t))
                              (subst (Holds h.fit_policy (size_of h c)) v.size kept_on))
                          o,
                  )
            ]
      ]
    ]
  where
    nz : a ≢ 0
    nz z = omega arith

    here : Beats h.fit_policy (size_of h a) (size_of h c) → Beats h.fit_policy n (size_of h c)
    here = subst (λ k. Beats h.fit_policy k (size_of h c)) v.size

    test : Bool
    test = c == 0 || better h.fit_policy (size_of h a) (size_of h c)

    better_of : c ≢ 0 → test ≡ true → better h.fit_policy (size_of h a) (size_of h c) ≡ true
    better_of cz t = ground arith

    worse_of : test ≡ false → better h.fit_policy (size_of h a) (size_of h c) ≡ false
    worse_of t = ground arith

    chosen_of : test ≡ false → c ≢ 0
    chosen_of t z = ground arith

    at_a :
        {r : Option (ℕ × ℕ)} (c cp : ℕ)
        → find_from h need (suc fuel) p a c cp ≡ r
        → find_from h need (suc fuel) p l c cp ≡ r
    at_a c cp f = rw g f

-- `find_block` ends on a well-formed heap. It finds nothing only where no free block fits; what it
-- finds is the first block that fits, or the lowest of the smallest, or the lowest of the largest, as
-- the policy has it, with the free block before it.
pub find_block_lem :
    {bs : List Block} (h : Heap) (need : ℕ)
    → Rep h bs
    → (r : ℕ × ℕ) × (find_block h need ≡ some r)
      × (((r.0 ≡ 0) × NoFit need bs) ⊎ Choice h.fit_policy need 0 h.arena bs r.0 r.1)
unfolding find_block
find_block_lem {bs} h need v =
    let (r, f, o) =
      find_from_lem h need h.arena_len 0 0 0 v.tiles enough (omega (arith, v.low)) (λ i. refl) in
    (r, f, outcome o)
  where
    enough : length bs ≤ h.arena_len
    enough = omega (arith, Seg-length v.tiles, Seg-end v.tiles)

    outcome :
        {r : ℕ × ℕ}
        → Outcome h.fit_policy need 0 h.arena (size_of h 0) 0 0 bs r
        → ((r.0 ≡ 0) × NoFit need bs) ⊎ Choice h.fit_policy need 0 h.arena bs r.0 r.1
    outcome (kept none_fits holds) = inl (refl, none_fits refl)
    outcome (chosen c beats) = inr c
