-- ===== src/Malloc/Release.antt =====
-- our-course/labs/lab03-allocator/solutions/mymalloc.c: `myfree` of a block in use on a well-formed
-- heap.
use ia_operating_systems.Base.{
  ℕ, ◌+◌, ◌-◌, ◌%◌, ◌≤◌, ◌≡◌, ◌≢◌, ◌⊎◌, inl, inr, Bool, true, false, ◌==◌, if◌then◌else◌, some,
  List, [], ◌∷◌, ◌++◌, arith, refl, ap, sym, ◌∙◌, subst, ℕ_discrete, Bool-cases,
}
use ia_operating_systems.Malloc.State.{Heap, magic, size_of, fl_next, store}
use ia_operating_systems.Malloc.Free.{
  at_place, find_place, absorb, insert_block, no_block, release_block, myfree,
}
use ia_operating_systems.Malloc.Tiles.{
  Block, taken, free, span, Seg, listed, prev_of, Rep, Seg-end, Seg-frame, Seg-length, Seg-aligned,
  link-range,
}
use ia_operating_systems.Malloc.Take.{cut}
use ia_operating_systems.Malloc.Absorb.{
  merged, Keeps, Keeps-refl, absorb_lem, InUse-absorbed, then-Keeps,
}
use ia_operating_systems.Malloc.Unite.{unite, released, absorb_back}
use ia_operating_systems.Malloc.Listing.{
  lists, listed-Keeps, find_place_lem, CutUsed, cut_used, listed_heap,
}

onward_none :
    {h : Heap} (xs ys : List Block) (n : ℕ)
    → Rep h (xs ++ free n ∷ ys)
    → fl_next h (h.arena + span xs) ≡ 0
    → merged n ys ≡ free n ∷ ys
onward_none xs [] n v z = refl
onward_none xs (taken k ∷ ys) n v z = refl
onward_none {h} xs (free k ∷ ys) n v z = absurd (impossible (cut xs (free k ∷ ys) n v).after)
  where
    impossible :
        {e : ℕ}
        → Seg h.mem 0 e (fl_next h (h.arena + span xs)) (h.arena + span xs + 16 + n) (free k ∷ ys)
        → ⊥
    impossible (listed w f s) = omega (arith, z, f, v.low)

-- The merge with the free block after.
absorb_next :
    {h : Heap} (xs ys : List Block) (n cur : ℕ)
    → Rep h (xs ++ free n ∷ ys)
    → let b = h.arena + span xs in
      fl_next h b ≡ cur
      → Keeps h (xs ++ free n ∷ ys) (if cur == 0 then h else absorb h b cur) (xs ++ merged n ys)
absorb_next {h} xs ys n cur v e = elim (ℕ_discrete cur 0) [
  | yes z ↦
      subst (λ (c : Heap × List Block). Keeps h (xs ++ free n ∷ ys) c.0 (xs ++ c.1))
        (λ i. (unmoved z i, sym (onward_none xs ys n v (e ∙ z)) i)) (Keeps-refl v)
  | no nz ↦
      subst (λ g. Keeps h (xs ++ free n ∷ ys) g (xs ++ merged n ys))
        (ap (absorb h (h.arena + span xs)) e ∙ moved nz)
        (absorb_lem xs n ys v (λ z. nz (sym e ∙ z)))
]
  where
    unmoved : cur ≡ 0 → h ≡ (if cur == 0 then h else absorb h (h.arena + span xs) cur)
    unmoved z = ground arith

    moved :
        cur ≢ 0
        → absorb h (h.arena + span xs) cur
          ≡ (if cur == 0 then h else absorb h (h.arena + span xs) cur)
    moved nz = ground arith

merged-head : (n : ℕ) (ys : List Block) → (N : ℕ) × (zs : List Block) × (merged n ys ≡ free N ∷ zs)
merged-head n [] = (n, [], refl)
merged-head n (taken k ∷ ys) = (n, taken k ∷ ys, refl)
merged-head n (free k ∷ ys) = (n + 16 + k, ys, refl)

absorb_both :
    {h : Heap} (xs ys : List Block) (n cur : ℕ)
    → Rep h (xs ++ free n ∷ ys)
    → let b = h.arena + span xs in
      let p = prev_of 0 h.arena xs in
      fl_next h b ≡ cur
      → let h2 = if cur == 0 then h else absorb h b cur in
        Keeps h (xs ++ free n ∷ ys) (if p == 0 then h2 else absorb h2 p b) (unite xs (merged n ys))
absorb_both {h} xs ys n cur v e = then-Keeps first second (λ i. InUse-absorbed i h.arena n xs ys)
  where
    b : ℕ
    b = h.arena + span xs

    h2 : Heap
    h2 = if cur == 0 then h else absorb h b cur

    first : Keeps h (xs ++ free n ∷ ys) h2 (xs ++ merged n ys)
    first = absorb_next xs ys n cur v e

    second :
        Keeps h2
          (xs ++ merged n ys)
          (if prev_of 0 h.arena xs == 0 then h2 else absorb h2 (prev_of 0 h.arena xs) b)
          (unite xs (merged n ys))
    second =
        let (N, zs, f) = merged-head n ys in
        subst
          (λ (c : List Block × ℕ).
            Keeps h2 (xs ++ c.0)
              (if prev_of 0 c.1 xs == 0 then h2 else absorb h2 (prev_of 0 c.1 xs) (c.1 + span xs))
              (unite xs c.0))
          (λ i. (sym f i, first.statics.arena i))
          (absorb_back xs zs N (subst (λ ws. Rep h2 (xs ++ ws)) f first.heap))

accepted :
    (h : Heap) (b n : ℕ)
    → size_of h b ≡ n
    → h.mem (b + 8) ≡ magic + 1
    → 16 ≤ n
    → n % 16 ≡ 0
    → b % 16 ≡ 0
    → h.arena ≢ 0
    → h.arena ≤ b
    → b + 16 + n ≤ h.arena + h.arena_len
    → myfree (b + 16) h ≡ release_block h b
unfolding myfree no_block
accepted h b n size flags least whole aligned started low high =
    rw (back, flags, size) (ground arith)
  where
    back : b + 16 - 16 ≡ b
    back = omega arith

releases :
    (h : Heap) (b p m : ℕ)
    → find_place (store h (b + 8) magic) b h.arena_len 0 h.free_head ≡ some (p, m)
    → release_block h b ≡ some (insert_block (store h (b + 8) magic) b p m)
unfolding release_block
releases h b p m e = ap (at_place (store h (b + 8) magic) b) e

inserts_plain :
    (h : Heap) (b p m : ℕ)
    → h.coalesce_on ≡ false
    → listed_heap h b p m ≡ insert_block (store h (b + 8) magic) b p m
unfolding insert_block
inserts_plain h b p m e = ground (arith, e)

inserts_merged :
    (h : Heap) (b p m : ℕ)
    → h.coalesce_on ≡ true
    → let h1 = listed_heap h b p m in
      let h2 = if m == 0 then h1 else absorb h1 b m in
      (if p == 0 then h2 else absorb h2 p b) ≡ insert_block (store h (b + 8) magic) b p m
unfolding insert_block
inserts_merged h b p m e = rw e

-- On a heap that its blocks tile, with the free ones listed by address, `myfree` of the payload of a
-- block in use ends and reports no error. The heap is tiled by the same blocks with that one free, and
-- merged with a free block right after it and right before it where merging is on; the memory of the
-- other blocks in use stays.
pub myfree_lem :
    {h : Heap} (xs : List Block) (n : ℕ) (ys : List Block)
    → Rep h (xs ++ taken n ∷ ys)
    → (h' : Heap) × (myfree (h.arena + span xs + 16) h ≡ some h')
      × Keeps h (xs ++ free n ∷ ys) h' (released h.coalesce_on xs n ys)
myfree_lem {h} xs n ys v = let (m, c) = cut_used xs ys n v in from m c
  where
    b : ℕ
    b = h.arena + span xs

    from :
        (m : ℕ)
        → CutUsed h xs n ys b m
        → (h' : Heap) × (myfree (b + 16) h ≡ some h')
          × Keeps h (xs ++ free n ∷ ys) h' (released h.coalesce_on xs n ys)
    from m c =
        (insert_block (store h (b + 8) magic) b p m, taken_in ∙ releases h b p m place, result)
      where
        p : ℕ
        p = prev_of 0 h.arena xs

        bound : b + 16 + n ≤ h.arena + h.arena_len
        bound = omega (arith, Seg-end c.after)

        taken_in : myfree (b + 16) h ≡ release_block h b
        taken_in =
            accepted h b n c.block.size c.block.flags c.block.least c.block.aligned
              (omega (arith, v.aligned, Seg-aligned c.before)) (λ z. omega (arith, v.low))
              (omega arith) bound

        place : find_place (store h (b + 8) magic) b h.arena_len 0 h.free_head ≡ some (p, m)
        place =
            find_place_lem (store h (b + 8) magic) b h.arena_len 0
              (Seg-frame c.before (λ i le lt. ground arith)) past
              (omega (arith, Seg-length c.before, bound)) (omega (arith, v.low))
          where
            past : (m ≡ 0) ⊎ (b ≤ m)
            past = elim (link-range c.after) [ inl z ↦ inl z | inr le ↦ inr (omega arith) ]

        plain : Keeps h (xs ++ free n ∷ ys) (listed_heap h b p m) (xs ++ free n ∷ ys)
        plain = listed-Keeps v c

        result :
            Keeps h
              (xs ++ free n ∷ ys)
              (insert_block (store h (b + 8) magic) b p m)
              (released h.coalesce_on xs n ys)
        result = elim (Bool-cases h.coalesce_on) [
          | inr off ↦
              subst (λ (w : Heap × Bool). Keeps h (xs ++ free n ∷ ys) w.0 (released w.1 xs n ys))
                (λ i. (inserts_plain h b p m off i, sym off i)) plain
          | inl on ↦
              subst (λ (w : Heap × Bool). Keeps h (xs ++ free n ∷ ys) w.0 (released w.1 xs n ys))
                (λ i. (inserts_merged h b p m on i, sym on i)) (then-Keeps plain both (λ i u. u))
        ]
          where
            h1 : Heap
            h1 = listed_heap h b p m

            h2 : Heap
            h2 = if m == 0 then h1 else absorb h1 b m

            both :
                Keeps h1
                  (xs ++ free n ∷ ys)
                  (if p == 0 then h2 else absorb h2 p b)
                  (unite xs (merged n ys))
            both =
                subst
                  (λ a.
                    Keeps h1 (xs ++ free n ∷ ys)
                      (let d = (if m == 0 then h1 else absorb h1 (a + span xs) m) in
                        if prev_of 0 a xs == 0 then d else absorb d (prev_of 0 a xs) (a + span xs))
                      (unite xs (merged n ys)))
                  plain.statics.arena
                  (absorb_both xs ys n m plain.heap
                    (ap (λ a. fl_next h1 (a + span xs)) plain.statics.arena ∙ (lists v c).whole.2))
