-- ===== src/Malloc/Unite.antt =====
-- our-course/labs/lab03-allocator/solutions/mymalloc.c: the blocks once one of them is free and merged
-- with its neighbours, and the merge with the free block before it.
use mathlib.Core.List.{append_assoc}
use ia_operating_systems.Base.{
  ℕ, ◌+◌, ◌≡◌, ◌≢◌, ◌⊎◌, inl, inr, Bool, true, false, ◌==◌, if◌then◌else◌, List, [], ◌∷◌, ◌++◌,
  arith, refl, ap, ap₂, sym, ◌∙◌, subst,
}
use ia_operating_systems.Malloc.State.{Heap, fl_next}
use ia_operating_systems.Malloc.Free.{absorb}
use ia_operating_systems.Malloc.Tiles.{Block, taken, free, span, Seg, used, listed, prev_of, Rep}
use ia_operating_systems.Malloc.Take.{cut}
use ia_operating_systems.Malloc.Absorb.{merged, Keeps, Keeps-refl, absorb_lem}

abbrev AllTaken : List Block → Type 0
AllTaken [] = Unit {0}
AllTaken (taken n ∷ xs) = AllTaken xs
AllTaken (free n ∷ xs) = ⊥

record LastFree (xs : List Block) : Type 0 where
  front : List Block
  size : ℕ
  back : List Block
  blocks : xs ≡ front ++ free size ∷ back
  busy : AllTaken back

last_free : (xs : List Block) → AllTaken xs ⊎ LastFree xs
last_free [] = inl tt
last_free (taken n ∷ xs) = elim (last_free xs) [
  | inl t ↦ inl t
  | inr l ↦ inr (record {
    front = taken n ∷ l.front;
    size = l.size;
    back = l.back;
    blocks = ap (λ zs. taken n ∷ zs) l.blocks;
    busy = l.busy;
  })
]
last_free (free n ∷ xs) = elim (last_free xs) [
  | inl t ↦ inr (record { front = []; size = n; back = xs; blocks = refl; busy = t })
  | inr l ↦ inr (record {
    front = free n ∷ l.front;
    size = l.size;
    back = l.back;
    blocks = ap (λ zs. free n ∷ zs) l.blocks;
    busy = l.busy;
  })
]

-- The last free block of `xs` is merged with what comes after `xs`, if it is the last block.
abbrev pub unite : List Block → List Block → List Block
unite [] ws = ws
unite (taken k ∷ xs) ws = taken k ∷ unite xs ws
unite (free k ∷ []) ws = merged k ws
unite (free k ∷ x ∷ xs) ws = free k ∷ unite (x ∷ xs) ws

-- The blocks after the one of size `n` between `xs` and `ys` is free, merged with its free neighbours
-- where that is on.
abbrev pub released : Bool → List Block → ℕ → List Block → List Block
released false xs n ys = xs ++ free n ∷ ys
released true xs n ys = unite xs (merged n ys)

unite_busy : (xs ws : List Block) → AllTaken xs → unite xs ws ≡ xs ++ ws
unite_busy [] ws t = refl
unite_busy (taken k ∷ xs) ws t = ap (λ zs. taken k ∷ zs) (unite_busy xs ws t)
unite_busy (free k ∷ xs) ws t = elim t [ ]

unite_last :
    (xs us ws : List Block) (k : ℕ)
    → AllTaken us
    → unite (xs ++ free k ∷ us) ws ≡ xs ++ merged k (us ++ ws)
unite_last [] [] ws k t = refl
unite_last [] (taken n ∷ us) ws k t = ap (λ zs. free k ∷ taken n ∷ zs) (unite_busy us ws t)
unite_last [] (free n ∷ us) ws k t = elim t [ ]
unite_last (taken n ∷ xs) us ws k t = ap (λ zs. taken n ∷ zs) (unite_last xs us ws k t)
unite_last (free n ∷ []) us ws k t = ap (λ zs. free n ∷ zs) (unite_last [] us ws k t)
unite_last (free n ∷ x ∷ xs) us ws k t = ap (λ zs. free n ∷ zs) (unite_last (x ∷ xs) us ws k t)

prev_of_busy : (p a : ℕ) (xs : List Block) → AllTaken xs → prev_of p a xs ≡ p
prev_of_busy p a [] t = refl
prev_of_busy p a (taken n ∷ xs) t = prev_of_busy p (a + 16 + n) xs t
prev_of_busy p a (free n ∷ xs) t = elim t [ ]

prev_of_last :
    (p a k : ℕ) (xs us : List Block) → AllTaken us → prev_of p a (xs ++ free k ∷ us) ≡ a + span xs
prev_of_last p a k [] us t = prev_of_busy a (a + 16 + k) us t ∙ omega arith
prev_of_last p a k (taken n ∷ xs) us t = prev_of_last p (a + 16 + n) k xs us t ∙ omega arith
prev_of_last p a k (free n ∷ xs) us t = prev_of_last a (a + 16 + n) k xs us t ∙ omega arith

span-append : (xs ys : List Block) → span (xs ++ ys) ≡ span xs + span ys
span-append [] ys = omega arith
span-append (taken n ∷ xs) ys = omega (arith, span-append xs ys)
span-append (free n ∷ xs) ys = omega (arith, span-append xs ys)

-- The link over blocks in use leads to the free block after them.
link_over :
    {mem : ℕ → ℕ} {e : ℕ} (us zs : List Block) (N : ℕ) {l a : ℕ}
    → AllTaken us
    → Seg mem 0 e l a (us ++ free N ∷ zs)
    → l ≡ a + span us
link_over [] zs N t (listed v f s) = omega arith
link_over (taken n ∷ us) zs N t (used v s) = omega (arith, link_over us zs N t s)
link_over (free n ∷ us) zs N t s = elim t [ ]

absorb_over :
    {h : Heap} (front : List Block) (k : ℕ) (back zs : List Block) (N : ℕ)
    → Rep h (front ++ free k ∷ (back ++ free N ∷ zs))
    → AllTaken back
    → let b = h.arena + span front in
      Keeps h
        (front ++ free k ∷ (back ++ free N ∷ zs))
        (absorb h b (b + 16 + k + span back))
        (front ++ merged k (back ++ free N ∷ zs))
absorb_over {h} front k back zs N v t =
    subst
      (λ c.
        Keeps h (front ++ free k ∷ (back ++ free N ∷ zs)) (absorb h (h.arena + span front) c)
          (front ++ merged k (back ++ free N ∷ zs)))
      onward (absorb_lem front k (back ++ free N ∷ zs) v (λ z. omega (arith, onward, v.low)))
  where
    onward : fl_next h (h.arena + span front) ≡ h.arena + span front + 16 + k + span back
    onward = link_over back zs N t (cut front (back ++ free N ∷ zs) k v).after

past_none : (h : Heap) (p b : ℕ) → p ≡ 0 → h ≡ (if p == 0 then h else absorb h p b)
past_none h p b e = ground arith

past_some : (h : Heap) (p b : ℕ) → p ≢ 0 → absorb h p b ≡ (if p == 0 then h else absorb h p b)
past_some h p b ne = ground arith

-- The merge with the last free block before.
pub absorb_back :
    {h : Heap} (xs zs : List Block) (N : ℕ)
    → Rep h (xs ++ free N ∷ zs)
    → let p = prev_of 0 h.arena xs in
      Keeps h
        (xs ++ free N ∷ zs)
        (if p == 0 then h else absorb h p (h.arena + span xs))
        (unite xs (free N ∷ zs))
absorb_back {h} xs zs N v = elim (last_free xs) [
  | inl t ↦
      subst (λ (c : Heap × List Block). Keeps h (xs ++ free N ∷ zs) c.0 c.1)
        (λ i. (
          past_none h (prev_of 0 h.arena xs) (h.arena + span xs) (prev_of_busy 0 h.arena xs t) i,
          sym (unite_busy xs (free N ∷ zs) t) i,
        ))
        (Keeps-refl v)
  | inr l ↦
      subst (λ (c : List Block × Heap × List Block). Keeps h c.0 c.1 c.2)
        (λ i. (
          sym (whole l) i,
          (ap₂ (absorb h) (sym (before l)) (sym (here l))
                ∙ past_some h (prev_of 0 h.arena xs) (h.arena + span xs)
                    (λ z. omega (arith, before l, v.low)))
              i,
          sym (result l) i,
        ))
        (absorb_over l.front l.size l.back zs N (subst (Rep h) (whole l) v) l.busy)
]
  where
    whole : (l : LastFree xs) → xs ++ free N ∷ zs ≡ l.front ++ free l.size ∷ (l.back ++ free N ∷ zs)
    whole l =
        ap (λ ws. ws ++ free N ∷ zs) l.blocks
        ∙ append_assoc l.front (free l.size ∷ l.back) (free N ∷ zs)

    before : (l : LastFree xs) → prev_of 0 h.arena xs ≡ h.arena + span l.front
    before l = ap (prev_of 0 h.arena) l.blocks ∙ prev_of_last 0 h.arena l.size l.front l.back l.busy

    here :
        (l : LastFree xs) → h.arena + span xs ≡ h.arena + span l.front + 16 + l.size + span l.back
    here l = omega (arith, ap span l.blocks, span-append l.front (free l.size ∷ l.back))

    result :
        (l : LastFree xs)
        → unite xs (free N ∷ zs) ≡ l.front ++ merged l.size (l.back ++ free N ∷ zs)
    result l =
        ap (λ ws. unite ws (free N ∷ zs)) l.blocks
        ∙ unite_last l.front l.back (free N ∷ zs) l.size l.busy
