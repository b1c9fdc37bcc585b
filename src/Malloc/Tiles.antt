-- ===== src/Malloc/Tiles.antt =====
-- our-course/labs/lab03-allocator/solutions/mymalloc.c: the blocks that tile a part of the arena, with
-- the free list that runs through the free ones in the order of their addresses.
use ia_operating_systems.Base.{
  ℕ, ◌+◌, ◌*◌, ◌%◌, ◌^◌, ◌≤◌, ◌<◌, ◌≡◌, ◌≢◌, ◌⊎◌, inl, inr, ◌==◌, if◌then◌else◌, List, [], ◌∷◌,
  ◌++◌, length, arith, refl, sym, ◌∙◌, subst,
}
use ia_operating_systems.Malloc.State.{Heap, magic}

-- A block in use or a free one, of a payload size.
pub data Block : Type 0 where
  taken free : (n : ℕ) → Block

-- How much memory blocks take with their headers.
abbrev pub span : List Block → ℕ
span [] = 0
span (taken n ∷ xs) = 16 + n + span xs
span (free n ∷ xs) = 16 + n + span xs

-- A header at `a` of a block of size `n` with these flags.
pub record IsBlock (mem : ℕ → ℕ) (a n word : ℕ) : Type 0 where
  pub size : mem a ≡ n
  pub flags : mem (a + 8) ≡ word
  pub least : 16 ≤ n
  pub aligned : n % 16 ≡ 0

-- The blocks tile the memory from `a` to `e`. The link that should lead to the first free block
-- from `a` on is `l`, and the one that leads on from the last free block is `m`.
pub data Seg (mem : ℕ → ℕ) (m e : ℕ) : ℕ → ℕ → List Block → Type 0 where
  end : {l a : ℕ} → l ≡ m → a ≡ e → Seg mem m e l a []
  used :
      {l a n : ℕ} {xs : List Block}
      → IsBlock mem a n (magic + 1)
      → Seg mem m e l (a + 16 + n) xs
      → Seg mem m e l a (taken n ∷ xs)
  listed :
      {l a n : ℕ} {xs : List Block}
      → IsBlock mem a n magic
      → l ≡ a
      → Seg mem m e (mem (a + 16)) (a + 16 + n) xs
      → Seg mem m e l a (free n ∷ xs)

-- The last free block of `xs`, or `p` if there is none.
abbrev pub prev_of : ℕ → ℕ → List Block → ℕ
prev_of p a [] = p
prev_of p a (taken n ∷ xs) = prev_of p (a + 16 + n) xs
prev_of p a (free n ∷ xs) = prev_of a (a + 16 + n) xs

-- The blocks tile the arena, which is aligned and not at the bottom of memory, and the list ends in
-- NULL.
pub record Rep (h : Heap) (bs : List Block) : Type 0 where
  pub low : 32 ≤ h.arena
  pub aligned : h.arena % 16 ≡ 0
  pub high : h.arena + h.arena_len < 2 ^ 63
  pub tiles : Seg h.mem 0 (h.arena + h.arena_len) h.free_head h.arena bs

module _ {mem : ℕ → ℕ} where
  pub Seg-end : {m e l a : ℕ} {xs : List Block} → Seg mem m e l a xs → e ≡ a + span xs
  Seg-end (end p q) = omega arith
  Seg-end (used v s) = omega (arith, Seg-end s)
  Seg-end (listed v p s) = omega (arith, Seg-end s)

  pub Seg-aligned : {m e l a : ℕ} {xs : List Block} → Seg mem m e l a xs → span xs % 16 ≡ 0
  Seg-aligned (end p q) = refl
  Seg-aligned (used v s) = omega (arith, Seg-aligned s, v.aligned)
  Seg-aligned (listed v p s) = omega (arith, Seg-aligned s, v.aligned)

  pub Seg-length : {m e l a : ℕ} {xs : List Block} → Seg mem m e l a xs → 32 * length xs ≤ span xs
  Seg-length (end p q) = omega arith
  Seg-length (used v s) = omega (arith, Seg-length s, v.least)
  Seg-length (listed v p s) = omega (arith, Seg-length s, v.least)

  pub Seg-append :
      {m k p e l a : ℕ} {xs : List Block} (ys : List Block)
      → Seg mem m k l a xs
      → Seg mem p e m k ys
      → Seg mem p e l a (xs ++ ys)
  Seg-append {p = p} {e = e} ys (end f g) t =
      subst (λ (c : ℕ × ℕ). Seg mem p e c.0 c.1 ys) (λ i. (sym f i, sym g i)) t
  Seg-append ys (used v s) t = used v (Seg-append ys s t)
  Seg-append ys (listed v f s) t = listed v f (Seg-append ys s t)

  pub Seg-split :
      {p e : ℕ} (xs ys : List Block) {l a : ℕ}
      → Seg mem p e l a (xs ++ ys)
      → (m : ℕ) × Seg mem m (a + span xs) l a xs × Seg mem p e m (a + span xs) ys
  Seg-split {p} {e} [] ys {l} {a} s =
      (l, end refl (omega arith), subst (λ k. Seg mem p e l k ys) (omega arith) s)
  Seg-split {p} {e} (taken n ∷ xs) ys {l} {a} (used v s) =
      let (m, t, u) = Seg-split xs ys {a = a + 16 + n} s in
      (
        m,
        used v (subst (λ k. Seg mem m k l (a + 16 + n) xs) (omega arith) t),
        subst (λ k. Seg mem p e m k ys) (omega arith) u,
      )
  Seg-split {p} {e} (free n ∷ xs) ys {l} {a} (listed v f s) =
      let (m, t, u) = Seg-split xs ys {a = a + 16 + n} s in
      (
        m,
        listed v f (subst (λ k. Seg mem m k (mem (a + 16)) (a + 16 + n) xs) (omega arith) t),
        subst (λ k. Seg mem p e m k ys) (omega arith) u,
      )

  -- The last free block is the one from before, or it lies in the segment.
  pub prev_of-range :
      {m e l a : ℕ} {xs : List Block} (p : ℕ)
      → Seg mem m e l a xs
      → (prev_of p a xs ≡ p) ⊎ ((a ≤ prev_of p a xs) × (prev_of p a xs + 32 ≤ e))
  prev_of-range p (end f g) = inl refl
  prev_of-range p (used v s) = elim (prev_of-range p s) [
    | inl e ↦ inl e
    | inr (low, high) ↦ inr (omega arith, high)
  ]
  prev_of-range {a = a} p (listed v f s) = elim (prev_of-range a s) [
    | inl e ↦ inr (omega arith, omega (arith, e, Seg-end s, v.least))
    | inr (low, high) ↦ inr (omega arith, high)
  ]

module _ {mem mem' : ℕ → ℕ} where
  IsBlock-frame :
      {a n word : ℕ}
      → IsBlock mem a n word
      → mem' a ≡ mem a
      → mem' (a + 8) ≡ mem (a + 8)
      → IsBlock mem' a n word
  IsBlock-frame v e f = record {
    size = e ∙ v.size;
    flags = f ∙ v.flags;
    least = v.least;
    aligned = v.aligned;
  }

  -- Memory that agrees on the segment has the same segment.
  pub Seg-frame :
      {m e l a : ℕ} {xs : List Block}
      → Seg mem m e l a xs
      → ((i : ℕ) → a ≤ i → i < e → mem' i ≡ mem i)
      → Seg mem' m e l a xs
  Seg-frame (end f g) same = end f g
  Seg-frame {a = a} (used v s) same =
      let bound = Seg-end s in
      used
        (IsBlock-frame v (same a (omega arith) (omega arith))
          (same (a + 8) (omega arith) (omega (arith, v.least))))
        (Seg-frame s (λ i le lt. same i (omega arith) lt))
  Seg-frame {m} {e} {a = a} {xs = free n ∷ xs} (listed v f s) same =
      let bound = Seg-end s in
      listed
        (IsBlock-frame v (same a (omega arith) (omega arith))
          (same (a + 8) (omega arith) (omega (arith, v.least))))
        f
        (subst (λ k. Seg mem' m e k (a + 16 + n) xs)
          (sym (same (a + 16) (omega arith) (omega (arith, v.least))))
          (Seg-frame s (λ i le lt. same i (omega arith) lt)))

  -- A change of the one link that leads on from the last free block of a segment.
  pub Seg-relink :
      {m e l a : ℕ} {xs : List Block} (p m' : ℕ)
      → Seg mem m e l a xs
      → p + 32 ≤ a
      → ((i : ℕ) → a ≤ i → i < e → i ≢ prev_of p a xs + 16 → mem' i ≡ mem i)
      → (prev_of p a xs ≢ p → mem' (prev_of p a xs + 16) ≡ m')
      → Seg mem' m' e (if prev_of p a xs == p then m' else l) a xs
  Seg-relink p m' (end f g) low same new = end (ground arith) g
  Seg-relink {a = a} {xs = taken n ∷ xs} p m' (used v s) low same new =
      let bound = Seg-end s in
      used
        (IsBlock-frame v (same a (omega arith) (omega arith) (clear a (omega arith) (omega arith)))
          (same (a + 8) (omega arith) (omega (arith, v.least))
            (clear (a + 8) (omega arith) (omega arith))))
        (Seg-relink p m' s (omega arith) (λ i le lt ne. same i (omega arith) lt ne) new)
    where
      clear : (i : ℕ) → a ≤ i → i < a + 16 → i ≢ prev_of p (a + 16 + n) xs + 16
      clear i le lt f = elim (prev_of-range p s) [
        | inl e ↦ omega arith
        | inr (lo, hi) ↦ omega arith
      ]
  Seg-relink {m} {e} {l} {a} {xs = free n ∷ xs} p m' (listed v f s) low same new =
      let bound = Seg-end s in
      listed
        (IsBlock-frame v (same a (omega arith) (omega arith) (clear a (omega arith)))
          (same (a + 8) (omega arith) (omega (arith, v.least)) (clear (a + 8) (omega arith))))
        (ground (arith, past))
        (subst (λ k. Seg mem' m' e k (a + 16 + n) xs) (link (omega (arith, bound, v.least)))
          (Seg-relink a m' s (omega (arith, v.least)) (λ i le lt ne. same i (omega arith) lt ne)
            (λ ne. new (λ g. omega (arith, past)))))
    where
      q : ℕ
      q = prev_of a (a + 16 + n) xs

      past : a ≤ q
      past = elim (prev_of-range a s) [ inl g ↦ omega arith | inr (lo, hi) ↦ omega arith ]

      clear : (i : ℕ) → i < a + 16 → i ≢ q + 16
      clear i lt g = omega (arith, past)

      link : a + 16 < e → (if q == a then m' else mem (a + 16)) ≡ mem' (a + 16)
      link lt = ground (arith, new, same (a + 16), past)

-- The blocks from `b` on are replaced, and the link that leads to them.
pub Seg-splice :
    {mem mem' : ℕ → ℕ} {m e l a b : ℕ} {xs ws : List Block} (m' : ℕ)
    → Seg mem m b l a xs
    → 32 ≤ a
    → ((i : ℕ) → i < b → i ≢ prev_of 0 a xs + 16 → mem' i ≡ mem i)
    → (prev_of 0 a xs ≢ 0 → mem' (prev_of 0 a xs + 16) ≡ m')
    → Seg mem' 0 e m' b ws
    → Seg mem' 0 e (if prev_of 0 a xs == 0 then m' else l) a (xs ++ ws)
Seg-splice {ws = ws} m' s low same new t =
    Seg-append ws (Seg-relink 0 m' s low (λ i le lt. same i lt) new) t

-- An address in the payload of a block in use.
abbrev pub InUse : ℕ → ℕ → List Block → Type 0
InUse i a [] = ⊥
InUse i a (taken n ∷ xs) = ((a + 16 ≤ i) × (i < a + 16 + n)) ⊎ InUse i (a + 16 + n) xs
InUse i a (free n ∷ xs) = InUse i (a + 16 + n) xs

module _ {mem : ℕ → ℕ} where
  pub InUse-range :
      {m e l a : ℕ} {xs : List Block} (i : ℕ)
      → Seg mem m e l a xs
      → InUse i a xs
      → (a + 16 ≤ i) × (i < e)
  InUse-range i (end f g) u = elim u [ ]
  InUse-range i (used v s) (inl h) = omega (arith, Seg-end s)
  InUse-range i (used v s) (inr u) = omega (arith, InUse-range i s u)
  InUse-range i (listed v f s) u = omega (arith, InUse-range i s u)

  -- The link of a free block is no memory of a block in use.
  pub InUse-prev :
      {m e l a : ℕ} {xs : List Block} (i p : ℕ)
      → Seg mem m e l a xs
      → p + 32 ≤ a
      → InUse i a xs
      → i ≢ prev_of p a xs + 16
  InUse-prev i p (end f g) low u e = elim u [ ]
  InUse-prev i p (used v s) low (inl h) e = elim (prev_of-range p s) [
    | inl f ↦ omega arith
    | inr (lo, hi) ↦ omega arith
  ]
  InUse-prev i p (used v s) low (inr u) e = InUse-prev i p s (omega arith) u e
  InUse-prev {a = a} i p (listed v f s) low u e = InUse-prev i a s (omega (arith, v.least)) u e

  pub InUse-split :
      {m k l a : ℕ} {xs : List Block} (i : ℕ) (ys : List Block)
      → Seg mem m k l a xs
      → InUse i a (xs ++ ys)
      → InUse i a xs ⊎ InUse i k ys
  InUse-split i ys (end f g) u = inr (subst (λ k. InUse i k ys) g u)
  InUse-split i ys (used v s) (inl h) = inl (inl h)
  InUse-split i ys (used v s) (inr u) = elim (InUse-split i ys s u) [
    | inl w ↦ inl (inr w)
    | inr w ↦ inr w
  ]
  InUse-split i ys (listed v f s) u = InUse-split i ys s u

-- The link that leads on from a segment to the end of the arena is NULL or leads past the segment.
pub link-range :
    {mem : ℕ → ℕ} {e l a : ℕ} {xs : List Block} → Seg mem 0 e l a xs → (l ≡ 0) ⊎ (a ≤ l)
link-range (end f g) = inl f
link-range (used v s) = elim (link-range s) [ inl z ↦ inl z | inr le ↦ inr (omega arith) ]
link-range (listed v f s) = inr (omega arith)
