-- ===== src/Malloc/Policy.antt =====
-- our-course/labs/lab03-allocator/solutions/mymalloc.c: what the search of `find_block` looks for, and its
-- outcome step by step.
use ia_operating_systems.Base.{ℕ, ◌+◌, ◌≤◌, ◌<◌, ◌≡◌, ◌≢◌, List, [], ◌∷◌, ◌++◌, arith, refl, ap}
use ia_operating_systems.Malloc.State.{Fit, first, best, worst}
use ia_operating_systems.Malloc.Tiles.{Block, taken, free, span, prev_of}

-- Each free block that fits has a size with the property.
abbrev pub FitsAll : (ℕ → Type 0) → ℕ → List Block → Type 0
FitsAll P need [] = Unit {0}
FitsAll P need (taken n ∷ xs) = FitsAll P need xs
FitsAll P need (free n ∷ xs) = (need ≤ n → P n) × FitsAll P need xs

-- No free block fits.
abbrev pub NoFit : ℕ → List Block → Type 0
NoFit need = FitsAll (λ n. ⊥) need

-- What the policy asks of the chosen size `n` and the size `s` of a block that fits and comes before
-- it, and of one that comes after it.
abbrev pub Beats : Fit → ℕ → ℕ → Type 0
Beats first n s = ⊥
Beats best n s = n < s
Beats worst n s = s < n

abbrev pub Holds : Fit → ℕ → ℕ → Type 0
Holds first n s = Unit {0}
Holds best n s = n ≤ s
Holds worst n s = s ≤ n

-- The block at `b` after the free block `q`, among the blocks from `a` on that follow the free block
-- `p`, is the one that the policy wants.
pub record Choice (fit : Fit) (need p a : ℕ) (bs : List Block) (b q : ℕ) : Type 0 where
  pub before : List Block
  pub size : ℕ
  pub after : List Block
  pub blocks : bs ≡ before ++ free size ∷ after
  pub place : b ≡ a + span before
  pub prev : q ≡ prev_of p a before
  pub fits : need ≤ size
  pub earlier : FitsAll (Beats fit size) need before
  pub later : FitsAll (Holds fit size) need after

-- The outcome of the rest of the search, when `c` of size `s` is chosen so far.
pub data Outcome (fit : Fit) (need p a s c cp : ℕ) (bs : List Block) : ℕ × ℕ → Type 0 where
  kept :
      (c ≡ 0 → NoFit need bs)
      → (c ≢ 0 → FitsAll (Holds fit s) need bs)
      → Outcome fit need p a s c cp bs (c, cp)
  chosen :
      {b q : ℕ}
      → (v : Choice fit need p a bs b q) → (c ≢ 0 → Beats fit v.size s)
      → Outcome fit need p a s c cp bs (b, q)

pub skip_taken :
    {fit : Fit} {need p a s c cp n : ℕ} {bs : List Block} {r : ℕ × ℕ}
    → Outcome fit need p (a + 16 + n) s c cp bs r
    → Outcome fit need p a s c cp (taken n ∷ bs) r
skip_taken (kept none_fits holds) = kept none_fits holds
skip_taken {n = n} (chosen v beats) =
    chosen
      (record {
        before = taken n ∷ v.before;
        size = v.size;
        after = v.after;
        blocks = ap (λ xs. taken n ∷ xs) v.blocks;
        place = omega (arith, v.place);
        prev = v.prev;
        fits = v.fits;
        earlier = v.earlier;
        later = v.later;
      })
      beats

-- A free block that is passed over, since it does not fit or does not beat the chosen one.
pub skip_free :
    {fit : Fit} {need p a s c cp n : ℕ} {bs : List Block} {r : ℕ × ℕ}
    → (need ≤ n → (c ≢ 0) × Holds fit s n)
    → ((k : ℕ) → need ≤ n → (c ≢ 0 → Beats fit k s) → Beats fit k n)
    → Outcome fit need a (a + 16 + n) s c cp bs r
    → Outcome fit need p a s c cp (free n ∷ bs) r
skip_free keep lose (kept none_fits holds) =
    kept (λ z. ((λ h. absurd ((keep h).0 z)), none_fits z)) (λ nz. ((λ h. (keep h).1), holds nz))
skip_free {n = n} keep lose (chosen v beats) =
    chosen
      (record {
        before = free n ∷ v.before;
        size = v.size;
        after = v.after;
        blocks = ap (λ xs. free n ∷ xs) v.blocks;
        place = omega (arith, v.place);
        prev = v.prev;
        fits = v.fits;
        earlier = ((λ h. lose v.size h beats), v.earlier);
        later = v.later;
      })
      beats

-- A free block that takes over: it stays the choice, or a later one beats it.
pub take_free :
    {fit : Fit} {need p a s c cp n : ℕ} {bs : List Block} {r : ℕ × ℕ}
    → need ≤ n
    → 0 < a
    → (c ≢ 0 → Beats fit n s)
    → ((k : ℕ) → Beats fit k n → Beats fit n s → Beats fit k s)
    → Outcome fit need a (a + 16 + n) n a p bs r
    → Outcome fit need p a s c cp (free n ∷ bs) r
take_free {a = a} {n = n} {bs = bs} fits pos beats trans (kept none_fits holds) =
    chosen
      (record {
        before = [];
        size = n;
        after = bs;
        blocks = refl;
        place = omega arith;
        prev = refl;
        fits = fits;
        earlier = tt;
        later = holds (λ z. omega arith);
      })
      beats
take_free {a = a} {n = n} fits pos beats trans (chosen v again) =
    chosen
      (record {
        before = free n ∷ v.before;
        size = v.size;
        after = v.after;
        blocks = ap (λ xs. free n ∷ xs) v.blocks;
        place = omega (arith, v.place);
        prev = v.prev;
        fits = v.fits;
        earlier = ((λ h. again (λ z. omega arith)), v.earlier);
        later = v.later;
      })
      (λ nz. trans v.size (again (λ z. omega arith)) (beats nz))
