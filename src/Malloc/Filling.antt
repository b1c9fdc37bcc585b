-- ===== src/Malloc/Filling.antt =====
-- our-course/labs/lab03-allocator/solutions/mymalloc.c: the heap checker's walk through the
-- blocks.
use ia_operating_systems.Base.{
  ℕ, zero, suc, ◌+◌, ◌-◌, ◌*◌, ◌≤◌, ◌≡◌, ◌≢◌, ◌⊎◌, inl, inr, Bool, true, false, ltb, leb,
  if◌then◌else◌, arith, ap, ap₂, sym, ◌∙◌, Bool-cases, dec_lt, ℕ_discrete,
}
use ia_operating_systems.Malloc.State.{Heap, size_of, hdr_ok, hdr_used}
use ia_operating_systems.Malloc.Check.{bad_size, missed_merge, phys_walk}
use ia_operating_systems.Malloc.Valid.{
  IsMarked-hdr_ok, IsUsed, hdr_used-IsUsed, IsUsed-hdr_used, hdr_used-IsFree, IsFree-hdr_used,
  IsHeader, Filled, filled_end, used_block, free_block, bad_size-IsHeader, IsHeader-bad_size,
}

-- A walk that met a fault reports one.
phys_walk-bad :
    (h : Heap) (steps p prev bad k : ℕ) → (phys_walk h steps p prev bad k).0 ≡ 0 → bad ≡ 0
unfolding phys_walk
phys_walk-bad h zero p prev bad k e = ground arith
phys_walk-bad h (suc steps) p prev bad k e = ground (
  arith,
  phys_walk-bad h steps (p + 16 + size_of h p) p (if missed_merge h prev p then bad + 1 else bad)
      (if hdr_used h p then k else k + 1),
)

-- One round of the first walk that leaves no fault.
data Round (h : Heap) (steps p prev k : ℕ) : ℕ × ℕ → Type 0 where
  at_end : h.arena + h.arena_len ≤ p → Round h steps p prev k (0, k)
  goes_on :
      IsHeader h p
      → Round h steps p prev k (
          phys_walk h steps
            (p + 16 + size_of h p)
            p
            (if missed_merge h prev p then 1 else 0)
            (if hdr_used h p then k else k + 1))

phys_walk-Round :
    (h : Heap) (steps p prev k : ℕ)
    → (phys_walk h (suc steps) p prev 0 k).0 ≡ 0
    → Round h steps p prev k (phys_walk h (suc steps) p prev 0 k)
unfolding phys_walk
phys_walk-Round h steps p prev k e = elim (dec_lt p (h.arena + h.arena_len)) [
  | no past ↦
      let stop : leb (h.arena + h.arena_len) p ≡ true = ground arith in
      rw stop (at_end (omega arith))
  | yes lt ↦
      let more : leb (h.arena + h.arena_len) p ≡ false = ground arith in
      let wide : ltb (h.arena + h.arena_len - p) 16 ≡ false = ground arith in
      let marked : hdr_ok h p ≡ true = ground arith in
      let sized : bad_size h p ≡ false = ground arith in
      rw (more, wide, marked, sized) (goes_on (bad_size-IsHeader h p marked sized))
]

merges :
    (h : Heap) (prev p : ℕ)
    → missed_merge h prev p ≡ false
    → hdr_used h p ≡ false
    → h.coalesce_on ≡ true
    → prev ≢ 0
    → IsUsed h prev
unfolding missed_merge
merges h prev p m f on ne = hdr_used-IsUsed h prev (ground arith)

merged :
    (h : Heap) (prev p : ℕ)
    → (h.coalesce_on ≡ true → prev ≢ 0 → IsUsed h prev)
    → missed_merge h prev p ≡ false
unfolding missed_merge
merged h prev p f = elim (Bool-cases h.coalesce_on) [
  | inr off ↦ ground arith
  | inl on ↦ elim (ℕ_discrete prev 0) [
    | yes none_before ↦ ground arith
    | no ne ↦ ground (arith, IsUsed-hdr_used h prev (f on ne))
  ]
]

no_merge : (h : Heap) (prev p : ℕ) → hdr_used h p ≡ true → missed_merge h prev p ≡ false
unfolding missed_merge
no_merge h prev p u = ground arith

beyond : (h : Heap) (p : ℕ) → IsHeader h p → leb (h.arena + h.arena_len) p ≡ false
beyond h p v = ground (arith, v.inside)

wide : (h : Heap) (p : ℕ) → IsHeader h p → ltb (h.arena + h.arena_len - p) 16 ≡ false
wide h p v = ground (arith, v.inside)

-- What the first walk passes fills the arena.
pub phys_walk-Filled :
    (h : Heap) (steps p prev k : ℕ)
    → p ≤ h.arena + h.arena_len
    → (phys_walk h steps p prev 0 k).0 ≡ 0
    → (j : ℕ) × Filled h p prev j × ((phys_walk h steps p prev 0 k).1 ≡ k + j)
unfolding phys_walk
phys_walk-Filled h zero p prev k le e = (0, filled_end (ground arith), omega arith)
phys_walk-Filled h (suc steps) p prev k le e =
    go (λ k' le' e'. phys_walk-Filled h steps (p + 16 + size_of h p) p k' le' e')
      (phys_walk h (suc steps) p prev 0 k) e (phys_walk-Round h steps p prev k e)
  where
    step : Bool → Bool → ℕ × ℕ
    step m u =
        phys_walk h steps (p + 16 + size_of h p) p (if m then 1 else 0) (if u then k else k + 1)

    passes :
        ((k' : ℕ)
          → p + 16 + size_of h p ≤ h.arena + h.arena_len
          → (phys_walk h steps (p + 16 + size_of h p) p 0 k').0 ≡ 0
          → (j : ℕ) × Filled h (p + 16 + size_of h p) p j
            × ((phys_walk h steps (p + 16 + size_of h p) p 0 k').1 ≡ k' + j))
        → IsHeader h p
        → (missed_merge h prev p ≡ true) ⊎ (missed_merge h prev p ≡ false)
        → (hdr_used h p ≡ true) ⊎ (hdr_used h p ≡ false)
        → (step (missed_merge h prev p) (hdr_used h p)).0 ≡ 0
        → (j : ℕ) × Filled h p prev j × ((step (missed_merge h prev p) (hdr_used h p)).1 ≡ k + j)
    passes ih v (inl m) u e =
        let clean =
          phys_walk-bad h steps (p + 16 + size_of h p) p (if missed_merge h prev p then 1 else 0)
            (if hdr_used h p then k else k + 1) e in
        absurd (ground (arith, clean, m))
    passes ih v (inr m) (inl u) e =
        let same : step (missed_merge h prev p) (hdr_used h p) ≡ step false true = ap₂ step m u in
        let (j, f, g) = ih k v.inside (ap (λ r. r.0) (sym same) ∙ e) in
        (j, used_block v (hdr_used-IsUsed h p u) f, ap (λ r. r.1) same ∙ g)
    passes ih v (inr m) (inr u) e =
        let same : step (missed_merge h prev p) (hdr_used h p) ≡ step false false = ap₂ step m u in
        let (j, f, g) = ih (k + 1) v.inside (ap (λ r. r.0) (sym same) ∙ e) in
        (
          suc j,
          free_block v (hdr_used-IsFree h p u) (merges h prev p m u) f,
          ap (λ r. r.1) same ∙ g ∙ omega arith,
        )

    go :
        ((k' : ℕ)
          → p + 16 + size_of h p ≤ h.arena + h.arena_len
          → (phys_walk h steps (p + 16 + size_of h p) p 0 k').0 ≡ 0
          → (j : ℕ) × Filled h (p + 16 + size_of h p) p j
            × ((phys_walk h steps (p + 16 + size_of h p) p 0 k').1 ≡ k' + j))
        → (r : ℕ × ℕ) → r.0 ≡ 0
        → Round h steps p prev k r
        → (j : ℕ) × Filled h p prev j × (r.1 ≡ k + j)
    go ih r e (at_end past) = (0, filled_end (omega arith), omega arith)
    go ih r e (goes_on v) =
        passes ih v (Bool-cases (missed_merge h prev p)) (Bool-cases (hdr_used h p)) e

-- The walk passes what fills the arena, and counts its free blocks.
pub Filled-phys_walk :
    (h : Heap) (steps : ℕ) {p prev j : ℕ} (k : ℕ)
    → Filled h p prev j
    → h.arena ≤ p
    → h.arena + h.arena_len ≤ p + 32 * steps + 31
    → phys_walk h steps p prev 0 k ≡ (0, k + j)
unfolding phys_walk
Filled-phys_walk h zero {p} {prev} k (filled_end e) low room = ground arith
Filled-phys_walk h (suc steps) {p} {prev} k (filled_end e) low room = ground arith
Filled-phys_walk h zero {p} {prev} k (used_block v u f) low room =
    absurd (omega (arith, v.positive, v.whole, v.inside))
Filled-phys_walk h zero {p} {prev} k (free_block v u m f) low room =
    absurd (omega (arith, v.positive, v.whole, v.inside))
Filled-phys_walk h (suc steps) {p} {prev} k (used_block v u f) low room =
    let next = Filled-phys_walk h steps k f (omega arith) (omega (arith, v.positive, v.whole)) in
    rw
      (
        beyond h p v,
        wide h p v,
        IsMarked-hdr_ok h p v.mark,
        IsHeader-bad_size h p low v,
        no_merge h prev p (IsUsed-hdr_used h p u),
        IsUsed-hdr_used h p u,
      )
      next
Filled-phys_walk h (suc steps) {p} {prev} k (free_block {k = j} v u m f) low room =
    let next =
      Filled-phys_walk h steps (k + 1) f (omega arith) (omega (arith, v.positive, v.whole))
      ∙ ap (λ (i : ℕ). (0, i)) {x = k + 1 + j} {y = k + suc j} (omega arith) in
    rw
      (
        beyond h p v,
        wide h p v,
        IsMarked-hdr_ok h p v.mark,
        IsHeader-bad_size h p low v,
        merged h prev p m,
        IsFree-hdr_used h p u,
      )
      next

pub Filled-room : (h : Heap) {p prev j : ℕ} → Filled h p prev j → p + 32 * j ≤ h.arena + h.arena_len
Filled-room h (filled_end e) = omega arith
Filled-room h (used_block v u f) = omega (arith, Filled-room h f)
Filled-room h (free_block v u m f) = omega (arith, Filled-room h f, v.positive, v.whole)
