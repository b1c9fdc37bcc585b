-- ===== src/Disksim/Generate.antt =====
-- our-course/labs/lab06-io-storage/solutions/disksim.c: the generator of streams. The lines printed are
-- the result; the arguments are not negative.
use native.Mathlib.Nat.{mod-lt}
use ia_operating_systems.Base.{
  Each, ℕ, zero, suc, ◌+◌, ◌-◌, ◌*◌, ◌/◌, ◌%◌, ◌^◌, ◌<◌, ◌≡◌, Bool, true, false, ltb, leb,
  if◌then◌else◌, List, [], ◌∷◌, length, arith, refl,
}
use ia_operating_systems.Disksim.State.{max_req}

-- The next state, and the number drawn.
unfoldable pub rng_next : ℕ → ℕ × ℕ
rng_next rng_state =
    let next = (rng_state * 6364136223846793005 + 1442695040888963407) % 2 ^ 64 in
    (next, next / 2 ^ 33 % 2 ^ 32)

pub data Kind : Type 0 where
  seq rand mixed : Kind

-- A block near the one before, kept on the disk.
abbrev pub near : ℕ → ℕ → ℕ → ℕ
near maxlba prev draw =
    let lba = if ltb (prev + draw % 17) 8 then 0 else prev + draw % 17 - 8 in
    if leb maxlba lba then maxlba - 1 else lba

-- One round of the loop of `do_gen`: the state of the generator and the block.
unfoldable pub gen_one : Kind → ℕ → ℕ → ℕ → ℕ → ℕ → ℕ × ℕ
gen_one seq maxlba loc i prev rng = (rng, i % maxlba)
gen_one rand maxlba loc i prev rng = let (rng', draw) = rng_next rng in (rng', draw % maxlba)
gen_one mixed maxlba loc i prev rng =
    let (rng', chance) = rng_next rng in
    let (rng'', draw) = rng_next rng' in
    (rng'', if ltb (chance % 100) loc then near maxlba prev draw else draw % maxlba)

unfoldable pub gen_rest : Kind → ℕ → ℕ → ℕ → ℕ → ℕ → ℕ → List ℕ
gen_rest kind maxlba loc i zero prev rng = []
gen_rest kind maxlba loc i (suc n) prev rng =
    let (rng', lba) = gen_one kind maxlba loc i prev rng in
    lba ∷ gen_rest kind maxlba loc (suc i) n lba rng'

unfoldable pub do_gen : Kind → ℕ → ℕ → ℕ → ℕ → List ℕ
do_gen kind n seed maxlba loc =
    gen_rest kind (if ltb maxlba 1 then 1 else maxlba) loc 0 (if ltb max_req n then max_req else n)
      0 ((seed + 0x9e3779b97f4a7c15) % 2 ^ 64)

near-range : (maxlba prev draw : ℕ) → 0 < maxlba → near maxlba prev draw < maxlba
near-range maxlba prev draw pos = ground arith

mixed-range :
    (maxlba loc prev chance draw : ℕ)
    → 0 < maxlba
    → (if ltb (chance % 100) loc then near maxlba prev draw else draw % maxlba) < maxlba
mixed-range maxlba loc prev chance draw pos = branches (ltb (chance % 100) loc)
  where
    branches : (b : Bool) → (if b then near maxlba prev draw else draw % maxlba) < maxlba
    branches true = near-range maxlba prev draw pos
    branches false = mod-lt draw pos

gen_one-range :
    (kind : Kind) (maxlba loc i prev rng : ℕ)
    → 0 < maxlba
    → (gen_one kind maxlba loc i prev rng).1 < maxlba
unfolding gen_one
gen_one-range seq maxlba loc i prev rng pos = mod-lt i pos
gen_one-range rand maxlba loc i prev rng pos = mod-lt _ pos
gen_one-range mixed maxlba loc i prev rng pos = mixed-range maxlba loc prev _ _ pos

gen_rest-range :
    (kind : Kind) (maxlba loc i n prev rng : ℕ)
    → 0 < maxlba
    → (length (gen_rest kind maxlba loc i n prev rng) ≡ n)
      × Each (λ lba. lba < maxlba) (gen_rest kind maxlba loc i n prev rng)
unfolding gen_rest
gen_rest-range kind maxlba loc i zero prev rng pos = (refl, tt)
gen_rest-range kind maxlba loc i (suc n) prev rng pos =
    let (rng', lba) = gen_one kind maxlba loc i prev rng in
    let rest = gen_rest-range kind maxlba loc (suc i) n lba rng' pos in
    (omega (arith, rest.0), (gen_one-range kind maxlba loc i prev rng pos, rest.1))

-- A generated stream has as many requests as wanted, up to the longest that is served, and every block
-- of it lies on the disk, which has one block at least.
pub do_gen-range :
    (kind : Kind) (n seed maxlba loc : ℕ)
    → (length (do_gen kind n seed maxlba loc) ≡ (if ltb max_req n then max_req else n))
      × Each (λ lba. lba < (if ltb maxlba 1 then 1 else maxlba)) (do_gen kind n seed maxlba loc)
unfolding do_gen
do_gen-range kind n seed maxlba loc = gen_rest-range kind _ loc 0 _ 0 _ (ground arith)
