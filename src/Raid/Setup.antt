-- ===== src/Raid/Setup.antt =====
-- our-course/labs/lab06-io-storage/solutions/raidsim.c: what `do_init` accepts, and the array that
-- it sets up.
use ia_operating_systems.Base.{
  ℕ, zero, suc, ◌%◌, ◌≤◌, ◌≡◌, ◌⊎◌, ◌↔◌, true, false, arith, ◌∙◌, refl, inl, inr,
}
use ia_operating_systems.Raid.State.{Array, zeros}
use ia_operating_systems.Raid.Script.{
  fresh_array, max_disks, max_rows, max_bs, init_refused, do_init,
}
use ia_operating_systems.Raid.Placement.{IsArray}
use ia_operating_systems.Raid.Xor.{xor_sum, xor_sum_congr, xor-zeros}
use ia_operating_systems.Raid.Columns.{HasParity, row_of}
use ia_operating_systems.Raid.Reads.{AllLive}
use ia_operating_systems.Raid.Mirrors.{IsMirror}

abbrev IsKnown : ℕ → Type 0
IsKnown level = (level ≡ 0) ⊎ (level ≡ 1) ⊎ (level ≡ 4) ⊎ (level ≡ 5)

-- The sizes that `do_init` lets through.
pub record IsFit (level ndisks chunk rows bs : ℕ) : Type 0 where
  pub disks : (1 ≤ ndisks) × (ndisks ≤ max_disks)
  pub height : (1 ≤ rows) × (rows ≤ max_rows)
  pub size : (1 ≤ bs) × (bs ≤ max_bs)
  pub whole : (1 ≤ chunk) × (rows % chunk ≡ 0)
  pub redundant : (level ≡ 1) ⊎ (level ≡ 4) ⊎ (level ≡ 5) → 2 ≤ ndisks

accepted :
    (level ndisks chunk rows bs : ℕ)
    → init_refused level ndisks chunk rows bs ≡ false
    → IsFit level ndisks chunk rows bs
unfolding init_refused
accepted level ndisks chunk rows bs h = ground arith

xor_sum-zeros : (n : ℕ) → xor_sum n (λ d. zeros) ≡ zeros
unfolding xor_sum
xor_sum-zeros zero = refl
xor_sum-zeros (suc n) = xor-zeros (xor_sum n (λ d. zeros)) ∙ xor_sum-zeros n

fits :
    (level ndisks chunk rows bs : ℕ)
    → IsFit level ndisks chunk rows bs
    → init_refused level ndisks chunk rows bs ≡ false
unfolding init_refused
fits level ndisks chunk rows bs f = ground arith

-- `do_init` accepts exactly the sizes within its limits, with a chunk that divides the rows and two
-- disks where there is redundancy; it does not look at whether the level is one that it knows.
pub do_init-IsFit :
    (a : Array) (level ndisks chunk rows bs : ℕ)
    → ((do_init a level ndisks chunk rows bs).0 ≡ true) ↔ IsFit level ndisks chunk rows bs
unfolding do_init
do_init-IsFit a level ndisks chunk rows bs = (
  λ h. accepted level ndisks chunk rows bs (ground arith),
  λ f. rw (fits level ndisks chunk rows bs f),
)

do_init_lem :
    (a : Array) (level ndisks chunk rows bs : ℕ)
    → IsKnown level
    → IsFit level ndisks chunk rows bs
    → let a' = (do_init a level ndisks chunk rows bs).1 in
      IsArray a'
      × AllLive a'
      × ((level ≡ 4) ⊎ (level ≡ 5) → HasParity a')
      × (level ≡ 1 → IsMirror a' (λ row. zeros))
unfolding do_init
do_init_lem a level ndisks chunk rows bs known f =
    rw (fits level ndisks chunk rows bs f) (array, (λ x lt. ground arith), parity, mirror)
  where
    fresh : Array
    fresh = fresh_array a level ndisks chunk rows bs

    array : IsArray fresh
    array = record {
      known = known;
      disks = f.disks.0;
      redundant = λ ne. ground (arith, f.redundant);
      units = f.whole.0;
      whole = f.whole.1;
    }

    parity : (level ≡ 4) ⊎ (level ≡ 5) → HasParity fresh
    parity l = record {
      array = array;
      level = ground arith;
      sums = λ row lt.
          xor_sum_congr ndisks (row_of fresh row) (λ d. zeros) (λ i ilt. ground arith)
          ∙ xor_sum-zeros ndisks;
    }

    mirror : level ≡ 1 → IsMirror fresh (λ row. zeros)
    mirror l = record { array = array; level = l; holds = λ x row xlt rlt up. ground arith }

-- An array that `do_init` set up at level 4 or 5 with sizes that it accepts is well-formed and has no
-- failed disk, and each row adds up to zero.
pub do_init-HasParity :
    (a : Array) (level ndisks chunk rows bs : ℕ)
    → (level ≡ 4) ⊎ (level ≡ 5)
    → IsFit level ndisks chunk rows bs
    → let a' = (do_init a level ndisks chunk rows bs).1 in AllLive a' × HasParity a'
do_init-HasParity a level ndisks chunk rows bs l f =
    let (v, live, parity, mirror) = do_init_lem a level ndisks chunk rows bs (inr (inr l)) f in
    (live, parity l)

-- An array that `do_init` set up at level 1 with sizes that it accepts is a mirror of zeros with no
-- failed disk.
pub do_init-IsMirror :
    (a : Array) (ndisks chunk rows bs : ℕ)
    → IsFit 1 ndisks chunk rows bs
    → let a' = (do_init a 1 ndisks chunk rows bs).1 in AllLive a' × IsMirror a' (λ row. zeros)
do_init-IsMirror a ndisks chunk rows bs f =
    let (v, live, parity, mirror) = do_init_lem a 1 ndisks chunk rows bs (inr (inl refl)) f in
    (live, mirror refl)
