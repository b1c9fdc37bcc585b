-- ===== src/Disksim/Costs.antt =====
-- our-course/labs/lab06-io-storage/solutions/disksim.c: the times that `serve` works out.
use native.Mathlib.Nat.{
  div-add-mod', mod-lt, add-mod-mod, mul-add-mod_self_right, add-mod_right, add-mul,
}
use ia_operating_systems.Base.{
  ℕ, suc, ◌+◌, ◌-◌, ◌*◌, ◌/◌, ◌%◌, ◌<◌, ◌≡◌, some, true, ltb, List, [], ◌∷◌, map, arith, refl, ap,
  ap₂, sym, ◌∙◌, subst, update, ℕ_discrete, update_self, update_ne,
}
use ia_operating_systems.Disksim.State.{Req, Geom, Stream, distance}
use ia_operating_systems.Disksim.Schedule.{cyl_of}
use ia_operating_systems.Disksim.Serve.{Clock, period, rotation, serve_one, serve_rest, serve}
use ia_operating_systems.Disksim.Travel.{travel}

-- The time that rows take.
abbrev pub busy : List Req → ℕ
busy [] = 0
busy (r ∷ rows) = r.seek + r.rot + r.xfer + busy rows

-- The part of it that the head moves.
abbrev pub seeking : List Req → ℕ
seeking [] = 0
seeking (r ∷ rows) = r.seek + seeking rows

-- The cylinders that the head moves over, from `cur` on, to those of the rows.
abbrev pub crossed : ℕ → List Req → ℕ
crossed cur [] = 0
crossed cur (r ∷ rows) = distance r.cyl cur + crossed r.cyl rows

-- The rows are numbered from `k` on; for each the head moves from the cylinder of the one before, `cur`
-- for the first, when that is done, and its transfer begins when its sector's edge comes round, after
-- less than a whole rotation.
abbrev pub OnTime : Geom → ℕ → ℕ → ℕ → List Req → Type 0
OnTime g k t cur [] = Unit {0}
OnTime g k t cur (r ∷ rows) =
    (r.served_idx ≡ some k)
    × (r.seek ≡ distance r.cyl cur * g.seek)
    × (r.done ≡ t + r.seek + r.rot + r.xfer)
    × (r.xfer ≡ r.nsec * g.xfer)
    × (r.rot < period g)
    × ((t + r.seek + r.rot) % period g ≡ (r.sec * g.rot) % period g)
    × OnTime g (suc k) r.done r.cyl rows

turned : (t target p : ℕ) → 0 < p → (t + (target + p - t % p) % p) % p ≡ target % p
turned t target p pos =
    let shift : t + (target + p - t % p) ≡ t / p * p + (target + p) =
      omega (arith, div-add-mod' t p, mod-lt t {m = p} pos) in
    add-mod-mod t (target + p - t % p) p
    ∙ ap (λ x. x % p) shift
    ∙ mul-add-mod_self_right (t / p) p (target + p)
    ∙ add-mod_right target p

rotation_lem :
    (g : Geom) (r : Req) (t : ℕ)
    → 0 < period g
    → (rotation g r t < period g) × ((t + rotation g r t) % period g ≡ (r.sec * g.rot) % period g)
unfolding rotation
rotation_lem g r t pos =
    subst (λ n. (n < period g) × ((t + n) % period g ≡ (r.sec * g.rot) % period g)) (sym waits)
      (
        mod-lt (r.sec * g.rot + period g - t % period g) pos,
        turned t (r.sec * g.rot) (period g) pos,
      )
  where
    lit : ltb 0 (period g) ≡ true
    lit = ground arith

    waits : rotation g r t ≡ (r.sec * g.rot + period g - t % period g) % period g
    waits = rw lit refl

-- A field that a request keeps is kept by all.
pub field-update :
    {A : Type 0} (f : Req → A) (reqs : ℕ → Req) (i : ℕ) (r : Req) (j : ℕ)
    → f r ≡ f (reqs i)
    → f (update reqs i r j) ≡ f (reqs j)
field-update f reqs i r j e = elim (ℕ_discrete i j) [
  | yes g ↦ subst (λ k. f (update reqs i r k) ≡ f (reqs k)) g (ap f (update_self reqs i r) ∙ e)
  | no ne ↦ ap f (update_ne reqs i r j ne)
]

-- The block, the number of sectors, the cylinder and the sector of a request.
abbrev pub place_of : Req → ℕ × ℕ × ℕ × ℕ
place_of r = (r.lba, r.nsec, r.cyl, r.sec)

abbrev pub places : Stream → List ℕ → List (ℕ × ℕ × ℕ × ℕ)
places s order = map (λ i. place_of (s.reqs i)) order

abbrev pub row_places : List Req → List (ℕ × ℕ × ℕ × ℕ)
row_places [] = []
row_places (r ∷ rows) = place_of r ∷ row_places rows

places-update :
    (s : Stream) (i : ℕ) (r : Req) (order : List ℕ)
    → place_of r ≡ place_of (s.reqs i)
    → places (record s { reqs = update s.reqs i r }) order ≡ places s order
places-update s i r [] e = refl
places-update s i r (j ∷ order) e =
    ap₂ ◌∷◌ (field-update place_of s.reqs i r j e) (places-update s i r order e)

travel-update :
    (s : Stream) (i : ℕ) (r : Req) (cur : ℕ) (order : List ℕ)
    → r.cyl ≡ cyl_of s i
    → travel (record s { reqs = update s.reqs i r }) cur order ≡ travel s cur order
travel-update s i r cur [] e = refl
travel-update s i r cur (j ∷ order) e =
    ap (λ c. distance c cur + travel (record s { reqs = update s.reqs i r }) c order)
      (field-update (λ q. q.cyl) s.reqs i r j e)
    ∙ ap (λ n. distance (cyl_of s j) cur + n) (travel-update s i r (cyl_of s j) order e)

-- What the rest of the loop makes of the clock.
abbrev Served : Geom → ℕ → Clock → Stream → List ℕ → Type 0
Served g k c s order =
    let (rows, s', c') = serve_rest g k c s order in
    (c'.t ≡ c.t + busy rows)
    × (c'.seek_total ≡ c.seek_total + crossed c.cur_cyl rows)
    × (crossed c.cur_cyl rows ≡ travel s c.cur_cyl order)
    × (seeking rows ≡ crossed c.cur_cyl rows * g.seek)
    × OnTime g k c.t c.cur_cyl rows
    × (row_places rows ≡ places s order)

serve_rest_lem :
    (g : Geom) (k : ℕ) (c : Clock) (s : Stream) (order : List ℕ)
    → 0 < period g
    → Served g k c s order
unfolding serve_rest serve_one
serve_rest_lem g k c s [] pos = (omega arith, omega arith, refl, omega arith, tt, refl)
serve_rest_lem g k c s (i ∷ order) pos =
    let (r, c1) = serve_one g k c (s.reqs i) in
    let rest = serve_rest_lem g (suc k) c1 (record s { reqs = update s.reqs i r }) order pos in
    let same = travel-update s i r (cyl_of s i) order refl in
    let start = c.t + distance (cyl_of s i) c.cur_cyl * g.seek in
    let angle = rotation_lem g (s.reqs i) start pos in
    let cyls = distance (cyl_of s i) c.cur_cyl in
    let later =
      crossed (cyl_of s i)
        (serve_rest g (suc k) c1 (record s { reqs = update s.reqs i r }) order).0 in
    (
      omega (arith, rest.0),
      omega (arith, rest.1),
      ap (λ n. cyls + n) (rest.2 ∙ same),
      ap (λ n. cyls * g.seek + n) rest.3 ∙ sym (add-mul cyls later g.seek),
      (refl, refl, refl, refl, angle.0, angle.1, rest.4),
      ap (λ xs. place_of (s.reqs i) ∷ xs) (rest.5 ∙ places-update s i r order refl),
    )

-- Where a rotation takes time: the rows printed are the requests in the order given, numbered from 0
-- on; for each the head moves from the cylinder of the one before when that is done, and its transfer
-- begins when its sector comes round, in less than one rotation. The summary has the sum of all their
-- times and the cylinders crossed, which at the seek time of each make up the rows' seek times.
pub serve_lem :
    (order : List ℕ) (g : Geom) (start : ℕ) (s : Stream)
    → 0 < g.spt * g.rot
    → let (rows, s', c) = serve order g start s in
      (row_places rows ≡ places s order)
      × OnTime g 0 0 start rows
      × (c.t ≡ busy rows)
      × (c.seek_total ≡ crossed start rows)
      × (crossed start rows ≡ travel s start order)
      × (seeking rows ≡ c.seek_total * g.seek)
unfolding serve
serve_lem order g start s pos =
    let v = serve_rest_lem g 0 (record { t = 0; cur_cyl = start; seek_total = 0 }) s order pos in
    (
      v.5,
      v.4,
      omega (arith, v.0),
      omega (arith, v.1),
      v.2,
      v.3 ∙ ap (λ n. n * g.seek) (omega (arith, v.1)),
    )
