-- ===== src/Disksim/State.antt =====
-- our-course/labs/lab06-io-storage/solutions/disksim.c: the requests and how a stream of them is
-- loaded. A line of the stream stands here as `sscanf` reads it; block addresses are not negative.
use ia_operating_systems.Base.{
  ℕ, zero, suc, ◌-◌, ◌/◌, ◌%◌, ltb, leb, if◌then◌else◌, Option, none, some, List, [], ◌∷◌, update,
}

pub record Req : Type 0 where
  pub lba : ℕ
  pub nsec : ℕ
  pub cyl : ℕ
  pub sec : ℕ
  pub served_idx : Option ℕ
  pub seek : ℕ
  pub rot : ℕ
  pub xfer : ℕ
  pub done : ℕ

pub record Geom : Type 0 where
  pub cylinders : ℕ
  pub spt : ℕ
  pub seek : ℕ
  pub rot : ℕ
  pub xfer : ℕ

-- The array of requests and how many of it are in use.
pub record Stream : Type 0 where
  pub reqs : ℕ → Req
  pub nreq : ℕ

abbrev pub max_req : ℕ
max_req = 200000

-- `labs_l` of a difference
abbrev pub distance : ℕ → ℕ → ℕ
distance x y = if ltb x y then y - x else x - y

pub data Line : Type 0 where
  skipped : Line
  request : ℕ → Option ℕ → Line

abbrev pub sectors : Option ℕ → ℕ
sectors none = 1
sectors (some n) = if ltb n 1 then 1 else n

-- The stream with one more request; `none` where it is too long.
unfoldable pub load_line : Stream → Line → Option Stream
load_line s skipped = some s
load_line s (request lba nsec) =
    let r = record (s.reqs s.nreq) { lba = lba; nsec = sectors nsec; served_idx = none } in
    if leb max_req s.nreq
    then none
    else some (record s { reqs = update s.reqs s.nreq r; nreq = suc s.nreq })

unfoldable pub load_lines : Stream → List Line → Option Stream
load_lines s [] = some s
load_lines s (l ∷ ls) = elim (load_line s l) [ none ↦ none | some s' ↦ load_lines s' ls ]

abbrev pub load_stream : Stream → List Line → Option Stream
load_stream s ls = load_lines (record s { nreq = 0 }) ls

-- A request with its cylinder and its sector.
abbrev pub locate : Geom → Req → Req
locate g r = record r { cyl = r.lba / g.spt; sec = r.lba % g.spt }

-- The loop of `do_run` that locates the first `n` requests.
abbrev pub locate_all : Geom → Stream → ℕ → Stream
locate_all g s zero = s
locate_all g s (suc n) =
    let s' = locate_all g s n in record s' { reqs = update s'.reqs n (locate g (s'.reqs n)) }
