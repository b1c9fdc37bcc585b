-- ===== src/Disksim/Serve.antt =====
-- our-course/labs/lab06-io-storage/solutions/disksim.c: the cost model. What `serve` prints for each
-- request and in its summary is the result; times are far below the limits of `long`.
use mathlib.Core.Option
use ia_operating_systems.Base.{
  ℕ, suc, ◌+◌, ◌-◌, ◌*◌, ◌%◌, Bool, ltb, if◌then◌else◌, Option, none, some, List, [], ◌∷◌, update,
}
use ia_operating_systems.Disksim.State.{Req, Geom, Stream, Line, load_stream, locate_all, distance}
use ia_operating_systems.Disksim.Schedule.{Policy, schedule}

-- `t` and `cur_cyl` and `seek_total` of `serve`.
pub record Clock : Type 0 where
  pub t : ℕ
  pub cur_cyl : ℕ
  pub seek_total : ℕ

abbrev pub period : Geom → ℕ
period g = g.spt * g.rot

unfoldable pub rotation : Geom → Req → ℕ → ℕ
rotation g r t =
    if ltb 0 (period g) then (r.sec * g.rot + period g - t % period g) % period g else 0

-- One round of the loop: the request as served the `k`-th.
unfoldable pub serve_one : Geom → ℕ → Clock → Req → Req × Clock
serve_one g k c r =
    let seek = distance r.cyl c.cur_cyl * g.seek in
    let rot = rotation g r (c.t + seek) in
    let xfer = r.nsec * g.xfer in
    let t = c.t + seek + rot + xfer in
    (
      record r { served_idx = some k; seek = seek; rot = rot; xfer = xfer; done = t },
      record { t = t; cur_cyl = r.cyl; seek_total = c.seek_total + distance r.cyl c.cur_cyl },
    )

-- The rest of the loop: the rows printed, the requests and the clock.
unfoldable pub serve_rest : Geom → ℕ → Clock → Stream → List ℕ → List Req × Stream × Clock
serve_rest g k c s [] = ([], s, c)
serve_rest g k c s (i ∷ order) =
    let (r, c') = serve_one g k c (s.reqs i) in
    let (rows, s', c'') = serve_rest g (suc k) c' (record s { reqs = update s.reqs i r }) order in
    (r ∷ rows, s', c'')

unfoldable pub serve : List ℕ → Geom → ℕ → Stream → List Req × Stream × Clock
serve order g start_cyl s =
    serve_rest g 0 (record { t = 0; cur_cyl = start_cyl; seek_total = 0 }) s order

-- The arguments of `do_run` once they are read, and the defaults of `main`.
pub record Options : Type 0 where
  pub geom : Geom
  pub start : ℕ
  pub dir_up : Bool

-- The geometry with at least one sector on a track.
abbrev pub sound : Geom → Geom
sound g = if ltb g.spt 1 then record g { spt = 1 } else g

abbrev pub blank_req : Req
blank_req = record {
  lba = 0;
  nsec = 0;
  cyl = 0;
  sec = 0;
  served_idx = none;
  seek = 0;
  rot = 0;
  xfer = 0;
  done = 0;
}

-- The static array at the start.
abbrev pub no_reqs : Stream
no_reqs = record { reqs = λ i. blank_req; nreq = 0 }

module _ (qsort : (ℕ → ℕ → Bool) → List ℕ → List ℕ) where
  -- `do_run` once the stream is loaded.
  unfoldable pub run_stream : Policy → Options → Stream → Option (List Req × Stream × Clock)
  run_stream policy o s =
      let g = sound o.geom in
      let s' = locate_all g s s.nreq in
      Option.map (λ order. serve order g o.start s') (schedule qsort policy s' o.start o.dir_up)

  -- `none` where the stream is too long.
  unfoldable pub do_run : Policy → Options → List Line → Option (List Req × Stream × Clock)
  do_run policy o lines = elim (load_stream no_reqs lines) [
    | none ↦ none
    | some s ↦ run_stream policy o s
  ]
