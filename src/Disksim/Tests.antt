-- ===== src/Disksim/Tests.antt =====
-- our-course/labs/lab06-io-storage/solutions/disksim.c: a short stream, and the theorems at it.
use mathlib.Core.List.{Perm}
use ia_operating_systems.Base.{
  ℕ, ◌+◌, ◌*◌, ◌≤◌, ◌<◌, ◌≡◌, true, ◌==◌, if◌then◌else◌, none, some, List, [], ◌∷◌, arith, refl,
  update,
}
use ia_operating_systems.Disksim.State.{
  Req, Geom, Stream, Line, skipped, request, load_lines, load_line, load_stream,
}
use ia_operating_systems.Disksim.Schedule.{
  cyl_of, indices, sstf, sched_sstf, sched_scan, sched_cscan,
}
use ia_operating_systems.Disksim.Serve.{Clock, Options, blank_req, no_reqs, do_run}
use ia_operating_systems.Disksim.Insertion.{insertion_sort, insertion_sort-IsQsort}
use ia_operating_systems.Disksim.Travel.{travel}
use ia_operating_systems.Disksim.Sweep.{sweep_travel}
use ia_operating_systems.Disksim.Shortest.{Greedy, sched_sstf-Greedy}
use ia_operating_systems.Disksim.Costs.{OnTime, busy, seeking, crossed, row_places}
use ia_operating_systems.Disksim.Run.{do_run_lem}

abbrev lines : List Line
lines = request 520 (some 2) ∷ skipped ∷ request 950 none ∷ request 120 (some 0) ∷ []

abbrev loaded : Stream
loaded = record {
  reqs =
      update
        (update (update (λ i. blank_req) 0 (record blank_req { lba = 520; nsec = 2 })) 1
          (record blank_req { lba = 950; nsec = 1 }))
        2 (record blank_req { lba = 120; nsec = 1 });
  nreq = 3;
}

loads : load_stream no_reqs lines ≡ some loaded
unfolding load_lines load_line
loads = refl

abbrev geom : Geom
geom = record { cylinders = 500; spt = 100; seek = 1; rot = 1; xfer = 1 }

abbrev options : Options
options = record { geom = geom; start = 3; dir_up = true }

-- Requests on the cylinders 5, 9 and 1.
abbrev stream : Stream
stream = record {
  reqs = λ i. record blank_req {
    lba = if i == 0 then 520 else if i == 1 then 950 else 120;
    cyl = if i == 0 then 5 else if i == 1 then 9 else 1;
    sec = if i == 1 then 50 else 20;
    nsec = 1;
  };
  nreq = 3;
}

bounds : (i : ℕ) → i < 3 → (1 ≤ cyl_of stream i) × (cyl_of stream i ≤ 9)
bounds i lt = ground arith

sweep_travel_example :
    (travel stream 3 (sched_scan insertion_sort stream 3 true) ≤ 6 + 8)
    × (travel stream 3 (sched_cscan insertion_sort stream 3 true) ≤ 16)
sweep_travel_example =
    sweep_travel insertion_sort-IsQsort stream 3 1 9 bounds (omega arith) (omega arith) true

sched_sstf-Greedy_example :
    (order : List ℕ) × (sched_sstf stream 3 ≡ some order)
    × Perm order (indices 0 3)
    × Greedy stream 3 order
sched_sstf-Greedy_example = sched_sstf-Greedy stream 3

do_run_lem_example :
    (rows : List Req) × (s' : Stream) × (c : Clock) × (do_run insertion_sort sstf options lines
      ≡ some (rows, s', c))
    × Perm (row_places rows) ((520, 2, 5, 20) ∷ (950, 1, 9, 50) ∷ (120, 1, 1, 20) ∷ [])
    × OnTime geom 0 0 3 rows
    × (c.t ≡ busy rows)
    × (c.seek_total ≡ crossed 3 rows)
    × (seeking rows ≡ c.seek_total * 1)
do_run_lem_example = do_run_lem sstf options lines loaded insertion_sort-IsQsort (omega arith) loads
