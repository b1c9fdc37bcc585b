-- ===== src/Disksim/Run.antt =====
-- our-course/labs/lab06-io-storage/solutions/disksim.c: `do_run` from the lines of a stream to its rows.
use mathlib.Core.List.{Perm, append-nil, append_assoc}
use mathlib.Core.List.Perm
use native.Mathlib.Nat.{mul-pos}
use mathlib.Core.Option.{some-injective, none-ne-some}
use ia_operating_systems.Base.{
  ℕ, zero, suc, map, ◌/◌, ◌%◌, ℕ_discrete, ◌+◌, ◌*◌, ◌≤◌, ◌<◌, ◌≡◌, Bool, leb, Option, none, some,
  List, [], ◌∷◌, ◌++◌, true, false, arith, refl, ap, ap₂, sym, ◌∙◌, subst, update, update_self,
  update_ne, dec_lt,
}
use ia_operating_systems.Disksim.State.{
  Req, Geom, Stream, Line, skipped, request, max_req, load_line, sectors, locate, load_lines,
  load_stream, locate_all,
}
use ia_operating_systems.Disksim.Schedule.{indices, Policy, schedule}
use ia_operating_systems.Disksim.Serve.{Clock, serve, Options, sound, no_reqs, run_stream, do_run}
use ia_operating_systems.Disksim.Qsort.{IsQsort}
use ia_operating_systems.Disksim.Once.{schedule-Perm}
use ia_operating_systems.Disksim.Costs.{
  OnTime, busy, seeking, crossed, place_of, places, row_places, serve_lem,
}

-- How many sectors a line asks for, one where it says nothing or 0.
abbrev pub sector_count : Option ℕ → ℕ
sector_count none = 1
sector_count (some zero) = 1
sector_count (some (suc n)) = suc n

sectors-sector_count : (o : Option ℕ) → sectors o ≡ sector_count o
sectors-sector_count none = refl
sectors-sector_count (some zero) = refl
sectors-sector_count (some (suc n)) = ground arith

-- The blocks that the lines of a stream ask for, with the number of sectors.
abbrev pub asked : List Line → List (ℕ × ℕ)
asked [] = []
asked (skipped ∷ ls) = asked ls
asked (request lba nsec ∷ ls) = (lba, sector_count nsec) ∷ asked ls

-- Where a block and its sectors are on a disk.
abbrev pub place : Geom → ℕ × ℕ → ℕ × ℕ × ℕ × ℕ
place g (lba, nsec) = (lba, nsec, lba / g.spt, lba % g.spt)

abbrev ask_of : Req → ℕ × ℕ
ask_of r = (r.lba, r.nsec)

abbrev blocks : Stream → List ℕ → List (ℕ × ℕ)
blocks s order = map (λ i. ask_of (s.reqs i)) order

-- The blocks of the first `n` requests, after those of the indices from `i` on.
blocks-same :
    (s t : Stream) (i n : ℕ)
    → ((j : ℕ) → j < i + n → ask_of (s.reqs j) ≡ ask_of (t.reqs j))
    → blocks s (indices i n) ≡ blocks t (indices i n)
blocks-same s t i zero f = refl
blocks-same s t i (suc n) f =
    ap₂ ◌∷◌ (f i (omega arith)) (blocks-same s t (suc i) n (λ j lt. f j (omega arith)))

blocks-suc :
    (s : Stream) (i n : ℕ)
    → blocks s (indices i (suc n)) ≡ blocks s (indices i n) ++ ask_of (s.reqs (i + n)) ∷ []
blocks-suc s i zero = ap (λ k. ask_of (s.reqs k) ∷ []) (omega arith)
blocks-suc s i (suc n) =
    ap (λ xs. ask_of (s.reqs i) ∷ xs)
      (blocks-suc s (suc i) n
        ∙ ap (λ k. blocks s (indices (suc i) n) ++ ask_of (s.reqs k) ∷ []) (omega arith))

-- A located request has its place, and the others are as before.
located-above : (g : Geom) (s : Stream) (n j : ℕ) → n ≤ j → (locate_all g s n).reqs j ≡ s.reqs j
located-above g s zero j le = refl
located-above g s (suc n) j le =
    let s' = locate_all g s n in
    update_ne s'.reqs n (locate g (s'.reqs n)) j (omega arith) ∙ located-above g s n j (omega arith)

located-below :
    (g : Geom) (s : Stream) (n j : ℕ)
    → j < n
    → place_of ((locate_all g s n).reqs j) ≡ place g (ask_of (s.reqs j))
located-below g s zero j lt = absurd (omega arith)
located-below g s (suc n) j lt =
    let s' = locate_all g s n in
    let r = locate g (s'.reqs n) in
    elim (ℕ_discrete n j) [
      | yes e ↦
          subst (λ k. place_of (update s'.reqs n r k) ≡ place g (ask_of (s.reqs k))) e
            (ap place_of (update_self s'.reqs n r)
              ∙ ap (λ q. place_of (locate g q)) (located-above g s n n (omega arith)))
      | no ne ↦ ap place_of (update_ne s'.reqs n r j ne) ∙ located-below g s n j (omega arith)
    ]

places-located :
    (g : Geom) (s : Stream) (i m n : ℕ)
    → i + m ≤ n
    → places (locate_all g s n) (indices i m) ≡ map (place g) (blocks s (indices i m))
places-located g s i zero n le = refl
places-located g s i (suc m) n le =
    ap₂ ◌∷◌ (located-below g s n i (omega arith)) (places-located g s (suc i) m n (omega arith))

locate_all-nreq : (g : Geom) (s : Stream) (n : ℕ) → (locate_all g s n).nreq ≡ s.nreq
locate_all-nreq g s zero = refl
locate_all-nreq g s (suc n) = locate_all-nreq g s n

abbrev added : Stream → ℕ → Option ℕ → Stream
added s lba nsec = record s {
  reqs =
      update s.reqs s.nreq
        (record (s.reqs s.nreq) { lba = lba; nsec = sectors nsec; served_idx = none });
  nreq = suc s.nreq;
}

load_lines-step :
    (s : Stream) (lba : ℕ) (nsec : Option ℕ) (ls : List Line)
    → s.nreq < max_req
    → load_lines s (request lba nsec ∷ ls) ≡ load_lines (added s lba nsec) ls
unfolding load_lines load_line
load_lines-step s lba nsec ls lt = rw (load_lines, load_line, fits) refl
  where
    fits : leb max_req s.nreq ≡ false
    fits = ground arith

load_lines-full :
    (s : Stream) (lba : ℕ) (nsec : Option ℕ) (ls : List Line)
    → max_req ≤ s.nreq
    → load_lines s (request lba nsec ∷ ls) ≡ none
unfolding load_lines load_line
load_lines-full s lba nsec ls le = rw (load_lines, load_line, full) refl
  where
    full : leb max_req s.nreq ≡ true
    full = ground arith

blocks-added :
    (s : Stream) (lba : ℕ) (nsec : Option ℕ)
    → blocks (added s lba nsec) (indices 0 (suc s.nreq))
      ≡ blocks s (indices 0 s.nreq) ++ (lba, sector_count nsec) ∷ []
blocks-added s lba nsec =
    blocks-suc (added s lba nsec) 0 s.nreq
    ∙ ap₂ (λ xs y. xs ++ y ∷ [])
        (blocks-same (added s lba nsec) s 0 s.nreq
          (λ j lt. ap ask_of (update_ne s.reqs s.nreq _ j (omega arith))))
        (ap (λ k. ask_of ((added s lba nsec).reqs k)) (omega arith)
          ∙ ap ask_of (update_self s.reqs s.nreq _)
          ∙ ap (λ n. (lba, n)) (sectors-sector_count nsec))

-- Loading adds the blocks asked for to those that are there.
load_lines_lem :
    (ls : List Line) (s t : Stream)
    → load_lines s ls ≡ some t
    → blocks t (indices 0 t.nreq) ≡ blocks s (indices 0 s.nreq) ++ asked ls
unfolding load_lines load_line
load_lines_lem [] s t e =
    ap (λ u. blocks u (indices 0 u.nreq)) (sym (some-injective s t e))
    ∙ sym (append-nil (blocks s (indices 0 s.nreq)))
load_lines_lem (skipped ∷ ls) s t e = load_lines_lem ls s t e
load_lines_lem (request lba nsec ∷ ls) s t e = elim (dec_lt s.nreq max_req) [
  | yes lt ↦
      load_lines_lem ls (added s lba nsec) t (sym (load_lines-step s lba nsec ls lt) ∙ e)
      ∙ ap (λ xs. xs ++ asked ls) (blocks-added s lba nsec)
      ∙ append_assoc (blocks s (indices 0 s.nreq)) ((lba, sector_count nsec) ∷ []) (asked ls)
  | no ge ↦ absurd (none-ne-some t (sym (load_lines-full s lba nsec ls (omega arith)) ∙ e))
]

loads :
    (qsort : (ℕ → ℕ → Bool) → List ℕ → List ℕ) (policy : Policy) (o : Options) (lines : List Line)
    (s : Stream)
    → load_stream no_reqs lines ≡ some s
    → do_run qsort policy o lines ≡ run_stream qsort policy o s
unfolding do_run
loads qsort policy o lines s e = rw (do_run, e) refl

runs :
    (qsort : (ℕ → ℕ → Bool) → List ℕ → List ℕ) (policy : Policy) (o : Options) (s : Stream)
    (order : List ℕ)
    → schedule qsort policy (locate_all (sound o.geom) s s.nreq) o.start o.dir_up ≡ some order
    → run_stream qsort policy o s
      ≡ some (serve order (sound o.geom) o.start (locate_all (sound o.geom) s s.nreq))
unfolding run_stream
runs qsort policy o s order e = rw (run_stream, e) refl

-- With a `qsort` that rearranges as documented, and a rotation that takes time, a stream that is not too
-- long is served whole under every policy. The rows printed have the blocks that its lines ask for,
-- each as often as it is asked for, with the number of sectors asked for, one at least, and with the
-- cylinder and the sector that the block is on. They are numbered from 0 on; for each the head moves
-- from the cylinder of the row before, the start for the first, when that row is done, and its transfer
-- begins when its sector comes round, in less than one rotation. The summary has the sum of the rows'
-- times and the cylinders that the head crosses from row to row, which at the seek time of each make up
-- the rows' seek times.
pub do_run_lem :
    {qsort : (ℕ → ℕ → Bool) → List ℕ → List ℕ} (policy : Policy) (o : Options) (lines : List Line)
    (s : Stream)
    → IsQsort qsort
    → 0 < (sound o.geom).rot
    → load_stream no_reqs lines ≡ some s
    → (rows : List Req) × (s' : Stream) × (c : Clock) × (do_run qsort policy o lines
        ≡ some (rows, s', c))
      × Perm (row_places rows) (map (place (sound o.geom)) (asked lines))
      × OnTime (sound o.geom) 0 0 o.start rows
      × (c.t ≡ busy rows)
      × (c.seek_total ≡ crossed o.start rows)
      × (seeking rows ≡ c.seek_total * (sound o.geom).seek)
do_run_lem {qsort} policy o lines s q turns e =
    let g = sound o.geom in
    let s' = locate_all g s s.nreq in
    let (order, f, perm) = schedule-Perm policy s' o.start o.dir_up q in
    let v = serve_lem order g o.start s' spins in
    let r = serve order g o.start s' in
    (
      r.0,
      r.1,
      r.2,
      loads qsort policy o lines s e ∙ runs qsort policy o s order f,
      subst (λ xs. Perm xs (map (place g) (asked lines))) (sym v.0)
          (subst (Perm (places s' order)) whole (Perm.map (λ i. place_of (s'.reqs i)) perm)),
      v.1,
      v.2,
      v.3,
      v.5,
    )
  where
    spins : 0 < (sound o.geom).spt * (sound o.geom).rot
    spins = mul-pos (ground arith) turns

    whole :
        places
          (locate_all (sound o.geom) s s.nreq)
          (indices 0 (locate_all (sound o.geom) s s.nreq).nreq)
        ≡ map (place (sound o.geom)) (asked lines)
    whole =
        ap (λ n. places (locate_all (sound o.geom) s s.nreq) (indices 0 n))
          (locate_all-nreq (sound o.geom) s s.nreq)
        ∙ places-located (sound o.geom) s 0 s.nreq s.nreq (omega arith)
        ∙ ap (map (place (sound o.geom))) (load_lines_lem lines no_reqs s e)
