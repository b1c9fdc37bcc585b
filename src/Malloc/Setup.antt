-- ===== src/Malloc/Setup.antt =====
-- our-course/labs/lab03-allocator/solutions/mymalloc.c: the arena that the first request sets up.
use native.Mathlib.Nat.{div-add-mod', mod-lt, mul-mod_left, mul_assoc}
use ia_operating_systems.Base.{
  ℕ, ◌+◌, ◌-◌, ◌*◌, ◌/◌, ◌%◌, ◌^◌, ◌≤◌, ◌<◌, ◌≡◌, ◌≢◌, ◌==◌, if◌then◌else◌, Option, none, some, [],
  ◌∷◌, arith, refl, ap, sym, ◌∙◌, subst, ℕ_discrete,
}
use ia_operating_systems.Malloc.State.{
  Heap, round_up, Env, clamp, env_size, arena_length, arena_of, arena_init,
}
use ia_operating_systems.Malloc.Tiles.{free, end, listed, Rep}
use ia_operating_systems.Malloc.Settings.{Wanted, FreshArena, arena_of-FreshArena}
use ia_operating_systems.Malloc.Alloc.{mymalloc, malloc_in}
use ia_operating_systems.Malloc.Place.{Served, mymalloc-Served}

round_up_lem :
    (n k : ℕ)
    → n ≤ 2 ^ 26
    → 1 ≤ k
    → k ≤ 2 ^ 20
    → (n ≤ round_up n (k * 16)) × (round_up n (k * 16) ≤ 2 ^ 27) × (round_up n (k * 16) % 16 ≡ 0)
unfolding round_up
round_up_lem n k small pos large =
    let t : ℕ = (n + k * 16 - 1) % 2 ^ 64 in
    let whole : t ≡ n + k * 16 - 1 = omega arith in
    let parts = div-add-mod' t (k * 16) in
    let rest = mod-lt t {m = k * 16} (omega arith) in
    let even : t / (k * 16) * (k * 16) % 16 ≡ 0 =
      ap (λ x. x % 16) (sym (mul_assoc (t / (k * 16)) k 16)) ∙ mul-mod_left (t / (k * 16) * k) 16 in
    (omega arith, omega arith, even)

-- What is relied on of the system: pages are of a whole number of headers and at most 16 MB large, and a
-- mapping is aligned, not at the bottom of memory and not at its top.
pub record IsEnv (env : Env) : Type 0 where
  pub pages : (k : ℕ) × (k ≤ 2 ^ 20) × (env.page ≡ k * 16)
  pub aligned : (len m : ℕ) → env.mmap len ≡ some m → m % 16 ≡ 0
  pub placed : (len m : ℕ) → env.mmap len ≡ some m → (32 ≤ m) × (m + len < 2 ^ 63)

clamp_lem : (n : ℕ) → (64 * 1024 ≤ clamp n) × (clamp n ≤ 2 ^ 26)
clamp_lem n = (ground arith, ground arith)

-- The length of the arena is a whole number of headers between 64 KB and 128 MB.
pub arena_length_lem :
    (env : Env)
    → IsEnv env
    → (64 * 1024 ≤ arena_length env) × (arena_length env ≤ 2 ^ 27) × (arena_length env % 16 ≡ 0)
unfolding arena_length
arena_length_lem env v = from v.pages.0 v.pages.1 v.pages.2 (ℕ_discrete v.pages.0 0)
  where
    Good : ℕ → Type 0
    Good n = (64 * 1024 ≤ n) × (n ≤ 2 ^ 27) × (n % 16 ≡ 0)

    wanted : ℕ
    wanted = clamp (env_size env.arena_bytes (2 ^ 20))

    bounds : (64 * 1024 ≤ wanted) × (wanted ≤ 2 ^ 26)
    bounds = clamp_lem (env_size env.arena_bytes (2 ^ 20))

    sized :
        (k : ℕ)
        → (if env.page == 0 then 4096 else env.page) ≡ k * 16
        → (wanted ≤ round_up wanted (k * 16))
          × (round_up wanted (k * 16) ≤ 2 ^ 27)
          × (round_up wanted (k * 16) % 16 ≡ 0)
        → Good (round_up wanted (if env.page == 0 then 4096 else env.page))
    sized k e (a, b, c) =
        subst (λ n. Good (round_up wanted n)) (sym e) (omega (arith, bounds), b, c)

    from : (k : ℕ) → k ≤ 2 ^ 20 → env.page ≡ k * 16 → Dec (k ≡ 0) → Good (arena_length env)
    from k small e (yes z) =
        sized 256 (ground arith) (round_up_lem wanted 256 bounds.1 (omega arith) (omega arith))
    from k small e (no nz) =
        sized k (ground arith) (round_up_lem wanted k bounds.1 (omega arith) small)

arena_of-Rep :
    (env : Env) (h : Heap) (m len : ℕ)
    → m % 16 ≡ 0
    → 32 ≤ m
    → 32 ≤ len
    → len % 16 ≡ 0
    → m + len < 2 ^ 63
    → Rep (arena_of env h m len) (free (len - 16) ∷ [])
unfolding arena_of
arena_of-Rep env h m len whole low least whole_len high = record {
  low = low;
  aligned = whole;
  high = high;
  tiles =
      listed
        (record {
          size = ground arith;
          flags = ground arith;
          least = omega arith;
          aligned = omega arith;
        })
        refl (end (ground arith) (omega arith));
}

arena_init_lem :
    (env : Env) (h : Heap) (m : ℕ)
    → IsEnv env
    → env.mmap (arena_length env) ≡ some m
    → (arena_init env h ≡ some (arena_of env h m (arena_length env)))
      × Rep (arena_of env h m (arena_length env)) (free (arena_length env - 16) ∷ [])
unfolding arena_init
arena_init_lem env h m v e =
    let length = arena_length_lem env v in
    let (low, high) = v.placed (arena_length env) m e in
    (
      rw (arena_init, e) refl,
      arena_of-Rep env h m (arena_length env) (v.aligned (arena_length env) m e) low (omega arith)
          length.2 high,
    )

unmapped : (env : Env) (h : Heap) → env.mmap (arena_length env) ≡ none → arena_init env h ≡ none
unfolding arena_init
unmapped env h e = rw (arena_init, e) refl

mymalloc-fresh :
    (env : Env) (size : ℕ) (h h' : Heap)
    → h.arena ≡ 0
    → arena_init env h ≡ some h'
    → mymalloc env size h ≡ malloc_in size h'
unfolding mymalloc
mymalloc-fresh env size h h' e f = rw (f, e) refl

mymalloc-unmapped :
    (env : Env) (size : ℕ) (h : Heap)
    → h.arena ≡ 0
    → arena_init env h ≡ none
    → mymalloc env size h ≡ some (0, h)
unfolding mymalloc
mymalloc-unmapped env size h e f = rw (f, e) refl

mymalloc-started :
    (env : Env) (size : ℕ) (h : Heap) → h.arena ≢ 0 → mymalloc env size h ≡ malloc_in size h
unfolding mymalloc
mymalloc-started env size h e = ground arith

-- What the first request comes to: NULL where no memory is mapped, else an arena of one free block in
-- the mapping, from which the request is served.
pub data First (env : Env) (size : ℕ) (h : Heap) (v : ℕ) : Type 0 where
  no_memory :
      env.mmap (arena_length env) ≡ none → mymalloc env size h ≡ some (0, h) → First env size h v
  from_arena :
      (m : ℕ) (h' : Heap) (r : ℕ × Heap)
      → env.mmap h'.arena_len ≡ some m
      → FreshArena env h v m h'
      → Rep h' (free (h'.arena_len - 16) ∷ [])
      → mymalloc env size h ≡ some r
      → Served size h' (free (h'.arena_len - 16) ∷ []) r.0 r.1
      → First env size h v

-- The first request, without an arena yet, where pages are of a whole number of headers and at most 16 MB
-- large and MYM_ARENA_BYTES is not set, empty, no number or a number `v` below 2^64: it answers NULL and
-- changes nothing where no memory is mapped. Where it is, the request is served from an arena that is
-- one free block and that is the mapping; its length is `v`, or 1 MB without a number, within the limits
-- of 64 KB and 64 MB and rounded up to the least multiple of the page size, and merging is off exactly
-- where MYM_COALESCE is "0".
pub mymalloc-First :
    (env : Env) (size : ℕ) (h : Heap) (v : ℕ)
    → IsEnv env
    → Wanted env.arena_bytes v
    → h.arena ≡ 0
    → First env size h v
unfolding arena_of arena_length
mymalloc-First env size h v w wanted e = from (env.mmap (arena_length env)) refl
  where
    from : (o : Option ℕ) → env.mmap (arena_length env) ≡ o → First env size h v
    from none f = no_memory f (mymalloc-unmapped env size h e (unmapped env h f))
    from (some m) f =
        let (g, fresh) = arena_init_lem env h m w f in
        let h' = arena_of env h m (arena_length env) in
        let (r, served, ok) = mymalloc-Served env size h' fresh in
        from_arena m h' r f
          (arena_of-FreshArena env h v m (omega (arith, w.pages.1, w.pages.2)) wanted) fresh
          (mymalloc-fresh env size h h' e g
            ∙ sym (mymalloc-started env size h' (λ z. omega (arith, fresh.low, z)))
            ∙ served)
          ok
