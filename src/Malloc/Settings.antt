-- ===== src/Malloc/Settings.antt =====
-- our-course/labs/lab03-allocator/solutions/mymalloc.c: what the environment variables say to `arena_init`.
use native.Mathlib.Nat.{div-add-mod', mod-lt, mul-mod_left, mod-eq_of_lt}
use ia_operating_systems.Base.{
  ℕ, ◌+◌, ◌-◌, ◌*◌, ◌/◌, ◌%◌, ◌^◌, ◌≤◌, ◌<◌, ◌≡◌, ◌↔◌, ◌⊎◌, inl, inr, ◌==◌, ltb, leb, ◌||◌, not,
  false, if◌then◌else◌, Option, none, some, List, [], ◌∷◌, arith, refl, ap, ◌∙◌, subst, Each,
}
use ia_operating_systems.Malloc.State.{
  Heap, round_up, Env, clamp, env_digits, env_size, is_zero, arena_length, arena_of,
}

-- The number that decimal digits write, after those that make up `v`.
abbrev pub decimal : ℕ → List ℕ → ℕ
decimal v [] = v
decimal v (c ∷ cs) = decimal (v * 10 + (c - 48)) cs

abbrev pub IsDigit : ℕ → Type 0
IsDigit c = (48 ≤ c) × (c ≤ 57)

-- One of the characters is no digit.
abbrev pub NoNumber : List ℕ → Type 0
NoNumber [] = ⊥
NoNumber (c ∷ cs) = (c < 48) ⊎ ((57 < c) ⊎ NoNumber cs)

-- The size that MYM_ARENA_BYTES asks for: 1 MB where it is not set, empty or no number.
pub data Wanted : Option (List ℕ) → ℕ → Type 0 where
  unset : Wanted none (2 ^ 20)
  blank : Wanted (some []) (2 ^ 20)
  word : (cs : List ℕ) → NoNumber cs → Wanted (some cs) (2 ^ 20)
  numeral :
      (c : ℕ) (cs : List ℕ)
      → Each IsDigit (c ∷ cs)
      → decimal 0 (c ∷ cs) < 2 ^ 64
      → Wanted (some (c ∷ cs)) (decimal 0 (c ∷ cs))

decimal-grows : (v : ℕ) (cs : List ℕ) → v ≤ decimal v cs
decimal-grows v [] = omega arith
decimal-grows v (c ∷ cs) = omega (arith, decimal-grows (v * 10 + (c - 48)) cs)

env_digits-decimal :
    (v : ℕ) (cs : List ℕ)
    → Each IsDigit cs
    → decimal v cs < 2 ^ 64
    → env_digits v cs ≡ some (decimal v cs)
unfolding env_digits
env_digits-decimal v [] d small = refl
env_digits-decimal v (c ∷ cs) d small =
    let w = v * 10 + (c - 48) in
    let grown = decimal-grows w cs in
    let whole : w % 2 ^ 64 ≡ w = mod-eq_of_lt (omega arith) in
    let rest = ap (λ k. env_digits k cs) whole ∙ env_digits-decimal w cs d.1 small in
    let digit : (ltb c 48 || ltb 57 c) ≡ false = ground arith in
    let fits : ltb ((2 ^ 64 - 1) / 10) v ≡ false = ground arith in rw (digit, fits) rest

env_digits-none : (v : ℕ) (cs : List ℕ) → NoNumber cs → env_digits v cs ≡ none
unfolding env_digits
env_digits-none v [] n = absurd n
env_digits-none v (c ∷ cs) (inl lt) = ground arith
env_digits-none v (c ∷ cs) (inr (inl lt)) = ground arith
env_digits-none v (c ∷ cs) (inr (inr n)) =
    ground (arith, env_digits-none ((v * 10 + (c - 48)) % 2 ^ 64) cs n)

pub env_size-Wanted : {o : Option (List ℕ)} {v : ℕ} → Wanted o v → env_size o (2 ^ 20) ≡ v
unfolding env_size
env_size-Wanted unset = refl
env_size-Wanted blank = refl
env_size-Wanted (word [] n) = refl
env_size-Wanted (word (c ∷ cs) n) =
    ap (λ o. elim o [ none ↦ 2 ^ 20 | some v ↦ v ]) (env_digits-none 0 (c ∷ cs) n)
env_size-Wanted (numeral c cs d small) =
    ap (λ o. elim o [ none ↦ 2 ^ 20 | some v ↦ v ]) (env_digits-decimal 0 (c ∷ cs) d small)

-- The size within the limits of 64 KB and 64 MB.
abbrev pub in_limits : ℕ → ℕ
in_limits v = if leb v 65536 then 65536 else if leb 67108864 v then 67108864 else v

clamp-in_limits : (v : ℕ) → clamp v ≡ in_limits v
clamp-in_limits v = ground arith

-- The least multiple of `page` from `n` on.
pub record RoundedUp (page n len : ℕ) : Type 0 where
  pub enough : n ≤ len
  pub least : len < n + page
  pub whole : len % page ≡ 0

round_up-RoundedUp : (n a : ℕ) → n ≤ 2 ^ 26 → 1 ≤ a → a ≤ 2 ^ 24 → RoundedUp a n (round_up n a)
unfolding round_up
round_up-RoundedUp n a small pos large =
    let t : ℕ = (n + a - 1) % 2 ^ 64 in
    let same : t ≡ n + a - 1 = omega arith in
    let parts = div-add-mod' t a in
    let rest = mod-lt t {m = a} pos in
    record { enough = omega arith; least = omega arith; whole = mul-mod_left (t / a) a }

-- The page size, 4096 where the system gives none.
abbrev pub page_size : Env → ℕ
page_size env = if env.page == 0 then 4096 else env.page

pub arena_length-RoundedUp :
    (env : Env) (v : ℕ)
    → env.page ≤ 2 ^ 24
    → Wanted env.arena_bytes v
    → RoundedUp (page_size env) (in_limits v) (arena_length env)
unfolding arena_length
arena_length-RoundedUp env v small w =
    subst
      (λ n.
        RoundedUp (page_size env) n
          (round_up (clamp (env_size env.arena_bytes (2 ^ 20))) (page_size env)))
      (ap clamp (env_size-Wanted w) ∙ clamp-in_limits v)
      (round_up-RoundedUp (clamp (env_size env.arena_bytes (2 ^ 20))) (page_size env) (ground arith)
        (ground arith) (ground arith))

-- Merging is off exactly where MYM_COALESCE is "0".
coalesce-off : (o : Option (List ℕ)) → ((not (is_zero o)) ≡ false) ↔ (o ≡ some (48 ∷ []))
coalesce-off o = (off o, λ e. ap (λ k. not (is_zero k)) e)
  where
    off : (o : Option (List ℕ)) → (not (is_zero o)) ≡ false → o ≡ some (48 ∷ [])
    off none e = ground arith
    off (some []) e = ground arith
    off (some (c ∷ [])) e = let is : c ≡ 48 = ground arith in ap (λ k. some (k ∷ [])) is
    off (some (c ∷ d ∷ cs)) e = ground arith

-- The arena that is set up at `m`.
pub record FreshArena (env : Env) (h : Heap) (v m : ℕ) (h' : Heap) : Type 0 where
  pub place : h'.arena ≡ m
  pub length : RoundedUp (page_size env) (in_limits v) h'.arena_len
  pub list : h'.free_head ≡ m
  pub merging : (h'.coalesce_on ≡ false) ↔ (env.coalesce ≡ some (48 ∷ []))
  pub policy : h'.fit_policy ≡ h.fit_policy
  pub error : h'.last_error ≡ h.last_error

pub arena_of-FreshArena :
    (env : Env) (h : Heap) (v m : ℕ)
    → env.page ≤ 2 ^ 24
    → Wanted env.arena_bytes v
    → FreshArena env h v m (arena_of env h m (arena_length env))
unfolding arena_of
arena_of-FreshArena env h v m small w = record {
  place = refl;
  length = arena_length-RoundedUp env v small w;
  list = refl;
  merging = coalesce-off env.coalesce;
  policy = refl;
  error = refl;
}
