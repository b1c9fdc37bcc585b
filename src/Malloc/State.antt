-- ===== src/Malloc/State.antt =====
-- our-course/labs/lab03-allocator/solutions/mymalloc.c: the static variables, the memory and the block
-- headers. The memory is a map from addresses to 64-bit words; a header is the word of the size and,
-- 8 bytes on, the word of the flags, and the list link of a free block is the word after it. Address 0
-- is NULL. A sum of sizes wraps round at 2 ^ 64.
use ia_operating_systems.Base.{
  ℕ, ◌+◌, ◌-◌, ◌*◌, ◌/◌, ◌%◌, ◌^◌, Bool, false, not, ◌&&◌, ◌||◌, ◌==◌, ltb, leb, if◌then◌else◌,
  Option, none, some, List, [], ◌∷◌, update,
}

pub data Fit : Type 0 where
  first best worst : Fit

pub data Err : Type 0 where
  fine not_ours not_a_block double_free corrupt : Err

pub record Heap : Type 0 where
  pub mem : ℕ → ℕ
  pub arena : ℕ
  pub arena_len : ℕ
  pub free_head : ℕ
  pub fit_policy : Fit
  pub last_error : Err
  pub coalesce_on : Bool

abbrev pub add64 : ℕ → ℕ → ℕ
add64 x y = (x + y) % 2 ^ 64

-- `MYM_MAGIC` is these high 32 bits.
abbrev pub magic : ℕ
magic = 0x4d594d3000000000

abbrev pub size_of : Heap → ℕ → ℕ
size_of h b = h.mem b

abbrev pub flags_of : Heap → ℕ → ℕ
flags_of h b = h.mem (b + 8)

-- `fl_next`
abbrev pub fl_next : Heap → ℕ → ℕ
fl_next h b = h.mem (b + 16)

abbrev pub hdr_ok : Heap → ℕ → Bool
hdr_ok h b = flags_of h b / 2 ^ 32 * 2 ^ 32 == magic

abbrev pub hdr_used : Heap → ℕ → Bool
hdr_used h b = not (flags_of h b % 2 == 0)

abbrev pub store : Heap → ℕ → ℕ → Heap
store h a v = record h { mem = update h.mem a v }

-- `fl_set_next`
abbrev pub fl_set_next : Heap → ℕ → ℕ → Heap
fl_set_next h b n = store h (b + 16) n

-- The pointer to the block after `prev` on the free list, or to the first one, becomes `n`.
abbrev pub set_link : Heap → ℕ → ℕ → Heap
set_link h prev n = if prev == 0 then record h { free_head = n } else fl_set_next h prev n

-- The block after `b` in memory, 0 at the end of the arena.
unfoldable pub phys_next : Heap → ℕ → ℕ
phys_next h b = let p = b + 16 + size_of h b in if ltb p (h.arena + h.arena_len) then p else 0

unfoldable pub round_up : ℕ → ℕ → ℕ
round_up n a = (n + a - 1) % 2 ^ 64 / a * a

-- The loop of `env_size` over the characters.
unfoldable pub env_digits : ℕ → List ℕ → Option ℕ
env_digits v [] = some v
env_digits v (c ∷ cs) =
    let rest = env_digits ((v * 10 + (c - 48)) % 2 ^ 64) cs in
    if ltb c 48 || ltb 57 c then none else if ltb ((2 ^ 64 - 1) / 10) v then none else rest

-- `env_size` of what `getenv` returned.
unfoldable pub env_size : Option (List ℕ) → ℕ → ℕ
env_size none dflt = dflt
env_size (some []) dflt = dflt
env_size (some (c ∷ cs)) dflt = elim (env_digits 0 (c ∷ cs)) [ none ↦ dflt | some v ↦ v ]

-- What the system gives `arena_init`: two environment variables, the page size (0 where `sysconf`
-- fails), and the zeroed mapping of a length, if there is one.
pub record Env : Type 0 where
  pub arena_bytes : Option (List ℕ)
  pub coalesce : Option (List ℕ)
  pub page : ℕ
  pub mmap : ℕ → Option ℕ

abbrev pub is_zero : Option (List ℕ) → Bool
is_zero (some (c ∷ [])) = c == 48
is_zero _ = false

abbrev pub clamp : ℕ → ℕ
clamp len =
    if ltb len (64 * 1024)
    then 64 * 1024
    else if ltb (64 * 1024 * 1024) len
    then 64 * 1024 * 1024
    else len

unfoldable pub arena_length : Env → ℕ
arena_length env =
    round_up (clamp (env_size env.arena_bytes (2 ^ 20))) (if env.page == 0 then 4096 else env.page)

-- The arena as one free block.
unfoldable pub arena_of : Env → Heap → ℕ → ℕ → Heap
arena_of env h m len =
    let zeroed = record h {
      mem = λ a. if leb m a && ltb a (m + len) then 0 else h.mem a;
      arena = m;
      arena_len = len;
      free_head = m;
      coalesce_on = not (is_zero env.coalesce);
    } in
    fl_set_next (store (store zeroed m (len - 16)) (m + 8) magic) m 0

unfoldable pub arena_init : Env → Heap → Option Heap
arena_init env h =
    let len = arena_length env in
    elim (env.mmap len) [ none ↦ none | some m ↦ some (arena_of env h m len) ]

unfoldable pub mym_reset : Heap → Heap
mym_reset h = record h { arena = 0; arena_len = 0; free_head = 0; last_error = fine }

abbrev pub mym_set_fit : Heap → Fit → Heap
mym_set_fit h p = record h { fit_policy = p }

abbrev pub fail : Heap → Err → Heap
fail h e = record h { last_error = e }
