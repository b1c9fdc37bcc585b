-- ===== src/Pcbuffer/Counts.antt =====
-- our-course/labs/lab05-concurrency/part3-pcbuffer/solutions/pcbuffer.c: how many threads stand at
-- each point of `pcb_put` and `pcb_get`.
use ia_operating_systems.Base.{ℕ, ◌+◌, ◌≤◌, ◌<◌, ◌≡◌, update, tally, tally-update, weight-le-tally}
use ia_operating_systems.Pcbuffer.{
  Pc, put_test, put_sleep, put_wake, put_store, put_signal, put_unlock, get_test, get_sleep,
  get_wake, get_take, get_signal, get_unlock,
}

abbrev pub p_test : Pc → ℕ
p_test (put_test _) = 1
p_test _ = 0

abbrev pub p_sleep : Pc → ℕ
p_sleep (put_sleep _) = 1
p_sleep _ = 0

abbrev pub p_wake : Pc → ℕ
p_wake (put_wake _) = 1
p_wake _ = 0

abbrev pub p_store : Pc → ℕ
p_store (put_store _) = 1
p_store _ = 0

abbrev pub p_signal : Pc → ℕ
p_signal put_signal = 1
p_signal _ = 0

abbrev pub g_test : Pc → ℕ
g_test get_test = 1
g_test _ = 0

abbrev pub g_sleep : Pc → ℕ
g_sleep get_sleep = 1
g_sleep _ = 0

abbrev pub g_wake : Pc → ℕ
g_wake get_wake = 1
g_wake _ = 0

abbrev pub g_take : Pc → ℕ
g_take get_take = 1
g_take _ = 0

abbrev pub g_signal : Pc → ℕ
g_signal (get_signal _) = 1
g_signal _ = 0

abbrev pub unlocks : Pc → ℕ
unlocks put_unlock = 1
unlocks (get_unlock _) = 1
unlocks _ = 0

pub record Counts : Type 0 where
  pub pt : ℕ
  pub ps : ℕ
  pub pw : ℕ
  pub pst : ℕ
  pub psg : ℕ
  pub gt : ℕ
  pub gs : ℕ
  pub gw : ℕ
  pub gtk : ℕ
  pub gsg : ℕ
  pub un : ℕ

abbrev pub counts : ℕ → (ℕ → Pc) → Counts
counts n pc = record {
  pt = tally p_test n pc;
  ps = tally p_sleep n pc;
  pw = tally p_wake n pc;
  pst = tally p_store n pc;
  psg = tally p_signal n pc;
  gt = tally g_test n pc;
  gs = tally g_sleep n pc;
  gw = tally g_wake n pc;
  gtk = tally g_take n pc;
  gsg = tally g_signal n pc;
  un = tally unlocks n pc;
}

-- One count after a thread went from `q` to `p`.
abbrev pub Moves : (Pc → ℕ) → Pc → Pc → ℕ → ℕ → Type 0
Moves weight q p c d = (d + weight q ≡ c + weight p) × (weight q ≤ c)

pub record Shifted (q p : Pc) (c d : Counts) : Type 0 where
  pub pt : Moves p_test q p c.pt d.pt
  pub ps : Moves p_sleep q p c.ps d.ps
  pub pw : Moves p_wake q p c.pw d.pw
  pub pst : Moves p_store q p c.pst d.pst
  pub psg : Moves p_signal q p c.psg d.psg
  pub gt : Moves g_test q p c.gt d.gt
  pub gs : Moves g_sleep q p c.gs d.gs
  pub gw : Moves g_wake q p c.gw d.gw
  pub gtk : Moves g_take q p c.gtk d.gtk
  pub gsg : Moves g_signal q p c.gsg d.gsg
  pub un : Moves unlocks q p c.un d.un

tally-Moves :
    (weight : Pc → ℕ) (n : ℕ) (pc : ℕ → Pc) (i : ℕ) (p : Pc)
    → i < n
    → Moves weight (pc i) p (tally weight n pc) (tally weight n (update pc i p))
tally-Moves weight n pc i p lt = (tally-update weight n pc i p lt, weight-le-tally weight n pc i lt)

pub counts-update :
    (n : ℕ) (pc : ℕ → Pc) (i : ℕ) (p : Pc)
    → i < n
    → Shifted (pc i) p (counts n pc) (counts n (update pc i p))
counts-update n pc i p lt = record {
  pt = tally-Moves p_test n pc i p lt;
  ps = tally-Moves p_sleep n pc i p lt;
  pw = tally-Moves p_wake n pc i p lt;
  pst = tally-Moves p_store n pc i p lt;
  psg = tally-Moves p_signal n pc i p lt;
  gt = tally-Moves g_test n pc i p lt;
  gs = tally-Moves g_sleep n pc i p lt;
  gw = tally-Moves g_wake n pc i p lt;
  gtk = tally-Moves g_take n pc i p lt;
  gsg = tally-Moves g_signal n pc i p lt;
  un = tally-Moves unlocks n pc i p lt;
}
