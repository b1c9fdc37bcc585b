-- ===== src/Rpc.antt =====
-- our-course/labs/lab10-distributed/solutions/rpc.c: the server of remote procedure calls and its cache
-- of replies. The procedures are a parameter, a handler on a state of type `U`; what an array holds
-- before it is written is a parameter, `storage`.
pub mod Cache
pub mod Once
pub mod Rounds
mod Tests
use ia_operating_systems.Base.{
  ℕ, zero, suc, ◌+◌, ◌%◌, ◌^◌, ◌≡◌, Bool, true, false, not, ◌&&◌, ◌||◌, ◌==◌, ltb, if◌then◌else◌,
  Option, none, some, List, [], ◌∷◌, update,
}
use ia_operating_systems.Msg.{
  Mbuf, mb_winit, mb_rinit, mb_put_u32, mb_put_blob, mb_get_u32, mb_get_blob, mb_ok,
}
use ia_operating_systems.Reliable.Packet.{Packet}

abbrev pub rpc_magic : ℕ
rpc_magic = 0x52504331

abbrev pub rpc_max_payload : ℕ
rpc_max_payload = 1200

abbrev pub max_packet : ℕ
max_packet = rpc_max_payload + 64

abbrev pub rpc_ok : ℕ
rpc_ok = 0

abbrev pub rpc_halt : ℕ
rpc_halt = 255

abbrev pub cache_slots : ℕ
cache_slots = 64

-- `struct cache_ent`
pub record CacheEnt : Type 0 where
  pub used : Bool
  pub client : ℕ
  pub seq : ℕ
  pub reply : ℕ → ℕ
  pub len : ℕ

-- What the handler makes of a call.
pub record Handled (U : Type 0) : Type 0 where
  pub status : ℕ
  pub result : ℕ → ℕ
  pub rlen : ℕ
  pub state : U

-- `struct rpc_server` with the handler's state. `log` and `takes` are not in the program: the calls
-- that the handler had, the last one first, by client and number, and how often `cache_take` was called.
pub record RpcServer (U : Type 0) : Type 0 where
  pub cache : ℕ → CacheEnt
  pub evict : ℕ
  pub handled : ℕ
  pub dups : ℕ
  pub state : U
  pub log : List (ℕ × ℕ)
  pub takes : ℕ

-- A request as it is read from a packet.
pub record Request : Type 0 where
  pub magic : ℕ
  pub client : ℕ
  pub seq : ℕ
  pub proc : ℕ
  pub args : ℕ → ℕ
  pub alen : ℕ
  pub ok : Bool

unfoldable pub read_request : (ℕ → ℕ) → Packet → Request
read_request storage pkt =
    let (magic, m1) = mb_get_u32 (mb_rinit pkt.bytes pkt.size) in
    let (client, m2) = mb_get_u32 m1 in
    let (seq, m3) = mb_get_u32 m2 in
    let (proc, m4) = mb_get_u32 m3 in
    let (alen, args, m5) = mb_get_blob m4 storage rpc_max_payload in
    record {
      magic = magic;
      client = client;
      seq = seq;
      proc = proc;
      args = args;
      alen = alen;
      ok = mb_ok m5;
    }

-- The first of the `n` slots from `i` on that passes the test.
unfoldable pub first_slot : (CacheEnt → Bool) → (ℕ → CacheEnt) → ℕ → ℕ → Option ℕ
first_slot test cache i zero = none
first_slot test cache i (suc n) =
    let rest = first_slot test cache (suc i) n in if test (cache i) then some i else rest

abbrev pub belongs : ℕ → CacheEnt → Bool
belongs client e = e.used && e.client == client

abbrev pub is_free : CacheEnt → Bool
is_free e = not e.used

-- The slot with the reply to a request in it.
abbrev pub replied : CacheEnt → Request → ℕ → (ℕ → ℕ) → ℕ → CacheEnt
replied e r status result rlen =
    let m = mb_put_u32 (mb_winit e.reply max_packet) rpc_magic in
    let rm =
      mb_put_blob (mb_put_u32 (mb_put_u32 (mb_put_u32 m r.client) r.seq) (status % 2 ^ 32)) result
        rlen in
    record e { reply = rm.p; len = rm.len; seq = r.seq }

abbrev pub fresh_entry : CacheEnt
fresh_entry = record { used = false; client = 0; seq = 0; reply = λ i. 0; len = 0 }

module _ {U : Type 0} where
  abbrev pub cache_find : RpcServer U → ℕ → Option ℕ
  cache_find s client = first_slot (belongs client) s.cache 0 cache_slots

  abbrev pub claim : RpcServer U → ℕ → ℕ → RpcServer U
  claim s client t = record s {
    cache = update s.cache t (record (s.cache t) { used = true; client = client });
    takes = s.takes + 1;
  }

  abbrev pub take_at : RpcServer U → ℕ → Option ℕ → ℕ × RpcServer U
  take_at s client (some t) = (t, claim s client t)
  take_at s client none =
      (s.evict, record (claim s client s.evict) { evict = (s.evict + 1) % cache_slots })

  unfoldable pub cache_take : RpcServer U → ℕ → ℕ × RpcServer U
  cache_take s client = take_at s client (first_slot is_free s.cache 0 cache_slots)

  -- The slot of the client's calls, a new one where it has none.
  abbrev pub slot_of : RpcServer U → ℕ → Option ℕ → ℕ × RpcServer U
  slot_of s client none = cache_take s client
  slot_of s client (some t) = (t, s)

  abbrev pub store_reply : RpcServer U → ℕ → Request → ℕ → (ℕ → ℕ) → ℕ → RpcServer U
  store_reply s t r status result rlen = record s {
    cache = update s.cache t (replied (s.cache t) r status result rlen);
  }

  abbrev pub reply_of : RpcServer U → ℕ → Packet
  reply_of s t = record { bytes = (s.cache t).reply; size = (s.cache t).len }

  -- The call is handed to the handler and answered, and whether the server then returns.
  unfoldable pub execute :
      (U → ℕ → (ℕ → ℕ) → ℕ → Handled U)
      → RpcServer U
      → Request
      → Option ℕ
      → RpcServer U × Option Packet × Bool
  execute handler s r found =
      let h = handler s.state r.proc r.args r.alen in
      let halt = h.status == rpc_halt in
      let status = if halt then rpc_ok else h.status in
      let (t, s1) =
        slot_of (record s { state = h.state; log = (r.client, r.seq) ∷ s.log }) r.client found in
      let s2 = store_reply s1 t r status h.result h.rlen in
      (record s2 { handled = s2.handled + 1 }, some (reply_of s2 t), halt)

  -- What the server does with a request, by the slot of the client.
  unfoldable pub serve_request :
      (U → ℕ → (ℕ → ℕ) → ℕ → Handled U)
      → RpcServer U
      → Request
      → Option ℕ
      → RpcServer U × Option Packet × Bool
  serve_request handler s r none = execute handler s r none
  serve_request handler s r (some t) =
      if (s.cache t).seq == r.seq
      then (record s { dups = s.dups + 1 }, some (reply_of s t), false)
      else if ltb r.seq (s.cache t).seq
      then (s, none, false)
      else execute handler s r (some t)

  -- One round of the loop of `rpc_server_run` for a packet that arrived.
  unfoldable pub run_round :
      (U → ℕ → (ℕ → ℕ) → ℕ → Handled U)
      → (ℕ → ℕ)
      → RpcServer U
      → Packet
      → RpcServer U × Option Packet × Bool
  run_round handler storage s pkt =
      let r = read_request storage pkt in
      if ltb pkt.size 16
      then (s, none, false)
      else if not (r.magic == rpc_magic) || not r.ok
      then (s, none, false)
      else serve_request handler s r (cache_find s r.client)

  abbrev pub rpc_server_open : U → RpcServer U
  rpc_server_open u = record {
    cache = λ i. fresh_entry;
    evict = 0;
    handled = 0;
    dups = 0;
    state = u;
    log = [];
    takes = 0;
  }

  -- The states that the server gets to, whatever packets arrive; one that returned may go on here.
  pub data Serving (handler : U → ℕ → (ℕ → ℕ) → ℕ → Handled U) (storage : ℕ → ℕ) (u : U)
      : RpcServer U → Type 0 where
    opened : Serving handler storage u (rpc_server_open u)
    then_packet :
        {s : RpcServer U} (pkt : Packet)
        → Serving handler storage u s
        → Serving handler storage u (run_round handler storage s pkt).0
