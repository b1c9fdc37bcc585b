-- ===== src/Rpc/Tests.antt =====
-- our-course/labs/lab10-distributed/solutions/rpc.c: one request that arrives twice.
use ia_operating_systems.Base.{ℕ, ◌+◌, ◌≡◌, arith, refl, Ordered}
use ia_operating_systems.Msg.{
  mb_winit, mb_put_u32, mb_put_blob, mb_put_bytes, mb_get_u32, mb_get_blob, mb_get_bytes, wroom,
  rroom, put_byte, copied,
}
use ia_operating_systems.Reliable.Packet.{Packet}
use ia_operating_systems.Rpc.{
  Handled, RpcServer, rpc_magic, max_packet, read_request, first_slot, cache_take, execute,
  serve_request, run_round, rpc_server_open, Serving, opened, then_packet,
}
use ia_operating_systems.Rpc.Once.{Later}
use ia_operating_systems.Rpc.Rounds.{at_most_once}

-- A handler that counts its calls.
abbrev counting : ℕ → ℕ → (ℕ → ℕ) → ℕ → Handled ℕ
counting u proc args alen = record { status = 0; result = args; rlen = 0; state = u + 1 }

abbrev nothing : ℕ → ℕ
nothing i = 0

-- Call 1 of client 7, without arguments.
abbrev call : Packet
call =
    let m = mb_put_u32 (mb_put_u32 (mb_winit nothing max_packet) rpc_magic) 7 in
    let rm = mb_put_blob (mb_put_u32 (mb_put_u32 m 1) 3) nothing 0 in
    record { bytes = rm.p; size = rm.len }

abbrev once : RpcServer ℕ
once = (run_round counting nothing (rpc_server_open 0) call).0

abbrev twice : RpcServer ℕ
twice = (run_round counting nothing once call).0

twice-Serving : Serving counting nothing 0 twice
twice-Serving = then_packet call (then_packet call opened)

twice_counts : (twice.state ≡ 1) × (twice.dups ≡ 1) × (twice.takes ≡ 1)
unfolding run_round read_request serve_request execute cache_take first_slot mb_put_u32 mb_put_blob
    mb_put_bytes mb_get_u32 mb_get_blob mb_get_bytes wroom rroom put_byte copied
twice_counts = (refl, refl, refl)

at_most_once_example : Ordered Later twice.log
at_most_once_example = at_most_once counting twice-Serving (omega (arith, twice_counts))
