-- ===== src/Reliable/System.antt =====
-- our-course/labs/lab10-distributed/solutions/reliable.c: a client and the server on a network that
-- may lose packets, deliver them more than once and in any order. All packets ever sent are kept; one
-- that is lost is never received, and a time-out may come at any time.
use ia_operating_systems.Base.{ℕ, ◌≡◌, ◌⊎◌, Bool, true, Option, none, some, List, [], ◌∷◌}
use ia_operating_systems.Reliable.Packet.{Packet, Received, got}
use ia_operating_systems.Reliable.Server.{Server, fresh_server, server_round}
use ia_operating_systems.Reliable.Client.{
  Setup, Client, ready, waiting, fresh_client, client_send, client_round,
}

pub record System : Type 0 where
  pub client : Client
  pub server : Server
  pub running : Bool
  pub to_server : List Packet
  pub to_client : List Packet

abbrev pub fresh : System
fresh = record {
  client = fresh_client;
  server = fresh_server;
  running = true;
  to_server = [];
  to_client = [];
}

abbrev pub with_packet : Option Packet → List Packet → List Packet
with_packet none ps = ps
with_packet (some p) ps = p ∷ ps

abbrev pub In : Packet → List Packet → Type 0
In p [] = ⊥
In p (q ∷ qs) = (p ≡ q) ⊎ In p qs

-- What `net_recv` may come back with, when these packets were sent.
abbrev pub Arrives : Received → List Packet → Type 0
Arrives (got p) ps = In p ps
Arrives _ ps = Unit {0}

-- `client_send` of the client of the system.
abbrev pub after_send : Setup → System → System
after_send p s =
    let (c, out) = client_send p s.client in record s { client = c; to_server = out ∷ s.to_server }

abbrev pub after_client : Setup → System → ℕ → Received → System
after_client p s r v =
    let (c, out) = client_round p s.client r v in
    record s { client = c; to_server = with_packet out s.to_server }

abbrev pub after_server : (ℕ → ℕ) → System → Received → System
after_server storage s v =
    let (running, server, out) = server_round storage s.server v in
    record s { running = running; server = server; to_client = with_packet out s.to_client }

-- What the arrays of the server hold before they are written is another parameter, `storage`.
pub data Step (p : Setup) (storage : ℕ → ℕ) (s : System) : System → Type 0 where
  sends : s.client.pc ≡ ready → Step p storage s (after_send p s)
  client_receives :
      (r : ℕ) (v : Received)
      → s.client.pc ≡ waiting r
      → Arrives v s.to_client
      → Step p storage s (after_client p s r v)
  server_receives :
      (v : Received)
      → s.running ≡ true
      → Arrives v s.to_server
      → Step p storage s (after_server storage s v)

pub data Reach (p : Setup) (storage : ℕ → ℕ) : System → Type 0 where
  start : Reach p storage fresh
  then_step : {s t : System} → Reach p storage s → Step p storage s t → Reach p storage t
