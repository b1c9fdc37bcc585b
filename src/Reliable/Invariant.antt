-- ===== src/Reliable/Invariant.antt =====
-- our-course/labs/lab10-distributed/solutions/reliable.c: what holds of the client, the server and the
-- packets between them.
use mathlib.Core.Bool.{false≢true}
use ia_operating_systems.Base.{
  Each, Each-map, ℕ, suc, ◌+◌, ◌%◌, ◌^◌, ◌≤◌, ◌<◌, ◌≡◌, ◌⊎◌, inl, inr, true, ◌==◌, ltb, leb,
  if◌then◌else◌, Option, none, some, List, arith, refl, ap, sym, ◌∙◌, subst, dec_lt, Bool-cases,
  ==_iff,
}
use ia_operating_systems.Reliable.Packet.{Packet, Received, got, timed_out, failed}
use ia_operating_systems.Reliable.Server.{Server, serve_packet, server_round}
use ia_operating_systems.Reliable.Client.{
  Setup, Pc, ready, waiting, finished, Client, packet_of, client_send, next_packet, acknowledges,
  client_round,
}
use ia_operating_systems.Reliable.System.{
  System, with_packet, Arrives, Step, sends, client_receives, server_receives, Reach, start,
  then_step,
}
use ia_operating_systems.Reliable.Answers.{IsSetup, acknowledges-ack}
use ia_operating_systems.Reliable.Serving.{
  Each-In, IsServer, Later, IsAck, FromClient, MaybeAck, Serves, IsAck-kept, stays, serves,
}

-- The counts of a client, by where it stands.
abbrev pub Counted : Setup → Client → Pc → Type 0
Counted p c ready = (c.sent ≡ c.i) × (c.acked + c.giveups ≡ c.i)
Counted p c (waiting r) =
    (c.sent ≡ (if ltb c.i p.n then c.i + 1 else c.i)) × (c.acked + c.giveups ≡ c.i)
Counted p c finished = (c.sent ≡ p.n) × (p.n ≤ c.acked + c.giveups) × (c.acked ≤ p.n)

pub record IsClient (p : Setup) (c : Client) (s : Server) : Type 0 where
  pub bound : c.i ≤ p.n
  pub passed : c.giveups ≡ 0 → c.i ≤ s.expected
  pub over : c.pc ≡ finished → c.giveups ≡ 0 → (c.i ≡ p.n) × (s.fin_seen ≡ true)
  pub counted : Counted p c c.pc

pub record Inv (p : Setup) (storage : ℕ → ℕ) (s : System) : Type 0 where
  pub server : IsServer p s.server
  pub client : IsClient p s.client s.server
  pub to_server : Each (FromClient p) s.to_server
  pub to_client : Each (IsAck p storage s.server) s.to_client

IsClient-kept :
    {p : Setup} {c : Client} {s t : Server} → Later s t → IsClient p c s → IsClient p c t
IsClient-kept l v = record {
  bound = v.bound;
  passed = λ e. omega (arith, v.passed e, l.further);
  over = λ e f. ((v.over e f).0, l.closed (v.over e f).1);
  counted = v.counted;
}

-- What the acknowledgement of packet `i` tells of the server.
abbrev Acked : Setup → Server → ℕ → Type 0
Acked p s i = (i < p.n → i < s.expected) × (p.n ≤ i → s.fin_seen ≡ true)

abbrev Told : Setup → Server → ℕ → Option ℕ → Type 0
Told p s i none = Unit {0}
Told p s i (some r) = Acked p s i

abbrev is_finished : Pc → ℕ
is_finished finished = 1
is_finished _ = 0

unfinished : {A : Type 0} {q : Pc} → is_finished q ≡ 0 → q ≡ finished → A
unfinished z e = absurd (omega (arith, z, ap is_finished e))

module _ (p : Setup) (s : Server) (c : Client) (v : IsClient p c s) where
  sending : c.pc ≡ ready → IsClient p (client_send p c).0 s
  unfolding client_send
  sending e =
      let k = subst (Counted p c) e v.counted in
      record {
        bound = v.bound;
        passed = v.passed;
        over = λ f g. unfinished refl f;
        counted = (ap (λ n. if ltb c.i p.n then n + 1 else n) k.0, k.1);
      }

  module _ (r : ℕ) (e : c.pc ≡ waiting r) where
    k : Counted p c (waiting r)
    k = subst (Counted p c) e v.counted

    gives_up : IsClient p (next_packet p c none) s
    unfolding next_packet
    gives_up = elim (dec_lt c.i p.n) [
      | yes lt ↦
          subst (λ d. IsClient p d s) (sym (more lt))
            (record {
              bound = omega arith;
              passed = λ z. absurd (omega (arith, z));
              over = λ f g. unfinished refl f;
              counted = (k.0 ∙ ground arith, omega (arith, k.1));
            })
      | no ge ↦
          subst (λ d. IsClient p d s) (sym (last ge))
            (record {
              bound = v.bound;
              passed = λ z. absurd (omega (arith, z));
              over = λ f z. absurd (omega (arith, z));
              counted =
                  (k.0 ∙ ground (arith, v.bound), omega (arith, k.1), omega (arith, k.1, v.bound));
            })
    ]
      where
        more :
            c.i < p.n
            → next_packet p c none ≡ record c { pc = ready; i = c.i + 1; giveups = c.giveups + 1 }
        more lt = ground arith

        last :
            ¬ (c.i < p.n)
            → next_packet p c none ≡ record c { pc = finished; giveups = c.giveups + 1 }
        last ge = ground arith

    goes_on : (m : ℕ) → Acked p s c.i → IsClient p (next_packet p c (some m)) s
    unfolding next_packet
    goes_on m t = elim (dec_lt c.i p.n) [
      | yes lt ↦
          subst (λ d. IsClient p d s) (sym (more lt))
            (record {
              bound = omega arith;
              passed = λ z. omega (arith, t.0 lt);
              over = λ f g. unfinished refl f;
              counted = (k.0 ∙ ground arith, omega (arith, k.1));
            })
      | no ge ↦
          subst (λ d. IsClient p d s) (sym (last ge))
            (record {
              bound = v.bound;
              passed = v.passed;
              over = λ f z. (omega (arith, v.bound), t.1 (omega arith));
              counted =
                  (k.0 ∙ ground (arith, v.bound), omega (arith, k.1), omega (arith, k.1, v.bound));
            })
    ]
      where
        more :
            c.i < p.n
            → next_packet p c (some m)
              ≡ record c { pc = ready; i = c.i + 1; acked = c.acked + 1; retrans = c.retrans + m }
        more lt = ground arith

        last :
            ¬ (c.i < p.n)
            → next_packet p c (some m) ≡ record c { pc = finished; retrans = c.retrans + m }
        last ge = ground arith

    resends : (m : ℕ) → IsClient p (record c { pc = waiting m }) s
    resends m = record {
      bound = v.bound;
      passed = v.passed;
      over = λ f g. unfinished refl f;
      counted = k;
    }

-- The acknowledgement of packet `i`, when the server may have sent it.
told :
    (p : Setup) (storage : ℕ → ℕ) (s : Server) (i : ℕ) (pkt : Packet)
    → IsServer p s
    → IsSetup p
    → i ≤ p.n
    → IsAck p storage s pkt
    → acknowledges pkt (i % 2 ^ 32) ≡ true
    → Acked p s i
told p storage s i pkt w v le (q, e, small, why) a = (λ lt. was_data lt why, λ ge. close ge why)
  where
    same : q ≡ i
    same =
        let hit : (q == i % 2 ^ 32) ≡ true =
          sym (acknowledges-ack storage q (i % 2 ^ 32) small)
          ∙ ap (λ x. acknowledges x (i % 2 ^ 32)) (sym e)
          ∙ a in
        omega (arith, (==_iff q (i % 2 ^ 32)).0 hit, v.few)

    was_data : i < p.n → (q < s.expected) ⊎ ((s.fin_seen ≡ true) × (q ≡ p.n)) → i < s.expected
    was_data lt (inl l) = omega (arith, same)
    was_data lt (inr (f, g)) = absurd (omega (arith, same))

    close : p.n ≤ i → (q < s.expected) ⊎ ((s.fin_seen ≡ true) × (q ≡ p.n)) → s.fin_seen ≡ true
    close ge (inl l) = absurd (omega (arith, same, w.within))
    close ge (inr (f, g)) = f

abbrev MaybeFrom : Setup → Option Packet → Type 0
MaybeFrom p none = Unit {0}
MaybeFrom p (some pkt) = FromClient p pkt

module _ (p : Setup) (v : IsSetup p) (storage : ℕ → ℕ) where
  abbrev Rounds : Server → Client × Option Packet → Type 0
  Rounds s w = IsClient p w.0 s × MaybeFrom p w.1

  client_lem :
      (c : Client) (s : Server) (ps : List Packet) (r : ℕ) (m : Received)
      → IsClient p c s
      → IsServer p s
      → Each (IsAck p storage s) ps
      → c.pc ≡ waiting r
      → Arrives m ps
      → Rounds s (client_round p c r m)
  unfolding client_round
  client_lem c s ps r (got pkt) w x a e i = (
    elim (Bool-cases (acknowledges pkt (c.i % 2 ^ 32))) [
      | inl yes_it ↦
          subst (λ b. IsClient p (if b then next_packet p c (some r) else c) s) (sym yes_it)
            (goes_on p s c w r e r (
              told p storage s c.i pkt x v w.bound (Each-In (IsAck p storage s) ps pkt a i) yes_it))
      | inr no_it ↦
          subst (λ b. IsClient p (if b then next_packet p c (some r) else c) s) (sym no_it) w
    ],
    tt,
  )
  client_lem c s ps r failed w x a e i = (w, tt)
  client_lem c s ps r timed_out w x a e i = elim (Bool-cases (leb p.retries r)) [
    | inl out ↦
        subst
          (λ b. Rounds s (
            if b
            then (next_packet p c none, none)
            else (record c { pc = waiting (suc r) }, some (packet_of p c.i))))
          (sym out) (gives_up p s c w r e, tt)
    | inr left ↦
        subst
          (λ b. Rounds s (
            if b
            then (next_packet p c none, none)
            else (record c { pc = waiting (suc r) }, some (packet_of p c.i))))
          (sym left) (resends p s c w r e (suc r), (c.i, refl))
  ]

  server_lem :
      (s : Server) (ps : List Packet) (m : Received)
      → IsServer p s
      → Each (FromClient p) ps
      → Arrives m ps
      → Serves p storage s ((server_round storage s m).1, (server_round storage s m).2)
  unfolding server_round
  server_lem s ps timed_out w a i = stays p v storage s w
  server_lem s ps failed w a i = stays p v storage s w
  server_lem s ps (got pkt) w a i =
      let (j, e) = Each-In (FromClient p) ps pkt a i in
      subst (λ q. Serves p storage s (serve_packet storage s q)) (sym e) (serves p v storage s w j)

  keep_sent :
      (o : Option Packet) (ps : List Packet)
      → MaybeFrom p o
      → Each (FromClient p) ps
      → Each (FromClient p) (with_packet o ps)
  keep_sent none ps m a = a
  keep_sent (some q) ps m a = (m, a)

  keep_acks :
      (s : Server) (o : Option Packet) (ps : List Packet)
      → MaybeAck p storage s o
      → Each (IsAck p storage s) ps
      → Each (IsAck p storage s) (with_packet o ps)
  keep_acks s none ps m a = a
  keep_acks s (some q) ps m a = (m, a)

  Step-Inv : {s t : System} → Step p storage s t → Inv p storage s → Inv p storage t
  unfolding client_send
  Step-Inv {s} (sends e) w = record {
    server = w.server;
    client = sending p s.server s.client w.client e;
    to_server = ((s.client.i, refl), w.to_server);
    to_client = w.to_client;
  }
  Step-Inv {s} (client_receives r m e i) w =
      let (c, o) = client_lem s.client s.server s.to_client r m w.client w.server w.to_client e i in
      record {
        server = w.server;
        client = c;
        to_server = keep_sent (client_round p s.client r m).1 s.to_server o w.to_server;
        to_client = w.to_client;
      }
  Step-Inv {s} (server_receives m e i) w =
      let (x, l, o) = server_lem s.server s.to_server m w.server w.to_server i in
      let r = server_round storage s.server m in
      record {
        server = x;
        client = IsClient-kept l w.client;
        to_server = w.to_server;
        to_client =
            keep_acks r.1 r.2 s.to_client o
              (Each-map s.to_client (λ q. IsAck-kept p storage q l) w.to_client);
      }

  pub Reach-Inv : {s : System} → Reach p storage s → Inv p storage s
  Reach-Inv start = record {
    server = record {
      app = refl;
      delivered = refl;
      within = omega arith;
      fin = λ e. absurd (false≢true e);
    };
    client = record {
      bound = omega arith;
      passed = λ e. omega arith;
      over = λ e f. unfinished refl e;
      counted = (refl, refl);
    };
    to_server = tt;
    to_client = tt;
  }
  Reach-Inv (then_step r st) = Step-Inv st (Reach-Inv r)
