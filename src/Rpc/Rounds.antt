-- ===== src/Rpc/Rounds.antt =====
-- our-course/labs/lab10-distributed/solutions/rpc.c: every round of the server keeps the cache in step
-- with the calls that it executed.
use ia_operating_systems.Base.{
  ℕ, ◌≤◌, ◌<◌, ◌≡◌, ◌≢◌, true, ◌==◌, if◌then◌else◌, Option, none, some, ◌∷◌, arith, refl, ap, ◌∙◌,
  update_self, update_ne, dec_lt, Ordered,
}
use ia_operating_systems.Reliable.Packet.{Packet}
use ia_operating_systems.Rpc.{
  CacheEnt, Handled, RpcServer, Request, read_request, rpc_ok, rpc_halt, cache_slots, first_slot,
  belongs, is_free, cache_find, claim, take_at, cache_take, replied, store_reply, execute,
  serve_request, run_round, Serving, opened, then_packet,
}
use ia_operating_systems.Rpc.Cache.{first_slot-Found}
use ia_operating_systems.Rpc.Once.{Later, belongs-is, Inv, Put, full-Inv, again-Inv, new-Inv}

module _ {U : Type 0} where
  abbrev Sound : RpcServer U → Type 0
  Sound s = Inv s.cache s.takes s.log

  -- A slot that is the client's has the reply stored in it.
  store-Put :
      (cache : ℕ → CacheEnt) (s : RpcServer U) (t : ℕ) (r : Request) (status : ℕ) (result : ℕ → ℕ)
      (rlen : ℕ)
      → (s.cache t).used ≡ true
      → (s.cache t).client ≡ r.client
      → ((j : ℕ) → t ≢ j → s.cache j ≡ cache j)
      → Put cache (store_reply s t r status result rlen).cache t r.client r.seq
  store-Put cache s t r status result rlen u c same =
      let x = replied (s.cache t) r status result rlen in
      let here = update_self s.cache t x in
      record {
        used = ap (λ k. k.used) here ∙ u;
        client = ap (λ k. k.client) here ∙ c;
        seq = ap (λ k. k.seq) here;
        others = λ j ne. update_ne s.cache t x j ne ∙ same j ne;
      }

  -- A call of a client without a slot, by the free slot that there is.
  taken-Sound :
      (s : RpcServer U) (u : U) (o : Option ℕ) (r : Request) (status : ℕ) (result : ℕ → ℕ)
      (rlen : ℕ)
      → Sound s
      → cache_find s r.client ≡ none
      → first_slot is_free s.cache 0 cache_slots ≡ o
      → let (t, s1) =
          take_at (record s { state = u; log = (r.client, r.seq) ∷ s.log }) r.client o in
        Sound (store_reply s1 t r status result rlen)
  taken-Sound s u none r status result rlen v f e =
      full-Inv
        (store_reply
          (take_at (record s { state = u; log = (r.client, r.seq) ∷ s.log }) r.client none).1
          s.evict r status result rlen).cache
        ((r.client, r.seq) ∷ s.log) v e
  taken-Sound s u (some t) r status result rlen v f e =
      let s1 = claim (record s { state = u; log = (r.client, r.seq) ∷ s.log }) r.client t in
      let x = record (s.cache t) { used = true; client = r.client } in
      let here = update_self s.cache t x in
      new-Inv v f e (
        store-Put s.cache s1 t r status result rlen (ap (λ k. k.used) here)
          (ap (λ k. k.client) here) (λ j ne. update_ne s.cache t x j ne))

  module _ (handler : U → ℕ → (ℕ → ℕ) → ℕ → Handled U) where
    execute_new-Sound :
        (s : RpcServer U) (r : Request)
        → Sound s
        → cache_find s r.client ≡ none
        → Sound (execute handler s r none).0
    unfolding execute cache_take
    execute_new-Sound s r v f =
        let h = handler s.state r.proc r.args r.alen in
        taken-Sound s h.state (first_slot is_free s.cache 0 cache_slots) r
          (if h.status == rpc_halt then rpc_ok else h.status) h.result h.rlen v f refl

    execute_again-Sound :
        (s : RpcServer U) (r : Request) (t : ℕ)
        → Sound s
        → cache_find s r.client ≡ some t
        → (s.cache t).seq < r.seq
        → Sound (execute handler s r (some t)).0
    unfolding execute
    execute_again-Sound s r t v f lt =
        let h = handler s.state r.proc r.args r.alen in
        let s1 = record s { state = h.state; log = (r.client, r.seq) ∷ s.log } in
        let mine =
          belongs-is r.client (s.cache t)
            (first_slot-Found (belongs r.client) s.cache 0 cache_slots t f).passes in
        again-Inv v f lt (
          store-Put s.cache s1 t r (if h.status == rpc_halt then rpc_ok else h.status) h.result
            h.rlen mine.0 mine.1 (λ j ne. refl))

    serve_request-Sound :
        (s : RpcServer U) (r : Request) (o : Option ℕ)
        → Sound s
        → cache_find s r.client ≡ o
        → Sound (serve_request handler s r o).0
    unfolding serve_request
    serve_request-Sound s r none v f = execute_new-Sound s r v f
    serve_request-Sound s r (some t) v f = elim (dec_lt (s.cache t).seq r.seq) [
      | yes later ↦ ground (arith, execute_again-Sound s r t v f later)
      | no h ↦ ground (arith, v)
    ]

    run_round-Sound :
        (storage : ℕ → ℕ) (s : RpcServer U) (pkt : Packet)
        → Sound s
        → Sound (run_round handler storage s pkt).0
    unfolding run_round
    run_round-Sound storage s pkt v =
        let r = read_request storage pkt in
        ground (arith, v, serve_request-Sound s r (cache_find s r.client) v refl)

    Serving-Sound :
        {storage : ℕ → ℕ} {u : U} {s : RpcServer U} → Serving handler storage u s → Sound s
    Serving-Sound opened = record { free = λ i le lt. refl; kept = λ le. tt; once = λ le. tt }
    Serving-Sound {storage} (then_packet {s} pkt w) =
        run_round-Sound storage s pkt (Serving-Sound w)

    -- As long as at most 64 clients came to the server without a slot of their own in its cache, it
    -- hands no call to the handler twice, whatever requests are lost, repeated or reordered: of two
    -- calls of one client that the handler had, the later one has the greater number.
    pub at_most_once :
        {storage : ℕ → ℕ} {u : U} {s : RpcServer U}
        → Serving handler storage u s
        → s.takes ≤ cache_slots
        → Ordered Later s.log
    at_most_once w few = (Serving-Sound w).once few
