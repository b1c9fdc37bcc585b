-- ===== src/Reliable/Tests.antt =====
-- our-course/labs/lab10-distributed/solutions/reliable.c: one message over a network that loses nothing.
use ia_operating_systems.Base.{ℕ, ◌+◌, ◌*◌, ◌≤◌, ◌≡◌, inl, true, [], ◌∷◌, length, arith, refl}
use ia_operating_systems.Msg.{
  mb_put_u32, mb_put_bytes, mb_get_u32, mb_get_bytes, wroom, rroom, put_byte, copied,
}
use ia_operating_systems.Reliable.Packet.{packed, put_head, head, got}
use ia_operating_systems.Reliable.Server.{
  ack, c_string, payload_of, serve_head, serve_packet, server_round,
}
use ia_operating_systems.Reliable.Client.{
  Setup, finished, packet_of, client_send, next_packet, acknowledges, client_round, success,
}
use ia_operating_systems.Reliable.System.{
  System, fresh, after_send, after_client, after_server, sends, client_receives, server_receives,
  Reach, start, then_step,
}
use ia_operating_systems.Reliable.Answers.{IsSetup, message}
use ia_operating_systems.Reliable.Serving.{messages}
use ia_operating_systems.Reliable.Promises.{delivered_in_order, success_delivers}
use ia_operating_systems.Reliable.Budget.{Spent, sent_within_budget}

abbrev nothing : ℕ → ℕ
nothing i = 0

-- The message "A".
abbrev one_message : Setup
one_message = record { n = 1; retries = 3; payload = λ i k. 65; plen = λ i. 1; storage = nothing }

one_message-IsSetup : IsSetup one_message
one_message-IsSetup = record { few = omega arith; short = λ i. omega arith }

abbrev sent : System
sent = after_send one_message fresh

abbrev delivered : System
delivered = after_server nothing sent (got (packet_of one_message 0))

sent-Reach : Reach one_message nothing sent
sent-Reach = then_step start (sends refl)

delivered-Reach : Reach one_message nothing delivered
unfolding client_send
delivered-Reach =
    then_step sent-Reach (server_receives (got (packet_of one_message 0)) refl (inl refl))

delivered_text : delivered.server.app ≡ (65 ∷ []) ∷ []
unfolding server_round serve_packet serve_head head packet_of packed put_head mb_put_u32
    mb_put_bytes mb_get_u32 mb_get_bytes wroom rroom put_byte copied payload_of c_string
delivered_text = refl

abbrev acked : System
acked = after_client one_message delivered 0 (got (ack nothing 0))

abbrev closing : System
closing = after_send one_message acked

abbrev closed : System
closed = after_server nothing closing (got (packet_of one_message 1))

abbrev done : System
done = after_client one_message closed 0 (got (ack nothing 1))

acked-Reach : Reach one_message nothing acked
unfolding client_send server_round serve_packet serve_head head packet_of packed put_head mb_put_u32
    mb_put_bytes mb_get_u32 mb_get_bytes wroom rroom put_byte copied
acked-Reach = then_step delivered-Reach (client_receives 0 (got (ack nothing 0)) refl (inl refl))

closed-Reach : Reach one_message nothing closed
unfolding client_send client_round next_packet acknowledges server_round serve_packet serve_head
    head packet_of packed put_head mb_put_u32 mb_put_bytes mb_get_u32 mb_get_bytes wroom rroom
    put_byte copied
closed-Reach =
    then_step (then_step acked-Reach (sends refl))
      (server_receives (got (packet_of one_message 1)) refl (inl refl))

done-Reach : Reach one_message nothing done
unfolding client_send client_round next_packet acknowledges server_round serve_packet serve_head
    head packet_of packed put_head mb_put_u32 mb_put_bytes mb_get_u32 mb_get_bytes wroom rroom
    put_byte copied
done-Reach = then_step closed-Reach (client_receives 0 (got (ack nothing 1)) refl (inl refl))

done-finished : (done.client.pc ≡ finished) × (success done.client ≡ true)
unfolding client_send client_round next_packet acknowledges server_round serve_packet serve_head
    head packet_of packed put_head mb_put_u32 mb_put_bytes mb_get_u32 mb_get_bytes wroom rroom
    put_byte copied
done-finished = (refl, refl)

delivered_in_order_example :
    (delivered.server.app ≡ messages one_message delivered.server.delivered)
    × (delivered.server.delivered ≤ 1)
delivered_in_order_example = delivered_in_order one_message-IsSetup delivered-Reach

success_delivers_example :
    (done.server.app ≡ message one_message 0 ∷ [])
    × (done.client.acked ≡ 1)
    × (done.server.fin_seen ≡ true)
success_delivers_example =
    success_delivers one_message-IsSetup done-Reach done-finished.0 done-finished.1

sent_within_budget_example :
    Spent one_message done.to_server done.client.i done.client.pc
    × (length done.to_server ≤ (1 + 1) * (3 + 1))
sent_within_budget_example = sent_within_budget one_message-IsSetup done-Reach
