-- ===== src/Accelerator/Handlers/Invariant.antt =====
-- tcp_accelerator/tcp_accelerator.c: what every event leaves true of a connection.
pub mod Handling
use linux_network_lab.Base.{
  ℕ, ◌≡◌, refl, sym, ◌∙◌, inl, inr, Bool, true, false, not, ◌&&◌, List, [], ◌∷◌, ◌++◌, append_assoc,
  arith, if◌then◌else◌, Bool-cases,
}
use linux_network_lab.Accelerator.Buffer.{
  IoBuffer, buffer_empty, Outcome, receive_into_buffer, flush_buffer,
}
use linux_network_lab.Accelerator.Buffer.Fifo.{IsValid, contents, FitsRecv, FitsSend, empty_iff}
use linux_network_lab.Accelerator.Buffer.Flush.{flush-takes}
use linux_network_lab.Accelerator.Buffer.Receive.{receive-appends}
use linux_network_lab.Accelerator.Session.{
  Events, Session, Event, on, Keeps, keeping, keeps_then, keeps_on_if,
}
use linux_network_lab.Accelerator.Handlers.Cases.{after_receive_cases, after_flush_cases}
use linux_network_lab.Accelerator.Handlers.{
  modify_client, modify_server, update_connection_events, close_client_read, close_server_read,
  receive_from_client, receive_from_server, flush_to_client, flush_to_server, pass_on_client_fin,
  pass_on_server_fin, process_client_event, process_server_event, client_event_rest,
  server_event_rest, client_events, server_events,
}

-- `recv` and `send` keep to the room and to the bytes that they are given.
pub record IsDocumented (ev : Event) : Type 0 where
  pub recv_fits : (n : ℕ) → FitsRecv n (ev.recv n)
  pub send_fits : (bs : List ℕ) → FitsSend bs (ev.send bs)

-- In each direction: the buffer is valid; what has come in is what has gone out with the queue
-- behind it; a FIN was passed on once or not at all, and only behind the last byte.
pub record Inv (s : Session) : Type 0 where
  pub c2s_valid : IsValid s.conn.c2s
  pub s2c_valid : IsValid s.conn.s2c
  pub upstream : s.wire.from_client ≡ s.wire.to_server ++ contents s.conn.c2s
  pub downstream : s.wire.from_server ≡ s.wire.to_client ++ contents s.conn.s2c
  pub server_fin :
      s.conn.server_write_closed ≡ true
      → (s.conn.client_read_open ≡ false) × (contents s.conn.c2s ≡ [])
  pub client_fin :
      s.conn.client_write_closed ≡ true
      → (s.conn.server_read_open ≡ false) × (contents s.conn.s2c ≡ [])
  pub server_shut_once : s.wire.server_shuts ≡ (if s.conn.server_write_closed then 1 else 0)
  pub client_shut_once : s.wire.client_shuts ≡ (if s.conn.client_write_closed then 1 else 0)

-- Where a queue is extended or shortened, the streams stay in step with it.
pub stream_in :
    (from to q q' got : List ℕ) → from ≡ to ++ q → q' ≡ q ++ got → from ++ got ≡ to ++ q'
stream_in from to q q' got e f = rw (e, f) (append_assoc to q got)

pub stream_out :
    (from to q q' out : List ℕ) → from ≡ to ++ q → q ≡ out ++ q' → from ≡ (to ++ out) ++ q'
stream_out from to q q' out e f = rw (e, f) (sym (append_assoc to out q'))

pub empty_out : (q q' out : List ℕ) → q ≡ out ++ q' → q ≡ [] → q' ≡ []
empty_out q q' [] e n = sym e ∙ n
empty_out q q' (x ∷ out) e n = cc

pub close_client_read-Inv : (s : Session) → Inv s → Inv (close_client_read s)
unfolding close_client_read
close_client_read-Inv s v = record {
  c2s_valid = v.c2s_valid;
  s2c_valid = v.s2c_valid;
  upstream = v.upstream;
  downstream = v.downstream;
  server_fin = λ e. (refl, (v.server_fin e).1);
  client_fin = v.client_fin;
  server_shut_once = v.server_shut_once;
  client_shut_once = v.client_shut_once;
}

pub close_server_read-Inv : (s : Session) → Inv s → Inv (close_server_read s)
unfolding close_server_read
close_server_read-Inv s v = record {
  s2c_valid = v.s2c_valid;
  c2s_valid = v.c2s_valid;
  downstream = v.downstream;
  upstream = v.upstream;
  client_fin = λ e. (refl, (v.client_fin e).1);
  server_fin = v.server_fin;
  client_shut_once = v.client_shut_once;
  server_shut_once = v.server_shut_once;
}

-- FIN goes to the server when the client has closed and its last byte is on its way.
pub pass_on_client_fin-Inv : (s : Session) → Inv s → Inv (pass_on_client_fin s)
unfolding pass_on_client_fin
pass_on_client_fin-Inv s v =
    elim (Bool-cases (
      (not s.conn.client_read_open && buffer_empty s.conn.c2s) && not s.conn.server_write_closed)) [
        | inl due ↦ rw due (record {
          c2s_valid = v.c2s_valid;
          s2c_valid = v.s2c_valid;
          upstream = v.upstream;
          downstream = v.downstream;
          server_fin = λ _. (ground arith, (empty_iff v.c2s_valid).0 (ground arith));
          client_fin = v.client_fin;
          server_shut_once = ground (arith, v.server_shut_once);
          client_shut_once = v.client_shut_once;
        })
        | inr not_due ↦ rw not_due v
      ]

-- FIN goes to the client when the server has closed and its last byte is on its way.
pub pass_on_server_fin-Inv : (s : Session) → Inv s → Inv (pass_on_server_fin s)
unfolding pass_on_server_fin
pass_on_server_fin-Inv s v =
    elim (Bool-cases (
      (not s.conn.server_read_open && buffer_empty s.conn.s2c) && not s.conn.client_write_closed)) [
        | inl due ↦ rw due (record {
          s2c_valid = v.s2c_valid;
          c2s_valid = v.c2s_valid;
          downstream = v.downstream;
          upstream = v.upstream;
          client_fin = λ _. (ground arith, (empty_iff v.s2c_valid).0 (ground arith));
          server_fin = v.server_fin;
          client_shut_once = ground (arith, v.client_shut_once);
          server_shut_once = v.server_shut_once;
        })
        | inr not_due ↦ rw not_due v
      ]

modify_client_kept :
    (accepted : Bool) (e : Events) (s : Session) → Inv s → Inv (modify_client accepted e s).1
unfolding modify_client
modify_client_kept true e s v = record {
  c2s_valid = v.c2s_valid;
  s2c_valid = v.s2c_valid;
  upstream = v.upstream;
  downstream = v.downstream;
  server_fin = v.server_fin;
  client_fin = v.client_fin;
  server_shut_once = v.server_shut_once;
  client_shut_once = v.client_shut_once;
}
modify_client_kept false e s v = v

modify_server_kept :
    (accepted : Bool) (e : Events) (s : Session) → Inv s → Inv (modify_server accepted e s).1
unfolding modify_server
modify_server_kept true e s v = record {
  s2c_valid = v.s2c_valid;
  c2s_valid = v.c2s_valid;
  downstream = v.downstream;
  upstream = v.upstream;
  client_fin = v.client_fin;
  server_fin = v.server_fin;
  client_shut_once = v.client_shut_once;
  server_shut_once = v.server_shut_once;
}
modify_server_kept false e s v = v

pub update_connection_events-Inv : (ev : Event) → Keeps Inv (update_connection_events ev)
unfolding update_connection_events
update_connection_events-Inv ev = record {
  kept = λ s v.
      keeps_then (modify_client ev.client_mod (client_events s.conn))
        (modify_server ev.server_mod (server_events s.conn)) s
        (modify_client_kept ev.client_mod (client_events s.conn) s v)
        (record { kept = modify_server_kept ev.server_mod (server_events s.conn) });
}
