-- ===== src/Accelerator/Handlers/Cases.antt =====
-- tcp_accelerator/tcp_accelerator.c: to prove something of a handler's step, prove it of each
-- state that the step may leave.
use linux_network_lab.Base.{◌+◌, Bool, true, false, not, ◌&&◌, inl, inr, Bool-cases, ℕ, List, ◌++◌}
use linux_network_lab.Accelerator.Buffer.{
  IoBuffer, buffer_empty, receive_into_buffer, flush_buffer, Outcome, failed, idle, moved, finished,
}
use linux_network_lab.Accelerator.Session.{Events, Session, Event, Keeps, keeps_then}
use linux_network_lab.Accelerator.Handlers.{
  modify_client, modify_server, update_connection_events, client_events, server_events,
  after_receive, after_flush, close_client_read, close_server_read, receive_from_client,
  receive_from_server, flush_to_client, flush_to_server, pass_on_client_fin, pass_on_server_fin,
}

pub after_receive_cases :
    (P : Session → Type 0) (o : Outcome) (closed : Session → Session) (s : Session)
    → P s
    → P (closed s)
    → P (after_receive o closed s).1
unfolding after_receive
after_receive_cases P failed closed s h k = h
after_receive_cases P idle closed s h k = h
after_receive_cases P moved closed s h k = h
after_receive_cases P finished closed s h k = k

pub after_flush_cases :
    (P : Session → Type 0) (o : Outcome) (s : Session) → P s → P (after_flush o s).1
unfolding after_flush
after_flush_cases P failed s h = h
after_flush_cases P idle s h = h
after_flush_cases P moved s h = h
after_flush_cases P finished s h = h

-- What a step leaves alone holds whatever the buffer and the bytes become.
pub flush_to_client_cases :
    (P : Session → Type 0) (ev : Event) (s : Session)
    → ((buf : IoBuffer) (out : List ℕ)
        → P (record {
          conn = record s.conn { s2c = buf };
          wire = record s.wire { to_client = s.wire.to_client ++ out };
        }))
    → P (flush_to_client ev s).1
unfolding flush_to_client
flush_to_client_cases P ev s h =
    let r : Outcome × IoBuffer × List ℕ = flush_buffer ev.send s.conn.s2c in
    after_flush_cases P r.0 _ (h r.1 r.2)

pub receive_from_client_cases :
    (P : Session → Type 0) (ev : Event) (s : Session)
    → ((t : Session) → P t → P (close_client_read t))
    → ((buf : IoBuffer) (got : List ℕ)
        → P (record {
          conn = record s.conn { c2s = buf };
          wire = record s.wire { from_client = s.wire.from_client ++ got };
        }))
    → P (receive_from_client ev s).1
unfolding receive_from_client
receive_from_client_cases P ev s close h =
    let r : Outcome × IoBuffer × List ℕ = receive_into_buffer ev.recv s.conn.c2s in
    after_receive_cases P r.0 close_client_read _ (h r.1 r.2) (close _ (h r.1 r.2))

pub flush_to_server_cases :
    (P : Session → Type 0) (ev : Event) (s : Session)
    → ((buf : IoBuffer) (out : List ℕ)
        → P (record {
          conn = record s.conn { c2s = buf };
          wire = record s.wire { to_server = s.wire.to_server ++ out };
        }))
    → P (flush_to_server ev s).1
unfolding flush_to_server
flush_to_server_cases P ev s h =
    let r : Outcome × IoBuffer × List ℕ = flush_buffer ev.send s.conn.c2s in
    after_flush_cases P r.0 _ (h r.1 r.2)

pub receive_from_server_cases :
    (P : Session → Type 0) (ev : Event) (s : Session)
    → ((t : Session) → P t → P (close_server_read t))
    → ((buf : IoBuffer) (got : List ℕ)
        → P (record {
          conn = record s.conn { s2c = buf };
          wire = record s.wire { from_server = s.wire.from_server ++ got };
        }))
    → P (receive_from_server ev s).1
unfolding receive_from_server
receive_from_server_cases P ev s close h =
    let r : Outcome × IoBuffer × List ℕ = receive_into_buffer ev.recv s.conn.s2c in
    after_receive_cases P r.0 close_server_read _ (h r.1 r.2) (close _ (h r.1 r.2))

pub pass_on_client_fin_cases :
    (P : Session → Type 0) (s : Session)
    → P s
    → P (record {
      conn = record s.conn { server_write_closed = true };
      wire = record s.wire { server_shuts = s.wire.server_shuts + 1 };
    })
    → P (pass_on_client_fin s)
unfolding pass_on_client_fin
pass_on_client_fin_cases P s h k =
    elim (Bool-cases (
      (not s.conn.client_read_open && buffer_empty s.conn.c2s) && not s.conn.server_write_closed)) [
        | inl due ↦ rw due k
        | inr not_due ↦ rw not_due h
      ]

modify_client_cases :
    (P : Session → Type 0) (accepted : Bool) (e : Events) (s : Session)
    → P s
    → P (record s { wire = record s.wire { client_interest = e } })
    → P (modify_client accepted e s).1
unfolding modify_client
modify_client_cases P true e s h k = k
modify_client_cases P false e s h k = h

pub pass_on_server_fin_cases :
    (P : Session → Type 0) (s : Session)
    → P s
    → P (record {
      conn = record s.conn { client_write_closed = true };
      wire = record s.wire { client_shuts = s.wire.client_shuts + 1 };
    })
    → P (pass_on_server_fin s)
unfolding pass_on_server_fin
pass_on_server_fin_cases P s h k =
    elim (Bool-cases (
      (not s.conn.server_read_open && buffer_empty s.conn.s2c) && not s.conn.client_write_closed)) [
        | inl due ↦ rw due k
        | inr not_due ↦ rw not_due h
      ]

modify_server_cases :
    (P : Session → Type 0) (accepted : Bool) (e : Events) (s : Session)
    → P s
    → P (record s { wire = record s.wire { server_interest = e } })
    → P (modify_server accepted e s).1
unfolding modify_server
modify_server_cases P true e s h k = k
modify_server_cases P false e s h k = h

pub update-Keeps :
    (P : Session → Type 0) (ev : Event)
    → ((s : Session) (e : Events)
        → P s
        → P (record s { wire = record s.wire { client_interest = e } }))
    → ((s : Session) (e : Events)
        → P s
        → P (record s { wire = record s.wire { server_interest = e } }))
    → Keeps P (update_connection_events ev)
unfolding update_connection_events
update-Keeps P ev c d = record {
  kept = λ s h.
      keeps_then (modify_client ev.client_mod (client_events s.conn))
        (modify_server ev.server_mod (server_events s.conn)) s
        (modify_client_cases P ev.client_mod _ s h (c s _ h))
        (record {
          kept = λ t k. modify_server_cases P ev.server_mod (server_events s.conn) t k (d t _ k);
        });
}
