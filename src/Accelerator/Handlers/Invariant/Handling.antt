-- ===== src/Accelerator/Handlers/Invariant/Handling.antt =====
-- tcp_accelerator/tcp_accelerator.c: each event keeps the invariant.
use linux_network_lab.Base.{ℕ, ◌≡◌, true, List, ◌++◌}
use linux_network_lab.Accelerator.Buffer.{IoBuffer, Outcome, receive_into_buffer, flush_buffer}
use linux_network_lab.Accelerator.Buffer.Fifo.{IsValid, contents}
use linux_network_lab.Accelerator.Buffer.Flush.{flush-takes}
use linux_network_lab.Accelerator.Buffer.Receive.{receive-appends}
use linux_network_lab.Accelerator.Session.{
  Session, Event, on, Keeps, keeping, keeps_then, keeps_on_if,
}
use linux_network_lab.Accelerator.Handlers.Cases.{after_receive_cases, after_flush_cases}
use linux_network_lab.Accelerator.Handlers.{
  close_client_read, close_server_read, receive_from_client, receive_from_server, flush_to_client,
  flush_to_server, process_client_event, process_server_event, client_event_rest, server_event_rest,
}
use linux_network_lab.Accelerator.Handlers.Invariant.{
  IsDocumented, Inv, stream_in, stream_out, empty_out, close_client_read-Inv, close_server_read-Inv,
  pass_on_client_fin-Inv, pass_on_server_fin-Inv, update_connection_events-Inv,
}

module _ {ev : Event} (d : IsDocumented ev) where
  receive_from_client-Inv :
      (s : Session) → Inv s → s.conn.client_read_open ≡ true → Inv (receive_from_client ev s).1
  unfolding receive_from_client
  receive_from_client-Inv s v is_open =
      after_receive_cases Inv _ close_client_read next base (close_client_read-Inv next base)
    where
      r : Outcome × IoBuffer × List ℕ
      r = receive_into_buffer ev.recv s.conn.c2s

      got : IsValid r.1 × (contents r.1 ≡ contents s.conn.c2s ++ r.2)
      got = receive-appends ev.recv d.recv_fits v.c2s_valid

      next : Session
      next = record {
        conn = record s.conn { c2s = r.1 };
        wire = record s.wire { from_client = s.wire.from_client ++ r.2 };
      }

      base : Inv next
      base = record {
        c2s_valid = got.0;
        s2c_valid = v.s2c_valid;
        upstream = stream_in _ _ _ _ r.2 v.upstream got.1;
        downstream = v.downstream;
        server_fin = λ e. absurd (cc (v.server_fin e).0);
        client_fin = v.client_fin;
        server_shut_once = v.server_shut_once;
        client_shut_once = v.client_shut_once;
      }

  receive_from_server-Inv :
      (s : Session) → Inv s → s.conn.server_read_open ≡ true → Inv (receive_from_server ev s).1
  unfolding receive_from_server
  receive_from_server-Inv s v is_open =
      after_receive_cases Inv _ close_server_read next base (close_server_read-Inv next base)
    where
      r : Outcome × IoBuffer × List ℕ
      r = receive_into_buffer ev.recv s.conn.s2c

      got : IsValid r.1 × (contents r.1 ≡ contents s.conn.s2c ++ r.2)
      got = receive-appends ev.recv d.recv_fits v.s2c_valid

      next : Session
      next = record {
        conn = record s.conn { s2c = r.1 };
        wire = record s.wire { from_server = s.wire.from_server ++ r.2 };
      }

      base : Inv next
      base = record {
        s2c_valid = got.0;
        c2s_valid = v.c2s_valid;
        downstream = stream_in _ _ _ _ r.2 v.downstream got.1;
        upstream = v.upstream;
        client_fin = λ e. absurd (cc (v.client_fin e).0);
        server_fin = v.server_fin;
        client_shut_once = v.client_shut_once;
        server_shut_once = v.server_shut_once;
      }

  flush_to_client_kept : (s : Session) → Inv s → Inv (flush_to_client ev s).1
  unfolding flush_to_client
  flush_to_client_kept s v = after_flush_cases Inv _ _ base
    where
      r : Outcome × IoBuffer × List ℕ
      r = flush_buffer ev.send s.conn.s2c

      out : IsValid r.1 × (contents s.conn.s2c ≡ r.2 ++ contents r.1)
      out = flush-takes ev.send d.send_fits v.s2c_valid

      base : Inv (record {
        conn = record s.conn { s2c = r.1 };
        wire = record s.wire { to_client = s.wire.to_client ++ r.2 };
      })
      base = record {
        c2s_valid = v.c2s_valid;
        s2c_valid = out.0;
        upstream = v.upstream;
        downstream = stream_out _ _ _ _ r.2 v.downstream out.1;
        server_fin = v.server_fin;
        client_fin = λ e. ((v.client_fin e).0, empty_out _ _ r.2 out.1 (v.client_fin e).1);
        server_shut_once = v.server_shut_once;
        client_shut_once = v.client_shut_once;
      }

  flush_to_server_kept : (s : Session) → Inv s → Inv (flush_to_server ev s).1
  unfolding flush_to_server
  flush_to_server_kept s v = after_flush_cases Inv _ _ base
    where
      r : Outcome × IoBuffer × List ℕ
      r = flush_buffer ev.send s.conn.c2s

      out : IsValid r.1 × (contents s.conn.c2s ≡ r.2 ++ contents r.1)
      out = flush-takes ev.send d.send_fits v.c2s_valid

      base : Inv (record {
        conn = record s.conn { c2s = r.1 };
        wire = record s.wire { to_server = s.wire.to_server ++ r.2 };
      })
      base = record {
        s2c_valid = v.s2c_valid;
        c2s_valid = out.0;
        downstream = v.downstream;
        upstream = stream_out _ _ _ _ r.2 v.upstream out.1;
        client_fin = v.client_fin;
        server_fin = λ e. ((v.server_fin e).0, empty_out _ _ r.2 out.1 (v.server_fin e).1);
        client_shut_once = v.client_shut_once;
        server_shut_once = v.server_shut_once;
      }

  flush_to_client-Inv : Keeps Inv (flush_to_client ev)
  flush_to_client-Inv = record { kept = flush_to_client_kept }

  client_event_rest-Inv : Keeps Inv (client_event_rest ev)
  unfolding client_event_rest
  client_event_rest-Inv =
      search
        (
          keeping, flush_to_client-Inv, close_client_read-Inv, pass_on_client_fin-Inv,
          update_connection_events-Inv,
        )
        depth 12

  -- A client event, handled to its end or broken off by an error, keeps the invariant, if EPOLLIN
  -- comes only while the client is still read from.
  pub process_client_event-Inv :
      (s : Session)
      → (ev.events.readable ≡ true → s.conn.client_read_open ≡ true)
      → Inv s
      → Inv (process_client_event ev s).1
  unfolding process_client_event
  process_client_event-Inv s is_open v =
      keeps_then (on ev.events.readable (receive_from_client ev)) (client_event_rest ev) s
        (keeps_on_if Inv ev.events.readable (receive_from_client ev) s
          (λ e. receive_from_client-Inv s v (is_open e)) v)
        client_event_rest-Inv

  flush_to_server-Inv : Keeps Inv (flush_to_server ev)
  flush_to_server-Inv = record { kept = flush_to_server_kept }

  server_event_rest-Inv : Keeps Inv (server_event_rest ev)
  unfolding server_event_rest
  server_event_rest-Inv =
      search
        (
          keeping, flush_to_server-Inv, close_server_read-Inv, pass_on_server_fin-Inv,
          update_connection_events-Inv,
        )
        depth 12

  -- A server event, handled to its end or broken off by an error, keeps the invariant, if EPOLLIN
  -- comes only while the server is still read from.
  pub process_server_event-Inv :
      (s : Session)
      → (ev.events.readable ≡ true → s.conn.server_read_open ≡ true)
      → Inv s
      → Inv (process_server_event ev s).1
  unfolding process_server_event
  process_server_event-Inv s is_open v =
      keeps_then (on ev.events.readable (receive_from_server ev)) (server_event_rest ev) s
        (keeps_on_if Inv ev.events.readable (receive_from_server ev) s
          (λ e. receive_from_server-Inv s v (is_open e)) v)
        server_event_rest-Inv
