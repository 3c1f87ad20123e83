-- ===== src/Accelerator/Handlers/Frames.antt =====
-- tcp_accelerator/tcp_accelerator.c: the handler of one endpoint leaves the reading of the other
-- alone, and rules for such frames.
use linux_network_lab.Base.{ℕ, ◌+◌, ◌≡◌, Bool, true, List, ◌++◌}
use linux_network_lab.Accelerator.Buffer.{IoBuffer}
use linux_network_lab.Accelerator.Session.{
  Events, Session, Event, on, change, Keeps, keeping, Keeps-seq, Keeps-on, Keeps-change,
}
use linux_network_lab.Accelerator.Handlers.Cases.{
  receive_from_client_cases, receive_from_server_cases, flush_to_client_cases,
  flush_to_server_cases, pass_on_client_fin_cases, pass_on_server_fin_cases, update-Keeps,
}
use linux_network_lab.Accelerator.Handlers.{
  update_connection_events, receive_from_client, receive_from_server, flush_to_client,
  flush_to_server, close_client_read, close_server_read, pass_on_client_fin, pass_on_server_fin,
  client_event_rest, server_event_rest, process_client_event, process_server_event,
}

-- A predicate that each step of the client's handler keeps once the reading is done.
pub record KeptByClientRest (P : Session → Type 0) : Type 0 where
  pub to_client :
      (s : Session) (buf : IoBuffer) (out : List ℕ)
      → P s
      → P (record {
        conn = record s.conn { s2c = buf };
        wire = record s.wire { to_client = s.wire.to_client ++ out };
      })
  pub close_client : (s : Session) → P s → P (close_client_read s)
  pub client_fin :
      (s : Session)
      → P s
      → P (record {
        conn = record s.conn { server_write_closed = true };
        wire = record s.wire { server_shuts = s.wire.server_shuts + 1 };
      })
  pub watch_client :
      (s : Session) (e : Events)
      → P s
      → P (record s { wire = record s.wire { client_interest = e } })
  pub watch_server :
      (s : Session) (e : Events)
      → P s
      → P (record s { wire = record s.wire { server_interest = e } })

module _ {P : Session → Type 0} (r : KeptByClientRest P) (ev : Event) where
  flush_to_client-Keeps : Keeps P (flush_to_client ev)
  flush_to_client-Keeps = record {
    kept = λ s h. flush_to_client_cases P ev s (λ buf out. r.to_client s buf out h);
  }

  close_client-Keeps : Keeps P (change close_client_read)
  close_client-Keeps = Keeps-change close_client_read r.close_client

  client_fin-Keeps : Keeps P (change pass_on_client_fin)
  client_fin-Keeps =
      Keeps-change pass_on_client_fin (λ s h. pass_on_client_fin_cases P s h (r.client_fin s h))

  client_update-Keeps : Keeps P (update_connection_events ev)
  client_update-Keeps = update-Keeps P ev r.watch_client r.watch_server

  pub client_event_rest-Keeps : Keeps P (client_event_rest ev)
  unfolding client_event_rest
  client_event_rest-Keeps =
      search
        (keeping, flush_to_client-Keeps, close_client-Keeps, client_fin-Keeps, client_update-Keeps)
        depth 12

  -- Where the reading keeps it too, the handler does.
  pub process_client_event-Keeps :
      ((s : Session) (buf : IoBuffer) (got : List ℕ)
        → P s
        → P (record {
          conn = record s.conn { c2s = buf };
          wire = record s.wire { from_client = s.wire.from_client ++ got };
        }))
      → Keeps P (process_client_event ev)
  unfolding process_client_event
  process_client_event-Keeps h =
      Keeps-seq (on ev.events.readable (receive_from_client ev)) (client_event_rest ev)
        (Keeps-on ev.events.readable (receive_from_client ev) (record {
          kept = λ s p. receive_from_client_cases P ev s r.close_client λ b g. h s b g p;
        }))
        client_event_rest-Keeps

-- A predicate that each step of the server's handler keeps once the reading is done.
pub record KeptByServerRest (P : Session → Type 0) : Type 0 where
  pub to_server :
      (s : Session) (buf : IoBuffer) (out : List ℕ)
      → P s
      → P (record {
        conn = record s.conn { c2s = buf };
        wire = record s.wire { to_server = s.wire.to_server ++ out };
      })
  pub close_server : (s : Session) → P s → P (close_server_read s)
  pub server_fin :
      (s : Session)
      → P s
      → P (record {
        conn = record s.conn { client_write_closed = true };
        wire = record s.wire { client_shuts = s.wire.client_shuts + 1 };
      })
  pub watch_server :
      (s : Session) (e : Events)
      → P s
      → P (record s { wire = record s.wire { server_interest = e } })
  pub watch_client :
      (s : Session) (e : Events)
      → P s
      → P (record s { wire = record s.wire { client_interest = e } })

module _ {P : Session → Type 0} (r : KeptByServerRest P) (ev : Event) where
  flush_to_server-Keeps : Keeps P (flush_to_server ev)
  flush_to_server-Keeps = record {
    kept = λ s h. flush_to_server_cases P ev s (λ buf out. r.to_server s buf out h);
  }

  close_server-Keeps : Keeps P (change close_server_read)
  close_server-Keeps = Keeps-change close_server_read r.close_server

  server_fin-Keeps : Keeps P (change pass_on_server_fin)
  server_fin-Keeps =
      Keeps-change pass_on_server_fin (λ s h. pass_on_server_fin_cases P s h (r.server_fin s h))

  server_update-Keeps : Keeps P (update_connection_events ev)
  server_update-Keeps = update-Keeps P ev r.watch_client r.watch_server

  pub server_event_rest-Keeps : Keeps P (server_event_rest ev)
  unfolding server_event_rest
  server_event_rest-Keeps =
      search
        (keeping, flush_to_server-Keeps, close_server-Keeps, server_fin-Keeps, server_update-Keeps)
        depth 12

  -- Where the reading keeps it too, the handler does.
  pub process_server_event-Keeps :
      ((s : Session) (buf : IoBuffer) (got : List ℕ)
        → P s
        → P (record {
          conn = record s.conn { s2c = buf };
          wire = record s.wire { from_server = s.wire.from_server ++ got };
        }))
      → Keeps P (process_server_event ev)
  unfolding process_server_event
  process_server_event-Keeps h =
      Keeps-seq (on ev.events.readable (receive_from_server ev)) (server_event_rest ev)
        (Keeps-on ev.events.readable (receive_from_server ev) (record {
          kept = λ s p. receive_from_server_cases P ev s r.close_server λ b g. h s b g p;
        }))
        server_event_rest-Keeps

pub record ServerReads (b : Bool) (s : Session) : Type 0 where
  pub server_reads : s.conn.server_read_open ≡ b

ServerReads-kept : (b : Bool) → KeptByClientRest (ServerReads b)
unfolding close_client_read
ServerReads-kept b = record {
  to_client = λ s buf out h. record { server_reads = h.server_reads };
  close_client = λ s h. record { server_reads = h.server_reads };
  client_fin = λ s h. record { server_reads = h.server_reads };
  watch_client = λ s e h. record { server_reads = h.server_reads };
  watch_server = λ s e h. record { server_reads = h.server_reads };
}

-- A client event changes nothing in whether the server is read from.
pub process_client_event-ServerReads :
    (b : Bool) (ev : Event) → Keeps (ServerReads b) (process_client_event ev)
process_client_event-ServerReads b ev =
    process_client_event-Keeps (ServerReads-kept b) ev
      (λ s buf got h. record { server_reads = h.server_reads })

pub record ClientReads (b : Bool) (s : Session) : Type 0 where
  pub client_reads : s.conn.client_read_open ≡ b

ClientReads-kept : (b : Bool) → KeptByServerRest (ClientReads b)
unfolding close_server_read
ClientReads-kept b = record {
  to_server = λ s buf out h. record { client_reads = h.client_reads };
  close_server = λ s h. record { client_reads = h.client_reads };
  server_fin = λ s h. record { client_reads = h.client_reads };
  watch_server = λ s e h. record { client_reads = h.client_reads };
  watch_client = λ s e h. record { client_reads = h.client_reads };
}

-- A server event changes nothing in whether the client is read from.
pub process_server_event-ClientReads :
    (b : Bool) (ev : Event) → Keeps (ClientReads b) (process_server_event ev)
process_server_event-ClientReads b ev =
    process_server_event-Keeps (ClientReads-kept b) ev
      (λ s buf got h. record { client_reads = h.client_reads })
