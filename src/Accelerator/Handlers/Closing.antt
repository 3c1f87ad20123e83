-- ===== src/Accelerator/Handlers/Closing.antt =====
-- tcp_accelerator/tcp_accelerator.c: a side that is no longer read from.
use linux_network_lab.Base.{◌≡◌, refl, sym, ◌∙◌, true, false, List, ℕ, arith}
use mathlib.Core.Bool.{false≢true}
use linux_network_lab.Accelerator.Session.{
  Connection, Session, Event, on, Keeps, keeps_then, keeps_on_if,
}
use linux_network_lab.Accelerator.Handlers.Frames.{
  KeptByClientRest, KeptByServerRest, client_event_rest-Keeps, server_event_rest-Keeps,
  process_client_event-Keeps, process_server_event-Keeps,
}
use linux_network_lab.Accelerator.Handlers.{
  receive_from_client, receive_from_server, close_client_read, close_server_read, client_event_rest,
  server_event_rest, process_client_event, process_server_event, connection_finished,
}
use linux_network_lab.Accelerator.Buffer.{buffer_empty}

-- The client is no longer read from, and what it has sent is `xs`.
pub record ClientDone (xs : List ℕ) (s : Session) : Type 0 where
  pub client_closed : s.conn.client_read_open ≡ false
  pub client_sent : s.wire.from_client ≡ xs

ClientDone-client_rest : (xs : List ℕ) → KeptByClientRest (ClientDone xs)
unfolding close_client_read
ClientDone-client_rest xs = record {
  to_client =
      λ s buf out h. record { client_closed = h.client_closed; client_sent = h.client_sent };
  close_client = λ s h. record { client_closed = refl; client_sent = h.client_sent };
  client_fin = λ s h. record { client_closed = h.client_closed; client_sent = h.client_sent };
  watch_client = λ s e h. record { client_closed = h.client_closed; client_sent = h.client_sent };
  watch_server = λ s e h. record { client_closed = h.client_closed; client_sent = h.client_sent };
}

ClientDone-server_rest : (xs : List ℕ) → KeptByServerRest (ClientDone xs)
unfolding close_server_read
ClientDone-server_rest xs = record {
  to_server =
      λ s buf out h. record { client_closed = h.client_closed; client_sent = h.client_sent };
  close_server = λ s h. record { client_closed = h.client_closed; client_sent = h.client_sent };
  server_fin = λ s h. record { client_closed = h.client_closed; client_sent = h.client_sent };
  watch_client = λ s e h. record { client_closed = h.client_closed; client_sent = h.client_sent };
  watch_server = λ s e h. record { client_closed = h.client_closed; client_sent = h.client_sent };
}

-- An event that is no EPOLLIN of the client leaves the client's side done.
pub process_client_event-ClientDone :
    (xs : List ℕ) (ev : Event) (s : Session)
    → (ev.events.readable ≡ true → s.conn.client_read_open ≡ true)
    → ClientDone xs s
    → ClientDone xs (process_client_event ev s).1
unfolding process_client_event
process_client_event-ClientDone xs ev s is_open h =
    keeps_then (on ev.events.readable (receive_from_client ev)) (client_event_rest ev) s
      (keeps_on_if (ClientDone xs) ev.events.readable (receive_from_client ev) s
        (λ e. absurd (false≢true (sym h.client_closed ∙ is_open e))) h)
      (client_event_rest-Keeps (ClientDone-client_rest xs) ev)

pub process_server_event-ClientDone :
    (xs : List ℕ) (ev : Event) → Keeps (ClientDone xs) (process_server_event ev)
process_server_event-ClientDone xs ev =
    process_server_event-Keeps (ClientDone-server_rest xs) ev
      λ s buf got h. record { client_closed = h.client_closed; client_sent = h.client_sent }

-- The server is no longer read from, and what it has sent is `xs`.
pub record ServerDone (xs : List ℕ) (s : Session) : Type 0 where
  pub server_closed : s.conn.server_read_open ≡ false
  pub server_sent : s.wire.from_server ≡ xs

ServerDone-server_rest : (xs : List ℕ) → KeptByServerRest (ServerDone xs)
unfolding close_server_read
ServerDone-server_rest xs = record {
  to_server =
      λ s buf out h. record { server_closed = h.server_closed; server_sent = h.server_sent };
  close_server = λ s h. record { server_closed = refl; server_sent = h.server_sent };
  server_fin = λ s h. record { server_closed = h.server_closed; server_sent = h.server_sent };
  watch_server = λ s e h. record { server_closed = h.server_closed; server_sent = h.server_sent };
  watch_client = λ s e h. record { server_closed = h.server_closed; server_sent = h.server_sent };
}

ServerDone-client_rest : (xs : List ℕ) → KeptByClientRest (ServerDone xs)
unfolding close_client_read
ServerDone-client_rest xs = record {
  to_client =
      λ s buf out h. record { server_closed = h.server_closed; server_sent = h.server_sent };
  close_client = λ s h. record { server_closed = h.server_closed; server_sent = h.server_sent };
  client_fin = λ s h. record { server_closed = h.server_closed; server_sent = h.server_sent };
  watch_server = λ s e h. record { server_closed = h.server_closed; server_sent = h.server_sent };
  watch_client = λ s e h. record { server_closed = h.server_closed; server_sent = h.server_sent };
}

-- An event that is no EPOLLIN of the server leaves the server's side done.
pub process_server_event-ServerDone :
    (xs : List ℕ) (ev : Event) (s : Session)
    → (ev.events.readable ≡ true → s.conn.server_read_open ≡ true)
    → ServerDone xs s
    → ServerDone xs (process_server_event ev s).1
unfolding process_server_event
process_server_event-ServerDone xs ev s is_open h =
    keeps_then (on ev.events.readable (receive_from_server ev)) (server_event_rest ev) s
      (keeps_on_if (ServerDone xs) ev.events.readable (receive_from_server ev) s
        (λ e. absurd (false≢true (sym h.server_closed ∙ is_open e))) h)
      (server_event_rest-Keeps (ServerDone-server_rest xs) ev)

pub process_client_event-ServerDone :
    (xs : List ℕ) (ev : Event) → Keeps (ServerDone xs) (process_client_event ev)
process_client_event-ServerDone xs ev =
    process_client_event-Keeps (ServerDone-client_rest xs) ev
      λ s buf got h. record { server_closed = h.server_closed; server_sent = h.server_sent }

-- FIN has been passed on to the server.
pub record ServerFinSent (s : Session) : Type 0 where
  pub server_fin_sent : s.conn.server_write_closed ≡ true

ServerFinSent-client_rest : KeptByClientRest ServerFinSent
unfolding close_client_read
ServerFinSent-client_rest = record {
  to_client = λ s buf out h. record { server_fin_sent = h.server_fin_sent };
  close_client = λ s h. record { server_fin_sent = h.server_fin_sent };
  client_fin = λ s h. record { server_fin_sent = refl };
  watch_client = λ s e h. record { server_fin_sent = h.server_fin_sent };
  watch_server = λ s e h. record { server_fin_sent = h.server_fin_sent };
}

ServerFinSent-server_rest : KeptByServerRest ServerFinSent
unfolding close_server_read
ServerFinSent-server_rest = record {
  to_server = λ s buf out h. record { server_fin_sent = h.server_fin_sent };
  close_server = λ s h. record { server_fin_sent = h.server_fin_sent };
  server_fin = λ s h. record { server_fin_sent = h.server_fin_sent };
  watch_client = λ s e h. record { server_fin_sent = h.server_fin_sent };
  watch_server = λ s e h. record { server_fin_sent = h.server_fin_sent };
}

pub process_client_event-ServerFinSent :
    (ev : Event) → Keeps ServerFinSent (process_client_event ev)
process_client_event-ServerFinSent ev =
    process_client_event-Keeps ServerFinSent-client_rest ev
      λ s buf got h. record { server_fin_sent = h.server_fin_sent }

pub process_server_event-ServerFinSent :
    (ev : Event) → Keeps ServerFinSent (process_server_event ev)
process_server_event-ServerFinSent ev =
    process_server_event-Keeps ServerFinSent-server_rest ev
      λ s buf got h. record { server_fin_sent = h.server_fin_sent }

-- FIN has been passed on to the client.
pub record ClientFinSent (s : Session) : Type 0 where
  pub client_fin_sent : s.conn.client_write_closed ≡ true

ClientFinSent-server_rest : KeptByServerRest ClientFinSent
unfolding close_server_read
ClientFinSent-server_rest = record {
  to_server = λ s buf out h. record { client_fin_sent = h.client_fin_sent };
  close_server = λ s h. record { client_fin_sent = h.client_fin_sent };
  server_fin = λ s h. record { client_fin_sent = refl };
  watch_server = λ s e h. record { client_fin_sent = h.client_fin_sent };
  watch_client = λ s e h. record { client_fin_sent = h.client_fin_sent };
}

ClientFinSent-client_rest : KeptByClientRest ClientFinSent
unfolding close_client_read
ClientFinSent-client_rest = record {
  to_client = λ s buf out h. record { client_fin_sent = h.client_fin_sent };
  close_client = λ s h. record { client_fin_sent = h.client_fin_sent };
  client_fin = λ s h. record { client_fin_sent = h.client_fin_sent };
  watch_server = λ s e h. record { client_fin_sent = h.client_fin_sent };
  watch_client = λ s e h. record { client_fin_sent = h.client_fin_sent };
}

pub process_server_event-ClientFinSent :
    (ev : Event) → Keeps ClientFinSent (process_server_event ev)
process_server_event-ClientFinSent ev =
    process_server_event-Keeps ClientFinSent-server_rest ev
      λ s buf got h. record { client_fin_sent = h.client_fin_sent }

pub process_client_event-ClientFinSent :
    (ev : Event) → Keeps ClientFinSent (process_client_event ev)
process_client_event-ClientFinSent ev =
    process_client_event-Keeps ClientFinSent-client_rest ev
      λ s buf got h. record { client_fin_sent = h.client_fin_sent }

-- What `connection_finished` tests.
pub finished_empty :
    (c : Connection)
    → connection_finished c ≡ true
    → (buffer_empty c.c2s ≡ true) × (buffer_empty c.s2c ≡ true)
unfolding connection_finished
finished_empty c h = ground arith
