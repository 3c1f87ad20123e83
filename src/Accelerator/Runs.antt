-- ===== src/Accelerator/Runs.antt =====
-- tcp_accelerator/tcp_accelerator.c: a connection from its creation on, through any number of
-- batches of `epoll_wait`, as long as no handler fails.
pub mod Streams
use linux_network_lab.Base.{
  ℕ, ◌≡◌, ◌≢◌, refl, sym, ap, ◌∙◌, Bool, true, false, ◌&&◌, not, List, [], ◌++◌, append-nil, some,
  none, arith,
}
use linux_network_lab.Accelerator.Buffer.{IoBuffer, zeroed_buffer, buffer_empty}
use linux_network_lab.Accelerator.Buffer.Fifo.{IsValid, contents, zeroed-IsValid, empty_iff}
use linux_network_lab.Accelerator.Session.{Events, Connection, Session, Event, OnSuccess}
use linux_network_lab.Accelerator.Create.{first_interest, fresh_session}
use linux_network_lab.Accelerator.Handlers.{
  client_events, server_events, process_client_event, process_server_event, connection_finished,
}
use linux_network_lab.Accelerator.Handlers.Invariant.{IsDocumented, Inv}
use linux_network_lab.Accelerator.Handlers.Invariant.Handling.{
  process_client_event-Inv, process_server_event-Inv,
}
use linux_network_lab.Accelerator.Handlers.Interest.{
  Watched, client_open_of_readable, server_open_of_readable, fresh-Watched,
  process_client_event-Watched, process_server_event-Watched,
}
use linux_network_lab.Accelerator.Handlers.Frames.{
  ServerReads, ClientReads, process_client_event-ServerReads, process_server_event-ClientReads,
}
use linux_network_lab.Accelerator.Handlers.Closing.{
  ClientDone, ServerDone, process_client_event-ClientDone, process_server_event-ClientDone,
  process_client_event-ServerDone, process_server_event-ServerDone,
}

-- epoll reports EPOLLIN and EPOLLRDHUP only where they are watched.
pub record Reported (interest : Events) (ev : Event) : Type 0 where
  pub documented : IsDocumented ev
  pub readable_watched : ev.events.readable ≡ true → interest.readable ≡ true
  pub writable_watched : ev.events.writable ≡ true → interest.writable ≡ true

-- The events of one connection in one batch: at most one for each endpoint, each reported by what
-- was watched when the batch was fetched.
pub data Batch (s t : Session) : Type 0 where
  client :
      (ev : Event)
      → Reported s.wire.client_interest ev
      → process_client_event ev s ≡ (some tt, t)
      → Batch s t
  server :
      (ev : Event)
      → Reported s.wire.server_interest ev
      → process_server_event ev s ≡ (some tt, t)
      → Batch s t
  client_server :
      (ev ev' : Event) (m : Session)
      → Reported s.wire.client_interest ev
      → Reported s.wire.server_interest ev'
      → process_client_event ev s ≡ (some tt, m)
      → process_server_event ev' m ≡ (some tt, t)
      → Batch s t
  server_client :
      (ev ev' : Event) (m : Session)
      → Reported s.wire.server_interest ev
      → Reported s.wire.client_interest ev'
      → process_server_event ev s ≡ (some tt, m)
      → process_client_event ev' m ≡ (some tt, t)
      → Batch s t

pub data Run (s : Session) : Session → Type 0 where
  here : Run s s
  next : {t u : Session} → Run s t → Batch t u → Run s u

-- Between two batches.
pub record Settled (s : Session) : Type 0 where
  pub inv : Inv s
  pub watched : Watched s

pub Watched-client_open :
    {s : Session} {ev : Event}
    → Watched s
    → Reported s.wire.client_interest ev
    → ev.events.readable ≡ true
    → s.conn.client_read_open ≡ true
Watched-client_open {s} w r e =
    client_open_of_readable s.conn
      (ap (λ i. i.readable) (sym w.client_watched) ∙ r.readable_watched e)

client-Settled :
    {s t : Session} (ev : Event)
    → IsDocumented ev
    → (ev.events.readable ≡ true → s.conn.client_read_open ≡ true)
    → process_client_event ev s ≡ (some tt, t)
    → Inv s
    → Settled t
client-Settled {s} {t} ev d o e v = record {
  inv = rw (ap (λ x. x.1) e) at (process_client_event-Inv d s o v);
  watched =
      rw (ap (λ x. x.1) e) at
        ((process_client_event-Watched ev).holds s (λ n. cc (sym (ap (λ x. x.0) e) ∙ n)));
}

pub client_keeps_server_open :
    (s t : Session) (ev : Event)
    → process_client_event ev s ≡ (some tt, t)
    → s.conn.server_read_open ≡ true
    → t.conn.server_read_open ≡ true
client_keeps_server_open s t ev e h =
    ap (λ x. x.1.conn.server_read_open) (sym e)
    ∙ ((process_client_event-ServerReads true ev).kept s (record { server_reads = h })).server_reads

pub Watched-server_open :
    {s : Session} {ev : Event}
    → Watched s
    → Reported s.wire.server_interest ev
    → ev.events.readable ≡ true
    → s.conn.server_read_open ≡ true
Watched-server_open {s} w r e =
    server_open_of_readable s.conn
      (ap (λ i. i.readable) (sym w.server_watched) ∙ r.readable_watched e)

server-Settled :
    {s t : Session} (ev : Event)
    → IsDocumented ev
    → (ev.events.readable ≡ true → s.conn.server_read_open ≡ true)
    → process_server_event ev s ≡ (some tt, t)
    → Inv s
    → Settled t
server-Settled {s} {t} ev d o e v = record {
  inv = rw (ap (λ x. x.1) e) at (process_server_event-Inv d s o v);
  watched =
      rw (ap (λ x. x.1) e) at
        ((process_server_event-Watched ev).holds s (λ n. cc (sym (ap (λ x. x.0) e) ∙ n)));
}

pub server_keeps_client_open :
    (s t : Session) (ev : Event)
    → process_server_event ev s ≡ (some tt, t)
    → s.conn.client_read_open ≡ true
    → t.conn.client_read_open ≡ true
server_keeps_client_open s t ev e h =
    ap (λ x. x.1.conn.client_read_open) (sym e)
    ∙ ((process_server_event-ClientReads true ev).kept s (record { client_reads = h })).client_reads

pub Batch-Settled : {s t : Session} → Batch s t → Settled s → Settled t
Batch-Settled (client ev r e) h =
    client-Settled ev r.documented (Watched-client_open h.watched r) e h.inv
Batch-Settled (server ev r e) h =
    server-Settled ev r.documented (Watched-server_open h.watched r) e h.inv
Batch-Settled {s} (client_server ev ev' m r r' e e') h =
    server-Settled ev' r'.documented
      (λ x. client_keeps_server_open s m ev e (Watched-server_open h.watched r' x)) e'
      (client-Settled ev r.documented (Watched-client_open h.watched r) e h.inv).inv
Batch-Settled {s} (server_client ev ev' m r r' e e') h =
    client-Settled ev' r'.documented
      (λ x. server_keeps_client_open s m ev e (Watched-client_open h.watched r' x)) e'
      (server-Settled ev r.documented (Watched-server_open h.watched r) e h.inv).inv

pub fresh-Settled : (client_fd server_fd : ℕ) → Settled (fresh_session client_fd server_fd)
unfolding fresh_session
fresh-Settled client_fd server_fd = record {
  inv = record {
    c2s_valid = zeroed-IsValid.0;
    s2c_valid = zeroed-IsValid.0;
    upstream = sym zeroed-IsValid.1;
    downstream = sym zeroed-IsValid.1;
    server_fin = λ e. cc e;
    client_fin = λ e. cc e;
    server_shut_once = refl;
    client_shut_once = refl;
  };
  watched = fresh-Watched client_fd server_fd;
}

pub Run-Settled : {s t : Session} → Run s t → Settled s → Settled t
Run-Settled here h = h
Run-Settled (next r b) h = Batch-Settled b (Run-Settled r h)
