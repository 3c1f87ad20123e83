-- ===== src/Accelerator/Runs/Streams.antt =====
-- tcp_accelerator/tcp_accelerator.c: what the two sockets of a connection have seen.
use linux_network_lab.Base.{
  ℕ, ◌≡◌, refl, sym, ap, ◌∙◌, true, false, List, ◌++◌, append-nil, some, if◌then◌else◌,
}
use linux_network_lab.Accelerator.Buffer.Fifo.{contents, empty_iff}
use linux_network_lab.Accelerator.Create.{fresh_session}
use linux_network_lab.Accelerator.Session.{Session, Event}
use linux_network_lab.Accelerator.Handlers.{process_client_event, connection_finished}
use linux_network_lab.Accelerator.Handlers.Invariant.{Inv}
use linux_network_lab.Accelerator.Handlers.Closing.{
  finished_empty, ClientDone, ServerDone, process_client_event-ClientDone,
  process_server_event-ClientDone, process_client_event-ServerDone, process_server_event-ServerDone,
  ServerFinSent, ClientFinSent, process_client_event-ServerFinSent,
  process_server_event-ServerFinSent, process_client_event-ClientFinSent,
  process_server_event-ClientFinSent,
}
use linux_network_lab.Accelerator.Handlers.HalfClose.{rdhup-ends-reading}
use linux_network_lab.Accelerator.Runs.{
  Reported, Batch, client, server, client_server, server_client, Run, here, next, Settled,
  Batch-Settled, Run-Settled, fresh-Settled, Watched-client_open, Watched-server_open,
  client_keeps_server_open, server_keeps_client_open,
}

-- However the batches of a connection fall, what has come in from either side is what has gone out
-- to the other side with the queue between them behind it: no byte is lost, doubled or moved.
pub Run-streams :
    (client_fd server_fd : ℕ) {s : Session}
    → Run (fresh_session client_fd server_fd) s
    → (s.wire.from_client ≡ s.wire.to_server ++ contents s.conn.c2s)
      × (s.wire.from_server ≡ s.wire.to_client ++ contents s.conn.s2c)
Run-streams client_fd server_fd r =
    let h = (Run-Settled r (fresh-Settled client_fd server_fd)).inv in (h.upstream, h.downstream)

-- A connection that `connection_finished` accepts has passed on all that came in on either side.
pub Run-finished :
    (client_fd server_fd : ℕ) {s : Session}
    → Run (fresh_session client_fd server_fd) s
    → connection_finished s.conn ≡ true
    → (s.wire.to_server ≡ s.wire.from_client) × (s.wire.to_client ≡ s.wire.from_server)
Run-finished client_fd server_fd {s} r f =
    let h = (Run-Settled r (fresh-Settled client_fd server_fd)).inv in
    let (up, down) = finished_empty s.conn f in
    (
      sym (append-nil s.wire.to_server)
          ∙ ap (λ xs. s.wire.to_server ++ xs) (sym ((empty_iff h.c2s_valid).0 up))
          ∙ sym h.upstream,
      sym (append-nil s.wire.to_client)
          ∙ ap (λ xs. s.wire.to_client ++ xs) (sym ((empty_iff h.s2c_valid).0 down))
          ∙ sym h.downstream,
    )

Batch-ClientDone :
    {xs : List ℕ} {s t : Session} → Batch s t → Settled s → ClientDone xs s → ClientDone xs t
Batch-ClientDone {xs} {s} (client ev r e) h d =
    rw (ap (λ x. x.1) e) at
      (process_client_event-ClientDone xs ev s (Watched-client_open h.watched r) d)
Batch-ClientDone {xs} {s} (server ev r e) h d =
    rw (ap (λ x. x.1) e) at ((process_server_event-ClientDone xs ev).kept s d)
Batch-ClientDone {xs} {s} (client_server ev ev' m r r' e e') h d = rw (ap (λ x. x.1) e') at (
    (process_server_event-ClientDone xs ev').kept m (
      rw (ap (λ x. x.1) e) at
        (process_client_event-ClientDone xs ev s (Watched-client_open h.watched r) d)))
Batch-ClientDone {xs} {s} (server_client ev ev' m r r' e e') h d = rw (ap (λ x. x.1) e') at (
    process_client_event-ClientDone xs ev' m
      (λ x. server_keeps_client_open s m ev e (Watched-client_open h.watched r' x))
      (rw (ap (λ x. x.1) e) at ((process_server_event-ClientDone xs ev).kept s d)))

Batch-ServerFinSent : {s t : Session} → Batch s t → ServerFinSent s → ServerFinSent t
Batch-ServerFinSent {s} (client ev r e) d =
    rw (ap (λ x. x.1) e) at ((process_client_event-ServerFinSent ev).kept s d)
Batch-ServerFinSent {s} (server ev r e) d =
    rw (ap (λ x. x.1) e) at ((process_server_event-ServerFinSent ev).kept s d)
Batch-ServerFinSent {s} (client_server ev ev' m r r' e e') d = rw (ap (λ x. x.1) e') at (
    (process_server_event-ServerFinSent ev').kept m
      (rw (ap (λ x. x.1) e) at ((process_client_event-ServerFinSent ev).kept s d)))
Batch-ServerFinSent {s} (server_client ev ev' m r r' e e') d = rw (ap (λ x. x.1) e') at (
    (process_client_event-ServerFinSent ev').kept m
      (rw (ap (λ x. x.1) e) at ((process_server_event-ServerFinSent ev).kept s d)))

Run-ClientDone :
    {xs : List ℕ} {s t : Session} → Run s t → Settled s → ClientDone xs s → ClientDone xs t
Run-ClientDone here h d = d
Run-ClientDone (next r b) h d = Batch-ClientDone b (Run-Settled r h) (Run-ClientDone r h d)

Run-ServerFinSent : {s t : Session} → Run s t → ServerFinSent s → ServerFinSent t
Run-ServerFinSent here d = d
Run-ServerFinSent (next r b) d = Batch-ServerFinSent b (Run-ServerFinSent r d)

Batch-ServerDone :
    {xs : List ℕ} {s t : Session} → Batch s t → Settled s → ServerDone xs s → ServerDone xs t
Batch-ServerDone {xs} {s} (server ev r e) h d =
    rw (ap (λ x. x.1) e) at
      (process_server_event-ServerDone xs ev s (Watched-server_open h.watched r) d)
Batch-ServerDone {xs} {s} (client ev r e) h d =
    rw (ap (λ x. x.1) e) at ((process_client_event-ServerDone xs ev).kept s d)
Batch-ServerDone {xs} {s} (server_client ev ev' m r r' e e') h d = rw (ap (λ x. x.1) e') at (
    (process_client_event-ServerDone xs ev').kept m (
      rw (ap (λ x. x.1) e) at
        (process_server_event-ServerDone xs ev s (Watched-server_open h.watched r) d)))
Batch-ServerDone {xs} {s} (client_server ev ev' m r r' e e') h d = rw (ap (λ x. x.1) e') at (
    process_server_event-ServerDone xs ev' m
      (λ x. client_keeps_server_open s m ev e (Watched-server_open h.watched r' x))
      (rw (ap (λ x. x.1) e) at ((process_client_event-ServerDone xs ev).kept s d)))

Batch-ClientFinSent : {s t : Session} → Batch s t → ClientFinSent s → ClientFinSent t
Batch-ClientFinSent {s} (server ev r e) d =
    rw (ap (λ x. x.1) e) at ((process_server_event-ClientFinSent ev).kept s d)
Batch-ClientFinSent {s} (client ev r e) d =
    rw (ap (λ x. x.1) e) at ((process_client_event-ClientFinSent ev).kept s d)
Batch-ClientFinSent {s} (server_client ev ev' m r r' e e') d = rw (ap (λ x. x.1) e') at (
    (process_client_event-ClientFinSent ev').kept m
      (rw (ap (λ x. x.1) e) at ((process_server_event-ClientFinSent ev).kept s d)))
Batch-ClientFinSent {s} (client_server ev ev' m r r' e e') d = rw (ap (λ x. x.1) e') at (
    (process_server_event-ClientFinSent ev').kept m
      (rw (ap (λ x. x.1) e) at ((process_client_event-ClientFinSent ev).kept s d)))

Run-ServerDone :
    {xs : List ℕ} {s t : Session} → Run s t → Settled s → ServerDone xs s → ServerDone xs t
Run-ServerDone here h d = d
Run-ServerDone (next r b) h d = Batch-ServerDone b (Run-Settled r h) (Run-ServerDone r h d)

Run-ClientFinSent : {s t : Session} → Run s t → ClientFinSent s → ClientFinSent t
Run-ClientFinSent here d = d
Run-ClientFinSent (next r b) d = Batch-ClientFinSent b (Run-ClientFinSent r d)

-- Once FIN has been passed on to the server, the server has been sent every byte that was received
-- from the client up to then, no further byte is received from the client, FIN is not sent again,
-- and nothing follows it, however long the connection runs on.
pub Run-server_fin :
    (client_fd server_fd : ℕ) {s t : Session}
    → Run (fresh_session client_fd server_fd) s
    → s.conn.server_write_closed ≡ true
    → Run s t
    → (t.wire.to_server ≡ s.wire.from_client)
      × (t.wire.from_client ≡ s.wire.from_client)
      × (t.wire.server_shuts ≡ 1)
Run-server_fin client_fd server_fd {s} {t} r f q = (
  sym (append-nil t.wire.to_server)
      ∙ ap (λ xs. t.wire.to_server ++ xs) (sym (v.server_fin sent.server_fin_sent).1)
      ∙ sym v.upstream
      ∙ stays.client_sent,
  stays.client_sent,
  v.server_shut_once ∙ ap (λ b. if b then 1 else 0) sent.server_fin_sent,
)
  where
    h : Settled s
    h = Run-Settled r (fresh-Settled client_fd server_fd)

    v : Inv t
    v = (Run-Settled q h).inv

    sent : ServerFinSent t
    sent = Run-ServerFinSent q (record { server_fin_sent = f })

    stays : ClientDone s.wire.from_client t
    stays =
        Run-ClientDone q h (record { client_closed = (h.inv.server_fin f).0; client_sent = refl })

-- Once FIN has been passed on to the client, the client has been sent every byte that was received
-- from the server up to then, no further byte is received from the server, FIN is not sent again,
-- and nothing follows it, however long the connection runs on.
pub Run-client_fin :
    (server_fd client_fd : ℕ) {s t : Session}
    → Run (fresh_session server_fd client_fd) s
    → s.conn.client_write_closed ≡ true
    → Run s t
    → (t.wire.to_client ≡ s.wire.from_server)
      × (t.wire.from_server ≡ s.wire.from_server)
      × (t.wire.client_shuts ≡ 1)
Run-client_fin server_fd client_fd {s} {t} r f q = (
  sym (append-nil t.wire.to_client)
      ∙ ap (λ xs. t.wire.to_client ++ xs) (sym (v.client_fin sent.client_fin_sent).1)
      ∙ sym v.downstream
      ∙ stays.server_sent,
  stays.server_sent,
  v.client_shut_once ∙ ap (λ b. if b then 1 else 0) sent.client_fin_sent,
)
  where
    h : Settled s
    h = Run-Settled r (fresh-Settled server_fd client_fd)

    v : Inv t
    v = (Run-Settled q h).inv

    sent : ClientFinSent t
    sent = Run-ClientFinSent q (record { client_fin_sent = f })

    stays : ServerDone s.wire.from_server t
    stays =
        Run-ServerDone q h (record { server_closed = (h.inv.client_fin f).0; server_sent = refl })

-- After a client event with EPOLLRDHUP nothing more is read from the client, however long the
-- connection runs on: what the client had sent beyond the bytes that this event read is never
-- passed on.
pub Run-rdhup :
    (client_fd server_fd : ℕ) (ev : Event) {s t u : Session}
    → Run (fresh_session client_fd server_fd) s
    → Reported s.wire.client_interest ev
    → ev.events.rdhup ≡ true
    → process_client_event ev s ≡ (some tt, t)
    → Run t u
    → (u.conn.client_read_open ≡ false) × (u.wire.from_client ≡ t.wire.from_client)
Run-rdhup client_fd server_fd ev {s} {t} {u} r o e h q = (stays.client_closed, stays.client_sent)
  where
    settled : Settled t
    settled = Batch-Settled (client ev o h) (Run-Settled r (fresh-Settled client_fd server_fd))

    stays : ClientDone t.wire.from_client u
    stays =
        Run-ClientDone q settled
          (record { client_closed = rdhup-ends-reading ev s e h; client_sent = refl })
