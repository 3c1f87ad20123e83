-- ===== src/Accelerator/Handlers/Interest.antt =====
-- tcp_accelerator/tcp_accelerator.c: the events that a handled event leaves epoll watching.
use linux_network_lab.Base.{
  ℕ, ◌<◌, ◌≡◌, ◌≢◌, ◌↔◌, refl, Bool, true, false, not, [], inl, inr, none, arith, length,
  Bool-cases,
}
use linux_network_lab.Accelerator.Buffer.{
  IoBuffer, forward_buffer_size, buffer_empty, buffer_space, zeroed_buffer,
}
use linux_network_lab.Accelerator.Buffer.Fifo.{
  IsValid, contents, space_eq, length-contents, empty_iff,
}
use linux_network_lab.Accelerator.Create.{fresh_session}
use linux_network_lab.Accelerator.Session.{
  Connection, Session, Event, ◌>>◌, OnSuccess, OnSuccess-seq,
}
use linux_network_lab.Accelerator.Handlers.{
  can_take_more, modify_client, modify_server, client_events, server_events,
  update_connection_events, client_event_rest, server_event_rest, process_client_event,
  process_server_event,
}

-- epoll watches what the connection's state calls for.
pub record Watched (s : Session) : Type 0 where
  pub client_watched : s.wire.client_interest ≡ client_events s.conn
  pub server_watched : s.wire.server_interest ≡ server_events s.conn

can_take_more_iff :
    {buf : IoBuffer}
    → IsValid buf
    → (can_take_more buf ≡ true) ↔ (length (contents buf) < forward_buffer_size)
unfolding can_take_more
can_take_more_iff {buf} v = (
  λ h. ground (arith, space_eq v, length-contents v, v.ordered, v.in_array),
  λ h. ground (arith, space_eq v, length-contents v, v.ordered, v.in_array),
)

not_empty_iff :
    {buf : IoBuffer} → IsValid buf → (not (buffer_empty buf) ≡ true) ↔ (contents buf ≢ [])
not_empty_iff {buf} v = (
  λ h e. cc (h, (empty_iff v).1 e),
  λ h. elim (Bool-cases (buffer_empty buf)) [
    | inl nothing ↦ absurd (h ((empty_iff v).0 nothing))
    | inr something ↦ rw something
  ],
)

-- The masks say what the queues say: EPOLLIN while the side is open and the queue it feeds has
-- room, EPOLLOUT while the queue that it drains holds a byte, EPOLLRDHUP always.
pub client_events_lem :
    (c : Connection)
    → IsValid c.c2s
    → IsValid c.s2c
    → (((client_events c).readable ≡ true)
        ↔ ((c.client_read_open ≡ true) × (length (contents c.c2s) < forward_buffer_size)))
      × (((client_events c).writable ≡ true) ↔ (contents c.s2c ≢ []))
      × ((client_events c).rdhup ≡ true)
unfolding client_events
client_events_lem c v w = (
  (
    λ h. (ground arith, (can_take_more_iff v).0 (ground arith)),
    λ (o, h). rw (o, (can_take_more_iff v).1 h),
  ),
  not_empty_iff w,
  refl,
)

pub server_events_lem :
    (c : Connection)
    → IsValid c.c2s
    → IsValid c.s2c
    → (((server_events c).readable ≡ true)
        ↔ ((c.server_read_open ≡ true) × (length (contents c.s2c) < forward_buffer_size)))
      × (((server_events c).writable ≡ true) ↔ (contents c.c2s ≢ []))
      × ((server_events c).rdhup ≡ true)
unfolding server_events
server_events_lem c v w = (
  (
    λ h. (ground arith, (can_take_more_iff w).0 (ground arith)),
    λ (o, h). rw (o, (can_take_more_iff w).1 h),
  ),
  not_empty_iff v,
  refl,
)

pub client_open_of_readable :
    (c : Connection) → (client_events c).readable ≡ true → c.client_read_open ≡ true
unfolding client_events
client_open_of_readable c h = ground arith

pub server_open_of_readable :
    (c : Connection) → (server_events c).readable ≡ true → c.server_read_open ≡ true
unfolding server_events
server_open_of_readable c h = ground arith

both_modified :
    (a b : Bool) (s : Session)
    → let m = modify_client a (client_events s.conn) >> modify_server b (server_events s.conn) in
      (m s).0 ≢ none → Watched (m s).1
unfolding modify_client modify_server ◌>>◌
both_modified true true s h = record { client_watched = refl; server_watched = refl }
both_modified true false s h = absurd (h refl)
both_modified false b s h = absurd (h refl)

update-Watched : (ev : Event) → OnSuccess Watched (update_connection_events ev)
unfolding update_connection_events
update-Watched ev = record { holds = λ s. both_modified ev.client_mod ev.server_mod s }

client_rest-Watched : (ev : Event) → OnSuccess Watched (client_event_rest ev)
unfolding client_event_rest
client_rest-Watched ev = search (OnSuccess-seq, update-Watched) depth 8

server_rest-Watched : (ev : Event) → OnSuccess Watched (server_event_rest ev)
unfolding server_event_rest
server_rest-Watched ev = search (OnSuccess-seq, update-Watched) depth 8

-- Whatever state an event finds, if its handler succeeds, epoll is left watching what the new
-- state calls for.
pub process_client_event-Watched : (ev : Event) → OnSuccess Watched (process_client_event ev)
unfolding process_client_event
process_client_event-Watched ev = OnSuccess-seq _ (client_event_rest ev) (client_rest-Watched ev)

pub process_server_event-Watched : (ev : Event) → OnSuccess Watched (process_server_event ev)
unfolding process_server_event
process_server_event-Watched ev = OnSuccess-seq _ (server_event_rest ev) (server_rest-Watched ev)

pub fresh-Watched : (client_fd server_fd : ℕ) → Watched (fresh_session client_fd server_fd)
unfolding fresh_session client_events server_events can_take_more buffer_space buffer_empty
    zeroed_buffer
fresh-Watched client_fd server_fd = record { client_watched = refl; server_watched = refl }
