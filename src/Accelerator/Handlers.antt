-- ===== src/Accelerator/Handlers.antt =====
-- tcp_accelerator/tcp_accelerator.c: the events that a connection asks for, and what the two
-- endpoints' handlers do with those that come.
mod Cases
pub mod Frames
pub mod Interest
pub mod Invariant
pub mod Closing
pub mod HalfClose
use linux_network_lab.Base.{◌+◌, Bool, true, false, not, ◌&&◌, ◌||◌, ◌++◌, ltb, if◌then◌else◌}
use linux_network_lab.Accelerator.Buffer.{
  IoBuffer, buffer_empty, buffer_space, Outcome, failed, idle, moved, finished, receive_into_buffer,
  flush_buffer, buffer_code,
}
use linux_network_lab.Accelerator.Session.{
  Events, Connection, Session, Event, M, ◌>>=◌, ◌>>◌, done, fail, on, change,
}

-- EPOLLIN is wanted while the other end's buffer can take more.
can_take_more : IoBuffer → Bool
can_take_more buf = ltb 0 (buffer_space buf) || ltb 0 buf.start

pub client_events : Connection → Events
unfolding can_take_more
client_events c = record {
  readable = c.client_read_open && can_take_more c.c2s;
  writable = not (buffer_empty c.s2c);
  err = false;
  hup = false;
  rdhup = true;
}

pub server_events : Connection → Events
unfolding can_take_more
server_events c = record {
  readable = c.server_read_open && can_take_more c.s2c;
  writable = not (buffer_empty c.c2s);
  err = false;
  hup = false;
  rdhup = true;
}

-- `epoll_modify` on either endpoint.
pub modify_client : Bool → Events → M (Unit {0})
unfolding change fail
modify_client accepted events =
    if accepted
    then change (λ s. record s { wire = record s.wire { client_interest = events } })
    else fail

pub modify_server : Bool → Events → M (Unit {0})
unfolding change fail
modify_server accepted events =
    if accepted
    then change (λ s. record s { wire = record s.wire { server_interest = events } })
    else fail

-- Both masks are computed before the first call.
pub update_connection_events : Event → M (Unit {0})
unfolding modify_client modify_server ◌>>◌
update_connection_events ev s =
    (modify_client ev.client_mod (client_events s.conn)
        >> modify_server ev.server_mod (server_events s.conn))
      s

-- The tests on the result of `receive_into_buffer`; `closed` clears the flag of the side read from.
pub after_receive : Outcome → (Session → Session) → M (Unit {0})
unfolding fail done change
after_receive failed closed = fail
after_receive idle closed = done
after_receive moved closed = done
after_receive finished closed = change closed

pub after_flush : Outcome → M (Unit {0})
unfolding fail done
after_flush failed = fail
after_flush _ = done

pub close_client_read : Session → Session
close_client_read s = record s { conn = record s.conn { client_read_open = false } }

pub close_server_read : Session → Session
close_server_read s = record s { conn = record s.conn { server_read_open = false } }

pub receive_from_client : (ev : Event) → M (Unit {0})
unfolding after_receive
receive_from_client ev s =
    let (outcome, buf, got) = receive_into_buffer ev.recv s.conn.c2s in
    after_receive outcome close_client_read (record {
      conn = record s.conn { c2s = buf };
      wire = record s.wire { from_client = s.wire.from_client ++ got };
    })

pub receive_from_server : (ev : Event) → M (Unit {0})
unfolding after_receive
receive_from_server ev s =
    let (outcome, buf, got) = receive_into_buffer ev.recv s.conn.s2c in
    after_receive outcome close_server_read (record {
      conn = record s.conn { s2c = buf };
      wire = record s.wire { from_server = s.wire.from_server ++ got };
    })

pub flush_to_client : Event → M (Unit {0})
unfolding after_flush
flush_to_client ev s =
    let (outcome, buf, out) = flush_buffer ev.send s.conn.s2c in
    after_flush outcome (record {
      conn = record s.conn { s2c = buf };
      wire = record s.wire { to_client = s.wire.to_client ++ out };
    })

pub flush_to_server : Event → M (Unit {0})
unfolding after_flush
flush_to_server ev s =
    let (outcome, buf, out) = flush_buffer ev.send s.conn.c2s in
    after_flush outcome (record {
      conn = record s.conn { c2s = buf };
      wire = record s.wire { to_server = s.wire.to_server ++ out };
    })

-- All that the client sent has been passed on: FIN to the server, once.
pub pass_on_client_fin : Session → Session
pass_on_client_fin s =
    if (not s.conn.client_read_open && buffer_empty s.conn.c2s) && not s.conn.server_write_closed
    then record {
      conn = record s.conn { server_write_closed = true };
      wire = record s.wire { server_shuts = s.wire.server_shuts + 1 };
    }
    else s

pub pass_on_server_fin : Session → Session
pass_on_server_fin s =
    if (not s.conn.server_read_open && buffer_empty s.conn.s2c) && not s.conn.client_write_closed
    then record {
      conn = record s.conn { client_write_closed = true };
      wire = record s.wire { client_shuts = s.wire.client_shuts + 1 };
    }
    else s

-- What follows the reading.
pub client_event_rest : Event → M (Unit {0})
client_event_rest ev = do
  on ev.events.writable (flush_to_client ev)
  on (ev.events.err || ev.events.hup) fail
  on ev.events.rdhup (change close_client_read)
  change pass_on_client_fin
  update_connection_events ev

pub process_client_event : Event → M (Unit {0})
process_client_event ev = do on ev.events.readable (receive_from_client ev); client_event_rest ev

-- What follows the reading.
pub server_event_rest : Event → M (Unit {0})
server_event_rest ev = do
  on ev.events.writable (flush_to_server ev)
  on (ev.events.err || ev.events.hup) fail
  on ev.events.rdhup (change close_server_read)
  change pass_on_server_fin
  update_connection_events ev

pub process_server_event : Event → M (Unit {0})
process_server_event ev = do on ev.events.readable (receive_from_server ev); server_event_rest ev

pub connection_finished : Connection → Bool
connection_finished c =
    (not c.client_read_open && not c.server_read_open) && (buffer_empty c.c2s && buffer_empty c.s2c)

-- To run the handlers in a test, unfold this.
unfoldable pub handler_code : Unit {0}
unfolding buffer_code done fail on change ◌>>=◌ ◌>>◌ can_take_more client_events server_events
    modify_client modify_server update_connection_events after_receive after_flush close_client_read
    close_server_read receive_from_client receive_from_server flush_to_client flush_to_server
    pass_on_client_fin pass_on_server_fin client_event_rest server_event_rest process_client_event
    process_server_event connection_finished
handler_code = tt
