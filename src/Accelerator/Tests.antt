-- ===== src/Accelerator/Tests.antt =====
-- tcp_accelerator/tcp_accelerator.c: the model at concrete inputs. A client says "Hi" and closes.
mod Parts
use linux_network_lab.Base.{
  ℕ, ◌+◌, ◌≤◌, ◌<◌, ◌≡◌, ◌≢◌, ◌↔◌, refl, inl, true, false, List, [], ◌∷◌, ◌++◌, none, some, arith,
  length, take, length-take,
}
use linux_network_lab.Accelerator.Buffer.{
  forward_buffer_size, IoBuffer, zeroed_buffer, RecvAnswer, received, SendAnswer, sent, idle,
  take_in, make_room, receive_into_buffer, flush_buffer,
}
use linux_network_lab.Accelerator.Buffer.Fifo.{
  IsValid, FitsRecv, FitsSend, contents, zeroed-IsValid,
}
use linux_network_lab.Accelerator.Buffer.Flush.{flush-takes}
use linux_network_lab.Accelerator.Buffer.Receive.{receive-appends, receive_room}
use linux_network_lab.Accelerator.Session.{Events, Session, Event, OnSuccess}
use linux_network_lab.Accelerator.Create.{
  SocketAnswers, CreateAnswers, fresh_session, create_connection,
}
use linux_network_lab.Accelerator.Create.Fds.{Accounted, create_connection-Accounted}
use linux_network_lab.Accelerator.Handlers.{
  process_client_event, process_server_event, client_events, connection_finished, handler_code,
}
use linux_network_lab.Accelerator.Handlers.Invariant.{IsDocumented, Inv}
use linux_network_lab.Accelerator.Handlers.Invariant.Handling.{
  process_client_event-Inv, process_server_event-Inv,
}
use linux_network_lab.Accelerator.Handlers.Interest.{
  Watched, client_events_lem, process_client_event-Watched,
}
use linux_network_lab.Accelerator.Runs.{Reported, client, server, Run, here, next, fresh-Settled}
use linux_network_lab.Accelerator.Runs.Streams.{
  Run-streams, Run-finished, Run-server_fin, Run-client_fin, Run-rdhup,
}
use linux_network_lab.Accelerator.Loop.{
  Slot, live, client_side, server_side, Ready, listener, endpoint, handle_batch, process_event,
}
use linux_network_lab.Accelerator.Loop.Batches.{batch_safe, batch_uses_freed}

abbrev pub hi : List ℕ
hi = 72 ∷ 105 ∷ []

abbrev pub recv_hi : ℕ → RecvAnswer
recv_hi n = received (take n hi)

abbrev pub send_all : List ℕ → SendAnswer
send_all bs = sent (length bs)

pub recv_hi-fits : (n : ℕ) → FitsRecv n (recv_hi n)
recv_hi-fits n = omega (arith, length-take n hi)

send_all-fits : (bs : List ℕ) → FitsSend bs (send_all bs)
send_all-fits bs = omega arith

abbrev pub quiet : Events
quiet = record { readable = false; writable = false; err = false; hup = false; rdhup = false }

-- EPOLLIN with two bytes to read.
abbrev pub speaks : Event
speaks = record {
  events = record quiet { readable = true };
  recv = recv_hi;
  send = send_all;
  client_mod = true;
  server_mod = true;
}

-- EPOLLOUT.
abbrev pub drains : Event
drains = record speaks { events = record quiet { writable = true } }

-- EPOLLRDHUP.
abbrev pub leaves : Event
leaves = record speaks { events = record quiet { rdhup = true } }

-- EPOLLIN and EPOLLRDHUP at once.
abbrev speaks_and_leaves : Event
speaks_and_leaves = record speaks { events = record quiet { readable = true; rdhup = true } }

-- The three kinds of event answer alike.
pub documented : (e : Events) → IsDocumented (record speaks { events = e })
documented e = record { recv_fits = recv_hi-fits; send_fits = send_all-fits }

abbrev pub start : Session
start = fresh_session 3 4

-- The client speaks, the server takes it, the client leaves, the server leaves.
abbrev pub spoken : Session
spoken = (process_client_event speaks start).1

abbrev drained : Session
drained = (process_server_event drains spoken).1

abbrev client_gone : Session
client_gone = (process_client_event leaves drained).1

abbrev both_gone : Session
both_gone = (process_server_event leaves client_gone).1

spoken_lem :
    (spoken.wire.from_client ≡ hi)
    × (spoken.wire.to_server ≡ [])
    × (spoken.wire.server_interest.writable ≡ true)
unfolding handler_code fresh_session
spoken_lem = (refl, refl, refl)

both_gone_lem :
    (connection_finished both_gone.conn ≡ true)
    × (both_gone.wire.to_server ≡ hi)
    × (both_gone.wire.server_shuts ≡ 1)
    × (both_gone.wire.client_shuts ≡ 1)
unfolding handler_code fresh_session
both_gone_lem = (refl, refl, refl, refl)

speaks-Reported : Reported start.wire.client_interest speaks
unfolding fresh_session
speaks-Reported = record {
  documented = documented (record quiet { readable = true });
  readable_watched = λ _. refl;
  writable_watched = λ e. cc e;
}

drains-Reported : Reported spoken.wire.server_interest drains
unfolding handler_code fresh_session
drains-Reported = record {
  documented = documented (record quiet { writable = true });
  readable_watched = λ e. cc e;
  writable_watched = λ _. refl;
}

leaves-Reported : (interest : Events) → Reported interest leaves
leaves-Reported interest = record {
  documented = documented (record quiet { rdhup = true });
  readable_watched = λ e. cc e;
  writable_watched = λ e. cc e;
}

Run-spoken : Run start spoken
unfolding handler_code fresh_session
Run-spoken = next here (client speaks speaks-Reported refl)

Run-drained : Run start drained
unfolding handler_code fresh_session
Run-drained = next Run-spoken (server drains drains-Reported refl)

Run-client_gone : Run start client_gone
unfolding handler_code fresh_session
Run-client_gone = next Run-drained (client leaves (leaves-Reported _) refl)

last_batch : Run client_gone both_gone
unfolding handler_code fresh_session
last_batch = next here (server leaves (leaves-Reported _) refl)

Run-both_gone : Run start both_gone
unfolding handler_code fresh_session
Run-both_gone = next Run-client_gone (server leaves (leaves-Reported _) refl)

Run-streams_example :
    (spoken.wire.from_client ≡ spoken.wire.to_server ++ contents spoken.conn.c2s)
    × (spoken.wire.from_server ≡ spoken.wire.to_client ++ contents spoken.conn.s2c)
Run-streams_example = Run-streams 3 4 Run-spoken

Run-finished_example :
    (both_gone.wire.to_server ≡ both_gone.wire.from_client)
    × (both_gone.wire.to_client ≡ both_gone.wire.from_server)
Run-finished_example = Run-finished 3 4 Run-both_gone both_gone_lem.0

client_gone_lem : client_gone.conn.server_write_closed ≡ true
unfolding handler_code fresh_session
client_gone_lem = refl

Run-server_fin_example :
    (both_gone.wire.to_server ≡ client_gone.wire.from_client)
    × (both_gone.wire.from_client ≡ client_gone.wire.from_client)
    × (both_gone.wire.server_shuts ≡ 1)
Run-server_fin_example = Run-server_fin 3 4 Run-client_gone client_gone_lem last_batch

both_gone-client_closed : both_gone.conn.client_write_closed ≡ true
unfolding handler_code fresh_session
both_gone-client_closed = refl

both_gone-client_fin :
    (both_gone.wire.to_client ≡ both_gone.wire.from_server)
    × (both_gone.wire.from_server ≡ both_gone.wire.from_server)
    × (both_gone.wire.client_shuts ≡ 1)
both_gone-client_fin = Run-client_fin 3 4 Run-both_gone both_gone-client_closed here

abbrev cut_off : Session
cut_off = (process_client_event speaks_and_leaves start).1

cut_off_lem : process_client_event speaks_and_leaves start ≡ (some tt, cut_off)
unfolding handler_code fresh_session
cut_off_lem = refl

speaks_and_leaves-Reported : Reported start.wire.client_interest speaks_and_leaves
unfolding fresh_session
speaks_and_leaves-Reported = record {
  documented = documented (record quiet { readable = true; rdhup = true });
  readable_watched = λ _. refl;
  writable_watched = λ e. cc e;
}

Run-rdhup_example :
    (cut_off.conn.client_read_open ≡ false) × (cut_off.wire.from_client ≡ cut_off.wire.from_client)
Run-rdhup_example =
    Run-rdhup 3 4 speaks_and_leaves here speaks_and_leaves-Reported refl cut_off_lem here
