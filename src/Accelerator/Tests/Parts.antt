-- ===== src/Accelerator/Tests/Parts.antt =====
-- tcp_accelerator/tcp_accelerator.c: the model at concrete inputs. The parts one by one.
use linux_network_lab.Base.{
  ℕ, ◌+◌, ◌≤◌, ◌<◌, ◌≡◌, ◌≢◌, ◌↔◌, refl, inl, true, false, List, [], ◌∷◌, ◌++◌, none, some, arith,
  length,
}
use linux_network_lab.Accelerator.Buffer.{
  forward_buffer_size, IoBuffer, zeroed_buffer, SendAnswer, sent, idle, take_in, make_room,
  receive_into_buffer, flush_buffer,
}
use linux_network_lab.Accelerator.Buffer.Fifo.{IsValid, FitsSend, contents, zeroed-IsValid}
use linux_network_lab.Accelerator.Buffer.Flush.{flush-takes}
use linux_network_lab.Accelerator.Buffer.Receive.{receive-appends, receive_room}
use linux_network_lab.Accelerator.Session.{Event, OnSuccess}
use linux_network_lab.Accelerator.Create.{
  SocketAnswers, CreateAnswers, fresh_session, create_connection,
}
use linux_network_lab.Accelerator.Create.Fds.{Accounted, create_connection-Accounted}
use linux_network_lab.Accelerator.Handlers.{
  process_client_event, process_server_event, client_events, handler_code,
}
use linux_network_lab.Accelerator.Handlers.Invariant.{Inv}
use linux_network_lab.Accelerator.Handlers.Invariant.Handling.{
  process_client_event-Inv, process_server_event-Inv,
}
use linux_network_lab.Accelerator.Handlers.Interest.{
  Watched, client_events_lem, process_client_event-Watched,
}
use linux_network_lab.Accelerator.Runs.{fresh-Settled}
use linux_network_lab.Accelerator.Loop.{
  Slot, live, client_side, server_side, Ready, listener, endpoint, handle_batch, process_event,
}
use linux_network_lab.Accelerator.Loop.Batches.{batch_safe, batch_uses_freed}
use linux_network_lab.Accelerator.Tests.{
  recv_hi, recv_hi-fits, quiet, speaks, drains, leaves, documented, start, spoken,
}

start_open : (start.conn.client_read_open ≡ true) × (start.conn.server_read_open ≡ true)
unfolding fresh_session
start_open = (refl, refl)

process_client_event-Inv_example : Inv spoken
process_client_event-Inv_example =
    process_client_event-Inv (documented (record quiet { readable = true })) start
      (λ _. start_open.0) (fresh-Settled 3 4).inv

server_speaks-Inv : Inv (process_server_event speaks start).1
server_speaks-Inv =
    process_server_event-Inv (documented (record quiet { readable = true })) start
      (λ _. start_open.1) (fresh-Settled 3 4).inv

client_speaks-Watched : OnSuccess Watched (process_client_event speaks)
client_speaks-Watched = process_client_event-Watched speaks

Inv-spoken : Inv spoken
Inv-spoken =
    process_client_event-Inv (documented (record quiet { readable = true })) start
      (λ _. start_open.0) (fresh-Settled 3 4).inv

client_masks :
    (((client_events spoken.conn).readable ≡ true) ↔ (
      (spoken.conn.client_read_open ≡ true)
      × (length (contents spoken.conn.c2s) < forward_buffer_size)))
    × (((client_events spoken.conn).writable ≡ true) ↔ (contents spoken.conn.s2c ≢ []))
    × ((client_events spoken.conn).rdhup ≡ true)
client_masks = client_events_lem spoken.conn Inv-spoken.c2s_valid Inv-spoken.s2c_valid

abbrev filled : IoBuffer
filled = (receive_into_buffer recv_hi zeroed_buffer).1

receive-appends_example :
    let (o, b, got) = receive_into_buffer recv_hi zeroed_buffer in
    IsValid b × (contents b ≡ contents zeroed_buffer ++ got)
receive-appends_example = receive-appends recv_hi recv_hi-fits zeroed-IsValid.0

filled-IsValid : IsValid filled
filled-IsValid = (receive-appends recv_hi recv_hi-fits zeroed-IsValid.0).0

filled_room :
    (length (contents filled) < forward_buffer_size
      → (n : ℕ) × (0 < n)
        × (n + length (contents filled) ≤ forward_buffer_size)
        × (receive_into_buffer recv_hi filled ≡ take_in (make_room filled) (recv_hi n)))
    × (length (contents filled) ≡ forward_buffer_size
        → receive_into_buffer recv_hi filled ≡ (idle, filled, []))
filled_room = receive_room filled-IsValid recv_hi

-- `send` takes one byte of the two.
abbrev send_one : List ℕ → SendAnswer
send_one [] = sent 0
send_one (x ∷ xs) = sent 1

send_one-fits : (bs : List ℕ) → FitsSend bs (send_one bs)
send_one-fits [] = omega arith
send_one-fits (x ∷ xs) = omega arith

flush-takes_example :
    let (o, b, out) = flush_buffer send_one filled in
    IsValid b × (contents filled ≡ out ++ contents b)
flush-takes_example = flush-takes send_one send_one-fits filled-IsValid

abbrev all_well : SocketAnswers
all_well = record { rcvbuf = true; sndbuf = true; getfl = true; setfl = true }

-- The server is not there: `connect` fails.
abbrev unreachable : CreateAnswers
unreachable = record {
  remote = record { socket = some 9; remote_setup = all_well; parsed = true; connected = false };
  client_setup = all_well;
  allocated = true;
  client_added = true;
  server_added = true;
}

create_connection-Accounted_example : Accounted 8 (some 9) (create_connection unreachable 8)
create_connection-Accounted_example = create_connection-Accounted unreachable 8

abbrev slots : List Slot
slots = live start ∷ live spoken ∷ []

abbrev calm_batch : List Ready
calm_batch = endpoint 0 client_side speaks ∷ listener [] ∷ endpoint 1 server_side drains ∷ []

batch_safe_example : handle_batch slots calm_batch ≢ none
batch_safe_example =
    batch_safe calm_batch slots ((start, refl), ((spoken, refl), tt)) ((λ e. cc e, tt), (tt, tt))

abbrev breaks : Event
breaks = record speaks { events = record quiet { hup = true } }

breaks_lem : (process_event client_side breaks start).0 ≡ none
unfolding process_event handler_code fresh_session
breaks_lem = refl

batch_uses_freed_example :
    handle_batch slots (endpoint 0 client_side breaks ∷ endpoint 0 server_side leaves ∷ []) ≡ none
batch_uses_freed_example =
    batch_uses_freed 0 client_side server_side breaks leaves slots start [] refl (inl breaks_lem)
