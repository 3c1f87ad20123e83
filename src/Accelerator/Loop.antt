-- ===== src/Accelerator/Loop.antt =====
-- tcp_accelerator/tcp_accelerator.c: the body of the event loop in `main`, over all connections.
-- A connection is named by its place in the order of creation; a freed one stays there as freed, so
-- that a later use of it shows.
pub mod Batches
use linux_network_lab.Base.{
  ℕ, Bool, true, false, List, [], ◌∷◌, ◌++◌, Option, none, some, get_elem?, set, if◌then◌else◌,
}
use linux_network_lab.Accelerator.Session.{Session, Event}
use linux_network_lab.Accelerator.Create.{CreateAnswers, create_connection}
use linux_network_lab.Accelerator.Handlers.{
  process_client_event, process_server_event, connection_finished,
}

pub data Slot : Type 0 where
  live : Session → Slot
  freed : Slot

-- What one call of `accept` answers: a client with what its creation meets, or an error.
pub data AcceptAnswer : Type 0 where
  accepted : ℕ → CreateAnswers → AcceptAnswer
  accept_again accept_interrupted accept_error : AcceptAnswer

pub data Side : Type 0 where
  client_side server_side : Side

-- One entry of `events`: `data.ptr` is the listener, or an endpoint of a connection.
pub data Ready : Type 0 where
  listener : List AcceptAnswer → Ready
  endpoint : ℕ → Side → Event → Ready

add_connection : Option Session → List Slot → List Slot
add_connection none slots = slots
add_connection (some s) slots = slots ++ live s ∷ []

-- The loop of `accept`: EINTR tries again, and any other error ends it.
pub accept_loop : List AcceptAnswer → List Slot → List Slot
unfolding add_connection
accept_loop [] slots = slots
accept_loop (accepted client_fd a ∷ rest) slots =
    accept_loop rest (add_connection (create_connection a client_fd).0 slots)
accept_loop (accept_again ∷ rest) slots = slots
accept_loop (accept_interrupted ∷ rest) slots = accept_loop rest slots
accept_loop (accept_error ∷ rest) slots = slots

unfoldable pub process_event : Side → Event → Session → Option (Unit {0}) × Session
process_event client_side ev s = process_client_event ev s
process_event server_side ev s = process_server_event ev s

-- A handler that fails, and a connection that is finished, free the connection.
after_event : Option (Unit {0}) × Session → Slot
after_event (none, s) = freed
after_event (some _, s) = if connection_finished s.conn then freed else live s

-- `none` where `endpoint->type` or `endpoint->conn` is read from freed memory.
with_slot : List Slot → ℕ → Side → Event → Option Slot → Option (List Slot)
unfolding after_event
with_slot slots i side ev none = none
with_slot slots i side ev (some freed) = none
with_slot slots i side ev (some (live s)) =
    some (set slots i (after_event (process_event side ev s)))

pub handle_ready : List Slot → Ready → Option (List Slot)
unfolding with_slot accept_loop
handle_ready slots (listener answers) = some (accept_loop answers slots)
handle_ready slots (endpoint i side ev) = with_slot slots i side ev (get_elem? slots i)

-- The events of one `epoll_wait`, in order.
pub handle_batch : List Slot → List Ready → Option (List Slot)
handle_batch slots [] = some slots
handle_batch slots (r ∷ rest) = elim (handle_ready slots r) [
  | none ↦ none
  | some next ↦ handle_batch next rest
]
