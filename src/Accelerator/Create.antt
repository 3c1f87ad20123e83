-- ===== src/Accelerator/Create.antt =====
-- tcp_accelerator/tcp_accelerator.c: `create_remote_socket`, `create_connection` and
-- `destroy_connection`. Each system call answers by an argument; the fds that are closed on the way
-- are the second result, in order.
pub mod Fds
use linux_network_lab.Base.{
  ℕ, Bool, true, false, not, ◌&&◌, List, [], ◌∷◌, ◌++◌, Option, none, some, if◌then◌else◌,
}
use linux_network_lab.Accelerator.Buffer.{zeroed_buffer}
use linux_network_lab.Accelerator.Session.{Events, Connection, Session}

-- EPOLLIN | EPOLLRDHUP, with which both endpoints are added.
abbrev pub first_interest : Events
first_interest = record {
  readable = true;
  writable = false;
  err = false;
  hup = false;
  rdhup = true;
}

-- The fields that `create_connection` sets, on what `calloc` has filled with zeros.
unfoldable pub fresh_connection : ℕ → ℕ → Connection
fresh_connection client_fd server_fd = record {
  client_fd = client_fd;
  server_fd = server_fd;
  c2s = zeroed_buffer;
  s2c = zeroed_buffer;
  client_read_open = true;
  server_read_open = true;
  client_write_closed = false;
  server_write_closed = false;
}

unfoldable pub fresh_session : ℕ → ℕ → Session
unfolding fresh_connection
fresh_session client_fd server_fd = record {
  conn = fresh_connection client_fd server_fd;
  wire = record {
    from_client = [];
    to_client = [];
    from_server = [];
    to_server = [];
    client_shuts = 0;
    server_shuts = 0;
    client_interest = first_interest;
    server_interest = first_interest;
  };
}

-- What the calls that set up a socket answer: the two of `tune_socket_buffers` and the two of
-- `set_nonblocking`.
pub record SocketAnswers : Type 0 where
  pub rcvbuf : Bool
  pub sndbuf : Bool
  pub getfl : Bool
  pub setfl : Bool

pub tune_socket_buffers : SocketAnswers → Bool
tune_socket_buffers a = a.rcvbuf && a.sndbuf

pub set_nonblocking : SocketAnswers → Bool
set_nonblocking a = a.getfl && a.setfl

-- What `socket`, `inet_pton` and `connect` answer, and the calls on the new socket.
pub record RemoteAnswers : Type 0 where
  pub socket : Option ℕ
  pub remote_setup : SocketAnswers
  pub parsed : Bool
  pub connected : Bool

set_up_remote : RemoteAnswers → ℕ → Option ℕ × List ℕ
set_up_remote a fd =
    if not (tune_socket_buffers a.remote_setup)
    then (none, fd ∷ [])
    else if not a.parsed
    then (none, fd ∷ [])
    else if not a.connected
    then (none, fd ∷ [])
    else if not (set_nonblocking a.remote_setup)
    then (none, fd ∷ [])
    else (some fd, [])

pub create_remote_socket : RemoteAnswers → Option ℕ × List ℕ
unfolding set_up_remote
create_remote_socket a = elim a.socket [ none ↦ (none, []) | some fd ↦ set_up_remote a fd ]

-- `calloc` and the two EPOLL_CTL_ADD.
pub record CreateAnswers : Type 0 where
  pub remote : RemoteAnswers
  pub client_setup : SocketAnswers
  pub allocated : Bool
  pub client_added : Bool
  pub server_added : Bool

-- Both endpoints' fds are set once a connection exists, so both are closed.
unfoldable pub destroy_connection : Connection → List ℕ
destroy_connection c = c.client_fd ∷ c.server_fd ∷ []

set_up_connection : CreateAnswers → ℕ → ℕ → Option Session × List ℕ
set_up_connection a client_fd server_fd =
    if not (tune_socket_buffers a.client_setup)
    then (none, server_fd ∷ client_fd ∷ [])
    else if not (set_nonblocking a.client_setup)
    then (none, server_fd ∷ client_fd ∷ [])
    else if not a.allocated
    then (none, server_fd ∷ client_fd ∷ [])
    else if not a.client_added
    then (none, destroy_connection (fresh_connection client_fd server_fd))
    else if not a.server_added
    then (none, destroy_connection (fresh_connection client_fd server_fd))
    else (some (fresh_session client_fd server_fd), [])

-- What follows the call of `create_remote_socket`.
with_remote : CreateAnswers → ℕ → Option ℕ × List ℕ → Option Session × List ℕ
with_remote a client_fd (none, closed) = (none, closed ++ client_fd ∷ [])
with_remote a client_fd (some server_fd, closed) = set_up_connection a client_fd server_fd

pub create_connection : CreateAnswers → ℕ → Option Session × List ℕ
unfolding with_remote set_up_connection
create_connection a client_fd = with_remote a client_fd (create_remote_socket a.remote)
