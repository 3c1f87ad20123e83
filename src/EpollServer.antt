-- ===== src/EpollServer.antt =====
-- epoll_server/epoll_server.c: the echo server, its set-up and its loop over events.
pub mod SetUp
pub mod Settled
mod Tests
use linux_network_lab.Base.{
  ℕ, Bool, true, false, ◌||◌, ◌≡◌, List, [], ◌∷◌, ◌++◌, take, if◌then◌else◌, ℤ, ◌==ℤ◌,
}

-- The two calls of `fcntl`.
pub record Fcntl : Type 0 where
  pub get_flags : Bool
  pub set_flags : Bool

unfoldable pub set_nonblocking : Fcntl → Bool
set_nonblocking io = if io.get_flags then (if io.set_flags then true else false) else false

-- What came of one `read`: the client, the bytes, and those of them that `write` took.
pub record Exchange : Type 0 where
  pub client : ℤ
  pub bytes : List ℕ
  pub written : List ℕ

-- `accepted`: what `accept` returned. `open`: the clients' descriptors that are not closed.
-- `watched`: those in the epoll set.
pub record EchoServer : Type 0 where
  pub accepted : List ℤ
  pub open_fds : List ℤ
  pub watched : List ℤ
  pub closed : List ℤ
  pub exchanges : List Exchange

-- The first occurrence is taken out.
unfoldable pub remove : ℤ → List ℤ → List ℤ
remove fd [] = []
remove fd (x ∷ xs) = let rest = x ∷ remove fd xs in if x ==ℤ fd then xs else rest

abbrev pub unwatch : ℤ → EchoServer → EchoServer
unwatch fd s = record s { watched = remove fd s.watched }

abbrev pub close : ℤ → EchoServer → EchoServer
close fd s = record s { open_fds = remove fd s.open_fds; closed = fd ∷ s.closed }

-- `EPOLL_CTL_DEL`, then `close`.
unfoldable pub end_client : ℤ → EchoServer → EchoServer
end_client fd s = close fd (unwatch fd s)

-- An `accept` that succeeded, with the answers to what follows it. One that failed ends the loop.
pub record Attempt : Type 0 where
  pub fd : ℤ
  pub fcntl : Fcntl
  pub added : Bool

abbrev pub has_accepted : ℤ → EchoServer → EchoServer
has_accepted fd s = record s { accepted = fd ∷ s.accepted; open_fds = fd ∷ s.open_fds }

unfoldable pub accept_one : Attempt → EchoServer → EchoServer
accept_one a s =
    let s' = has_accepted a.fd s in
    if set_nonblocking a.fcntl
    then (if a.added then record s' { watched = a.fd ∷ s'.watched } else close a.fd s')
    else close a.fd s'

unfoldable pub accept_all : List Attempt → EchoServer → EchoServer
accept_all [] s = s
accept_all (a ∷ attempts) s = accept_all attempts (accept_one a s)

-- What `write` and `read` answer; `would_block` is `EAGAIN` or `EWOULDBLOCK`.
pub data Written : Type 0 where
  wrote : ℕ → Written
  write_would_block write_failed : Written

pub data Read : Type 0 where
  got : List ℕ → Written → Read
  end_of_file read_would_block read_failed : Read

abbrev pub note : ℤ → List ℕ → List ℕ → EchoServer → EchoServer
note fd bytes written s = record s {
  exchanges = record { client = fd; bytes = bytes; written = written } ∷ s.exchanges;
}

unfoldable pub echo : ℤ → List ℕ → Written → EchoServer → EchoServer
echo fd bytes (wrote n) s = note fd bytes (take n bytes) s
echo fd bytes write_would_block s = note fd bytes [] s
echo fd bytes write_failed s = end_client fd (note fd bytes [] s)

unfoldable pub serve : ℤ → Read → EchoServer → EchoServer
serve fd (got bytes w) s = echo fd bytes w s
serve fd end_of_file s = end_client fd s
serve fd read_would_block s = s
serve fd read_failed s = end_client fd s

-- An event that `epoll_wait` reports: on the listening socket, or on a client, with whether it is
-- one of `EPOLLRDHUP`, `EPOLLHUP` and `EPOLLERR`.
pub data Ready : Type 0 where
  connections : List Attempt → Ready
  client_ready : ℤ → Bool → Read → Ready

unfoldable pub handle_ready : Ready → EchoServer → EchoServer
handle_ready (connections attempts) s = accept_all attempts s
handle_ready (client_ready fd ended r) s = if ended then end_client fd s else serve fd r s

abbrev pub empty_server : EchoServer
empty_server = record { accepted = []; open_fds = []; watched = []; closed = []; exchanges = [] }

unfoldable pub has : ℤ → List ℤ → Bool
has fd [] = false
has fd (x ∷ xs) = x ==ℤ fd || has fd xs

-- What `epoll_wait` may report: a client only if it is watched.
abbrev pub Reported : Ready → EchoServer → Type 0
Reported (connections attempts) s = Unit
Reported (client_ready fd ended r) s = has fd s.watched ≡ true

-- The loop of `main`, one event after the other.
pub data Run (s : EchoServer) : EchoServer → Type 0 where
  begun : Run s s
  then_event : {t : EchoServer} (e : Ready) → Run s t → Reported e t → Run s (handle_ready e t)
