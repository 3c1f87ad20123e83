-- ===== src/EpollServer/SetUp.antt =====
-- epoll_server/epoll_server.c: the set-up of `main`.
use mathlib.Core.List.{Perm}
use mathlib.Core.List.Perm
use linux_network_lab.Base.{
  Bool, true, false, ◌≡◌, refl, inl, inr, Bool-cases, List, [], ◌∷◌, if◌then◌else◌,
}
use linux_network_lab.EpollServer.{Fcntl, set_nonblocking}

-- The two descriptors of the server itself.
pub data Own : Type 0 where
  listen_fd epoll_fd : Own

-- Whether each call of the set-up succeeds, in their order.
pub record SetUpAnswers : Type 0 where
  pub socket : Bool
  pub setsockopt : Bool
  pub bind : Bool
  pub listen : Bool
  pub fcntl : Fcntl
  pub epoll_create1 : Bool
  pub epoll_ctl : Bool

-- The descriptors that were opened and closed, and whether the loop begins.
pub record SetUp : Type 0 where
  pub opened : List Own
  pub closed : List Own
  pub listening : Bool

-- `EXIT_FAILURE`
abbrev pub fail : List Own → List Own → SetUp
fail opened closed = record { opened = opened; closed = closed; listening = false }

unfoldable pub set_up_epoll : SetUpAnswers → SetUp
set_up_epoll io =
    if io.epoll_create1
    then (if io.epoll_ctl
        then record { opened = listen_fd ∷ epoll_fd ∷ []; closed = []; listening = true }
        else fail (listen_fd ∷ epoll_fd ∷ []) (epoll_fd ∷ listen_fd ∷ []))
    else fail (listen_fd ∷ []) (listen_fd ∷ [])

-- The calls on the listening socket, each of which must succeed.
unfoldable pub prepared : SetUpAnswers → Bool
prepared io =
    if io.setsockopt
    then (if io.bind then (if io.listen then set_nonblocking io.fcntl else false) else false)
    else false

unfoldable pub set_up : SetUpAnswers → SetUp
set_up io =
    if io.socket
    then (if prepared io then set_up_epoll io else fail (listen_fd ∷ []) (listen_fd ∷ []))
    else fail [] []

-- What is open at the end: nothing after a failure, and else both descriptors.
pub data Tidy (r : SetUp) : Type 0 where
  begins : r.listening ≡ true → r.closed ≡ [] → r.opened ≡ listen_fd ∷ epoll_fd ∷ [] → Tidy r
  given_up : r.listening ≡ false → Perm r.opened r.closed → Tidy r

set_up_epoll-Tidy : (io : SetUpAnswers) → Tidy (set_up_epoll io)
unfolding set_up_epoll
set_up_epoll-Tidy io = elim (Bool-cases io.epoll_create1) [
  | inr failed ↦ rw (failed, set_up_epoll) (given_up refl Perm.rfl)
  | inl made ↦ elim (Bool-cases io.epoll_ctl) [
    | inr failed ↦ rw (made, failed, set_up_epoll) (given_up refl (Perm.swap epoll_fd listen_fd []))
    | inl added ↦ rw (made, added, set_up_epoll) (begins refl refl refl)
  ]
]

-- Whichever call of the set-up fails, every descriptor that was opened is closed, each once; if none
-- fails, both are open and the loop begins.
pub set_up-Tidy : (io : SetUpAnswers) → Tidy (set_up io)
unfolding set_up
set_up-Tidy io = by_cases io.socket (prepared io)
  where
    by_cases :
        (socket ready : Bool)
        → Tidy (
            if socket
            then (if ready then set_up_epoll io else fail (listen_fd ∷ []) (listen_fd ∷ []))
            else fail [] [])
    by_cases false ready = given_up refl Perm.rfl
    by_cases true false = given_up refl Perm.rfl
    by_cases true true = set_up_epoll-Tidy io
