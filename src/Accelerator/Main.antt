-- ===== src/Accelerator/Main.antt =====
-- tcp_accelerator/tcp_accelerator.c: `main`, its set-up and the loop around `epoll_wait`.
use mathlib.Core.List.{Perm}
use mathlib.Core.List.Perm
use linux_network_lab.Base.{
  Bool, true, false, not, ◌≡◌, refl, List, [], ◌∷◌, Option, none, some, if◌then◌else◌,
}
use mathlib.Core.Bool.{true≢false, false≢true}
use linux_network_lab.Accelerator.Create.{SocketAnswers, set_nonblocking}
use linux_network_lab.Accelerator.Loop.{Slot, Ready, handle_batch}

-- The descriptors of the program itself.
pub data MainFd : Type 0 where
  listen_fd epoll_fd : MainFd

-- Whether each call of the set-up succeeds, in their order.
pub record MainAnswers : Type 0 where
  pub socket : Bool
  pub setsockopt : Bool
  pub nonblocking : SocketAnswers
  pub bind : Bool
  pub listen : Bool
  pub epoll_create1 : Bool
  pub epoll_ctl : Bool

-- What a call of `epoll_wait` answers.
pub data WaitAnswer : Type 0 where
  batch : List Ready → WaitAnswer
  wait_interrupted wait_failed : WaitAnswer

-- Whether `main` still runs after the answers that are given, its own descriptors, and the
-- connections, or `none` where memory that was freed has been used.
pub record MainResult : Type 0 where
  pub running : Bool
  pub opened : List MainFd
  pub closed : List MainFd
  pub slots : Option (List Slot)

-- EINTR waits again, and any other error ends the loop.
unfoldable pub main_loop : List WaitAnswer → List Slot → Bool × Option (List Slot)
main_loop [] slots = (true, some slots)
main_loop (batch events ∷ answers) slots = elim (handle_batch slots events) [
  | none ↦ (true, none)
  | some left ↦ main_loop answers left
]
main_loop (wait_interrupted ∷ answers) slots = main_loop answers slots
main_loop (wait_failed ∷ answers) slots = (false, some slots)

-- EXIT_FAILURE before the loop.
abbrev gives_up : List MainFd → List MainFd → MainResult
gives_up opened closed = record {
  running = false;
  opened = opened;
  closed = closed;
  slots = some [];
}

-- After the loop both descriptors are closed; the connections are left to the end of the process.
abbrev leave : Bool × Option (List Slot) → MainResult
leave (true, slots) = record {
  running = true;
  opened = listen_fd ∷ epoll_fd ∷ [];
  closed = [];
  slots = slots;
}
leave (false, slots) = record {
  running = false;
  opened = listen_fd ∷ epoll_fd ∷ [];
  closed = epoll_fd ∷ listen_fd ∷ [];
  slots = slots;
}

-- The calls on the listening socket, each of which must succeed.
unfoldable pub listens : MainAnswers → Bool
listens io =
    if not io.setsockopt
    then false
    else if not (set_nonblocking io.nonblocking)
    then false
    else if not io.bind
    then false
    else io.listen

unfoldable pub main : MainAnswers → List WaitAnswer → MainResult
main io answers =
    if not io.socket
    then gives_up [] []
    else if not (listens io)
    then gives_up (listen_fd ∷ []) (listen_fd ∷ [])
    else if not io.epoll_create1
    then gives_up (listen_fd ∷ []) (listen_fd ∷ [])
    else if not io.epoll_ctl
    then gives_up (listen_fd ∷ epoll_fd ∷ []) (epoll_fd ∷ listen_fd ∷ [])
    else leave (main_loop answers [])

-- While `main` runs both descriptors are open, and when it ends all that were opened are closed.
abbrev pub Tidied : MainResult → Type 0
Tidied r =
    (r.running ≡ true → (r.opened ≡ listen_fd ∷ epoll_fd ∷ []) × (r.closed ≡ []))
    × (r.running ≡ false → Perm r.opened r.closed)

if_Tidied : (c : Bool) (r t : MainResult) → Tidied r → Tidied t → Tidied (if c then r else t)
if_Tidied true r t u w = u
if_Tidied false r t u w = w

leave-Tidied : (r : Bool × Option (List Slot)) → Tidied (leave r)
leave-Tidied (true, slots) = ((λ e. (refl, refl)), λ e. absurd (true≢false e))
leave-Tidied (false, slots) = ((λ e. absurd (false≢true e)), λ e. Perm.swap epoll_fd listen_fd [])

-- Whatever the calls of the set-up and of `epoll_wait` answer, the listening socket and the epoll
-- descriptor are open while `main` runs, and each that was opened is closed once when it ends.
pub main-Tidied : (io : MainAnswers) (answers : List WaitAnswer) → Tidied (main io answers)
unfolding main
main-Tidied io answers =
    if_Tidied (not io.socket) _ _ ((λ e. absurd (false≢true e)), λ e. Perm.rfl)
      (if_Tidied (not (listens io)) _ _ ((λ e. absurd (false≢true e)), λ e. Perm.rfl)
        (if_Tidied (not io.epoll_create1) _ _ ((λ e. absurd (false≢true e)), λ e. Perm.rfl)
          (if_Tidied (not io.epoll_ctl) _ _
            ((λ e. absurd (false≢true e)), λ e. Perm.swap epoll_fd listen_fd [])
            (leave-Tidied (main_loop answers [])))))
