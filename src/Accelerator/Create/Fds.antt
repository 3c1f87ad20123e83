-- ===== src/Accelerator/Create/Fds.antt =====
-- tcp_accelerator/tcp_accelerator.c: no fd is lost where a connection cannot be set up.
use mathlib.Core.List.{Perm}
use mathlib.Core.List.Perm
use linux_network_lab.Base.{ℕ, ◌≡◌, refl, ◌⊎◌, inl, inr, List, [], ◌∷◌, Option, none, some, arith}
use linux_network_lab.Accelerator.Session.{Session}
use linux_network_lab.Accelerator.Create.{
  RemoteAnswers, CreateAnswers, fresh_connection, fresh_session, destroy_connection, set_up_remote,
  create_remote_socket, set_up_connection, create_connection,
}

-- The fds that the creation of a connection owns: the client's, and the server's if one is opened.
abbrev pub owned_fds : Option ℕ → ℕ → List ℕ
owned_fds none client_fd = client_fd ∷ []
owned_fds (some fd) client_fd = fd ∷ client_fd ∷ []

-- Either the connection stands as it should, and no fd is closed, or there is none, and each fd
-- that was opened for it is closed, once.
abbrev pub Accounted : ℕ → Option ℕ → Option Session × List ℕ → Type 0
Accounted client_fd socket (none, closed) = Perm closed (owned_fds socket client_fd)
Accounted client_fd socket (some s, closed) =
    (fd : ℕ) × (socket ≡ some fd) × (s ≡ fresh_session client_fd fd) × (closed ≡ [])

set_up_remote-cases :
    (a : RemoteAnswers) (fd : ℕ)
    → (set_up_remote a fd ≡ (none, fd ∷ [])) ⊎ (set_up_remote a fd ≡ (some fd, []))
unfolding set_up_remote
set_up_remote-cases a fd = ground arith

-- The order in which the two are closed depends on how far the creation has come.
set_up_connection-cases :
    (a : CreateAnswers) (client_fd server_fd : ℕ)
    → let r = set_up_connection a client_fd server_fd in
      (r ≡ (none, server_fd ∷ client_fd ∷ []))
      ⊎ (r ≡ (none, client_fd ∷ server_fd ∷ []))
      ⊎ (r ≡ (some (fresh_session client_fd server_fd), []))
unfolding set_up_connection destroy_connection fresh_connection
set_up_connection-cases a client_fd server_fd = ground arith

set_up-Accounted :
    (a : CreateAnswers) (client_fd server_fd : ℕ)
    → Accounted client_fd (some server_fd) (set_up_connection a client_fd server_fd)
set_up-Accounted a client_fd server_fd = elim (set_up_connection-cases a client_fd server_fd) [
  | inl e ↦ rw e (Perm.refl (server_fd ∷ client_fd ∷ []))
  | inr (inl e) ↦ rw e (Perm.swap server_fd client_fd [])
  | inr (inr e) ↦ rw e (server_fd, refl, refl, refl)
]

remote_socket_none : (a : RemoteAnswers) → a.socket ≡ none → create_remote_socket a ≡ (none, [])
unfolding create_remote_socket
remote_socket_none a e = rw e

remote_socket_some :
    (a : RemoteAnswers) (fd : ℕ)
    → a.socket ≡ some fd
    → (create_remote_socket a ≡ (none, fd ∷ [])) ⊎ (create_remote_socket a ≡ (some fd, []))
unfolding create_remote_socket
remote_socket_some a fd e = ground (arith, set_up_remote-cases a fd)

create_with :
    (a : CreateAnswers) (client_fd : ℕ) (socket : Option ℕ)
    → a.remote.socket ≡ socket
    → Accounted client_fd socket (create_connection a client_fd)
unfolding create_connection
create_with a client_fd none e = rw (remote_socket_none a.remote e) (Perm.refl (client_fd ∷ []))
create_with a client_fd (some fd) e = elim (remote_socket_some a.remote fd e) [
  | inl f ↦ rw f (Perm.refl (fd ∷ client_fd ∷ []))
  | inr f ↦ rw f (set_up-Accounted a client_fd fd)
]

-- A new client's connection is set up whole, with no fd closed, or not at all, with each fd that
-- was opened for it closed once, whichever system call failed.
pub create_connection-Accounted :
    (a : CreateAnswers) (client_fd : ℕ)
    → Accounted client_fd a.remote.socket (create_connection a client_fd)
create_connection-Accounted a client_fd = create_with a client_fd a.remote.socket refl
