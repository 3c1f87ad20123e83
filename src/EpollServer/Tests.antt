-- ===== src/EpollServer/Tests.antt =====
-- epoll_server/epoll_server.c: the model at concrete inputs. One client sends "hi" and ends, another
-- is refused by `epoll_ctl`.
use linux_network_lab.Base.{true, false, ◌≡◌, refl, [], ◌∷◌, pos}
use linux_network_lab.EpollServer.{
  Fcntl, EchoServer, got, wrote, end_of_file, Ready, connections, client_ready, handle_ready,
  empty_server, has, Run, begun, then_event, accept_all, accept_one, set_nonblocking, serve, echo,
  end_client, remove,
}
use linux_network_lab.EpollServer.SetUp.{SetUpAnswers, Tidy, set_up, set_up-Tidy}
use linux_network_lab.EpollServer.Settled.{Settled, Run-Settled}

abbrev good : Fcntl
good = record { get_flags = true; set_flags = true }

abbrev arrivals : Ready
arrivals = connections (
    record { fd = pos 5; fcntl = good; added = true }
    ∷ record { fd = pos 6; fcntl = good; added = false }
    ∷ [])

abbrev hi : Ready
hi = client_ready (pos 5) false (got (104 ∷ 105 ∷ []) (wrote 1))

abbrev ending : Ready
ending = client_ready (pos 5) true end_of_file

abbrev after : EchoServer
after = handle_ready ending (handle_ready hi (handle_ready arrivals empty_server))

whole_run : Run empty_server after
unfolding handle_ready accept_all accept_one set_nonblocking serve echo end_client remove has
whole_run = then_event ending (then_event hi (then_event arrivals begun tt) refl) refl

Run-Settled_example : Settled after
Run-Settled_example = Run-Settled whole_run

closed_both : after.closed ≡ pos 5 ∷ pos 6 ∷ []
unfolding handle_ready accept_all accept_one set_nonblocking serve echo end_client remove has
closed_both = refl

abbrev no_bind : SetUpAnswers
no_bind = record {
  socket = true;
  setsockopt = true;
  bind = false;
  listen = true;
  fcntl = good;
  epoll_create1 = true;
  epoll_ctl = true;
}

no_bind-Tidy : Tidy (set_up no_bind)
no_bind-Tidy = set_up-Tidy no_bind
