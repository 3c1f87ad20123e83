-- ===== src/Chat/Hall/Main.antt =====
-- chat/server.c: every event that `main` handles is some steps of the abstract server.
use linux_network_lab.Base.{
  ℕ, ◌≤◌, ◌<◌, ◌≡◌, ap, ◌∙◌, not, get_or, Hit, find_index-Hit, refl, sym, Bool, true, false, List,
  [], ◌∷◌, Option, none, some, length, ℤ, arith,
}
use linux_network_lab.Chat.Input.{Conn, receive}
use linux_network_lab.Chat.Input.Keeps.{receive-keeps}
use linux_network_lab.Chat.Hall.Refines.{length-hall, length-map, hall-process_line}
use linux_network_lab.Chat.State.{
  max_clients, Client, free_client, Chat, Answers, client_at, set_client, find_free_client_slot,
}
use linux_network_lab.Chat.Events.{
  Running, Event, accept_failed, accepted, interrupted, receive_failed, hung_up, received,
  new_client, take_in, find_client_by_fd, drop_client, next_line, server_of, put_back, take_bytes,
  handle_event, run,
}
use linux_network_lab.Chat.Hall.{Hall, hall, comes, Steps, still}
use linux_network_lab.Chat.Hall.Frame.{
  hall-set_client, hall-disconnect_client, hall-same_seat, seat_at-hall, arrive, step_to,
  then_steps,
}

not-true : (b : Bool) → not b ≡ true → b ≡ false
not-true true e = sym e
not-true false e = refl

-- The slot that is found is free.
record Free (cs : List Client) (i : ℕ) : Type 0 where
  pub within : i < length cs
  pub unused : (get_or cs i free_client).active ≡ false

free_slot_lem : (cs : List Client) (i : ℕ) → find_free_client_slot cs ≡ some i → Free cs i
unfolding find_free_client_slot
free_slot_lem cs i e =
    let f : Hit (λ c. not c.active) cs free_client i =
      find_index-Hit (λ c. not c.active) cs free_client i e in
    record { within = f.within; unused = not-true (get_or cs i free_client).active f.passes }

hall-comes :
    (fd : ℤ) (i : ℕ) (s : Chat)
    → Free s.clients i
    → Steps (hall s) (hall (set_client i (new_client fd) s))
hall-comes fd i s f =
    arrive
      (step_to (
        comes i (omega (arith, f.within, length-map s.clients))
          (ap (λ x. x.here) (seat_at-hall i s) ∙ f.unused)))
      (sym (hall-set_client i (new_client fd) s))

hall-take_in :
    (fd : ℤ) (added : Bool) (o : Option ℕ) (s : Chat)
    → find_free_client_slot s.clients ≡ o
    → Steps (hall s) (hall (take_in fd added o s))
unfolding take_in
hall-take_in fd added none s e = still
hall-take_in fd true (some i) s e = hall-comes fd i s (free_slot_lem s.clients i e)
hall-take_in fd false (some i) s e =
    then_steps (hall-comes fd i s (free_slot_lem s.clients i e))
      (hall-disconnect_client i (set_client i (new_client fd) s))

hall-drop_client : (o : Option ℕ) (s : Chat) → Steps (hall s) (hall (drop_client o s))
unfolding drop_client
hall-drop_client none s = still
hall-drop_client (some i) s = hall-disconnect_client i s

module _ (io : ℕ → Answers) where
  next_line-Steps :
      (h : Hall)
      → length h.seats ≤ max_clients
      → (i : ℕ) (line : List ℕ) (r : Running) → Steps h (hall r.chat)
      → Steps h (hall (next_line io i line r).1.chat)
  unfolding next_line
  next_line-Steps h room i line r steps =
      then_steps steps (
        hall-process_line (io r.lines) i line r.chat
          (omega (arith, length-hall r.chat steps, room)))

  take_bytes-Steps :
      (o : Option ℕ) (bytes : List ℕ) (r : Running)
      → length r.chat.clients ≤ max_clients
      → Steps (hall r.chat) (hall (take_bytes io o bytes r).chat)
  unfolding take_bytes put_back
  take_bytes-Steps none bytes r room = still
  take_bytes-Steps (some i) bytes r room =
      let c : Conn Running = record { input = (client_at r.chat i).input; server = r } in
      let c' = receive (server_of io i) bytes c in
      arrive
        (receive-keeps (server_of io i) (λ t. Steps (hall r.chat) (hall t.chat))
          (next_line-Steps (hall r.chat) (omega (arith, length-map r.chat.clients, room)) i) bytes c
          (λ p. p) still)
        (sym (
          hall-same_seat i (record (client_at c'.server.chat i) { input = c'.input }) c'.server.chat
            refl))

  pub handle_event-Steps :
      (e : Event) (r : Running)
      → length r.chat.clients ≤ max_clients
      → Steps (hall r.chat) (hall (handle_event io e r).chat)
  unfolding handle_event
  handle_event-Steps accept_failed r room = still
  handle_event-Steps (accepted fd added) r room =
      hall-take_in fd added (find_free_client_slot r.chat.clients) r.chat refl
  handle_event-Steps (interrupted fd) r room = still
  handle_event-Steps (receive_failed fd) r room =
      hall-drop_client (find_client_by_fd r.chat.clients fd) r.chat
  handle_event-Steps (hung_up fd) r room =
      hall-drop_client (find_client_by_fd r.chat.clients fd) r.chat
  handle_event-Steps (received fd bytes) r room =
      take_bytes-Steps (find_client_by_fd r.chat.clients fd) bytes r room

  -- All that `main` does with a table of at most 100 clients, whatever the clients send and the
  -- system answers, is steps of the abstract server: a new connection takes a free seat; a client
  -- logs in only once, only to an active account and only if nobody uses that; an account is
  -- removed or restored only by a client on the administrator's page, and its session ends with it;
  -- a message is stored only for an active account and behind the others.
  pub run-Steps :
      (es : List Event) (r : Running)
      → length r.chat.clients ≤ max_clients
      → Steps (hall r.chat) (hall (run io es r).chat)
  unfolding run
  run-Steps [] r room = still
  run-Steps (e ∷ es) r room =
      let first = handle_event-Steps e r room in
      then_steps first (
        run-Steps es (handle_event io e r) (
          omega
            (arith, length-hall (handle_event io e r).chat first, length-map r.chat.clients, room)))
