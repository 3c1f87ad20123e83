-- ===== src/Accelerator/Handlers/HalfClose.antt =====
-- tcp_accelerator/tcp_accelerator.c: what EPOLLRDHUP does to the side that it is reported for.
use linux_network_lab.Base.{◌≡◌, refl, sym, ap, ◌∙◌, some, Bool, true, false}
use linux_network_lab.Accelerator.Session.{
  Session, Event, ◌>>◌, on, change, Keeps, keeping, OnSuccess, OnSuccess-seq, set_then,
}
use linux_network_lab.Accelerator.Handlers.Cases.{pass_on_client_fin_cases, update-Keeps}
use linux_network_lab.Accelerator.Handlers.{
  update_connection_events, close_client_read, pass_on_client_fin, client_event_rest,
  process_client_event,
}

record ClientShut (s : Session) : Type 0 where
  client_shut : s.conn.client_read_open ≡ false

pass_on_client_fin-ClientShut : (s : Session) → ClientShut s → ClientShut (pass_on_client_fin s)
pass_on_client_fin-ClientShut s h =
    pass_on_client_fin_cases ClientShut s h (record { client_shut = h.client_shut })

update-ClientShut : (ev : Event) → Keeps ClientShut (update_connection_events ev)
update-ClientShut ev =
    update-Keeps ClientShut ev (λ s e h. record { client_shut = h.client_shut })
      (λ s e h. record { client_shut = h.client_shut })

shut_by_rdhup :
    (b : Bool) (s : Session) → b ≡ true → ClientShut (on b (change close_client_read) s).1
unfolding on change close_client_read
shut_by_rdhup true s e = record { client_shut = refl }
shut_by_rdhup false s e = cc e

client_rest-ClientShut :
    (ev : Event) → ev.events.rdhup ≡ true → OnSuccess ClientShut (client_event_rest ev)
unfolding client_event_rest
client_rest-ClientShut ev e = OnSuccess-seq _ _ (
    OnSuccess-seq _ _ (
      set_then (on ev.events.rdhup (change close_client_read))
        (change pass_on_client_fin >> update_connection_events ev)
        (λ s. shut_by_rdhup ev.events.rdhup s e)
        (search (keeping, pass_on_client_fin-ClientShut, update-ClientShut))))

process-ClientShut :
    (ev : Event) → ev.events.rdhup ≡ true → OnSuccess ClientShut (process_client_event ev)
unfolding process_client_event
process-ClientShut ev e = OnSuccess-seq _ (client_event_rest ev) (client_rest-ClientShut ev e)

-- A handled client event with EPOLLRDHUP ends the reading from the client, whatever `recv` has
-- answered and whatever it would answer next.
pub rdhup-ends-reading :
    (ev : Event) (s : Session) {t : Session}
    → ev.events.rdhup ≡ true
    → process_client_event ev s ≡ (some tt, t)
    → t.conn.client_read_open ≡ false
rdhup-ends-reading ev s e h =
    (rw (ap (λ x. x.1) h) at
      ((process-ClientShut ev e).holds s (λ n. cc (sym (ap (λ x. x.0) h) ∙ n)))).client_shut
