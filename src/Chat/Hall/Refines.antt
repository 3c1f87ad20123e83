-- ===== src/Chat/Hall/Refines.antt =====
-- chat/server.c: every line that `process_line` takes is some steps of the abstract server.
use linux_network_lab.Base.{
  arith, ℕ, suc, ◌≤◌, ◌≡◌, refl, sym, ap, ◌∙◌, List, [], ◌∷◌, Option, none, some, length,
  length-set, map,
}
use linux_network_lab.Chat.Files.{nul, c_string}
use linux_network_lab.Chat.Files.Lines.{c_string_has_no_nul}
use linux_network_lab.Chat.Messages.Clean.{sanitize-Lacks}
use linux_network_lab.Chat.State.{
  max_clients, Mode, mode_login, mode_menu, mode_chat, mode_admin, Client, Chat, Answers, client_at,
}
use linux_network_lab.Chat.Messages.{sanitize_message}
use linux_network_lab.Chat.Admin.{process_line}
use linux_network_lab.Chat.Hall.{
  seat_of, Hall, hall, evict, Step, comes, Steps, still, more, logs_in, sends, registers, enters,
  leaves, reads, returns_from_chat, returns_from_admin, rules, removes, restores,
}
use linux_network_lab.Chat.Hall.Menu.{hall-process_menu, hall-process_chat}
use linux_network_lab.Chat.Hall.Users.{hall-process_login}
use linux_network_lab.Chat.Hall.Admin.{hall-process_admin}

-- There is a seat for each of the 100 clients, and no more.
length-evict : (o : Option ℕ) (h : Hall) → length (evict o h).seats ≡ length h.seats
length-evict none h = refl
length-evict (some j) h = length-set h.seats j _

length-Step : {h g : Hall} → Step h g → length g.seats ≡ length h.seats
length-Step (comes i w0 f0) = length-set _ i _
length-Step (leaves i) = length-set _ i _
length-Step (logs_in i k l w a n) = length-set _ i _
length-Step (registers name f r) = refl
length-Step (enters i name l f r) = length-set _ i _
length-Step (reads i m) = length-set _ i _
length-Step (returns_from_chat i m) = length-set _ i _
length-Step (returns_from_admin i m) = length-set _ i _
length-Step (sends i k now text m w on clean) = refl
length-Step (rules i m a) = length-set _ i _
length-Step {h} (removes i k m w p on) = length-evict _ h
length-Step (restores i k m w off) = refl

length-Steps : {h g : Hall} → Steps h g → length g.seats ≡ length h.seats
length-Steps still = refl
length-Steps (more a b) = length-Step b ∙ length-Steps a

pub length-map : (cs : List Client) → length (map seat_of cs) ≡ length cs
length-map [] = refl
length-map (c ∷ cs) = ap suc (length-map cs)

pub length-hall : {h : Hall} (s : Chat) → Steps h (hall s) → length s.clients ≡ length h.seats
length-hall s steps = sym (length-map s.clients) ∙ length-Steps steps

pub hall-process_line :
    (io : Answers) (i : ℕ) (raw : List ℕ) (s : Chat)
    → length s.clients ≤ max_clients
    → Steps (hall s) (hall (process_line io i raw s).1)
unfolding process_line
hall-process_line io i raw s room = by_mode (client_at s i).mode refl
  where
    by_mode :
        (m : Mode) → (client_at s i).mode ≡ m → Steps (hall s) (hall (process_line io i raw s).1)
    by_mode mode_login m =
        rw (m, process_line) (hall-process_login io i (sanitize_message (c_string raw)) s m)
    by_mode mode_menu m =
        rw (m, process_line) (hall-process_menu io i (sanitize_message (c_string raw)) s m)
    by_mode mode_chat m =
        rw (m, process_line)
          (hall-process_chat io i (sanitize_message (c_string raw)) s m
            (sanitize-Lacks nul (c_string raw) (λ e. omega (arith, e)) (c_string_has_no_nul raw)))
    by_mode mode_admin m =
        rw (m, process_line) (hall-process_admin io i (sanitize_message (c_string raw)) s room m)
