-- ===== src/Chat/Tests.antt =====
-- chat/server.c: the model at concrete inputs. A client sends "hi" and "q" and is gone after "q".
mod Scenario
mod Texts
use linux_network_lab.Base.{ℕ, ◌≡◌, Bool, true, not, List, [], ◌∷◌, ◌++◌, arith, ◌==◌, get_or}
use linux_network_lab.Chat.Input.{Server, Conn, receive}
use linux_network_lab.Chat.Input.Stream.{receive-append}

-- Whether the client is there, and the lines that it sent.
abbrev Log : Type 0
Log = Bool × List (List ℕ)

abbrev goes_on_after : List ℕ → Bool
goes_on_after l = not (get_or l 0 0 == 113)

abbrev logger : Server Log
logger = record {
  is_active = λ s. s.0;
  process_line = λ l s. (goes_on_after l, (goes_on_after l, s.1 ++ l ∷ []));
  too_long = λ s. s;
}

abbrev waiting : Conn Log
waiting = record { input = []; server = (true, []) }

-- The newline of "hi" and all of "q" come with the second piece.
logged_alike :
    receive logger (10 ∷ 113 ∷ 10 ∷ []) (receive logger (104 ∷ 105 ∷ []) waiting)
    ≡ receive logger (104 ∷ 105 ∷ 10 ∷ 113 ∷ 10 ∷ []) waiting
logged_alike =
    receive-append logger (λ l s e. e) (104 ∷ 105 ∷ []) (10 ∷ 113 ∷ 10 ∷ []) waiting (omega arith)
