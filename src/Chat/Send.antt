-- ===== src/Chat/Send.antt =====
-- chat/server.c: `send_all`.
use linux_network_lab.Base.{
  ℕ, zero, suc, ◌≤◌, ◌≡◌, refl, ap, ◌∙◌, List, [], ◌∷◌, ◌++◌, length, take, drop, take-append-drop,
  length-drop, arith,
}

-- What one `send` answers: how many bytes it took, `EINTR`, or another error.
pub data SendAnswer : Type 0 where
  took : ℕ → SendAnswer
  send_interrupted send_error : SendAnswer

-- `send_waits`: the next `send` has not returned.
pub data Outcome : Type 0 where
  all_sent send_failed send_waits : Outcome

-- The bytes that were taken, and how the loop ended. The first argument is `buffer + sent`, up to the
-- end.
unfoldable pub send_all : List ℕ → List SendAnswer → List ℕ × Outcome
send_all [] answers = ([], all_sent)
send_all (b ∷ bs) [] = ([], send_waits)
send_all (b ∷ bs) (send_interrupted ∷ answers) = send_all (b ∷ bs) answers
send_all (b ∷ bs) (send_error ∷ answers) = ([], send_failed)
send_all (b ∷ bs) (took n ∷ answers) =
    let rest = send_all (drop n (b ∷ bs)) answers in (take n (b ∷ bs) ++ rest.0, rest.1)

abbrev pub NoError : List SendAnswer → Type 0
NoError [] = Unit
NoError (took n ∷ answers) = NoError answers
NoError (send_interrupted ∷ answers) = NoError answers
NoError (send_error ∷ answers) = ⊥

-- How many answers take a byte.
abbrev pub taking : List SendAnswer → ℕ
taking [] = 0
taking (took zero ∷ answers) = taking answers
taking (took (suc n) ∷ answers) = suc (taking answers)
taking (send_interrupted ∷ answers) = taking answers
taking (send_error ∷ answers) = taking answers

-- However `send` cuts the bytes and however often it is interrupted, if it never fails and takes a
-- byte at least as often as there are bytes, `send_all` ends, and the bytes that were taken are those
-- of the buffer, in their order.
pub send_all_lem :
    (bytes : List ℕ) (answers : List SendAnswer)
    → NoError answers
    → length bytes ≤ taking answers
    → send_all bytes answers ≡ (bytes, all_sent)
unfolding send_all
send_all_lem [] answers e h = refl
send_all_lem (b ∷ bs) [] e h = elim h [ ]
send_all_lem (b ∷ bs) (send_interrupted ∷ answers) e h = send_all_lem (b ∷ bs) answers e h
send_all_lem (b ∷ bs) (send_error ∷ answers) e h = absurd e
send_all_lem (b ∷ bs) (took zero ∷ answers) e h =
    ap (λ (r : List ℕ × Outcome). (r.0, r.1)) (send_all_lem (b ∷ bs) answers e h)
send_all_lem (b ∷ bs) (took (suc n) ∷ answers) e h =
    ap (λ (r : List ℕ × Outcome). (b ∷ (take n bs ++ r.0), r.1))
      (send_all_lem (drop n bs) answers e (omega (arith, length-drop n bs)))
    ∙ ap (λ (xs : List ℕ). (b ∷ xs, all_sent)) (take-append-drop n bs)
