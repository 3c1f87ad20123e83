-- ===== src/Chat/Messages/History.antt =====
-- chat/server.c: the history of a chat is the last ten of its messages.
use linux_network_lab.Base.{
  ℕ, zero, suc, ◌-◌, ◌≤◌, ◌≡◌, refl, sym, ap, ◌∙◌, true, false, inl, inr, List, [], ◌∷◌, ◌++◌,
  append-nil, append_assoc, arith, length, length-append, length-drop, drop, map, ltb, All, take,
  length-take, Lacks, ◌==ℤ◌, ==ℤ_iff, ℤ, Bool-cases,
}
use linux_network_lab.Base.Decimal.{FitsInt, FitsLong}
use linux_network_lab.Chat.Files.{nul}
use linux_network_lab.Chat.Messages.Between.{
  exchanged, exchanged_none, exchanged_ours, exchanged_theirs, exchanged_last,
}
use linux_network_lab.Chat.Messages.Clean.{
  sanitize-Lacks, sanitize-Lacks-line_feed, length-sanitize, take-Lacks,
}
use linux_network_lab.Chat.Messages.{
  HistoryMessage, print_message, belongs_to_chat, keep_message, keep_parsed, collect_history,
  last_messages, sanitize_message, append_message,
}
use linux_network_lab.Chat.Messages.Stored.{
  IsStorable, print_messages, read_lines-print_messages, parse_message-print_message,
}

-- The last ten of the messages.
abbrev pub last_ten : List HistoryMessage → List HistoryMessage
last_ten ms = drop (length ms - 10) ms

drop-append :
    (k : ℕ) (xs ys : List HistoryMessage) → k ≤ length xs → drop k (xs ++ ys) ≡ drop k xs ++ ys
drop-append zero xs ys h = refl
drop-append (suc k) [] ys h = elim h [ ]
drop-append (suc k) (x ∷ xs) ys h = drop-append k xs ys (omega arith)

drop_one-drop : (k : ℕ) (xs : List HistoryMessage) → drop 1 (drop k xs) ≡ drop (suc k) xs
drop_one-drop zero xs = refl
drop_one-drop (suc k) [] = refl
drop_one-drop (suc k) (x ∷ xs) = drop_one-drop k xs

-- Keeping one more message leaves the last ten.
keep_message-last_ten :
    (ms : List HistoryMessage) (m : HistoryMessage)
    → keep_message (last_ten ms) m ≡ last_ten (ms ++ m ∷ [])
keep_message-last_ten ms m = elim (Bool-cases (ltb (length ms) 10)) [
  | inl few ↦
      let all : length ms - 10 ≡ 0 = ground arith in
      let still : length (ms ++ m ∷ []) - 10 ≡ 0 = ground (arith, length-append ms (m ∷ [])) in
      rw (all, still) (rw few refl)
  | inr many ↦
      let k = length ms - 10 in
      let full : ltb (length (drop k ms)) 10 ≡ false = ground (arith, length-drop k ms) in
      let next : length (ms ++ m ∷ []) - 10 ≡ suc k = ground (arith, length-append ms (m ∷ [])) in
      rw (full, next)
        (ap (λ xs. xs ++ m ∷ []) (drop_one-drop k ms)
          ∙ sym (drop-append (suc k) ms (m ∷ []) (ground arith)))
]

collect_history-exchanged :
    (me partner : ℤ) (before ms : List HistoryMessage)
    → All IsStorable ms
    → collect_history me partner (last_ten before) (map print_message ms)
      ≡ last_ten (before ++ exchanged me partner ms)
unfolding collect_history
collect_history-exchanged me partner before [] h =
    rw (exchanged_none me partner, append-nil before) refl
collect_history-exchanged me partner before (m ∷ ms) (s, h) =
    ap
      (λ o.
        collect_history me partner (keep_parsed me partner (last_ten before) o)
          (map print_message ms))
      (parse_message-print_message m s)
    ∙ elim (Bool-cases (belongs_to_chat me partner m)) [
      | inl ours ↦
          rw (ours, exchanged_ours me partner m ms ours, collect_history)
            (ap (λ hs. collect_history me partner hs (map print_message ms))
                (keep_message-last_ten before m)
              ∙ collect_history-exchanged me partner (before ++ m ∷ []) ms h
              ∙ ap last_ten (append_assoc before (m ∷ []) (exchanged me partner ms)))
      | inr theirs ↦
          rw (theirs, exchanged_theirs me partner m ms theirs, collect_history)
            (collect_history-exchanged me partner before ms h)
    ]

-- Of a file that holds storable messages, the history of a chat is the last ten messages between
-- its two users, in their order and unchanged.
pub last_messages-print_messages :
    (me partner : ℤ) (ms : List HistoryMessage)
    → All IsStorable ms
    → last_messages me partner (print_messages ms) ≡ last_ten (exchanged me partner ms)
unfolding last_messages
last_messages-print_messages me partner ms h =
    ap (collect_history me partner []) (read_lines-print_messages ms h)
    ∙ collect_history-exchanged me partner [] ms h

pub print_messages-append :
    (ms : List HistoryMessage) (m : HistoryMessage)
    → print_messages ms ++ print_message m ≡ print_messages (ms ++ m ∷ [])
unfolding print_messages
print_messages-append [] m = sym (append-nil (print_message m))
print_messages-append (n ∷ ms) m =
    append_assoc (print_message n) (print_messages ms) (print_message m)
    ∙ ap (λ bs. print_message n ++ bs) (print_messages-append ms m)

pub All-append :
    (ms : List HistoryMessage) (m : HistoryMessage)
    → All IsStorable ms
    → IsStorable m
    → All IsStorable (ms ++ m ∷ [])
All-append [] m h s = (s, tt)
All-append (n ∷ ms) m (k, h) s = (k, All-append ms m h s)

-- What `append_message` stores.
abbrev pub sent_message : ℤ → ℤ → ℤ → List ℕ → HistoryMessage
sent_message now sender receiver text = record {
  timestamp = now;
  sender_id = sender;
  receiver_id = receiver;
  message = sanitize_message (take 1023 text);
}

pub sent_message-IsStorable :
    (now sender receiver : ℤ) (text : List ℕ)
    → FitsLong now
    → FitsInt sender
    → FitsInt receiver
    → Lacks nul text
    → IsStorable (sent_message now sender receiver text)
sent_message-IsStorable now sender receiver text t s r h = record {
  time_fits = t;
  sender_fits = s;
  receiver_fits = r;
  short = omega (arith, length-sanitize (take 1023 text), length-take 1023 text);
  no_line_feed = sanitize-Lacks-line_feed (take 1023 text);
  no_nul = sanitize-Lacks nul (take 1023 text) (λ e. omega (arith, e)) (take-Lacks nul 1023 text h);
}

same_id : (z : ℤ) → (z ==ℤ z) ≡ true
same_id z = (==ℤ_iff z z).1 refl

-- A message that has just been sent stands last in the history of its chat, behind what was there,
-- if the file holds storable messages, its numbers fit their types and its text has no NUL. It is
-- cut to 1023 bytes and cleaned.
pub last_messages-append_message :
    (now sender receiver : ℤ) (text : List ℕ) (ms : List HistoryMessage)
    → All IsStorable ms
    → FitsLong now
    → FitsInt sender
    → FitsInt receiver
    → Lacks nul text
    → last_messages sender receiver (append_message now sender receiver text (print_messages ms))
      ≡ last_ten (exchanged sender receiver ms ++ sent_message now sender receiver text ∷ [])
unfolding append_message
last_messages-append_message now sender receiver text ms h t s r clean =
    let m = sent_message now sender receiver text in
    let ours : belongs_to_chat sender receiver m ≡ true =
      ground (arith, same_id sender, same_id receiver) in
    ap (last_messages sender receiver) (print_messages-append ms m)
    ∙ last_messages-print_messages sender receiver (ms ++ m ∷ [])
        (All-append ms m h (sent_message-IsStorable now sender receiver text t s r clean))
    ∙ ap last_ten (
        exchanged_last sender receiver ms m
        ∙ ap (λ ns. exchanged sender receiver ms ++ ns)
            (exchanged_ours sender receiver m [] ours
              ∙ ap (◌∷◌ m) (exchanged_none sender receiver)))
