-- ===== src/Chat/Messages/Stored.antt =====
-- chat/server.c: what `append_message` writes is what the history reads.
use linux_network_lab.Base.{
  ℕ, ◌≤◌, ◌<◌, ◌≡◌, ◌≢◌, refl, sym, ap, ◌∙◌, false, List, [], ◌∷◌, ◌++◌, append_assoc, some, arith,
  length, length-append, All, subst, Lacks, Lacks-append, map, ℤ,
}
use linux_network_lab.Base.Decimal.{
  is_digit, print_int, FitsInt, FitsLong, scan_int-print_int, scan_long-print_int,
}
use linux_network_lab.Base.Decimal.Shape.{print_int-Lacks, length-print_int, length-print_long}
use linux_network_lab.Chat.Files.{nul, line_feed, bar, c_string, read_lines, lines_from}
use linux_network_lab.Chat.Files.Lines.{
  c_string-Lacks, lines_from-line, scan_until-stop, literal-same,
}
use linux_network_lab.Chat.Messages.{
  HistoryMessage, print_message, parse_header, parse_text, parse_message,
}

-- A message that fits its line of the file: numbers of their types, and a text of at most 1023 bytes
-- that is clean.
pub record IsStorable (m : HistoryMessage) : Type 0 where
  pub time_fits : FitsLong m.timestamp
  pub sender_fits : FitsInt m.sender_id
  pub receiver_fits : FitsInt m.receiver_id
  pub short : length m.message ≤ 1023
  pub no_line_feed : Lacks line_feed m.message
  pub no_nul : Lacks nul m.message

unfoldable pub print_messages : List HistoryMessage → List ℕ
print_messages [] = []
print_messages (m ∷ ms) = print_message m ++ print_messages ms

pub parse_header-print_message :
    (m : HistoryMessage)
    → IsStorable m
    → parse_header (print_message m)
      ≡ some (m.timestamp, m.sender_id, m.receiver_id, bar ∷ (m.message ++ line_feed ∷ []))
unfolding parse_header print_message
parse_header-print_message m s =
    let text = m.message ++ line_feed ∷ [] in
    let receiver = print_int m.receiver_id ++ bar ∷ text in
    let sender = print_int m.sender_id ++ bar ∷ receiver in
    rw
      (
        scan_long-print_int m.timestamp (bar ∷ sender) s.time_fits refl,
        literal-same bar sender,
        scan_int-print_int m.sender_id (bar ∷ receiver) s.sender_fits refl,
        literal-same bar receiver,
        scan_int-print_int m.receiver_id (bar ∷ text) s.receiver_fits refl,
      )
      refl

parse_text-bar :
    (m : HistoryMessage)
    → IsStorable m
    → parse_text (bar ∷ (m.message ++ line_feed ∷ [])) ≡ m.message
unfolding parse_text
parse_text-bar m s =
    rw (literal-same bar (m.message ++ line_feed ∷ []), parse_text)
      (ap (λ p. p.0) (scan_until-stop line_feed 1023 m.message [] s.no_line_feed s.short))

pub parse_message-print_message :
    (m : HistoryMessage) → IsStorable m → parse_message (print_message m) ≡ some m
unfolding parse_message
parse_message-print_message m s = rw (parse_header-print_message m s, parse_text-bar m s) refl

-- A line without its line feed.
body : HistoryMessage → List ℕ
body m =
    print_int m.timestamp
    ++ bar ∷ (print_int m.sender_id ++ bar ∷ (print_int m.receiver_id ++ bar ∷ m.message))

print_message-body : (m : HistoryMessage) → print_message m ≡ body m ++ line_feed ∷ []
unfolding print_message body
print_message-body m =
    let receiver = print_int m.receiver_id ++ bar ∷ m.message in
    rw
      (
        append_assoc (print_int m.timestamp) (bar ∷ (print_int m.sender_id ++ bar ∷ receiver))
            (line_feed ∷ []),
        append_assoc (print_int m.sender_id) (bar ∷ receiver) (line_feed ∷ []),
        append_assoc (print_int m.receiver_id) (bar ∷ m.message) (line_feed ∷ []),
      )
      refl

body-Lacks :
    (c : ℕ) (m : HistoryMessage)
    → is_digit c ≡ false
    → c ≢ 45
    → c ≢ bar
    → Lacks c m.message
    → Lacks c (body m)
unfolding body
body-Lacks c m d n b h =
    let number = λ (z : ℤ). print_int-Lacks c z d n in
    let no_bar : bar ≢ c = λ e. b (sym e) in
    let receiver = print_int m.receiver_id ++ bar ∷ m.message in
    Lacks-append c (print_int m.timestamp) (bar ∷ (print_int m.sender_id ++ bar ∷ receiver))
      (number m.timestamp)
      (
        no_bar,
        Lacks-append c (print_int m.sender_id) (bar ∷ receiver) (number m.sender_id) (
          no_bar,
          Lacks-append c (print_int m.receiver_id) (bar ∷ m.message) (number m.receiver_id)
              (no_bar, h),
        ),
      )

length-body : (m : HistoryMessage) → IsStorable m → length (body m) < 1399
unfolding body
length-body m s =
    let receiver = print_int m.receiver_id ++ bar ∷ m.message in
    omega (
      arith,
      s.short,
      length-print_long m.timestamp s.time_fits,
      length-print_int m.sender_id s.sender_fits,
      length-print_int m.receiver_id s.receiver_fits,
      length-append (print_int m.timestamp) (bar ∷ (print_int m.sender_id ++ bar ∷ receiver)),
      length-append (print_int m.sender_id) (bar ∷ receiver),
      length-append (print_int m.receiver_id) (bar ∷ m.message),
    )

print_message-c_string :
    (m : HistoryMessage) → IsStorable m → c_string (print_message m) ≡ print_message m
print_message-c_string m s = c_string-Lacks (print_message m) (
    subst (λ l. Lacks nul l) (sym (print_message-body m))
      (Lacks-append nul (body m) (line_feed ∷ [])
        (body-Lacks nul m refl (λ e. omega (arith, e)) (λ e. omega (arith, e)) s.no_nul)
        (λ e. omega (arith, e), tt)))

lines_from-print_messages :
    (ms : List HistoryMessage)
    → All IsStorable ms
    → lines_from 1399 1399 [] (print_messages ms) ≡ map print_message ms
unfolding lines_from print_messages
lines_from-print_messages [] h = refl
lines_from-print_messages (m ∷ ms) (s, h) =
    let rest = print_messages ms in
    ap (λ l. lines_from 1399 1399 [] (l ++ rest)) (print_message-body m)
    ∙ ap (lines_from 1399 1399 []) (append_assoc (body m) (line_feed ∷ []) rest)
    ∙ lines_from-line 1399 1399 [] (body m) rest
        (body-Lacks line_feed m refl (λ e. omega (arith, e)) (λ e. omega (arith, e)) s.no_line_feed)
        (length-body m s)
    ∙ ap (λ l. l ∷ lines_from 1399 1399 [] rest) (sym (print_message-body m))
    ∙ ap (λ ls. print_message m ∷ ls) (lines_from-print_messages ms h)

-- The lines of the file, each taken apart.
pub All-parsed :
    (ms : List HistoryMessage)
    → All IsStorable ms
    → map parse_message (map print_message ms) ≡ map some ms
All-parsed [] h = refl
All-parsed (m ∷ ms) (s, h) =
    rw (parse_message-print_message m s) (ap (◌∷◌ (some m)) (All-parsed ms h))

pub read_lines-print_messages :
    (ms : List HistoryMessage)
    → All IsStorable ms
    → read_lines 1400 (print_messages ms) ≡ map print_message ms
unfolding read_lines
read_lines-print_messages ms h = ap (map c_string) (lines_from-print_messages ms h) ∙ strings ms h
  where
    strings :
        (ns : List HistoryMessage)
        → All IsStorable ns
        → map c_string (map print_message ns) ≡ map print_message ns
    strings [] k = refl
    strings (n ∷ ns) (s, k) =
        rw (print_message-c_string n s) (ap (◌∷◌ (print_message n)) (strings ns k))
