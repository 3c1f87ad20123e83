-- ===== src/Chat/Messages/Reading.antt =====
-- chat/server.c: the loop over `messages.db` notes the contacts that the messages give.
use linux_network_lab.Base.{
  ℕ, ◌≡◌, refl, sym, subst, inl, inr, true, false, List, [], ◌∷◌, ◌++◌, append-nil, append_assoc,
  map, none, some, arith, length, All, ltb, find_index, ℤ, pos, ◌==ℤ◌, Bool-cases, Option-cases,
}
use linux_network_lab.Chat.Users.{max_users}
use linux_network_lab.Chat.Messages.{
  HistoryMessage, Contact, note_contact, print_message, note_line, note_lines,
}
use linux_network_lab.Chat.Messages.Stored.{IsStorable, parse_header-print_message}
use linux_network_lab.Chat.Messages.Between.{exchanged_none}
use linux_network_lab.Chat.Messages.Noted.{AreContacts, nobody, someone, other_view}
use linux_network_lab.Chat.Messages.Raised.{
  raised, raise, raise_time-last, raise_time-raised, find_index-Absent,
}
use linux_network_lab.Chat.Messages.Gathered.{
  found_not-Absent, nobody_step, known_step, new_step, full_step,
}

-- `note_contact` finds the contact, adds it, or has no place for it.
note_known :
    (o u : ℤ) (cs : List Contact) (k : ℕ)
    → find_index (λ c. c.contact_id ==ℤ o) cs ≡ some k
    → note_contact o u cs ≡ raised o u cs
unfolding note_contact
note_known o u cs k e = rw (e, note_contact) (raise_time-raised o u cs k e)

note_new :
    (o u : ℤ) (cs : List Contact)
    → find_index (λ c. c.contact_id ==ℤ o) cs ≡ none
    → ltb (length cs) max_users ≡ true
    → note_contact o u cs ≡ cs ++ raise u (record { contact_id = o; last_time = pos 0 }) ∷ []
unfolding note_contact
note_new o u cs e l =
    rw (e, note_contact, l) (raise_time-last u cs (record { contact_id = o; last_time = pos 0 }))

note_full :
    (o u : ℤ) (cs : List Contact)
    → find_index (λ c. c.contact_id ==ℤ o) cs ≡ none
    → ltb (length cs) max_users ≡ false
    → note_contact o u cs ≡ cs
unfolding note_contact
note_full o u cs e l = rw (e, note_contact, l) refl

note_line-AreContacts :
    (me : ℤ) (before : List HistoryMessage) (m : HistoryMessage) (cs : List Contact)
    → IsStorable m
    → AreContacts me before cs
    → AreContacts me (before ++ m ∷ []) (note_line me cs (print_message m))
unfolding note_line
note_line-AreContacts me before m cs s h = elim (other_view me m) [
  | nobody e apart ↦
      rw (parse_header-print_message m s, note_line, e) (nobody_step me before m cs apart h)
  | someone o e n b only ↦
      rw (parse_header-print_message m s, note_line, e)
        (elim (Option-cases (find_index (λ c. c.contact_id ==ℤ o) cs)) [
          | inr (k, found) ↦
              subst (λ ds. AreContacts me (before ++ m ∷ []) ds)
                (sym (note_known o m.timestamp cs k found))
                (known_step me before m o n b only cs (found_not-Absent o cs k found) h)
          | inl absent ↦
              let a = find_index-Absent o cs absent in
              elim (Bool-cases (ltb (length cs) max_users)) [
                | inl room ↦
                    subst (λ ds. AreContacts me (before ++ m ∷ []) ds)
                      (sym (note_new o m.timestamp cs absent room))
                      (new_step me before m o n b only cs a (ground arith) h)
                | inr full ↦
                    subst (λ ds. AreContacts me (before ++ m ∷ []) ds)
                      (sym (note_full o m.timestamp cs absent full))
                      (full_step me before m o n b only cs a (ground arith) h)
              ]
        ])
]

note_lines-AreContacts :
    (me : ℤ) (before ms : List HistoryMessage) (cs : List Contact)
    → All IsStorable ms
    → AreContacts me before cs
    → AreContacts me (before ++ ms) (note_lines me cs (map print_message ms))
unfolding note_lines
note_lines-AreContacts me before [] cs s h =
    subst (λ ns. AreContacts me ns cs) (sym (append-nil before)) h
note_lines-AreContacts me before (m ∷ ms) cs (s, t) h =
    subst
      (λ ns.
        AreContacts me ns
          (note_lines me (note_line me cs (print_message m)) (map print_message ms)))
      (append_assoc before (m ∷ []) ms)
      (note_lines-AreContacts me (before ++ m ∷ []) ms (note_line me cs (print_message m)) t
        (note_line-AreContacts me before m cs s h))

-- From no contact on.
pub from_none-AreContacts :
    (me : ℤ) (ms : List HistoryMessage)
    → All IsStorable ms
    → AreContacts me ms (note_lines me [] (map print_message ms))
from_none-AreContacts me ms s =
    note_lines-AreContacts me [] ms [] s
      (record { right = tt; distinct = tt; complete = λ id a l n. exchanged_none me id })
