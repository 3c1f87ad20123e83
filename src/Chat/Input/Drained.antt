-- ===== src/Chat/Input/Drained.antt =====
-- chat/server.c: the loop over the lines ends when no line is left.
use linux_network_lab.Base.{
  ℕ, zero, suc, ◌+◌, ◌≤◌, ◌≡◌, refl, ap, ◌∙◌, ◌⊎◌, inl, inr, true, false, List, [], ◌++◌, none,
  arith, length, length-drop, take, drop, ltb, Bool-cases, Option-cases,
}
use linux_network_lab.Chat.Input.{
  newline, memchr, input_buffer_size, Server, Conn, after_line, drain, receive,
}
use linux_network_lab.Chat.Input.Rounds.{
  memchr-Found, no_line_in_none, drain_no_line, drain_goes_on, drain_stops, length-after_line,
}
use linux_network_lab.Chat.Input.Chunks.{after_line_gone}

no_bytes : memchr newline [] ≡ none
unfolding memchr
no_bytes = refl

module _ {S : Type 0} (v : Server S)
    (stops_only_gone : (l : List ℕ) (s : S)
      → (v.process_line l s).0 ≡ false
      → v.is_active (v.process_line l s).1 ≡ false) where
  -- A client that is gone has no bytes.
  abbrev Cleared : Conn S → Type 0
  Cleared c = (v.is_active c.server ≡ true) ⊎ (c.input ≡ [])

  Cleared-after_line : (rest : List ℕ) (s : S) → Cleared (after_line v rest s)
  unfolding after_line
  Cleared-after_line rest s = elim (Bool-cases (v.is_active s)) [
    | inl on ↦ inl on
    | inr gone ↦ inr (rw gone refl)
  ]

  drain-none_left :
      (n : ℕ) (c : Conn S)
      → length c.input ≤ n
      → Cleared c
      → memchr newline (drain v n c).input ≡ none
  drain-none_left zero c h cleared =
      let nowhere = no_line_in_none c.input h in
      ap (λ d. memchr newline d.input) (drain_no_line v 0 c nowhere) ∙ nowhere
  drain-none_left (suc n) c h (inr e) =
      let nowhere : memchr newline c.input ≡ none = ap (memchr newline) e ∙ no_bytes in
      ap (λ d. memchr newline d.input) (drain_no_line v (suc n) c nowhere) ∙ nowhere
  drain-none_left (suc n) c h (inl on) = elim (Option-cases (memchr newline c.input)) [
    | inl nowhere ↦ ap (λ d. memchr newline d.input) (drain_no_line v (suc n) c nowhere) ∙ nowhere
    | inr (k, there) ↦
        let rest = drop (suc k) c.input in
        let (goes_on, s) = v.process_line (take k c.input) c.server in
        let within = (memchr-Found newline c.input [] k there).within in
        elim (Bool-cases goes_on) [
          | inl g ↦
              ap (λ d. memchr newline d.input) (drain_goes_on v n c k on there g)
              ∙ drain-none_left n (after_line v rest s)
                  (omega
                    (arith, length-after_line v rest s, within, h, length-drop (suc k) c.input))
                  (Cleared-after_line rest s)
          | inr g ↦
              ap (λ d. memchr newline d.input)
                (drain_stops v n c k on there g
                  ∙ after_line_gone v rest s (stops_only_gone (take k c.input) c.server g))
              ∙ no_bytes
        ]
  ]

  -- After any bytes no whole line is left in the buffer, if none was before: the loop takes every
  -- line that has come, or the client is gone and its buffer is empty. The loop must stop early only
  -- for a client that is gone.
  pub receive-none_left :
      (bytes : List ℕ) (c : Conn S)
      → memchr newline c.input ≡ none
      → memchr newline (receive v bytes c).input ≡ none
  unfolding receive
  receive-none_left bytes c before = elim (Bool-cases (v.is_active c.server)) [
    | inr gone ↦ rw (gone, receive) before
    | inl on ↦ elim (Bool-cases (ltb (length c.input + length bytes) input_buffer_size)) [
      | inr full ↦ rw (on, full, receive) no_bytes
      | inl fits ↦
          rw (on, fits, receive)
            (drain-none_left (length (c.input ++ bytes)) (record c { input = c.input ++ bytes })
              (omega arith) (inl on))
    ]
  ]
