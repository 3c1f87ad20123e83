-- ===== src/Chat/Input/Stream.antt =====
-- chat/server.c: the stream of a client's bytes, in one or in several receives.
use linux_network_lab.Base.{
  ℕ, zero, suc, ◌+◌, ◌≤◌, ◌<◌, ◌≡◌, refl, sym, ap, ◌∙◌, inl, inr, true, false, List, ◌++◌,
  append_assoc, arith, length, take, drop, length-append, length-drop, lt→ltb, Bool-cases,
  Option-cases,
}
use linux_network_lab.Chat.Input.{
  input_buffer_size, newline, memchr, Server, Conn, after_line, drain, receive,
}
use linux_network_lab.Chat.Input.Rounds.{
  length-after_line, drain_gone, drain_no_line, drain_goes_on, drain_stops, drain_rounds,
}
use linux_network_lab.Chat.Input.Chunks.{then_receive, drain-append}

module _ {S : Type 0} (v : Server S) where
  length-drain : (n : ℕ) (c : Conn S) → length (drain v n c).input ≤ length c.input
  unfolding drain
  length-drain zero c = omega arith
  length-drain (suc n) c = elim (Bool-cases (v.is_active c.server)) [
    | inr gone ↦ rw (drain_gone v (suc n) c gone) (omega arith)
    | inl on ↦ elim (Option-cases (memchr newline c.input)) [
      | inl nowhere ↦ rw (drain_no_line v (suc n) c nowhere) (omega arith)
      | inr (k, there) ↦
          let rest = drop (suc k) c.input in
          let (goes_on, s) = v.process_line (take k c.input) c.server in
          let shorter = length-after_line v rest s in
          elim (Bool-cases goes_on) [
            | inl g ↦ rw (drain_goes_on v n c k on there g) (
                omega (
                  arith,
                  length-drain n (after_line v rest s),
                  shorter,
                  length-drop (suc k) c.input,
                ))
            | inr g ↦
                rw (drain_stops v n c k on there g)
                  (omega (arith, shorter, length-drop (suc k) c.input))
          ]
    ]
  ]

  receive_fits :
      (bytes : List ℕ) (p : ℕ) (c : Conn S)
      → length c.input + length bytes < input_buffer_size
      → length c.input + length bytes ≤ p
      → receive v bytes c ≡ then_receive v bytes p c
  unfolding receive
  receive_fits bytes p c fits hp = elim (Bool-cases (v.is_active c.server)) [
    | inr gone ↦ rw gone refl
    | inl on ↦
        rw (on, lt→ltb (length c.input + length bytes) input_buffer_size fits)
          (drain_rounds v (length (c.input ++ bytes)) p (record c { input = c.input ++ bytes })
            (omega arith) (omega (arith, hp, length-append c.input bytes)))
  ]

  receive_gone :
      (bytes : List ℕ) (c : Conn S) → v.is_active c.server ≡ false → receive v bytes c ≡ c
  unfolding receive
  receive_gone bytes c gone = rw gone refl

  then_receive_on :
      (bytes : List ℕ) (p : ℕ) (c : Conn S)
      → v.is_active c.server ≡ true
      → then_receive v bytes p c ≡ drain v p (record c { input = c.input ++ bytes })
  then_receive_on bytes p c on = rw on refl

-- Bytes that arrive in two pieces have the effect of the same bytes in one, the processed lines, the
-- buffer and the server state alike, if they fit the buffer together and the loop stops early only
-- for a client that is gone.
pub receive-append :
    {S : Type 0} (v : Server S)
    → ((l : List ℕ) (s : S)
        → (v.process_line l s).0 ≡ false
        → v.is_active (v.process_line l s).1 ≡ false)
    → (first second : List ℕ) (c : Conn S)
    → length c.input + length first + length second < input_buffer_size
    → receive v second (receive v first c) ≡ receive v (first ++ second) c
receive-append v law first second c fits = elim (Bool-cases (v.is_active c.server)) [
  | inr gone ↦
      ap (receive v second) (receive_gone v first c gone)
      ∙ receive_gone v second c gone
      ∙ sym (receive_gone v (first ++ second) c gone)
  | inl on ↦
      let p = length c.input + length first + length second in
      let c1 = record c { input = c.input ++ first } in
      let d = drain v p c1 in
      let shorter = length-drain v p c1 in
      let lengths = length-append c.input first in
      let both = length-append first second in
      ap (receive v second) (
        receive_fits v first p c (omega (arith, fits)) (omega arith)
        ∙ then_receive_on v first p c on)
      ∙ receive_fits v second p d (omega (arith, fits, shorter, lengths))
          (omega (arith, shorter, lengths))
      ∙ sym (
          drain-append v law p p p second c1 on (omega (arith, lengths)) (omega (arith, lengths))
            (omega (arith, lengths)))
      ∙ ap (λ i. drain v p (record c { input = i })) (append_assoc c.input first second)
      ∙ sym (
          receive_fits v (first ++ second) p c (omega (arith, fits, both)) (omega (arith, both))
          ∙ then_receive_on v (first ++ second) p c on)
]
