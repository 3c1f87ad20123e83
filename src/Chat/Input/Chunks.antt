-- ===== src/Chat/Input/Chunks.antt =====
-- chat/server.c: the lines of a client do not depend on how TCP cuts its bytes.
use mathlib.Core.Bool.{false≢true}
use linux_network_lab.Base.{
  ℕ, zero, suc, ◌+◌, ◌≤◌, ◌≡◌, refl, sym, ap, ◌∙◌, inl, inr, true, false, not, List, [], ◌++◌, none,
  some, arith, length, take, drop, length-append, length-drop, if◌then◌else◌, Bool-cases,
  Option-cases,
}
use linux_network_lab.Chat.Input.{newline, memchr, Server, Conn, after_line, drain}
use linux_network_lab.Chat.Input.Rounds.{
  Found, memchr-Found, no_line_in_none, drain_gone, drain_no_line, drain_goes_on, drain_stops,
  drain_rounds,
}

module _ {S : Type 0} (v : Server S) where
  -- What `receive` does with bytes that fit.
  abbrev pub then_receive : List ℕ → ℕ → Conn S → Conn S
  then_receive bytes n c =
      if not (v.is_active c.server) then c else drain v n (record c { input = c.input ++ bytes })

  pub then_receive_gone :
      (bytes : List ℕ) (p : ℕ) (c : Conn S)
      → v.is_active c.server ≡ false
      → then_receive bytes p c ≡ c
  then_receive_gone bytes p c e = rw e refl

  pub after_line_on :
      (rest : List ℕ) (s : S)
      → v.is_active s ≡ true
      → after_line v rest s ≡ record { input = rest; server = s }
  unfolding after_line
  after_line_on rest s e = rw e refl

  pub after_line_gone :
      (rest : List ℕ) (s : S)
      → v.is_active s ≡ false
      → after_line v rest s ≡ record { input = []; server = s }
  unfolding after_line
  after_line_gone rest s e = rw e refl

  -- Bytes that hold no newline wait for the next ones.
  no_line_append :
      (n m p : ℕ) (bytes : List ℕ) (c : Conn S)
      → v.is_active c.server ≡ true
      → memchr newline c.input ≡ none
      → length c.input + length bytes ≤ m
      → length c.input + length bytes ≤ p
      → drain v m (record c { input = c.input ++ bytes }) ≡ then_receive bytes p (drain v n c)
  no_line_append n m p bytes c on e hm hp =
      let on' : then_receive bytes p c ≡ drain v p (record c { input = c.input ++ bytes }) =
        rw on refl in
      drain_rounds v m p (record c { input = c.input ++ bytes })
        (omega (arith, hm, length-append c.input bytes))
        (omega (arith, hp, length-append c.input bytes))
      ∙ sym on'
      ∙ ap (then_receive bytes p) (sym (drain_no_line v n c e))

  -- A line that ends the client ends the loop.
  line_gone :
      (n : ℕ) (c : Conn S) (k : ℕ)
      → v.is_active c.server ≡ true
      → memchr newline c.input ≡ some k
      → (s : S) → (v.process_line (take k c.input) c.server).1 ≡ s
      → v.is_active s ≡ false
      → drain v (suc n) c ≡ record { input = []; server = s }
  line_gone n c k on there s e gone =
      let rest = drop (suc k) c.input in
      let (goes_on, s') = v.process_line (take k c.input) c.server in
      let gone' : v.is_active s' ≡ false = ap v.is_active e ∙ gone in
      let end : after_line v rest s' ≡ record { input = []; server = s } =
        after_line_gone rest s' gone' ∙ ap (λ x. record { input = []; server = x }) e in
      elim (Bool-cases goes_on) [
        | inl g ↦
            drain_goes_on v n c k on there g
            ∙ ap (drain v n) end
            ∙ drain_gone v n (record { input = []; server = s }) gone
        | inr g ↦ drain_stops v n c k on there g ∙ end
      ]

  longer_goes_on :
      (m : ℕ) (bytes : List ℕ) (c : Conn S) (k : ℕ)
      → v.is_active c.server ≡ true
      → Found newline c.input bytes k
      → (v.process_line (take k c.input) c.server).0 ≡ true
      → drain v (suc m) (record c { input = c.input ++ bytes })
        ≡ drain v m (
            after_line v
              (drop (suc k) c.input ++ bytes)
              (v.process_line (take k c.input) c.server).1)
  longer_goes_on m bytes c k on f g =
      drain_goes_on v m (record c { input = c.input ++ bytes }) k on f.still
        (ap (λ l. (v.process_line l c.server).0) f.before ∙ g)
      ∙ ap (λ r. drain v m (after_line v r (v.process_line (take k (c.input ++ bytes)) c.server).1))
          f.behind
      ∙ ap
          (λ l.
            drain v m (after_line v (drop (suc k) c.input ++ bytes) (v.process_line l c.server).1))
          f.before

  module _
      (stops_only_gone : (l : List ℕ) (s : S)
        → (v.process_line l s).0 ≡ false
        → v.is_active (v.process_line l s).1 ≡ false) where
    goes_on_if_active :
        (l : List ℕ) (s : S)
        → v.is_active (v.process_line l s).1 ≡ true
        → (v.process_line l s).0 ≡ true
    goes_on_if_active l s e = elim (Bool-cases (v.process_line l s).0) [
      | inl g ↦ g
      | inr g ↦ absurd (false≢true (sym (stops_only_gone l s g) ∙ e))
    ]

    pub drain-append :
        (n m p : ℕ) (bytes : List ℕ) (c : Conn S)
        → v.is_active c.server ≡ true
        → length c.input ≤ n
        → length c.input + length bytes ≤ m
        → length c.input + length bytes ≤ p
        → drain v m (record c { input = c.input ++ bytes }) ≡ then_receive bytes p (drain v n c)
    drain-append zero m p bytes c on hn hm hp =
        no_line_append 0 m p bytes c on (no_line_in_none c.input hn) hm hp
    drain-append (suc n) zero p bytes c on hn hm hp =
        no_line_append (suc n) 0 p bytes c on (no_line_in_none c.input (omega (arith, hm))) hm hp
    drain-append (suc n) (suc m) p bytes c on hn hm hp =
        elim (Option-cases (memchr newline c.input)) [
          | inl nowhere ↦ no_line_append (suc n) (suc m) p bytes c on nowhere hm hp
          | inr (k, there) ↦
              let f = memchr-Found newline c.input bytes k there in
              let rest = drop (suc k) c.input in
              let (goes_on, s) = v.process_line (take k c.input) c.server in
              elim (Bool-cases (v.is_active s)) [
                | inl stays ↦
                    let g = goes_on_if_active (take k c.input) c.server stays in
                    longer_goes_on m bytes c k on f g
                    ∙ ap (drain v m) (after_line_on (rest ++ bytes) s stays)
                    ∙ drain-append n m p bytes (record { input = rest; server = s }) stays
                        (omega (arith, hn, f.within, length-drop (suc k) c.input))
                        (omega (arith, hm, f.within, length-drop (suc k) c.input))
                        (omega (arith, hp, f.within, length-drop (suc k) c.input))
                    ∙ ap (λ x. then_receive bytes p (drain v n x))
                        (sym (after_line_on rest s stays))
                    ∙ ap (then_receive bytes p) (sym (drain_goes_on v n c k on there g))
                | inr gone ↦
                    line_gone m (record c { input = c.input ++ bytes }) k on f.still s
                      (ap (λ l. (v.process_line l c.server).1) f.before) gone
                    ∙ sym (then_receive_gone bytes p (record { input = []; server = s }) gone)
                    ∙ ap (then_receive bytes p) (sym (line_gone n c k on there s refl gone))
              ]
        ]
