-- ===== src/Chat/Input/Keeps.antt =====
-- chat/server.c: what each line keeps of the server, the bytes of an event keep.
use linux_network_lab.Base.{
  ℕ, zero, suc, ◌+◌, sym, subst, inl, inr, List, ◌++◌, length, take, ltb, Bool-cases, Option-cases,
}
use linux_network_lab.Chat.Input.{
  newline, memchr, input_buffer_size, Server, Conn, after_line, drain, receive,
}
use linux_network_lab.Chat.Input.Rounds.{drain_goes_on, drain_stops}

module _ {S : Type 0} (v : Server S) (P : S → Type 0)
    (line_keeps : (l : List ℕ) (s : S) → P s → P (v.process_line l s).1) where
  drain-keeps : (n : ℕ) (c : Conn S) → P c.server → P (drain v n c).server
  unfolding drain after_line
  drain-keeps zero c h = h
  drain-keeps (suc n) c h = elim (Bool-cases (v.is_active c.server)) [
    | inr gone ↦ rw (gone, drain) h
    | inl on ↦ elim (Option-cases (memchr newline c.input)) [
      | inl nowhere ↦ rw (on, nowhere, drain) h
      | inr (k, there) ↦ elim (Bool-cases (v.process_line (take k c.input) c.server).0) [
        | inl g ↦
            subst (λ x. P x.server) (sym (drain_goes_on v n c k on there g))
              (drain-keeps n _ (line_keeps (take k c.input) c.server h))
        | inr g ↦
            subst (λ x. P x.server) (sym (drain_stops v n c k on there g))
              (line_keeps (take k c.input) c.server h)
      ]
    ]
  ]

  pub receive-keeps :
      (bytes : List ℕ) (c : Conn S)
      → (P c.server → P (v.too_long c.server))
      → P c.server
      → P (receive v bytes c).server
  unfolding receive
  receive-keeps bytes c too_long h = elim (Bool-cases (v.is_active c.server)) [
    | inr gone ↦ rw (gone, receive) h
    | inl on ↦ elim (Bool-cases (ltb (length c.input + length bytes) input_buffer_size)) [
      | inr full ↦ rw (on, full, receive) (too_long h)
      | inl fits ↦ rw (on, fits, receive) (drain-keeps (length (c.input ++ bytes)) _ h)
    ]
  ]
