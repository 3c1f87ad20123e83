-- ===== src/Chat/Input.antt =====
-- chat/server.c: the bytes of a client, cut into lines by the loop of `main`.
pub mod Rounds
pub mod Chunks
pub mod Keeps
pub mod Drained
pub mod Stream
use mathlib.Core.Option
use linux_network_lab.Base.{
  ℕ, zero, suc, ◌+◌, Bool, true, false, not, List, [], ◌∷◌, ◌++◌, Option, none, some, length, take,
  drop, ltb, ◌==◌, if◌then◌else◌,
}

abbrev pub input_buffer_size : ℕ
input_buffer_size = 4096

abbrev pub newline : ℕ
newline = 10

-- `memchr`, as an index.
unfoldable pub memchr : ℕ → List ℕ → Option ℕ
memchr c [] = none
memchr c (b ∷ bs) = let rest = Option.map suc (memchr c bs) in if b == c then some 0 else rest

-- What `process_line` is to the loop: it changes the server, and says whether the loop goes on. The
-- client may be gone afterwards.
pub record Server (S : Type 0) : Type 0 where
  pub is_active : S → Bool
  pub process_line : List ℕ → S → Bool × S
  pub too_long : S → S

-- `input` is the first `input_len` bytes of `input_buffer`; the loop looks at no others.
pub record Conn (S : Type 0) : Type 0 where
  pub input : List ℕ
  pub server : S

module _ {S : Type 0} (v : Server S) where
  -- `disconnect_client` clears the client with its buffer.
  unfoldable pub after_line : List ℕ → S → Conn S
  after_line rest s = record { input = if v.is_active s then rest else []; server = s }

  -- Each round takes a line off the buffer, so as many rounds as it has bytes are enough.
  unfoldable pub drain : ℕ → Conn S → Conn S
  drain zero c = c
  drain (suc rounds) c = elim (v.is_active c.server) [
    | false ↦ c
    | true ↦ elim (memchr newline c.input) [
      | none ↦ c
      | some k ↦
          let (goes_on, s) = v.process_line (take k c.input) c.server in
          elim goes_on [
            | true ↦ drain rounds (after_line (drop (suc k) c.input) s)
            | false ↦ after_line (drop (suc k) c.input) s
          ]
    ]
  ]

  -- Bytes that `recv` returned. A client that is gone is not found by its fd.
  unfoldable pub receive : List ℕ → Conn S → Conn S
  receive bytes c =
      if not (v.is_active c.server)
      then c
      else if not (ltb (length c.input + length bytes) input_buffer_size)
      then record { input = []; server = v.too_long c.server }
      else drain (length (c.input ++ bytes)) (record c { input = c.input ++ bytes })
