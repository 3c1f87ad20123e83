-- ===== src/Accelerator/Buffer/Fifo.antt =====
-- tcp_accelerator/tcp_accelerator.c: a buffer is a bounded queue of bytes.
use linux_network_lab.Base.{
  ℕ, ◌-◌, ◌≤◌, ◌≡◌, ◌↔◌, refl, ap, ◌∙◌, inl, inr, true, List, [], arith, length, slice, write_at,
  length-write_at, slice-write_at, length-slice, length-replicate, ltb, ◌==◌, Bool-cases, ==_iff,
}
use linux_network_lab.Accelerator.Buffer.{
  forward_buffer_size, IoBuffer, zeroed_buffer, buffer_empty, buffer_pending, buffer_space,
  pending_bytes, buffer_compact, RecvAnswer, received, recv_failed, SendAnswer, sent, send_failed,
  make_room,
}

-- The indices lie in order within an array of FORWARD_BUFFER_SIZE bytes.
pub record IsValid (buf : IoBuffer) : Type 0 where
  pub array : length buf.bytes ≡ forward_buffer_size
  pub ordered : buf.start ≤ buf.end
  pub in_array : buf.end ≤ forward_buffer_size

-- `recv` writes no more than the room it is offered.
abbrev pub FitsRecv : ℕ → RecvAnswer → Type 0
FitsRecv space (received bs) = length bs ≤ space
FitsRecv space (recv_failed e) = Unit {0}

-- `send` takes no more than it is offered.
abbrev pub FitsSend : List ℕ → SendAnswer → Type 0
FitsSend bs (sent n) = n ≤ length bs
FitsSend bs (send_failed e) = Unit {0}

-- The queue that a buffer stands for.
abbrev pub contents : IoBuffer → List ℕ
contents buf = slice buf.bytes buf.start (buf.end - buf.start)

module _ {buf : IoBuffer} (v : IsValid buf) where
  -- No `size_t` subtraction wraps in a valid buffer.
  pub pending_eq : buffer_pending buf ≡ buf.end - buf.start
  unfolding buffer_pending
  pending_eq = omega (arith, v.ordered, v.in_array)

  pub space_eq : buffer_space buf ≡ forward_buffer_size - buf.end
  unfolding buffer_space
  space_eq = omega (arith, v.in_array)

  pub pending_bytes-eq-contents : pending_bytes buf ≡ contents buf
  unfolding pending_bytes
  pending_bytes-eq-contents = ap (slice buf.bytes buf.start) pending_eq

  pub length-contents : length (contents buf) ≡ buf.end - buf.start
  length-contents =
      length-slice buf.bytes buf.start (buf.end - buf.start)
        (omega (arith, v.array, v.ordered, v.in_array))

  -- Moving the pending bytes to the front of the array keeps the buffer valid and its queue.
  pub compact-IsValid : IsValid (buffer_compact buf)
  unfolding buffer_compact
  compact-IsValid = ground (
    arith,
    v.array,
    v.ordered,
    v.in_array,
    pending_eq,
    length-write_at buf.bytes 0 (pending_bytes buf),
  )

  -- `memmove` brings exactly the pending bytes to the front.
  front :
      (m : ℕ)
      → m ≡ buf.end - buf.start
      → slice (write_at buf.bytes 0 (pending_bytes buf)) 0 m ≡ contents buf
  front m e =
      slice-write_at buf.bytes 0 0 0 m (pending_bytes buf) refl
        (omega (arith, e, ap length pending_bytes-eq-contents, length-contents))
        (omega (arith, e, v.array, v.ordered, v.in_array))
      ∙ pending_bytes-eq-contents

  no_bytes : buffer_pending buf ≡ 0 → slice buf.bytes 0 (buffer_pending buf - 0) ≡ contents buf
  no_bytes e =
      let n : buffer_pending buf - 0 ≡ 0 = omega (arith, e) in
      let m : buf.end - buf.start ≡ 0 = omega (arith, e, pending_eq) in rw (n, m)

  pub contents-compact : contents (buffer_compact buf) ≡ contents buf
  unfolding buffer_compact
  contents-compact = elim (Bool-cases (buf.start == 0)) [
    | inl at_front ↦ rw at_front
    | inr moved_on ↦ elim (Bool-cases (ltb 0 (buffer_pending buf))) [
      | inl some_pending ↦
          rw (moved_on, some_pending) (front (buffer_pending buf - 0) (omega (arith, pending_eq)))
      | inr none_pending ↦ rw (moved_on, none_pending) (no_bytes (ground arith))
    ]
  ]

pub make_room-IsValid : {buf : IoBuffer} → IsValid buf → IsValid (make_room buf)
unfolding make_room
make_room-IsValid {buf} v = ground (arith, compact-IsValid v)

pub contents-make_room : {buf : IoBuffer} → IsValid buf → contents (make_room buf) ≡ contents buf
unfolding make_room
contents-make_room {buf} v = ground (arith, contents-compact v)

-- A buffer that `calloc` has filled with zeros is valid, and its queue is empty.
pub zeroed-IsValid : IsValid zeroed_buffer × (contents zeroed_buffer ≡ [])
unfolding zeroed_buffer
zeroed-IsValid = (
  record {
    array = length-replicate {A = ℕ} forward_buffer_size 0;
    ordered = omega arith;
    in_array = omega arith;
  },
  refl,
)

-- `buffer_empty` tells whether the queue is empty.
pub empty_iff : {buf : IoBuffer} → IsValid buf → (buffer_empty buf ≡ true) ↔ (contents buf ≡ [])
unfolding buffer_empty
empty_iff {buf} v = (
  λ e. let n : buf.end - buf.start ≡ 0 = ground arith in rw n,
  λ e. (==_iff buf.start buf.end).1 (omega (arith, v.ordered, length-contents v, ap length e)),
)
