-- ===== src/Accelerator/Buffer/Receive.antt =====
-- tcp_accelerator/tcp_accelerator.c: receiving appends to the queue.
use linux_network_lab.Base.{
  ℕ, ◌+◌, ◌-◌, ◌≤◌, ◌<◌, ◌≡◌, sym, ap, ◌∙◌, ◌⊎◌, inl, inr, [], ◌∷◌, ◌++◌, arith, length,
  length-write_at, slice-write_at, append-nil, ◌==◌, Bool-cases,
}
use linux_network_lab.Accelerator.Buffer.{
  forward_buffer_size, IoBuffer, buffer_space, buffer_compact, RecvAnswer, received, recv_failed,
  idle, take_in, make_room, receive_into_buffer,
}
use linux_network_lab.Accelerator.Buffer.Fifo.{
  IsValid, FitsRecv, contents, space_eq, length-contents, make_room-IsValid, contents-make_room,
}

-- Receiving appends what arrived, and keeps the buffer valid.
take_in-IsValid :
    {buf : IoBuffer} (a : RecvAnswer)
    → IsValid buf
    → FitsRecv (forward_buffer_size - buf.end) a
    → IsValid (take_in buf a).1
unfolding take_in
take_in-IsValid (received []) v h = v
take_in-IsValid {buf} (received (x ∷ xs)) v h = record {
  array = length-write_at buf.bytes buf.end (x ∷ xs) ∙ v.array;
  ordered = omega (arith, v.ordered, v.in_array, h);
  in_array = omega (arith, v.ordered, v.in_array, h);
}
take_in-IsValid (recv_failed e) v h = v

contents-take_in :
    {buf : IoBuffer} (a : RecvAnswer)
    → IsValid buf
    → FitsRecv (forward_buffer_size - buf.end) a
    → let (o, b, got) = take_in buf a in contents b ≡ contents buf ++ got
unfolding take_in
contents-take_in {buf} (received []) v h = sym (append-nil (contents buf))
contents-take_in {buf} (received (x ∷ xs)) v h =
    slice-write_at buf.bytes buf.start buf.end (buf.end - buf.start) _ (x ∷ xs)
      (omega (arith, v.ordered)) (omega (arith, v.ordered, v.in_array, h))
      (omega (arith, v.array, v.ordered, v.in_array, h))
contents-take_in {buf} (recv_failed e) v h = sym (append-nil (contents buf))

module _ (recv : ℕ → RecvAnswer) (fits : (n : ℕ) → FitsRecv n (recv n)) where
  fits_room :
      {buf : IoBuffer}
      → IsValid buf
      → FitsRecv (forward_buffer_size - buf.end) (recv (buffer_space buf))
  fits_room {buf} v = rw (space_eq v) (fits (forward_buffer_size - buf.end))

  -- The queue afterwards is the queue before with the received bytes behind it, and the indices
  -- stay within the array.
  pub receive-appends :
      {buf : IoBuffer}
      → IsValid buf
      → let (o, b, got) = receive_into_buffer recv buf in
        IsValid b × (contents b ≡ contents buf ++ got)
  unfolding receive_into_buffer
  receive-appends {buf} v =
      let w = make_room-IsValid v in
      elim (Bool-cases (buffer_space (make_room buf) == 0)) [
        | inl full ↦ rw full (w, contents-make_room v ∙ sym (append-nil (contents buf)))
        | inr room ↦ rw room (
          take_in-IsValid (recv (buffer_space (make_room buf))) w (fits_room w),
          contents-take_in (recv (buffer_space (make_room buf))) w (fits_room w)
              ∙ ap (λ q. q ++ (take_in (make_room buf) (recv (buffer_space (make_room buf)))).2)
                  (contents-make_room v),
        )
      ]

-- A full buffer whose first byte is not at the front is moved there.
make_room_front :
    {buf : IoBuffer}
    → IsValid buf
    → ((make_room buf).end < forward_buffer_size) ⊎ ((make_room buf).start ≡ 0)
unfolding make_room buffer_compact
make_room_front {buf} v = ground (arith, space_eq v, v.ordered, v.in_array)

module _ {buf : IoBuffer} (v : IsValid buf) where
  length-make_room : length (contents buf) ≡ (make_room buf).end - (make_room buf).start
  length-make_room = ap length (sym (contents-make_room v)) ∙ length-contents (make_room-IsValid v)

  room_positive : length (contents buf) < forward_buffer_size → 0 < buffer_space (make_room buf)
  room_positive h =
      let w = make_room-IsValid v in
      omega (arith, w.ordered, w.in_array, space_eq w, length-make_room, make_room_front v)

  room_fits : buffer_space (make_room buf) + length (contents buf) ≤ forward_buffer_size
  room_fits =
      let w = make_room-IsValid v in
      omega (arith, w.ordered, w.in_array, space_eq w, length-make_room)

  full_start : length (contents buf) ≡ forward_buffer_size → buf.start ≡ 0
  full_start h = omega (arith, v.ordered, v.in_array, h, length-contents v)

  full_space : length (contents buf) ≡ forward_buffer_size → buffer_space buf ≡ 0
  full_space h = omega (arith, v.ordered, v.in_array, h, length-contents v, space_eq v)

  -- Where the queue has room, `recv` is called, and is offered at least one byte and no more than
  -- the room; where the queue is full, nothing is read and nothing changes.
  pub receive_room :
      (recv : ℕ → RecvAnswer)
      → (length (contents buf) < forward_buffer_size
          → (n : ℕ) × (0 < n)
            × (n + length (contents buf) ≤ forward_buffer_size)
            × (receive_into_buffer recv buf ≡ take_in (make_room buf) (recv n)))
        × (length (contents buf) ≡ forward_buffer_size
            → receive_into_buffer recv buf ≡ (idle, buf, []))
  unfolding receive_into_buffer make_room
  receive_room recv = (
    (λ h. (
      buffer_space (make_room buf),
      room_positive h,
      room_fits,
      ground (arith, room_positive h),
    )),
    (λ h. ground (arith, full_start h, full_space h)),
  )
