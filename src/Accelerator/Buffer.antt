-- ===== src/Accelerator/Buffer.antt =====
-- tcp_accelerator/tcp_accelerator.c: `struct io_buffer`, its helpers, and the two functions that
-- move bytes between a socket and a buffer. `size_t` arithmetic wraps, as in C.
pub mod Fifo
pub mod Receive
pub mod Flush
use linux_network_lab.Base.{
  ℕ, ◌*◌, ◌<◌, Bool, ◌&&◌, List, [], ◌∷◌, length, take, replicate, write_at, slice, add_size,
  sub_size, ltb, ◌==◌, if◌then◌else◌,
}

-- FORWARD_BUFFER_SIZE
abbrev pub forward_buffer_size : ℕ
forward_buffer_size = 64 * 1024

-- `bytes` is the array `data`.
pub record IoBuffer : Type 0 where
  pub bytes : List ℕ
  pub start : ℕ
  pub end : ℕ

-- What `calloc` leaves in a connection's buffers.
unfoldable pub zeroed_buffer : IoBuffer
zeroed_buffer = record { bytes = replicate forward_buffer_size 0; start = 0; end = 0 }

unfoldable pub buffer_empty : IoBuffer → Bool
buffer_empty buf = buf.start == buf.end

unfoldable pub buffer_pending : IoBuffer → ℕ
buffer_pending buf = sub_size buf.end buf.start

unfoldable pub buffer_space : IoBuffer → ℕ
buffer_space buf = sub_size forward_buffer_size buf.end

pub buffer_reset_if_empty : IoBuffer → IoBuffer
buffer_reset_if_empty buf = if buf.start == buf.end then record buf { start = 0; end = 0 } else buf

-- The bytes that `buf->data + buf->start` and `buffer_pending(buf)` delimit.
unfoldable pub pending_bytes : IoBuffer → List ℕ
unfolding buffer_pending
pending_bytes buf = slice buf.bytes buf.start (buffer_pending buf)

-- The `memmove` copies no byte where none is pending.
pub buffer_compact : IoBuffer → IoBuffer
buffer_compact buf = if buf.start == 0 then buf else record {
  bytes =
      if ltb 0 (buffer_pending buf) then write_at buf.bytes 0 (pending_bytes buf) else buf.bytes;
  start = 0;
  end = buffer_pending buf;
}

-- The values of `errno` that the code tells apart.
pub data Errno : Type 0 where
  eagain ewouldblock eintr other_errno : Errno

-- What `recv` returns: the bytes it wrote (none for an orderly shutdown), or -1 and `errno`.
pub data RecvAnswer : Type 0 where
  received : List ℕ → RecvAnswer
  recv_failed : Errno → RecvAnswer

-- What `send` returns: the number of bytes it took, or -1 and `errno`.
pub data SendAnswer : Type 0 where
  sent : ℕ → SendAnswer
  send_failed : Errno → SendAnswer

-- The results of the two functions below: -1, 0, 1 and 2.
pub data Outcome : Type 0 where
  failed idle moved finished : Outcome

-- EAGAIN, EWOULDBLOCK and EINTR are no errors.
pub errno_outcome : Errno → Outcome
errno_outcome eagain = idle
errno_outcome ewouldblock = idle
errno_outcome eintr = idle
errno_outcome other_errno = failed

-- The branches on `n` behind the call of `recv`. The last part is what was received.
pub take_in : IoBuffer → RecvAnswer → Outcome × IoBuffer × List ℕ
take_in buf (received []) = (finished, buf, [])
take_in buf (received (x ∷ xs)) = (
  moved,
  record buf {
    bytes = write_at buf.bytes buf.end (x ∷ xs);
    end = add_size buf.end (length (x ∷ xs));
  },
  x ∷ xs,
)
take_in buf (recv_failed e) = (errno_outcome e, buf, [])

-- `receive_into_buffer`: `recv` answers for the room that it is offered.
pub make_room : IoBuffer → IoBuffer
make_room buf = if (buffer_space buf == 0) && ltb 0 buf.start then buffer_compact buf else buf

pub receive_into_buffer : (ℕ → RecvAnswer) → IoBuffer → Outcome × IoBuffer × List ℕ
receive_into_buffer recv buf =
    let b = make_room buf in
    if buffer_space b == 0 then (idle, b, []) else take_in b (recv (buffer_space b))

-- The branches on `n` behind the call of `send`. The last part is what was sent.
pub put_out : IoBuffer → SendAnswer → Outcome × IoBuffer × List ℕ
put_out buf (sent n) =
    if ltb 0 n
    then (
      moved,
      buffer_reset_if_empty (record buf { start = add_size buf.start n }),
      take n (pending_bytes buf),
    )
    else (idle, buf, [])
put_out buf (send_failed e) = (errno_outcome e, buf, [])

-- `flush_buffer`: `send` answers for the bytes that it is offered.
pub flush_buffer : (List ℕ → SendAnswer) → IoBuffer → Outcome × IoBuffer × List ℕ
flush_buffer send buf =
    if buffer_empty buf then (idle, buf, []) else put_out buf (send (pending_bytes buf))

-- To run the functions of this file in a test, unfold this.
unfoldable pub buffer_code : Unit {0}
unfolding zeroed_buffer buffer_empty buffer_pending buffer_space buffer_reset_if_empty pending_bytes
    buffer_compact errno_outcome take_in make_room receive_into_buffer put_out flush_buffer
buffer_code = tt
