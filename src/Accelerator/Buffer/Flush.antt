-- ===== src/Accelerator/Buffer/Flush.antt =====
-- tcp_accelerator/tcp_accelerator.c: sending takes from the queue.
use linux_network_lab.Base.{
  ℕ, ◌-◌, ◌≤◌, ◌≡◌, refl, sym, ap, ◌∙◌, inl, inr, List, ◌++◌, arith, length, take, drop, slice-skip,
  take-append-drop, add_size, ltb, ◌==◌, Bool-cases,
}
use linux_network_lab.Accelerator.Buffer.{
  IoBuffer, buffer_empty, buffer_reset_if_empty, pending_bytes, SendAnswer, sent, send_failed,
  put_out, flush_buffer,
}
use linux_network_lab.Accelerator.Buffer.Fifo.{
  IsValid, FitsSend, contents, pending_bytes-eq-contents, length-contents,
}

pub reset-IsValid : {buf : IoBuffer} → IsValid buf → IsValid (buffer_reset_if_empty buf)
unfolding buffer_reset_if_empty
reset-IsValid v = ground (arith, v.array, v.ordered, v.in_array)

pub contents-reset : (buf : IoBuffer) → contents (buffer_reset_if_empty buf) ≡ contents buf
unfolding buffer_reset_if_empty
contents-reset buf = elim (Bool-cases (buf.start == buf.end)) [
  | inl none_left ↦ let e : buf.end - buf.start ≡ 0 = ground arith in rw (none_left, e)
  | inr some_left ↦ rw some_left
]

advance : IoBuffer → ℕ → IoBuffer
advance buf n = record buf { start = add_size buf.start n }

module _ {buf : IoBuffer} (v : IsValid buf) (n : ℕ) (h : n ≤ length (pending_bytes buf)) where
  n_le : n ≤ buf.end - buf.start
  n_le = omega (arith, h, ap length (pending_bytes-eq-contents v), length-contents v)

  advance-IsValid : IsValid (advance buf n)
  unfolding advance
  advance-IsValid = omega (arith, n_le, v.array, v.ordered, v.in_array)

  contents-advance : contents (advance buf n) ≡ drop n (contents buf)
  unfolding advance
  contents-advance =
      slice-skip buf.bytes buf.start (buf.end - buf.start) n _ _
        (omega (arith, n_le, v.ordered, v.in_array)) (omega (arith, n_le, v.ordered, v.in_array))

  sent-then-left : contents buf ≡ take n (pending_bytes buf) ++ contents (advance buf n)
  sent-then-left =
      rw (pending_bytes-eq-contents v, contents-advance) (sym (take-append-drop n (contents buf)))

put_out-lem :
    {buf : IoBuffer} (a : SendAnswer)
    → IsValid buf
    → FitsSend (pending_bytes buf) a
    → let (o, b, out) = put_out buf a in IsValid b × (contents buf ≡ out ++ contents b)
unfolding put_out advance
put_out-lem {buf} (sent n) v h = elim (Bool-cases (ltb 0 n)) [
  | inl some_sent ↦ rw some_sent (
    reset-IsValid (advance-IsValid v n h),
    sent-then-left v n h
        ∙ ap (λ q. take n (pending_bytes buf) ++ q) (sym (contents-reset (advance buf n))),
  )
  | inr none_sent ↦ rw none_sent (v, refl)
]
put_out-lem (send_failed e) v h = (v, refl)

-- The bytes that are sent are the first of the queue, and the queue afterwards is what is left.
pub flush-takes :
    (send : List ℕ → SendAnswer)
    → ((bs : List ℕ) → FitsSend bs (send bs))
    → {buf : IoBuffer} → IsValid buf
    → let (o, b, out) = flush_buffer send buf in IsValid b × (contents buf ≡ out ++ contents b)
unfolding flush_buffer
flush-takes send fits {buf} v = elim (Bool-cases (buffer_empty buf)) [
  | inl nothing ↦ rw nothing (v, refl)
  | inr something ↦
      rw something (put_out-lem (send (pending_bytes buf)) v (fits (pending_bytes buf)))
]
