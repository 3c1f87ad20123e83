-- ===== src/NetDevice/Rx/Runs.antt =====
-- net_device/simple_netdev.c: packets through the receive ring, over any sequence of arrivals and
-- polls.
use linux_network_lab.Base.{
  ℕ, ◌+◌, ◌%◌, ◌<◌, min, ◌≡◌, refl, sym, ap, ◌∙◌, inl, inr, Bool, true, false, List, [], ◌∷◌, ◌++◌,
  append_assoc, arith, length, take, drop, set, get_elem?, length-set, length-append, length-drop,
  get_or-set_self, get_elem?-append_old, get_elem?-append_last, take-append-drop, some, leb,
  if◌then◌else◌, Bool-cases,
}
use mathlib.Core.Bool.{false≢true}
use native.Mathlib.Decide.{dec_lt}
use linux_network_lab.NetDevice.Device.{
  rx_ring_size, rx_buffer_size, RxDesc, Device, rx_desc, zero_rx_desc,
}
use linux_network_lab.NetDevice.Rx.{next_rx, poll}
use linux_network_lab.NetDevice.Rx.Ring.{Filled, Waits, rx_desc-set_ne}
use linux_network_lab.NetDevice.Rx.Poll.{kept_all, poll_lem}

take-length : (f : List ℕ) → take (length f) f ≡ f
take-length [] = refl
take-length (x ∷ f) = ap (◌∷◌ x) (take-length f)

-- The NIC writes a packet, which its buffer must hold, to the descriptor at its own position and
-- gives it back.
abbrev received : RxDesc → List ℕ → RxDesc
received t f = record t { frame = f; len = length f; owned_by_hw = false; finished = true }

unfoldable pub nic_receive : List ℕ → ℕ → Device → Device
nic_receive f i d = record d {
  priv = record d.priv { rx_ring = set d.priv.rx_ring i (received (rx_desc d.priv.rx_ring i) f) };
}

module _ (d : Device) (q : List (List ℕ)) (f : List ℕ) (i : ℕ) (h : Waits d.priv q)
    (place : i ≡ (d.priv.rx_head + length q) % rx_ring_size) (l : length q < rx_ring_size) where
  receive_filled :
      (j k : ℕ)
      → k < length (q ++ f ∷ [])
      → j ≡ (d.priv.rx_head + k) % rx_ring_size
      → Filled (rx_desc (nic_receive f i d).priv.rx_ring j) (get_elem? (q ++ f ∷ []) k)
  unfolding nic_receive
  receive_filled j k hk e = elim (dec_lt k (length q)) [
    | yes old ↦
        rw
          (
            rx_desc-set_ne d.priv.rx_ring i j (received (rx_desc d.priv.rx_ring i) f)
                (omega (arith, place, l, old, e)),
            get_elem?-append_old q (f ∷ []) k old,
          )
          (h.filled j k old e)
    | no new ↦
        let k' : k ≡ length q = omega (arith, hk, new, length-append q (f ∷ [])) in
        let j' : j ≡ i = omega (arith, e, place, k') in
        rw
          (
            j',
            get_or-set_self d.priv.rx_ring i (received (rx_desc d.priv.rx_ring i) f) zero_rx_desc
                (omega (arith, h.whole, place)),
            get_elem?-append_last q f k k',
          )
          (record { ours = refl; full = refl; bytes = ap some (take-length f) })
  ]

  pub nic_receive-Waits : Waits (nic_receive f i d).priv (q ++ f ∷ [])
  unfolding nic_receive
  nic_receive-Waits = record {
    whole = length-set d.priv.rx_ring i _ ∙ h.whole;
    head_in = h.head_in;
    room = omega (arith, l, length-append q (f ∷ []));
    filled = receive_filled;
    given = λ j hj far.
        rw
          (rx_desc-set_ne d.priv.rx_ring i j (received (rx_desc d.priv.rx_ring i) f)
            (omega (arith, place, l, far, hj, h.head_in, length-append q (f ∷ []))))
          (h.given j hj (omega (arith, far, length-append q (f ∷ []))));
  }

-- A packet arrives, or NAPI polls with a budget; there is an skb for each packet.
pub data RxOp : Type 0 where
  arrive : List ℕ → RxOp
  poll_now : ℕ → Bool → RxOp

-- The NIC fills the descriptors in ring order, from its own position on, and misses a packet for
-- which it has none, or which is longer than a buffer. The last part lists the packets that it took in.
pub rx_step : RxOp → Device × ℕ × List (List ℕ) → Device × ℕ × List (List ℕ)
rx_step (arrive f) (d, i, taken) =
    if (rx_desc d.priv.rx_ring i).owned_by_hw
    then if leb (length f) rx_buffer_size
      then (nic_receive f i d, next_rx i, taken ++ f ∷ [])
      else (d, i, taken)
    else (d, i, taken)
rx_step (poll_now budget completes) (d, i, taken) =
    ((poll (λ n. true) budget completes d).1, i, taken)

pub rx_run : List RxOp → Device × ℕ × List (List ℕ) → Device × ℕ × List (List ℕ)
rx_run [] s = s
rx_run (op ∷ ops) s = rx_run ops (rx_step op s)

record InOrder (d : Device) (i : ℕ) (taken : List (List ℕ)) : Type 0 where
  pub queue : List (List ℕ)
  pub waits : Waits d.priv queue
  pub place : i ≡ (d.priv.rx_head + length queue) % rx_ring_size
  pub tail_at : d.regs.rx_tail ≡ d.priv.rx_head
  pub order : taken ≡ d.handed_up ++ queue

-- A full queue leaves the NIC no descriptor.
room_left :
    (d : Device) (q : List (List ℕ)) (i : ℕ)
    → Waits d.priv q
    → i ≡ (d.priv.rx_head + length q) % rx_ring_size
    → (rx_desc d.priv.rx_ring i).owned_by_hw ≡ true
    → length q < rx_ring_size
room_left d q i h place e = elim (dec_lt (length q) rx_ring_size) [
  | yes l ↦ l
  | no full ↦
      let f = h.filled i 0 (omega (arith, full)) (omega (arith, full, h.room, place, h.head_in)) in
      absurd (false≢true (sym f.ours ∙ e))
]

arrive-InOrder :
    (f : List ℕ) (d : Device) (i : ℕ) (taken : List (List ℕ))
    → InOrder d i taken
    → let (d', i', taken') = rx_step (arrive f) (d, i, taken) in InOrder d' i' taken'
unfolding rx_step nic_receive
arrive-InOrder f d i taken o = elim (Bool-cases (rx_desc d.priv.rx_ring i).owned_by_hw) [
  | inl given ↦
      let l = room_left d o.queue i o.waits o.place given in
      elim (Bool-cases (leb (length f) rx_buffer_size)) [
        | inl fits ↦
            rw (given, fits)
              (record {
                queue = o.queue ++ f ∷ [];
                waits = nic_receive-Waits d o.queue f i o.waits o.place l;
                place = omega (arith, o.place, length-append o.queue (f ∷ []));
                tail_at = o.tail_at;
                order = ap (λ t. t ++ f ∷ []) o.order ∙ append_assoc d.handed_up o.queue (f ∷ []);
              })
        | inr too_long ↦ rw (given, too_long) o
      ]
  | inr missed ↦ rw missed o
]

poll-InOrder :
    (budget : ℕ) (completes : Bool) (d : Device) (i : ℕ) (taken : List (List ℕ))
    → InOrder d i taken
    → let (d', i', taken') = rx_step (poll_now budget completes) (d, i, taken) in
      InOrder d' i' taken'
unfolding rx_step
poll-InOrder budget completes d i taken o =
    let q = o.queue in
    let n = min budget (length q) in
    let p = poll_lem (λ k. true) budget completes d q o.waits o.tail_at in
    record {
      queue = drop n q;
      waits = p.1;
      place = omega (arith, p.6, o.place, length-drop n q);
      tail_at = p.5;
      order =
          rw
            (
              p.2,
              kept_all 0 (take n q),
              append_assoc d.handed_up (take n q) (drop n q),
              take-append-drop n q,
            )
            o.order;
    }

run-InOrder :
    (ops : List RxOp) (d : Device) (i : ℕ) (taken : List (List ℕ))
    → InOrder d i taken
    → let (d', i', taken') = rx_run ops (d, i, taken) in InOrder d' i' taken'
unfolding rx_run
run-InOrder [] d i taken o = o
run-InOrder (arrive f ∷ ops) d i taken o =
    let (d', i', taken') = rx_step (arrive f) (d, i, taken) in
    run-InOrder ops d' i' taken' (arrive-InOrder f d i taken o)
run-InOrder (poll_now budget completes ∷ ops) d i taken o =
    let (d', i', taken') = rx_step (poll_now budget completes) (d, i, taken) in
    run-InOrder ops d' i' taken' (poll-InOrder budget completes d i taken o)

-- From a ring that the NIC has whole, in any sequence of arrivals and polls that find skbs, the
-- packets passed up followed by those in the ring are the packets that the NIC took in, in order.
pub rx_run_order :
    (ops : List RxOp) (d : Device)
    → Waits d.priv []
    → d.regs.rx_tail ≡ d.priv.rx_head
    → d.handed_up ≡ []
    → let (d', i, taken) = rx_run ops (d, d.priv.rx_head, []) in
      (q : List (List ℕ)) × Waits d'.priv q × (taken ≡ d'.handed_up ++ q)
rx_run_order ops d h t e =
    let o = run-InOrder ops d d.priv.rx_head [] (record {
      queue = [];
      waits = h;
      place = omega (arith, h.head_in);
      tail_at = t;
      order = rw e refl;
    }) in
    (o.queue, o.waits, o.order)
