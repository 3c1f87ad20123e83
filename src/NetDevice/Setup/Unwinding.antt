-- ===== src/NetDevice/Setup/Unwinding.antt =====
-- net_device/simple_netdev.c: the loops over the receive buffers, with the error path of
-- `my_alloc_rx_buffers`.
use linux_network_lab.Base.{
  ℕ, zero, suc, ◌+◌, ◌≤◌, ◌<◌, ◌≡◌, ◌≢◌, refl, sym, subst, ◌∙◌, inl, inr, List, [], ◌∷◌, ◌++◌, none,
  some, arith, length, set, length-set, get_or-set_self, get_or-set_ne, Option-cases, ap,
}
use native.Mathlib.Decide.{ℕ_discrete}
use linux_network_lab.NetDevice.Device.{rx_ring_size, rx_buffer_size, RxDesc, rx_desc, zero_rx_desc}
use linux_network_lab.NetDevice.Setup.{
  Resource, Machine, buffer_parts, without_buffer, free_rx_buffer, rx_buffer, rx_mapping, kfree,
  unwound_parts, unwind_rx_buffer, unwind_rx_buffers, free_rx_loop,
}
use linux_network_lab.NetDevice.Setup.Balance.{
  ring_parts, Balanced, no_parts, free_rx_buffer-Balanced,
}

-- No descriptor from `lo` up to `hi` has a buffer.
pub record Cleared (ring : List RxDesc) (lo hi : ℕ) : Type 0 where
  pub cleared : (j : ℕ) → lo ≤ j → j < hi → (rx_desc ring j).buf ≡ none

pub none_held : (ring : List RxDesc) → Cleared ring 0 (length ring) → ring_parts ring ≡ []
unfolding ring_parts
none_held [] c = refl
none_held (t ∷ ring) c = rw (
  no_parts t (c.cleared 0 (omega arith) (omega arith)),
  none_held ring
      (record { cleared = λ j lo hi. c.cleared (suc j) (omega arith) (omega (arith, hi)) }),
)

-- The ring is whole, and what was taken is accounted for; the loops touch nothing else.
pub record Ring (m m' : Machine) (rest : List Resource) : Type 0 where
  pub whole : length m'.device.priv.rx_ring ≡ rx_ring_size
  pub balanced : Balanced m' rest
  pub same_tx : m'.device.priv.tx_ring ≡ m.device.priv.tx_ring
  pub same_rx_dma : m'.device.priv.rx_ring_dma ≡ m.device.priv.rx_ring_dma
  pub same_tx_dma : m'.device.priv.tx_ring_dma ≡ m.device.priv.tx_ring_dma

pub set-Cleared :
    (ring : List RxDesc) (i lo hi : ℕ) (v : RxDesc)
    → i < length ring
    → v.buf ≡ none
    → Cleared ring lo hi
    → (k : ℕ) → (n : ℕ) → ((j : ℕ) → k ≤ j → j < n → j ≢ i → (lo ≤ j) × (j < hi))
    → Cleared (set ring i v) k n
set-Cleared ring i lo hi v l e c k n within = record {
  cleared = λ j p q. elim (ℕ_discrete i j) [
    | yes here ↦ rw (sym here, get_or-set_self ring i v zero_rx_desc l) e
    | no away ↦
        let (p', q') = within j p q (λ h. away (sym h)) in
        rw (get_or-set_ne ring i j v zero_rx_desc away) (c.cleared j p' q')
  ];
}

free-Ring :
    (i : ℕ) (m0 m : Machine) (rest : List Resource)
    → i < rx_ring_size
    → Ring m0 m rest
    → Ring m0 (free_rx_buffer i m) rest
unfolding free_rx_buffer
free-Ring i m0 m rest l r = record {
  whole = length-set m.device.priv.rx_ring i _ ∙ r.whole;
  balanced = free_rx_buffer-Balanced i m rest (omega (arith, l, r.whole)) r.balanced;
  same_tx = r.same_tx;
  same_rx_dma = r.same_rx_dma;
  same_tx_dma = r.same_tx_dma;
}

-- Each descriptor below `i` has a buffer.
pub record Present (ring : List RxDesc) (i : ℕ) : Type 0 where
  pub present : (j : ℕ) → j < i → (rx_desc ring j).buf ≢ none

-- A descriptor with a buffer is unwound as it is freed.
unwound-parts : (t : RxDesc) → t.buf ≢ none → unwound_parts t ≡ buffer_parts t
unwound-parts t h = elim (Option-cases t.buf) [
  | inl e ↦ absurd (h e)
  | inr (b, e) ↦
      ap (λ o. rx_mapping t.dma_addr rx_buffer_size ∷ kfree o) e
      ∙ sym (
          ap
            (λ o. elim o [
              | none ↦ []
              | some x ↦ rx_mapping t.dma_addr rx_buffer_size ∷ rx_buffer x ∷ []
            ])
            e)
]

unwind-free :
    (i : ℕ) (m : Machine)
    → (rx_desc m.device.priv.rx_ring i).buf ≢ none
    → unwind_rx_buffer i m ≡ free_rx_buffer i m
unfolding unwind_rx_buffer free_rx_buffer
unwind-free i m h =
    ap
      (λ p. record m {
        device = record m.device {
          priv = record m.device.priv {
            rx_ring =
                set m.device.priv.rx_ring i (without_buffer (rx_desc m.device.priv.rx_ring i));
          };
        };
        released = m.released ++ p;
      })
      (unwound-parts (rx_desc m.device.priv.rx_ring i) h)

-- The error path goes down from `i` and leaves no buffer behind.
pub unwind-Ring :
    (i : ℕ) (m0 m : Machine) (rest : List Resource)
    → i ≤ rx_ring_size
    → Ring m0 m rest
    → Present m.device.priv.rx_ring i
    → Cleared m.device.priv.rx_ring i rx_ring_size
    → let m' = unwind_rx_buffers i m in
      Ring m0 m' rest × Cleared m'.device.priv.rx_ring 0 rx_ring_size
unfolding unwind_rx_buffers free_rx_buffer
unwind-Ring zero m0 m rest l r p c = (r, c)
unwind-Ring (suc i) m0 m rest l r p c =
    let ring = m.device.priv.rx_ring in
    let v = without_buffer (rx_desc ring i) in
    subst
      (λ n.
        Ring m0 (unwind_rx_buffers i n) rest
        × Cleared (unwind_rx_buffers i n).device.priv.rx_ring 0 rx_ring_size)
      (sym (unwind-free i m (p.present i (omega arith))))
      (unwind-Ring i m0 (free_rx_buffer i m) rest (omega arith)
        (free-Ring i m0 m rest (omega arith) r)
        (record {
          present = λ j hj.
              rw (get_or-set_ne ring i j v zero_rx_desc (omega (arith, hj)))
                (p.present j (omega (arith, hj)));
        })
        (set-Cleared ring i (suc i) rx_ring_size v (omega (arith, l, r.whole)) refl c i rx_ring_size
          (λ j a b away. (omega (arith, a, away), b))))

-- `my_free_rx_buffers` goes up, to the same end.
pub free_loop-Ring :
    (left i : ℕ) (m0 m : Machine) (rest : List Resource)
    → left + i ≡ rx_ring_size
    → Ring m0 m rest
    → Cleared m.device.priv.rx_ring 0 i
    → let m' = free_rx_loop left i m in
      Ring m0 m' rest × Cleared m'.device.priv.rx_ring 0 rx_ring_size
unfolding free_rx_loop free_rx_buffer
free_loop-Ring zero i m0 m rest e r c =
    let e' : i ≡ rx_ring_size = omega arith in
    (r, subst (λ n. Cleared m.device.priv.rx_ring 0 n) e' c)
free_loop-Ring (suc left) i m0 m rest e r c =
    free_loop-Ring left (suc i) m0 (free_rx_buffer i m) rest (omega arith)
      (free-Ring i m0 m rest (omega (arith, e)) r)
      (set-Cleared m.device.priv.rx_ring i 0 i (without_buffer (rx_desc m.device.priv.rx_ring i))
        (omega (arith, e, r.whole)) refl c 0 (suc i) (λ j p q away. (p, omega (arith, q, away))))
