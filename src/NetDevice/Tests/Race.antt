-- ===== src/NetDevice/Tests/Race.antt =====
-- net_device/simple_netdev.c: a full transmit ring whose skbs the NIC has sent.
use linux_network_lab.Base.{
  ℕ, zero, suc, ◌+◌, ◌%◌, ◌<◌, ◌≡◌, refl, sym, ap, ◌∙◌, true, false, List, [], some, arith, length,
  get_elem?, set, length-set, replicate, length-replicate, get_or-replicate, get_or-set_ne,
  get_or-set_self,
}
use linux_network_lab.NetDevice.Device.{tx_ring_size, TxDesc, zero_tx_desc, Device, tx_desc}
use linux_network_lab.NetDevice.Tx.{tx_ring_full, stop_queue, tx_clean}
use linux_network_lab.NetDevice.Tx.Queue.{Holds}
use linux_network_lab.NetDevice.Tx.Clean.{completed}
use linux_network_lab.NetDevice.Tx.Race.{tx_clean_race}
use linux_network_lab.NetDevice.Tests.{ready_device}

abbrev sent_desc : TxDesc
sent_desc = record { skb = some 5; dma_addr = 9000; len = 60; owned_by_hw = false; finished = true }

abbrev full_ring : List TxDesc
full_ring = set (replicate tx_ring_size sent_desc) 63 zero_tx_desc

abbrev full_device : Device
full_device = record ready_device {
  priv = record ready_device.priv { tx_ring = full_ring; tx_head = 63; tx_clean = 0 };
}

abbrev a_skb : ℕ
a_skb = 5

abbrev skb_queue : List ℕ
skb_queue = replicate 63 a_skb

get_elem?-replicate : (n k a : ℕ) → k < n → get_elem? (replicate n a) k ≡ some a
get_elem?-replicate zero k a h = elim h [ ]
get_elem?-replicate (suc n) zero a h = refl
get_elem?-replicate (suc n) (suc k) a h = get_elem?-replicate n k a (omega arith)

length-skb_queue : length skb_queue ≡ 63
length-skb_queue = length-replicate 63 a_skb

full-Holds : Holds full_device.priv skb_queue
full-Holds = record {
  whole =
      length-set (replicate tx_ring_size sent_desc) 63 zero_tx_desc
      ∙ length-replicate tx_ring_size sent_desc;
  clean_in = omega arith;
  room = omega (arith, length-skb_queue);
  head_at = omega (arith, length-skb_queue);
  held = λ k hk.
      let l : k < 63 = omega (arith, hk, length-skb_queue) in
      let i : (0 + k) % tx_ring_size ≡ k = omega (arith, l) in
      ap (λ j. (tx_desc full_ring j).skb) i
      ∙ ap (λ t. t.skb)
          (get_or-set_ne (replicate tx_ring_size sent_desc) 63 k zero_tx_desc zero_tx_desc
              (omega (arith, l))
            ∙ get_or-replicate tx_ring_size k sent_desc zero_tx_desc (omega (arith, l)))
      ∙ sym (get_elem?-replicate 63 k a_skb l);
  vacant = λ i hi far.
      let e : i ≡ 63 = omega (arith, hi, far, length-skb_queue) in
      ap (λ j. (tx_desc full_ring j).skb) e
      ∙ ap (λ t. t.skb)
          (get_or-set_self (replicate tx_ring_size sent_desc) 63 zero_tx_desc zero_tx_desc
            (omega (arith, length-replicate tx_ring_size sent_desc)));
}

all_completed : completed full_ring 0 skb_queue ≡ 63
unfolding completed
all_completed = refl

ring_is_full : tx_ring_full full_device.priv ≡ true
unfolding tx_ring_full
ring_is_full = refl

tx_clean_race_example :
    let d' = stop_queue (tx_clean full_device) in
    (d'.queue_stopped ≡ true) × Holds d'.priv [] × (tx_ring_full d'.priv ≡ false)
tx_clean_race_example = tx_clean_race full_device skb_queue full-Holds ring_is_full all_completed
