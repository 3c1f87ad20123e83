-- ===== src/Edunic/Hw.antt =====
-- linux_nic_lab/driver/nic_hw.c and nic_main.c: registers, the emulated chip, and the interface
-- going up and down.
pub mod Mac
use linux_network_lab.Base.{
  ℕ, zero, suc, ◌+◌, ◌/◌, ◌%◌, ◌^◌, Bool, true, false, not, ◌&&◌, List, Option, none, some, ◌==◌,
  take, if◌then◌else◌,
}
use linux_network_lab.Edunic.Adapter.{
  edunic_ring_size, edunic_next, update, Skb, EdunicTxDesc, EdunicBuf, zero_buf, EdunicTxRing,
  EdunicRxRing, Causes, no_causes, EdunicRegs, EdunicAdapter,
}
use linux_network_lab.Edunic.Tx.{netif_stop_queue}
use linux_network_lab.Edunic.Rx.{frame_of, edunic_hw_deliver_rx_frame}
use linux_network_lab.Edunic.Irq.{
  edunic_intr, edunic_setup_interrupts, edunic_free_interrupts, edunic_napi_enable,
  edunic_napi_disable,
}

unfoldable pub edunic_hw_init_rings : EdunicAdapter → EdunicAdapter
edunic_hw_init_rings a = record a {
  regs = record a.regs {
    tdbal = a.tx_ring.dma % 2 ^ 32;
    tdbah = a.tx_ring.dma / 2 ^ 32;
    tdlen = edunic_ring_size;
    tdh = 0;
    tdt = 0;
    rdbal = a.rx_ring.dma % 2 ^ 32;
    rdbah = a.rx_ring.dma / 2 ^ 32;
    rdlen = edunic_ring_size;
    rdh = 0;
    rdt = 0;
  };
}

unfoldable pub edunic_hw_start : EdunicAdapter → EdunicAdapter
edunic_hw_start a = record a {
  regs = record a.regs {
    ims = record { tx = true; rx = true; lsc = true };
    txen = true;
    rxen = true;
  };
  timer_armed = true;
}

unfoldable pub edunic_hw_stop : EdunicAdapter → EdunicAdapter
edunic_hw_stop a = record a { regs = record a.regs { ims = no_causes; txen = false; rxen = false } }

-- The frame of a descriptor goes back to the receive ring, unless it is empty, not mapped, or there
-- is no memory for the copy.
unfoldable pub loop_back : Bool → ℕ → EdunicAdapter → EdunicAdapter
loop_back allocated head a =
    let desc = a.tx_ring.desc head in
    let buf = a.tx_ring.buf head in
    if (not (buf.dma == 0) && not (desc.length == 0)) && allocated
    then edunic_hw_deliver_rx_frame (frame_of desc.length buf.skb) a
    else a

unfoldable pub send_one : Bool → ℕ → EdunicAdapter → EdunicAdapter
send_one allocated head a =
    let b = loop_back allocated head a in
    record b {
      tx_ring = record b.tx_ring {
        desc = update b.tx_ring.desc head (record (b.tx_ring.desc head) { finished = true });
      };
    }

-- TDH, the cause, and the handler, which is called as a function.
unfoldable pub finish_work : Bool → ℕ → EdunicAdapter → EdunicAdapter
finish_work prep head a =
    (edunic_intr prep
      (record a { regs = record a.regs { tdh = head; icr = record a.regs.icr { tx = true } } })).1

-- `allocated` gives the answer of `kmalloc` for a place of the ring. As many rounds as the ring has
-- places are enough.
unfoldable pub send_loop : ℕ → (ℕ → Bool) → ℕ → ℕ → Bool → EdunicAdapter → ℕ × Bool × EdunicAdapter
send_loop zero allocated head tail sent a = (head, sent, a)
send_loop (suc rounds) allocated head tail sent a = elim (head == tail) [
  | true ↦ (head, sent, a)
  | false ↦
      send_loop rounds allocated (edunic_next head) tail true (send_one (allocated head) head a)
]

-- The work item leaves the queue before it runs.
abbrev pub take_work : EdunicAdapter → EdunicAdapter
take_work a = record a { work_queued = false }

unfoldable pub edunic_hw_tx_worker : (ℕ → Bool) → Bool → EdunicAdapter → EdunicAdapter
edunic_hw_tx_worker allocated prep a =
    let (head, sent, b) =
      send_loop edunic_ring_size allocated a.regs.tdh a.regs.tdt false (take_work a) in
    if sent then finish_work prep head b else b

unfoldable pub edunic_link_timer_fn : Bool → EdunicAdapter → EdunicAdapter
edunic_link_timer_fn prep a =
    (edunic_intr prep (record a {
      timer_armed = false;
      link_up = true;
      regs = record a.regs { linkup = true; icr = record a.regs.icr { lsc = true } };
    })).1

abbrev netif_start_queue : EdunicAdapter → EdunicAdapter
netif_start_queue a = record a { queue_stopped = false }

unfoldable pub edunic_open : Bool → Bool → EdunicAdapter → Bool × EdunicAdapter
edunic_open allocated requested a =
    let (ok, b) = edunic_setup_interrupts allocated requested (edunic_napi_enable a) in
    if not ok then (false, edunic_napi_disable b) else (true, netif_start_queue (edunic_hw_start b))

unfoldable pub edunic_stop : EdunicAdapter → EdunicAdapter
edunic_stop a =
    record (edunic_napi_disable (edunic_free_interrupts (edunic_hw_stop (netif_stop_queue a)))) {
      carrier = false;
    }
