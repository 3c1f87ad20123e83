-- ===== src/Edunic/Rx.antt =====
-- linux_nic_lab/driver/nic_rx.c: buffers for reception, frames written by the chip, and frames
-- handed to the stack.
pub mod Ready
pub mod Refilled
pub mod Harvest
pub mod Frames
use linux_network_lab.Base.{
  ℕ, zero, suc, ◌+◌, ◌%◌, ◌^◌, min, Bool, true, false, not, List, [], ◌∷◌, ◌++◌, Option, none, some,
  take, drop, ltb, ◌==◌, if◌then◌else◌,
}
use linux_network_lab.Base
use linux_network_lab.NetDevice.Tx.{DmaAnswer}
use linux_network_lab.Edunic.Adapter.{
  edunic_ring_size, edunic_next, edunic_rx_buf_size, add_u64, update, Skb, EdunicRxDesc, EdunicBuf,
  EdunicRxRing, EdunicStats, Causes, EdunicRegs, EdunicAdapter,
}
use linux_network_lab.Edunic.Tx.{skb_list}

-- What `netdev_alloc_skb_ip_align` returns, an skb by its number or NULL, and then
-- `dma_map_single`.
pub record Refill : Type 0 where
  pub fresh : Option ℕ
  pub mapping : DmaAnswer

-- The loop of `edunic_alloc_rx_buffers` with its locals `i` and `posted`.
pub record Posting : Type 0 where
  pub adapter : EdunicAdapter
  pub place : ℕ
  pub posted : ℕ

abbrev pub empty_skb : ℕ → Skb
empty_skb id = record { id = id; bytes = [] }

unfoldable pub post_buffer : ℕ → ℕ → Posting → Posting
post_buffer id address s = record {
  adapter = record s.adapter {
    rx_ring = record s.adapter.rx_ring {
      buf =
          update s.adapter.rx_ring.buf s.place
            (record { skb = some (empty_skb id); dma = address; len = edunic_rx_buf_size });
      desc = update s.adapter.rx_ring.desc s.place (record {
        buffer_addr = address;
        length = 0;
        finished = false;
        eop = false;
        csum_valid = false;
        rxe = false;
      });
    };
  };
  place = edunic_next s.place;
  posted = s.posted + 1;
}

abbrev pub free_unmapped : ℕ → Posting → Posting
free_unmapped id s = record s {
  adapter = record s.adapter { freed = s.adapter.freed ++ empty_skb id ∷ [] };
}

-- No more answers stand for an allocation that fails.
unfoldable pub post_loop : ℕ → List Refill → Posting → Posting
post_loop zero answers s = s
post_loop (suc count) [] s = s
post_loop (suc count) (r ∷ answers) s = elim r.fresh [
  | none ↦ s
  | some id ↦ elim r.mapping.mapped [
    | false ↦ free_unmapped id s
    | true ↦ post_loop count answers (post_buffer id r.mapping.address s)
  ]
]

abbrev pub ring_doorbell : Posting → EdunicAdapter
ring_doorbell s = record s.adapter {
  rx_ring = record s.adapter.rx_ring { next_to_use = s.place };
  regs = record s.adapter.regs { rdt = s.place };
}

unfoldable pub edunic_alloc_rx_buffers : ℕ → List Refill → EdunicAdapter → ℕ × EdunicAdapter
edunic_alloc_rx_buffers count answers a =
    let s =
      post_loop count answers (record { adapter = a; place = a.rx_ring.next_to_use; posted = 0 }) in
    (s.posted, if s.posted == 0 then s.adapter else ring_doorbell s)

-- The frame of an skb after `skb_put`.
abbrev pub frame_of : ℕ → Option Skb → List ℕ
frame_of len none = []
frame_of len (some skb) = take len skb.bytes

-- What an error descriptor, or else a good one, does with its skb.
unfoldable pub hand_over : EdunicRxDesc → Option Skb → EdunicAdapter → EdunicAdapter
hand_over desc skb a =
    if desc.rxe
    then record a {
      freed = a.freed ++ skb_list skb;
      stats = record a.stats { rx_errors = add_u64 a.stats.rx_errors 1 };
    }
    else record a {
      gro = a.gro ++ (frame_of desc.length skb, desc.csum_valid) ∷ [];
      stats = record a.stats {
        rx_packets = add_u64 a.stats.rx_packets 1;
        rx_bytes = add_u64 a.stats.rx_bytes desc.length;
      };
    }

unfoldable pub harvest_one : EdunicAdapter → EdunicAdapter
harvest_one a =
    let i = a.rx_ring.next_to_clean in
    hand_over (a.rx_ring.desc i) (a.rx_ring.buf i).skb (record a {
      rx_ring = record a.rx_ring {
        buf = update a.rx_ring.buf i (record (a.rx_ring.buf i) { skb = none; dma = 0 });
        desc = update a.rx_ring.desc i (record (a.rx_ring.desc i) {
          finished = false;
          eop = false;
          csum_valid = false;
          rxe = false;
        });
        next_to_clean = edunic_next i;
      };
    })

-- The frames harvested, `work_done` and `cleaned_count` alike, and the adapter.
unfoldable pub harvest_loop : ℕ → ℕ → EdunicAdapter → ℕ × EdunicAdapter
harvest_loop zero done a = (done, a)
harvest_loop (suc budget) done a = elim (a.rx_ring.desc a.rx_ring.next_to_clean).finished [
  | true ↦ harvest_loop budget (done + 1) (harvest_one a)
  | false ↦ (done, a)
]

-- `cleaned_count` has 16 bits, which a budget of NAPI's does not exceed.
unfoldable pub edunic_clean_rx_irq : ℕ → List Refill → EdunicAdapter → ℕ × EdunicAdapter
edunic_clean_rx_irq budget answers a =
    let (done, b) = harvest_loop budget 0 a in
    (done, if done == 0 then b else (edunic_alloc_rx_buffers (done % 2 ^ 16) answers b).1)

-- `memcpy` to the first bytes of an skb.
abbrev pub copy_in : List ℕ → ℕ → Skb → Skb
copy_in frame len skb = record skb { bytes = take len frame ++ drop len skb.bytes }

abbrev pub fill_buf : List ℕ → ℕ → EdunicBuf → EdunicBuf
fill_buf frame len b = record b {
  skb = elim b.skb [ none ↦ none | some skb ↦ some (copy_in frame len skb) ];
}

-- The frame is written at the chip's position `head`.
unfoldable pub write_frame : List ℕ → EdunicAdapter → EdunicAdapter
write_frame frame a =
    let head = a.regs.rdh in
    let len = min (Base.length frame) (a.rx_ring.buf head).len in
    record a {
      rx_ring = record a.rx_ring {
        buf = update a.rx_ring.buf head (fill_buf frame len (a.rx_ring.buf head));
        desc = update a.rx_ring.desc head (record (a.rx_ring.desc head) {
          length = len % 2 ^ 16;
          rxe = false;
          finished = true;
          eop = true;
          csum_valid = true;
        });
      };
      regs = record a.regs { rdh = edunic_next head; icr = record a.regs.icr { rx = true } };
    }

unfoldable pub edunic_hw_deliver_rx_frame : List ℕ → EdunicAdapter → EdunicAdapter
edunic_hw_deliver_rx_frame frame a =
    if a.regs.rdh == a.regs.rdt
    then record a { stats = record a.stats { rx_dropped = add_u64 a.stats.rx_dropped 1 } }
    else write_frame frame a
