-- ===== src/Edunic/Tests/Receive.antt =====
-- linux_nic_lab/driver/nic_rx.c at concrete inputs.
use linux_network_lab.Base.{ℕ, ◌+◌, ◌≤◌, ◌≡◌, refl, true, List, [], ◌∷◌, ◌++◌, some, arith, length}
use linux_network_lab.Edunic.Adapter.{
  edunic_rx_buf_size, update, update_self, EdunicBuf, EdunicAdapter,
}
use linux_network_lab.Edunic.Pci.{fresh_rx_ring}
use linux_network_lab.Edunic.Rx.{
  write_frame, edunic_hw_deliver_rx_frame, edunic_clean_rx_irq, harvest_loop, harvest_one,
  hand_over, edunic_alloc_rx_buffers, post_loop,
}
use linux_network_lab.Edunic.Rx.Ready.{Ready}
use linux_network_lab.Edunic.Rx.Harvest.{verified}
use linux_network_lab.Edunic.Rx.Frames.{RxTurn, frame_in, poll_rx, rx_turns, rx_turns_lem, deaf_lem}
use linux_network_lab.Edunic.Tests.{zero_regs, blank_adapter, mapped}

abbrev buffer_0 : EdunicBuf
buffer_0 = record {
  skb = some (record { id = 100; bytes = [] });
  dma = 9000;
  len = edunic_rx_buf_size;
}

-- One buffer is posted.
abbrev one_buffer : EdunicAdapter
one_buffer = record blank_adapter {
  rx_ring = record (fresh_rx_ring 8192) {
    buf = update (fresh_rx_ring 8192).buf 0 buffer_0;
    next_to_use = 1;
  };
  regs = record zero_regs { rdt = 1 };
}

one_buffer-Ready : Ready one_buffer [] 1
one_buffer-Ready = record {
  use_at = refl;
  ring = record {
    clean_in = omega arith;
    fits = omega arith;
    rdh_at = omega arith;
    stop_at = omega arith;
    filled = λ i k hk e. absurd (omega (arith, hk));
    waits = λ i k hd hk e. refl;
    posted = λ i k hd hk e.
        rw (update_self (fresh_rx_ring 8192).buf 0 buffer_0 i (omega (arith, e, hk)))
          (record { skb = record { id = 100; bytes = [] }; holds = refl; room = refl });
  };
}

-- Two frames come in; the first is handed over, and no skb can be allocated in its place.
abbrev two_frames : List RxTurn
two_frames = frame_in (1 ∷ 2 ∷ []) ∷ frame_in (3 ∷ []) ∷ poll_rx 64 [] ∷ []

rx_turns_lem_example :
    let (b, accepted) = rx_turns two_frames (one_buffer, []) in
    (fs : List (List ℕ)) × (buffers : ℕ) × Ready b fs buffers
    × ([] ++ verified accepted ≡ b.gro ++ verified fs)
    × (length fs + buffers ≤ 1)
rx_turns_lem_example = rx_turns_lem two_frames one_buffer 1 one_buffer-Ready

first_received : (rx_turns two_frames (one_buffer, [])).0.gro ≡ (1 ∷ 2 ∷ [], true) ∷ []
unfolding rx_turns edunic_hw_deliver_rx_frame write_frame edunic_clean_rx_irq harvest_loop
    harvest_one hand_over edunic_alloc_rx_buffers post_loop
first_received = refl

no_buffer-Ready : Ready blank_adapter [] 0
no_buffer-Ready = record {
  use_at = refl;
  ring = record {
    clean_in = omega arith;
    fits = omega arith;
    rdh_at = omega arith;
    stop_at = omega arith;
    filled = λ i k hk e. absurd (omega (arith, hk));
    waits = λ i k hd hk e. refl;
    posted = λ i k hd hk e. absurd (omega (arith, hd, hk));
  };
}

-- The later poll would find memory.
abbrev late_memory : List RxTurn
late_memory =
    frame_in (1 ∷ 2 ∷ [])
    ∷ poll_rx 64 (record { fresh = some 101; mapping = mapped } ∷ [])
    ∷ frame_in (3 ∷ [])
    ∷ []

deaf_lem_example :
    let (b, accepted) = rx_turns late_memory (blank_adapter, []) in
    (accepted ≡ []) × (b.gro ≡ []) × (b.regs.rdh ≡ b.regs.rdt)
deaf_lem_example = deaf_lem late_memory blank_adapter no_buffer-Ready
