-- ===== src/Edunic/Machine/View.antt =====
-- linux_nic_lab/driver: what of an adapter the transmit path depends on, and that reception keeps
-- it.
use linux_network_lab.Base.{
  ℕ, zero, suc, ◌≡◌, refl, ◌∙◌, Bool, not, ◌&&◌, List, [], ◌∷◌, ◌==◌, inl, inr, Bool-cases,
  Option-cases,
}
use linux_network_lab.Edunic.Adapter.{Skb, EdunicTxRing, EdunicAdapter}
use linux_network_lab.Edunic.Rx.{
  Refill, Posting, post_loop, post_buffer, edunic_alloc_rx_buffers, hand_over, harvest_one,
  harvest_loop, edunic_clean_rx_irq, write_frame, edunic_hw_deliver_rx_frame,
}
use linux_network_lab.Edunic.Hw.{loop_back}

pub record View : Type 0 where
  pub ring : EdunicTxRing
  pub tdh : ℕ
  pub tdt : ℕ
  pub queued : Bool
  pub stopped : Bool
  pub scheduled : Bool
  pub missed : Bool
  pub consumed : List Skb

abbrev pub view : EdunicAdapter → View
view a = record {
  ring = a.tx_ring;
  tdh = a.regs.tdh;
  tdt = a.regs.tdt;
  queued = a.work_queued;
  stopped = a.queue_stopped;
  scheduled = a.napi_scheduled;
  missed = a.napi_missed;
  consumed = a.consumed;
}

view-post_loop :
    (count : ℕ) (answers : List Refill) (s : Posting)
    → view (post_loop count answers s).adapter ≡ view s.adapter
unfolding post_loop post_buffer
view-post_loop zero answers s = refl
view-post_loop (suc count) [] s = refl
view-post_loop (suc count) (r ∷ answers) s = elim (Option-cases r.fresh) [
  | inl e ↦ rw (e, post_loop) refl
  | inr (id, e) ↦ elim (Bool-cases r.mapping.mapped) [
    | inl ok ↦
        rw (e, ok, post_loop) (view-post_loop count answers (post_buffer id r.mapping.address s))
    | inr failed ↦ rw (e, failed, post_loop) refl
  ]
]

view-alloc_rx_buffers :
    (count : ℕ) (answers : List Refill) (a : EdunicAdapter)
    → view (edunic_alloc_rx_buffers count answers a).1 ≡ view a
unfolding edunic_alloc_rx_buffers
view-alloc_rx_buffers count answers a =
    let s =
      post_loop count answers (record { adapter = a; place = a.rx_ring.next_to_use; posted = 0 }) in
    elim (Bool-cases (s.posted == 0)) [
      | inl e ↦ rw e (view-post_loop count answers _)
      | inr e ↦ rw e (view-post_loop count answers _)
    ]

view-harvest_one : (a : EdunicAdapter) → view (harvest_one a) ≡ view a
unfolding harvest_one hand_over
view-harvest_one a = elim (Bool-cases (a.rx_ring.desc a.rx_ring.next_to_clean).rxe) [
  | inl e ↦ rw e refl
  | inr e ↦ rw e refl
]

view-harvest_loop :
    (budget done : ℕ) (a : EdunicAdapter) → view (harvest_loop budget done a).1 ≡ view a
unfolding harvest_loop
view-harvest_loop zero done a = refl
view-harvest_loop (suc budget) done a =
    elim (Bool-cases (a.rx_ring.desc a.rx_ring.next_to_clean).finished) [
      | inl e ↦
          rw (e, harvest_loop) (view-harvest_loop budget _ (harvest_one a) ∙ view-harvest_one a)
      | inr e ↦ rw (e, harvest_loop) refl
    ]

pub view-clean_rx_irq :
    (budget : ℕ) (answers : List Refill) (a : EdunicAdapter)
    → view (edunic_clean_rx_irq budget answers a).1 ≡ view a
unfolding edunic_clean_rx_irq
view-clean_rx_irq budget answers a = elim (Bool-cases ((harvest_loop budget 0 a).0 == 0)) [
  | inl e ↦ rw e (view-harvest_loop budget 0 a)
  | inr e ↦ rw e (view-alloc_rx_buffers _ answers _ ∙ view-harvest_loop budget 0 a)
]

view-deliver :
    (frame : List ℕ) (a : EdunicAdapter) → view (edunic_hw_deliver_rx_frame frame a) ≡ view a
unfolding edunic_hw_deliver_rx_frame write_frame
view-deliver frame a = elim (Bool-cases (a.regs.rdh == a.regs.rdt)) [
  | inl e ↦ rw e refl
  | inr e ↦ rw e refl
]

pub view-loop_back :
    (allocated : Bool) (head : ℕ) (a : EdunicAdapter) → view (loop_back allocated head a) ≡ view a
unfolding loop_back
view-loop_back allocated head a =
    elim (Bool-cases (
      (not ((a.tx_ring.buf head).dma == 0) && not ((a.tx_ring.desc head).length == 0))
      && allocated)) [ inl e ↦ rw e (view-deliver _ a) | inr e ↦ rw e refl ]
