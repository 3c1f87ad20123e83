-- ===== src/Edunic/Machine/Flight.antt =====
-- linux_nic_lab/driver/nic_tx.c: the transmit ring as a queue, its oldest part sent.
use linux_network_lab.Base.{
  ℕ, zero, suc, ◌+◌, ◌-◌, ◌%◌, ◌≤◌, ◌<◌, ◌≡◌, refl, sym, ap, ◌∙◌, inl, inr, true, false, not, ◌&&◌,
  List, [], ◌∷◌, ◌++◌, some, arith, length, get_elem?, length-append, get_elem?-append_old,
  get_elem?-append_last, leb, ◌==◌, Bool-cases, if◌then◌else◌, ◌↔◌,
}
use linux_network_lab.Base
use native.Mathlib.Decide.{dec_lt}
use linux_network_lab.Edunic.Adapter.{
  edunic_ring_size, edunic_next, update, update_self, update_ne, Skb, EdunicTxRing, EdunicAdapter,
}
use linux_network_lab.Edunic.Tx.{
  edunic_tx_unused, tx_has_room, desc_per_pkt, post_skb, may_reclaim, reclaim_one, skb_list,
}

-- The ring holds the skbs `q` from `next_to_clean` on; the chip stands at `h`, and has sent the
-- first `d` of them.
pub record Flight (r : EdunicTxRing) (h : ℕ) (q : List Skb) (d : ℕ) : Type 0 where
  pub clean_in : r.next_to_clean < edunic_ring_size
  pub fits : length q < edunic_ring_size
  pub use_at : r.next_to_use ≡ (r.next_to_clean + length q) % edunic_ring_size
  pub head_at : h ≡ (r.next_to_clean + d) % edunic_ring_size
  pub sent : d ≤ length q
  pub done :
      (i k : ℕ) → k < d → i ≡ (r.next_to_clean + k) % edunic_ring_size → (r.desc i).finished ≡ true
  pub waits :
      (i k : ℕ)
      → d ≤ k
      → k < length q
      → i ≡ (r.next_to_clean + k) % edunic_ring_size
      → (r.desc i).finished ≡ false
  pub held :
      (i k : ℕ)
      → k < length q
      → i ≡ (r.next_to_clean + k) % edunic_ring_size
      → (r.buf i).skb ≡ get_elem? q k

module _ (a : EdunicAdapter) {h d : ℕ} {q : List Skb} (f : Flight a.tx_ring h q d) where
  -- There is room up to 255 skbs.
  pub room_iff : (tx_has_room desc_per_pkt a ≡ true) ↔ (length q < 255)
  unfolding edunic_tx_unused
  room_iff =
      let u : edunic_tx_unused a.tx_ring ≡ 255 - length q =
        omega (arith, f.clean_in, f.fits, f.use_at) in
      rw u (ground arith)

  pub post_skb-Flight :
      (skb : Skb) (address : ℕ)
      → length q < 255
      → Flight (post_skb skb address a).tx_ring h (q ++ skb ∷ []) d
  unfolding post_skb
  post_skb-Flight skb address l =
      let n = length-append q (skb ∷ []) in
      record {
        clean_in = f.clean_in;
        fits = omega (arith, l, n);
        use_at = omega (arith, n, f.use_at);
        head_at = f.head_at;
        sent = omega (arith, n, f.sent);
        done = λ i k hk e.
            ap (λ x. x.finished)
              (update_ne a.tx_ring.desc _ _ i
                (λ z. omega (arith, z, e, hk, f.use_at, f.sent, f.fits)))
            ∙ f.done i k hk e;
        waits = λ i k hd hk e. elim (dec_lt k (length q)) [
          | yes old ↦
              ap (λ x. x.finished)
                (update_ne a.tx_ring.desc _ _ i (λ z. omega (arith, z, e, old, f.use_at, f.fits)))
              ∙ f.waits i k hd old e
          | no new ↦
              ap (λ x. x.finished)
                (update_self a.tx_ring.desc _ _ i (omega (arith, e, n, hk, new, f.use_at)))
        ];
        held = λ i k hk e. elim (dec_lt k (length q)) [
          | yes old ↦
              ap (λ x. x.skb)
                (update_ne a.tx_ring.buf _ _ i (λ z. omega (arith, z, e, old, f.use_at, f.fits)))
              ∙ f.held i k old e
              ∙ sym (get_elem?-append_old q (skb ∷ []) k old)
          | no new ↦
              ap (λ x. x.skb)
                (update_self a.tx_ring.buf _ _ i (omega (arith, e, n, hk, new, f.use_at)))
              ∙ sym (get_elem?-append_last q skb k (omega (arith, n, hk, new)))
        ];
      }

abbrev pub marked : ℕ → EdunicTxRing → EdunicTxRing
marked i r = record r { desc = update r.desc i (record (r.desc i) { finished = true }) }

-- The chip has sent one more.
pub marked-Flight :
    {r : EdunicTxRing} {h d : ℕ} {q : List Skb}
    → Flight r h q d
    → d < length q
    → Flight (marked h r) (edunic_next h) q (suc d)
marked-Flight {r} {h} {d} {q} f l = record {
  clean_in = f.clean_in;
  fits = f.fits;
  use_at = f.use_at;
  head_at = omega (arith, f.head_at);
  sent = l;
  done = λ i k hk e. elim (dec_lt k d) [
    | yes old ↦
        ap (λ x. x.finished)
          (update_ne r.desc h _ i (λ z. omega (arith, z, e, old, f.head_at, l, f.fits)))
        ∙ f.done i k old e
    | no new ↦
        ap (λ x. x.finished) (update_self r.desc h _ i (omega (arith, e, hk, new, f.head_at)))
  ];
  waits = λ i k hd hk e.
      ap (λ x. x.finished)
        (update_ne r.desc h _ i (λ z. omega (arith, z, e, hd, hk, f.head_at, f.fits)))
      ∙ f.waits i k (omega (arith, hd)) hk e;
  held = f.held;
}

pub may_reclaim-none :
    {r : EdunicTxRing} {h : ℕ} {q : List Skb} → Flight r h q 0 → may_reclaim r ≡ false
unfolding may_reclaim
may_reclaim-none {r} {h} {q = []} f =
    let e : (r.next_to_clean == r.next_to_use) ≡ true =
      (Base.==_iff _ _).1 (omega (arith, f.use_at, f.clean_in)) in
    rw e refl
may_reclaim-none {r} {h} {q = x ∷ q} f =
    rw (f.waits r.next_to_clean 0 (omega arith) (omega arith) (omega (arith, f.clean_in)))
      (ground arith)

pub may_reclaim-some :
    {r : EdunicTxRing} {h d : ℕ} {q : List Skb} → Flight r h q (suc d) → may_reclaim r ≡ true
unfolding may_reclaim
may_reclaim-some {r} {h} {d} {q} f =
    let e : (r.next_to_clean == r.next_to_use) ≡ false =
      ground (arith, f.use_at, f.clean_in, f.fits, f.sent) in
    rw (e, f.done r.next_to_clean 0 (omega arith) (omega (arith, f.clean_in))) refl

module _ (a : EdunicAdapter) {h d : ℕ} {x : Skb} {q : List Skb}
    (f : Flight a.tx_ring h (x ∷ q) (suc d)) where
  pub oldest : skb_list (a.tx_ring.buf a.tx_ring.next_to_clean).skb ≡ x ∷ []
  oldest = ap skb_list (f.held _ 0 (omega arith) (omega (arith, f.clean_in)))

  pub reclaim_one-Flight : Flight (reclaim_one a).tx_ring h q d
  unfolding reclaim_one
  reclaim_one-Flight = record {
    clean_in = omega arith;
    fits = omega (arith, f.fits);
    use_at = omega (arith, f.use_at);
    head_at = omega (arith, f.head_at);
    sent = omega (arith, f.sent);
    done = λ i k hk e.
        ap (λ y. y.finished)
          (update_ne a.tx_ring.desc _ _ i
            (λ z. omega (arith, z, e, hk, f.clean_in, f.fits, f.sent)))
        ∙ f.done i (suc k) (omega (arith, hk)) (omega (arith, e));
    waits = λ i k hd hk e.
        ap (λ y. y.finished)
          (update_ne a.tx_ring.desc _ _ i (λ z. omega (arith, z, e, hk, f.clean_in, f.fits)))
        ∙ f.waits i (suc k) (omega (arith, hd)) (omega (arith, hk)) (omega (arith, e));
    held = λ i k hk e.
        ap (λ y. y.skb)
          (update_ne a.tx_ring.buf _ _ i (λ z. omega (arith, z, e, hk, f.clean_in, f.fits)))
        ∙ f.held i (suc k) (omega (arith, hk)) (omega (arith, e));
  }
