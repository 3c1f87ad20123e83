-- ===== src/Edunic/Rx/Ready.antt =====
-- linux_nic_lab/driver/nic_rx.c: the receive ring as frames that wait, and then empty buffers.
use linux_network_lab.Base.{
  ℕ, zero, suc, ◌+◌, ◌%◌, ◌^◌, ◌≤◌, ◌<◌, min, ◌≡◌, ◌≢◌, refl, ap, ◌∙◌, true, false, List, [], ◌∷◌,
  ◌++◌, Option, some, arith, length, take, drop, get_elem?, length-append, take-nil,
  get_elem?-append_old, get_elem?-append_last,
}
use native.Mathlib.Decide.{dec_lt}
use linux_network_lab.Edunic.Adapter.{
  edunic_ring_size, edunic_rx_buf_size, update_self, update_ne, Skb, EdunicRxDesc, EdunicBuf,
  EdunicRxRing, EdunicAdapter,
}
use linux_network_lab.Edunic.Rx.{frame_of, copy_in, fill_buf, write_frame}

-- A descriptor that holds a frame.
pub record Filled (t : EdunicRxDesc) (b : EdunicBuf) (o : Option (List ℕ)) : Type 0 where
  pub done : t.finished ≡ true
  pub good : t.rxe ≡ false
  pub checked : t.csum_valid ≡ true
  pub frame : some (frame_of t.length b.skb) ≡ o

-- An empty buffer.
pub record Posted (b : EdunicBuf) : Type 0 where
  pub skb : Skb
  pub holds : b.skb ≡ some skb
  pub room : b.len ≡ edunic_rx_buf_size

-- From `next_to_clean` on the ring holds the frames `fs`, then, from the chip's position `rdh` to
-- `stop`, `p` empty buffers.
pub record ReadyAt (r : EdunicRxRing) (rdh stop : ℕ) (fs : List (List ℕ)) (p : ℕ) : Type 0 where
  pub clean_in : r.next_to_clean < edunic_ring_size
  pub fits : length fs + p < edunic_ring_size
  pub rdh_at : rdh ≡ (r.next_to_clean + length fs) % edunic_ring_size
  pub stop_at : stop ≡ (r.next_to_clean + (length fs + p)) % edunic_ring_size
  pub filled :
      (i k : ℕ)
      → k < length fs
      → i ≡ (r.next_to_clean + k) % edunic_ring_size
      → Filled (r.desc i) (r.buf i) (get_elem? fs k)
  pub waits :
      (i k : ℕ)
      → length fs ≤ k
      → k < edunic_ring_size
      → i ≡ (r.next_to_clean + k) % edunic_ring_size
      → (r.desc i).finished ≡ false
  pub posted :
      (i k : ℕ)
      → length fs ≤ k
      → k < length fs + p
      → i ≡ (r.next_to_clean + k) % edunic_ring_size
      → Posted (r.buf i)

pub record Ready (a : EdunicAdapter) (fs : List (List ℕ)) (p : ℕ) : Type 0 where
  pub ring : ReadyAt a.rx_ring a.regs.rdh a.regs.rdt fs p
  pub use_at : a.rx_ring.next_to_use ≡ a.regs.rdt

-- What fits the buffer of a frame.
abbrev pub clamped : List ℕ → List ℕ
clamped frame = take edunic_rx_buf_size frame

take-min : (n : ℕ) (xs : List ℕ) → take (min (length xs) n) xs ≡ take n xs
take-min zero xs = let m : min (length xs) 0 ≡ 0 = omega arith in rw m refl
take-min (suc n) [] = take-nil (min (length {A = ℕ} []) (suc n))
take-min (suc n) (x ∷ xs) =
    let m : min (length (x ∷ xs)) (suc n) ≡ suc (min (length xs) n) = omega arith in
    rw m (ap (λ zs. x ∷ zs) (take-min n xs))

take_front : (n : ℕ) (xs ys : List ℕ) → n ≤ length xs → take n (take n xs ++ ys) ≡ take n xs
take_front zero xs ys h = refl
take_front (suc n) [] ys h = absurd (omega (arith, h))
take_front (suc n) (x ∷ xs) ys h = ap (λ zs. x ∷ zs) (take_front n xs ys (omega (arith, h)))

copied_frame :
    (frame : List ℕ) (skb : Skb)
    → let len = min (length frame) edunic_rx_buf_size in
      frame_of (len % 2 ^ 16) (some (copy_in frame len skb)) ≡ clamped frame
copied_frame frame skb =
    let len = min (length frame) edunic_rx_buf_size in
    let e : len % 2 ^ 16 ≡ len = omega arith in
    rw e
      (take_front len frame (drop len skb.bytes) (omega arith) ∙ take-min edunic_rx_buf_size frame)

module _ (a : EdunicAdapter) (fs : List (List ℕ)) (p : ℕ) (frame : List ℕ)
    (h : Ready a fs (suc p)) where
  filled_bytes :
      (b : EdunicBuf)
      → Posted b
      → some (
          frame_of
            (min (length frame) b.len % 2 ^ 16)
            (fill_buf frame (min (length frame) b.len) b).skb)
        ≡ some (clamped frame)
  filled_bytes b posted = rw (posted.holds, posted.room) (ap some (copied_frame frame posted.skb))

  written_Filled :
      (i : ℕ)
      → a.regs.rdh ≡ i
      → Filled
          ((write_frame frame a).rx_ring.desc i)
          ((write_frame frame a).rx_ring.buf i)
          (some (clamped frame))
  unfolding write_frame
  written_Filled i e =
      rw (update_self a.rx_ring.desc a.regs.rdh _ i e, update_self a.rx_ring.buf a.regs.rdh _ i e)
        (record {
          done = refl;
          good = refl;
          checked = refl;
          frame =
              filled_bytes (a.rx_ring.buf a.regs.rdh)
                (h.ring.posted a.regs.rdh (length fs) (omega arith) (omega arith) h.ring.rdh_at);
        })

  pub write_frame-Ready : Ready (write_frame frame a) (fs ++ clamped frame ∷ []) p
  unfolding write_frame
  write_frame-Ready =
      let n = length-append fs (clamped frame ∷ []) in
      let r = h.ring in
      record {
        use_at = h.use_at;
        ring = record {
          clean_in = r.clean_in;
          fits = omega (arith, r.fits, n);
          rdh_at = omega (arith, r.rdh_at, n);
          stop_at = omega (arith, r.stop_at, n);
          filled = λ i k hk e. elim (dec_lt k (length fs)) [
            | yes old ↦
                let ne : a.regs.rdh ≢ i = λ z. omega (arith, z, e, old, r.rdh_at, r.fits) in
                rw
                  (
                    update_ne a.rx_ring.desc a.regs.rdh _ i ne,
                    update_ne a.rx_ring.buf a.regs.rdh _ i ne,
                    get_elem?-append_old fs (clamped frame ∷ []) k old,
                  )
                  (r.filled i k old e)
            | no new ↦
                let at : k ≡ length fs = omega (arith, n, hk, new) in
                rw (get_elem?-append_last fs (clamped frame) k at)
                  (written_Filled i (omega (arith, e, at, r.rdh_at)))
          ];
          waits = λ i k hd hk e.
              ap (λ x. x.finished)
                (update_ne a.rx_ring.desc _ _ i
                  (λ z. omega (arith, z, e, hd, hk, n, r.rdh_at, r.fits)))
              ∙ r.waits i k (omega (arith, hd, n)) hk e;
          posted = λ i k hd hk e.
              rw
                (update_ne a.rx_ring.buf a.regs.rdh _ i
                  (λ z. omega (arith, z, e, hd, hk, n, r.rdh_at, r.fits)))
                (r.posted i k (omega (arith, hd, n)) (omega (arith, hk, n)) e);
        };
      }
