-- ===== src/NetDevice/Setup/Balance.antt =====
-- net_device/simple_netdev.c: the receive buffers are taken and given back in pairs with their
-- mappings.
use mathlib.Core.List.{Perm, perm_append_comm}
use mathlib.Core.List.Perm
use linux_network_lab.Base.{
  ℕ, zero, suc, ◌<◌, ◌≡◌, sym, ap, subst, inl, inr, true, false, List, [], ◌∷◌, ◌++◌, append_assoc,
  Option, none, some, arith, length, set, Bool-cases,
}
use linux_network_lab.NetDevice.Device.{rx_buffer_size, RxDesc, rx_desc}
use linux_network_lab.NetDevice.Tx.{DmaAnswer}
use linux_network_lab.NetDevice.Setup.{
  Resource, rx_buffer, rx_mapping, Machine, acquire, release, take_rx_buffer, buffer_parts,
  without_buffer, free_rx_buffer,
}

unfoldable pub ring_parts : List RxDesc → List Resource
ring_parts [] = []
ring_parts (t ∷ ring) = buffer_parts t ++ ring_parts ring

-- What was taken is what was given back, what the receive ring holds, and the rest.
unfoldable pub Balanced : Machine → List Resource → Type 0
Balanced m rest = Perm m.acquired (m.released ++ (ring_parts m.device.priv.rx_ring ++ rest))

parts-set :
    (ring : List RxDesc) (i : ℕ) (v : RxDesc)
    → i < length ring
    → Perm
        (buffer_parts v ++ ring_parts ring)
        (buffer_parts (rx_desc ring i) ++ ring_parts (set ring i v))
unfolding ring_parts
parts-set [] i v l = elim l [ ]
parts-set (t ∷ ring) zero v l =
    let a = buffer_parts v in
    let b = buffer_parts t in
    let r = ring_parts ring in
    rw (sym (append_assoc a b r), sym (append_assoc b a r))
      (Perm.append_right r (perm_append_comm a b))
parts-set (t ∷ ring) (suc i) v l =
    let a = buffer_parts v in
    let b = buffer_parts (rx_desc ring i) in
    let c = buffer_parts t in
    let r = ring_parts ring in
    let s = ring_parts (set ring i v) in
    Perm.trans
      (rw (sym (append_assoc a c r), sym (append_assoc c a r))
        (Perm.append_right r (perm_append_comm a c)))
      (Perm.trans (Perm.append_left c (parts-set ring i v (omega arith))) (
        rw (sym (append_assoc c b s), sym (append_assoc b c s))
          (Perm.append_right s (perm_append_comm c b))))

pub no_parts : (t : RxDesc) → t.buf ≡ none → buffer_parts t ≡ []
no_parts t e =
    ap
      (λ o. elim o [ none ↦ [] | some b ↦ rx_mapping t.dma_addr rx_buffer_size ∷ rx_buffer b ∷ [] ])
      e

parts-fill :
    (ring : List RxDesc) (i : ℕ) (v : RxDesc)
    → i < length ring
    → (rx_desc ring i).buf ≡ none
    → Perm (buffer_parts v ++ ring_parts ring) (ring_parts (set ring i v))
parts-fill ring i v l e =
    subst (λ p. Perm (buffer_parts v ++ ring_parts ring) (p ++ ring_parts (set ring i v)))
      (no_parts (rx_desc ring i) e) (parts-set ring i v l)

-- One more resource stands with the rest.
pub push :
    (xs ys zs : List Resource) (r : Resource)
    → Perm xs (ys ++ zs)
    → Perm (xs ++ r ∷ []) (ys ++ (r ∷ zs))
push xs ys zs r p =
    Perm.trans (Perm.append_right (r ∷ []) p)
      (rw (append_assoc ys zs (r ∷ [])) (Perm.append_left ys (perm_append_comm zs (r ∷ []))))

pub acquire-Balanced :
    (r : Resource) (m : Machine) (rest : List Resource)
    → Balanced m rest
    → Balanced (acquire r m) (r ∷ rest)
unfolding Balanced
acquire-Balanced r m rest b =
    let parts = ring_parts m.device.priv.rx_ring in
    Perm.trans (push m.acquired m.released (parts ++ rest) r b) (
      Perm.append_left m.released (
        Perm.trans (Perm.append_right rest (perm_append_comm (r ∷ []) parts))
          (rw (append_assoc parts (r ∷ []) rest) (Perm.refl _))))

pub release-Balanced :
    (r : Resource) (m : Machine) (rest : List Resource)
    → Balanced m (r ∷ rest)
    → Balanced (release r m) rest
unfolding Balanced
release-Balanced r m rest b =
    let parts = ring_parts m.device.priv.rx_ring in
    Perm.trans b (
      rw (append_assoc m.released (r ∷ []) (parts ++ rest), sym (append_assoc parts (r ∷ []) rest))
        (Perm.append_left m.released (Perm.append_right rest (perm_append_comm parts (r ∷ [])))))

pub free_rx_buffer-Balanced :
    (i : ℕ) (m : Machine) (rest : List Resource)
    → i < length m.device.priv.rx_ring
    → Balanced m rest
    → Balanced (free_rx_buffer i m) rest
unfolding Balanced free_rx_buffer
free_rx_buffer-Balanced i m rest l b =
    let ring = m.device.priv.rx_ring in
    let t = rx_desc ring i in
    let after = set ring i (without_buffer t) in
    Perm.trans b (
      rw
        (
          append_assoc m.released (buffer_parts t) (ring_parts after ++ rest),
          sym (append_assoc (buffer_parts t) (ring_parts after) rest),
        )
        (Perm.append_left m.released
          (Perm.append_right rest (parts-set ring i (without_buffer t) l))))

pub take_rx_buffer-Balanced :
    (k : Option ℕ) (a : DmaAnswer) (i : ℕ) (m : Machine) (rest : List Resource)
    → i < length m.device.priv.rx_ring
    → (rx_desc m.device.priv.rx_ring i).buf ≡ none
    → Balanced m rest
    → Balanced (take_rx_buffer k a i m).1 rest
unfolding Balanced take_rx_buffer
take_rx_buffer-Balanced none a i m rest l vacant b =
    let ring = m.device.priv.rx_ring in
    let v = without_buffer (rx_desc ring i) in
    Perm.trans b
      (Perm.append_left m.released (Perm.append_right rest (parts-fill ring i v l vacant)))
take_rx_buffer-Balanced (some k) a i m rest l vacant b =
    let ring = m.device.priv.rx_ring in
    let t = rx_desc ring i in
    let parts = ring_parts ring in
    let after = λ (v : RxDesc). parts-fill ring i v l vacant in
    elim (Bool-cases a.mapped) [
      | inl ok ↦
          let v = record t {
            buf = some k;
            dma_addr = a.address;
            len = 0;
            finished = false;
            owned_by_hw = true;
          } in
          rw ok (
            Perm.trans
              (push (m.acquired ++ rx_buffer k ∷ []) m.released (rx_buffer k ∷ (parts ++ rest))
                (rx_mapping a.address rx_buffer_size)
                (push m.acquired m.released (parts ++ rest) (rx_buffer k) b))
              (Perm.append_left m.released (Perm.append_right rest (after v))))
      | inr refused ↦
          let v = record t { buf = none; dma_addr = a.address } in
          rw
            (
              refused,
              append_assoc m.released (rx_buffer k ∷ []) (ring_parts (set ring i v) ++ rest),
            )
            (Perm.trans (push m.acquired m.released (parts ++ rest) (rx_buffer k) b) (
              Perm.append_left m.released
                (Perm.cons (rx_buffer k) (Perm.append_right rest (after v)))))
    ]
