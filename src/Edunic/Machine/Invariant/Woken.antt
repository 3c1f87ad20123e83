-- ===== src/Edunic/Machine/Invariant/Woken.antt =====
-- linux_nic_lab/driver/nic_tx.c: what the poll's wake-up leaves of a stopped queue.
use linux_network_lab.Base.{
  ℕ, ◌≡◌, refl, sym, Bool, true, false, not, ◌&&◌, ◌||◌, ◌⊎◌, inl, inr, List, length, ◌==◌,
  if◌then◌else◌,
}
use mathlib.Core.Bool.{false≢true}
use linux_network_lab.Edunic.Adapter.{Skb, EdunicAdapter}
use linux_network_lab.Edunic.Tx.{tx_has_room, desc_per_pkt, netif_wake_queue, wake_tx}
use linux_network_lab.Edunic.Machine.{XmitPc, WorkerPc, waking, receiving, completing}
use linux_network_lab.Edunic.Machine.View.{view}
use linux_network_lab.Edunic.Machine.Invariant.Xmit.{room_cases}
use linux_network_lab.Edunic.Machine.Invariant.{Due, Opens, is_rechecking, has_sent, Inv}

-- What `wake_tx` leaves.
pub woken : ℕ → EdunicAdapter → Bool
woken packets a =
    if (not (packets == 0) && a.queue_stopped) && tx_has_room desc_per_pkt a
    then false
    else a.queue_stopped

pub view-wake_tx :
    (packets : ℕ) (a : EdunicAdapter)
    → view (wake_tx packets a) ≡ record (view a) { stopped = woken packets a }
unfolding wake_tx woken
view-wake_tx packets a =
    branch ((not (packets == 0) && a.queue_stopped) && tx_has_room desc_per_pkt a)
  where
    branch :
        (c : Bool)
        → view (if c then netif_wake_queue a else a)
          ≡ record (view a) { stopped = if c then false else a.queue_stopped }
    branch true = refl
    branch false = refl

pub still_stopped :
    (some stopped room : Bool)
    → (if (some && stopped) && room then false else stopped) ≡ true
    → (stopped ≡ true) × ((some && room) ≡ false)
still_stopped true true true e = absurd (false≢true e)
still_stopped true true false e = (refl, refl)
still_stopped true false room e = absurd (false≢true e)
still_stopped false stopped room e = (e, refl)

-- With room left the poll has nothing to wake for.
pub not_waking :
    (x : XmitPc) (n : ℕ) (some room : Bool)
    → room ≡ true
    → (some && room) ≡ false
    → ((is_rechecking x || some) ≡ true) ⊎ (n ≡ 255)
    → Opens x receiving n
not_waking x n true true r e o = absurd (false≢true (sym e))
not_waking x n true false r e o = absurd (false≢true r)
not_waking x n false room r e o = o

pub woken-Opens :
    (packets : ℕ) (a : EdunicAdapter) (x : XmitPc) (k : WorkerPc) (posted : List Skb)
    (i : Inv (view a) x k (waking packets) posted)
    → woken packets a ≡ true
    → Opens x receiving (length i.q)
unfolding woken
woken-Opens packets a x k posted i e =
    let (on, none_due) =
      still_stopped (not (packets == 0)) a.queue_stopped (tx_has_room desc_per_pkt a) e in
    elim (room_cases a i) [
      | inl (room, l) ↦ not_waking x (length i.q) (not (packets == 0)) _ room none_due (i.opens on)
      | inr (full, l) ↦ inr l
    ]

-- With no call refused, what waits is the work of the running work item.
pub not-Due :
    (scheduled missed : Bool) (k : WorkerPc)
    → missed ≡ false
    → Due scheduled missed completing ⊎ (has_sent k ≡ true)
    → has_sent k ≡ true
not-Due scheduled true k e o = absurd (false≢true (sym e))
not-Due scheduled false k e (inl due) = absurd (false≢true (sym due.1))
not-Due scheduled false k e (inr sent) = sent
