-- ===== src/Edunic/Machine/Invariant.antt =====
-- linux_nic_lab/driver: what holds of the threads in every state.
pub mod Xmit
pub mod Asked
pub mod Woken
pub mod Work
pub mod Poll
use linux_network_lab.Base.{
  ℕ, zero, suc, ◌+◌, ◌%◌, ◌≤◌, ◌<◌, ◌≡◌, Bool, true, false, not, ◌&&◌, ◌||◌, ◌⊎◌, List, ◌++◌,
  length, ◌==◌,
}
use linux_network_lab.Edunic.Adapter.{edunic_ring_size, Skb}
use linux_network_lab.Edunic.Machine.{
  XmitPc, outside, checking, stopping, rechecking, mapping, WorkerPc, resting, working, PollPc,
  away, waking, receiving, completing, Machine,
}
use linux_network_lab.Edunic.Machine.View.{View, view}
use linux_network_lab.Edunic.Machine.Flight.{Flight}

-- Where the chip stands, and whether it has sent anything since the work item started.
abbrev pub head_of : ℕ → WorkerPc → ℕ
head_of tdh resting = tdh
head_of tdh (working head tail sent) = head

abbrev pub has_sent : WorkerPc → Bool
has_sent resting = false
has_sent (working head tail sent) = sent

abbrev pub in_poll : PollPc → Bool
in_poll away = false
in_poll (waking packets) = true
in_poll receiving = true
in_poll completing = true

abbrev pub will_wake : PollPc → Bool
will_wake away = false
will_wake (waking packets) = not (packets == 0)
will_wake receiving = false
will_wake completing = false

abbrev pub is_rechecking : XmitPc → Bool
is_rechecking outside = false
is_rechecking (checking next) = false
is_rechecking (stopping next) = false
is_rechecking (rechecking next) = true
is_rechecking (mapping skb ans) = false

abbrev pub is_mapping : XmitPc → Bool
is_mapping outside = false
is_mapping (checking next) = false
is_mapping (stopping next) = false
is_mapping (rechecking next) = false
is_mapping (mapping skb ans) = true

-- Of `n` skbs in the ring the chip has sent `d`: the others are the work of the item, or it is
-- queued.
abbrev pub Working : Bool → ℕ → WorkerPc → ℕ → ℕ → Type 0
Working queued tdh resting n d = d < n → queued ≡ true
Working queued tdh (working head tail sent) n d =
    (k : ℕ) × (tail ≡ (head + k) % edunic_ring_size)
    × (d + k ≤ n)
    × (d + k < n → queued ≡ true)
    × (sent ≡ false → head ≡ tdh)

-- NAPI is on the schedule, and has not yet passed the cleaning of the ring, or was asked for since.
abbrev pub Due : Bool → Bool → PollPc → Type 0
Due scheduled missed p = (scheduled ≡ true) × ((in_poll p && not missed) ≡ false)

-- Why a stopped queue is stopped: it is about to be woken, or the ring is full.
abbrev pub Opens : XmitPc → PollPc → ℕ → Type 0
Opens x p n = ((is_rechecking x || will_wake p) ≡ true) ⊎ (n ≡ 255)

pub record Inv (v : View) (x : XmitPc) (k : WorkerPc) (p : PollPc) (posted : List Skb)
    : Type 0 where
  pub q : List Skb
  pub d : ℕ
  pub flight : Flight v.ring (head_of v.tdh k) q d
  pub tail_at : v.tdt ≡ v.ring.next_to_use
  pub work : Working v.queued v.tdh k (length q) d
  pub pending : 0 < d → Due v.scheduled v.missed p ⊎ (has_sent k ≡ true)
  pub polled : in_poll p ≡ true → v.scheduled ≡ true
  pub opens : v.stopped ≡ true → Opens x p (length q)
  pub room_left : is_mapping x ≡ true → length q < 255
  pub all : posted ≡ v.consumed ++ q

abbrev pub Sound : Machine → Type 0
Sound m = Inv (view m.adapter) m.xmit m.worker m.poll m.posted
