-- ===== src/Accelerator/Session.antt =====
-- tcp_accelerator/tcp_accelerator.c: `struct connection`, what the kernel has seen of its two
-- sockets, and the monad of the functions that change both and may return -1.
use linux_network_lab.Base.{
  ℕ, ◌≡◌, ◌≢◌, refl, Bool, true, false, List, Option, none, some, if◌then◌else◌,
}
use linux_network_lab.Accelerator.Buffer.{IoBuffer, RecvAnswer, SendAnswer}

-- The bits of an epoll mask that the program reads or sets.
pub record Events : Type 0 where
  pub readable : Bool
  pub writable : Bool
  pub err : Bool
  pub hup : Bool
  pub rdhup : Bool

-- `struct connection`. An `int` that is only 0 or 1 is a Bool. An endpoint is its fd; its type and
-- its back pointer are the side and the connection that an event names.
pub record Connection : Type 0 where
  pub client_fd : ℕ
  pub server_fd : ℕ
  pub c2s : IoBuffer
  pub s2c : IoBuffer
  pub client_read_open : Bool
  pub server_read_open : Bool
  pub client_write_closed : Bool
  pub server_write_closed : Bool

-- The bytes that have crossed each socket in each direction, how often each was shut down for
-- writing, and the events that epoll watches on each.
pub record Wire : Type 0 where
  pub from_client : List ℕ
  pub to_client : List ℕ
  pub from_server : List ℕ
  pub to_server : List ℕ
  pub client_shuts : ℕ
  pub server_shuts : ℕ
  pub client_interest : Events
  pub server_interest : Events

pub record Session : Type 0 where
  pub conn : Connection
  pub wire : Wire

-- One event of `epoll_wait` for an endpoint, with what the system calls that its handler may make
-- answer: `recv` by the room and `send` by the bytes that they are given, EPOLL_CTL_MOD by success.
pub record Event : Type 0 where
  pub events : Events
  pub recv : ℕ → RecvAnswer
  pub send : List ℕ → SendAnswer
  pub client_mod : Bool
  pub server_mod : Bool

-- `none` is the return of -1; what was done before it stays done.
abbrev pub M : Type 0 → Type 0
M A = Session → Option A × Session

infixl 5 ◌>>=◌ ◌>>◌
unfoldable pub ◌>>=◌ : {A B : Type 0} → M A → (A → M B) → M B
◌>>=◌ m f s = let (r, s') = m s in elim r [ none ↦ (none, s') | some a ↦ f a s' ]

unfoldable pub ◌>>◌ : {B : Type 0} → M (Unit {0}) → M B → M B
unfolding ◌>>=◌
m >> k = m >>= λ _. k

unfoldable pub done : M (Unit {0})
done s = (some tt, s)

unfoldable pub fail : M (Unit {0})
fail s = (none, s)

unfoldable pub on : Bool → M (Unit {0}) → M (Unit {0})
unfolding done
on b m = if b then m else done

unfoldable pub change : (Session → Session) → M (Unit {0})
change f s = (some tt, f s)

-- A predicate that an action keeps, whether it fails or not.
pub record Keeps (P : Session → Type 0) {A : Type 0} (m : M A) : Type 0 where
  pub kept : (s : Session) → P s → P (m s).1

-- A predicate that holds wherever an action succeeds.
pub record OnSuccess (P : Session → Type 0) {A : Type 0} (m : M A) : Type 0 where
  pub holds : (s : Session) → (m s).0 ≢ none → P (m s).1

after : {A : Type 0} → (Unit {0} → M A) → Option (Unit {0}) → Session → Option A × Session
after f r s' = elim r [ none ↦ (none, s') | some a ↦ f a s' ]

after-kept :
    {P : Session → Type 0} {A : Type 0} {k : M A}
    → Keeps P k
    → (r : Option (Unit {0})) (s : Session) → P s
    → P (after (λ _. k) r s).1
unfolding after
after-kept h none s p = p
after-kept h (some _) s p = h.kept s p

after-holds :
    {P : Session → Type 0} {A : Type 0} {k : M A}
    → OnSuccess P k
    → (r : Option (Unit {0})) (s : Session) → (after (λ _. k) r s).0 ≢ none
    → P (after (λ _. k) r s).1
unfolding after
after-holds h none s p = absurd (p refl)
after-holds h (some _) s p = h.holds s p

module _ {P : Session → Type 0} {A : Type 0} (m : M (Unit {0})) (k : M A) where
  pub keeps_then : (s : Session) → P (m s).1 → Keeps P k → P ((m >> k) s).1
  unfolding ◌>>◌ after
  keeps_then s p h = after-kept h (m s).0 (m s).1 p

  pub Keeps-seq : Keeps P m → Keeps P k → Keeps P (m >> k)
  Keeps-seq h j = record { kept = λ s p. keeps_then s (h.kept s p) j }

  pub OnSuccess-seq : OnSuccess P k → OnSuccess P (m >> k)
  unfolding ◌>>◌ after
  OnSuccess-seq h = record { holds = λ s. after-holds h (m s).0 (m s).1 }

-- What an action leaves true and the rest keeps is true in the end.
pub set_then :
    {P : Session → Type 0} {A : Type 0} (m : M (Unit {0})) (k : M A)
    → ((s : Session) → P (m s).1)
    → Keeps P k
    → OnSuccess P (m >> k)
set_then m k h j = record { holds = λ s _. keeps_then m k s (h s) j }

module _ (P : Session → Type 0) where
  pub keeps_on_if :
      (b : Bool) (m : M (Unit {0})) (s : Session) → (b ≡ true → P (m s).1) → P s → P (on b m s).1
  unfolding on
  keeps_on_if true m s h p = h refl
  keeps_on_if false m s h p = p

pub Keeps-on : {P : Session → Type 0} (b : Bool) (m : M (Unit {0})) → Keeps P m → Keeps P (on b m)
Keeps-on {P} b m h = record { kept = λ s p. keeps_on_if P b m s (λ _. h.kept s p) p }

pub Keeps-change :
    {P : Session → Type 0} (f : Session → Session)
    → ((s : Session) → P s → P (f s))
    → Keeps P (change f)
unfolding change
Keeps-change f h = record { kept = h }

pub Keeps-fail : {P : Session → Type 0} → Keeps P fail
unfolding fail
Keeps-fail = record { kept = λ s p. p }

pub ruleset keeping = (Keeps-seq, Keeps-on, Keeps-change, Keeps-fail)
