-- ===== src/EpollServer/Settled.antt =====
-- epoll_server/epoll_server.c: what holds between two events.
use mathlib.Core.Bool.{false≢true}
use mathlib.Core.List.{Perm, perm_middle}
use mathlib.Core.List.Perm
use linux_network_lab.Base.{
  ℕ, Bool, true, false, ◌≡◌, refl, sym, ap, subst, ◌∙◌, inl, inr, List, [], ◌∷◌, ◌++◌, take,
  take-append-drop, drop, All, if◌then◌else◌, ℤ, ◌==ℤ◌, ==ℤ_iff, Bool-cases,
}
use linux_network_lab.EpollServer.{
  set_nonblocking, Exchange, EchoServer, has, remove, close, end_client, Attempt, has_accepted,
  accept_one, accept_all, wrote, write_would_block, write_failed, Read, got, end_of_file,
  read_would_block, read_failed, note, echo, serve, Ready, connections, client_ready, handle_ready,
  empty_server, Reported, Run, begun, then_event,
}

-- The client is sent the first of the bytes that were read, and no others.
abbrev pub IsPrefix : Exchange → Type 0
IsPrefix x = (rest : List ℕ) × (x.written ++ rest ≡ x.bytes)

-- Each descriptor that was accepted is open or closed, as often as it was accepted; the open ones
-- are watched.
pub record Settled (s : EchoServer) : Type 0 where
  pub same : s.watched ≡ s.open_fds
  pub accounts : Perm s.accepted (s.open_fds ++ s.closed)
  pub echoed : All IsPrefix s.exchanges

remove-Perm : (fd : ℤ) (xs : List ℤ) → has fd xs ≡ true → Perm xs (fd ∷ remove fd xs)
unfolding has remove
remove-Perm fd [] m = absurd (false≢true m)
remove-Perm fd (x ∷ xs) m = elim (Bool-cases (x ==ℤ fd)) [
  | inl hit ↦ rw hit (subst (λ y. Perm (x ∷ xs) (y ∷ xs)) ((==ℤ_iff x fd).0 hit) Perm.rfl)
  | inr miss ↦
      rw miss (
        Perm.trans (Perm.cons x (remove-Perm fd xs (rw miss at m))) (Perm.swap fd x (remove fd xs)))
]

remove_first : (fd : ℤ) (xs : List ℤ) → remove fd (fd ∷ xs) ≡ xs
unfolding remove
remove_first fd xs = rw ((==ℤ_iff fd fd).1 refl) refl

end_client-Settled :
    (fd : ℤ) (s : EchoServer) → has fd s.watched ≡ true → Settled s → Settled (end_client fd s)
unfolding end_client
end_client-Settled fd s m h = record {
  same = ap (remove fd) h.same;
  accounts = Perm.trans h.accounts (
      Perm.trans
        (Perm.append_right s.closed
          (remove-Perm fd s.open_fds (subst (λ xs. has fd xs ≡ true) h.same m)))
        (Perm.symm (perm_middle (remove fd s.open_fds) s.closed)));
  echoed = h.echoed;
}

-- A descriptor that is accepted and closed at once.
closed_at_once-Settled :
    (fd : ℤ) (s : EchoServer) → Settled s → Settled (close fd (has_accepted fd s))
closed_at_once-Settled fd s h = record {
  same = h.same ∙ sym (remove_first fd s.open_fds);
  accounts =
      subst (λ xs. Perm (fd ∷ s.accepted) (xs ++ fd ∷ s.closed)) (sym (remove_first fd s.open_fds))
        (Perm.trans (Perm.cons fd h.accounts) (Perm.symm (perm_middle s.open_fds s.closed)));
  echoed = h.echoed;
}

accept_one-Settled : (a : Attempt) (s : EchoServer) → Settled s → Settled (accept_one a s)
unfolding accept_one
accept_one-Settled a s h = by_cases (set_nonblocking a.fcntl) a.added
  where
    by_cases :
        (nonblocking added : Bool)
        → Settled (
            if nonblocking
            then (if added
                then record (has_accepted a.fd s) { watched = a.fd ∷ s.watched }
                else close a.fd (has_accepted a.fd s))
            else close a.fd (has_accepted a.fd s))
    by_cases false added = closed_at_once-Settled a.fd s h
    by_cases true false = closed_at_once-Settled a.fd s h
    by_cases true true = record {
      same = ap (◌∷◌ a.fd) h.same;
      accounts = Perm.cons a.fd h.accounts;
      echoed = h.echoed;
    }

accept_all-Settled :
    (attempts : List Attempt) (s : EchoServer) → Settled s → Settled (accept_all attempts s)
unfolding accept_all
accept_all-Settled [] s h = h
accept_all-Settled (a ∷ attempts) s h =
    accept_all-Settled attempts (accept_one a s) (accept_one-Settled a s h)

note-Settled :
    (fd : ℤ) (bytes written rest : List ℕ) (s : EchoServer)
    → written ++ rest ≡ bytes
    → Settled s
    → Settled (note fd bytes written s)
note-Settled fd bytes written rest s e h = record {
  same = h.same;
  accounts = h.accounts;
  echoed = ((rest, e), h.echoed);
}

serve-Settled :
    (fd : ℤ) (r : Read) (s : EchoServer)
    → has fd s.watched ≡ true
    → Settled s
    → Settled (serve fd r s)
unfolding serve echo
serve-Settled fd (got bytes (wrote n)) s m h =
    note-Settled fd bytes (take n bytes) (drop n bytes) s (take-append-drop n bytes) h
serve-Settled fd (got bytes write_would_block) s m h = note-Settled fd bytes [] bytes s refl h
serve-Settled fd (got bytes write_failed) s m h =
    end_client-Settled fd (note fd bytes [] s) m (note-Settled fd bytes [] bytes s refl h)
serve-Settled fd end_of_file s m h = end_client-Settled fd s m h
serve-Settled fd read_would_block s m h = h
serve-Settled fd read_failed s m h = end_client-Settled fd s m h

handle_ready-Settled :
    (e : Ready) (s : EchoServer) → Reported e s → Settled s → Settled (handle_ready e s)
unfolding handle_ready
handle_ready-Settled (connections attempts) s m h = accept_all-Settled attempts s h
handle_ready-Settled (client_ready fd true r) s m h = end_client-Settled fd s m h
handle_ready-Settled (client_ready fd false r) s m h = serve-Settled fd r s m h

-- After any events that epoll reports, starting with no client, each descriptor that was accepted is
-- open or closed, as often as it was accepted; those that are open are in the epoll set; and of the
-- bytes of each read the client was sent a first part.
pub Run-Settled : {s : EchoServer} → Run empty_server s → Settled s
Run-Settled begun = record { same = refl; accounts = Perm.rfl; echoed = tt }
Run-Settled (then_event {t} e r m) = handle_ready-Settled e t m (Run-Settled r)
