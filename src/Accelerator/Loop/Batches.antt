-- ===== src/Accelerator/Loop/Batches.antt =====
-- tcp_accelerator/tcp_accelerator.c: when a batch of events stays clear of freed connections.
use linux_network_lab.Base.{
  ℕ, ◌<◌, ◌≡◌, ◌≢◌, ◌⊎◌, inl, inr, refl, ap, ◌∙◌, true, List, [], ◌∷◌, ◌++◌, Option, none, some,
  zero, suc, arith, length, get_elem?, set, get_elem?-set_self, get_elem?-set_ne,
}
use linux_network_lab.Accelerator.Session.{Session, Event}
use linux_network_lab.Accelerator.Create.{create_connection}
use linux_network_lab.Accelerator.Handlers.{connection_finished}
use linux_network_lab.Accelerator.Loop.{
  Slot, live, freed, AcceptAnswer, accepted, accept_again, accept_interrupted, accept_error, Side,
  Ready, listener, endpoint, add_connection, accept_loop, process_event, after_event, with_slot,
  handle_ready, handle_batch,
}

-- A batch in which no connection has more than one event.
abbrev pub Untouched : ℕ → List Ready → Type 0
Untouched i [] = Unit {0}
Untouched i (listener answers ∷ rest) = Untouched i rest
Untouched i (endpoint j side ev ∷ rest) = (i ≢ j) × Untouched i rest

abbrev pub OncePerConnection : List Ready → Type 0
OncePerConnection [] = Unit {0}
OncePerConnection (listener answers ∷ rest) = OncePerConnection rest
OncePerConnection (endpoint j side ev ∷ rest) = Untouched j rest × OncePerConnection rest

-- Every connection that the batch names is live when the batch begins.
abbrev pub AllLive : List Slot → List Ready → Type 0
AllLive slots [] = Unit {0}
AllLive slots (listener answers ∷ rest) = AllLive slots rest
AllLive slots (endpoint j side ev ∷ rest) =
    ((s : Session) × (get_elem? slots j ≡ some (live s))) × AllLive slots rest

get_elem?-append_some :
    (xs ys : List Slot) (i : ℕ) (v : Slot)
    → get_elem? xs i ≡ some v
    → get_elem? (xs ++ ys) i ≡ some v
get_elem?-append_some [] ys i v e = cc e
get_elem?-append_some (x ∷ xs) ys zero v e = e
get_elem?-append_some (x ∷ xs) ys (suc i) v e = get_elem?-append_some xs ys i v e

add_connection-old :
    (o : Option Session) (slots : List Slot) (i : ℕ) (v : Slot)
    → get_elem? slots i ≡ some v
    → get_elem? (add_connection o slots) i ≡ some v
unfolding add_connection
add_connection-old none slots i v e = e
add_connection-old (some s) slots i v e = get_elem?-append_some slots (live s ∷ []) i v e

-- Accepting clients leaves the connections that there are.
accept_loop-old :
    (answers : List AcceptAnswer) (slots : List Slot) (i : ℕ) (v : Slot)
    → get_elem? slots i ≡ some v
    → get_elem? (accept_loop answers slots) i ≡ some v
unfolding accept_loop
accept_loop-old [] slots i v e = e
accept_loop-old (accepted client_fd a ∷ rest) slots i v e =
    accept_loop-old rest (add_connection (create_connection a client_fd).0 slots) i v
      (add_connection-old (create_connection a client_fd).0 slots i v e)
accept_loop-old (accept_again ∷ rest) slots i v e = e
accept_loop-old (accept_interrupted ∷ rest) slots i v e = accept_loop-old rest slots i v e
accept_loop-old (accept_error ∷ rest) slots i v e = e

AllLive-accept :
    (answers : List AcceptAnswer) (slots : List Slot) (rest : List Ready)
    → AllLive slots rest
    → AllLive (accept_loop answers slots) rest
AllLive-accept answers slots [] h = tt
AllLive-accept answers slots (listener _ ∷ rest) h = AllLive-accept answers slots rest h
AllLive-accept answers slots (endpoint j side ev ∷ rest) ((s, e), h) =
    ((s, accept_loop-old answers slots j (live s) e), AllLive-accept answers slots rest h)

AllLive-set :
    (slots : List Slot) (i : ℕ) (v : Slot) (rest : List Ready)
    → Untouched i rest
    → AllLive slots rest
    → AllLive (set slots i v) rest
AllLive-set slots i v [] u h = tt
AllLive-set slots i v (listener _ ∷ rest) u h = AllLive-set slots i v rest u h
AllLive-set slots i v (endpoint j side ev ∷ rest) (n, u) ((s, e), h) =
    ((s, get_elem?-set_ne slots v n ∙ e), AllLive-set slots i v rest u h)

handle_live :
    (slots : List Slot) (i : ℕ) (side : Side) (ev : Event) (s : Session)
    → get_elem? slots i ≡ some (live s)
    → handle_ready slots (endpoint i side ev)
      ≡ some (set slots i (after_event (process_event side ev s)))
unfolding handle_ready
handle_live slots i side ev s e = rw (e, with_slot)

handle_listener :
    (slots : List Slot) (answers : List AcceptAnswer)
    → handle_ready slots (listener answers) ≡ some (accept_loop answers slots)
unfolding handle_ready
handle_listener slots answers = refl

handle_freed :
    (slots : List Slot) (i : ℕ) (side : Side) (ev : Event)
    → get_elem? slots i ≡ some freed
    → handle_ready slots (endpoint i side ev) ≡ none
unfolding handle_ready
handle_freed slots i side ev e = rw (e, with_slot)

batch_step :
    (slots next : List Slot) (r : Ready) (rest : List Ready)
    → handle_ready slots r ≡ some next
    → handle_batch slots (r ∷ rest) ≡ handle_batch next rest
unfolding handle_batch
batch_step slots next r rest e = rw (e, handle_batch)

batch_fault :
    (slots : List Slot) (r : Ready) (rest : List Ready)
    → handle_ready slots r ≡ none
    → handle_batch slots (r ∷ rest) ≡ none
unfolding handle_batch
batch_fault slots r rest e = rw (e, handle_batch)

-- A batch that names only live connections, each at most once, never reads freed memory, whatever
-- its handlers free on the way.
pub batch_safe :
    (batch : List Ready) (slots : List Slot)
    → AllLive slots batch
    → OncePerConnection batch
    → handle_batch slots batch ≢ none
unfolding handle_batch
batch_safe [] slots h o = λ e. cc e
batch_safe (listener answers ∷ rest) slots h o =
    rw (batch_step slots _ (listener answers) rest (handle_listener slots answers))
      (batch_safe rest (accept_loop answers slots) (AllLive-accept answers slots rest h) o)
batch_safe (endpoint i side ev ∷ rest) slots ((s, e), h) (u, o) =
    rw (batch_step slots _ (endpoint i side ev) rest (handle_live slots i side ev s e)) (
      batch_safe rest (set slots i (after_event (process_event side ev s)))
        (AllLive-set slots i (after_event (process_event side ev s)) rest u h) o)

index_lt : (slots : List Slot) (i : ℕ) (v : Slot) → get_elem? slots i ≡ some v → i < length slots
index_lt [] i v e = cc e
index_lt (x ∷ xs) zero v e = omega arith
index_lt (x ∷ xs) (suc i) v e = omega (arith, index_lt xs i v e)

freed_after :
    (r : Option (Unit {0}) × Session)
    → (r.0 ≡ none) ⊎ (connection_finished r.1.conn ≡ true)
    → after_event r ≡ freed
unfolding after_event
freed_after (none, s) h = refl
freed_after (some _, s) (inl e) = cc e
freed_after (some _, s) (inr e) = rw e

-- Where the event of one endpoint frees the connection, because its handler fails or because both
-- directions are done, an event of either endpoint that comes next in the batch reads freed memory.
pub batch_uses_freed :
    (i : ℕ) (side side' : Side) (ev ev' : Event) (slots : List Slot) (s : Session)
    (rest : List Ready)
    → get_elem? slots i ≡ some (live s)
    → ((process_event side ev s).0 ≡ none)
      ⊎ (connection_finished (process_event side ev s).1.conn ≡ true)
    → handle_batch slots (endpoint i side ev ∷ endpoint i side' ev' ∷ rest) ≡ none
batch_uses_freed i side side' ev ev' slots s rest e f =
    batch_step slots _ (endpoint i side ev) (endpoint i side' ev' ∷ rest) (
      handle_live slots i side ev s e
      ∙ ap (λ v. some (set slots i v)) (freed_after (process_event side ev s) f))
    ∙ batch_fault (set slots i freed) (endpoint i side' ev') rest (
        handle_freed (set slots i freed) i side' ev'
          (get_elem?-set_self slots i freed (index_lt slots i (live s) e)))
