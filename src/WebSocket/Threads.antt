-- ===== src/WebSocket/Threads.antt =====
-- The goroutines of internal/pkg/websocket and how they interleave: `Run` of hub.go, the calls of
-- `SendToUser` and `Broadcast`, and the two pumps that client.go has for each connection. The steps
-- stand between the operations on the lock and on the channels. Go leaves open in which order a `range`
-- visits a map: a sender here visits any client that it has not visited, and ends at any time.
use arc_lms.Prelude.{ℕ, Bool, true, false, Option, List, [], ◌∷◌, ◌≡◌, String, Uuid, update}
use arc_lms.WebSocket.Hub.{
  Pointer, Hub, contains, is_member, sent, full, panicked, try_send, fine, crash, register,
  unregister, evict,
}

-- `Run` has taken a client from one of its two channels, or waits for one.
pub data Run : Type 0 where
  waiting : Run
  inserting removing : Pointer → Run

-- A call of `SendToUser` or `Broadcast` of a message, with the clients that it has visited. It holds the
-- read lock in `reading` and `reaching`; `evicting` has let it go, for the lock, and `resuming` waits
-- for it again.
pub data Sender : Type 0 where
  idle : Sender
  reading resuming : Uuid → List Pointer → String → Sender
  evicting : Uuid → Pointer → List Pointer → String → Sender
  reaching : List Pointer → String → Sender

-- The read pump of a connection: not there yet, in its loop, in its deferred `Unregister`, or past it.
pub data Pump : Type 0 where
  fresh running leaving stopped : Pump

pub record State : Type 0 where
  pub hub : Hub
  pub run : Run
  pub senders : ℕ → Sender
  pub pumps : Pointer → Pump

abbrev pub holds_read_lock : Sender → Bool
holds_read_lock (reading u v m) = true
holds_read_lock (reaching v m) = true
holds_read_lock _ = false

-- `Lock` waits until no one holds the read lock.
abbrev pub IsUnread : State → Type 0
IsUnread s = (i : ℕ) → holds_read_lock (s.senders i) ≡ false

abbrev pub with_sender : State → ℕ → Sender → State
with_sender s i t = record s { senders = update s.senders i t }

abbrev pub with_queue : Hub → Pointer → List String → Hub
with_queue h p q = record h { channels = update h.channels p (record (h.channels p) { queue = q }) }

abbrev pub open_channel : Hub → Pointer → Hub
open_channel h p = record h {
  channels = update h.channels p (record { queue = []; closed = false });
}

abbrev pub accepted : State → Pointer → State
accepted s p = record s {
  hub = open_channel s.hub p;
  run = inserting p;
  pumps = update s.pumps p running;
}

abbrev pub inserted : State → Pointer → State
inserted s p = record s { hub = register p s.hub; run = waiting }

abbrev pub departed : State → Pointer → State
departed s p = record s { run = removing p; pumps = update s.pumps p stopped }

pub data Step : State → State → Type 0 where
  -- `NewClient`, and `Run` receives what `Register` sends; the pumps start.
  accept : (s : State) (p : Pointer) → s.pumps p ≡ fresh → s.run ≡ waiting → Step s (accepted s p)
  insert : (s : State) (p : Pointer) → s.run ≡ inserting p → IsUnread s → Step s (inserted s p)
  -- The connection fails, and the read pump calls `Unregister`.
  leave :
      (s : State) (p : Pointer)
      → s.pumps p ≡ running
      → Step s (record s { pumps = update s.pumps p leaving })
  depart : (s : State) (p : Pointer) → s.pumps p ≡ leaving → s.run ≡ waiting → Step s (departed s p)
  remove :
      (s : State) (p : Pointer) (h : Hub)
      → s.run ≡ removing p
      → IsUnread s
      → unregister p s.hub ≡ fine h
      → Step s (record s { hub = h; run = waiting })
  -- The read pump answers a ping.
  pong :
      (s : State) (p : Pointer) (h : Hub)
      → s.pumps p ≡ running
      → try_send p "PONG" s.hub ≡ sent h
      → Step s (record s { hub = h })
  -- The write pump takes messages from the channel.
  drain :
      (s : State) (p : Pointer) (m : String) (q : List String)
      → (s.hub.channels p).queue ≡ m ∷ q
      → Step s (record s { hub = with_queue s.hub p q })
  start_user :
      (s : State) (i : ℕ) (u : Uuid) (m : String)
      → s.senders i ≡ idle
      → Step s (with_sender s i (reading u [] m))
  start_all :
      (s : State) (i : ℕ) (m : String)
      → s.senders i ≡ idle
      → Step s (with_sender s i (reaching [] m))
  visit :
      (s : State) (i : ℕ) (u : Uuid) (p : Pointer) (v : List Pointer) (m : String) (h : Hub)
      → s.senders i ≡ reading u v m
      → is_member s.hub u p ≡ true
      → contains p v ≡ false
      → try_send p m s.hub ≡ sent h
      → Step s (record s { hub = h; senders = update s.senders i (reading u (p ∷ v) m) })
  find_full :
      (s : State) (i : ℕ) (u : Uuid) (p : Pointer) (v : List Pointer) (m : String)
      → s.senders i ≡ reading u v m
      → is_member s.hub u p ≡ true
      → contains p v ≡ false
      → try_send p m s.hub ≡ full
      → Step s (with_sender s i (evicting u p (p ∷ v) m))
  drop_client :
      (s : State) (i : ℕ) (u : Uuid) (p : Pointer) (v : List Pointer) (m : String) (h : Hub)
      → s.senders i ≡ evicting u p v m
      → IsUnread s
      → evict u p s.hub ≡ fine h
      → Step s (record s { hub = h; senders = update s.senders i (resuming u v m) })
  resume :
      (s : State) (i : ℕ) (u : Uuid) (v : List Pointer) (m : String)
      → s.senders i ≡ resuming u v m
      → Step s (with_sender s i (reading u v m))
  reach :
      (s : State) (i : ℕ) (u : Uuid) (p : Pointer) (v : List Pointer) (m : String) (h : Hub)
      → s.senders i ≡ reaching v m
      → is_member s.hub u p ≡ true
      → contains p v ≡ false
      → try_send p m s.hub ≡ sent h
      → Step s (record s { hub = h; senders = update s.senders i (reaching (p ∷ v) m) })
  -- A `Broadcast` passes a full client over.
  pass_over :
      (s : State) (i : ℕ) (u : Uuid) (p : Pointer) (v : List Pointer) (m : String)
      → s.senders i ≡ reaching v m
      → is_member s.hub u p ≡ true
      → try_send p m s.hub ≡ full
      → Step s (with_sender s i (reaching (p ∷ v) m))
  finish :
      (s : State) (i : ℕ) → holds_read_lock (s.senders i) ≡ true → Step s (with_sender s i idle)

pub data Reach (s : State) : State → Type 0 where
  here : Reach s s
  next : {t u : State} → Reach s t → Step t u → Reach s u

-- An operation that panics in this state, and with it the process.
pub data Panics (s : State) : Type 0 where
  at_visit :
      (i : ℕ) (u : Uuid) (p : Pointer) (v : List Pointer) (m : String)
      → s.senders i ≡ reading u v m
      → is_member s.hub u p ≡ true
      → try_send p m s.hub ≡ panicked
      → Panics s
  at_reach :
      (i : ℕ) (u : Uuid) (p : Pointer) (v : List Pointer) (m : String)
      → s.senders i ≡ reaching v m
      → is_member s.hub u p ≡ true
      → try_send p m s.hub ≡ panicked
      → Panics s
  at_remove :
      (p : Pointer) → s.run ≡ removing p → IsUnread s → unregister p s.hub ≡ crash → Panics s
  at_pong : (p : Pointer) → s.pumps p ≡ running → try_send p "PONG" s.hub ≡ panicked → Panics s
  at_drop :
      (i : ℕ) (u : Uuid) (p : Pointer) (v : List Pointer) (m : String)
      → s.senders i ≡ evicting u p v m
      → IsUnread s
      → evict u p s.hub ≡ crash
      → Panics s

-- A hub to which no one has connected.
abbrev pub new_state : (Pointer → Uuid) → State
new_state user_of = record {
  hub = record {
    clients = λ u. Option.none;
    channels = λ p. record { queue = []; closed = false };
    user_of = user_of;
  };
  run = waiting;
  senders = λ i. idle;
  pumps = λ p. fresh;
}
