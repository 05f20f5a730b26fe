-- ===== src/WebSocket/Tests.antt =====
-- A few steps of internal/pkg/websocket.
use arc_lms.Prelude.{
  ℕ, zero, suc, ◌≡◌, ◌≢◌, refl, true, false, List, [], ◌∷◌, none, some, String, Uuid, update,
}
use arc_lms.WebSocket.Hub.{
  Pointer, is_member, panicked, try_send, crash, register, unregister, evict,
}
use arc_lms.WebSocket.Threads.{
  waiting, idle, evicting, running, State, accept, insert, Reach, here, next, accepted, inserted,
  IsUnread, new_state,
}
use arc_lms.WebSocket.Invariant.{sends_are_safe}
use arc_lms.WebSocket.Crash.{ping_after_eviction, unregister_before_eviction}

-- Connection 3 of user 7.
abbrev connected : State
connected = inserted (accepted (new_state (λ p. 7)) 3) 3

Reach-connected : Reach (new_state (λ p. 7)) connected
Reach-connected =
    next (next here (accept (new_state (λ p. 7)) 3 refl refl))
      (insert (accepted (new_state (λ p. 7)) 3) 3 refl (λ i. refl))

connected_member : is_member connected.hub 7 3 ≡ true
unfolding is_member register
connected_member = refl

sends_are_safe_example :
    ((u : Uuid) (p : Pointer) (m : String)
      → is_member connected.hub u p ≡ true
      → (u ≡ connected.hub.user_of p) × (try_send p m connected.hub ≢ panicked))
    × ((p : Pointer) → unregister p connected.hub ≢ crash)
sends_are_safe_example = sends_are_safe (λ p. 7) Reach-connected

abbrev copies : ℕ → String → List String
copies zero m = []
copies (suc n) m = m ∷ copies n m

-- The same connection with 256 messages that it has not read.
abbrev slow : State
slow = record {
  hub = record {
    clients = update (λ u. none) 7 (some (3 ∷ []));
    channels = λ p. record { queue = copies 256 "unread"; closed = false };
    user_of = λ p. 7;
  };
  run = waiting;
  senders = λ i. idle;
  pumps = λ p. running;
}

ping_after_eviction_example :
    (t : State) × Reach slow t × (t.pumps 3 ≡ running) × (try_send 3 "PONG" t.hub ≡ panicked)
unfolding is_member try_send
ping_after_eviction_example =
    ping_after_eviction slow 0 7 3 "one more" refl (λ i. refl) refl refl refl

unregister_before_eviction_example :
    (t : State) × Reach slow t
    × (t.senders 0 ≡ evicting 7 3 (3 ∷ []) "one more")
    × IsUnread t
    × (evict 7 3 t.hub ≡ crash)
unfolding is_member try_send
unregister_before_eviction_example =
    unregister_before_eviction slow 0 7 3 "one more" refl (λ i. refl) refl refl refl refl refl
