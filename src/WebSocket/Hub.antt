-- ===== src/WebSocket/Hub.antt =====
-- The data of internal/pkg/websocket/hub.go and what each critical section does to it. A `*Client` is
-- a pointer, whose `UserID` never changes; its `send` channel stands in `channels`.
pub mod Laws
use arc_lms.Prelude.{
  ℕ, Bool, true, false, ◌&&◌, ◌||◌, not, ltb, ◌==◌, if◌then◌else◌, Option, none, some, List, [],
  ◌∷◌, ◌++◌, length, String, Uuid, update,
}

abbrev pub Pointer : Type 0
Pointer = ℕ

-- A buffered channel of messages.
pub record Channel : Type 0 where
  pub queue : List String
  pub closed : Bool

pub record Hub : Type 0 where
  pub clients : Uuid → Option (List Pointer)
  pub channels : Pointer → Channel
  pub user_of : Pointer → Uuid

abbrev pub contains : Pointer → List Pointer → Bool
contains p [] = false
contains p (q ∷ qs) = (q == p) || contains p qs

abbrev pub without : Pointer → List Pointer → List Pointer
without p [] = []
without p (q ∷ qs) = let rest = without p qs in if q == p then rest else q ∷ rest

abbrev pub list_of : Option (List Pointer) → List Pointer
list_of none = []
list_of (some ps) = ps

-- Whether a client stands in the set of a user.
unfoldable pub is_member : Hub → Uuid → Pointer → Bool
is_member h u p = contains p (list_of (h.clients u))

abbrev pub is_closed : Hub → Pointer → Bool
is_closed h p = (h.channels p).closed

abbrev pub send_buffer_size : ℕ
send_buffer_size = 256

-- `select { case c.send <- data: default: }`
pub data Sending : Type 0 where
  sent : Hub → Sending
  full : Sending
  panicked : Sending

abbrev put : Hub → Pointer → String → Channel → Sending
put h p m c =
    if c.closed
    then panicked
    else if ltb (length c.queue) send_buffer_size
    then sent (record h { channels = update h.channels p (record c { queue = c.queue ++ m ∷ [] }) })
    else full

unfoldable pub try_send : Pointer → String → Hub → Sending
try_send p m h = put h p m (h.channels p)

-- What a critical section leaves; closing a closed channel panics.
pub data Outcome : Type 0 where
  fine : Hub → Outcome
  crash : Outcome

abbrev pub close : Pointer → Hub → Outcome
close p h =
    if (h.channels p).closed
    then crash
    else fine
        (record h { channels = update h.channels p (record (h.channels p) { closed = true }) })

-- `clients[client] = true`
abbrev add : Pointer → List Pointer → List Pointer
add p ps = if contains p ps then ps else p ∷ ps

-- The case of `Run` for a registration.
unfoldable pub register : Pointer → Hub → Hub
register p h = record h {
  clients = update h.clients (h.user_of p) (some (add p (list_of (h.clients (h.user_of p)))));
}

-- `delete(h.clients, client.UserID)` where no client is left.
abbrev entry_of : List Pointer → Option (List Pointer)
entry_of [] = none
entry_of (p ∷ ps) = some (p ∷ ps)

abbrev unregister_from : Pointer → Hub → List Pointer → Outcome → Outcome
unregister_from p h ps crash = crash
unregister_from p h ps (fine h') =
    fine (record h' { clients = update h.clients (h.user_of p) (entry_of (without p ps)) })

-- The case of `Run` for an unregistration.
unfoldable pub unregister : Pointer → Hub → Outcome
unregister p h =
    let ps = list_of (h.clients (h.user_of p)) in
    if contains p ps then unregister_from p h ps (close p h) else fine h

abbrev shrink : Pointer → Option (List Pointer) → Option (List Pointer)
shrink p none = none
shrink p (some ps) = some (without p ps)

abbrev evict_from : Uuid → Pointer → Hub → Outcome → Outcome
evict_from u p h crash = crash
evict_from u p h (fine h') =
    fine (record h' { clients = update h.clients u (shrink p (h.clients u)) })

-- What `SendToUser` does to a client whose buffer is full, between `Lock` and `Unlock`.
unfoldable pub evict : Uuid → Pointer → Hub → Outcome
evict u p h = evict_from u p h (close p h)
