-- ===== src/WebSocket/Crash.antt =====
-- Two interleavings of internal/pkg/websocket that panic.
use arc_lms.Prelude.{
  ℕ, true, false, ==_iff, [], ◌∷◌, ◌≡◌, refl, sym, ◌∙◌, ap, arith, String, Uuid, update,
}
use arc_lms.WebSocket.Hub.{
  Pointer, Hub, is_member, is_closed, full, panicked, try_send, crash, evict,
}
use arc_lms.WebSocket.Hub.Laws.{evict-open, unregister-open, evict-crash}
use arc_lms.WebSocket.Threads.{
  waiting, Sender, idle, reading, resuming, evicting, running, leaving, State, leave, depart,
  remove, start_user, find_full, drop_client, Reach, here, next, with_sender, departed, IsUnread,
  holds_read_lock,
}

full-open : (p : Pointer) (m : String) (h : Hub) → try_send p m h ≡ full → is_closed h p ≡ false
unfolding try_send
full-open p m h e = ground arith

IsUnread-with_sender :
    (s : State) (i : ℕ) (t : Sender)
    → holds_read_lock t ≡ false
    → IsUnread s
    → IsUnread (with_sender s i t)
IsUnread-with_sender s i t h n j = ground (arith, n j)

update_same {ℓ} : {A : Type ℓ} (f : ℕ → A) (i : ℕ) (a : A) → update f i a i ≡ a
update_same f i a = rw ((==_iff i i).1 refl)

closed_sends :
    (p : Pointer) (m : String) (h : Hub) → is_closed h p ≡ true → try_send p m h ≡ panicked
unfolding try_send
closed_sends p m h c = rw c

module _ (s : State) (i : ℕ) (u : Uuid) (p : Pointer) (m : String) (free : s.senders i ≡ idle)
    (unread : IsUnread s) (member : is_member s.hub u p ≡ true)
    (at_limit : try_send p m s.hub ≡ full) where
  abbrev found : State
  found = with_sender (with_sender s i (reading u [] m)) i (evicting u p (p ∷ []) m)

  Reach-found : Reach s found
  Reach-found = next (next here (start_user s i u m free)) (
      find_full (with_sender s i (reading u [] m)) i u p [] m
        (update_same s.senders i (reading u [] m)) member refl at_limit)

  found-IsUnread : IsUnread found
  found-IsUnread j = ground (arith, unread j)

  found_evicting : found.senders i ≡ evicting u p (p ∷ []) m
  found_evicting = update_same (update s.senders i (reading u [] m)) i (evicting u p (p ∷ []) m)

  -- A client whose buffer is full when one more message is sent to its user, and that then sends a ping,
  -- makes its read pump panic: the sender has closed the channel on which the pong goes.
  pub ping_after_eviction :
      s.pumps p ≡ running
      → (t : State) × Reach s t × (t.pumps p ≡ running) × (try_send p "PONG" t.hub ≡ panicked)
  ping_after_eviction alive =
      let (h, e, c) = evict-open p s.hub (full-open p m s.hub at_limit) u in
      (
        with_sender (record found { hub = h }) i (resuming u (p ∷ []) m),
        next Reach-found (drop_client found i u p (p ∷ []) m h found_evicting found-IsUnread e),
        alive,
        closed_sends p "PONG" h c,
      )

  -- A client whose buffer is full when one more message is sent to its user, and whose connection fails
  -- before the sender has the lock, makes the sender panic: `Run` closes the channel, and then the sender
  -- does.
  pub unregister_before_eviction :
      s.pumps p ≡ running
      → s.run ≡ waiting
      → u ≡ s.hub.user_of p
      → (t : State) × Reach s t
        × (t.senders i ≡ evicting u p (p ∷ []) m)
        × IsUnread t
        × (evict u p t.hub ≡ crash)
  unregister_before_eviction alive free_run own =
      let gone : State = record found { pumps = update s.pumps p leaving } in
      let (h, e, c) =
        unregister-open p s.hub (full-open p m s.hub at_limit)
          (ap (λ v. is_member s.hub v p) (sym own) ∙ member) in
      (
        record (departed gone p) { hub = h; run = waiting },
        next
            (next (next Reach-found (leave found p alive))
              (depart gone p (update_same s.pumps p leaving) free_run))
            (remove (departed gone p) p h refl found-IsUnread e),
        found_evicting,
        found-IsUnread,
        evict-crash u p h c,
      )
