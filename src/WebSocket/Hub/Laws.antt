-- ===== src/WebSocket/Hub/Laws.antt =====
-- What the critical sections of internal/pkg/websocket/hub.go change of the map and the channels.
use arc_lms.Prelude.{
  true, false, ◌&&◌, ◌||◌, not, ◌==◌, ==_iff, if◌then◌else◌, Option, none, some, List, [], ◌∷◌, ◌≡◌,
  refl, ap, ◌∙◌, arith, String, Uuid, inl, inr, Bool-cases,
}
use arc_lms.WebSocket.Hub.{
  Pointer, Hub, contains, without, list_of, is_member, is_closed, sent, panicked, try_send, add,
  entry_of, shrink, fine, crash, register, unregister, evict,
}

contains-without :
    (q p : Pointer) (ps : List Pointer)
    → contains q (without p ps) ≡ (not (q == p) && contains q ps)
contains-without q p [] = ground arith
contains-without q p (x ∷ xs) = ground (arith, contains-without q p xs)

contains-add :
    (q p : Pointer) (ps : List Pointer) → contains q (add p ps) ≡ (contains q ps || (p == q))
contains-add q p ps = elim (Bool-cases (p == q)) [
  | inl e ↦ rw ((==_iff p q).0 e) (ground arith)
  | inr e ↦ ground arith
]

list_of-entry_of : (ps : List Pointer) → list_of (entry_of ps) ≡ ps
list_of-entry_of [] = refl
list_of-entry_of (p ∷ ps) = refl

list_of-shrink :
    (p : Pointer) (o : Option (List Pointer)) → list_of (shrink p o) ≡ without p (list_of o)
list_of-shrink p none = refl
list_of-shrink p (some ps) = refl

pub is_member-register :
    (p : Pointer) (h : Hub) (u : Uuid) (q : Pointer)
    → is_member (register p h) u q ≡ (is_member h u q || ((h.user_of p == u) && (p == q)))
unfolding is_member register
is_member-register p h u q = elim (Bool-cases (h.user_of p == u)) [
  | inl e ↦ rw e (rw ((==_iff (h.user_of p) u).0 e) (contains-add q p (list_of (h.clients u))))
  | inr e ↦ rw e (ground arith)
]

module _ (p : Pointer) (h h' : Hub) (e : unregister p h ≡ fine h') where
  clients-unregister :
      (u : Uuid)
      → h'.clients u ≡ (
          if contains p (list_of (h.clients (h.user_of p))) && (h.user_of p == u)
          then entry_of (without p (list_of (h.clients (h.user_of p))))
          else h.clients u)
  unfolding unregister
  clients-unregister u = ground arith

  pub is_member-unregister :
      (u : Uuid) (q : Pointer)
      → is_member h' u q ≡ (is_member h u q && not ((h.user_of p == u) && (p == q)))
  unfolding unregister is_member
  is_member-unregister u q =
      let ps = list_of (h.clients (h.user_of p)) in
      ground (
        arith,
        list_of-entry_of (without p ps),
        contains-without q p ps,
        ap (λ (o : Option (List Pointer)). contains q (list_of o)) (clients-unregister u),
      )

  pub is_closed-unregister :
      (q : Pointer) → is_closed h' q ≡ (is_closed h q || (is_member h (h.user_of p) p && (p == q)))
  unfolding unregister is_member
  is_closed-unregister q = ground arith

  pub user_of-unregister : (q : Pointer) → h'.user_of q ≡ h.user_of q
  unfolding unregister
  user_of-unregister q = ground arith

module _ (u : Uuid) (p : Pointer) (h h' : Hub) (e : evict u p h ≡ fine h') where
  clients-evict :
      (v : Uuid) → h'.clients v ≡ (if u == v then shrink p (h.clients u) else h.clients v)
  unfolding evict
  clients-evict v = ground arith

  pub is_member-evict :
      (v : Uuid) (q : Pointer) → is_member h' v q ≡ (is_member h v q && not ((u == v) && (p == q)))
  unfolding evict is_member
  is_member-evict v q =
      let o = h.clients u in
      ground (
        arith,
        list_of-shrink p o,
        contains-without q p (list_of o),
        ap (λ (o' : Option (List Pointer)). contains q (list_of o')) (clients-evict v),
      )

  pub is_closed-evict : (q : Pointer) → is_closed h' q ≡ (is_closed h q || (p == q))
  unfolding evict
  is_closed-evict q = ground arith

  pub user_of-evict : (q : Pointer) → h'.user_of q ≡ h.user_of q
  unfolding evict
  user_of-evict q = ground arith

-- An unregistration panics only where a client of the map has a closed channel.
pub unregister-crash :
    (p : Pointer) (h : Hub)
    → unregister p h ≡ crash
    → (is_member h (h.user_of p) p ≡ true) × (is_closed h p ≡ true)
unfolding unregister is_member
unregister-crash p h e = (ground arith, ground arith)

-- A send changes the map, the users and the closings of no client.
module _ (p : Pointer) (m : String) (h h' : Hub) (e : try_send p m h ≡ sent h') where
  pub is_member-try_send : (u : Uuid) (q : Pointer) → is_member h' u q ≡ is_member h u q
  unfolding try_send is_member
  is_member-try_send u q = ground arith

  pub is_closed-try_send : (q : Pointer) → is_closed h' q ≡ is_closed h q
  unfolding try_send
  is_closed-try_send q = ground arith

  pub user_of-try_send : (q : Pointer) → h'.user_of q ≡ h.user_of q
  unfolding try_send
  user_of-try_send q = ground arith

pub try_send-panicked :
    (p : Pointer) (m : String) (h : Hub) → try_send p m h ≡ panicked → is_closed h p ≡ true
unfolding try_send
try_send-panicked p m h e = ground arith

module _ (p : Pointer) (h : Hub) (c : is_closed h p ≡ false) where
  -- An open channel is closed by an eviction, and by an unregistration of a client of the map.
  pub evict-open : (u : Uuid) → (h' : Hub) × (evict u p h ≡ fine h') × (is_closed h' p ≡ true)
  unfolding evict
  evict-open u =
      let (h', e) = evict_fine u in
      (h', e, is_closed-evict u p h h' e p ∙ ground (arith, ==_iff p p))
    where
      evict_fine : (v : Uuid) → (h' : Hub) × (evict v p h ≡ fine h')
      evict_fine v = rw c (_, refl)

  pub unregister-open :
      is_member h (h.user_of p) p ≡ true
      → (h' : Hub) × (unregister p h ≡ fine h') × (is_closed h' p ≡ true)
  unfolding unregister is_member
  unregister-open m =
      let (h', e) = unregister_fine m in
      (h', e, is_closed-unregister p h h' e p ∙ ground (arith, ==_iff p p))
    where
      unregister_fine :
          contains p (list_of (h.clients (h.user_of p))) ≡ true
          → (h' : Hub) × (unregister p h ≡ fine h')
      unregister_fine k = rw (k, c) (_, refl)

pub evict-crash : (u : Uuid) (p : Pointer) (h : Hub) → is_closed h p ≡ true → evict u p h ≡ crash
unfolding evict
evict-crash u p h c = rw c
