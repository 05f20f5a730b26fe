-- ===== src/WebSocket/Invariant.antt =====
-- What every interleaving of internal/pkg/websocket keeps.
use arc_lms.Prelude.{
  ℕ, ◌≢◌, Bool, true, false, ◌==◌, ==_iff, Bool-cases, List, [], ◌∷◌, ◌≡◌, refl, sym, ◌∙◌, ap,
  subst, arith, String, Uuid, update, ◌⊎◌, inl, inr, ◌&&◌, not,
}
use arc_lms.WebSocket.Hub.{
  Pointer, Hub, is_member, is_closed, sent, panicked, try_send, fine, crash, register, unregister,
  evict,
}
use arc_lms.WebSocket.Hub.Laws.{
  is_member-register, is_member-unregister, is_closed-unregister, user_of-unregister,
  is_member-evict, is_closed-evict, user_of-evict, unregister-crash, is_member-try_send,
  is_closed-try_send, user_of-try_send, try_send-panicked,
}
use arc_lms.WebSocket.Threads.{
  Run, waiting, inserting, removing, Sender, idle, reading, resuming, evicting, reaching, Pump,
  fresh, leaving, stopped, State, Step, accept, insert, leave, depart, remove, pong, drain,
  start_user, start_all, visit, find_full, drop_client, resume, reach, pass_over, finish, accepted,
  inserted, Reach, here, next, with_sender, with_queue, new_state,
}

abbrev is_fresh : Pump → Bool
is_fresh fresh = true
is_fresh _ = false

abbrev is_inserting : Run → Pointer → Bool
is_inserting (inserting q) p = q == p
is_inserting _ p = false

-- Its registration has been made.
abbrev IsKnown : State → Pointer → Type 0
IsKnown s p = (is_fresh (s.pumps p) ≡ false) × (is_inserting s.run p ≡ false)

abbrev SenderOk : State → Sender → Type 0
SenderOk s (evicting u p v m) = (u ≡ s.hub.user_of p) × IsKnown s p
SenderOk s _ = Unit

-- A client of the map is its user's, has an open channel, and is not about to be registered again.
pub record Inv (s : State) : Type 0 where
  pub members :
      (u : Uuid) (p : Pointer)
      → is_member s.hub u p ≡ true
      → (u ≡ s.hub.user_of p) × (is_closed s.hub p ≡ false) × IsKnown s p
  pub registering :
      (p : Pointer)
      → is_inserting s.run p ≡ true
      → (is_closed s.hub p ≡ false) × (is_fresh (s.pumps p) ≡ false)
  pub sending : (i : ℕ) → SenderOk s (s.senders i)

-- The map, the users and the closings of two hubs agree.
record Same (h h' : Hub) : Type 0 where
  member : (u : Uuid) (p : Pointer) → is_member h' u p ≡ is_member h u p
  closed : (p : Pointer) → is_closed h' p ≡ is_closed h p
  owner : (p : Pointer) → h'.user_of p ≡ h.user_of p

SenderOk-Same :
    (s : State) (h : Hub) (t : Sender)
    → Same s.hub h
    → SenderOk s t
    → SenderOk (record s { hub = h }) t
SenderOk-Same s h (evicting u p v m) e k = (k.0 ∙ sym (e.owner p), k.1)
SenderOk-Same s h idle e k = tt
SenderOk-Same s h (reading u v m) e k = tt
SenderOk-Same s h (resuming u v m) e k = tt
SenderOk-Same s h (reaching v m) e k = tt

Inv-Same : (s : State) (h : Hub) → Same s.hub h → Inv s → Inv (record s { hub = h })
Inv-Same s h e inv = record {
  members = λ u p m.
      let k = inv.members u p (sym (e.member u p) ∙ m) in
      (k.0 ∙ sym (e.owner p), e.closed p ∙ k.1, k.2);
  registering = λ p r. let k = inv.registering p r in (e.closed p ∙ k.0, k.1);
  sending = λ i. SenderOk-Same s h (s.senders i) e (inv.sending i);
}

update_cases {ℓ κ} :
    {A : Type ℓ} (P : A → Type κ) (f : ℕ → A) (i : ℕ) (a : A)
    → P a
    → ((j : ℕ) → P (f j))
    → (j : ℕ) → P (update f i a j)
update_cases P f i a h k j = elim (Bool-cases (i == j)) [ inl e ↦ rw e h | inr e ↦ rw e (k j) ]

Inv-with_sender : (s : State) (i : ℕ) (t : Sender) → SenderOk s t → Inv s → Inv (with_sender s i t)
Inv-with_sender s i t h inv = record {
  members = inv.members;
  registering = inv.registering;
  sending = update_cases (SenderOk s) s.senders i t h inv.sending;
}

Same-try_send : (p : Pointer) (m : String) (h h' : Hub) → try_send p m h ≡ sent h' → Same h h'
Same-try_send p m h h' e = record {
  member = is_member-try_send p m h h' e;
  closed = is_closed-try_send p m h h' e;
  owner = user_of-try_send p m h h' e;
}

Same-with_queue : (h : Hub) (p : Pointer) (q : List String) → Same h (with_queue h p q)
unfolding is_member
Same-with_queue h p q = record {
  member = λ u p'. refl;
  closed = λ p'. ground arith;
  owner = λ p'. refl;
}

-- What a step does to the pumps and to `Run` keeps the senders, where it keeps what is known.
SenderOk-imp :
    (s t : State)
    → ((p : Pointer) → IsKnown s p → IsKnown t p)
    → ((p : Pointer) → t.hub.user_of p ≡ s.hub.user_of p)
    → (x : Sender) → SenderOk s x
    → SenderOk t x
SenderOk-imp s t f g (evicting u p v m) k = (k.0 ∙ sym (g p), f p k.1)
SenderOk-imp s t f g idle k = tt
SenderOk-imp s t f g (reading u v m) k = tt
SenderOk-imp s t f g (resuming u v m) k = tt
SenderOk-imp s t f g (reaching v m) k = tt

IsKnown-accepted :
    (s : State) (p : Pointer)
    → s.pumps p ≡ fresh
    → (q : Pointer) → IsKnown s q
    → IsKnown (accepted s p) q
IsKnown-accepted s p e q k = elim (Bool-cases (p == q)) [
  | inl h ↦
      let f : is_fresh (s.pumps q) ≡ true = ap is_fresh (ap s.pumps (sym ((==_iff p q).0 h)) ∙ e) in
      absurd (cc)
  | inr h ↦ (rw h k.0, h)
]

Inv-accept : (s : State) (p : Pointer) → s.pumps p ≡ fresh → Inv s → Inv (accepted s p)
unfolding is_member
Inv-accept s p e inv = record {
  members = λ u q m. let k = inv.members u q m in (k.0, ground arith, IsKnown-accepted s p e q k.2);
  registering = λ q r. (ground arith, ground arith);
  sending = λ i.
      SenderOk-imp s (accepted s p) (IsKnown-accepted s p e) (λ q. refl) (s.senders i)
        (inv.sending i);
}

IsKnown-inserted : (s : State) (p : Pointer) (q : Pointer) → IsKnown s q → IsKnown (inserted s p) q
IsKnown-inserted s p q k = (k.0, refl)

Inv-insert : (s : State) (p : Pointer) → s.run ≡ inserting p → Inv s → Inv (inserted s p)
unfolding register
Inv-insert s p e inv = record {
  members = λ u q m. elim (Bool-cases (is_member s.hub u q)) [
    | inl old ↦ let k = inv.members u q old in (k.0, k.1, IsKnown-inserted s p q k.2)
    | inr new ↦
        let both = is_member-register p s.hub u q in
        let is_p : p ≡ q = ground (arith, ==_iff p q) in
        let of_u : s.hub.user_of p ≡ u = ground (arith, ==_iff (s.hub.user_of p) u) in
        let k = inv.registering p (ap (λ r. is_inserting r p) e ∙ (==_iff p p).1 refl) in
        subst (λ x. (u ≡ s.hub.user_of x) × (is_closed s.hub x ≡ false) × IsKnown (inserted s p) x)
          is_p (sym of_u, k.0, (k.1, refl))
  ];
  registering = λ q r. cc;
  sending = λ i.
      SenderOk-imp s (inserted s p) (IsKnown-inserted s p) (λ q. refl) (s.senders i)
        (inv.sending i);
}

-- A pump goes on, and the client is not new again.
Inv-pump :
    (s : State) (p : Pointer) (t : Pump)
    → is_fresh t ≡ false
    → Inv s
    → Inv (record s { pumps = update s.pumps p t })
Inv-pump s p t h inv = record {
  members = λ u q m. let k = inv.members u q m in (k.0, k.1, known q k.2);
  registering = λ q r. let k = inv.registering q r in (k.0, ground arith);
  sending = λ i.
      SenderOk-imp s (record s { pumps = update s.pumps p t }) known (λ q. refl) (s.senders i)
        (inv.sending i);
}
  where
    known :
        (q : Pointer)
        → IsKnown s q
        → (is_fresh (update s.pumps p t q) ≡ false) × (is_inserting s.run q ≡ false)
    known q k = (ground arith, k.1)

-- `Run` takes up an unregistration, or is done with one.
Inv-run :
    (s : State) (r : Run)
    → ((q : Pointer) → is_inserting r q ≡ false)
    → Inv s
    → Inv (record s { run = r })
Inv-run s r h inv = record {
  members = λ u q m. let k = inv.members u q m in (k.0, k.1, ((k.2).0, h q));
  registering = λ q g. let never = h q in absurd (cc);
  sending = λ i.
      SenderOk-imp s (record s { run = r }) (λ q k. (k.0, h q)) (λ q. refl) (s.senders i)
        (inv.sending i);
}

-- A client is taken out of the map and its channel closed.
module _ (s : State) (p : Pointer) (h : Hub) (inv : Inv s) where
  members_if_less :
      (w : Uuid)
      → w ≡ s.hub.user_of p
      → ((u : Uuid) (q : Pointer)
          → is_member h u q ≡ (is_member s.hub u q && not ((w == u) && (p == q))))
      → ((q : Pointer) → is_closed h q ≡ true → (is_closed s.hub q ≡ true) ⊎ (p ≡ q))
      → ((q : Pointer) → h.user_of q ≡ s.hub.user_of q)
      → (u : Uuid) (q : Pointer) → is_member h u q ≡ true
      → (u ≡ h.user_of q) × (is_closed h q ≡ false) × IsKnown s q
  members_if_less w e f g o u q m =
      let eq = f u q in
      let old : is_member s.hub u q ≡ true = ground arith in
      let k = inv.members u q old in (k.0 ∙ sym (o q), still_open (is_closed h q) refl, k.2)
    where
      still_open : (b : Bool) → is_closed h q ≡ b → b ≡ false
      still_open false c = refl
      still_open true c = elim (g q c) [
        | inl before ↦
            let eq = f u q in
            let old : is_member s.hub u q ≡ true = ground arith in let k = inv.members u q old in cc
        | inr same ↦
            let eq = f u q in
            let old : is_member s.hub u q ≡ true = ground arith in
            let k = inv.members u q old in
            let of_w : w ≡ u = e ∙ ap s.hub.user_of same ∙ sym k.0 in
            let b1 = (==_iff w u).1 of_w in let b2 = (==_iff p q).1 same in ground arith
      ]

Inv-remove :
    (s : State) (p : Pointer) (h : Hub)
    → s.run ≡ removing p
    → unregister p s.hub ≡ fine h
    → Inv s
    → Inv (record s { hub = h; run = waiting })
Inv-remove s p h e c inv =
    Inv-run (record s { hub = h }) waiting (λ q. refl)
      (record {
        members =
            members_if_less s p h inv (s.hub.user_of p) refl (is_member-unregister p s.hub h c)
              (λ q k. closed_before q k) (user_of-unregister p s.hub h c);
        registering = λ q r. absurd (cc (ap (λ x. is_inserting x q) e));
        sending = λ i.
            SenderOk-imp s (record s { hub = h }) (λ q k. k) (user_of-unregister p s.hub h c)
              (s.senders i) (inv.sending i);
      })
  where
    closed_before : (q : Pointer) → is_closed h q ≡ true → (is_closed s.hub q ≡ true) ⊎ (p ≡ q)
    closed_before q k = let eq = is_closed-unregister p s.hub h c q in ground (arith, ==_iff p q)

Inv-drop :
    (s : State) (u : Uuid) (p : Pointer) (h : Hub)
    → (u ≡ s.hub.user_of p) × IsKnown s p
    → evict u p s.hub ≡ fine h
    → Inv s
    → Inv (record s { hub = h })
Inv-drop s u p h e c inv = record {
  members =
      members_if_less s p h inv u e.0 (is_member-evict u p s.hub h c) (λ q k. closed_before q k)
        (user_of-evict u p s.hub h c);
  registering = λ q r. let k = inv.registering q r in (not_closed q r k.0, k.1);
  sending = λ i.
      SenderOk-imp s (record s { hub = h }) (λ q k. k) (user_of-evict u p s.hub h c) (s.senders i)
        (inv.sending i);
}
  where
    closed_before : (q : Pointer) → is_closed h q ≡ true → (is_closed s.hub q ≡ true) ⊎ (p ≡ q)
    closed_before q k = let eq = is_closed-evict u p s.hub h c q in ground (arith, ==_iff p q)

    not_closed :
        (q : Pointer)
        → is_inserting s.run q ≡ true
        → is_closed s.hub q ≡ false
        → is_closed h q ≡ false
    not_closed q r k =
        let eq = is_closed-evict u p s.hub h c q in
        let other = e.1 in ground (arith, ==_iff p q, ap (is_inserting s.run))

Step-Inv : {s t : State} → Step s t → Inv s → Inv t
Step-Inv (accept s p e w) inv = Inv-accept s p e inv
Step-Inv (insert s p e n) inv = Inv-insert s p e inv
Step-Inv (leave s p e) inv = Inv-pump s p leaving refl inv
Step-Inv (depart s p e w) inv =
    Inv-run (record s { pumps = update s.pumps p stopped }) (removing p) (λ q. refl)
      (Inv-pump s p stopped refl inv)
Step-Inv (remove s p h e n c) inv = Inv-remove s p h e c inv
Step-Inv (pong s p h e c) inv = Inv-Same s h (Same-try_send p "PONG" s.hub h c) inv
Step-Inv (drain s p m q e) inv = Inv-Same s (with_queue s.hub p q) (Same-with_queue s.hub p q) inv
Step-Inv (start_user s i u m e) inv = Inv-with_sender s i (reading u [] m) tt inv
Step-Inv (start_all s i m e) inv = Inv-with_sender s i (reaching [] m) tt inv
Step-Inv (visit s i u p v m h e k f c) inv =
    Inv-with_sender (record s { hub = h }) i (reading u (p ∷ v) m) tt
      (Inv-Same s h (Same-try_send p m s.hub h c) inv)
Step-Inv (find_full s i u p v m e k f c) inv =
    let known = inv.members u p k in
    Inv-with_sender s i (evicting u p (p ∷ v) m) (known.0, known.2) inv
Step-Inv (drop_client s i u p v m h e n c) inv =
    Inv-with_sender (record s { hub = h }) i (resuming u v m) tt
      (Inv-drop s u p h (subst (SenderOk s) e (inv.sending i)) c inv)
Step-Inv (resume s i u v m e) inv = Inv-with_sender s i (reading u v m) tt inv
Step-Inv (reach s i u p v m h e k f c) inv =
    Inv-with_sender (record s { hub = h }) i (reaching (p ∷ v) m) tt
      (Inv-Same s h (Same-try_send p m s.hub h c) inv)
Step-Inv (pass_over s i u p v m e k c) inv = Inv-with_sender s i (reaching (p ∷ v) m) tt inv
Step-Inv (finish s i e) inv = Inv-with_sender s i idle tt inv

Inv-new : (user_of : Pointer → Uuid) → Inv (new_state user_of)
unfolding is_member
Inv-new user_of = record {
  members = λ u p m. absurd (cc);
  registering = λ p r. absurd (cc);
  sending = λ i. tt;
}

pub Reach-Inv : {s t : State} → Inv s → Reach s t → Inv t
Reach-Inv inv here = inv
Reach-Inv inv (next r st) = Step-Inv st (Reach-Inv inv r)

-- However the goroutines interleave, a client in the map of a user is a connection of that user, no send
-- to one panics (of `SendToUser` or of `Broadcast`), and no unregistration panics.
pub sends_are_safe :
    (user_of : Pointer → Uuid) {s : State}
    → Reach (new_state user_of) s
    → ((u : Uuid) (p : Pointer) (m : String)
        → is_member s.hub u p ≡ true
        → (u ≡ s.hub.user_of p) × (try_send p m s.hub ≢ panicked))
      × ((p : Pointer) → unregister p s.hub ≢ crash)
sends_are_safe user_of {s} r = (
  λ u p m k.
      let known = (Reach-Inv (Inv-new user_of) r).members u p k in
      (known.0, λ e. let c = try_send-panicked p m s.hub e in absurd (cc)),
  λ p e.
      let (k, c) = unregister-crash p s.hub e in
      let known = (Reach-Inv (Inv-new user_of) r).members (s.hub.user_of p) p k in absurd (cc),
)
