-- ===== src/Swap/Protocol.antt =====
-- The life of a swap request through any history of calls on internal/service/timetable_service.go.
use arc_lms.Audit.{Actor}
use arc_lms.Prelude.{
  Uuid, Bool, true, false, List, [], ◌∷◌, ◌≡◌, refl, ◌∙◌, sym, ap, subst, ◌⊎◌, inl, inr, some,
  find_lem, find-append, find-update_where, ◌==◌, ==_iff, if◌then◌else◌,
}
use arc_lms.Database.{Conn}
use arc_lms.Swap.Request.{SwapRequest, SwapRequestStatus}
use arc_lms.Swap.Tables.{Tables, write_columns}
use arc_lms.Swap.Calls.{Call, run_call, run_calls, Permitted}
use arc_lms.Swap.Rows.{lookup, Change, call-Change}

-- The moves between two statuses.
pub data Step : SwapRequestStatus → SwapRequestStatus → Type 0 where
  approve : Step SwapRequestStatus.pending SwapRequestStatus.approved
  reject : Step SwapRequestStatus.pending SwapRequestStatus.rejected
  cancel : Step SwapRequestStatus.pending SwapRequestStatus.cancelled
  escalate : Step SwapRequestStatus.rejected SwapRequestStatus.escalated
  override : Step SwapRequestStatus.escalated SwapRequestStatus.approved
  give_up : Step SwapRequestStatus.escalated SwapRequestStatus.cancelled

pub data Reaches : SwapRequestStatus → SwapRequestStatus → Type 0 where
  stays : {t : SwapRequestStatus} → Reaches t t
  moves : {t u v : SwapRequestStatus} → Step t u → Reaches u v → Reaches t v

-- What no call writes over.
pub record SameParties (r r' : SwapRequest) : Type 0 where
  pub requesting_period : r'.requesting_period_id ≡ r.requesting_period_id
  pub target_period : r'.target_period_id ≡ r.target_period_id
  pub requesting_tutor : r'.requesting_tutor_id ≡ r.requesting_tutor_id
  pub target_tutor : r'.target_tutor_id ≡ r.target_tutor_id

abbrev same_parties : {r : SwapRequest} → SameParties r r
same_parties = record {
  requesting_period = refl;
  target_period = refl;
  requesting_tutor = refl;
  target_tutor = refl;
}

-- The request is stored, its parties are the same, and its status is as it was or may follow.
abbrev pub Follows : Actor → SwapRequest → SwapRequest → Type 0
Follows actor r r' = SameParties r r' × ((r'.status ≡ r.status) ⊎ Permitted actor r r'.status)

rewrite-Follows :
    (actor : Actor) (b : Bool) (r0 r r' : SwapRequest)
    → (b ≡ true → r0 ≡ r)
    → Permitted actor r r'.status
    → Follows actor r0 (if b then write_columns r' r0 else r0)
rewrite-Follows actor true r0 r r' e p = (
  record {
    requesting_period = refl;
    target_period = refl;
    requesting_tutor = refl;
    target_tutor = refl;
  },
  inr (subst (λ q. Permitted actor q r'.status) (sym (e refl)) p),
)
rewrite-Follows actor false r0 r r' e p = (same_parties, inl refl)

same_row :
    (x y : Uuid) (rs : List SwapRequest) (r0 r : SwapRequest)
    → lookup x rs ≡ some r0
    → lookup y rs ≡ some r
    → (r0.id == y) ≡ true
    → r0 ≡ r
same_row x y rs r0 r h g e =
    agree ((==_iff r0.id x).0 (find_lem (λ q. q.id == x) rs h)) ((==_iff r0.id y).0 e)
  where
    agree : r0.id ≡ x → r0.id ≡ y → r0 ≡ r
    agree p q = cc

follow :
    (actor : Actor) (x : Uuid) (r0 : SwapRequest) (rs rs' : List SwapRequest)
    → Change actor rs rs'
    → lookup x rs ≡ some r0
    → (r1 : SwapRequest) × (lookup x rs' ≡ some r1) × Follows actor r0 r1
follow actor x r0 rs rs' (Change.unchanged e) h =
    (r0, ap (lookup x) e ∙ h, (same_parties, inl refl))
follow actor x r0 rs rs' (Change.added r p b e) h =
    (r0, ap (lookup x) e ∙ find-append (λ q. q.id == x) rs _ h, (same_parties, inl refl))
follow actor x r0 rs rs' (Change.rewritten r r' g p e) h = (
  if r0.id == r'.id then write_columns r' r0 else r0,
  ap (lookup x) e ∙ find-update_where (λ q. q.id == x) _ _ rs (λ b. refl) h,
  rewrite-Follows actor (r0.id == r'.id) r0 r r' (same_row x r'.id rs r0 r h g) p,
)

-- The status that a permitted change leads to is one step on.
step_of :
    (actor : Actor) (r : SwapRequest) {u : SwapRequestStatus}
    → Permitted actor r u
    → Step r.status u
step_of actor r (Permitted.approves e t) = rw e Step.approve
step_of actor r (Permitted.rejects e t) = rw e Step.reject
step_of actor r (Permitted.escalates e t) = rw e Step.escalate
step_of actor r (Permitted.overrides e t) = rw e Step.override
step_of actor r (Permitted.cancels (inl e) t) = rw e Step.cancel
step_of actor r (Permitted.cancels (inr e) t) = rw e Step.give_up

-- A single call by anyone, failed or not, leaves a stored request in the table and its parties the
-- same; where its status is another one, the caller was the party or the administrator that may give
-- it that status from the stored one.
pub call_permitted :
    (actor : Actor) (k : Call) (c : Conn Tables) (x : Uuid) (r : SwapRequest)
    → lookup x c.db.swap_requests ≡ some r
    → (r' : SwapRequest) × (lookup x (run_call actor k c).1.db.swap_requests ≡ some r')
      × Follows actor r r'
call_permitted actor k c x r h = follow actor x r c.db.swap_requests _ (call-Change actor k c) h

-- A list of calls by any users, each failed or not, moves the status of a stored request only along
-- the steps of the protocol: approved and cancelled are final, rejected leads to escalated only.
pub history-Reaches :
    (ks : List (Actor × Call)) (c : Conn Tables) (x : Uuid) (r : SwapRequest)
    → lookup x c.db.swap_requests ≡ some r
    → (r' : SwapRequest) × (lookup x (run_calls ks c).db.swap_requests ≡ some r')
      × Reaches r.status r'.status
unfolding run_calls
history-Reaches [] c x r h = (r, h, Reaches.stays)
history-Reaches ((actor, k) ∷ ks) c x r h =
    let (r1, h1, f) = call_permitted actor k c x r h in
    let (r2, h2, g) = history-Reaches ks (run_call actor k c).1 x r1 h1 in
    (r2, h2, onwards actor r r1 f.1 g)
  where
    onwards :
        (actor : Actor) (r r1 : SwapRequest) {v : SwapRequestStatus}
        → (r1.status ≡ r.status) ⊎ Permitted actor r r1.status
        → Reaches r1.status v
        → Reaches r.status v
    onwards actor r r1 (inl e) g = rw⁻¹ e g
    onwards actor r r1 (inr p) g = Reaches.moves (step_of actor r p) g
