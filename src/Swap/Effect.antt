-- ===== src/Swap/Effect.antt =====
-- What each successful swap handler of internal/service/timetable_service.go does to the tables.
use arc_lms.Audit.{Actor, AuditAction, AuditLog}
use arc_lms.Prelude.{
  Uuid, ◌≡◌, refl, Bool, true, false, not, ◌&&◌, ◌⊎◌, inl, inr, arith, ◌==◌, String,
}
use arc_lms.Clock.{Time}
use arc_lms.Period.{Period}
use arc_lms.Database.{Conn, ok, tx_execute, commit, pure, failing, ◌>>=◌}
use arc_lms.Database.Ensures.{
  Ensures, Ensures-failing, Ensures-pure, Ensures-attempt, Ensures-tx_execute, Ensures-begin,
  Ensures-commit, Ensures-bind, after_query, after_execute, after_refuse_if,
}
use arc_lms.Swap.Request.{
  SwapRequest, SwapRequestStatus, status_is_pending, status_is_rejected, status_is_escalated,
}
use arc_lms.Swap.Request
use arc_lms.Swap.Tables.{
  Tables, get_period, get_swap_request, assign_period, update_swap_request, insert_swap_request,
  has_pending_request, pending_between, insert_audit_log,
}
use arc_lms.Swap.Service.{
  SwapRequestInput, log_action, swap_periods, swap_and_store, new_request, create_swap_request,
  approve_swap_request, reject_swap_request, escalate_swap_request, admin_override_swap_request,
  cancel_swap_request,
}
use arc_lms.Swap.Calls.{Call, run_call, Permitted}

-- The tables differ by audit entries at most.
abbrev pub Audited : Tables → Tables → Type 0
Audited s s' = (s'.swap_requests ≡ s.swap_requests) × (s'.periods ≡ s.periods)

-- `r` is a request as it was stored, `r'` what is written over it.
pub data Effect (actor : Actor) (s s' : Tables) : Type 0 where
  created :
      (r : SwapRequest) (s1 : Tables)
      → r.status ≡ SwapRequestStatus.pending
      → pending_between r.requesting_period_id r.target_period_id s.swap_requests ≡ false
      → insert_swap_request r s ≡ ok s1
      → Audited s1 s'
      → Effect actor s s'
  answered :
      (k : Uuid) (r r' : SwapRequest) (s1 : Tables)
      → get_swap_request k s ≡ ok r
      → r'.id ≡ r.id
      → Permitted actor r r'.status
      → update_swap_request r' s ≡ ok s1
      → Audited s1 s'
      → Effect actor s s'
  swapped :
      (k : Uuid) (r r' : SwapRequest) (p q : Period) (now : Time) (s1 s2 s3 : Tables)
      → get_swap_request k s ≡ ok r
      → r'.id ≡ r.id
      → Permitted actor r r'.status
      → get_period r.requesting_period_id s ≡ ok p
      → get_period r.target_period_id s ≡ ok q
      → assign_period r.requesting_period_id q.tutor_id q.course_id now s ≡ ok s1
      → assign_period r.target_period_id p.tutor_id p.course_id now s1 ≡ ok s2
      → update_swap_request r' s2 ≡ ok s3
      → Audited s3 s'
      → Effect actor s s'

Audited-insert : (a : AuditLog) (s s' : Tables) → insert_audit_log a s ≡ ok s' → Audited s s'
Audited-insert a s s' h = (cc, cc)

Ensures-log_action :
    (a : AuditAction) (actor : Actor) (r r' : SwapRequest) {c : Conn Tables} {Q : Tables → Type 0}
    → ((s' : Tables) → Audited c.db s' → Q s')
    → Ensures (log_action a actor r >>= λ _. pure r') c (λ _ c'. Q c'.db)
unfolding log_action
Ensures-log_action a actor r r' {c = c} k = Ensures-bind (
    Ensures-attempt _ (Ensures-pure _ (k c.db (refl, refl)))
      (λ s' h. Ensures-pure _ (k s' (Audited-insert _ c.db s' h))))

-- The end of the transaction, after both periods were assigned.
Ensures-store :
    (a : AuditAction) (actor : Actor) (r' : SwapRequest) (c : Conn Tables) (Q : Tables → Type 0)
    → ((s s' : Tables) → update_swap_request r' c.tx ≡ ok s → Audited s s' → Q s')
    → Ensures
        (failing "failed to update swap request" (tx_execute (update_swap_request r')) >>= λ _.
          failing "failed to commit transaction" commit)
        c
        (λ _ c1. Ensures (log_action a actor r' >>= λ _. pure r') c1 (λ _ c'. Q c'.db))
Ensures-store a actor r' c Q k = Ensures-bind (
    Ensures-failing _ (
      Ensures-tx_execute _ (λ s h.
        Ensures-failing _ (Ensures-commit (Ensures-log_action a actor r' r' (λ s'. k s s' h))))))

-- After a request that passed its guards.
Ensures-swap_and_store :
    (actor : Actor) (a : AuditAction) (k : Uuid) (r r' : SwapRequest) (now : Time) (c : Conn Tables)
    → get_swap_request k c.db ≡ ok r
    → r'.id ≡ r.id
    → Permitted actor r r'.status
    → Ensures
        (swap_and_store r r' now >>= λ _. log_action a actor r' >>= λ _. pure r')
        c
        (λ _ c'. Effect actor c.db c'.db)
unfolding swap_and_store swap_periods
Ensures-swap_and_store actor a k r r' now c g e p = Ensures-bind (
    Ensures-bind (
      Ensures-failing _ (
        Ensures-begin (
          Ensures-bind (
            Ensures-failing _ (
              after_query _ _ (λ x hx. after_query _ _ (λ y hy. Ensures-bind (
                Ensures-tx_execute _ (λ s1 h1. Ensures-tx_execute _ (λ s2 h2.
                  Ensures-store _ _ r' _ _
                    (λ s3 s'. Effect.swapped k r r' x y now s1 s2 s3 g e p hx hy h1 h2))))))))))))

true_of_not : (b : Bool) → not b ≡ false → b ≡ true
true_of_not b h = ground arith

pending_of :
    (t : SwapRequestStatus) → not (status_is_pending t) ≡ false → t ≡ SwapRequestStatus.pending
pending_of SwapRequestStatus.pending h = refl
pending_of _ h = cc

rejected_of :
    (t : SwapRequestStatus) → not (status_is_rejected t) ≡ false → t ≡ SwapRequestStatus.rejected
rejected_of SwapRequestStatus.rejected h = refl
rejected_of _ h = cc

escalated_of :
    (t : SwapRequestStatus) → not (status_is_escalated t) ≡ false → t ≡ SwapRequestStatus.escalated
escalated_of SwapRequestStatus.escalated h = refl
escalated_of _ h = cc

open_of :
    (t : SwapRequestStatus)
    → (not (status_is_pending t) && not (status_is_escalated t)) ≡ false
    → (t ≡ SwapRequestStatus.pending) ⊎ (t ≡ SwapRequestStatus.escalated)
open_of SwapRequestStatus.pending h = inl refl
open_of SwapRequestStatus.escalated h = inr refl
open_of _ h = cc

sent : (b d : Bool) → ok d ≡ ok b → b ≡ false → d ≡ false
sent b d h g = cc

same_of : (k l : Uuid) → not (k == l) ≡ false → k ≡ l
same_of k l h = ground arith

create-Effect :
    (actor : Actor) (id tenant_id : Uuid) (req : SwapRequestInput) (now : Time) (c : Conn Tables)
    → Ensures (create_swap_request id tenant_id req actor now) c (λ _ c'. Effect actor c.db c'.db)
unfolding create_swap_request has_pending_request
create-Effect actor id tenant_id req now c = after_query _ _ (λ p hp. after_query _ _ (λ q hq.
    after_refuse_if _ _ (λ g1. after_refuse_if _ _ (λ g2. after_refuse_if _ _ (λ g3.
      after_refuse_if _ _ (λ g4. after_query _ _ (λ b hb. after_refuse_if _ _ (λ g5.
        after_execute _ _ (λ s h. Ensures-log_action _ _ _ _ (λ s'.
          Effect.created (new_request id tenant_id req p q now) s refl (sent b _ hb g5) h))))))))))

approve-Effect :
    (actor : Actor) (k : Uuid) (t now : Time) (c : Conn Tables)
    → Ensures (approve_swap_request k actor t now) c (λ _ c'. Effect actor c.db c'.db)
unfolding approve_swap_request
approve-Effect actor k t now c = after_query _ _ (λ r h. after_refuse_if _ _ (λ g1.
    after_refuse_if _ _ (λ g2.
      Ensures-swap_and_store actor _ k r (Request.approve now r) t _ h refl
        (Permitted.approves (pending_of r.status g2) (same_of _ _ g1)))))

reject-Effect :
    (actor : Actor) (k : Uuid) (why : String) (now : Time) (c : Conn Tables)
    → Ensures (reject_swap_request k why actor now) c (λ _ c'. Effect actor c.db c'.db)
unfolding reject_swap_request
reject-Effect actor k why now c = after_query _ _ (λ r h. after_refuse_if _ _ (λ g1.
    after_refuse_if _ _ (λ g2. after_execute _ _ (λ s h1. Ensures-log_action _ _ _ _ (λ s'.
      Effect.answered k r (Request.reject why now r) s h refl
        (Permitted.rejects (pending_of r.status g2) (same_of _ _ g1)) h1)))))

escalate-Effect :
    (actor : Actor) (k : Uuid) (why : String) (now : Time) (c : Conn Tables)
    → Ensures (escalate_swap_request k why actor now) c (λ _ c'. Effect actor c.db c'.db)
unfolding escalate_swap_request
escalate-Effect actor k why now c = after_query _ _ (λ r h. after_refuse_if _ _ (λ g1.
    after_refuse_if _ _ (λ g2. after_execute _ _ (λ s h1. Ensures-pure _ (
      Effect.answered k r (Request.escalate why now r) s h refl
        (Permitted.escalates (rejected_of r.status g2) (same_of _ _ g1)) h1 (refl, refl))))))

override-Effect :
    (actor : Actor) (k : Uuid) (why : String) (t now : Time) (c : Conn Tables)
    → Ensures (admin_override_swap_request k why actor t now) c (λ _ c'. Effect actor c.db c'.db)
unfolding admin_override_swap_request
override-Effect actor k why t now c = after_refuse_if _ _ (λ g1. after_query _ _ (λ r h.
    after_refuse_if _ _ (λ g2.
      Ensures-swap_and_store actor _ k r (Request.admin_override actor.id why now r) t _ h refl
        (Permitted.overrides (escalated_of r.status g2) (true_of_not _ g1)))))

cancel-Effect :
    (actor : Actor) (k : Uuid) (now : Time) (c : Conn Tables)
    → Ensures (cancel_swap_request k actor.id now) c (λ _ c'. Effect actor c.db c'.db)
unfolding cancel_swap_request
cancel-Effect actor k now c = after_query _ _ (λ r h. after_refuse_if _ _ (λ g1.
    after_refuse_if _ _ (λ g2. after_execute _ _ (λ s h1. Ensures-pure _ (
      Effect.answered k r (Request.cancel now r) s h refl
        (Permitted.cancels (open_of r.status g2) (same_of _ _ g1)) h1 (refl, refl))))))

pub call-Effect :
    (actor : Actor) (k : Call) (c : Conn Tables)
    → Ensures (run_call actor k) c (λ _ c'. Effect actor c.db c'.db)
call-Effect actor (Call.create id tenant_id req now) c = create-Effect actor id tenant_id req now c
call-Effect actor (Call.approve k t now) c = approve-Effect actor k t now c
call-Effect actor (Call.reject k why now) c = reject-Effect actor k why now c
call-Effect actor (Call.escalate k why now) c = escalate-Effect actor k why now c
call-Effect actor (Call.admin_override k why t now) c = override-Effect actor k why t now c
call-Effect actor (Call.cancel k now) c = cancel-Effect actor k now c
