-- ===== src/Swap/Service.antt =====
-- The swap handlers of internal/service/timetable_service.go, and SwapPeriods of
-- internal/repository/postgres/period.go, which reads outside the transaction it writes in.
use arc_lms.Audit.{Actor, AuditAction, Role, audit_log}
use arc_lms.Prelude.{Bool, true, false, ◌&&◌, not, ◌==◌, Option, none, some, String, Uuid}
use arc_lms.Clock.{Time}
use arc_lms.Period.{Period, same_day}
use arc_lms.Database.{
  Db, execute, tx_execute, begin, commit, pure, query, failing, attempt, refuse_if, ◌>>=◌, ◌>>◌,
}
use arc_lms.Swap.Request.{
  SwapRequest, SwapRequestStatus, is_pending, is_rejected, is_escalated, approve, reject, escalate,
  admin_override, cancel,
}
use arc_lms.Swap.Tables.{
  Tables, get_period, get_swap_request, assign_period, update_swap_request, insert_swap_request,
  has_pending_request, insert_audit_log,
}

abbrev pub is_any_admin : Role → Bool
is_any_admin Role.admin = true
is_any_admin Role.super_admin = true
is_any_admin _ = false

-- `auditService.LogAction`, whose error the handlers drop.
unfoldable pub log_action : AuditAction → Actor → SwapRequest → Db Tables (Option Unit)
log_action action actor r =
    attempt (execute (insert_audit_log (audit_log action actor (some r.tenant_id) r.id)))

unfoldable pub swap_periods : Uuid → Uuid → Time → Db Tables Unit
swap_periods k l now = do
  p ← failing "failed to get period 1" (query (get_period k))
  q ← failing "failed to get period 2" (query (get_period l))
  tx_execute (assign_period k q.tutor_id q.course_id now)
  tx_execute (assign_period l p.tutor_id p.course_id now)

pub record SwapRequestInput : Type 0 where
  pub requesting_period_id : Uuid
  pub target_period_id : Uuid
  pub reason : Option String

-- The request that `CreateSwapRequest` stores, under the key that `uuid.New` gives.
abbrev pub new_request : Uuid → Uuid → SwapRequestInput → Period → Period → Time → SwapRequest
new_request id tenant_id req p q now = record {
  id = id;
  tenant_id = tenant_id;
  requesting_period_id = req.requesting_period_id;
  target_period_id = req.target_period_id;
  requesting_tutor_id = p.tutor_id;
  target_tutor_id = q.tutor_id;
  status = SwapRequestStatus.pending;
  reason = req.reason;
  rejection_reason = none;
  escalation_reason = none;
  admin_override_reason = none;
  admin_override_by = none;
  created_at = now;
  updated_at = now;
  responded_at = none;
  escalated_at = none;
}

unfoldable pub create_swap_request :
    Uuid → Uuid → SwapRequestInput → Actor → Time → Db Tables SwapRequest
create_swap_request id tenant_id req actor now = do
  p ← failing "failed to get requesting period" (query (get_period req.requesting_period_id))
  q ← failing "failed to get target period" (query (get_period req.target_period_id))
  refuse_if (not (p.tenant_id == tenant_id && q.tenant_id == tenant_id))
      "periods do not belong to tenant"
  refuse_if (not (p.tutor_id == actor.id)) "you can only request swaps for your own periods"
  refuse_if (not (same_day p.day_of_week q.day_of_week))
      "periods must be on the same day for swapping"
  refuse_if (not (p.class_id == q.class_id)) "periods must be in the same class for swapping"
  pending ←
      failing "failed to check pending requests"
        (query (has_pending_request req.requesting_period_id req.target_period_id))
  refuse_if pending "a pending swap request already exists for these periods"
  failing "failed to create swap request"
      (execute (insert_swap_request (new_request id tenant_id req p q now)))
  log_action AuditAction.period_swap_requested actor (new_request id tenant_id req p q now)
  pure (new_request id tenant_id req p q now)

-- What `ApproveSwapRequest` and `AdminOverrideSwapRequest` do inside their transaction.
unfoldable pub swap_and_store : SwapRequest → SwapRequest → Time → Db Tables Unit
swap_and_store r r' now = do
  failing "failed to begin transaction" begin
  failing "failed to swap periods" (swap_periods r.requesting_period_id r.target_period_id now)
  failing "failed to update swap request" (tx_execute (update_swap_request r'))
  failing "failed to commit transaction" commit

unfoldable pub approve_swap_request : Uuid → Actor → Time → Time → Db Tables SwapRequest
approve_swap_request k actor swapped_at now = do
  r ← failing "failed to get swap request" (query (get_swap_request k))
  refuse_if (not (r.target_tutor_id == actor.id)) "only the target tutor can approve this request"
  refuse_if (not (is_pending r)) "swap request is not pending"
  swap_and_store r (approve now r) swapped_at
  log_action AuditAction.period_swap_approved actor (approve now r)
  pure (approve now r)

unfoldable pub reject_swap_request : Uuid → String → Actor → Time → Db Tables SwapRequest
reject_swap_request k why actor now = do
  r ← failing "failed to get swap request" (query (get_swap_request k))
  refuse_if (not (r.target_tutor_id == actor.id)) "only the target tutor can reject this request"
  refuse_if (not (is_pending r)) "swap request is not pending"
  failing "failed to update swap request" (execute (update_swap_request (reject why now r)))
  log_action AuditAction.period_swap_rejected actor (reject why now r)
  pure (reject why now r)

unfoldable pub escalate_swap_request : Uuid → String → Actor → Time → Db Tables SwapRequest
escalate_swap_request k why actor now = do
  r ← failing "failed to get swap request" (query (get_swap_request k))
  refuse_if (not (r.requesting_tutor_id == actor.id))
      "only the requesting tutor can escalate this request"
  refuse_if (not (is_rejected r)) "only rejected requests can be escalated"
  failing "failed to update swap request" (execute (update_swap_request (escalate why now r)))
  pure (escalate why now r)

unfoldable pub admin_override_swap_request :
    Uuid → String → Actor → Time → Time → Db Tables SwapRequest
admin_override_swap_request k why actor swapped_at now = do
  refuse_if (not (is_any_admin actor.role)) "only admins can override swap requests"
  r ← failing "failed to get swap request" (query (get_swap_request k))
  refuse_if (not (is_escalated r)) "only escalated requests can be overridden"
  swap_and_store r (admin_override actor.id why now r) swapped_at
  log_action AuditAction.period_swap_approved actor (admin_override actor.id why now r)
  pure (admin_override actor.id why now r)

unfoldable pub cancel_swap_request : Uuid → Uuid → Time → Db Tables SwapRequest
cancel_swap_request k actor_id now = do
  r ← failing "failed to get swap request" (query (get_swap_request k))
  refuse_if (not (r.requesting_tutor_id == actor_id))
      "only the requesting tutor can cancel this request"
  refuse_if (not (is_pending r) && not (is_escalated r)) "swap request cannot be cancelled"
  failing "failed to update swap request" (execute (update_swap_request (cancel now r)))
  pure (cancel now r)
