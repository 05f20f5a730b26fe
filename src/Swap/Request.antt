-- ===== src/Swap/Request.antt =====
-- internal/domain/period.go: a request to swap two periods, and the changes of its status, each at
-- the instant that `time.Now` gives.
use arc_lms.Prelude.{Bool, true, false, Option, some, String, Uuid}
use arc_lms.Clock.{Time}

pub data SwapRequestStatus : Type 0 where
  pending approved rejected escalated cancelled : SwapRequestStatus

pub record SwapRequest : Type 0 where
  pub id : Uuid
  pub tenant_id : Uuid
  pub requesting_period_id : Uuid
  pub target_period_id : Uuid
  pub requesting_tutor_id : Uuid
  pub target_tutor_id : Uuid
  pub status : SwapRequestStatus
  pub reason : Option String
  pub rejection_reason : Option String
  pub escalation_reason : Option String
  pub admin_override_reason : Option String
  pub admin_override_by : Option Uuid
  pub created_at : Time
  pub updated_at : Time
  pub responded_at : Option Time
  pub escalated_at : Option Time

abbrev pub status_is_pending : SwapRequestStatus → Bool
status_is_pending SwapRequestStatus.pending = true
status_is_pending _ = false

abbrev pub status_is_rejected : SwapRequestStatus → Bool
status_is_rejected SwapRequestStatus.rejected = true
status_is_rejected _ = false

abbrev pub status_is_escalated : SwapRequestStatus → Bool
status_is_escalated SwapRequestStatus.escalated = true
status_is_escalated _ = false

-- `IsPending`, `IsRejected` and `IsEscalated`
abbrev pub is_pending : SwapRequest → Bool
is_pending r = status_is_pending r.status

abbrev pub is_rejected : SwapRequest → Bool
is_rejected r = status_is_rejected r.status

abbrev pub is_escalated : SwapRequest → Bool
is_escalated r = status_is_escalated r.status

abbrev pub approve : Time → SwapRequest → SwapRequest
approve now r = record r {
  status = SwapRequestStatus.approved;
  responded_at = some now;
  updated_at = now;
}

abbrev pub reject : String → Time → SwapRequest → SwapRequest
reject why now r = record r {
  status = SwapRequestStatus.rejected;
  rejection_reason = some why;
  responded_at = some now;
  updated_at = now;
}

abbrev pub escalate : String → Time → SwapRequest → SwapRequest
escalate why now r = record r {
  status = SwapRequestStatus.escalated;
  escalation_reason = some why;
  escalated_at = some now;
  updated_at = now;
}

abbrev pub admin_override : Uuid → String → Time → SwapRequest → SwapRequest
admin_override admin why now r = record r {
  status = SwapRequestStatus.approved;
  admin_override_reason = some why;
  admin_override_by = some admin;
  responded_at = some now;
  updated_at = now;
}

abbrev pub cancel : Time → SwapRequest → SwapRequest
cancel now r = record r { status = SwapRequestStatus.cancelled; updated_at = now }
