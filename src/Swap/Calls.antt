-- ===== src/Swap/Calls.antt =====
-- The calls that change swap requests, in internal/service/timetable_service.go, as one type, so that
-- a history is a list of them; and who may change which status.
use arc_lms.Audit.{Actor}
use arc_lms.Prelude.{String, Uuid, List, [], ◌∷◌, ◌≡◌, true, ◌⊎◌}
use arc_lms.Clock.{Time}
use arc_lms.Database.{Conn, Db}
use arc_lms.Swap.Request.{SwapRequest, SwapRequestStatus}
use arc_lms.Swap.Tables.{Tables}
use arc_lms.Swap.Service.{
  SwapRequestInput, is_any_admin, create_swap_request, approve_swap_request, reject_swap_request,
  escalate_swap_request, admin_override_swap_request, cancel_swap_request,
}

-- A call, with what `uuid.New` and `time.Now` give during it.
pub data Call : Type 0 where
  create : Uuid → Uuid → SwapRequestInput → Time → Call
  approve : Uuid → Time → Time → Call
  reject escalate : Uuid → String → Time → Call
  admin_override : Uuid → String → Time → Time → Call
  cancel : Uuid → Time → Call

abbrev pub run_call : Actor → Call → Db Tables SwapRequest
run_call actor (Call.create id tenant_id req now) = create_swap_request id tenant_id req actor now
run_call actor (Call.approve k t now) = approve_swap_request k actor t now
run_call actor (Call.reject k why now) = reject_swap_request k why actor now
run_call actor (Call.escalate k why now) = escalate_swap_request k why actor now
run_call actor (Call.admin_override k why t now) = admin_override_swap_request k why actor t now
run_call actor (Call.cancel k now) = cancel_swap_request k actor.id now

-- The calls of several users, one after the other, whether they succeed or fail.
unfoldable pub run_calls : List (Actor × Call) → Conn Tables → Conn Tables
run_calls [] c = c
run_calls ((actor, k) ∷ ks) c = run_calls ks (run_call actor k c).1

-- The status that a user may give a request.
pub data Permitted (actor : Actor) (r : SwapRequest) : SwapRequestStatus → Type 0 where
  approves :
      r.status ≡ SwapRequestStatus.pending
      → r.target_tutor_id ≡ actor.id
      → Permitted actor r SwapRequestStatus.approved
  rejects :
      r.status ≡ SwapRequestStatus.pending
      → r.target_tutor_id ≡ actor.id
      → Permitted actor r SwapRequestStatus.rejected
  escalates :
      r.status ≡ SwapRequestStatus.rejected
      → r.requesting_tutor_id ≡ actor.id
      → Permitted actor r SwapRequestStatus.escalated
  overrides :
      r.status ≡ SwapRequestStatus.escalated
      → is_any_admin actor.role ≡ true
      → Permitted actor r SwapRequestStatus.approved
  cancels :
      (r.status ≡ SwapRequestStatus.pending) ⊎ (r.status ≡ SwapRequestStatus.escalated)
      → r.requesting_tutor_id ≡ actor.id
      → Permitted actor r SwapRequestStatus.cancelled
