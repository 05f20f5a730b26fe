-- ===== src/Swap/Atomic.antt =====
-- A swap handler of internal/service/timetable_service.go that returns an error has changed nothing.
use arc_lms.Audit.{Actor, AuditAction}
use arc_lms.Prelude.{◌≡◌, Uuid}
use arc_lms.Clock.{Time}
use arc_lms.Database.{Conn, Error, err}
use arc_lms.Database.Keeps.{
  KeepsDb, IsAtomic, Succeeds, keeps_rules, IsAtomic-execute, IsAtomic-commit, IsAtomic-failing,
  IsAtomic-bind, IsAtomic-then, Succeeds-bind, Succeeds-attempt, Succeeds-pure,
}
use arc_lms.Swap.Request.{SwapRequest}
use arc_lms.Swap.Tables.{Tables}
use arc_lms.Swap.Calls.{Call, run_call}
use arc_lms.Swap.Service.{
  log_action, swap_periods, swap_and_store, create_swap_request, approve_swap_request,
  reject_swap_request, escalate_swap_request, admin_override_swap_request, cancel_swap_request,
}

pub KeepsDb-swap_periods : (k l : Uuid) (now : Time) → KeepsDb (swap_periods k l now)
unfolding swap_periods
KeepsDb-swap_periods k l now = search keeps_rules depth 12

pub IsAtomic-swap_and_store : (r r' : SwapRequest) (now : Time) → IsAtomic (swap_and_store r r' now)
unfolding swap_and_store
IsAtomic-swap_and_store r r' now =
    search (keeps_rules, KeepsDb-swap_periods, IsAtomic-bind, IsAtomic-commit, IsAtomic-failing)
      depth 12

Succeeds-log_action :
    (a : AuditAction) (actor : Actor) (r : SwapRequest) → Succeeds (log_action a actor r)
unfolding log_action
Succeeds-log_action a actor r = search Succeeds-attempt

ruleset atomic_rules = (
  keeps_rules, IsAtomic-bind, IsAtomic-then, IsAtomic-execute, IsAtomic-failing,
  IsAtomic-swap_and_store, Succeeds-bind, Succeeds-log_action, Succeeds-pure,
)

pub call-IsAtomic : (actor : Actor) (k : Call) → IsAtomic (run_call actor k)
unfolding approve_swap_request create_swap_request reject_swap_request escalate_swap_request
    admin_override_swap_request cancel_swap_request
call-IsAtomic actor (Call.create id tenant_id req now) = search atomic_rules depth 30
call-IsAtomic actor (Call.approve k t now) = search atomic_rules depth 12
call-IsAtomic actor (Call.reject k why now) = search atomic_rules depth 12
call-IsAtomic actor (Call.escalate k why now) = search atomic_rules depth 12
call-IsAtomic actor (Call.admin_override k why t now) = search atomic_rules depth 12
call-IsAtomic actor (Call.cancel k now) = search atomic_rules depth 12

-- A call on swap requests that returns an error, whichever statement failed and whether inside the
-- transaction or outside, leaves every table as it was.
pub failed_call_changes_nothing :
    (actor : Actor) (k : Call) (c : Conn Tables) (e : Error)
    → (run_call actor k c).0 ≡ err e
    → (run_call actor k c).1.db ≡ c.db
failed_call_changes_nothing actor k c e h = (call-IsAtomic actor k).at c h
