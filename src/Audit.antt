-- ===== src/Audit.antt =====
-- internal/domain/audit.go: the entry that a handler adds after a change, with the roles of
-- internal/domain/user.go. The entry's JSON snapshots, metadata and user agent are left out.
use arc_lms.Prelude.{Option, String, Uuid}

pub data Role : Type 0 where
  super_admin admin tutor student parent : Role

pub data AuditAction : Type 0 where
  period_swap_requested period_swap_approved period_swap_rejected : AuditAction
  timetable_generated timetable_published : AuditAction
  term_created term_updated term_activated term_completed : AuditAction
  user_created enrollment_created enrollment_updated : AuditAction
  enrollment_withdrawn enrollment_suspended enrollment_reactivated : AuditAction
  invoice_generated invoice_paid billing_adjustment_applied : AuditAction

pub record AuditLog : Type 0 where
  pub tenant_id : Option Uuid
  pub actor_user_id : Uuid
  pub actor_role : Role
  pub action : AuditAction
  pub resource_id : Uuid
  pub ip_address : String

-- Who calls, and from where.
pub record Actor : Type 0 where
  pub id : Uuid
  pub role : Role
  pub ip_address : String

abbrev pub audit_log : AuditAction → Actor → Option Uuid → Uuid → AuditLog
audit_log action actor tenant_id resource_id = record {
  tenant_id = tenant_id;
  actor_user_id = actor.id;
  actor_role = actor.role;
  action = action;
  resource_id = resource_id;
  ip_address = actor.ip_address;
}
