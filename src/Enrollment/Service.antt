-- ===== src/Enrollment/Service.antt =====
-- The handlers of internal/service/enrollment_service.go that change an enrollment.
use arc_lms.Prelude.{Bool, true, false, ◌==◌, not, Option, none, some, String, Uuid}
use arc_lms.Prelude.Int.{pos}
use arc_lms.Clock.{Time}
use arc_lms.Audit.{Actor, AuditAction, Role, audit_log}
use arc_lms.Database.{Db, execute, pure, query, failing, attempt, refuse_if, ◌>>=◌, ◌>>◌}
use arc_lms.Enrollment.{Enrollment, EnrollmentStatus, withdraw, transfer, suspend, reactivate}
use arc_lms.Enrollment.Tables.{
  Tables, User, UserStatus, get_user, get_user_by_email, get_class, get_session, get_active_session,
  get_active_term, get_enrollment, insert_user, enroll_outside_tx, update_enrollment,
  insert_audit_log,
}

pub record EnrollStudentRequest : Type 0 where
  pub student_id : Uuid
  pub class_id : Uuid
  pub session_id : Uuid

pub record CreateAndEnrollStudentRequest : Type 0 where
  pub email : String
  pub first_name : String
  pub last_name : String
  pub middle_name : Option String
  pub phone : Option String
  pub class_id : Uuid

pub record TransferStudentRequest : Type 0 where
  pub new_class_id : Uuid
  pub reason : String

unfoldable pub log_enrollment : AuditAction → Actor → Uuid → Uuid → Db Tables (Option Unit)
log_enrollment action actor tenant_id id =
    attempt (execute (insert_audit_log (audit_log action actor (some tenant_id) id)))

-- `student.TenantID == nil || *student.TenantID != tenantID`
abbrev pub is_outside : Uuid → Option Uuid → Bool
is_outside tenant_id none = true
is_outside tenant_id (some t) = not (t == tenant_id)

abbrev pub is_student : Role → Bool
is_student Role.student = true
is_student _ = false

-- An instant that nobody set: `time.Time{}`, January 1 of year 1, 366 days after that of year 0.
abbrev zero_time : Time
zero_time = pos 31622400000000000

abbrev pub new_enrollment : Uuid → Uuid → Uuid → Uuid → Uuid → Time → Time → Enrollment
new_enrollment id tenant_id student_id class_id session_id now stamp = record {
  id = id;
  tenant_id = tenant_id;
  student_id = student_id;
  class_id = class_id;
  session_id = session_id;
  status = EnrollmentStatus.active;
  enrollment_date = now;
  withdrawal_date = none;
  withdrawal_reason = none;
  transferred_to_class_id = none;
  transfer_date = none;
  transfer_reason = none;
  suspension_date = none;
  suspension_reason = none;
  notes = none;
  created_at = stamp;
  updated_at = stamp;
}

-- The enrollment has the nil identifier and no time stamps, and `Enroll` is handed no transaction.
unfoldable pub enroll_student : Uuid → EnrollStudentRequest → Actor → Time → Db Tables Enrollment
enroll_student tenant_id req actor now = do
  student ← failing "failed to get student" (query (get_user req.student_id))
  refuse_if (is_outside tenant_id student.tenant_id) "student does not belong to this tenant"
  refuse_if (not (is_student student.role)) "user is not a student"
  class ← failing "failed to get class" (query (get_class req.class_id))
  refuse_if (not (class.tenant_id == tenant_id)) "class does not belong to this tenant"
  session ← failing "failed to get session" (query (get_session req.session_id))
  refuse_if (not (session.tenant_id == tenant_id)) "session does not belong to this tenant"
  let e = new_enrollment 0 tenant_id req.student_id req.class_id req.session_id now zero_time
  failing "failed to create enrollment" (enroll_outside_tx e)
  log_enrollment AuditAction.enrollment_created actor tenant_id e.id
  pure e

-- The user that `CreateAndEnrollStudent` makes, under the key that `uuid.New` gives.
abbrev pub new_student : Uuid → Uuid → CreateAndEnrollStudentRequest → Time → User
new_student id tenant_id req now = record {
  id = id;
  tenant_id = some tenant_id;
  role = Role.student;
  email = req.email;
  first_name = req.first_name;
  last_name = req.last_name;
  middle_name = req.middle_name;
  phone = req.phone;
  status = UserStatus.active;
  created_at = now;
  updated_at = now;
}

abbrev pub is_present : Option User → Bool
is_present none = false
is_present (some u) = true

-- Once the address has been looked up.
unfoldable pub after_email :
    Option User
    → Uuid
    → CreateAndEnrollStudentRequest
    → Actor
    → Uuid
    → Uuid
    → Time
    → Db Tables (User × Enrollment)
after_email existing tenant_id req actor student_id id now = do
  refuse_if (is_present existing) "user with this email already exists"
  class ← failing "failed to get class" (query (get_class req.class_id))
  refuse_if (not (class.tenant_id == tenant_id)) "class does not belong to this tenant"
  session ← failing "no active session found" (query (get_active_session tenant_id))
  term ← failing "no active term found" (query (get_active_term session.id))
  failing "failed to create student"
      (execute (insert_user (new_student student_id tenant_id req now)))
  log_enrollment AuditAction.user_created actor tenant_id student_id
  let e = new_enrollment id tenant_id student_id req.class_id session.id now now
  failing "failed to create enrollment" (enroll_outside_tx e)
  log_enrollment AuditAction.enrollment_created actor tenant_id id
  pure (new_student student_id tenant_id req now, e)

-- An error of the look-up is taken for no such user.
unfoldable pub create_and_enroll_student :
    Uuid
    → CreateAndEnrollStudentRequest
    → Actor
    → Uuid
    → Uuid
    → Time
    → Db Tables (User × Enrollment)
create_and_enroll_student tenant_id req actor student_id id now = do
  existing ← attempt (query (get_user_by_email req.email))
  after_email existing tenant_id req actor student_id id now

unfoldable pub transfer_student :
    Uuid → TransferStudentRequest → Actor → Time → Db Tables Enrollment
transfer_student k req actor now = do
  e ← failing "failed to get enrollment" (query (get_enrollment k))
  class ← failing "failed to get new class" (query (get_class req.new_class_id))
  refuse_if (not (class.tenant_id == e.tenant_id)) "new class does not belong to this tenant"
  refuse_if (not (class.session_id == e.session_id))
      "cannot transfer to a class in a different session"
  let e' = transfer req.new_class_id req.reason now e
  failing "failed to transfer student" (execute (update_enrollment e'))
  log_enrollment AuditAction.enrollment_updated actor e'.tenant_id e'.id
  pure e'

unfoldable pub withdraw_student : Uuid → String → Actor → Time → Db Tables Enrollment
withdraw_student k reason actor now = do
  e ← failing "failed to get enrollment" (query (get_enrollment k))
  let e' = withdraw reason now e
  failing "failed to withdraw student" (execute (update_enrollment e'))
  log_enrollment AuditAction.enrollment_withdrawn actor e'.tenant_id e'.id
  pure e'

unfoldable pub suspend_enrollment : Uuid → String → Actor → Time → Db Tables Enrollment
suspend_enrollment k reason actor now = do
  e ← failing "failed to get enrollment" (query (get_enrollment k))
  let e' = suspend reason now e
  failing "failed to suspend enrollment" (execute (update_enrollment e'))
  log_enrollment AuditAction.enrollment_suspended actor e'.tenant_id e'.id
  pure e'

-- Whatever the status is that it has.
unfoldable pub reactivate_enrollment : Uuid → Actor → Time → Db Tables Enrollment
reactivate_enrollment k actor now = do
  e ← failing "failed to get enrollment" (query (get_enrollment k))
  let e' = reactivate now e
  failing "failed to reactivate enrollment" (execute (update_enrollment e'))
  log_enrollment AuditAction.enrollment_reactivated actor e'.tenant_id e'.id
  pure e'
