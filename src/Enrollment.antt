-- ===== src/Enrollment.antt =====
-- internal/domain/enrollment.go: the enrollment of a student in a class for a session, and the changes
-- of its status, each at the instant that `time.Now` gives.
pub mod Tables
pub mod Service
pub mod Failing
pub mod Columns
mod Tests
use arc_lms.Prelude.{Option, none, some, String, Uuid}
use arc_lms.Clock.{Time}

pub data EnrollmentStatus : Type 0 where
  active transferred withdrawn suspended : EnrollmentStatus

pub record Enrollment : Type 0 where
  pub id : Uuid
  pub tenant_id : Uuid
  pub student_id : Uuid
  pub class_id : Uuid
  pub session_id : Uuid
  pub status : EnrollmentStatus
  pub enrollment_date : Time
  pub withdrawal_date : Option Time
  pub withdrawal_reason : Option String
  pub transferred_to_class_id : Option Uuid
  pub transfer_date : Option Time
  pub transfer_reason : Option String
  pub suspension_date : Option Time
  pub suspension_reason : Option String
  pub notes : Option String
  pub created_at : Time
  pub updated_at : Time

abbrev pub withdraw : String → Time → Enrollment → Enrollment
withdraw reason now e = record e {
  status = EnrollmentStatus.withdrawn;
  withdrawal_reason = some reason;
  withdrawal_date = some now;
  updated_at = now;
}

abbrev pub transfer : Uuid → String → Time → Enrollment → Enrollment
transfer new_class_id reason now e = record e {
  status = EnrollmentStatus.transferred;
  transferred_to_class_id = some new_class_id;
  transfer_reason = some reason;
  transfer_date = some now;
  updated_at = now;
}

abbrev pub suspend : String → Time → Enrollment → Enrollment
suspend reason now e = record e {
  status = EnrollmentStatus.suspended;
  suspension_reason = some reason;
  suspension_date = some now;
  updated_at = now;
}

abbrev pub reactivate : Time → Enrollment → Enrollment
reactivate now e = record e {
  status = EnrollmentStatus.active;
  suspension_date = none;
  suspension_reason = none;
  updated_at = now;
}
