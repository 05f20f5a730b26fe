-- ===== src/Enrollment/Tests.antt =====
-- One student through the handlers of internal/service/enrollment_service.go.
use arc_lms.Prelude.{◌≡◌, refl, false, none, List, [], ◌∷◌, map, Option, String, Uuid}
use arc_lms.Prelude.Int.{pos}
use arc_lms.Audit.{Actor, Role}
use arc_lms.Database.{
  Conn, err, message, execute, pure, throw, query, failing, attempt, refuse_if, ◌>>=◌,
}
use arc_lms.Term.{TermOrdinal, TermStatus}
use arc_lms.Term.Tables.{SessionStatus}
use arc_lms.Enrollment.{Enrollment, EnrollmentStatus}
use arc_lms.Enrollment.Tables.{Tables, insert_user, enroll_outside_tx, update_enrollment}
use arc_lms.Enrollment.Service.{
  CreateAndEnrollStudentRequest, new_enrollment, log_enrollment, after_email,
  create_and_enroll_student, transfer_student, withdraw_student, reactivate_enrollment,
  enroll_student,
}
use arc_lms.Enrollment.Failing.{Fails, Left, no_student_is_enrolled}
use arc_lms.Enrollment.Service.{new_student}
use arc_lms.Database.Requests.{Request, run_all}
use arc_lms.Enrollment.Columns.{Call, columns, run_requests, requests_keep_columns}

abbrev admin : Actor
admin = record { id = 5; role = Role.admin; ip_address = "::1" }

abbrev school : Tables
school = record {
  users = [];
  classes =
      record { id = 3; tenant_id = 2; session_id = 6 }
      ∷ record { id = 4; tenant_id = 2; session_id = 6 }
      ∷ [];
  sessions =
      record {
        id = 6;
        tenant_id = 2;
        label = "2025/2026";
        start_year = 2025;
        end_year = 2026;
        status = SessionStatus.active;
        description = none;
        created_at = pos 0;
        updated_at = pos 0;
        archived_at = none;
      }
      ∷ [];
  terms =
      record {
        id = 7;
        tenant_id = 2;
        session_id = 6;
        ordinal = TermOrdinal.first;
        start_date = pos 0;
        end_date = pos 100;
        status = TermStatus.active;
        holidays = [];
        non_instructional_days = [];
        description = none;
        created_at = pos 0;
        updated_at = pos 0;
        activated_at = none;
        completed_at = none;
      }
      ∷ [];
  enrollments = new_enrollment 20 2 30 3 6 (pos 1) (pos 1) ∷ [];
  audit_logs = [];
}

abbrev by_admin : Call → Request Call
by_admin k = record { actor = admin; call = k; faults = λ n. false }

abbrev moves : List (Request Call)
moves =
    by_admin
      (Call.transfer 20 (record { new_class_id = 4; reason = "moved to the other arm" }) (pos 8))
    ∷ by_admin (Call.withdraw 20 "left the school" (pos 9))
    ∷ []

abbrev summary : Enrollment → Uuid × EnrollmentStatus × Option Uuid × Option String
summary e = (e.class_id, e.status, e.transferred_to_class_id, e.withdrawal_reason)

-- Neither the new class nor the reason is stored.
enrollments-run_requests :
    map summary (run_requests moves school).enrollments
    ≡ (3, EnrollmentStatus.withdrawn, none, none) ∷ []
unfolding run_all transfer_student withdraw_student log_enrollment update_enrollment execute pure
    query failing attempt refuse_if ◌>>=◌
enrollments-run_requests = refl

-- A withdrawn student is made active again.
status-run_requests :
    map
      (λ e. e.status)
      (run_requests
        (by_admin (Call.reactivate 20 (pos 10)) ∷ [])
        (run_requests moves school)).enrollments
    ≡ EnrollmentStatus.active ∷ []
unfolding run_all transfer_student withdraw_student reactivate_enrollment log_enrollment
    update_enrollment execute pure query failing attempt refuse_if ◌>>=◌
status-run_requests = refl

abbrev newcomer : CreateAndEnrollStudentRequest
newcomer = record {
  email = "ada@school.test";
  first_name = "Ada";
  last_name = "Obi";
  middle_name = none;
  phone = none;
  class_id = 3;
}

abbrev on : Tables → Conn Tables
on s = record { db = s; tx = s; aborted = false; faults = λ n. false; calls = 0 }

abbrev after_one : Tables
after_one = (create_and_enroll_student 2 newcomer admin 31 21 (pos 9) (on school)).1.db

-- The student is stored by the call that fails, and stands in the way of the next.
create_and_enroll_student-again :
    (create_and_enroll_student 2 newcomer admin 32 22 (pos 9) (on after_one)).0
    ≡ err (message "user with this email already exists")
unfolding create_and_enroll_student after_email log_enrollment insert_user enroll_outside_tx execute
    pure throw query failing attempt refuse_if ◌>>=◌
create_and_enroll_student-again = refl

requests_keep_columns_example :
    map columns (run_requests moves school).enrollments ≡ map columns school.enrollments
requests_keep_columns_example = requests_keep_columns moves school

no_student_is_enrolled_example :
    Fails
      (enroll_student 2 (record { student_id = 30; class_id = 3; session_id = 6 }) admin (pos 9))
      (on school)
      (λ s. s ≡ school)
    × Fails
        (create_and_enroll_student 2 newcomer admin 31 21 (pos 9))
        (on school)
        (Left (new_student 31 2 newcomer (pos 9)) school)
no_student_is_enrolled_example =
    no_student_is_enrolled 2 (record { student_id = 30; class_id = 3; session_id = 6 }) newcomer
      admin 31 21 (pos 9) (on school)
