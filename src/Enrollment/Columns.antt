-- ===== src/Enrollment/Columns.antt =====
-- What the handlers of internal/service/enrollment_service.go can change of a stored enrollment.
use arc_lms.Prelude.{
  ◌==◌, ◌≡◌, refl, ◌∙◌, ap, Bool, List, [], ◌∷◌, map, Option, none, some, find, update_where,
  String, Uuid, arith,
}
use arc_lms.Prelude.Int.{pos}
use arc_lms.Clock.{Time}
use arc_lms.Audit.{Actor, AuditAction}
use arc_lms.Database.{Conn, ok, execute, pure, failing, ◌>>=◌}
use arc_lms.Database.Requests.{Request, connect, run_all, run_all-related}
use arc_lms.Database.Leaves.{
  Leaves, Leaves-bind, Leaves-failing, Leaves-execute, Leaves-pure, Leaves-same, Leaves-err,
}
use arc_lms.Database.Leaves.Tx.{past_query, past_refuse_if}
use arc_lms.Enrollment.{Enrollment, EnrollmentStatus}
use arc_lms.Enrollment.Tables.{Tables, write_columns, update_found, update_enrollment}
use arc_lms.Enrollment.Service.{
  EnrollStudentRequest, CreateAndEnrollStudentRequest, TransferStudentRequest, log_enrollment,
  enroll_student, create_and_enroll_student, transfer_student, withdraw_student, suspend_enrollment,
  reactivate_enrollment, new_student,
}
use arc_lms.Enrollment.Failing.{Left, enroll_student-Leaves, create_and_enroll-Leaves, past_log}

-- A call, with what `uuid.New` and `time.Now` give during it.
pub data Call : Type 0 where
  enroll : Uuid → EnrollStudentRequest → Time → Call
  create_and_enroll : Uuid → CreateAndEnrollStudentRequest → Uuid → Uuid → Time → Call
  transfer : Uuid → TransferStudentRequest → Time → Call
  withdraw suspend : Uuid → String → Time → Call
  reactivate : Uuid → Time → Call

-- The tables after a call, whether it succeeds or fails.
abbrev pub run_call : Actor → Call → Conn Tables → Tables
run_call actor (Call.enroll t req now) c = (enroll_student t req actor now c).1.db
run_call actor (Call.create_and_enroll t req u id now) c =
    (create_and_enroll_student t req actor u id now c).1.db
run_call actor (Call.transfer k req now) c = (transfer_student k req actor now c).1.db
run_call actor (Call.withdraw k why now) c = (withdraw_student k why actor now c).1.db
run_call actor (Call.suspend k why now) c = (suspend_enrollment k why actor now c).1.db
run_call actor (Call.reactivate k now) c = (reactivate_enrollment k actor now c).1.db

abbrev pub run_requests : List (Request Call) → Tables → Tables
run_requests = run_all run_call

-- An enrollment apart from its status, its notes and the time of its last update.
abbrev pub columns : Enrollment → Enrollment
columns e = record e { status = EnrollmentStatus.active; notes = none; updated_at = pos 0 }

columns-update_where :
    (p : Enrollment → Bool) (e : Enrollment) (es : List Enrollment)
    → map columns (update_where p (write_columns e) es) ≡ map columns es
columns-update_where p e [] = refl
columns-update_where p e (x ∷ xs) = let ih = columns-update_where p e xs in ground arith

columns-update_found :
    (o : Option Enrollment) (e : Enrollment) (s s' : Tables)
    → update_found o e s ≡ ok s'
    → map columns s'.enrollments ≡ map columns s.enrollments
columns-update_found none e s s' h = cc
columns-update_found (some row) e s s' h =
    let same = columns-update_where (λ r. r.id == e.id) e s.enrollments in cc

columns-update_enrollment :
    (e : Enrollment) (s s' : Tables)
    → update_enrollment e s ≡ ok s'
    → map columns s'.enrollments ≡ map columns s.enrollments
unfolding update_enrollment
columns-update_enrollment e s s' h =
    columns-update_found (find (λ r. r.id == e.id) s.enrollments) e s s' h

-- The columns are those of the list.
abbrev Kept : List Enrollment → Conn Tables → Type 0
Kept es c = map columns c.db.enrollments ≡ map columns es

-- The end of each handler: the update, the entry and the answer.
Leaves-store :
    (m : String) (e : Enrollment) (a : AuditAction) (actor : Actor) (t k : Uuid)
    (es : List Enrollment) (c : Conn Tables)
    → Kept es c
    → Leaves
        (failing m (execute (update_enrollment e)) >>= λ _.
          log_enrollment a actor t k >>= λ _. pure e)
        c
        (Kept es)
        (λ _ c'. Kept es c')
Leaves-store m e a actor t k es c h = Leaves-bind (
    Leaves-failing m (
      Leaves-execute _ h (λ s w. past_log a actor t k (λ o c' u q.
        Leaves-pure e (ap (map columns) q ∙ columns-update_enrollment e c.db s w ∙ h)))))

call-Kept :
    (actor : Actor) (k : Call) (c : Conn Tables)
    → map columns (run_call actor k c).enrollments ≡ map columns c.db.enrollments
unfolding transfer_student withdraw_student suspend_enrollment reactivate_enrollment
call-Kept actor (Call.enroll t req now) c =
    let (e, q, same) =
      Leaves-err _ c (λ c'. c'.db ≡ c.db) (enroll_student-Leaves t req actor now c) in
    ap (λ s. map columns s.enrollments) same
call-Kept actor (Call.create_and_enroll t req u id now) c =
    let (e, q, left) =
      Leaves-err _ c (λ c'. Left (new_student u t req now) c.db c'.db)
        (create_and_enroll-Leaves t req actor u id now c) in
    ap (map columns) left.0
call-Kept actor (Call.transfer k req now) c = Leaves-same _ c (Kept c.db.enrollments) (
    past_query _ _ refl (λ e q1. past_query _ _ refl (λ class q2.
      past_refuse_if _ _ refl
        (λ g1. past_refuse_if _ _ refl (λ g2. Leaves-store _ _ _ actor _ _ _ _ refl)))))
call-Kept actor (Call.withdraw k why now) c =
    Leaves-same _ c (Kept c.db.enrollments)
      (past_query _ _ refl (λ e q1. Leaves-store _ _ _ actor _ _ _ _ refl))
call-Kept actor (Call.suspend k why now) c =
    Leaves-same _ c (Kept c.db.enrollments)
      (past_query _ _ refl (λ e q1. Leaves-store _ _ _ actor _ _ _ _ refl))
call-Kept actor (Call.reactivate k now) c =
    Leaves-same _ c (Kept c.db.enrollments)
      (past_query _ _ refl (λ e q1. Leaves-store _ _ _ actor _ _ _ _ refl))

-- Any requests, each failed or not, leave as many enrollments as there were, in their order, and of
-- each every column but its status, its notes and the time of its last update: the student, the class
-- and the session of an enrollment never change, and no reason, date or new class of a transfer, a
-- withdrawal or a suspension is stored.
pub requests_keep_columns :
    (rs : List (Request Call)) (s : Tables)
    → map columns (run_requests rs s).enrollments ≡ map columns s.enrollments
requests_keep_columns =
    run_all-related run_call (λ s t. map columns t.enrollments ≡ map columns s.enrollments)
      (λ s. refl) (λ s t u p q. q ∙ p) (λ actor k faults s. call-Kept actor k (connect faults s))
