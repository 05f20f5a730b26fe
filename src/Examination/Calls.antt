-- ===== src/Examination/Calls.antt =====
-- The calls on an attempt in internal/service/examination_service.go as one type, and what each may do
-- to a stored submission.
use arc_lms.Prelude.{Bool, ◌≡◌, Option, some, List, [], ◌∷◌, String, Uuid}
use arc_lms.Clock.{Time}
use arc_lms.Database.{Conn, Db}
use arc_lms.Examination.Types.{Examination, ExaminationSubmission, SubmissionStatus, record_event}
use arc_lms.Examination.Grading.{
  Marked, GradeAnswerRequest, submit_and_grade, apply_grades, finish_grading,
}
use arc_lms.Examination.Service.{
  Tables, SaveAnswerRequest, put_answer, start_examination, save_answer, record_integrity_event,
  submit_examination, grade_submission,
}

pub data Call : Type 0 where
  start : Uuid → Uuid → String → Time → Call
  save : Uuid → SaveAnswerRequest → Time → Time → Call
  report : Uuid → String → Option String → Time → Time → Call
  submit : Uuid → Time → Call
  grade : Uuid → List GradeAnswerRequest → Option String → Time → Call

-- The call of a user.
abbrev pub run_call : Uuid → Call → Db Tables ExaminationSubmission
run_call user (Call.start id exam_id ip now) = start_examination id exam_id user ip now
run_call user (Call.save k req now closed_at) = save_answer k req user now closed_at
run_call user (Call.report k event_type why seen now) =
    record_integrity_event k event_type why user seen now
run_call user (Call.submit k now) = submit_examination k user now
run_call user (Call.grade k grades feedback now) = grade_submission k grades feedback user now

unfoldable pub run_calls : List (Uuid × Call) → Conn Tables → Conn Tables
run_calls [] c = c
run_calls ((user, k) ∷ ks) c = run_calls ks (run_call user k c).1

-- What a user may make of a submission `s`.
pub data Moves (user : Uuid) (t : Tables) (s : ExaminationSubmission)
    : ExaminationSubmission → Type 0 where
  answers :
      (req : SaveAnswerRequest) (now : Time)
      → s.student_id ≡ user
      → s.status ≡ SubmissionStatus.in_progress
      → Moves user t s (record s { answers = put_answer req now s.answers; updated_at = now })
  reports :
      (event_type why : String) (seen now : Time)
      → s.student_id ≡ user
      → s.status ≡ SubmissionStatus.in_progress
      → Moves user t s (record_event event_type why seen now s)
  submits :
      (auto : Bool) (now : Time) (e : Examination)
      → s.student_id ≡ user
      → s.status ≡ SubmissionStatus.in_progress
      → Moves user t s (submit_and_grade auto now e s)
  grades :
      (e : Examination) (gs : List GradeAnswerRequest) (m : Marked) (feedback : Option String)
      (now : Time)
      → s.status ≡ SubmissionStatus.submitted
      → apply_grades e.questions gs s.answers ≡ some m
      → Moves user t s (finish_grading feedback user now m s)
