-- ===== src/Examination/Types.antt =====
-- internal/domain/examination.go, with QuestionType of internal/domain/assessment.go. A question's
-- text, options, explanation and attachments, which no step reads, are left out, and so is the
-- percentage of a submission, a floating-point number computed from its score.
use arc_lms.Prelude.{
  ℕ, Bool, true, false, ◌&&◌, ◌||◌, Option, some, List, ◌∷◌, [], ◌++◌, String, Uuid,
}
use arc_lms.Clock.{Time, before, after}

pub data ExaminationStatus : Type 0 where
  draft scheduled in_progress completed archived : ExaminationStatus

pub data SubmissionStatus : Type 0 where
  not_started in_progress submitted graded published : SubmissionStatus

pub data QuestionType : Type 0 where
  multiple_choice multiple_answer true_false short_answer essay : QuestionType

pub record ExaminationQuestion : Type 0 where
  pub id : Uuid
  pub type : QuestionType
  pub correct_answers : List String
  pub marks : ℕ

pub record Examination : Type 0 where
  pub id : Uuid
  pub tenant_id : Uuid
  pub course_id : Uuid
  pub class_id : Uuid
  pub term_id : Uuid
  pub created_by_id : Uuid
  pub title : String
  pub instructions : String
  pub questions : List ExaminationQuestion
  pub total_marks : ℕ
  pub duration : ℕ
  pub window_start : Time
  pub window_end : Time
  pub status : ExaminationStatus
  pub results_published : Bool
  pub results_published_at : Option Time
  pub results_published_by : Option Uuid
  pub created_at : Time
  pub updated_at : Time
  pub scheduled_at : Option Time

pub record IntegrityEvent : Type 0 where
  pub event_type : String
  pub timestamp : Time
  pub description : Option String

pub record ExaminationAnswer : Type 0 where
  pub question_id : Uuid
  pub answer_text : Option String
  pub selected_options : List String
  pub is_correct : Option Bool
  pub marks_earned : Option ℕ
  pub feedback : Option String
  pub submitted_at : Time

pub record ExaminationSubmission : Type 0 where
  pub id : Uuid
  pub tenant_id : Uuid
  pub examination_id : Uuid
  pub student_id : Uuid
  pub status : SubmissionStatus
  pub started_at : Option Time
  pub submitted_at : Option Time
  pub auto_submitted : Bool
  pub answers : List ExaminationAnswer
  pub score : Option ℕ
  pub is_auto_graded : Bool
  pub feedback : Option String
  pub integrity_events : List IntegrityEvent
  pub ip_address : String
  pub created_at : Time
  pub updated_at : Time
  pub graded_at : Option Time
  pub graded_by : Option Uuid
  pub results_published_to_student : Bool

abbrev pub exam_status_is_scheduled : ExaminationStatus → Bool
exam_status_is_scheduled ExaminationStatus.scheduled = true
exam_status_is_scheduled _ = false

-- `IsWithinWindow` and `CanAccess`
abbrev pub is_within_window : Examination → Time → Bool
is_within_window e now = after now e.window_start && before now e.window_end

abbrev pub can_access : Examination → Time → Bool
can_access e now = exam_status_is_scheduled e.status && is_within_window e now

abbrev pub is_in_progress : SubmissionStatus → Bool
is_in_progress SubmissionStatus.in_progress = true
is_in_progress _ = false

abbrev pub status_is_submitted : SubmissionStatus → Bool
status_is_submitted SubmissionStatus.submitted = true
status_is_submitted _ = false

-- `IsGraded` and `IsSubmitted`
abbrev pub is_graded : SubmissionStatus → Bool
is_graded SubmissionStatus.graded = true
is_graded SubmissionStatus.published = true
is_graded _ = false

abbrev pub is_submitted : SubmissionStatus → Bool
is_submitted s = status_is_submitted s || is_graded s

-- `ExaminationSubmission.RecordIntegrityEvent`, which reads the clock twice.
abbrev pub record_event :
    String → String → Time → Time → ExaminationSubmission → ExaminationSubmission
record_event event_type description seen now s = record s {
  integrity_events =
      s.integrity_events
      ++ record { event_type = event_type; timestamp = seen; description = some description } ∷ [];
  updated_at = now;
}
