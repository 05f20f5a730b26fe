-- ===== src/Examination/Service.antt =====
-- The statements of internal/repository/postgres/examination.go on examinations and submissions, and
-- the handlers of internal/service/examination_service.go for an attempt. The unique constraint on
-- submissions is that of migration 000009.
use arc_lms.Prelude.{
  ℕ, Bool, true, false, ◌&&◌, ◌||◌, not, ◌==◌, if◌then◌else◌, Option, none, some, List, [], ◌∷◌,
  ◌++◌, find, update_where, String, Uuid,
}
use arc_lms.Clock.{Time, before, after, add, minutes}
use arc_lms.Database.{
  found, found, RepoError, Result, ok, err, repo, message, Db, execute, query, failing, attempt,
  refuse_if, pure, throw, ◌>>=◌, ◌>>◌,
}
use arc_lms.Examination.Types.{
  Examination, ExaminationAnswer, ExaminationSubmission, SubmissionStatus, can_access,
  is_in_progress, status_is_submitted, is_submitted, record_event,
}
use arc_lms.Examination.Grading.{
  Marked, GradeAnswerRequest, submit_and_grade, apply_grades, finish_grading,
}

pub record Tables : Type 0 where
  pub examinations : List Examination
  pub submissions : List ExaminationSubmission

abbrev pub get_examination : Uuid → Tables → Result Examination
get_examination k t = found (find (λ e. e.id == k) t.examinations)

abbrev pub get_submission : Uuid → Tables → Result ExaminationSubmission
get_submission k t = found (find (λ s. s.id == k) t.submissions)

abbrev pub is_attempt : Uuid → Uuid → ExaminationSubmission → Bool
is_attempt student_id exam_id s = s.student_id == student_id && s.examination_id == exam_id

abbrev pub get_submission_by_student_and_exam : Uuid → Uuid → Tables → Result ExaminationSubmission
get_submission_by_student_and_exam student_id exam_id t =
    found (find (is_attempt student_id exam_id) t.submissions)

-- `CreateSubmission`, under its primary key and one submission for each student and examination
abbrev pub insert_unless :
    Option ExaminationSubmission → ExaminationSubmission → Tables → Result Tables
insert_unless (some row) s t = err (repo RepoError.duplicate_key)
insert_unless none s t = ok (record t { submissions = t.submissions ++ s ∷ [] })

unfoldable pub insert_submission : ExaminationSubmission → Tables → Result Tables
insert_submission s t =
    insert_unless
      (find
        (λ r.
          (r.id == s.id)
          || (r.tenant_id == s.tenant_id && is_attempt s.student_id s.examination_id r))
        t.submissions)
      s t

-- The columns that `UpdateSubmission` writes.
abbrev pub write_columns : ExaminationSubmission → ExaminationSubmission → ExaminationSubmission
write_columns s row = record row {
  status = s.status;
  submitted_at = s.submitted_at;
  auto_submitted = s.auto_submitted;
  answers = s.answers;
  score = s.score;
  is_auto_graded = s.is_auto_graded;
  feedback = s.feedback;
  integrity_events = s.integrity_events;
  graded_at = s.graded_at;
  graded_by = s.graded_by;
  results_published_to_student = s.results_published_to_student;
  updated_at = s.updated_at;
}

abbrev pub update_row :
    Option ExaminationSubmission → ExaminationSubmission → Tables → Result Tables
update_row none s t = err (repo RepoError.not_found)
update_row (some row) s t =
    ok (record t { submissions = update_where (λ r. r.id == s.id) (write_columns s) t.submissions })

unfoldable pub update_submission : ExaminationSubmission → Tables → Result Tables
update_submission s t = update_row (find (λ r. r.id == s.id) t.submissions) s t

-- An update whose error is wrapped, and the submission as the result.
unfoldable pub store : String → ExaminationSubmission → Db Tables ExaminationSubmission
store why s = failing why (execute (update_submission s)) >> pure s

abbrev pub new_submission : Uuid → Uuid → String → Time → Examination → ExaminationSubmission
new_submission id student_id ip_address now e = record {
  id = id;
  tenant_id = e.tenant_id;
  examination_id = e.id;
  student_id = student_id;
  status = SubmissionStatus.in_progress;
  started_at = some now;
  submitted_at = none;
  auto_submitted = false;
  answers = [];
  score = none;
  is_auto_graded = false;
  feedback = none;
  integrity_events = [];
  ip_address = ip_address;
  created_at = now;
  updated_at = now;
  graded_at = none;
  graded_by = none;
  results_published_to_student = false;
}

abbrev pub start_new : ExaminationSubmission → Db Tables ExaminationSubmission
start_new s = do failing "failed to create submission" (execute (insert_submission s)); pure s

-- What follows the search for an earlier attempt, whose error is taken for none.
abbrev pub start_after :
    Option ExaminationSubmission → ExaminationSubmission → Db Tables ExaminationSubmission
start_after none s = start_new s
start_after (some old) s =
    refuse_if (is_submitted old.status) "you have already submitted this examination"
    >> (if is_in_progress old.status then pure old else start_new s)

unfoldable pub start_examination :
    Uuid → Uuid → Uuid → String → Time → Db Tables ExaminationSubmission
start_examination id exam_id student_id ip_address now = do
  e ← failing "failed to get examination" (query (get_examination exam_id))
  refuse_if (not (can_access e now) && before now e.window_start) "examination has not started yet"
  refuse_if (not (can_access e now) && after now e.window_end) "examination window has ended"
  refuse_if (not (can_access e now)) "examination is not accessible"
  old ← attempt (query (get_submission_by_student_and_exam student_id exam_id))
  start_after old (new_submission id student_id ip_address now e)

pub record SaveAnswerRequest : Type 0 where
  pub question_id : Uuid
  pub answer_text : Option String
  pub selected_options : List String

abbrev pub with_text : SaveAnswerRequest → Time → ExaminationAnswer → ExaminationAnswer
with_text req now a = record a {
  answer_text = req.answer_text;
  selected_options = req.selected_options;
  submitted_at = now;
}

abbrev pub new_answer : SaveAnswerRequest → Time → ExaminationAnswer
new_answer req now = record {
  question_id = req.question_id;
  answer_text = req.answer_text;
  selected_options = req.selected_options;
  is_correct = none;
  marks_earned = none;
  feedback = none;
  submitted_at = now;
}

-- The first answer to the question is written over, and one is added where there is none.
abbrev pub put_answer : SaveAnswerRequest → Time → List ExaminationAnswer → List ExaminationAnswer
put_answer req now [] = new_answer req now ∷ []
put_answer req now (a ∷ xs) =
    let rest = put_answer req now xs in
    if a.question_id == req.question_id then with_text req now a ∷ xs else a ∷ rest

abbrev pub past_deadline : Option Time → ℕ → Time → Bool
past_deadline none duration now = false
past_deadline (some started_at) duration now = after now (add started_at (minutes duration))

-- Time is up: the window has ended, or the attempt has lasted its duration.
abbrev pub time_is_up : Examination → ExaminationSubmission → Time → Bool
time_is_up e s now = after now e.window_end || past_deadline s.started_at e.duration now

-- An attempt whose time is up is submitted without the new answer.
abbrev pub close_or_save :
    Bool
    → Examination
    → ExaminationSubmission
    → SaveAnswerRequest
    → Time
    → Time
    → Db Tables ExaminationSubmission
close_or_save true e s req now closed_at =
    store "failed to submit examination" (submit_and_grade true closed_at e s)
close_or_save false e s req now closed_at =
    store "failed to save answer"
      (record s { answers = put_answer req now s.answers; updated_at = now })

-- `now` is read by the handler, `closed_at` by `submitAndGrade`.
unfoldable pub save_answer :
    Uuid → SaveAnswerRequest → Uuid → Time → Time → Db Tables ExaminationSubmission
save_answer k req student_id now closed_at = do
  s ← failing "failed to get submission" (query (get_submission k))
  refuse_if (not (s.student_id == student_id)) "you do not own this submission"
  refuse_if (not (is_in_progress s.status)) "submission is not in progress"
  e ← failing "failed to get examination" (query (get_examination s.examination_id))
  close_or_save (time_is_up e s now) e s req now closed_at

abbrev pub text_or_empty : Option String → String
text_or_empty none = ""
text_or_empty (some t) = t

-- The handler returns the error alone; the submission here is the one it stored.
unfoldable pub record_integrity_event :
    Uuid → String → Option String → Uuid → Time → Time → Db Tables ExaminationSubmission
record_integrity_event k event_type description student_id seen now = do
  s ← failing "failed to get submission" (query (get_submission k))
  refuse_if (not (s.student_id == student_id)) "you do not own this submission"
  refuse_if (not (is_in_progress s.status)) "submission is not in progress"
  store "failed to record integrity event"
      (record_event event_type (text_or_empty description) seen now s)

unfoldable pub submit_examination : Uuid → Uuid → Time → Db Tables ExaminationSubmission
submit_examination k student_id now = do
  s ← failing "failed to get submission" (query (get_submission k))
  refuse_if (not (s.student_id == student_id)) "you do not own this submission"
  refuse_if (not (is_in_progress s.status)) "submission is not in progress"
  e ← failing "failed to get examination" (query (get_examination s.examination_id))
  store "failed to submit examination" (submit_and_grade false now e s)

abbrev pub accept_grades : Option Marked → Db Tables Marked
accept_grades none = throw (message "marks for question exceed maximum")
accept_grades (some m) = pure m

unfoldable pub grade_submission :
    Uuid → List GradeAnswerRequest → Option String → Uuid → Time → Db Tables ExaminationSubmission
grade_submission k grades feedback actor_id now = do
  s ← failing "failed to get submission" (query (get_submission k))
  refuse_if (not (status_is_submitted s.status)) "submission must be in SUBMITTED status to grade"
  e ← failing "failed to get examination" (query (get_examination s.examination_id))
  m ← accept_grades (apply_grades e.questions grades s.answers)
  store "failed to grade submission" (finish_grading feedback actor_id now m s)
