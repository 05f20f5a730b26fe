-- ===== src/Examination/Tests.antt =====
-- An examination of three questions and one student's attempt, through
-- internal/service/examination_service.go.
use arc_lms.Prelude.{
  String, ℕ, ◌≡◌, ◌≤◌, ◌↔◌, refl, true, false, none, some, List, [], ◌∷◌, arith, Uuid, ◌==◌,
  if◌then◌else◌, All,
}
use arc_lms.Prelude.Int.{pos}
use arc_lms.Database.{Conn}
use arc_lms.Examination.Types.{
  Examination, ExaminationQuestion, ExaminationAnswer, ExaminationSubmission, ExaminationStatus,
  SubmissionStatus, QuestionType,
}
use arc_lms.Examination.Grading.{
  GradeAnswerRequest, Marked, grade_answer, grade_answers, submit_and_grade, apply_grades,
  exact_match, same_options,
}
use arc_lms.Examination.MultipleAnswer.{Included, same_options_iff}
use arc_lms.Examination.Score.{OneAnswerEach, sum_marks, sum_earned, submitted_score}
use arc_lms.Examination.Manual.{any_manual, graded_at_once}
use arc_lms.Examination.ByPerson.{final_score}
use arc_lms.Examination.Service.{Tables}
use arc_lms.Examination.Calls.{Call, run_calls}
use arc_lms.Examination.Sound.{Sound}
use arc_lms.Examination.History.{history-Sound}
use arc_lms.Examination.Guarded.{Guarded}

abbrev question : Uuid → QuestionType → List String → ℕ → ExaminationQuestion
question id type correct marks = record {
  id = id;
  type = type;
  correct_answers = correct;
  marks = marks;
}

abbrev exam : Examination
exam = record {
  id = 70;
  tenant_id = 2;
  course_id = 31;
  class_id = 4;
  term_id = 5;
  created_by_id = 21;
  title = "Music";
  instructions = "Answer all questions";
  questions =
      question 1 QuestionType.multiple_choice ("a" ∷ []) 5
      ∷ question 2 QuestionType.multiple_answer ("b" ∷ "c" ∷ []) 10
      ∷ question 3 QuestionType.essay [] 20
      ∷ [];
  total_marks = 35;
  duration = 60;
  window_start = pos 0;
  window_end = pos 900000000000000;
  status = ExaminationStatus.scheduled;
  results_published = false;
  results_published_at = none;
  results_published_by = none;
  created_at = pos 0;
  updated_at = pos 0;
  scheduled_at = none;
}

abbrev answer : Uuid → List String → ExaminationAnswer
answer k selected = record {
  question_id = k;
  answer_text = none;
  selected_options = selected;
  is_correct = none;
  marks_earned = none;
  feedback = none;
  submitted_at = pos 8;
}

abbrev attempt : ExaminationSubmission
attempt = record {
  id = 80;
  tenant_id = 2;
  examination_id = 70;
  student_id = 90;
  status = SubmissionStatus.in_progress;
  started_at = some (pos 5);
  submitted_at = none;
  auto_submitted = false;
  answers = answer 1 ("b" ∷ []) ∷ answer 2 ("c" ∷ "b" ∷ []) ∷ answer 3 [] ∷ [];
  score = none;
  is_auto_graded = false;
  feedback = none;
  integrity_events = [];
  ip_address = "10.0.0.1";
  created_at = pos 5;
  updated_at = pos 5;
  graded_at = none;
  graded_by = none;
  results_published_to_student = false;
}

abbrev done : ExaminationSubmission
done = record attempt {
  status = SubmissionStatus.graded;
  id = 81;
  student_id = 91;
  answers = [];
  score = some 0;
}

abbrev online : Conn Tables
online = record {
  db = record { examinations = exam ∷ []; submissions = attempt ∷ done ∷ [] };
  tx = record { examinations = []; submissions = [] };
  aborted = false;
  faults = λ n. n == 4;
  calls = 0;
}

abbrev grades : List GradeAnswerRequest
grades = record { question_id = 3; marks_earned = 17; feedback = none } ∷ []

same_options_iff_example :
    (same_options ("c" ∷ "b" ∷ []) ("b" ∷ "c" ∷ []) ≡ true)
    ↔ (Included ("c" ∷ "b" ∷ []) ("b" ∷ "c" ∷ []) × Included ("b" ∷ "c" ∷ []) ("c" ∷ "b" ∷ []))
same_options_iff_example = same_options_iff ("c" ∷ "b" ∷ []) ("b" ∷ "c" ∷ [])

attempt-OneAnswerEach : OneAnswerEach attempt.answers
attempt-OneAnswerEach = ((omega arith, (omega arith, tt)), ((omega arith, tt), (tt, tt)))

submitted_score_example :
    ((submit_and_grade false (pos 9) exam attempt).score
      ≡ some (sum_earned (submit_and_grade false (pos 9) exam attempt).answers))
    × (sum_earned (submit_and_grade false (pos 9) exam attempt).answers ≤ sum_marks exam.questions)
submitted_score_example =
    submitted_score false (pos 9) exam attempt attempt-OneAnswerEach (refl, (refl, (refl, tt)))

graded_at_once_example : (submit_and_grade false (pos 9) exam attempt).status ≡ (
    if any_manual exam.questions attempt.answers
    then SubmissionStatus.submitted
    else SubmissionStatus.graded)
graded_at_once_example = graded_at_once false (pos 9) exam attempt

abbrev marked : Marked
marked = record {
  answers =
      record (answer 1 ("b" ∷ [])) { is_correct = some false; marks_earned = some 0 }
      ∷ record (answer 2 ("c" ∷ "b" ∷ [])) { is_correct = some true; marks_earned = some 10 }
      ∷ record (answer 3 []) { marks_earned = some 17 }
      ∷ [];
  total_score = 27;
  has_manual_grading = false;
}

final_score_example :
    (27 ≤ sum_marks exam.questions)
    × (sum_earned (submit_and_grade false (pos 9) exam attempt).answers ≤ 27)
unfolding submit_and_grade grade_answers grade_answer apply_grades exact_match same_options
final_score_example =
    final_score false (pos 9) exam attempt grades marked attempt-OneAnswerEach
      ((λ e. cc), ((λ e. cc), ((λ e. cc), tt))) (refl, (refl, (refl, tt))) refl

abbrev story : List (Uuid × Call)
story =
    (
      90,
      Call.save 80 (record { question_id = 3; answer_text = some "ode"; selected_options = [] })
          (pos 8) (pos 8),
    )
    ∷ (90, Call.submit 80 (pos 9))
    ∷ (21, Call.grade 80 grades none (pos 10))
    ∷ (21, Call.grade 81 grades none (pos 10))
    ∷ []

history-Sound_example : All Sound (run_calls story online).db.submissions
unfolding sum_earned
history-Sound_example = history-Sound story online (
  record { one_each = attempt-OneAnswerEach; score_fits = ((refl, (refl, (refl, tt))), refl) },
  (record { one_each = tt; score_fits = refl }, tt),
)
