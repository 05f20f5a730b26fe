-- ===== src/Examination/Grading.antt =====
-- submitAndGrade and GradeSubmission of internal/service/examination_service.go: the marks of each
-- answer, and their sum.
use arc_lms.Prelude.{
  ℕ, ◌+◌, Bool, true, false, ◌&&◌, ◌||◌, ltb, ◌==◌, if◌then◌else◌, Option, none, some, List, [],
  ◌∷◌, find, String, Uuid,
}
use arc_lms.Prelude.Texts.{same_text}
use arc_lms.Clock.{Time}
use arc_lms.Examination.Types.{
  Examination, ExaminationQuestion, ExaminationAnswer, ExaminationSubmission, SubmissionStatus,
  QuestionType,
}

-- The loop that looks for a question.
abbrev pub find_question : Uuid → List ExaminationQuestion → Option ExaminationQuestion
find_question k qs = find (λ q. q.id == k) qs

-- One option is selected, one is right, and they are the same.
unfoldable pub exact_match : List String → List String → Bool
exact_match (a ∷ []) (b ∷ []) = same_text a b
exact_match _ _ = false

-- The inner loops: whether a text is in a list.
abbrev pub contains : String → List String → Bool
contains a [] = false
contains a (b ∷ bs) = same_text a b || contains a bs

-- The outer loops: whether all of the first list are in the second.
abbrev pub all_in : List String → List String → Bool
all_in [] bs = true
all_in (a ∷ xs) bs = contains a bs && all_in xs bs

-- All that is selected is right, and then whether all that is right is selected.
unfoldable pub same_options : List String → List String → Bool
same_options selected correct = if all_in selected correct then all_in correct selected else false

-- An answer with its marks, what it adds to the score, and whether it waits for a person.
pub record Graded : Type 0 where
  pub answer : ExaminationAnswer
  pub marks : ℕ
  pub manual : Bool

abbrev pub graded_as : Bool → ℕ → ExaminationAnswer → Graded
graded_as correct marks a = record {
  answer = record a {
    is_correct = some correct;
    marks_earned = some (if correct then marks else 0);
  };
  marks = if correct then marks else 0;
  manual = false;
}

-- The switch on the question's type.
abbrev pub grade_by_type : QuestionType → ExaminationQuestion → ExaminationAnswer → Graded
grade_by_type QuestionType.multiple_choice q a =
    graded_as (exact_match a.selected_options q.correct_answers) q.marks a
grade_by_type QuestionType.multiple_answer q a =
    graded_as (same_options a.selected_options q.correct_answers) q.marks a
grade_by_type QuestionType.true_false q a =
    graded_as (exact_match a.selected_options q.correct_answers) q.marks a
grade_by_type QuestionType.short_answer q a = record { answer = a; marks = 0; manual = true }
grade_by_type QuestionType.essay q a = record { answer = a; marks = 0; manual = true }

-- An answer to a question that the examination does not have is passed over.
abbrev pub grade_found : Option ExaminationQuestion → ExaminationAnswer → Graded
grade_found none a = record { answer = a; marks = 0; manual = false }
grade_found (some q) a = grade_by_type q.type q a

unfoldable pub grade_answer : List ExaminationQuestion → ExaminationAnswer → Graded
grade_answer qs a = grade_found (find_question a.question_id qs) a

-- What the loop over the answers has built.
pub record Marked : Type 0 where
  pub answers : List ExaminationAnswer
  pub total_score : ℕ
  pub has_manual_grading : Bool

abbrev pub mark : Graded → Marked → Marked
mark g m = record {
  answers = g.answer ∷ m.answers;
  total_score = g.marks + m.total_score;
  has_manual_grading = g.manual || m.has_manual_grading;
}

unfoldable pub grade_answers : List ExaminationQuestion → List ExaminationAnswer → Marked
grade_answers qs [] = record { answers = []; total_score = 0; has_manual_grading = false }
grade_answers qs (a ∷ xs) = mark (grade_answer qs a) (grade_answers qs xs)

abbrev pub close_submission : Bool → Time → Marked → ExaminationSubmission → ExaminationSubmission
close_submission auto_submitted now m s = record s {
  status = if m.has_manual_grading then SubmissionStatus.submitted else SubmissionStatus.graded;
  submitted_at = some now;
  auto_submitted = auto_submitted;
  updated_at = now;
  answers = m.answers;
  score = some m.total_score;
  is_auto_graded = if m.has_manual_grading then s.is_auto_graded else true;
  graded_at = if m.has_manual_grading then s.graded_at else some now;
}

-- What `submitAndGrade` stores.
unfoldable pub submit_and_grade :
    Bool → Time → Examination → ExaminationSubmission → ExaminationSubmission
submit_and_grade auto_submitted now e s =
    close_submission auto_submitted now (grade_answers e.questions s.answers) s

pub record GradeAnswerRequest : Type 0 where
  pub question_id : Uuid
  pub marks_earned : ℕ
  pub feedback : Option String

-- Whether the marks are more than the question has; a question that is not found has no limit.
abbrev pub exceeds : ℕ → Option ExaminationQuestion → Bool
exceeds marks none = false
exceeds marks (some q) = ltb q.marks marks

-- The grade for an answer is the first that is for its question; `none` is the error of marks that
-- exceed the maximum.
abbrev pub apply_grade :
    List ExaminationQuestion → ExaminationAnswer → Option GradeAnswerRequest → Option Graded
apply_grade qs a none = some (record { answer = a; marks = 0; manual = false })
apply_grade qs a (some g) =
    if exceeds g.marks_earned (find_question g.question_id qs)
    then none
    else some (record {
      answer = record a { marks_earned = some g.marks_earned; feedback = g.feedback };
      marks = g.marks_earned;
      manual = false;
    })

-- An answer that has marks keeps them.
abbrev pub regrade :
    List ExaminationQuestion
    → List GradeAnswerRequest
    → ExaminationAnswer
    → Option ℕ
    → Option Graded
regrade qs grades a (some marks) = some (record { answer = a; marks = marks; manual = false })
regrade qs grades a none = apply_grade qs a (find (λ g. g.question_id == a.question_id) grades)

abbrev pub mark_option : Option Graded → Option Marked → Option Marked
mark_option (some g) (some m) = some (mark g m)
mark_option _ _ = none

unfoldable pub apply_grades :
    List ExaminationQuestion → List GradeAnswerRequest → List ExaminationAnswer → Option Marked
apply_grades qs grades [] =
    some (record { answers = []; total_score = 0; has_manual_grading = false })
apply_grades qs grades (a ∷ xs) =
    mark_option (regrade qs grades a a.marks_earned) (apply_grades qs grades xs)

abbrev pub finish_grading :
    Option String → Uuid → Time → Marked → ExaminationSubmission → ExaminationSubmission
finish_grading feedback actor_id now m s = record s {
  status = SubmissionStatus.graded;
  answers = m.answers;
  score = some m.total_score;
  feedback = feedback;
  graded_at = some now;
  graded_by = some actor_id;
  updated_at = now;
}
