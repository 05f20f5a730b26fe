-- ===== src/Examination/Manual.antt =====
-- When submitAndGrade of internal/service/examination_service.go leaves an attempt to a person.
use arc_lms.Prelude.{
  Bool, true, false, ◌||◌, if◌then◌else◌, Option, none, some, List, [], ◌∷◌, ◌≡◌, refl,
}
use arc_lms.Clock.{Time}
use arc_lms.Examination.Types.{
  Examination, ExaminationQuestion, ExaminationAnswer, ExaminationSubmission, SubmissionStatus,
  QuestionType,
}
use arc_lms.Examination.Grading.{
  find_question, grade_by_type, grade_found, grade_answer, grade_answers, submit_and_grade,
}

-- The question is one that a person marks.
abbrev pub needs_person : QuestionType → Bool
needs_person QuestionType.short_answer = true
needs_person QuestionType.essay = true
needs_person _ = false

abbrev pub manual_question : Option ExaminationQuestion → Bool
manual_question none = false
manual_question (some q) = needs_person q.type

-- Some answer is for such a question.
unfoldable pub any_manual : List ExaminationQuestion → List ExaminationAnswer → Bool
any_manual qs [] = false
any_manual qs (a ∷ xs) = manual_question (find_question a.question_id qs) || any_manual qs xs

manual_by_type :
    (t : QuestionType) (q : ExaminationQuestion) (a : ExaminationAnswer)
    → (grade_by_type t q a).manual ≡ needs_person t
manual_by_type QuestionType.multiple_choice q a = refl
manual_by_type QuestionType.multiple_answer q a = refl
manual_by_type QuestionType.true_false q a = refl
manual_by_type QuestionType.short_answer q a = refl
manual_by_type QuestionType.essay q a = refl

manual_found :
    (o : Option ExaminationQuestion) (a : ExaminationAnswer)
    → (grade_found o a).manual ≡ manual_question o
manual_found none a = refl
manual_found (some q) a = manual_by_type q.type q a

grade_answers-manual :
    (qs : List ExaminationQuestion) (xs : List ExaminationAnswer)
    → (grade_answers qs xs).has_manual_grading ≡ any_manual qs xs
unfolding grade_answers grade_answer any_manual
grade_answers-manual qs [] = refl
grade_answers-manual qs (a ∷ xs) =
    rw (manual_found (find_question a.question_id qs) a, grade_answers-manual qs xs) refl

-- A submitted attempt is graded at once exactly if no answer is for a short-answer or essay question
-- of the examination, and otherwise waits as submitted.
pub graded_at_once :
    (auto_submitted : Bool) (now : Time) (e : Examination) (s : ExaminationSubmission)
    → (submit_and_grade auto_submitted now e s).status ≡ (
        if any_manual e.questions s.answers
        then SubmissionStatus.submitted
        else SubmissionStatus.graded)
unfolding submit_and_grade
graded_at_once auto_submitted now e s = rw (grade_answers-manual e.questions s.answers) refl
