-- ===== src/Examination/Score.antt =====
-- The score that submitAndGrade and GradeSubmission of internal/service/examination_service.go give.
use arc_lms.Prelude.{
  ℕ, ◌+◌, ◌≤◌, Bool, ◌==◌, if◌then◌else◌, Option, none, some, List, [], ◌∷◌, ◌≡◌, ◌≢◌, refl, sym,
  ap, All, Pairwise, Uuid, arith,
}
use arc_lms.Clock.{Time}
use arc_lms.Examination.Types.{
  Examination, ExaminationQuestion, ExaminationAnswer, ExaminationSubmission, QuestionType,
}
use arc_lms.Examination.Grading.{
  find_question, grade_by_type, grade_found, grade_answer, grade_answers, submit_and_grade,
}

-- The marks of all questions, which `CreateExamination` compares with the total.
unfoldable pub sum_marks : List ExaminationQuestion → ℕ
sum_marks [] = 0
sum_marks (q ∷ qs) = q.marks + sum_marks qs

-- The marks of the question with the key, 0 without one.
abbrev pub marks_of : Option ExaminationQuestion → ℕ
marks_of none = 0
marks_of (some q) = q.marks

-- The questions without the first one that has the key.
abbrev without : Uuid → List ExaminationQuestion → List ExaminationQuestion
without k [] = []
without k (q ∷ qs) = let rest = without k qs in if q.id == k then qs else q ∷ rest

-- No question is answered twice.
abbrev pub OneAnswerEach : List ExaminationAnswer → Type 0
OneAnswerEach xs = Pairwise (λ a b. a.question_id ≢ b.question_id) xs

sum_marks-without :
    (k : Uuid) (qs : List ExaminationQuestion)
    → sum_marks qs ≡ marks_of (find_question k qs) + sum_marks (without k qs)
unfolding sum_marks
sum_marks-without k [] = omega arith
sum_marks-without k (q ∷ qs) = ground (arith, sum_marks-without k qs)

find-without :
    (k l : Uuid) (qs : List ExaminationQuestion)
    → k ≢ l
    → find_question l (without k qs) ≡ find_question l qs
find-without k l [] n = refl
find-without k l (q ∷ qs) n = ground (arith, find-without k l qs n)

-- The marks of the questions that the answers are for.
unfoldable pub answered_marks : List ExaminationQuestion → List ExaminationAnswer → ℕ
answered_marks qs [] = 0
answered_marks qs (a ∷ xs) = marks_of (find_question a.question_id qs) + answered_marks qs xs

answered-without :
    (k : Uuid) (qs : List ExaminationQuestion) (xs : List ExaminationAnswer)
    → All (λ b. k ≢ b.question_id) xs
    → answered_marks (without k qs) xs ≡ answered_marks qs xs
unfolding answered_marks
answered-without k qs [] h = refl
answered-without k qs (a ∷ xs) h =
    rw (find-without k a.question_id qs h.0, answered-without k qs xs h.1) refl

-- Questions answered once each have at most the marks of all of them.
pub answered_marks-le :
    (xs : List ExaminationAnswer) (qs : List ExaminationQuestion)
    → OneAnswerEach xs
    → answered_marks qs xs ≤ sum_marks qs
unfolding answered_marks
answered_marks-le [] qs h = omega arith
answered_marks-le (a ∷ xs) qs h = omega (
  arith,
  sum_marks-without a.question_id qs,
  answered-without a.question_id qs xs h.0,
  answered_marks-le xs (without a.question_id qs) h.1,
)

grade_by_type-le :
    (t : QuestionType) (q : ExaminationQuestion) (a : ExaminationAnswer)
    → (grade_by_type t q a).marks ≤ q.marks
grade_by_type-le QuestionType.multiple_choice q a = ground arith
grade_by_type-le QuestionType.multiple_answer q a = ground arith
grade_by_type-le QuestionType.true_false q a = ground arith
grade_by_type-le QuestionType.short_answer q a = omega arith
grade_by_type-le QuestionType.essay q a = omega arith

pub grade_found-le :
    (o : Option ExaminationQuestion) (a : ExaminationAnswer) → (grade_found o a).marks ≤ marks_of o
grade_found-le none a = omega arith
grade_found-le (some q) a = grade_by_type-le q.type q a

pub grade_answers-le :
    (qs : List ExaminationQuestion) (xs : List ExaminationAnswer)
    → (grade_answers qs xs).total_score ≤ answered_marks qs xs
unfolding grade_answers grade_answer answered_marks
grade_answers-le qs [] = omega arith
grade_answers-le qs (a ∷ xs) =
    omega (arith, grade_found-le (find_question a.question_id qs) a, grade_answers-le qs xs)

-- The marks that an answer has so far, 0 where it has none.
abbrev pub marks_or_zero : Option ℕ → ℕ
marks_or_zero none = 0
marks_or_zero (some n) = n

unfoldable pub sum_earned : List ExaminationAnswer → ℕ
sum_earned [] = 0
sum_earned (a ∷ xs) = marks_or_zero a.marks_earned + sum_earned xs

abbrev pub Unmarked : List ExaminationAnswer → Type 0
Unmarked xs = All (λ a. a.marks_earned ≡ none) xs

earned_by_type :
    (t : QuestionType) (q : ExaminationQuestion) (a : ExaminationAnswer)
    → a.marks_earned ≡ none
    → marks_or_zero (grade_by_type t q a).answer.marks_earned ≡ (grade_by_type t q a).marks
earned_by_type QuestionType.multiple_choice q a h = refl
earned_by_type QuestionType.multiple_answer q a h = refl
earned_by_type QuestionType.true_false q a h = refl
earned_by_type QuestionType.short_answer q a h = rw h refl
earned_by_type QuestionType.essay q a h = rw h refl

pub earned_found :
    (o : Option ExaminationQuestion) (a : ExaminationAnswer)
    → a.marks_earned ≡ none
    → marks_or_zero (grade_found o a).answer.marks_earned ≡ (grade_found o a).marks
earned_found none a h = rw h refl
earned_found (some q) a h = earned_by_type q.type q a h

pub sum_earned-grade_answers :
    (qs : List ExaminationQuestion) (xs : List ExaminationAnswer)
    → Unmarked xs
    → sum_earned (grade_answers qs xs).answers ≡ (grade_answers qs xs).total_score
unfolding grade_answers grade_answer sum_earned
sum_earned-grade_answers qs [] h = refl
sum_earned-grade_answers qs (a ∷ xs) h =
    omega (
      arith,
      earned_found (find_question a.question_id qs) a h.0,
      sum_earned-grade_answers qs xs h.1,
    )

-- The score of a submission whose answers have no marks yet, and of which no two are for the same
-- question, is the sum of the marks that its answers get, and at most the sum of the marks of the
-- examination's questions.
pub submitted_score :
    (auto_submitted : Bool) (now : Time) (e : Examination) (s : ExaminationSubmission)
    → OneAnswerEach s.answers
    → Unmarked s.answers
    → ((submit_and_grade auto_submitted now e s).score
        ≡ some (sum_earned (submit_and_grade auto_submitted now e s).answers))
      × (sum_earned (submit_and_grade auto_submitted now e s).answers ≤ sum_marks e.questions)
unfolding submit_and_grade
submitted_score auto_submitted now e s d u =
    let total = sum_earned-grade_answers e.questions s.answers u in
    (
      ap some (sym total),
      omega (
        arith,
        total,
        grade_answers-le e.questions s.answers,
        answered_marks-le s.answers e.questions d,
      ),
    )
