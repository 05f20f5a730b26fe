-- ===== src/Examination/ByPerson.antt =====
-- The marks that a person adds, in GradeSubmission of internal/service/examination_service.go.
use arc_lms.Prelude.{
  ℕ, ◌+◌, ◌≤◌, Bool, true, false, ◌==◌, ==_iff, if◌then◌else◌, Option, none, some, List, [], ◌∷◌,
  ◌≡◌, ◌≢◌, refl, sym, ap, subst, find, find_lem, All, arith,
}
use arc_lms.Clock.{Time}
use arc_lms.Examination.Types.{
  Examination, ExaminationQuestion, ExaminationAnswer, ExaminationSubmission, QuestionType,
}
use arc_lms.Examination.Grading.{
  Graded, Marked, GradeAnswerRequest, find_question, grade_by_type, grade_found, grade_answer,
  grade_answers, submit_and_grade, apply_grade, apply_grades, exceeds, regrade, mark_option, mark,
}
use arc_lms.Examination.Score.{
  sum_marks, marks_of, marks_or_zero, OneAnswerEach, Unmarked, answered_marks, answered_marks-le,
  sum_earned, earned_found, grade_found-le,
}

-- Every answer is for a question of the examination.
abbrev pub Known : List ExaminationQuestion → List ExaminationAnswer → Type 0
Known qs xs = All (λ a. find_question a.question_id qs ≢ none) xs

-- No answer has more marks than its question.
abbrev pub Within : List ExaminationQuestion → List ExaminationAnswer → Type 0
Within qs xs =
    All (λ a. marks_or_zero a.marks_earned ≤ marks_of (find_question a.question_id qs)) xs

within_limit :
    (o : Option ExaminationQuestion) (n : ℕ) → o ≢ none → exceeds n o ≡ false → n ≤ marks_of o
within_limit none n k h = absurd (k refl)
within_limit (some q) n k h = ground arith

pub accepted :
    (b : Bool) (g0 g : Graded) → (if b then none else some g0) ≡ some g → (b ≡ false) × (g0 ≡ g)
accepted true g0 g h = absurd (cc)
accepted false g0 g h = (refl, cc)

module _ (qs : List ExaminationQuestion) (grades : List GradeAnswerRequest) where
  abbrev grade_for : ExaminationAnswer → Option GradeAnswerRequest
  grade_for a = find (λ x. x.question_id == a.question_id) grades

  apply_grade-le :
      (a : ExaminationAnswer) (o : Option GradeAnswerRequest) (g : Graded)
      → find_question a.question_id qs ≢ none
      → grade_for a ≡ o
      → apply_grade qs a o ≡ some g
      → g.marks ≤ marks_of (find_question a.question_id qs)
  apply_grade-le a none g k f h = ap_le (cc)
    where
      ap_le : g.marks ≡ 0 → g.marks ≤ marks_of (find_question a.question_id qs)
      ap_le e = omega arith
  apply_grade-le a (some x) g k f h =
      let same =
        (==_iff x.question_id a.question_id).0
          (find_lem (λ y. y.question_id == a.question_id) grades f) in
      let (b, e) = accepted (exceeds x.marks_earned (find_question x.question_id qs)) _ g h in
      subst (λ z. z ≤ marks_of (find_question a.question_id qs)) (ap (λ z. z.marks) e)
        (within_limit (find_question a.question_id qs) x.marks_earned k
          (subst (λ z. exceeds x.marks_earned (find_question z qs) ≡ false) same b))

  -- What an answer adds is what it had, or else at most what its question has.
  regrade-le :
      (a : ExaminationAnswer) (o : Option ℕ) (g : Graded)
      → find_question a.question_id qs ≢ none
      → marks_or_zero o ≤ marks_of (find_question a.question_id qs)
      → regrade qs grades a o ≡ some g
      → (g.marks ≤ marks_of (find_question a.question_id qs)) × (marks_or_zero o ≤ g.marks)
  regrade-le a none g k w h = (apply_grade-le a (grade_for a) g k refl h, omega arith)
  regrade-le a (some n) g k w h = kept (cc)
    where
      kept : g.marks ≡ n → (g.marks ≤ marks_of (find_question a.question_id qs)) × (n ≤ g.marks)
      kept e = (omega arith, omega arith)

  pub split_mark :
      (g : Option Graded) (m : Option Marked) (r : Marked)
      → mark_option g m ≡ some r
      → (g1 : Graded) × (m1 : Marked) × (g ≡ some g1) × (m ≡ some m1) × (mark g1 m1 ≡ r)
  split_mark (some g) (some m) r h = (g, m, refl, refl, cc)
  split_mark (some g) none r h = absurd (cc)
  split_mark none m r h = absurd (cc)

  apply_grades-le :
      (xs : List ExaminationAnswer) (m : Marked)
      → Known qs xs
      → Within qs xs
      → apply_grades qs grades xs ≡ some m
      → (m.total_score ≤ answered_marks qs xs) × (sum_earned xs ≤ m.total_score)
  unfolding apply_grades answered_marks sum_earned
  apply_grades-le [] m k w h = (zero_le (cc), omega arith)
    where
      zero_le : m.total_score ≡ 0 → m.total_score ≤ 0
      zero_le e = omega arith
  apply_grades-le (a ∷ xs) m k w h =
      let (g, m1, eg, em, e) = split_mark (regrade qs grades a a.marks_earned) _ m h in
      let (l1, l2) = regrade-le a a.marks_earned g k.0 w.0 eg in
      let (r1, r2) = apply_grades-le xs m1 k.1 w.1 em in
      total g m1 l1 l2 r1 r2 (ap (λ z. z.total_score) e)
    where
      total :
          (g : Graded) (m1 : Marked)
          → g.marks ≤ marks_of (find_question a.question_id qs)
          → marks_or_zero a.marks_earned ≤ g.marks
          → m1.total_score ≤ answered_marks qs xs
          → sum_earned xs ≤ m1.total_score
          → g.marks + m1.total_score ≡ m.total_score
          → (m.total_score ≤ marks_of (find_question a.question_id qs) + answered_marks qs xs)
            × (marks_or_zero a.marks_earned + sum_earned xs ≤ m.total_score)
      total g m1 l1 l2 r1 r2 e = (omega arith, omega arith)

by_type-question :
    (t : QuestionType) (q : ExaminationQuestion) (a : ExaminationAnswer)
    → (grade_by_type t q a).answer.question_id ≡ a.question_id
by_type-question QuestionType.multiple_choice q a = refl
by_type-question QuestionType.multiple_answer q a = refl
by_type-question QuestionType.true_false q a = refl
by_type-question QuestionType.short_answer q a = refl
by_type-question QuestionType.essay q a = refl

found-question :
    (o : Option ExaminationQuestion) (a : ExaminationAnswer)
    → (grade_found o a).answer.question_id ≡ a.question_id
found-question none a = refl
found-question (some q) a = by_type-question q.type q a

module _ (qs : List ExaminationQuestion) where
  pub graded-question :
      (a : ExaminationAnswer) → (grade_answer qs a).answer.question_id ≡ a.question_id
  unfolding grade_answer
  graded-question a = found-question (find_question a.question_id qs) a

  graded-Known :
      (xs : List ExaminationAnswer) → Known qs xs → Known qs (grade_answers qs xs).answers
  unfolding grade_answers
  graded-Known [] k = tt
  graded-Known (a ∷ xs) k =
      (subst (λ z. find_question z qs ≢ none) (sym (graded-question a)) k.0, graded-Known xs k.1)

  graded_within :
      (a : ExaminationAnswer)
      → a.marks_earned ≡ none
      → marks_or_zero (grade_answer qs a).answer.marks_earned
        ≤ marks_of (find_question a.question_id qs)
  unfolding grade_answer
  graded_within a h =
      let o = find_question a.question_id qs in
      omega (arith, earned_found o a h, grade_found-le o a)

  graded-Within :
      (xs : List ExaminationAnswer) → Unmarked xs → Within qs (grade_answers qs xs).answers
  unfolding grade_answers
  graded-Within [] h = tt
  graded-Within (a ∷ xs) h = (
    subst
        (λ z. marks_or_zero (grade_answer qs a).answer.marks_earned ≤ marks_of (find_question z qs))
        (sym (graded-question a)) (graded_within a h.0),
    graded-Within xs h.1,
  )

  answered_marks-grade_answers :
      (xs : List ExaminationAnswer)
      → answered_marks qs (grade_answers qs xs).answers ≡ answered_marks qs xs
  unfolding grade_answers answered_marks
  answered_marks-grade_answers [] = refl
  answered_marks-grade_answers (a ∷ xs) =
      rw (graded-question a, answered_marks-grade_answers xs) refl

-- Where no two answers of a submission are for the same question, each is for a question of the
-- examination and none has marks yet, whatever grades a person gives that are accepted after it is
-- submitted, the final score is at most the sum of the marks of the examination's questions, and at
-- least the marks that the submission got at once.
pub final_score :
    (auto_submitted : Bool) (now : Time) (e : Examination) (s : ExaminationSubmission)
    (grades : List GradeAnswerRequest) (m : Marked)
    → OneAnswerEach s.answers
    → Known e.questions s.answers
    → Unmarked s.answers
    → apply_grades e.questions grades (submit_and_grade auto_submitted now e s).answers ≡ some m
    → (m.total_score ≤ sum_marks e.questions)
      × (sum_earned (submit_and_grade auto_submitted now e s).answers ≤ m.total_score)
unfolding submit_and_grade
final_score auto_submitted now e s grades m d k u h =
    let (upper, lower) =
      apply_grades-le e.questions grades _ m (graded-Known e.questions s.answers k)
        (graded-Within e.questions s.answers u) h in
    (
      omega (
        arith,
        upper,
        answered_marks-grade_answers e.questions s.answers,
        answered_marks-le s.answers e.questions d,
      ),
      lower,
    )
