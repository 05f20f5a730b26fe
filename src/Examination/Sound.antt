-- ===== src/Examination/Sound.antt =====
-- What every stored submission satisfies after any calls on internal/service/examination_service.go.
use arc_lms.Prelude.{
  ℕ, Bool, true, false, ◌==◌, ◌≡◌, ◌≢◌, refl, sym, ap, ◌∙◌, subst, inl, inr, Option, none, some,
  List, [], ◌∷◌, Bool-cases, All, Uuid, String, arith, if◌then◌else◌,
}
use arc_lms.Clock.{Time}
use arc_lms.Examination.Types.{
  Examination, ExaminationQuestion, ExaminationAnswer, ExaminationSubmission, SubmissionStatus,
}
use arc_lms.Examination.Grading.{
  Graded, Marked, GradeAnswerRequest, grade_answers, submit_and_grade, apply_grade, apply_grades,
  regrade, finish_grading, exceeds, find_question,
}
use arc_lms.Examination.Score.{
  OneAnswerEach, Unmarked, marks_or_zero, sum_earned, sum_earned-grade_answers,
}
use arc_lms.Examination.ByPerson.{graded-question, split_mark, accepted}
use arc_lms.Examination.Service.{SaveAnswerRequest, put_answer}

-- While in progress no answer has marks and there is no score; afterwards the score is the sum of the
-- answers' marks.
abbrev pub ScoreFits : SubmissionStatus → List ExaminationAnswer → Option ℕ → Type 0
ScoreFits SubmissionStatus.in_progress xs score = Unmarked xs × (score ≡ none)
ScoreFits SubmissionStatus.submitted xs score = score ≡ some (sum_earned xs)
ScoreFits SubmissionStatus.graded xs score = score ≡ some (sum_earned xs)
ScoreFits _ xs score = Unit

pub record Sound (s : ExaminationSubmission) : Type 0 where
  pub one_each : OneAnswerEach s.answers
  pub score_fits : ScoreFits s.status s.answers s.score

module _ (req : SaveAnswerRequest) (now : Time) where
  put_apart :
      (k : Uuid) (xs : List ExaminationAnswer)
      → k ≢ req.question_id
      → All (λ b. k ≢ b.question_id) xs
      → All (λ b. k ≢ b.question_id) (put_answer req now xs)
  put_apart k [] n h = (n, tt)
  put_apart k (a ∷ xs) n h = elim (Bool-cases (a.question_id == req.question_id)) [
    | inl e ↦ rw e h
    | inr e ↦ rw e (h.0, put_apart k xs n h.1)
  ]

  pub put_answer-OneAnswerEach :
      (xs : List ExaminationAnswer) → OneAnswerEach xs → OneAnswerEach (put_answer req now xs)
  put_answer-OneAnswerEach [] h = (tt, tt)
  put_answer-OneAnswerEach (a ∷ xs) h = elim (Bool-cases (a.question_id == req.question_id)) [
    | inl e ↦ rw e h
    | inr e ↦ rw e (put_apart a.question_id xs (other e) h.0, put_answer-OneAnswerEach xs h.1)
  ]
    where
      other : (a.question_id == req.question_id) ≡ false → a.question_id ≢ req.question_id
      other e = ground arith

  pub put_answer-Unmarked :
      (xs : List ExaminationAnswer) → Unmarked xs → Unmarked (put_answer req now xs)
  put_answer-Unmarked [] h = (refl, tt)
  put_answer-Unmarked (a ∷ xs) h = elim (Bool-cases (a.question_id == req.question_id)) [
    | inl e ↦ rw e h
    | inr e ↦ rw e (h.0, put_answer-Unmarked xs h.1)
  ]

-- Two lists of answers for the same questions, in the same order.
abbrev SameQuestions : List ExaminationAnswer → List ExaminationAnswer → Type 0
SameQuestions [] [] = Unit
SameQuestions (a ∷ xs) (b ∷ ys) = (b.question_id ≡ a.question_id) × SameQuestions xs ys
SameQuestions _ _ = ⊥

apart_same :
    (k l : Uuid) (xs ys : List ExaminationAnswer)
    → l ≡ k
    → SameQuestions xs ys
    → All (λ b. k ≢ b.question_id) xs
    → All (λ b. l ≢ b.question_id) ys
apart_same k l [] [] e q h = tt
apart_same k l (a ∷ xs) (b ∷ ys) e q h =
    (λ p. h.0 (sym e ∙ p ∙ q.0), apart_same k l xs ys e q.1 h.1)
apart_same k l [] (b ∷ ys) e q h = absurd q
apart_same k l (a ∷ xs) [] e q h = absurd q

one_each_same :
    (xs ys : List ExaminationAnswer) → SameQuestions xs ys → OneAnswerEach xs → OneAnswerEach ys
one_each_same [] [] q h = tt
one_each_same (a ∷ xs) (b ∷ ys) q h =
    (apart_same a.question_id b.question_id xs ys q.0 q.1 h.0, one_each_same xs ys q.1 h.1)
one_each_same [] (b ∷ ys) q h = absurd q
one_each_same (a ∷ xs) [] q h = absurd q

grade_same :
    (qs : List ExaminationQuestion) (xs : List ExaminationAnswer)
    → SameQuestions xs (grade_answers qs xs).answers
unfolding grade_answers
grade_same qs [] = tt
grade_same qs (a ∷ xs) = (graded-question qs a, grade_same qs xs)

some_same : (g h : Graded) → some g ≡ some h → g ≡ h
some_same g h e = cc

marked_same : (m n : Marked) → some m ≡ some n → m ≡ n
marked_same m n e = cc

module _ (qs : List ExaminationQuestion) (grades : List GradeAnswerRequest) where
  -- A grade is for the answer that it is given to, and is what the answer then has.
  abbrev Fits : ExaminationAnswer → Graded → Type 0
  Fits a g =
      (g.answer.question_id ≡ a.question_id) × (marks_or_zero g.answer.marks_earned ≡ g.marks)

  apply-Fits :
      (a : ExaminationAnswer) (o : Option GradeAnswerRequest) (g : Graded)
      → a.marks_earned ≡ none
      → apply_grade qs a o ≡ some g
      → Fits a g
  apply-Fits a none g u h = subst (Fits a) (some_same _ _ h) (refl, rw u refl)
  apply-Fits a (some x) g u h =
      subst (Fits a) (accepted (exceeds x.marks_earned (find_question x.question_id qs)) _ g h).1
        (refl, refl)

  regrade-Fits :
      (a : ExaminationAnswer) (o : Option ℕ) (g : Graded)
      → a.marks_earned ≡ o
      → regrade qs grades a o ≡ some g
      → Fits a g
  regrade-Fits a none g u h = apply-Fits a _ g u h
  regrade-Fits a (some n) g u h = subst (Fits a) (some_same _ _ h) (refl, rw u refl)

  apply_fits :
      (xs : List ExaminationAnswer) (m : Marked)
      → apply_grades qs grades xs ≡ some m
      → SameQuestions xs m.answers × (sum_earned m.answers ≡ m.total_score)
  unfolding apply_grades sum_earned
  apply_fits [] m h =
      subst (λ m. SameQuestions [] m.answers × (sum_earned m.answers ≡ m.total_score))
        (marked_same _ m h) (tt, refl)
  apply_fits (a ∷ xs) m h =
      let (g, m1, eg, em, e) = split_mark qs grades (regrade qs grades a a.marks_earned) _ m h in
      let (q, t) = regrade-Fits a a.marks_earned g refl eg in
      let (qs1, t1) = apply_fits xs m1 em in
      subst (λ m. SameQuestions (a ∷ xs) m.answers × (sum_earned m.answers ≡ m.total_score)) e
        ((q, qs1), rw (t, t1) refl)

-- What a submission becomes when it is handed in, and when a person has marked it.
pub submit_and_grade-Sound :
    (auto : Bool) (now : Time) (e : Examination) (s : ExaminationSubmission)
    → OneAnswerEach s.answers
    → Unmarked s.answers
    → Sound (submit_and_grade auto now e s)
unfolding submit_and_grade
submit_and_grade-Sound auto now e s d u = record {
  one_each = one_each_same s.answers _ (grade_same e.questions s.answers) d;
  score_fits = by_flag (grade_answers e.questions s.answers).has_manual_grading;
}
  where
    by_flag :
        (b : Bool)
        → ScoreFits
            (if b then SubmissionStatus.submitted else SubmissionStatus.graded)
            (grade_answers e.questions s.answers).answers
            (some (grade_answers e.questions s.answers).total_score)
    by_flag true = ap some (sym (sum_earned-grade_answers e.questions s.answers u))
    by_flag false = ap some (sym (sum_earned-grade_answers e.questions s.answers u))

pub finish_grading-Sound :
    (qs : List ExaminationQuestion) (gs : List GradeAnswerRequest) (feedback : Option String)
    (user : Uuid) (now : Time) (m : Marked) (s : ExaminationSubmission)
    → OneAnswerEach s.answers
    → apply_grades qs gs s.answers ≡ some m
    → Sound (finish_grading feedback user now m s)
finish_grading-Sound qs gs feedback user now m s d h =
    let (q, t) = apply_fits qs gs s.answers m h in
    record { one_each = one_each_same s.answers m.answers q d; score_fits = ap some (sym t) }
