-- ===== src/Progress/Tests.antt =====
-- Two students with three records, through internal/service/progress_service.go. Their averages are
-- compared as fractions.
use arc_lms.Prelude.{
  ℕ, ◌+◌, ◌*◌, ltb, true, false, none, some, List, [], ◌∷◌, map, All, ◌≡◌, refl, ◌↔◌, ◌⊎◌, arith,
  Uuid,
}
use arc_lms.Prelude.Int.{pos}
use arc_lms.Progress.{
  ProgressStatus, Letter, Progress, Floats, sum, weighted_total, grade_of, compute_grade,
  insert_student, students_of, total_percentage, average_of, position_from, with_positions,
}
use arc_lms.Progress.Rank.{Rearranges, IsRanked, IsPlaced, class_places}
use arc_lms.Progress.Report.{IsReported, report_card_places}
use arc_lms.Progress.Letters.{flagged_iff}

-- Sums and quotients of whole numbers, as numerator and denominator.
abbrev fractions : Floats
fractions = record {
  Float = ℕ × ℕ;
  of_int = λ n. (n, 1);
  add = λ x y. (x.0 * y.1 + y.0 * x.1, x.1 * y.1);
  divide = λ x y. (x.0 * y.1, x.1 * y.0);
  greater = λ x y. ltb (y.0 * x.1) (x.0 * y.1);
}

fractions_irreflexive : (x : ℕ × ℕ) → fractions.greater x x ≡ false
fractions_irreflexive x = ground arith

abbrev graded : Uuid → Uuid → ℕ → Progress
graded student course total = record {
  id = course;
  tenant_id = 1;
  student_id = student;
  course_id = course;
  term_id = 2;
  class_id = 3;
  status = ProgressStatus.in_progress;
  quiz_scores = 40 ∷ 10 ∷ [];
  assignment_scores = [];
  examination_score = some total;
  grade = some (record {
    continuous_assessment = 50;
    examination = total;
    total = total;
    letter_grade = Letter.c;
  });
  class_position = none;
  is_flagged = false;
  flag_reason = none;
  updated_at = pos 0;
}

abbrev class : List Progress
class = graded 10 31 60 ∷ graded 10 32 70 ∷ graded 20 31 80 ∷ []

abbrev order : List Uuid
order = 20 ∷ 10 ∷ []

order-IsRanked : IsRanked fractions fractions_irreflexive class order
unfolding average_of total_percentage
order-IsRanked = ((refl, tt), (tt, tt))

order-Rearranges : Rearranges order (students_of class)
unfolding students_of insert_student
order-Rearranges p = ground arith

class_places_example :
    All (λ p. IsPlaced fractions fractions_irreflexive class order p.student_id) class
class_places_example =
    class_places fractions fractions_irreflexive class order order-Rearranges order-IsRanked

report_card_places_example :
    All (IsReported fractions fractions_irreflexive class order (pos 9)) class
report_card_places_example =
    report_card_places fractions fractions_irreflexive class order (pos 9) order-Rearranges
      order-IsRanked

stored_places :
    map (λ p. p.class_position) (with_positions fractions class order (pos 9))
    ≡ some 2 ∷ some 2 ∷ some 1 ∷ []
unfolding with_positions position_from
stored_places = refl

-- (50 * 40 + 70 * 60) / 100
weighted :
    grade_of 40 60 (graded 10 32 70)
    ≡ record { continuous_assessment = 50; examination = 70; total = 62; letter_grade = Letter.c }
unfolding sum weighted_total
weighted = refl

flagged_iff_example :
    ((compute_grade 40 60 (pos 9) (graded 10 31 10)).is_flagged ≡ true)
    ↔ ((false ≡ true) ⊎ ((grade_of 40 60 (graded 10 31 10)).letter_grade ≡ Letter.f))
flagged_iff_example = flagged_iff (graded 10 31 10) 40 60 (pos 9)
