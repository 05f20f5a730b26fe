-- ===== src/Progress.antt =====
-- internal/domain/progress.go and the places of a class in internal/service/progress_service.go.
-- `float64` is a parameter of what divides: a type with the operations that the code uses.
pub mod Rank
pub mod Report
pub mod Letters
mod Tests
use arc_lms.Prelude.{
  ℕ, zero, suc, ◌+◌, ◌*◌, ◌/◌, leb, ltb, ◌==◌, Bool, true, false, if◌then◌else◌, Option, none, some,
  List, [], ◌∷◌, map, length, select, count, find, update_where, String, Uuid,
}
use arc_lms.Clock.{Time}

pub data ProgressStatus : Type 0 where
  in_progress completed flagged : ProgressStatus

pub data Letter : Type 0 where
  a b c d e f : Letter

-- The percentage is the total, as a `float64`; the remark goes with the letter.
pub record Grade : Type 0 where
  pub continuous_assessment : ℕ
  pub examination : ℕ
  pub total : ℕ
  pub letter_grade : Letter

pub record Progress : Type 0 where
  pub id : Uuid
  pub tenant_id : Uuid
  pub student_id : Uuid
  pub course_id : Uuid
  pub term_id : Uuid
  pub class_id : Uuid
  pub status : ProgressStatus
  pub quiz_scores : List ℕ
  pub assignment_scores : List ℕ
  pub examination_score : Option ℕ
  pub grade : Option Grade
  pub class_position : Option ℕ
  pub is_flagged : Bool
  pub flag_reason : Option String
  pub updated_at : Time

unfoldable pub sum : List ℕ → ℕ
sum [] = 0
sum (x ∷ xs) = x + sum xs

-- Scores are at least 0, and so small that their sums and products fit an `int`.
abbrev pub compute_continuous_assessment : Progress → ℕ
compute_continuous_assessment p = sum p.quiz_scores + sum p.assignment_scores

abbrev pub letter_of : ℕ → Letter
letter_of n =
    if leb 80 n
    then Letter.a
    else if leb 70 n
    then Letter.b
    else if leb 60 n
    then Letter.c
    else if leb 50 n
    then Letter.d
    else if leb 40 n
    then Letter.e
    else Letter.f

abbrev pub or_zero : Option ℕ → ℕ
or_zero none = 0
or_zero (some n) = n

unfoldable pub weighted_total : ℕ → ℕ → ℕ → ℕ → ℕ
weighted_total ca ca_weight exam exam_weight = (ca * ca_weight + exam * exam_weight) / 100

abbrev pub grade_of : ℕ → ℕ → Progress → Grade
grade_of ca_weight exam_weight p =
    let ca = compute_continuous_assessment p in
    let exam = or_zero p.examination_score in
    let total = weighted_total ca ca_weight exam exam_weight in
    record {
      continuous_assessment = ca;
      examination = exam;
      total = total;
      letter_grade = letter_of total;
    }

abbrev pub flag_for_low_performance : String → Time → Progress → Progress
flag_for_low_performance why now p = record p {
  status = ProgressStatus.flagged;
  is_flagged = true;
  flag_reason = some why;
  updated_at = now;
}

-- The record that `ComputeGrade` of the service stores.
unfoldable pub compute_grade : ℕ → ℕ → Time → Progress → Progress
compute_grade ca_weight exam_weight now p =
    let g = grade_of ca_weight exam_weight p in
    let graded : Progress = record p { grade = some g; updated_at = now } in
    if ltb g.total 40 then flag_for_low_performance "Overall grade below 40%" now graded else graded

-- `float64`, with what the code does with it.
pub record Floats : Type 1 where
  pub Float : Type 0
  pub of_int : ℕ → Float
  pub add : Float → Float → Float
  pub divide : Float → Float → Float
  pub greater : Float → Float → Bool

-- The students of a list of records, each once.
unfoldable pub insert_student : Uuid → List Uuid → List Uuid
insert_student s [] = s ∷ []
insert_student s (t ∷ ts) = let rest = insert_student s ts in if t == s then t ∷ ts else t ∷ rest

unfoldable pub students_of : List Progress → List Uuid
students_of [] = []
students_of (p ∷ ps) = insert_student p.student_id (students_of ps)

module _ (float : Floats) where
  pub record StudentRank : Type 0 where
    pub student_id : Uuid
    pub average : float.Float

  unfoldable pub total_percentage : float.Float → List Progress → float.Float
  total_percentage acc [] = acc
  total_percentage acc (p ∷ ps) =
      total_percentage (elim p.grade [ none ↦ acc | some g ↦ float.add acc (float.of_int g.total) ])
        ps

  -- The average of a student, over all records of the student in the class.
  unfoldable pub average_of : List Progress → Uuid → float.Float
  average_of ps s =
      let own = select (λ p. p.student_id == s) ps in
      float.divide (total_percentage (float.of_int 0) own) (float.of_int (length own))

  abbrev pub rank_of : List Progress → Uuid → StudentRank
  rank_of ps s = record { student_id = s; average = average_of ps s }

  -- What is sorted, in some order.
  unfoldable pub rankings_of : List Progress → List StudentRank
  rankings_of ps = map (rank_of ps) (students_of ps)

  -- `studentPositions` after the loop over the sorted rankings, the first of which is at this position.
  unfoldable pub position_from : ℕ → List StudentRank → Uuid → Option ℕ
  position_from n [] s = none
  position_from n (r ∷ rs) s =
      let rest = position_from (n + 1) rs s in if r.student_id == s then some n else rest

  -- The records that `ComputeClassPositions` stores, where the students come in this order.
  abbrev pub place : Time → Option ℕ → Progress → Progress
  place now none p = p
  place now (some n) p = record p { class_position = some n; updated_at = now }

  unfoldable pub with_positions : List Progress → List Uuid → Time → List Progress
  with_positions ps order now =
      map (λ p. place now (position_from 1 (map (rank_of ps) order) p.student_id) p) ps

unfoldable pub total_position : List Progress → ℕ
total_position [] = 0
total_position (p ∷ ps) = or_zero p.class_position + total_position ps

-- The position on a report card, from the student's records.
unfoldable pub average_position : List Progress → ℕ
average_position ps = if ltb 0 (length ps) then total_position ps / length ps else 1
