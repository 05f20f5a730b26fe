-- ===== src/Progress/Report.antt =====
-- The place on a report card, as GenerateReportCard of internal/service/progress_service.go reads it from
-- the records that ComputeClassPositions has stored.
use arc_lms.Prelude.{
  ℕ, ◌*◌, ◌/◌, ◌≤◌, ltb, Bool, true, false, ◌==◌, ==_iff, Bool-cases, Option, none, some, List, [],
  ◌∷◌, map, select, count, length, ◌≡◌, refl, ◌∙◌, ap, inl, inr, arith, Uuid, All, All-imp,
}
use arc_lms.Clock.{Time}
use arc_lms.Progress.{
  Progress, Floats, students_of, rank_of, position_from, with_positions, total_position,
  average_position, or_zero, place,
}
use arc_lms.Progress.Rank.{Rearranges, IsRanked, IsPlaced, class_places, is_level, position}

abbrev pub of_student : Uuid → List Progress → List Progress
of_student s ps = select (λ p. p.student_id == s) ps

div_self : (n a : ℕ) → 1 ≤ n → n * a / n ≡ a
div_self n a h = grind arith

total_of_places :
    (s : Uuid) (a : ℕ) (f : Progress → Progress) (qs : List Progress)
    → ((p : Progress) → (f p).student_id ≡ p.student_id)
    → ((p : Progress) → (p.student_id == s) ≡ true → or_zero (f p).class_position ≡ a)
    → (total_position (of_student s (map f qs)) ≡ length (of_student s (map f qs)) * a)
      × (length (of_student s (map f qs)) ≡ length (of_student s qs))
unfolding total_position
total_of_places s a f [] g h = (omega arith, refl)
total_of_places s a f (q ∷ qs) g h =
    let rest = total_of_places s a f qs g h in
    elim (Bool-cases (q.student_id == s)) [
      | inl e ↦ let own = h q e in rw (g q, e) (omega arith, omega arith)
      | inr e ↦ rw (g q, e) rest
    ]

own_counted : (qs : List Progress) → All (λ p. 1 ≤ length (of_student p.student_id qs)) qs
own_counted [] = tt
own_counted (q ∷ qs) = (
  rw ((==_iff q.student_id q.student_id).1 refl) (omega arith),
  All-imp (λ p h. ground arith) qs (own_counted qs),
)

count-le-length {ℓ} : {A : Type ℓ} (p : A → Bool) (xs : List A) → count p xs ≤ length xs
count-le-length p [] = omega arith
count-le-length p (x ∷ xs) = ground (arith, count-le-length p xs)

module _ (float : Floats) (irreflexive : (x : float.Float) → float.greater x x ≡ false)
    (ps : List Progress) (order : List Uuid) (now : Time) where
  placed : Progress → Progress
  placed p = place float now (position_from float 1 (map (rank_of float ps) order) p.student_id) p

  place_student : (o : Option ℕ) (p : Progress) → (place float now o p).student_id ≡ p.student_id
  place_student none p = refl
  place_student (some n) p = refl

  average_of_place :
      (s : Uuid) (a : ℕ)
      → position float irreflexive ps order s ≡ some a
      → 1 ≤ length (of_student s ps)
      → average_position (of_student s (with_positions float ps order now)) ≡ a
  unfolding average_position with_positions placed
  average_of_place s a e h =
      let own = of_student s (map placed ps) in
      let lem = total_of_places s a placed ps (λ p. place_student _ p) at_place in
      let some_record : ltb 0 (length own) ≡ true = ground arith in
      rw (some_record, lem.0) (div_self (length own) a (omega arith))
    where
      at_place : (p : Progress) → (p.student_id == s) ≡ true → or_zero (placed p).class_position ≡ a
      at_place p q =
          ap (λ (o : Option ℕ). or_zero (place float now o p).class_position)
            (ap (position float irreflexive ps order) ((==_iff p.student_id s).0 q) ∙ e)

  -- What the report card of the student of a record says.
  abbrev pub IsReported : Progress → Type 0
  IsReported p =
      (a : ℕ) × (position float irreflexive ps order p.student_id ≡ some a)
      × (average_position (of_student p.student_id (with_positions float ps order now)) ≡ a)
      × (1 ≤ a)
      × (a ≤ length (students_of ps))

  reported :
      (p : Progress)
      → IsPlaced float irreflexive ps order p.student_id
      → 1 ≤ length (of_student p.student_id ps)
      → IsReported p
  reported p (a, e, low, high) h = (
    a,
    e,
    average_of_place p.student_id a e h,
    omega arith,
    omega (arith, count-le-length (is_level float irreflexive ps p.student_id) (students_of ps)),
  )

  both_hold :
      (qs : List Progress)
      → All (λ p. IsPlaced float irreflexive ps order p.student_id) qs
      → All (λ p. 1 ≤ length (of_student p.student_id ps)) qs
      → All IsReported qs
  both_hold [] h k = tt
  both_hold (q ∷ qs) h k = (reported q h.0 k.0, both_hold qs h.1 k.1)

-- Where the places of a class are stored, the students coming in any order that sorting by average
-- allows, the report card of each student whose records are all of this class has the student's place,
-- which lies between 1 and the number of students.
pub report_card_places :
    (float : Floats) (irreflexive : (x : float.Float) → float.greater x x ≡ false)
    (ps : List Progress) (order : List Uuid) (now : Time)
    → Rearranges order (students_of ps)
    → IsRanked float irreflexive ps order
    → All (IsReported float irreflexive ps order now) ps
report_card_places float irreflexive ps order now r h =
    both_hold float irreflexive ps order now ps (class_places float irreflexive ps order r h)
      (own_counted ps)
