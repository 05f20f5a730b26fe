-- ===== src/Timetable/Generate/Rounds.antt =====
-- The loop over the period numbers of a day ends, in internal/service/timetable_service.go.
use arc_lms.Prelude.{
  ℕ, ◌≤◌, ◌<◌, ◌≡◌, refl, inl, inr, Bool, true, false, List, [], ◌∷◌, arith, Bool-cases,
}
use arc_lms.Period.{DayOfWeek}
use arc_lms.Timetable.Course.{Course}
use arc_lms.Timetable.Generate.{
  Context, Pass, advance_unless, offer_course, offer_courses, fill_round,
}

-- Since a round began at `n` the number has not fallen, and has risen if a course was scheduled.
abbrev Risen : ℕ → Pass → Type 0
Risen n p = (n ≤ p.period_number) × (p.scheduled ≡ true → n < p.period_number)

offer_course-Risen :
    (x : Context) (d : DayOfWeek) (c : Course) (n : ℕ) (p : Pass)
    → Risen n p
    → Risen n (offer_course x d c p).0
unfolding offer_course
offer_course-Risen x d c n p h = ground arith

offer_courses-Risen :
    (x : Context) (d : DayOfWeek) (cs : List Course) (n : ℕ) (p : Pass)
    → Risen n p
    → Risen n (offer_courses x d cs p)
unfolding offer_courses
offer_courses-Risen x d [] n p h = h
offer_courses-Risen x d (c ∷ cs) n p h =
    let h' = offer_course-Risen x d c n p h in
    elim (Bool-cases (offer_course x d c p).1) [
      | inl stop ↦ rw (stop, offer_courses) h'
      | inr next ↦
          rw (next, offer_courses) (offer_courses-Risen x d cs n (offer_course x d c p).0 h')
    ]

advance_unless-Risen :
    (b : Bool) (n : ℕ) (p : Pass)
    → p.scheduled ≡ b
    → Risen n p
    → n < (advance_unless b p).period_number
advance_unless-Risen true n p e h = h.1 e
advance_unless-Risen false n p e h = omega arith

-- Every round raises the period number.
pub fill_round_rises :
    (x : Context) (d : DayOfWeek) (cs : List Course) (p : Pass)
    → p.period_number < (fill_round x d cs p).period_number
unfolding fill_round
fill_round_rises x d cs p =
    let p' : Pass = offer_courses x d cs (record p { scheduled = false }) in
    advance_unless-Risen p'.scheduled p.period_number p' refl
      (offer_courses-Risen x d cs p.period_number (record p { scheduled = false }) (ground arith))
