-- ===== src/Timetable/Generate/Quota.antt =====
-- How many periods a week a course is given by the generation of
-- internal/service/timetable_service.go.
use arc_lms.Prelude.{
  ℕ, ◌≤◌, ◌≡◌, List, [], ◌∷◌, arith, Uuid, ◌==◌, length, count, count-append, All, All-trivial,
}
use arc_lms.Clock.{Time}
use arc_lms.Period.{DayOfWeek, Period}
use arc_lms.Timetable.Course.{Course, Timetable}
use arc_lms.Timetable.Config.{Config}
use arc_lms.Timetable.Generate.{
  Context, Pass, limit_or, max_periods, new_period, schedule_course, share, sort_by_tutor, context,
  start, generate_periods,
}
use arc_lms.Timetable.Generate.Rule.{Guard, fill_days-keeps, sort_by_tutor-All}

-- How many of the periods are of a course.
abbrev pub periods_of : Uuid → List Period → ℕ
periods_of id = count (λ p. p.course_id == id)

module _ (cap : Uuid → ℕ) where
  -- The counter of a course is the number of its periods, and within its cap.
  abbrev IsCounted : Uuid → Pass → Type 0
  IsCounted id p =
      (p.course_period_count id ≡ periods_of id p.periods) × (p.course_period_count id ≤ cap id)

  schedule_course-IsCounted :
      (x : Context) (d : DayOfWeek) (c : Course) (p : Pass) (id : Uuid)
      → max_periods x c ≤ cap c.id
      → Guard x d c p
      → IsCounted id p
      → IsCounted id (schedule_course x d c p)
  schedule_course-IsCounted x d c p id q g h = ground (
    arith,
    g.below_limit,
    count-append (λ (r : Period). r.course_id == id) p.periods (new_period x d c p ∷ []),
  )

-- No course is given more periods a week than its own limit, where that is set and positive, or
-- else its share of the week: for any caps that allow each course that much, the periods of every
-- course identifier stay within its cap.
pub course_within_limit :
    (t : Timetable) (courses : List Course) (c : Config) (existing : List Period) (now : Time)
    (fresh : ℕ → Uuid) (cap : Uuid → ℕ)
    → All (λ e. limit_or (share c (length courses)) e.max_periods_per_week ≤ cap e.id) courses
    → (id : Uuid) → periods_of id (generate_periods t courses c existing now fresh) ≤ cap id
unfolding generate_periods
course_within_limit t courses c existing now fresh cap allowed id =
    let x : Context = context t c (length courses) now fresh in
    let (counted, within) =
      fill_days-keeps x (λ _. Unit) (λ e. max_periods x e ≤ cap e.id) (IsCounted cap id)
        (λ d e p _ q g. schedule_course-IsCounted cap x d e p id q g) (λ p n h. h) (λ p b h. h)
        (sort_by_tutor courses) c.instructional_days (start existing)
        (sort_by_tutor-All (λ e. max_periods x e ≤ cap e.id) courses allowed)
        (All-trivial c.instructional_days) (omega arith) in
    omega arith
