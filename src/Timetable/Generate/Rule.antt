-- ===== src/Timetable/Generate/Rule.antt =====
-- The invariant rule of the loops that generate a day's periods.
use arc_lms.Prelude.{
  ℕ, zero, suc, ◌+◌, ◌≤◌, ◌<◌, ◌≡◌, inl, inr, Bool, true, false, List, [], ◌∷◌, arith, ltb, leb,
  leb→le, Bool-cases, All,
}
use arc_lms.Clock.{minute_of_day}
use arc_lms.Period.{DayOfWeek}
use arc_lms.Timetable.Course.{Course}
use arc_lms.Timetable.Generate.{
  Context, Pass, calculate_period_time, period_end_time, has_conflict, max_periods, schedule_course,
  advance_unless, offer_course, offer_courses, fill_round, fill_day, fill_days, insert_by_tutor,
  sort_by_tutor,
}

-- What holds where a period is given to a course: the number is in range, the course is below its
-- limit, and the tutor is free.
pub record Guard (x : Context) (d : DayOfWeek) (c : Course) (p : Pass) : Type 0 where
  pub number_pos : 1 ≤ p.period_number
  pub number_le : p.period_number ≤ x.config.daily_period_limit
  pub below_limit : p.course_period_count c.id < max_periods x c
  pub free :
      has_conflict
        (minute_of_day (calculate_period_time x.config p.period_number))
        (minute_of_day (period_end_time x.config p.period_number))
        (p.tutor_schedule c.assigned_tutor_id d)
      ≡ false

module _ (x : Context) (d : DayOfWeek) (Q : Course → Type 0) (P : Pass → Type 0)
    (step : (c : Course) (p : Pass) → Q c → Guard x d c p → P p → P (schedule_course x d c p))
    (skip : (p : Pass) → P p → P (record p { period_number = p.period_number + 1 }))
    (flag : (p : Pass) (b : Bool) → P p → P (record p { scheduled = b })) where
  abbrev Holds : Pass → Type 0
  Holds p = P p × (1 ≤ p.period_number)

  abbrev InRange : Pass → Type 0
  InRange p = p.period_number ≤ x.config.daily_period_limit

  offer_course-keeps :
      (c : Course) (p : Pass)
      → Q c
      → Holds p
      → InRange p
      → Holds (offer_course x d c p).0
        × ((offer_course x d c p).1 ≡ false → InRange (offer_course x d c p).0)
  unfolding offer_course
  offer_course-keeps c p q h r =
      elim (Bool-cases (leb (max_periods x c) (p.course_period_count c.id))) [
        | inl full ↦ rw full (h, λ _. r)
        | inr below ↦
            elim (Bool-cases (
              has_conflict (minute_of_day (calculate_period_time x.config p.period_number))
                (minute_of_day (period_end_time x.config p.period_number))
                (p.tutor_schedule c.assigned_tutor_id d))) [
                  | inl busy ↦ rw (below, busy) (h, λ _. r)
                  | inr free ↦
                      rw (below, free)
                        (
                          (
                            step c p q
                                (record {
                                  number_pos = h.1;
                                  number_le = r;
                                  below_limit = ground arith;
                                  free = free;
                                })
                                h.0,
                            omega arith,
                          ),
                          λ e. ground arith,
                        )
                ]
      ]

  offer_courses-keeps :
      (cs : List Course) (p : Pass)
      → All Q cs
      → Holds p
      → InRange p
      → Holds (offer_courses x d cs p)
  unfolding offer_courses
  offer_courses-keeps [] p q h r = h
  offer_courses-keeps (c ∷ cs) p q h r =
      let (h', r') = offer_course-keeps c p q.0 h r in
      elim (Bool-cases (offer_course x d c p).1) [
        | inl stop ↦ rw (stop, offer_courses) h'
        | inr next ↦
            rw (next, offer_courses)
              (offer_courses-keeps cs (offer_course x d c p).0 q.1 h' (r' next))
      ]

  advance_unless-keeps :
      (scheduled : Bool) (p : Pass) → Holds p → Holds (advance_unless scheduled p)
  advance_unless-keeps true p h = h
  advance_unless-keeps false p h = (skip p h.0, omega arith)

  fill_round-keeps :
      (cs : List Course) (p : Pass) → All Q cs → Holds p → InRange p → Holds (fill_round x d cs p)
  unfolding fill_round
  fill_round-keeps cs p q h r =
      advance_unless-keeps (offer_courses x d cs (record p { scheduled = false })).scheduled
        (offer_courses x d cs (record p { scheduled = false }))
        (offer_courses-keeps cs (record p { scheduled = false }) q (flag p false h.0, h.1) r)

  -- A property that a scheduled period, a skipped number and the flag keep is kept by a day.
  pub fill_day-keeps :
      (cs : List Course) (fuel : ℕ) (p : Pass) → All Q cs → Holds p → Holds (fill_day fuel x d cs p)
  unfolding fill_day
  fill_day-keeps cs zero p q h = h
  fill_day-keeps cs (suc fuel) p q h =
      elim (Bool-cases (leb p.period_number x.config.daily_period_limit)) [
        | inl more ↦
            rw (more, fill_day)
              (fill_day-keeps cs fuel (fill_round x d cs p) q
                (fill_round-keeps cs p q h (leb→le _ _ more)))
        | inr done ↦ rw (done, fill_day) h
      ]

module _ (x : Context) (D : DayOfWeek → Type 0) (Q : Course → Type 0) (P : Pass → Type 0)
    (step : (d : DayOfWeek) (c : Course) (p : Pass)
      → D d
      → Q c
      → Guard x d c p
      → P p
      → P (schedule_course x d c p))
    (renumber : (p : Pass) (n : ℕ) → P p → P (record p { period_number = n }))
    (flag : (p : Pass) (b : Bool) → P p → P (record p { scheduled = b })) where
  -- A property that a scheduled period keeps, and that reads neither the number nor the flag, is
  -- kept by the whole week.
  pub fill_days-keeps :
      (cs : List Course) (ds : List DayOfWeek) (p : Pass)
      → All Q cs
      → All D ds
      → P p
      → P (fill_days x cs ds p)
  unfolding fill_days
  fill_days-keeps cs [] p q k h = h
  fill_days-keeps cs (d ∷ ds) p q k h =
      fill_days-keeps cs ds
        (fill_day x.config.daily_period_limit x d cs (record p { period_number = 1 })) q k.1
        (fill_day-keeps x d Q P (λ c r. step d c r k.0) (λ r. renumber r (r.period_number + 1)) flag
          cs x.config.daily_period_limit (record p { period_number = 1 }) q
          (renumber p 1 h, omega arith)).0

-- Sorting keeps what holds of every course.
insert_by_tutor-All :
    (Q : Course → Type 0) (c : Course) (cs : List Course)
    → Q c
    → All Q cs
    → All Q (insert_by_tutor c cs)
unfolding insert_by_tutor
insert_by_tutor-All Q c [] q h = (q, tt)
insert_by_tutor-All Q c (e ∷ es) q h =
    elim (Bool-cases (ltb e.assigned_tutor_id c.assigned_tutor_id)) [
      | inl later ↦ rw (later, insert_by_tutor) (h.0, insert_by_tutor-All Q c es q h.1)
      | inr here ↦ rw (here, insert_by_tutor) (q, h)
    ]

pub sort_by_tutor-All :
    (Q : Course → Type 0) (cs : List Course) → All Q cs → All Q (sort_by_tutor cs)
unfolding sort_by_tutor
sort_by_tutor-All Q [] h = tt
sort_by_tutor-All Q (c ∷ cs) h =
    insert_by_tutor-All Q c (sort_by_tutor cs) h.0 (sort_by_tutor-All Q cs h.1)
