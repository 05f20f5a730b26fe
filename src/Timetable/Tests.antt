-- ===== src/Timetable/Tests.antt =====
-- A small school week through the generation of internal/service/timetable_service.go.
use arc_lms.Prelude.{
  ℕ, ◌+◌, ◌≤◌, ◌≡◌, refl, ◌↔◌, true, none, some, List, [], ◌∷◌, map, arith, Uuid, ◌==◌,
  if◌then◌else◌, All, Pairwise,
}
use arc_lms.Prelude.Int.{pos, ◌+ℤ◌, wrap64}
use arc_lms.Clock.{minutes, minute_of_day}
use arc_lms.Period.{DayOfWeek, Period, overlaps_with}
use arc_lms.Period.Overlap.{SharesInstant, overlaps_with_iff, overlaps_with_comm}
use arc_lms.Timetable.Course.{Course, CourseStatus, Timetable, TimetableStatus}
use arc_lms.Timetable.Config.{Config}
use arc_lms.Timetable.Generate.{
  share, load_schedule, has_conflict, offset, calculate_period_time, period_end_time, offer_course,
  offer_courses, fill_round, fill_day, fill_days, sort_by_tutor, generate_periods,
}
use arc_lms.Timetable.Generate.Tutors.{TutorApart, tutor_never_double_booked}
use arc_lms.Timetable.Generate.Quota.{periods_of, course_within_limit}

abbrev ids : ℕ → Uuid
ids k = k + 100

abbrev timetable : Timetable
timetable = record {
  id = 1;
  tenant_id = 2;
  class_id = 3;
  term_id = 4;
  status = TimetableStatus.draft;
  generated_at = pos 0;
  generated_by = 5;
  published_at = none;
  published_by = none;
  generation_version = 1;
  notes = none;
  created_at = pos 0;
  updated_at = pos 0;
  archived_at = none;
}

abbrev course : Uuid → Uuid → Course
course id tutor = record {
  id = id;
  tenant_id = 2;
  session_id = 6;
  class_id = 3;
  term_id = 4;
  name = "Mathematics";
  subject_code = "MTH";
  description = none;
  assigned_tutor_id = tutor;
  status = CourseStatus.active;
  max_periods_per_week = none;
  created_at = pos 0;
  updated_at = pos 0;
}

abbrev courses : List Course
courses = course 11 22 ∷ record (course 12 21) { max_periods_per_week = some (pos 1) } ∷ []

abbrev config : Config
config = record {
  period_duration = 40;
  daily_period_limit = 3;
  max_periods_per_week = [];
  start_time = pos 28800000000000;
  break_after_period = 1;
  break_duration = 30;
  instructional_days = DayOfWeek.monday ∷ DayOfWeek.tuesday ∷ [];
}

-- Tutor 22 already teaches elsewhere on Monday from 09:10 to 09:50.
abbrev elsewhere : Period
elsewhere = record {
  id = 50;
  tenant_id = 2;
  timetable_id = 51;
  course_id = 52;
  tutor_id = 22;
  class_id = 53;
  day_of_week = DayOfWeek.monday;
  start_time = pos 33000000000000;
  end_time = pos 35400000000000;
  period_number = 2;
  notes = none;
  created_at = pos 0;
  updated_at = pos 0;
}

abbrev generated : List Period
generated = generate_periods timetable courses config (elsewhere ∷ []) (pos 0) ids

abbrev summary : Period → ℕ × ℕ × ℕ
summary p = (p.course_id, p.period_number, minute_of_day p.start_time)

-- Course 12 has its one period, course 11 is not taught while its tutor is elsewhere, and has three.
summary-generated :
    map summary generated ≡ (12, 1, 480) ∷ (11, 3, 590) ∷ (11, 1, 480) ∷ (11, 2, 550) ∷ []
unfolding generate_periods fill_days fill_day fill_round offer_courses offer_course has_conflict
    sort_by_tutor load_schedule share calculate_period_time period_end_time offset minutes
    minute_of_day wrap64 ◌+ℤ◌
summary-generated = refl

tutor_never_double_booked_example :
    All (λ p. All (TutorApart p) (elsewhere ∷ [])) generated × Pairwise TutorApart generated
tutor_never_double_booked_example =
    tutor_never_double_booked timetable courses config (elsewhere ∷ []) (pos 0) ids

abbrev caps : Uuid → ℕ
caps id = if id == 12 then 1 else 3

course_within_limit_example : periods_of 11 generated ≤ 3
unfolding share wrap64
course_within_limit_example =
    course_within_limit timetable courses config (elsewhere ∷ []) (pos 0) ids caps (omega arith) 11

overlaps_with_comm_example :
    overlaps_with elsewhere (record elsewhere { tutor_id = 9 })
    ≡ overlaps_with (record elsewhere { tutor_id = 9 }) elsewhere
overlaps_with_comm_example = overlaps_with_comm elsewhere (record elsewhere { tutor_id = 9 })

overlaps_with_iff_example :
    (overlaps_with elsewhere elsewhere ≡ true) ↔ SharesInstant elsewhere elsewhere
overlaps_with_iff_example = overlaps_with_iff elsewhere elsewhere (omega arith) (omega arith)
