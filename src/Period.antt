-- ===== src/Period.antt =====
-- internal/domain/period.go: a period of a timetable, and when two of them overlap.
pub mod Overlap
use arc_lms.Prelude.{
  ℕ, String, ◌≡◌, Bool, Option, ◌&&◌, ◌||◌, ◌==◌, Uuid, arith, if◌then◌else◌, false,
}
use arc_lms.Clock.{Time, before, after}

pub data DayOfWeek : Type 0 where
  monday tuesday wednesday thursday friday saturday : DayOfWeek

-- The order of the days in the week, by which two of them are compared.
abbrev pub index : DayOfWeek → ℕ
index DayOfWeek.monday = 1
index DayOfWeek.tuesday = 2
index DayOfWeek.wednesday = 3
index DayOfWeek.thursday = 4
index DayOfWeek.friday = 5
index DayOfWeek.saturday = 6

abbrev pub same_day : DayOfWeek → DayOfWeek → Bool
same_day d e = index d == index e

pub record Period : Type 0 where
  pub id : Uuid
  pub tenant_id : Uuid
  pub timetable_id : Uuid
  pub course_id : Uuid
  pub tutor_id : Uuid
  pub class_id : Uuid
  pub day_of_week : DayOfWeek
  pub start_time : Time
  pub end_time : Time
  pub period_number : ℕ
  pub notes : Option String
  pub created_at : Time
  pub updated_at : Time

unfoldable pub overlaps_with : Period → Period → Bool
overlaps_with p other =
    if same_day p.day_of_week other.day_of_week
    then (before p.start_time other.end_time && after p.end_time other.start_time)
      || (before other.start_time p.end_time && after other.end_time p.start_time)
    else false
