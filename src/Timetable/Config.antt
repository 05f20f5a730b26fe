-- ===== src/Timetable/Config.antt =====
-- `TimetableConfig`, its defaults, and the request's and the tenant's settings that override them
-- (internal/service/timetable_service.go).
use arc_lms.Prelude.{ℕ, List, [], ◌∷◌, String}
use arc_lms.Prelude.Int.{ℤ, pos}
use arc_lms.Clock.{Time}
use arc_lms.Period.{DayOfWeek, monday, tuesday, wednesday, thursday, friday}

pub record Config : Type 0 where
  pub period_duration : ℕ
  pub daily_period_limit : ℕ
  pub max_periods_per_week : List (String × ℤ)
  pub start_time : Time
  pub break_after_period : ℕ
  pub break_duration : ℕ
  pub instructional_days : List DayOfWeek

-- `DefaultTimetableConfig`: eight periods of 40 minutes from 08:00, a break of 30 minutes after the
-- fourth, Monday to Friday.
unfoldable pub default_config : Config
default_config = record {
  period_duration = 40;
  daily_period_limit = 8;
  max_periods_per_week = [];
  start_time = pos 28800000000000;
  break_after_period = 4;
  break_duration = 30;
  instructional_days = monday ∷ tuesday ∷ wednesday ∷ thursday ∷ friday ∷ [];
}
