-- ===== src/Timetable/Generate/Slots.antt =====
-- The periods that internal/service/timetable_service.go generates for a class do not overlap.
use arc_lms.Prelude.{ℕ, ◌+◌, ◌*◌, ◌%◌, ◌≤◌, ◌<◌, ◌≡◌, ◌≢◌, List, All, Pairwise}
use arc_lms.Prelude.Int.{pos}
use arc_lms.Clock.{minute, day}
use arc_lms.Period.{DayOfWeek, Period}
use arc_lms.Timetable.Course.{Course, Timetable}
use arc_lms.Timetable.Config.{Config}
use arc_lms.Timetable.Generate.{Context, Pass, calculate_period_time, period_end_time}

-- The last period of a day ends on the day on which the first one starts.
pub record DayFits (c : Config) : Type 0 where
  pub from : ℕ
  pub starts : c.start_time ≡ pos from
  pub ends :
      from % day + (c.daily_period_limit * c.period_duration + c.break_duration) * minute < day

-- The number of a period is in range, and its times are those of its number.
pub record IsTimed (c : Config) (p : Period) : Type 0 where
  pub number_pos : 1 ≤ p.period_number
  pub number_le : p.period_number ≤ c.daily_period_limit
  pub starts : p.start_time ≡ calculate_period_time c p.period_number
  pub ends : p.end_time ≡ period_end_time c p.period_number

-- Of two periods of one day the later generated one has the higher number.
abbrev Ascends : Period → Period → Type 0
Ascends p q = p.day_of_week ≡ q.day_of_week → p.period_number < q.period_number

module _ (x : Context) (d : DayOfWeek) (rest : List DayOfWeek) (apart : All (λ e. d ≢ e) rest) where
  -- No period so far is on a day still to come, those of today have lower numbers than the next
  -- one, and each day's numbers ascend.
  abbrev IsOrdered : Pass → Type 0
  IsOrdered p =
      All (λ q. All (λ e. q.day_of_week ≢ e) rest) p.periods
      × All (λ q. q.day_of_week ≡ d → q.period_number < p.period_number) p.periods
      × Pairwise Ascends p.periods
      × All (IsTimed x.config) p.periods

-- What is known between two days.
abbrev IsSettled : Context → List DayOfWeek → Pass → Type 0
IsSettled x ds p =
    All (λ q. All (λ e. q.day_of_week ≢ e) ds) p.periods
    × Pairwise Ascends p.periods
    × All (IsTimed x.config) p.periods
