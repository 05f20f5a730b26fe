-- ===== src/Timetable/Generate.antt =====
-- `generatePeriods` and `calculatePeriodTime` of internal/service/timetable_service.go. A Go map is
-- a function with the zero value where no key is set. `fresh k` is the k-th identifier that
-- `uuid.New` hands out, and `now` the instant that `time.Now` gives.
pub mod Rule
pub mod Tutors
pub mod Quota
pub mod Rounds
pub mod Slots
use arc_lms.Prelude.{
  ℕ, zero, suc, ◌+◌, ◌-◌, ◌*◌, ◌/◌, ◌≡◌, Bool, true, false, ◌&&◌, Option, none, some, List, [], ◌∷◌,
  ◌++◌, Uuid, ltb, leb, ◌==◌, if◌then◌else◌, length,
}
use arc_lms.Prelude.Int.{ℤ, pos, negsuc, wrap64}
use arc_lms.Clock.{Time, minutes, add, minute_of_day}
use arc_lms.Period.{DayOfWeek, Period, same_day}
use arc_lms.Timetable.Course.{Course, Timetable}
use arc_lms.Timetable.Config.{Config}

-- A range of minutes of a day, its start and its end.
abbrev pub Slot : Type 0
Slot = ℕ × ℕ

abbrev pub Schedule : Type 0
Schedule = Uuid → DayOfWeek → List Slot

-- What stays fixed while the periods are generated.
pub record Context : Type 0 where
  pub timetable : Timetable
  pub config : Config
  pub periods_per_course : ℕ
  pub now : Time
  pub fresh : ℕ → Uuid

-- The variables of the loops.
pub record Pass : Type 0 where
  pub periods : List Period
  pub course_period_count : Uuid → ℕ
  pub tutor_schedule : Schedule
  pub period_number : ℕ
  pub scheduled : Bool

-- The `offset` of `calculatePeriodTime`, in minutes.
unfoldable pub offset : Config → ℕ → ℕ
offset c n =
    let whole = (n - 1) * c.period_duration in
    if ltb c.break_after_period n then whole + c.break_duration else whole

unfoldable pub calculate_period_time : Config → ℕ → Time
calculate_period_time c n = add c.start_time (minutes (offset c n))

unfoldable pub period_end_time : Config → ℕ → Time
period_end_time c n = add (calculate_period_time c n) (minutes c.period_duration)

-- `Hour()*60 + Minute()` of both ends.
abbrev pub slot_of : Period → Slot
slot_of p = (minute_of_day p.start_time, minute_of_day p.end_time)

-- Appends a slot to one tutor's day.
abbrev pub book : Uuid → DayOfWeek → Slot → Schedule → Schedule
book tutor d slot s t e = if (t == tutor) && same_day e d then s t e ++ slot ∷ [] else s t e

-- The existing periods of the tutors, loaded before the loops.
unfoldable pub load_schedule : List Period → Schedule → Schedule
load_schedule [] s = s
load_schedule (p ∷ ps) s = load_schedule ps (book p.tutor_id p.day_of_week (slot_of p) s)

-- The loop over a tutor's slots of the day: some slot overlaps the range.
unfoldable pub has_conflict : ℕ → ℕ → List Slot → Bool
has_conflict start_minutes end_minutes [] = false
has_conflict start_minutes end_minutes ((a, b) ∷ slots) =
    if ltb start_minutes b && ltb a end_minutes
    then true
    else has_conflict start_minutes end_minutes slots

-- The `maxPeriods` of a course: its own limit where that is set and positive.
abbrev pub limit_or : ℕ → Option ℤ → ℕ
limit_or per_course (some (pos (suc n))) = suc n
limit_or per_course _ = per_course

abbrev pub max_periods : Context → Course → ℕ
max_periods x c = limit_or x.periods_per_course c.max_periods_per_week

-- The period that a course is given.
abbrev pub new_period : Context → DayOfWeek → Course → Pass → Period
new_period x d c p = record {
  id = x.fresh (length p.periods);
  tenant_id = x.timetable.tenant_id;
  timetable_id = x.timetable.id;
  course_id = c.id;
  tutor_id = c.assigned_tutor_id;
  class_id = x.timetable.class_id;
  day_of_week = d;
  start_time = calculate_period_time x.config p.period_number;
  end_time = period_end_time x.config p.period_number;
  period_number = p.period_number;
  notes = none;
  created_at = x.now;
  updated_at = x.now;
}

-- `coursePeriodCount[id]++`
abbrev pub increment : Uuid → (Uuid → ℕ) → Uuid → ℕ
increment id counts c = if c == id then counts c + 1 else counts c

abbrev pub schedule_course : Context → DayOfWeek → Course → Pass → Pass
schedule_course x d c p =
    let period = new_period x d c p in
    record {
      periods = p.periods ++ period ∷ [];
      course_period_count = increment c.id p.course_period_count;
      tutor_schedule = book c.assigned_tutor_id d (slot_of period) p.tutor_schedule;
      period_number = p.period_number + 1;
      scheduled = true;
    }

-- The body of the loop over the courses, and whether it ends by `break`.
unfoldable pub offer_course : Context → DayOfWeek → Course → Pass → Pass × Bool
offer_course x d c p =
    if leb (max_periods x c) (p.course_period_count c.id)
    then (p, false)
    else if has_conflict (minute_of_day (calculate_period_time x.config p.period_number))
        (minute_of_day (period_end_time x.config p.period_number))
        (p.tutor_schedule c.assigned_tutor_id d)
    then (p, false)
    else (schedule_course x d c p, ltb x.config.daily_period_limit (p.period_number + 1))

unfoldable pub offer_courses : Context → DayOfWeek → List Course → Pass → Pass
offer_courses x d [] p = p
offer_courses x d (c ∷ cs) p =
    let (p', stop) = offer_course x d c p in
    elim stop [ true ↦ p' | false ↦ offer_courses x d cs p' ]

-- Where no course was scheduled, the number moves on.
abbrev pub advance_unless : Bool → Pass → Pass
advance_unless true p = p
advance_unless false p = record p { period_number = p.period_number + 1 }

-- One round of the loop over the period numbers of a day.
unfoldable pub fill_round : Context → DayOfWeek → List Course → Pass → Pass
fill_round x d cs p =
    let p' = offer_courses x d cs (record p { scheduled = false }) in advance_unless p'.scheduled p'

-- The loop `for periodNumber <= config.DailyPeriodLimit`, on fuel.
unfoldable pub fill_day : ℕ → Context → DayOfWeek → List Course → Pass → Pass
fill_day zero x d cs p = p
fill_day (suc fuel) x d cs p = elim (leb p.period_number x.config.daily_period_limit) [
  | true ↦ fill_day fuel x d cs (fill_round x d cs p)
  | false ↦ p
]

-- The loop over the days. Each round of a day raises the number, so `daily_period_limit` rounds do.
unfoldable pub fill_days : Context → List Course → List DayOfWeek → Pass → Pass
fill_days x cs [] p = p
fill_days x cs (d ∷ ds) p =
    fill_days x cs ds (fill_day x.config.daily_period_limit x d cs (record p { period_number = 1 }))

-- The periods of the week divided among the courses, at least one each. The number of courses is
-- positive: `GenerateTimetable` refuses an empty list.
abbrev pub at_least_one : ℤ → ℕ → ℕ
at_least_one (pos total) n = let q = total / n in if ltb q 1 then 1 else q
at_least_one (negsuc _) n = 1

unfoldable pub share : Config → ℕ → ℕ
share c n = at_least_one (wrap64 (c.daily_period_limit * length c.instructional_days)) n

-- Insertion into a list that is sorted by the tutors' identifiers.
unfoldable pub insert_by_tutor : Course → List Course → List Course
insert_by_tutor c [] = c ∷ []
insert_by_tutor c (e ∷ es) =
    let rest = insert_by_tutor c es in
    if ltb e.assigned_tutor_id c.assigned_tutor_id then e ∷ rest else c ∷ e ∷ es

-- The `sort.Slice` of the courses. Its order of courses of one tutor is not specified.
unfoldable pub sort_by_tutor : List Course → List Course
unfolding insert_by_tutor
sort_by_tutor [] = []
sort_by_tutor (c ∷ cs) = insert_by_tutor c (sort_by_tutor cs)

abbrev pub context : Timetable → Config → ℕ → Time → (ℕ → Uuid) → Context
context t c n now fresh = record {
  timetable = t;
  config = c;
  periods_per_course = share c n;
  now = now;
  fresh = fresh;
}

abbrev pub start : List Period → Pass
start existing = record {
  periods = [];
  course_period_count = λ _. 0;
  tutor_schedule = load_schedule existing (λ _ _. []);
  period_number = 1;
  scheduled = false;
}

-- `generatePeriods`: `existing` is what `ListAllActivePeriodsByTutors` returns, and empty where that
-- fails.
unfoldable pub generate_periods :
    Timetable → List Course → Config → List Period → Time → (ℕ → Uuid) → List Period
generate_periods t courses c existing now fresh =
    (fill_days (context t c (length courses) now fresh) (sort_by_tutor courses) c.instructional_days
      (start existing)).periods
