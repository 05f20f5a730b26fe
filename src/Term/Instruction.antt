-- ===== src/Term/Instruction.antt =====
-- `IsInstructionalDay` of internal/domain/term.go.
use arc_lms.Prelude.{◌≤◌, true, false, List, [], ◌∷◌, All, ◌≡◌, ◌≢◌, ◌↔◌, arith}
use arc_lms.Prelude.Int.{ℤ, pos, negsuc, ◌≤ℤ◌}
use arc_lms.Clock.{Time}
use arc_lms.Term.{
  Term, Holiday, day_number, weekday, same_number, is_holiday, is_non_instructional,
  is_instructional_day,
}

same_number_iff : (m n : ℤ) → (same_number m n ≡ true) ↔ (m ≡ n)
same_number_iff m n = ground arith

-- No holiday of the list is on the day of the instant.
abbrev pub IsFreeOfHolidays : List Holiday → Time → Type 0
IsFreeOfHolidays hs date = All (λ h. day_number h.date ≢ day_number date) hs

-- The day of the instant is not in the list.
abbrev pub IsUnlisted : List Time → Time → Type 0
IsUnlisted ds date = All (λ d. day_number d ≢ day_number date) ds

is_holiday_iff :
    (hs : List Holiday) (date : Time) → (is_holiday hs date ≡ false) ↔ IsFreeOfHolidays hs date
unfolding is_holiday
is_holiday_iff [] date = ground arith
is_holiday_iff (h ∷ hs) date =
    ground (arith, is_holiday_iff hs date, same_number_iff (day_number h.date) (day_number date))

is_non_instructional_iff :
    (ds : List Time) (date : Time) → (is_non_instructional ds date ≡ false) ↔ IsUnlisted ds date
unfolding is_non_instructional
is_non_instructional_iff [] date = ground arith
is_non_instructional_iff (d ∷ ds) date =
    ground
      (arith, is_non_instructional_iff ds date, same_number_iff (day_number d) (day_number date))

weekday_le : (date : Time) → weekday date ≤ 6
unfolding weekday
weekday_le (pos n) = omega arith
weekday_le (negsuc n) = omega arith

-- From Monday to Friday.
abbrev pub IsWorkday : Time → Type 0
IsWorkday date = (1 ≤ weekday date) × (weekday date ≤ 5)

-- A day counts as instructional exactly if it is not before the start nor after the end of the term,
-- is from Monday to Friday, and is on the date of no holiday and of no non-instructional day.
pub is_instructional_day_iff :
    (t : Term) (date : Time)
    → (is_instructional_day t date ≡ true) ↔ (
        (t.start_date ≤ℤ date)
        × (date ≤ℤ t.end_date)
        × IsWorkday date
        × IsFreeOfHolidays t.holidays date
        × IsUnlisted t.non_instructional_days date)
unfolding is_instructional_day
is_instructional_day_iff t date = ground (
  arith,
  weekday_le date,
  is_holiday_iff t.holidays date,
  is_non_instructional_iff t.non_instructional_days date,
)
