-- ===== src/Term.antt =====
-- internal/domain/term.go: a term of a session and the days on which it is taught.
pub mod Instruction
pub mod Tables
pub mod Service
pub mod Handlers
pub mod Statuses
pub mod History
pub mod Creation
pub mod Completion
mod Tests
mod HistoryTests
use arc_lms.Prelude.{
  ℕ, ◌+◌, ◌*◌, ◌/◌, ◌%◌, String, Bool, true, false, ◌||◌, ◌==◌, if◌then◌else◌, Option, none, some,
  List, [], ◌∷◌, Uuid,
}
use arc_lms.Prelude.Int.{ℤ, pos, negsuc}
use arc_lms.Clock.{Time, before, after, day}

pub data TermOrdinal : Type 0 where
  first second third : TermOrdinal

pub data TermStatus : Type 0 where
  draft active completed : TermStatus

pub record Holiday : Type 0 where
  pub date : Time
  pub name : String
  pub description : Option String
  pub is_public : Bool

pub record Term : Type 0 where
  pub id : Uuid
  pub tenant_id : Uuid
  pub session_id : Uuid
  pub ordinal : TermOrdinal
  pub start_date : Time
  pub end_date : Time
  pub status : TermStatus
  pub holidays : List Holiday
  pub non_instructional_days : List Time
  pub description : Option String
  pub created_at : Time
  pub updated_at : Time
  pub activated_at : Option Time
  pub completed_at : Option Time

-- The day of an instant, counted from January 1 of year 0. Two instants have one year, month and day
-- exactly if they have one number.
abbrev pub day_number : Time → ℤ
day_number (pos n) = pos (n / day)
day_number (negsuc n) = negsuc (n / day)

-- `t.Weekday()`, from 0 for Sunday; January 1 of year 0 is a Saturday.
unfoldable pub weekday : Time → ℕ
weekday (pos n) = (n / day + 6) % 7
weekday (negsuc n) = (6 * (n / day) + 5) % 7

abbrev pub same_number : ℤ → ℤ → Bool
same_number (pos m) (pos n) = m == n
same_number (negsuc m) (negsuc n) = m == n
same_number _ _ = false

-- Whether the years, the months and the days of two instants are equal.
abbrev pub same_date : Time → Time → Bool
same_date t u = same_number (day_number t) (day_number u)

abbrev pub is_weekend : Time → Bool
is_weekend date = (weekday date == 6) || (weekday date == 0)

unfoldable pub is_holiday : List Holiday → Time → Bool
is_holiday [] date = false
is_holiday (h ∷ hs) date =
    let rest = is_holiday hs date in if same_date h.date date then true else rest

unfoldable pub is_non_instructional : List Time → Time → Bool
is_non_instructional [] date = false
is_non_instructional (d ∷ ds) date =
    let rest = is_non_instructional ds date in if same_date d date then true else rest

unfoldable pub is_instructional_day : Term → Time → Bool
is_instructional_day t date =
    if before date t.start_date || after date t.end_date
    then false
    else if is_weekend date
    then false
    else if is_holiday t.holidays date
    then false
    else if is_non_instructional t.non_instructional_days date
    then false
    else true
