-- ===== src/Period/Overlap.antt =====
-- `OverlapsWith` of internal/domain/period.go against the instants that two periods share.
use arc_lms.Prelude.{◌≡◌, ◌↔◌, true, arith, if◌then◌else◌}
use arc_lms.Prelude.Int.{◌<ℤ◌, ◌≤ℤ◌, ltb_ℤ}
use arc_lms.Clock.{Time}
use arc_lms.Period.{Period, DayOfWeek, same_day, overlaps_with}

pub same_day_iff : (d e : DayOfWeek) → (same_day d e ≡ true) ↔ (d ≡ e)
same_day_iff d e = ground arith

-- A period that ends after it starts.
abbrev pub IsProper : Period → Type 0
IsProper p = p.start_time <ℤ p.end_time

-- An instant that lies in the period, its end excluded.
abbrev pub Covers : Period → Time → Type 0
Covers p t = (p.start_time ≤ℤ t) × (t <ℤ p.end_time)

-- Two periods of one weekday with an instant in both.
abbrev pub SharesInstant : Period → Period → Type 0
SharesInstant p q = (p.day_of_week ≡ q.day_of_week) × (t : Time) × Covers p t × Covers q t

-- The later of the two starts, which lies in both periods if any instant does.
abbrev later_start : Period → Period → Time
later_start p q = if ltb_ℤ p.start_time q.start_time then q.start_time else p.start_time

shares_instant :
    (p q : Period) → IsProper p → IsProper q → overlaps_with p q ≡ true → SharesInstant p q
unfolding overlaps_with
shares_instant p q hp hq h = (
  ground (arith, same_day_iff p.day_of_week q.day_of_week),
  later_start p q,
  ground arith,
  ground arith,
)

-- Of two periods that end after they start, `OverlapsWith` holds exactly if they are on the same
-- weekday and some instant lies in both.
pub overlaps_with_iff :
    (p q : Period) → IsProper p → IsProper q → (overlaps_with p q ≡ true) ↔ SharesInstant p q
unfolding overlaps_with
overlaps_with_iff p q hp hq =
    (shares_instant p q hp hq, λ h. ground (arith, same_day_iff p.day_of_week q.day_of_week))

-- `OverlapsWith` does not depend on the order of the two periods.
pub overlaps_with_comm : (p q : Period) → overlaps_with p q ≡ overlaps_with q p
unfolding overlaps_with
overlaps_with_comm p q = ground arith
