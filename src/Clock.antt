-- ===== src/Clock.antt =====
-- Go's `time.Time` and `time.Duration` as the program uses them, in UTC: an instant is its distance
-- in nanoseconds from midnight of January 1 of year 0, on which `time.Parse("15:04", …)` puts a
-- time of day. A duration is an `int64` of nanoseconds.
use arc_lms.Prelude.{ℕ, ◌+◌, ◌-◌, ◌*◌, ◌/◌, ◌%◌, ◌<◌, ◌≡◌, Bool, arith}
use arc_lms.Prelude.Int.{ℤ, pos, negsuc, ◌+ℤ◌, ltb_ℤ, wrap64, wrap64-pos}

abbrev pub Time : Type 0
Time = ℤ

-- `t.Before(u)`
abbrev pub before : Time → Time → Bool
before t u = ltb_ℤ t u

-- `t.After(u)`
abbrev pub after : Time → Time → Bool
after t u = ltb_ℤ u t

abbrev pub minute : ℕ
minute = 60000000000

abbrev pub day : ℕ
day = 86400000000000

-- `time.Duration(n) * time.Minute`, with the wrap of `int64`
unfoldable pub minutes : ℕ → ℤ
minutes n = wrap64 (n * minute)

-- `t.Add(d)`
abbrev pub add : Time → ℤ → Time
add t d = t +ℤ d

-- `t.Hour()*60 + t.Minute()`
unfoldable pub minute_of_day : Time → ℕ
minute_of_day (pos n) = n % day / minute
minute_of_day (negsuc n) = (day - 1 - n % day) / minute

-- Fewer minutes than a day hold are not wrapped.
pub minutes-pos : (n : ℕ) → n < 1440 → minutes n ≡ pos (n * 60000000000)
unfolding minutes
minutes-pos n h = wrap64-pos (n * 60000000000) (omega arith)

-- Whole minutes after an instant, within its day, are counted by the minute of the day.
pub minute_of_day-add :
    (s k : ℕ)
    → s % 86400000000000 + k * 60000000000 < 86400000000000
    → minute_of_day (pos (s + k * 60000000000)) ≡ s % 86400000000000 / 60000000000 + k
unfolding minute_of_day
minute_of_day-add s k h = omega arith
