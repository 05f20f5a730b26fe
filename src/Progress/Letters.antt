-- ===== src/Progress/Letters.antt =====
-- The letter of a grade, in internal/domain/progress.go.
use arc_lms.Prelude.{ℕ, ◌<◌, true, ◌≡◌, ◌↔◌, ◌⊎◌, arith}
use arc_lms.Clock.{Time}
use arc_lms.Progress.{Letter, Progress, letter_of, grade_of, compute_grade}

letter_f_iff : (n : ℕ) → (letter_of n ≡ Letter.f) ↔ (n < 40)
letter_f_iff n = ground arith

-- After its grade is computed, a record is flagged exactly if it was flagged before or the letter is F:
-- a better grade does not remove a flag.
pub flagged_iff :
    (p : Progress) (w v : ℕ) (now : Time)
    → ((compute_grade w v now p).is_flagged ≡ true)
      ↔ ((p.is_flagged ≡ true) ⊎ ((grade_of w v p).letter_grade ≡ Letter.f))
unfolding compute_grade
flagged_iff p w v now = ground (arith, letter_f_iff (grade_of w v p).total)
