-- ===== src/RateLimit/Tests.antt =====
-- Requests in one second, through internal/middleware/rate_limit.go.
use arc_lms.Prelude.{ℕ, ◌≤◌, suc, true, false, if◌then◌else◌, List, [], ◌∷◌, ◌≡◌, refl, arith}
use arc_lms.Prelude.Int.{pos, ◌≤ℤ◌, ◌-ℤ◌, leb_ℤ, wrap64}
use arc_lms.Clock.{Time}
use arc_lms.RateLimit.{RateLimitConfig, SortedSets, CountsByScore, check_rate_limit}
use arc_lms.RateLimit.Burst.{only_burst_decides}

unfoldable count : Time → List Time → ℕ
count t [] = 0
count t (x ∷ xs) = let rest = count t xs in if leb_ℤ t x then suc rest else rest

unfoldable remove : Time → List Time → List Time
remove t [] = []
remove t (x ∷ xs) = let rest = remove t xs in if leb_ℤ x t then rest else x ∷ rest

abbrev lists : SortedSets
lists = record {
  Entries = List Time;
  remove_to = remove;
  count_from = count;
  insert = λ t. λ xs. t ∷ xs;
}

count_antitone : (t u : Time) (xs : List Time) → t ≤ℤ u → count u xs ≤ count t xs
unfolding count
count_antitone t u [] h = ground arith
count_antitone t u (x ∷ xs) h = let ih = count_antitone t u xs h in ground arith

lists-CountsByScore : CountsByScore lists
lists-CountsByScore = record { antitone = count_antitone }

abbrev small : RateLimitConfig
small = record {
  tenant_rate_limit = 1;
  super_admin_rate_limit = 1;
  burst_multiplier = 2;
  burst_window = 30;
  window = 60;
}

-- Three requests within twenty seconds, and one half a minute before them.
abbrev earlier : List Time
earlier = pos 100000000000 ∷ pos 95000000000 ∷ pos 90000000000 ∷ pos 55000000000 ∷ []

only_burst_decides_example :
    (check_rate_limit lists 1 small (pos 101000000000) earlier).0.allowed ≡ false
unfolding count remove wrap64 ◌-ℤ◌
only_burst_decides_example =
    only_burst_decides lists lists-CountsByScore 1 small (pos 101000000000) earlier (omega arith)
      (omega arith) (omega arith) (omega arith)

-- Two more within the window than the sustained limit, and let through.
above_sustained_limit :
    (check_rate_limit lists 1 small
      (pos 101000000000)
      (pos 100000000000 ∷ pos 60000000000 ∷ pos 55000000000 ∷ [])).0
    ≡ record { allowed = true; remaining = pos 1 }
unfolding check_rate_limit count remove wrap64 ◌-ℤ◌
above_sustained_limit = refl
