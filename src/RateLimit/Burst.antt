-- ===== src/RateLimit/Burst.antt =====
-- Which of the two limits of internal/middleware/rate_limit.go decides.
use arc_lms.Prelude.{ℕ, zero, suc, ◌*◌, ◌≤◌, ◌<◌, leb, ◌≡◌, arith}
use arc_lms.Prelude.Int.{pos, negsuc, ◌-ℤ◌, ◌≤ℤ◌, wrap64-pos}
use arc_lms.Clock.{Time}
use arc_lms.RateLimit.{
  RateLimitConfig, SortedSets, CountsByScore, decide, seconds_before, check_rate_limit,
}

sub_antitone : (now : Time) (a b : ℕ) → a ≤ b → (now -ℤ pos b) ≤ℤ (now -ℤ pos a)
unfolding ◌-ℤ◌
sub_antitone (pos n) a b h = ground arith
sub_antitone (negsuc n) a b h = ground arith

-- A shorter window starts later.
window_order :
    (now : Time) (a b : ℕ) → a ≤ b → b ≤ 9000000000 → seconds_before b now ≤ℤ seconds_before a now
window_order now a b h k =
    rw (wrap64-pos (a * 1000000000) (omega arith), wrap64-pos (b * 1000000000) (omega arith))
      (sub_antitone now (a * 1000000000) (b * 1000000000) (omega arith))

le_mul : (n k : ℕ) → 1 ≤ k → n ≤ n * k
le_mul n zero h = ground arith
le_mul n (suc k) h = omega arith

decide-allowed :
    (count burst_count limit burst_limit : ℕ)
    → burst_count ≤ count
    → limit ≤ burst_limit
    → (decide count burst_count limit (pos burst_limit)).allowed ≡ leb burst_count burst_limit
decide-allowed count burst_count limit burst_limit h k = ground arith

-- Whatever the sorted sets hold, where the burst window is no longer than the window (of at most
-- 9,000,000,000 seconds), the multiplier is at least 1 and the burst limit is below 2 ^ 63, a request is
-- let through exactly if the burst window holds at most `limit * multiplier` earlier ones: the
-- sustained limit never decides.
pub only_burst_decides :
    (redis : SortedSets) (laws : CountsByScore redis) (limit : ℕ) (config : RateLimitConfig)
    (now : Time) (entries : redis.Entries)
    → config.burst_window ≤ config.window
    → config.window ≤ 9000000000
    → 1 ≤ config.burst_multiplier
    → limit * config.burst_multiplier < 9223372036854775808
    → (check_rate_limit redis limit config now entries).0.allowed
      ≡ leb
          (redis.count_from
            (seconds_before config.burst_window now)
            (redis.remove_to (seconds_before config.window now) entries))
          (limit * config.burst_multiplier)
unfolding check_rate_limit
only_burst_decides redis laws limit config now entries h w m b =
    let kept = redis.remove_to (seconds_before config.window now) entries in
    rw (wrap64-pos (limit * config.burst_multiplier) b) (
      decide-allowed (redis.count_from (seconds_before config.window now) kept)
        (redis.count_from (seconds_before config.burst_window now) kept) limit
        (limit * config.burst_multiplier)
        (laws.antitone (seconds_before config.window now) (seconds_before config.burst_window now)
          kept (window_order now config.burst_window config.window h w))
        (le_mul limit config.burst_multiplier m))
