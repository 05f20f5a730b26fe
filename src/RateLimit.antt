-- ===== src/RateLimit.antt =====
-- internal/middleware/rate_limit.go: which requests are let through. Redis is a service outside the
-- repository: its sorted sets are a parameter, with the commands that the code sends.
pub mod Burst
mod Tests
use arc_lms.Prelude.{
  ℕ, ◌*◌, ◌-◌, ◌≤◌, Bool, true, false, leb, ◌==◌, if◌then◌else◌, Option, none, some, Uuid, ◌≡◌,
}
use arc_lms.Prelude.Int.{ℤ, pos, ◌+ℤ◌, ◌-ℤ◌, ◌≤ℤ◌, leb_ℤ, wrap64}
use arc_lms.Clock.{Time}
use arc_lms.Audit.{Role}

pub record RateLimitConfig : Type 0 where
  pub tenant_rate_limit : ℕ
  pub super_admin_rate_limit : ℕ
  pub burst_multiplier : ℕ
  pub burst_window : ℕ
  pub window : ℕ

abbrev pub default_config : RateLimitConfig
default_config = record {
  tenant_rate_limit = 1000;
  super_admin_rate_limit = 2000;
  burst_multiplier = 2;
  burst_window = 30;
  window = 60;
}

-- The commands on a sorted set whose scores are instants: ZREMRANGEBYSCORE from 0 to an instant, ZCOUNT
-- from an instant to +inf, and ZADD of an instant.
pub record SortedSets : Type 1 where
  pub Entries : Type 0
  pub remove_to : Time → Entries → Entries
  pub count_from : Time → Entries → ℕ
  pub insert : Time → Entries → Entries

-- ZCOUNT counts the members whose score is in the range, so a later start counts no more.
pub record CountsByScore (redis : SortedSets) : Type 0 where
  pub antitone :
      (t u : Time) (e : redis.Entries) → t ≤ℤ u → redis.count_from u e ≤ redis.count_from t e

-- "ratelimit:user:<id>" and "ratelimit:tenant:<id>"
pub data Key : Type 0 where
  user tenant : Uuid → Key

abbrev pub is_super_admin : Role → Bool
is_super_admin Role.super_admin = true
is_super_admin _ = false

abbrev pub tenant_key : RateLimitConfig → Option Uuid → Option (Key × ℕ)
tenant_key config none = none
tenant_key config (some k) = some (Key.tenant k, config.tenant_rate_limit)

-- The key and the limit of a request, `none` where one of the values is not in its context.
abbrev pub key_and_limit :
    RateLimitConfig → Option Role → Option Uuid → Option Uuid → Option (Key × ℕ)
key_and_limit config (some role) (some user_id) tenant_id =
    if is_super_admin role
    then some (Key.user user_id, config.super_admin_rate_limit)
    else tenant_key config tenant_id
key_and_limit config _ _ tenant_id = none

-- What `checkRateLimit` finds.
pub record Verdict : Type 0 where
  pub allowed : Bool
  pub remaining : ℤ

-- The decision on the two counts and the burst limit.
abbrev pub decide : ℕ → ℕ → ℕ → ℤ → Verdict
decide count burst_count limit burst_limit =
    if leb_ℤ (pos burst_count) burst_limit
    then record { allowed = true; remaining = burst_limit -ℤ pos burst_count }
    else if leb count limit
    then record { allowed = true; remaining = pos limit -ℤ pos count }
    else record { allowed = false; remaining = pos 0 }

abbrev pub second : ℕ
second = 1000000000

-- `now.Add(-time.Duration(n) * time.Second)`
abbrev pub seconds_before : ℕ → Time → Time
seconds_before n now = now -ℤ wrap64 (n * second)

module _ (redis : SortedSets) where
  -- One run of the pipeline: old entries go, both counts are taken, and the request is entered,
  -- whatever the verdict. The expiry of the key, a minute after its window, is left out.
  unfoldable pub check_rate_limit :
      ℕ → RateLimitConfig → Time → redis.Entries → Verdict × redis.Entries
  check_rate_limit limit config now entries =
      let kept = redis.remove_to (seconds_before config.window now) entries in
      (
        decide (redis.count_from (seconds_before config.window now) kept)
            (redis.count_from (seconds_before config.burst_window now) kept) limit
            (wrap64 (limit * config.burst_multiplier)),
        redis.insert now kept,
      )

  -- Whether the request goes on: one without a key, and one for which Redis fails, always does.
  abbrev pub admits :
      RateLimitConfig → Option (Key × ℕ) → Bool → Time → (Key → redis.Entries) → Bool
  admits config none reachable now store = true
  admits config (some (k, limit)) false now store = true
  admits config (some (k, limit)) true now store =
      (check_rate_limit limit config now (store k)).0.allowed
