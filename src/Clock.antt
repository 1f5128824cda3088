-- ===== src/Clock.antt =====
-- src/common.c: times. `expand` is `gmtime_r` and `strftime` of the C library: the text of a format
-- at a number of seconds, empty where it does not fit. Sums of times are taken to fit in 64 bits.
use dns_collector.Prelude.{ℕ, ◌+◌, ◌*◌, ◌/◌, Bool, true, none, some, List, ltb}
use dns_collector.Frame.{Time}

-- `struct timeval` and `struct timespec`
pub record Timeval : Type 0 where
  pub tv_sec : ℕ
  pub tv_usec : ℕ

pub record Timespec : Type 0 where
  pub tv_sec : ℕ
  pub tv_nsec : ℕ

-- `dns_us_time_from_timeval`
unfoldable pub time_from_timeval : Timeval → ℕ
time_from_timeval t = t.tv_usec + 1000000 * t.tv_sec

-- `dns_us_time_from_timespec`
unfoldable pub time_from_timespec : Timespec → ℕ
time_from_timespec t = t.tv_nsec / 1000 + 1000000 * t.tv_sec

-- `dns_us_time_strftime`
unfoldable pub time_strftime : (ℕ → List ℕ → ℕ → List ℕ) → ℕ → List ℕ → ℕ → List ℕ
time_strftime expand max format time = expand max format (time / 1000000)

-- `now == DNS_NO_TIME ? dns_current_us_time() : now`
unfoldable pub or_current : ℕ → Time → ℕ
or_current current none = current
or_current current (some now) = now

-- `last_rotation < t - period`, where DNS_NO_TIME is the least number
unfoldable pub rotation_due : ℕ → Time → ℕ → Bool
rotation_due period none t = true
rotation_due period (some last) t = ltb (last + period) t

-- `dns_next_rotation`, with what the clock shows; the period is not negative
unfoldable pub next_rotation : ℕ → ℕ → Time → Time → Bool
unfolding or_current rotation_due
next_rotation current period_sec last_rotation now =
    rotation_due (period_sec * 1000000) last_rotation (or_current current now)
