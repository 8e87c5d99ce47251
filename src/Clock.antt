-- ===== src/Clock.antt =====
-- lib.c: the time that passed since a reading of the clock.
use project_2_congest.Base.{ℕ, ◌+◌, ◌*◌}
use project_2_congest.Base.Int.{ℤ, div_ℤ, sub_ℕ}

-- `struct timeval`.
pub record Timeval : Type 0 where
  pub tv_sec : ℕ
  pub tv_usec : ℕ

abbrev pub micros : Timeval → ℕ
micros t = t.tv_sec * 1000000 + t.tv_usec

-- Milliseconds from `before` to `now`, truncated toward 0. The source computes in `double`; here
-- the same difference is exact.
unfoldable pub get_time_diff : Timeval → Timeval → ℤ
get_time_diff before now = div_ℤ (sub_ℕ (micros now) (micros before)) 1000
