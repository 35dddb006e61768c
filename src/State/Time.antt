-- ===== src/State/Time.antt =====
-- The clock values of Go's `time` package that the stores use.
-- A `Time` counts nanoseconds from the zero time (1 January of year 1), so `IsZero` is a test with 0.
-- A `Duration` is a signed number of nanoseconds; `Sub` saturates at the ends of int64.
use open_zone.Base.{ℕ, ◌-◌, ◌^◌, min, Bool, true, false, eqb, leb, if◌then◌else◌}

abbrev pub Time : Type 0
Time = ℕ

-- `negsuc n` is -(n + 1).
pub data Duration : Type 0 where
  pos : ℕ → Duration
  negsuc : ℕ → Duration

abbrev pub max_duration : ℕ
max_duration = 2 ^ 63 - 1

abbrev pub is_zero : Time → Bool
is_zero t = eqb t 0

-- t.Sub(u)
abbrev pub sub : Time → Time → Duration
sub t u = if leb u t then pos (min (t - u) max_duration) else negsuc (min (u - t - 1) max_duration)

-- d <= 0
abbrev pub not_positive : Duration → Bool
not_positive (pos n) = eqb n 0
not_positive (negsuc n) = true

-- a >= b
abbrev pub at_least : Duration → Duration → Bool
at_least (pos a) (pos b) = leb b a
at_least (pos a) (negsuc b) = true
at_least (negsuc a) (pos b) = false
at_least (negsuc a) (negsuc b) = leb a b
