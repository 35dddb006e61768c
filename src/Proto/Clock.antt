-- ===== src/Proto/Clock.antt =====
-- The clock readings that internal/proto/protocol.go and internal/proto/util.go derive from a time.
use open_zone.Base.{ℕ, ◌+◌, ◌-◌, ◌*◌, ◌/◌, ◌%◌, ◌^◌, min, ltb, if◌then◌else◌}
use open_zone.State.Time.{Time, max_duration}
use Prim.Native.Nat.{bit_xor}

abbrev second : ℕ
second = 1_000_000_000

-- 1 January 2000 and 1 January 1970, UTC, as times.
abbrev base_2000 : Time
base_2000 = 63_082_281_600 * second

abbrev base_1970 : ℕ
base_1970 = 62_135_596_800

-- `SecondsSince2000UTC`; the difference saturates as `Sub` does.
unfoldable pub seconds_since_2000_utc : Time → ℕ
seconds_since_2000_utc now =
    if ltb now base_2000 then 0 else min (now - base_2000) max_duration / second

-- `UnixNano` and `Unix` as 64-bit patterns: times before 1970 are negative there.
abbrev unix_nano : Time → ℕ
unix_nano now = (now + (2 ^ 66 - base_1970 * second)) % 2 ^ 64

abbrev unix : Time → ℕ
unix now = (now / second + (2 ^ 64 - base_1970)) % 2 ^ 64

-- uint32(now.UnixNano()), uint32(now.UnixNano() >> 32), uint32(now.UnixNano() ^ now.Unix())
unfoldable pub session_id : Time → ℕ
session_id now = unix_nano now % 2 ^ 32

unfoldable pub lobby_id : Time → ℕ
lobby_id now = unix_nano now / 2 ^ 32

unfoldable pub random_value : Time → ℕ
random_value now = bit_xor (unix_nano now) (unix now) % 2 ^ 32
