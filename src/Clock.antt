-- ===== src/Clock.antt =====
-- Instants as Go's `time.Time` and PostgreSQL's TIMESTAMPTZ hold them: nanoseconds since Go's zero
-- time, 0001-01-01 00:00 UTC, so the zero value is 0. `Add(-d)` stops at the zero time.
use subscription_reconciler.Base.{ℕ, ◌+◌, ◌-◌, ◌*◌, ◌/◌, ◌%◌, ◌^◌, Bool, ltb, if◌then◌else◌}
use subscription_reconciler.Base.Int.{ℤ, pos, negsuc, sub_ℕ}

abbrev pub Time : Type 0
Time = ℕ

abbrev pub zero_time : Time
zero_time = 0

abbrev pub minute : ℕ
minute = 60_000_000_000

abbrev pub hours_24 : ℕ
hours_24 = 86_400_000_000_000

-- The Unix epoch, 62135596800 seconds after the zero time.
abbrev pub unix_epoch : Time
unix_epoch = 62_135_596_800_000_000_000

-- `t.After(u)`
abbrev pub after : Time → Time → Bool
after t u = ltb u t

-- `time.UnixMilli(ms)`
unfoldable pub of_unix_milli : ℤ → Time
of_unix_milli (pos n) = unix_epoch + n * 1_000_000
of_unix_milli (negsuc n) = unix_epoch - (n + 1) * 1_000_000

-- `t.UnixMilli()` rounds down; the epoch is a whole number of milliseconds.
unfoldable pub unix_milli : Time → ℤ
unix_milli t = sub_ℕ (t / 1_000_000) 62_135_596_800_000

-- The int64 of these 64 bits.
abbrev pub int64_of : ℕ → ℤ
int64_of m = if ltb m (2 ^ 63) then pos m else negsuc (2 ^ 64 - 1 - m)

-- `t.UnixMicro()` rounds down to whole microseconds since the epoch, in an int64 that wraps around.
unfoldable pub unix_micro : Time → ℤ
unix_micro t = int64_of ((t / 1_000 + (2 ^ 64 - 62_135_596_800_000_000)) % 2 ^ 64)

-- What a TIMESTAMPTZ column keeps of a value: whole microseconds.
unfoldable pub timestamptz : Time → Time
timestamptz t = t / 1_000 * 1_000

-- `(t AT TIME ZONE 'UTC')::date`, as a count of days.
unfoldable pub utc_date : Time → ℕ
utc_date t = t / 86_400_000_000_000

-- `t.Unix()`
unfoldable pub unix_seconds : Time → ℤ
unix_seconds t = sub_ℕ (t / 1_000_000_000) 62_135_596_800
