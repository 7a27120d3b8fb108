-- ===== src/Sessions/Window.antt =====
-- The clock test of a login, in user_session_handlers.go and admin.go: how far the signed timestamp,
-- in seconds, may be from the clock, in nanoseconds. A Duration is an int64: `Sub` saturates, and the
-- negation of the least one is itself. A Time counts its seconds from the year 1 in an int64, which wraps
-- for a timestamp from 2^63 - 62135596800 on: it is then 2^64 seconds earlier.
use nim_connect.Base.{ℕ, ◌+◌, ◌-◌, ◌*◌, ◌^◌, Bool, false, not, if◌then◌else◌, ltb, ◌==◌}
use nim_connect.Base.Int.{ℤ, pos, negsuc, sub_ℕ}

abbrev pub second : ℕ
second = 1000000000

-- now.Sub(time.Unix(timestamp, 0)), before it saturates
abbrev pub difference : ℕ → ℤ → ℤ
difference now (pos t) =
    if ltb t (2 ^ 63 - 62135596800)
    then sub_ℕ now (t * second)
    else pos (now + (2 ^ 64 - t) * second)
difference now (negsuc t) = pos (now + (t + 1) * second)

abbrev pub saturate : ℤ → ℤ
saturate (pos n) = if ltb n (2 ^ 63) then pos n else pos (2 ^ 63 - 1)
saturate (negsuc n) = if ltb n (2 ^ 63) then negsuc n else negsuc (2 ^ 63 - 1)

-- -d, on an int64
abbrev pub negate : ℤ → ℤ
negate (pos n) = sub_ℕ 0 n
negate (negsuc n) = if n == 2 ^ 63 - 1 then negsuc n else pos (n + 1)

abbrev pub absolute : ℤ → ℤ
absolute (pos n) = pos n
absolute (negsuc n) = negate (negsuc n)

abbrev pub exceeds : ℤ → ℕ → Bool
exceeds (pos n) window = ltb window n
exceeds (negsuc n) window = false

-- Not `skew > window`.
unfoldable pub is_fresh : ℕ → ℕ → ℤ → Bool
is_fresh window now timestamp =
    not (exceeds (absolute (saturate (difference now timestamp))) window)
