-- ===== src/Clock.antt =====
-- The part of Go's package time that the relay uses. A time is an instant, in nanoseconds from the
-- zero time, with the offset of its location, in nanoseconds east of UTC modulo a day: locations
-- have a fixed offset, with no daylight saving time.
use code_agent_router.Prelude.{ℕ, ◌+◌, ◌-◌, ◌*◌, ◌/◌, ◌%◌, ◌≤◌, ◌≡◌, refl, Bool, ltb, ◌==◌, arith}

pub record Time : Type 0 where
  pub instant : ℕ
  pub offset : ℕ

abbrev pub second : ℕ
second = 1_000_000_000

abbrev pub minute : ℕ
minute = 60_000_000_000

abbrev pub hour : ℕ
hour = 3_600_000_000_000

abbrev pub day : ℕ
day = 86_400_000_000_000

-- The zero `time.Time`.
abbrev pub zero_time : Time
zero_time = record { instant = 0; offset = 0 }

abbrev pub is_zero : Time → Bool
is_zero t = t.instant == 0

-- `t.Equal(u)` compares instants.
abbrev pub same_instant : Time → Time → Bool
same_instant t u = t.instant == u.instant

-- `t.Before(u)`
abbrev pub before : Time → Time → Bool
before t u = ltb t.instant u.instant

-- `t.Add(d)`
abbrev pub add : Time → ℕ → Time
add t d = record t { instant = t.instant + d }

-- `t.In(loc)`
abbrev pub in_location : Time → ℕ → Time
in_location t loc = record t { offset = loc }

-- `t.Hour()`
unfoldable pub hour_of : Time → ℕ
hour_of t = (t.instant + t.offset) / hour % 24

-- `hourStart` and `dayStart` of internal/store/state.go.
unfoldable pub hour_start : Time → Time
hour_start t = record t { instant = t.instant - (t.instant + t.offset) % hour }

unfoldable pub day_start : Time → Time
day_start t = record t { instant = t.instant - (t.instant + t.offset) % day }

-- The window that holds a time begins no later than it.
pub hour_start-le : (t : Time) → (hour_start t).instant ≤ t.instant
unfolding hour_start
hour_start-le t = omega arith

-- 10:30 in UTC+8 is hour 10, and its hour begins half an hour before.
hour_test : hour_of (record { instant = 2 * hour + 30 * minute; offset = 8 * hour }) ≡ 10
unfolding hour_of
hour_test = refl
