-- ===== src/Core/BusinessDate.antt =====
-- app/core/business_date.py. A date is its proleptic ordinal, a wall clock counts seconds from
-- ordinal 0, and an instant counts seconds of UTC. A time zone is data from outside: the two ways
-- between instants and the wall clock of the zone.
pub mod Rollover
use akira_backend.Prelude.{
  ℕ, ◌+◌, ◌-◌, ◌*◌, ◌/◌, ◌≤◌, ◌<◌, ◌≡◌, ◌↔◌, Bool, true, false, ltb, if◌then◌else◌, Result, ok, err,
  Error, value_error, overflow_error,
}

abbrev pub day_seconds : ℕ
day_seconds = 86_400

pub record Zone : Type 0 where
  -- `ts.astimezone(tz)` on an instant, and `datetime.combine(…, tzinfo=tz)` as an instant
  pub to_wall : ℕ → ℕ
  pub to_instant : ℕ → ℕ

-- A zone whose clock never jumps, such as Asia/Kolkata: an instant lies before a reading of the wall
-- clock exactly when its own reading does, and a reading from the second day on is that of an instant.
pub record IsSteady (z : Zone) : Type 0 where
  pub lt_iff : (instant wall : ℕ) → (z.to_wall instant < wall) ↔ (instant < z.to_instant wall)
  pub wall-instant : (wall : ℕ) → day_seconds ≤ wall → z.to_wall (z.to_instant wall) ≡ wall

pub data Datetime : Type 0 where
  aware naive : ℕ → Datetime

-- `ROLLOVER_HOUR`, and as a span of seconds.
abbrev pub rollover_hour : ℕ
rollover_hour = 5

abbrev pub rollover_seconds : ℕ
rollover_seconds = 18_000

-- The date of a wall clock five hours back; there is no date before the first.
unfoldable pub trading_date : ℕ → Result ℕ
trading_date wall =
    if ltb wall rollover_seconds
    then err overflow_error
    else ok ((wall - rollover_seconds) / day_seconds)

unfoldable pub business_date : Zone → Datetime → Result ℕ
business_date z (naive t) = err value_error
business_date z (aware t) = trading_date (z.to_wall t)

unfoldable pub business_date_bounds : Zone → ℕ → ℕ × ℕ
business_date_bounds z on =
    let start = on * day_seconds + rollover_seconds in
    (z.to_instant start, z.to_instant (start + day_seconds))

-- The wall clock of `due_at`; `due_time` counts the seconds of the day.
unfoldable pub due_wall : ℕ → ℕ → ℕ
due_wall on due_time =
    let calendar_day = if ltb (due_time / 3600) rollover_hour then on + 1 else on in
    calendar_day * day_seconds + due_time

unfoldable pub due_at : Zone → ℕ → ℕ → ℕ
due_at z on due_time = z.to_instant (due_wall on due_time)
