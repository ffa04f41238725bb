-- ===== src/Core/BusinessDate/Rollover.antt =====
-- The trading day of app/core/business_date.py is one day long and covers what is due on it.
use akira_backend.Prelude.{ℕ, ◌+◌, ◌*◌, ◌≤◌, ◌<◌, ◌≡◌, ◌↔◌, arith, ok}
use akira_backend.Core.BusinessDate.{
  Zone, IsSteady, aware, day_seconds, rollover_seconds, trading_date, business_date,
  business_date_bounds, due_wall, due_at,
}

trading_date_iff :
    (wall on : ℕ)
    → (trading_date wall ≡ ok on) ↔ (
        (on * day_seconds + rollover_seconds ≤ wall)
        × (wall < on * day_seconds + rollover_seconds + day_seconds))
unfolding trading_date
trading_date_iff wall on = (ground arith, ground arith)

due_wall_within :
    (on due_time : ℕ)
    → due_time < day_seconds
    → (on * day_seconds + rollover_seconds ≤ due_wall on due_time)
      × (due_wall on due_time < on * day_seconds + rollover_seconds + day_seconds)
unfolding due_wall
due_wall_within on due_time h = ground arith

module _ (z : Zone) (steady : IsSteady z) where
  -- An instant belongs to a trading day exactly when it lies in the day's half-open bounds.
  pub business_date_iff :
      (t on : ℕ)
      → (business_date z (aware t) ≡ ok on)
        ↔ (((business_date_bounds z on).0 ≤ t) × (t < (business_date_bounds z on).1))
  unfolding business_date business_date_bounds
  business_date_iff t on =
      let start = on * day_seconds + rollover_seconds in
      let days = trading_date_iff (z.to_wall t) on in
      let lower = steady.lt_iff t start in
      let upper = steady.lt_iff t (start + day_seconds) in
      (ground (arith, days.0, lower.1, upper.0), ground (arith, days.1, lower.0, upper.1))

  -- Whatever its time of day, what is due on a trading day falls on that trading day.
  pub business_date-due_at :
      (on due_time : ℕ)
      → 1 ≤ on
      → due_time < day_seconds
      → business_date z (aware (due_at z on due_time)) ≡ ok on
  unfolding business_date due_at
  business_date-due_at on due_time later h =
      let within = due_wall_within on due_time h in
      rw (steady.wall-instant (due_wall on due_time) (omega arith))
        ((trading_date_iff (due_wall on due_time) on).1 within)
