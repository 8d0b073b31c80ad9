-- ===== src/Time/Zone.antt =====
-- go/v1/timezone.go: instants, the fixed zone UTC+05:00, the current day and the last completed hour;
-- and the SQL fragment `AT TIME ZONE INTERVAL '+05:00'`, which reads an instant in that zone.
use fx_sdk.Common.{
  ℕ, ◌+◌, ◌-◌, ◌*◌, ◌/◌, ◌<◌, ◌≡◌, ◌↔◌, Bool, true, ◌&&◌, ◌||◌, not, arith, ltb, leb, ◌==◌,
  if◌then◌else◌, Text,
}
use fx_sdk.Time.Date.{
  Date, IsValid, next_day, prev_day, before, eq_date, next_day-IsValid, prev_day-IsValid,
  before-next_day, before_irrefl, next_day-least, before-total, before-asym, eq_date-eq,
}
use fx_sdk.Time.Layout.{format_day}

-- A point in time, as a date and the seconds since its midnight: of an instant in UTC, of a wall
-- clock in the zone at hand. Fractions of a second are left out.
pub record Stamp : Type 0 where
  pub date : Date
  pub secs : ℕ

pub record IsStamp (t : Stamp) : Type 0 where
  pub date_ok : IsValid t.date
  pub secs_lt : t.secs < 86400

-- `tzOffsetHours`
abbrev pub tz_offset_hours : ℕ
tz_offset_hours = 5

-- `reconcileWindow`, one hour, in seconds
abbrev pub reconcile_window : ℕ
reconcile_window = 3600

-- `t.In(TimeZone)`: the wall clock of a UTC instant. `atTZ` is the same reading on the SQL side.
unfoldable pub in_time_zone : Stamp → Stamp
in_time_zone t =
    let s = t.secs + tz_offset_hours * 3600 in
    if ltb s 86400
    then record { date = t.date; secs = s }
    else record { date = next_day t.date; secs = s - 86400 }

-- `t.Add(-reconcileWindow)` on a wall clock.
unfoldable pub minus_window : Stamp → Stamp
minus_window t =
    if leb reconcile_window t.secs
    then record { date = t.date; secs = t.secs - reconcile_window }
    else record { date = prev_day t.date; secs = t.secs + 86400 - reconcile_window }

-- `today(now)`
unfoldable pub today : Stamp → Text
unfolding in_time_zone
today now = format_day (in_time_zone now).date

-- `previousHour(now)`
unfoldable pub previous_hour : Stamp → Text × ℕ
unfolding in_time_zone minus_window
previous_hour now = let t = minus_window (in_time_zone now) in (format_day t.date, t.secs / 3600)

-- `a < b` on wall clocks, as PostgreSQL compares timestamps.
unfoldable pub earlier : Stamp → Stamp → Bool
earlier a b = before a.date b.date || (eq_date a.date b.date && ltb a.secs b.secs)

-- `day::date + make_interval(hours => h)`, for the hours 0 to 24 that the queries use.
unfoldable pub hour_start : Date → ℕ → Stamp
hour_start day h =
    if ltb h 24
    then record { date = day; secs = h * 3600 }
    else record { date = next_day day; secs = (h - 24) * 3600 }

-- The filter of the reconciliation queries: `executed_at` lies in [day hour, day hour + 1) of the zone.
unfoldable pub in_window : Date → ℕ → Stamp → Bool
unfolding earlier hour_start in_time_zone
in_window day hour executed_at =
    let t = in_time_zone executed_at in
    not (earlier t (hour_start day hour)) && earlier t (hour_start day (hour + 1))

pub in_time_zone-IsStamp : {t : Stamp} → IsStamp t → IsStamp (in_time_zone t)
unfolding in_time_zone
in_time_zone-IsStamp {t} h = ground (arith, next_day-IsValid h.date_ok)

pub minus_window-IsStamp : {t : Stamp} → IsStamp t → IsStamp (minus_window t)
unfolding minus_window
minus_window-IsStamp {t} h = ground (arith, prev_day-IsValid h.date_ok)

-- The end of the hour that begins at `t`, on a wall clock.
abbrev pub plus_window : Stamp → Stamp
plus_window t =
    if ltb (t.secs + reconcile_window) 86400
    then record { date = t.date; secs = t.secs + reconcile_window }
    else record { date = next_day t.date; secs = t.secs + reconcile_window - 86400 }

-- Among valid wall clocks, the hour of a day holds exactly the instants with that date and hour.
earlier-hour :
    (day : Date) (h : ℕ) (t : Stamp)
    → IsValid day
    → IsStamp t
    → h < 24
    → ((not (earlier t (hour_start day h)) && earlier t (hour_start day (h + 1))) ≡ true)
      ↔ ((eq_date t.date day && t.secs / 3600 == h) ≡ true)
unfolding earlier hour_start
earlier-hour day h t v w lt = ground (
  arith,
  before_irrefl day,
  before-total t.date day,
  before-asym day t.date,
  before-next_day day,
  next_day-least v w.date_ok,
  eq_date-eq t.date day,
  eq_date-eq t.date (next_day day),
)

-- A row is in the window of a day and hour exactly if its execution time, read in the zone, has that
-- date and that hour.
pub in_window_iff :
    (day : Date) (h : ℕ) (t : Stamp)
    → IsValid day
    → IsStamp t
    → h < 24
    → (in_window day h t ≡ true)
      ↔ ((eq_date (in_time_zone t).date day && (in_time_zone t).secs / 3600 == h) ≡ true)
unfolding in_window
in_window_iff day h t v w lt = earlier-hour day h (in_time_zone t) v (in_time_zone-IsStamp w) lt
