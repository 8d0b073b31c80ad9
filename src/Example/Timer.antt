-- ===== src/Example/Timer.antt =====
-- When the example program (go/example/main.go) reconciles again: five minutes into the next hour.

use fx_sdk.Time.Date.{next_day, next_day-IsValid, prev_day-next_day}
use fx_sdk.Time.Layout.{format_day}
use fx_sdk.Common.{arith, if◌then◌else◌, ltb, refl, ◌%◌, ◌+◌, ◌-◌, ◌/◌, ◌≡◌}
use fx_sdk.Time.Zone.{
  IsStamp, Stamp, in_time_zone, in_time_zone-IsStamp, minus_window, previous_hour,
}

-- `now.In(TimeZone).Truncate(time.Hour).Add(time.Hour + 5*time.Minute)` on a wall clock of the zone,
-- whose hours are whole ones of UTC.
unfoldable pub next_run : Stamp → Stamp
next_run t =
    let s = t.secs - t.secs % 3600 + 3900 in
    if ltb s 86400
    then record { date = t.date; secs = s }
    else record { date = next_day t.date; secs = s - 86400 }

pub next_run-IsStamp : {t : Stamp} → IsStamp t → IsStamp (next_run t)
unfolding next_run
next_run-IsStamp {t} v = ground (arith, next_day-IsValid v.date_ok)

minus_window_hour :
    {s t : Stamp}
    → IsStamp s
    → IsStamp t
    → t.date ≡ (next_run s).date
    → t.secs / 3600 ≡ (next_run s).secs / 3600
    → ((minus_window t).date ≡ s.date) × ((minus_window t).secs / 3600 ≡ s.secs / 3600)
unfolding next_run minus_window
minus_window_hour {s} {t} v u d h = ground (arith, prev_day-next_day v.date_ok)

-- The hour that a run reconciles is the one in which its timer was set, over midnight too, if the timer
-- fires within the hour that it is set for.
pub next_run-previous_hour :
    (set fired : Stamp)
    → IsStamp set
    → IsStamp fired
    → (in_time_zone fired).date ≡ (next_run (in_time_zone set)).date
    → (in_time_zone fired).secs / 3600 ≡ (next_run (in_time_zone set)).secs / 3600
    → previous_hour fired ≡ (format_day (in_time_zone set).date, (in_time_zone set).secs / 3600)
unfolding previous_hour
next_run-previous_hour set fired v u d h =
    let (day, hour) = minus_window_hour (in_time_zone-IsStamp v) (in_time_zone-IsStamp u) d h in
    rw day (rw hour refl)
