-- ===== src/Reconcile/Window.antt =====
-- `ReconcileParams.window` of go/v1/reconcile.go: the check of the parameters and the bounds of the hour.
use fx_sdk.Time.Layout.{format_timestamp, parse_day}
use fx_sdk.Time.Zone.{Stamp, plus_window}
use fx_sdk.Errors.{Result, err, invalid_day, invalid_hour, ok}
use fx_sdk.Types.{ReconcileParams}
use fx_sdk.Common.{Option, Text, if◌then◌else◌, ltb, negsuc, none, pos, some, ℕ, ℤ, ◌*◌}
use fx_sdk.Time.Date.{Date}

abbrev pub valid_hour : ℤ → Option ℕ
valid_hour (pos h) = if ltb h 24 then some h else none
valid_hour (negsuc n) = none

abbrev pub format_stamp : Stamp → Text
format_stamp t = format_timestamp t.date t.secs

abbrev pub bounds_of : Stamp → Text × Text
bounds_of start = (format_stamp start, format_stamp (plus_window start))

abbrev window_at : Text → Option ℕ → Option Date → Result (Text × Text)
window_at day none d = err invalid_hour
window_at day (some h) none = err (invalid_day day)
window_at day (some h) (some d) = ok (bounds_of (record { date = d; secs = h * 3600 }))

-- `window`
unfoldable pub window : ReconcileParams → Result (Text × Text)
unfolding parse_day format_timestamp
window p = window_at p.day (valid_hour p.hour) (parse_day p.day)
