-- ===== src/Reconcile/LastHour.antt =====
-- `PreviousHour` of go/v1/timezone.go with `window` of go/v1/reconcile.go: the slot that a ticker reconciles.

use fx_sdk.Errors.{ok}
use fx_sdk.Time.Date.{next_day-prev_day}
use fx_sdk.Reconcile.Window.{format_stamp, window}
use fx_sdk.Time.Layout.{format_day, parse_day-format_day}
use fx_sdk.Common.{Text, ap, arith, ltb, pos, refl, true, ◌*◌, ◌/◌, ◌<◌, ◌∙◌, ◌≡◌, ◌≤◌}
use fx_sdk.Time.Zone.{
  IsStamp, Stamp, in_time_zone, in_time_zone-IsStamp, minus_window, minus_window-IsStamp,
  plus_window, previous_hour,
}

-- The start of the hour that a wall clock shows.
abbrev pub hour_floor : Stamp → Stamp
hour_floor t = record { date = t.date; secs = t.secs / 3600 * 3600 }

minus_window-hour :
    {t : Stamp}
    → IsStamp t
    → 1 ≤ t.date.year
    → plus_window (hour_floor (minus_window t)) ≡ hour_floor t
unfolding minus_window
minus_window-hour {t} v y = ground (arith, next_day-prev_day v.date_ok)

window_at-previous :
    (partner : Text) (s : Stamp)
    → IsStamp s
    → s.date.year < 10000
    → window (record { partner_id = partner; day = format_day s.date; hour = pos (s.secs / 3600) })
      ≡ ok (format_stamp (hour_floor s), format_stamp (plus_window (hour_floor s)))
unfolding window
window_at-previous partner s v y =
    let hour_lt : ltb (s.secs / 3600) 24 ≡ true = ground (arith, v.secs_lt) in
    rw (parse_day-format_day v.date_ok y) (rw hour_lt refl)

-- The slot of `PreviousHour` has a window, which ends at the start of the hour that the wall clock of the
-- zone shows: the hour is over, and no hour lies between. The clock reads a year from 1 to 9999 on both ends.
pub window-previous_hour :
    (partner : Text) (now : Stamp)
    → IsStamp now
    → 1 ≤ (in_time_zone now).date.year
    → (minus_window (in_time_zone now)).date.year < 10000
    → (from : Text) × (window (record {
      partner_id = partner;
      day = (previous_hour now).0;
      hour = pos (previous_hour now).1;
    })
        ≡ ok (from, format_stamp (hour_floor (in_time_zone now))))
unfolding previous_hour
window-previous_hour partner now v low high =
    let t = in_time_zone now in
    let u : IsStamp t = in_time_zone-IsStamp v in
    (
      format_stamp (hour_floor (minus_window t)),
      window_at-previous partner (minus_window t) (minus_window-IsStamp u) high
          ∙ ap (λ (e : Stamp). ok (format_stamp (hour_floor (minus_window t)), format_stamp e))
              (minus_window-hour u low),
    )
