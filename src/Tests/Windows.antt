-- ===== src/Tests/Windows.antt =====
-- Instances of the theorems on days, hours, checksums and retries.
use fx_sdk.Reconcile.LastHour.{hour_floor, window-previous_hour}
use fx_sdk.Reconcile.Window.{format_stamp, window}
use fx_sdk.Time.Layout.{parse_day}
use fx_sdk.Errors.{eof, ok}
use fx_sdk.Reconcile.Checksum.{compare_checksums, Compared, compare_checksums-Compared}
use fx_sdk.Tests.Sample.{calm}
use fx_sdk.Retry.Backoff.{backoff, backoff_bounds, capped, backoff_wraps}
use fx_sdk.Common.{
  [], arith, codes, false, pos, refl, some, true, ℕ, ◌&&◌, ◌+◌, ◌/◌, ◌<◌, ◌==◌, ◌↔◌, ◌∷◌, ◌≡◌, ◌≤◌,
  negsuc, Text,
}
use fx_sdk.Retry.Unary.{RetrySpec, Script, retry_unary, retry_unary_bounds}
use fx_sdk.Wire.{ReconciliationResponse}
use fx_sdk.Types.{LocalTrade, RecoverParams, Trade}
use fx_sdk.Time.Zone.{
  IsStamp, Stamp, in_time_zone, in_window, in_window_iff, minus_window, previous_hour,
}
use fx_sdk.Recover.Days.{DaysSpec, dates, dates-ok, days_from, max_recover_days}
use fx_sdk.Time.Date.{
  Date, IsValid, before, days_in, eq_date, next_day, next_day-least, prev_day, prev_day-next_day,
}
use fx_sdk.Reconcile.Diff.{Agree, compare_trade, compare_trade-Agree}

abbrev pub february : Date
february = record { year = 2026; month = 2; day = 28 }

abbrev march : Date
march = record { year = 2026; month = 3; day = 1 }

abbrev window_params : RecoverParams
window_params = record {
  partner_id = codes "p";
  day_from = codes "2026-02-28";
  day_to = codes "2026-03-01";
}

pub february-IsValid : IsValid february
unfolding days_in
february-IsValid = omega arith

march-IsValid : IsValid march
unfolding days_in
march-IsValid = omega arith

window_dates : dates window_params ≡ ok (february ∷ march ∷ [])
unfolding dates days_from before next_day days_in
window_dates = refl

dates-ok_example :
    (from : Date) × (to : Date) × (parse_day (codes "2026-02-28") ≡ some from)
    × (parse_day (codes "2026-03-01") ≡ some to)
    × DaysSpec max_recover_days from to (february ∷ march ∷ [])
dates-ok_example = dates-ok window_params window_dates

february_text : parse_day (codes "2026-02-28") ≡ some february
unfolding parse_day days_in
february_text = refl

-- The last hour before midnight, in UTC.
abbrev late : Stamp
late = record { date = february; secs = 68400 + 3599 }

late-IsStamp : IsStamp late
late-IsStamp = record { date_ok = february-IsValid; secs_lt = omega arith }

late_low : 1 ≤ (in_time_zone late).date.year
unfolding in_time_zone next_day days_in
late_low = omega arith

late_high : (minus_window (in_time_zone late)).date.year < 10000
unfolding minus_window in_time_zone prev_day next_day days_in
late_high = omega arith

in_window_iff_example :
    (in_window march 0 late ≡ true)
    ↔ ((eq_date (in_time_zone late).date march && (in_time_zone late).secs / 3600 == 0) ≡ true)
in_window_iff_example = in_window_iff march 0 late march-IsValid late-IsStamp (omega arith)

next_day_before : before february march ≡ true
unfolding before
next_day_before = refl

next_day-least_example : before march (next_day february) ≡ false
next_day-least_example = next_day-least february-IsValid march-IsValid next_day_before

prev_day-next_day_example : prev_day (next_day february) ≡ february
prev_day-next_day_example = prev_day-next_day february-IsValid

abbrev full_answer : ReconciliationResponse
full_answer = record {
  hash_check = some (pos 3);
  hash_v2 = some (pos 0);
  trade_count = some (pos 0);
}

compare_checksums-Compared_example :
    Compared
      (pos 3)
      (pos 0)
      (pos 0)
      full_answer
      (compare_checksums (pos 3) (pos 0) (pos 0) full_answer)
compare_checksums-Compared_example = compare_checksums-Compared (pos 3) (pos 0) (pos 0) full_answer

abbrev core_trade : Trade
core_trade = record {
  trade_id = pos 7;
  order_id = pos 5;
  ref_id = pos 1;
  order_status = pos 3;
  side = pos 1;
  order_day = codes "2026-03-01";
  trading_day = codes "2026-03-01";
  filled_quantity = codes "10";
  execution_rate = codes "11";
  executed_at = [];
  partner_id = codes "p";
  trade_type = pos 0;
}

abbrev local_trade : LocalTrade
local_trade = record {
  trade_id = pos 7;
  order_id = pos 5;
  ref_id = pos 2;
  side = pos 1;
  filled_quantity = codes "10";
  execution_rate = codes "11";
  executed_at = [];
  trade_type = pos 2;
  ack = true;
  settled = true;
  settle_attempts = 0;
  settle_error = [];
}

compare_trade-Agree_example :
    (compare_trade calm core_trade local_trade ≡ []) ↔ Agree calm core_trade local_trade
compare_trade-Agree_example = compare_trade-Agree calm core_trade local_trade

abbrev sample_script : Script
sample_script = record { invoke = λ n. some eof; cancelled = λ n. false }

retry_unary_bounds_example : RetrySpec sample_script 0 2 (retry_unary sample_script (pos 2))
retry_unary_bounds_example = retry_unary_bounds sample_script (pos 2) (omega arith)

backoff_bounds_example :
    (v : ℕ) × (backoff (λ n. 0) 5 (pos 200) (pos 3000) ≡ pos v)
    × (capped 5 200 3000 / 2 ≤ v)
    × (v ≤ capped 5 200 3000)
backoff_bounds_example = backoff_bounds (λ n. 0) 5 200 3000 (λ n h. h) (omega arith)

backoff_wraps_example :
    (v : ℕ) × (backoff (λ n. 0) 1 (pos 5000000000000000000) (pos 6000000000000000000) ≡ negsuc v)
backoff_wraps_example =
    backoff_wraps (λ n. 0) 5000000000000000000 6000000000000000000 (omega arith) (omega arith)
      (omega arith)

window-previous_hour_example :
    (from : Text) × (window (record {
      partner_id = codes "p";
      day = (previous_hour late).0;
      hour = pos (previous_hour late).1;
    })
      ≡ ok (from, format_stamp (hour_floor (in_time_zone late))))
window-previous_hour_example = window-previous_hour (codes "p") late late-IsStamp late_low late_high
