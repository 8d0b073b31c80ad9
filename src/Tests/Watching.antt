-- ===== src/Tests/Watching.antt =====
-- Instances of the theorems on repairs, retries and the example program.

use fx_sdk.Example.Start.{Parts}
use fx_sdk.Example.Session.{Flags, default_flags}
use fx_sdk.Client.Config.{Client}
use fx_sdk.Store.{find_order, find_trade, update_trade}
use fx_sdk.Example.Watched.{start_watch-is_recorded}
use fx_sdk.Errors.{ok}
use fx_sdk.Example.Timer.{next_run, next_run-previous_hour}
use fx_sdk.Example.Watch.{start_watch}
use fx_sdk.Time.Layout.{format_day, parse_day}
use fx_sdk.Trade.Unsettled.{find_ref, retry_unsettled, stored_event}
use fx_sdk.Tests.Windows.{february, february-IsValid}
use fx_sdk.Tests.Sample.{
  calm, parent_row, sample_day, sample_db, sample_hour, sample_key, sample_row, sample_world,
}
use fx_sdk.Money.{cal}
use fx_sdk.Store.{TradeRow, World, find_trade}
use fx_sdk.Example.Tls.{TlsConfig, TlsFiles, TlsOf, load_tls_config, load_tls_config-TlsOf, loaded}
use fx_sdk.Reconcile.Repair.{Repaired, reconcile_repair}
use fx_sdk.Reconcile.Recorded.{Recorded, is_recorded}
use fx_sdk.Reconcile.Repaired.{reconcile_repair-Recorded}
use fx_sdk.Types.{ReconcileResult, RepairResult, TradeEvent, resolved}
use fx_sdk.Trade.Retried.{Ready, SettledAt, retry_unsettled-SettledAt}
use fx_sdk.Trade.Statements.{ParentOrder, scan_map}
use fx_sdk.Common.{
  Option, Text, [], ap, arith, codes, eq_text, eq_ℤ, false, if◌then◌else◌, inr, length, none, pos,
  refl, some, true, ℕ, ◌/◌, ◌<◌, ◌↔◌, ◌∷◌, ◌≡◌,
}
use fx_sdk.Time.Date.{IsValid, before, days_in, next_day}
use fx_sdk.Time.Zone.{IsStamp, Stamp, in_time_zone, minus_window, previous_hour, today}
use fx_sdk.Trade.Settle.{Handler}
use fx_sdk.Reconcile.Answered.{Answers}

calm-Answers : Answers calm
calm-Answers = record { done_always = λ n. refl; answered = λ n req. (_, refl) }

-- An hour that differs before its repair, and is the same after it.
abbrev repaired : Repaired calm
repaired = reconcile_repair calm none (some sample_hour) sample_world

abbrev result_or : Option RepairResult → RepairResult
result_or (some r) = r
result_or none = record {
  day = [];
  hour = pos 0;
  before = none;
  after = none;
  core_trades = 0;
  recovered = 0;
  settled = 0;
  settle_failed = 0;
  failed = 0;
}

repaired_has : repaired.1 ≡ some (result_or repaired.1)
unfolding reconcile_repair parse_day days_in find_order find_trade
repaired_has = refl

repaired_resolved : resolved (result_or repaired.1) ≡ true
unfolding reconcile_repair parse_day days_in resolved find_order find_trade update_trade before
repaired_resolved = refl

reconcile_repair-Recorded_example :
    (r : ReconcileResult) × Recorded calm sample_hour r repaired.2.db × (r.matched ≡ true)
reconcile_repair-Recorded_example =
    reconcile_repair-Recorded calm none sample_hour sample_world
      (ap (λ (o : Option RepairResult). (repaired.0, o, repaired.2)) repaired_has) repaired_resolved

-- Half past eleven in the evening of the zone, and five minutes past midnight.
abbrev evening : Stamp
evening = record { date = february; secs = 66600 }

abbrev past_midnight : Stamp
past_midnight = record { date = february; secs = 68700 }

evening-IsStamp : IsStamp evening
evening-IsStamp = record { date_ok = february-IsValid; secs_lt = omega arith }

past_midnight-IsStamp : IsStamp past_midnight
past_midnight-IsStamp = record { date_ok = february-IsValid; secs_lt = omega arith }

same_date : (in_time_zone past_midnight).date ≡ (next_run (in_time_zone evening)).date
unfolding in_time_zone next_run next_day days_in
same_date = refl

same_hour : (in_time_zone past_midnight).secs / 3600 ≡ (next_run (in_time_zone evening)).secs / 3600
unfolding in_time_zone next_run next_day days_in
same_hour = refl

next_run-previous_hour_example :
    previous_hour past_midnight
    ≡ (format_day (in_time_zone evening).date, (in_time_zone evening).secs / 3600)
next_run-previous_hour_example =
    next_run-previous_hour evening past_midnight evening-IsStamp past_midnight-IsStamp same_date
      same_hour

abbrev sample_files : TlsFiles ℕ Text
sample_files = record {
  load_key_pair = λ c k. some (length c);
  read_file = λ f. some f;
  pool_of_pem = λ t. some t;
}

abbrev sample_tls : TlsConfig ℕ Text
sample_tls = record { min_version = 771; certificates = 10 ∷ []; root_cas = some (codes "ca.pem") }

load_tls_config-TlsOf_example :
    (load_tls_config sample_files (codes "test-c.crt") (codes "test-c.key") (codes "ca.pem")
      ≡ loaded sample_tls)
    ↔ TlsOf sample_files (codes "test-c.crt") (codes "test-c.key") (codes "ca.pem") sample_tls
load_tls_config-TlsOf_example =
    load_tls_config-TlsOf sample_files (codes "test-c.crt") (codes "test-c.key") (codes "ca.pem")
      sample_tls

-- Half past three in the afternoon of the zone on the first of March.
abbrev first_stamp : Stamp
first_stamp = record { date = sample_day; secs = 36000 }

sample-IsValid : IsValid sample_day
unfolding days_in
sample-IsValid = omega arith

first_stamp-IsStamp : IsStamp first_stamp
first_stamp-IsStamp = record { date_ok = sample-IsValid; secs_lt = omega arith }

first_year : (minus_window (in_time_zone first_stamp)).date.year < 10000
unfolding minus_window in_time_zone
first_year = omega arith

first_read :
    parse_day (previous_hour first_stamp).0 ≡ some (minus_window (in_time_zone first_stamp)).date
unfolding previous_hour minus_window in_time_zone parse_day days_in format_day
first_read = refl

first_today : eq_text (previous_hour first_stamp).0 (today first_stamp) ≡ true
unfolding previous_hour today minus_window in_time_zone format_day
first_today = refl

first_low : 3 < (previous_hour first_stamp).1
unfolding previous_hour minus_window in_time_zone
first_low = omega arith

start_watch-is_recorded_example :
    is_recorded
      (minus_window (in_time_zone first_stamp)).date
      (pos 3)
      (start_watch calm (λ n. false) (codes "p") first_stamp first_stamp sample_world).1.db.recons
    ≡ true
start_watch-is_recorded_example =
    start_watch-is_recorded calm calm-Answers (λ n. false) (codes "p") first_stamp first_stamp
      sample_world 3 refl (λ n. refl) first_stamp-IsStamp first_year first_read
      (inr (first_today, first_low))

-- A handler that refuses the trade with the id 8 alone.
abbrev picky : Handler ℕ
picky n e = if eq_ℤ e.trade_id (pos 8) then some (codes "no") else none

abbrev other_row : TradeRow ℕ
other_row = record sample_row { key = record sample_key { trade_id = pos 8 } }

abbrev two_trades : World ℕ ℕ
two_trades = record {
  db = record sample_db { trades = other_row ∷ sample_row ∷ [] };
  tick = 0;
  trace = [];
}

sample_found : find_trade sample_key two_trades.db.trades ≡ some sample_row
unfolding find_trade
sample_found = refl

abbrev sample_parent : ParentOrder
sample_parent = record {
  client_id = codes "c";
  side = pos 1;
  currency_pair = codes "USD/TJS";
  account = [];
  fee = [];
}

abbrev sample_event : TradeEvent ℕ
sample_event = record (stored_event calm sample_row sample_parent) { settlement = 0; fee = 0 }

sample-Ready : Ready calm picky two_trades.db.orders sample_row
unfolding find_ref cal scan_map parse_day days_in format_day
sample-Ready = record {
  order = parent_row;
  found = refl;
  parent = sample_parent;
  read = refl;
  event = sample_event;
  computed = refl;
  accepts = λ n. refl;
  day_read = refl;
}

retry_unsettled-SettledAt_example :
    ((retry_unsettled calm (some picky) two_trades).0 ≡ ok tt)
    × SettledAt calm sample_key (retry_unsettled calm (some picky) two_trades).1.db.trades
retry_unsettled-SettledAt_example =
    retry_unsettled-SettledAt calm picky two_trades sample_key sample_row (λ n. refl) sample_found
      sample-Ready

-- The options of the transport are numbers, and a connection and a pool are texts.
abbrev sample_parts : Parts ℕ Text ℕ Text Text
sample_parts = record {
  files = sample_files;
  plaintext_option = 0;
  tls_option = λ cfg. cfg.min_version;
  open_pool = λ t. some t;
  dial = λ target parts. ok target;
}

abbrev sample_flags : Flags
sample_flags = record default_flags {
  target = codes "core:443";
  sdk_id = codes "7f3c2a90-1111-2222-3333-444455556666";
  api_key = codes "k";
  dsn = codes "db";
}

abbrev sample_client : Client Text Text
sample_client = record {
  db = codes "db";
  conn = codes "core:443";
  max_retries = pos 3;
  base_delay = pos 100000000;
  max_delay = pos 5000000000;
}
