-- ===== src/Tests/Ordering.antt =====
-- Instances of the theorems on orders, on histories of calls, and on the diff of an hour.

use fx_sdk.Recover.Query.{to_trades}
use fx_sdk.Trade.Subscribe.{subscribe_trades}
use fx_sdk.Order.Statements.{minus_minute}
use fx_sdk.Reconcile.Local.{local_of}
use fx_sdk.Time.Zone.{earlier, in_time_zone}
use fx_sdk.Order.Cancel.{cancel_order}
use fx_sdk.Wire.{SubscribeOrderEventsResponse}
use fx_sdk.Trade.Stream.{Session}
use fx_sdk.Client.Repeat.{Refused, submit_order-Refused}
use fx_sdk.Order.Named.{Keeps, Named, cancel_order-Keeps}
use fx_sdk.Reconcile.Drill.{HeldLocally, HeldRemotely, diff_of, diff_of-divergent}
use fx_sdk.Order.Events.{
  EventSession, subscribe_order_events, subscribe_order_events-Ended, run_order_event_stream,
}
use fx_sdk.Retry.Reconnect.{Ended, Round}
use fx_sdk.Client.Config.{
  Client, ClientOption, DialPart, MadeOf, new_client, new_client-MadeOf, with_max_retries,
  with_retry_backoff,
}
use fx_sdk.Client.Later.{Backed, Later}
use fx_sdk.Order.Submit.{submit_order}
use fx_sdk.Time.Layout.{parse_day, format_day}
use fx_sdk.Errors.{ok, Result, eof, other_code, rpc_failed}
use fx_sdk.Time.Date.{days_in, before}
use fx_sdk.Tests.Sample.{calm, sample_world, sample_day, sample_db, sample_row, trade_message}
use fx_sdk.Store.{World, find_order}
use fx_sdk.Common.{
  Text, [], arith, codes, length, none, pos, refl, some, true, ℕ, ◌==◌, ◌↔◌, ◌≡◌, All, List, false,
  to_int8, ◌∷◌,
}
use fx_sdk.Types.{
  SubmitOrderParams, SubmitOrderResult, object, CancelOrderParams, LocalTrade, Trade, divergent,
}
use fx_sdk.Client.History.{
  History, History-Backed, History-Later, no_call, one_more, submitting, trade_streaming,
}
use fx_sdk.Order.Check.{
  Acceptable, Checked, HasScale, check_decimals, check_order, check_order-Acceptable,
}

abbrev sample_order : SubmitOrderParams
sample_order = record {
  side = pos 1;
  segment = pos 2;
  partner_id = codes "p";
  client_id = codes "d";
  client_inn = codes "i";
  currency_pair = codes "USD/TJS";
  quantity = codes "10";
  limit_rate = codes "11";
  min_trade_quantity = [];
  account = object [];
  fee = object [];
  order_type = pos 0;
  counterparty_segment = pos 0;
}

abbrev sample_checked : Checked
sample_checked = record {
  order_type = pos 1;
  limit_rate = some (codes "11");
  min_trade_quantity = none;
}

check_order-Acceptable_example :
    (check_order calm sample_order ≡ ok sample_checked)
    ↔ Acceptable calm sample_order sample_checked
check_order-Acceptable_example = check_order-Acceptable calm sample_order sample_checked

abbrev sample_result : SubmitOrderResult
sample_result = record {
  ref_id = pos 2;
  order_id = pos 9;
  order_day = codes "2026-03-01";
  status = pos 1;
  cause = [];
  filled_quantity = [];
  average_rate = [];
}

abbrev submitted_world : World ℕ ℕ
submitted_world = (submit_order calm (some sample_order) sample_world).1

submit_ok : submit_order calm (some sample_order) sample_world ≡ (ok sample_result, submitted_world)
unfolding submit_order find_order parse_day days_in check_order check_decimals before to_int8
    format_day
submit_ok = refl

exact :
    (t : Text) (read kept : ℕ)
    → HasScale calm t
    → some (length t) ≡ some read
    → some read ≡ some kept
    → (kept == read) ≡ true
exact t read kept s h k = ground arith

-- A trade of another order is stored before the order is submitted again.
abbrev sample_round : Round Session
sample_round = record {
  session = record {
    refused_by = none;
    messages = trade_message ∷ [];
    closed_by = eof;
    send = λ n. none;
  };
  done_after = false;
  done_waiting = false;
}

abbrev rounds : List (Round Session)
rounds = sample_round ∷ []

abbrev traded_world : World ℕ ℕ
traded_world = (subscribe_trades calm (λ n. 0) (pos 1) (pos 8) none rounds 0 submitted_world).2

abbrev between : History calm submitted_world traded_world
between = one_more no_call (trade_streaming (λ n. 0) (pos 1) (pos 8) none rounds submitted_world)

same_day : (in_time_zone (calm.now traded_world.tick)).date ≡ (in_time_zone (calm.now 1)).date
same_day = refl

soon : earlier (minus_minute (calm.now traded_world.tick)) (calm.now 1) ≡ true
unfolding minus_minute earlier before
soon = refl

submit_order-Refused_example : Refused calm sample_order traded_world
submit_order-Refused_example =
    submit_order-Refused calm exact sample_order sample_world submit_ok between same_day soon

abbrev both : History calm sample_world traded_world
both =
    one_more (one_more no_call (submitting (some sample_order) sample_world))
      (trade_streaming (λ n. 0) (pos 1) (pos 8) none rounds submitted_world)

History-Later_example : Later sample_db traded_world.db
History-Later_example = History-Later calm both

History-Backed_example : All (Backed calm traded_world.db) traded_world.trace
History-Backed_example = History-Backed calm both tt

abbrev sample_cancel : CancelOrderParams
sample_cancel = record {
  partner_id = codes "p";
  client_id = codes "c";
  order_id = pos 5;
  order_day = codes "2026-03-01";
}

cancel_order-Keeps_example :
    Keeps calm sample_db
      (cancel_order calm (some sample_cancel) sample_world).1.db
      sample_day
      (pos 1)
      (Named calm sample_cancel sample_world sample_day (pos 1))
cancel_order-Keeps_example = cancel_order-Keeps calm sample_cancel sample_world sample_day (pos 1)

abbrev event_message : SubscribeOrderEventsResponse
event_message = record {
  ref_id = some (pos 1);
  event_type = some (pos 4);
  event_timestamp = some (codes "2026-03-01T10:00:00Z");
  remaining_quantity = some (codes "10");
  order_day = some (codes "2026-03-01");
  partner_id = some (codes "p");
}

-- The Core ends the first stream, and refuses the second for good.
abbrev event_rounds : List (Round EventSession)
event_rounds =
    record {
      session = record { refused_by = none; messages = event_message ∷ []; closed_by = eof };
      done_after = false;
      done_waiting = false;
    }
    ∷ record {
      session = record {
        refused_by = some (rpc_failed other_code);
        messages = [];
        closed_by = eof;
      };
      done_after = false;
      done_waiting = false;
    }
    ∷ []

subscribe_order_events-Ended_example :
    Ended
      (codes "subscribe order events")
      (λ n. 0)
      (pos 1)
      (pos 8)
      (run_order_event_stream calm true)
      event_rounds
      (subscribe_order_events calm true (λ n. 0) (pos 1) (pos 8) event_rounds 0 sample_world).0
subscribe_order_events-Ended_example =
    subscribe_order_events-Ended calm true (λ n. 0) (pos 1) (pos 8) event_rounds 0 sample_world

abbrev core_trades : List Trade
core_trades = to_trades (trade_message ∷ [])

abbrev stored_trades : List LocalTrade
stored_trades = local_of calm sample_row ∷ []

diff_of-divergent_example :
    (divergent (diff_of calm (codes "2026-03-01") (pos 15) core_trades stored_trades) ≡ false) ↔ (
      All (HeldLocally calm stored_trades) core_trades
      × All (HeldRemotely calm core_trades) stored_trades)
diff_of-divergent_example =
    diff_of-divergent calm (codes "2026-03-01") (pos 15) core_trades stored_trades (tt, tt)

-- A connection is the target, and gRPC options are numbers.
abbrev dial : Text → List (DialPart ℕ) → Result Text
dial target parts = ok target

abbrev sdk_id : Text
sdk_id = codes "7f3c2a90-1111-2222-3333-444455556666"

abbrev sample_options : List (ClientOption ℕ)
sample_options = with_max_retries (pos 1) ∷ with_retry_backoff (pos 5) (pos 9) ∷ []

abbrev sample_client : Client Text ℕ
sample_client = record {
  conn = codes "core:443";
  db = 4;
  max_retries = pos 1;
  base_delay = pos 5;
  max_delay = pos 9;
}

new_client-MadeOf_example :
    (new_client dial (codes "core:443") sdk_id (codes "k") (codes "p") (some 4) sample_options
      ≡ ok sample_client)
    ↔ MadeOf dial
        (codes "core:443")
        sdk_id
        (codes "k")
        (codes "p")
        (some 4)
        sample_options
        sample_client
new_client-MadeOf_example =
    new_client-MadeOf dial (codes "core:443") sdk_id (codes "k") (codes "p") (some 4) sample_options
      sample_client
