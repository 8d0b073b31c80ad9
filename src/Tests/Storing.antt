-- ===== src/Tests/Storing.antt =====
-- Instances of the theorems on storing and settling trades.
use fx_sdk.Trade.Tally.{Tally, pull_all-Tally}
use fx_sdk.Trade.Subscribe.{subscribe_trades, subscribe_trades-Ended, subscribe_trades-acks}
use fx_sdk.Trade.Stream.{Session, run_trade_stream}
use fx_sdk.Retry.Reconnect.{Ended, Round}
use fx_sdk.Time.Date.{days_in}
use fx_sdk.Trade.Once.{persist_trade-idempotent, persist_trade-stored}
use fx_sdk.Time.Layout.{parse_day}
use fx_sdk.Errors.{eof, ok, other_code, rpc_failed}
use fx_sdk.Tests.Sample.{
  calm, sample_db, sample_key, sample_row, sample_world, stored_world, trade_message,
}
use fx_sdk.Wire.{TradeResponse}
use fx_sdk.Store.{TradeKey, TradeRow, find_order, find_trade}
use fx_sdk.Types.{RecoverParams, TradeEvent}
use fx_sdk.Trade.Persist.{Persisted, event_of, persist_trade}
use fx_sdk.Trade.Delivery.{
  PersistCases, ReportsStored, persist_trade-cases, persist_trade-redelivery, response_key,
}
use fx_sdk.Common.{List, [], codes, false, none, pos, refl, some, true, ℕ, ◌∷◌, ◌≡◌}
use fx_sdk.Trade.Settle.{Handler}
use fx_sdk.Trade.Pull.{pull_all, zero_counts, CountsWithin}
use fx_sdk.Trade.Progress.{AcksStored}

abbrev sample_event : TradeEvent ℕ
sample_event = record (event_of calm trade_message) {
  client_id = codes "c";
  side = pos 1;
  currency_pair = codes "USD/TJS";
  settlement = 4;
  fee = 2;
}

abbrev sample_persisted : Persisted calm
sample_persisted = record { event = sample_event; inserted = true; settled = false }

persist_ok : (persist_trade calm trade_message sample_world).0 ≡ ok sample_persisted
unfolding persist_trade find_order parse_day days_in find_trade
persist_ok = refl

persist_rows : (persist_trade calm trade_message sample_world).1.db.trades ≡ sample_row ∷ []
unfolding persist_trade find_order parse_day days_in find_trade
persist_rows = refl

persist_trade-idempotent_example :
    ((persist_trade calm trade_message (persist_trade calm trade_message sample_world).1).1.db
      ≡ (persist_trade calm trade_message sample_world).1.db)
    × ReportsStored calm false
        (persist_trade calm trade_message (persist_trade calm trade_message sample_world).1).0
persist_trade-idempotent_example =
    persist_trade-idempotent calm trade_message sample_world persist_ok

persist_trade-stored_example :
    (k : TradeKey) × (row : TradeRow ℕ) × (response_key calm trade_message ≡ some k)
    × (find_trade k (persist_trade calm trade_message sample_world).1.db.trades ≡ some row)
    × (row.settled ≡ false)
persist_trade-stored_example = persist_trade-stored calm trade_message sample_world persist_ok

found : find_trade sample_key stored_world.db.trades ≡ some sample_row
unfolding find_trade
found = refl

key_eq : response_key calm trade_message ≡ some sample_key
unfolding parse_day days_in
key_eq = refl

persist_trade-redelivery_example :
    ((persist_trade calm trade_message stored_world).1.db ≡ stored_world.db)
    × ReportsStored calm false (persist_trade calm trade_message stored_world).0
persist_trade-redelivery_example =
    persist_trade-redelivery calm trade_message stored_world key_eq found

persist_trade-cases_example :
    PersistCases calm trade_message sample_db (persist_trade calm trade_message sample_world)
persist_trade-cases_example = persist_trade-cases calm trade_message sample_world

-- A handler that fails.
abbrev failing : Handler ℕ
failing n e = some (codes "no")

abbrev two_messages : List TradeResponse
two_messages = trade_message ∷ trade_message ∷ []

abbrev sample_round : Round Session
sample_round = record {
  session = record {
    refused_by = none;
    messages = two_messages;
    closed_by = eof;
    send = λ n. none;
  };
  done_after = false;
  done_waiting = false;
}

abbrev two_rounds : List (Round Session)
two_rounds = sample_round ∷ sample_round ∷ []

subscribe_trades-acks_example :
    AcksStored calm
      (subscribe_trades calm (λ n. 0) (pos 1) (pos 8) (some failing) two_rounds 0 sample_world).2
subscribe_trades-acks_example =
    subscribe_trades-acks calm (λ n. 0) (pos 1) (pos 8) (some failing) two_rounds 0 sample_world tt

-- The last stream ends with an error that is not transient.
abbrev ended_rounds : List (Round Session)
ended_rounds =
    sample_round
    ∷ record sample_round {
      session = record sample_round.session { closed_by = rpc_failed other_code };
    }
    ∷ []

subscribe_trades-Ended_example :
    Ended
      (codes "subscribe trades")
      (λ n. 0)
      (pos 1)
      (pos 8)
      (run_trade_stream calm (some failing))
      ended_rounds
      (subscribe_trades calm (λ n. 0) (pos 1) (pos 8) (some failing) ended_rounds 0 sample_world).0
subscribe_trades-Ended_example =
    subscribe_trades-Ended calm (λ n. 0) (pos 1) (pos 8) (some failing) ended_rounds 0 sample_world

-- The same trade twice, which the handler refuses both times.
pull_all-Tally_example :
    Tally calm failing zero_counts sample_world
      (pull_all calm (some failing) two_messages zero_counts sample_world)
    × CountsWithin calm 2 zero_counts
        (pull_all calm (some failing) two_messages zero_counts sample_world).0
pull_all-Tally_example = pull_all-Tally calm failing two_messages zero_counts sample_world

abbrev sample_recover : RecoverParams
sample_recover = record {
  partner_id = codes "p";
  day_from = codes "2026-02-28";
  day_to = codes "2026-03-01";
}
