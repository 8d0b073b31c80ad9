-- ===== src/Tests/Settled.antt =====
-- Instances of the theorems on trades that are settled already.

use fx_sdk.Trade.Subscribe.{subscribe_trades}
use fx_sdk.Trade.Pull.{pull_all, zero_counts}
use fx_sdk.Errors.{eof}
use fx_sdk.Tests.Sample.{calm, sample_db, sample_key, sample_row, trade_message}
use fx_sdk.Common.{[], codes, false, none, pos, refl, some, true, ℕ, ◌∷◌}
use fx_sdk.Store.{TradeRow, World, find_trade}
use fx_sdk.Trade.Spared.{Settled, Spared, pull_all-Spared, subscribe_trades-Spared}
use fx_sdk.Trade.Stream.{Session}
use fx_sdk.Retry.Reconnect.{Round}
use fx_sdk.Trade.Settle.{Handler}

abbrev settled_row : TradeRow ℕ
settled_row = record sample_row { settled = true }

abbrev settled_world : World ℕ ℕ
settled_world = record { db = record sample_db { trades = settled_row ∷ [] }; tick = 0; trace = [] }

sample-Settled : Settled sample_key settled_world.db.trades
unfolding find_trade
sample-Settled = record { row = settled_row; found = refl; is_settled = refl }

-- A handler that fails.
abbrev refusing : Handler ℕ
refusing n e = some (codes "no")

abbrev settled_round : Round Session
settled_round = record {
  session = record {
    refused_by = none;
    messages = trade_message ∷ trade_message ∷ [];
    closed_by = eof;
    send = λ n. none;
  };
  done_after = false;
  done_waiting = false;
}

subscribe_trades-Spared_example :
    Spared calm sample_key []
      (subscribe_trades calm
        (λ n. 0)
        (pos 1)
        (pos 8)
        (some refusing)
        (settled_round ∷ settled_round ∷ [])
        0
        settled_world).2
subscribe_trades-Spared_example =
    subscribe_trades-Spared calm (λ n. 0) (pos 1) (pos 8) (some refusing)
      (settled_round ∷ settled_round ∷ []) 0 settled_world sample_key sample-Settled

pull_all-Spared_example :
    Spared calm sample_key []
      (pull_all calm
        (some refusing)
        (trade_message ∷ trade_message ∷ [])
        zero_counts
        settled_world).1
pull_all-Spared_example =
    pull_all-Spared calm (some refusing) (trade_message ∷ trade_message ∷ []) zero_counts
      settled_world sample_key sample-Settled
