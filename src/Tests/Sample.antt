-- ===== src/Tests/Sample.antt =====
-- A concrete platform and concrete messages.
use fx_sdk.Time.Layout.{parse_day}
use fx_sdk.Types.{object, ReconcileParams}
use fx_sdk.Errors.{ok}
use fx_sdk.Common.{[], codes, length, none, pos, some, ℕ, ◌+◌, ◌==◌, ◌∷◌, false, true}
use fx_sdk.Wire.{TradeResponse}
use fx_sdk.Time.Zone.{Stamp}
use fx_sdk.Platform.{Outcome, Platform, done}
use fx_sdk.Store.{Db, OrderRow, World, TradeKey, TradeRow, ReconRow}
use fx_sdk.Time.Date.{Date}

abbrev pub sample_day : Date
sample_day = record { year = 2026; month = 3; day = 1 }

abbrev pub stamp : Stamp
stamp = record { date = sample_day; secs = 36000 }

abbrev pub trade_message : TradeResponse
trade_message = record {
  id = some (pos 7);
  ref_id = some (pos 1);
  order_id = some (pos 5);
  order_status = some (pos 3);
  side = some (pos 1);
  order_day = some (codes "2026-03-01");
  trading_day = some (codes "2026-03-01");
  filled_quantity = some (codes "10");
  execution_rate = some (codes "11");
  executed_at = some (codes "2026-03-01T10:00:00Z");
  partner_id = some (codes "p");
  trade_type = some (pos 1);
}

-- Decimals are numbers, and the value of a text is its number of bytes.
abbrev pub sample_platform : (ℕ → Outcome) → Platform
sample_platform outcome = record {
  Decimal = ℕ;
  parse_decimal = λ t. some (length t);
  mul = λ a b. a;
  add = λ a b. a + b;
  sub = λ a b. a;
  div = λ a b. some a;
  round_bank = λ n a. a;
  trunc = λ n a. a;
  equal = λ a b. a == b;
  from_int = λ n. n;
  Numeric = ℕ;
  numeric_in = λ t. some (length t);
  numeric_out = λ n. [];
  to_scale = λ n. some n;
  numeric_sub = λ a b. a;
  greatest_zero = λ a. a;
  numeric_eq = λ a b. a == b;
  numeric_of = λ d. some d;
  date_in = λ t. parse_day t;
  int_out = λ i. [];
  hash_int8 = λ i. i;
  hash_text = λ t. pos (length t);
  bit_xor = λ a b. a;
  parse_rfc3339 = λ t. some stamp;
  now = λ n. stamp;
  host_now = λ n. stamp;
  outcome = outcome;
  submit_order = λ n r. ok (record {
    status = some (pos 1);
    cause = none;
    filled_quantity = none;
    average_rate = none;
    order_id = some (pos 9);
  });
  cancel_order = λ n r. ok (record {
    ref_id = some (pos 1);
    order_status = some (pos 4);
    success = some true;
    remaining_quantity = some (codes "10");
    cause = none;
  });
  get_trades = λ n r. ok (trade_message ∷ []);
  filter_client_orders = λ n r. ok [];
  order_book_depth = λ n r. ok (record { bids = []; asks = [] });
  currency_pairs = λ n. ok [];
  reconciliation = λ n r.
      ok (record { hash_check = some (pos 3); hash_v2 = some (pos 4); trade_count = some (pos 1) });
}

-- The platform on which every call succeeds.
abbrev pub calm : Platform
calm = sample_platform (λ n. done)

abbrev pub parent_row : OrderRow ℕ
parent_row = record {
  submitted_at = stamp;
  order_day = sample_day;
  ref_id = pos 1;
  order_id = some (pos 5);
  side = pos 1;
  segment = pos 1;
  status = pos 1;
  order_type = pos 1;
  counterparty_segment = pos 1;
  quantity = 10;
  limit_rate = some 11;
  remaining_quantity = 10;
  min_trade_quantity = none;
  currency_pair = codes "USD/TJS";
  partner_id = codes "p";
  client_id = codes "c";
  client_inn = codes "i";
  cause = none;
  account = object [];
  fee = object [];
}

abbrev pub sample_db : Db ℕ
sample_db = record { orders = parent_row ∷ []; trades = []; recons = []; next_ref = pos 2 }

abbrev pub sample_world : World ℕ ℕ
sample_world = record { db = sample_db; tick = 0; trace = [] }

abbrev pub sample_key : TradeKey
sample_key = record { trade_id = pos 7; order_id = pos 5; trading_day = sample_day }

-- The row of that trade.
abbrev pub sample_row : TradeRow ℕ
sample_row = record {
  key = sample_key;
  executed_at = stamp;
  ref_id = pos 1;
  side = pos 1;
  trade_type = pos 1;
  settle_attempts = 0;
  filled_quantity = 2;
  execution_rate = 2;
  settlement = 4;
  fee = 2;
  partner_id = codes "p";
  client_id = codes "c";
  ack = false;
  settled = false;
  settle_error = none;
}

-- The state after the trade has been stored.
abbrev pub stored_world : World ℕ ℕ
stored_world = record { db = record sample_db { trades = sample_row ∷ [] }; tick = 0; trace = [] }

-- An hour that has been closed by hand.
abbrev pub closed_row : ReconRow
closed_row = record {
  dt = sample_day;
  hour = pos 15;
  is_matched = false;
  info = record {
    local_hash = pos 1;
    remote_hash = pos 2;
    hash_version = 2;
    local_trades = pos 1;
    remote_trades = pos 1;
    dt_from = [];
    dt_to = [];
    local_hash_v1 = pos 0;
    remote_hash_v1 = pos 0;
  };
  is_done = true;
}

abbrev pub closed_world : World ℕ ℕ
closed_world = record {
  db = record sample_db { trades = sample_row ∷ []; recons = closed_row ∷ [] };
  tick = 0;
  trace = [];
}

abbrev pub sample_hour : ReconcileParams
sample_hour = record { partner_id = codes "p"; day = codes "2026-03-01"; hour = pos 15 }
