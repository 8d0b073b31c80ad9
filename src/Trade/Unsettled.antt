-- ===== src/Trade/Unsettled.antt =====
-- `RetryUnsettled` of go/v1/trade.go: the handler runs again for every trade that is stored and not settled.

use fx_sdk.Time.Layout.{format_day}
use fx_sdk.Money.{cal}
use fx_sdk.Time.Date.{before}
use fx_sdk.Types.{TradeEvent}
use fx_sdk.Errors.{Result, context, err, ok}
use fx_sdk.Platform.{Platform}
use fx_sdk.Trade.Statements.{ParentOrder, scan_map, scan_parent}
use fx_sdk.Common.{List, Option, [], arith, codes, eq_ℤ, if◌then◌else◌, none, pos, some, ℤ, ◌∷◌}
use fx_sdk.Trade.Settle.{Handler, settle}
use fx_sdk.Trade.Extends.{Extends, Extends-eq, Extends-refl, Extends-trans, settle-Extends}
use fx_sdk.Store.{Action, Db, OrderRow, TradeRow, World, query, logged}

module _ (x : Platform) where
  open x use {Decimal, Numeric, numeric_out, from_int}

  -- `ORDER BY trading_day`
  unfoldable pub insert_by_day :
      TradeRow Numeric → List (TradeRow Numeric) → List (TradeRow Numeric)
  insert_by_day r [] = r ∷ []
  insert_by_day r (s ∷ ss) =
      let rest = insert_by_day r ss in
      if before s.key.trading_day r.key.trading_day then s ∷ rest else r ∷ s ∷ ss

  -- `WHERE settled = FALSE`
  unfoldable pub unsettled : List (TradeRow Numeric) → List (TradeRow Numeric)
  unfolding insert_by_day
  unsettled [] = []
  unsettled (r ∷ rs) = let rest = unsettled rs in if r.settled then rest else insert_by_day r rest

  -- `WHERE ref_id = $1`
  unfoldable pub find_ref : ℤ → List (OrderRow Numeric) → Option (OrderRow Numeric)
  find_ref ref [] = none
  find_ref ref (o ∷ os) = if eq_ℤ o.ref_id ref then some o else find_ref ref os

  -- The event of a stored row, joined to its order; the status and the time of execution stay zero.
  abbrev pub stored_event : TradeRow Numeric → ParentOrder → TradeEvent Decimal
  stored_event r o = record {
    partner_id = r.partner_id;
    trade_id = r.key.trade_id;
    order_id = r.key.order_id;
    order_status = pos 0;
    trading_day = format_day r.key.trading_day;
    filled_quantity = numeric_out r.filled_quantity;
    execution_rate = numeric_out r.execution_rate;
    executed_at = [];
    trade_type = r.trade_type;
    client_id = r.client_id;
    currency_pair = o.currency_pair;
    side = o.side;
    account = o.account;
    fee_config = o.fee;
    settlement = from_int 0;
    fee = from_int 0;
  }

  abbrev pub settle_event :
      Handler Decimal → Result (TradeEvent Decimal) → World Numeric Decimal → World Numeric Decimal
  settle_event handler (err e) w = w
  settle_event handler (ok e) w = logged x (settle x (some handler) e) w

  abbrev pub after_parent :
      Handler Decimal
      → TradeRow Numeric
      → Result ParentOrder × World Numeric Decimal
      → World Numeric Decimal
  after_parent handler r (err e, w) = w
  after_parent handler r (ok o, w) = settle_event handler (cal x (stored_event r o)) w

  -- One trade: an error of the lookup or of the fee is logged, and the trade is left for the next run.
  unfoldable pub retry_one :
      Handler Decimal → TradeRow Numeric → World Numeric Decimal → World Numeric Decimal
  unfolding query find_ref cal settle scan_map
  retry_one handler r w =
      after_parent handler r (query x (λ d. scan_parent (find_ref r.ref_id d.orders)) w)

  unfoldable pub retry_all :
      Handler Decimal → List (TradeRow Numeric) → World Numeric Decimal → World Numeric Decimal
  unfolding retry_one
  retry_all handler [] w = w
  retry_all handler (r ∷ rs) w = retry_all handler rs (retry_one handler r w)

  abbrev pub after_batch :
      Handler Decimal
      → Result (List (TradeRow Numeric)) × World Numeric Decimal
      → Result (Unit {0}) × World Numeric Decimal
  after_batch handler (err e, w) = (err (context (codes "query unsettled trades") e), w)
  after_batch handler (ok batch, w) = (ok tt, retry_all handler batch w)

  -- `RetryUnsettled`
  unfoldable pub retry_unsettled : Option (Handler Decimal) → Action x (Unit {0})
  unfolding query unsettled retry_all
  retry_unsettled none w = (ok tt, w)
  retry_unsettled (some handler) w = after_batch handler (query x (λ d. ok (unsettled d.trades)) w)

  query-Extends :
      {A : Type 0} (q : Db Numeric → Result A) (w : World Numeric Decimal)
      → Extends w.db.trades (query x q w).1.db.trades
  unfolding query
  query-Extends q w = Extends-eq (ground arith)

  pub retry_one-Extends :
      (handler : Handler Decimal) (r : TradeRow Numeric) (w : World Numeric Decimal)
      → Extends w.db.trades (retry_one handler r w).db.trades
  unfolding retry_one
  retry_one-Extends handler r w =
      Extends-trans (query-Extends (λ d. scan_parent (find_ref r.ref_id d.orders)) w)
        (parent (query x (λ d. scan_parent (find_ref r.ref_id d.orders)) w))
    where
      joined_event :
          (c : Result (TradeEvent Decimal)) (v : World Numeric Decimal)
          → Extends v.db.trades (settle_event handler c v).db.trades
      joined_event (err e) v = Extends-refl v.db.trades
      joined_event (ok e) v = settle-Extends x (some handler) e v

      parent :
          (p : Result ParentOrder × World Numeric Decimal)
          → Extends p.1.db.trades (after_parent handler r p).db.trades
      parent (err e, v) = Extends-refl v.db.trades
      parent (ok o, v) = joined_event (cal x (stored_event r o)) v

  pub retry_all-Extends :
      (handler : Handler Decimal) (rs : List (TradeRow Numeric)) (w : World Numeric Decimal)
      → Extends w.db.trades (retry_all handler rs w).db.trades
  unfolding retry_all
  retry_all-Extends handler [] w = Extends-refl w.db.trades
  retry_all-Extends handler (r ∷ rs) w =
      Extends-trans (retry_one-Extends handler r w)
        (retry_all-Extends handler rs (retry_one handler r w))
