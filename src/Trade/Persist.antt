-- ===== src/Trade/Persist.antt =====
-- `persistTrade` of go/v1/trade.go: the one entry point through which a trade is stored, from the
-- stream, from recovery and from a repair. The log lines are left out.
use fx_sdk.Errors.{rows_affected, Result, wrap}
use fx_sdk.Money.{cal}
use fx_sdk.Store.{transaction, Action, exec, query, ◌>>=◌, annotate, lift, pure, raise}
use fx_sdk.Trade.Statements.{fill_order, insert_trade, lookup_order, read_settled, ParentOrder}
use fx_sdk.Wire.{TradeResponse, get_text, get_int}
use fx_sdk.Types.{TradeEvent}
use fx_sdk.Platform.{Platform}
use fx_sdk.Common.{Bool, to_int8, [], pos, codes, if◌then◌else◌, false, ◌==◌, true, ℕ}

module _ (x : Platform) where
  open x use {Decimal, Numeric, parse_rfc3339, now}

  -- The event before it is joined to the parent order; `settlement` and `fee` are the zero decimals.
  abbrev pub event_of : TradeResponse → TradeEvent Decimal
  event_of resp = record {
    partner_id = get_text resp.partner_id;
    trade_id = get_int resp.id;
    order_id = get_int resp.order_id;
    order_status = to_int8 (get_int resp.order_status);
    trading_day = get_text resp.trading_day;
    filled_quantity = get_text resp.filled_quantity;
    execution_rate = get_text resp.execution_rate;
    executed_at = get_text resp.executed_at;
    trade_type = get_int resp.trade_type;
    client_id = [];
    currency_pair = [];
    side = pos 0;
    account = [];
    fee_config = [];
    settlement = x.from_int 0;
    fee = x.from_int 0;
  }

  abbrev pub enrich : TradeEvent Decimal → ParentOrder → TradeEvent Decimal
  enrich e o = record e {
    client_id = o.client_id;
    side = o.side;
    currency_pair = o.currency_pair;
    account = o.account;
    fee_config = o.fee;
  }

  -- What the function returns beside its error: the event, `inserted` and `settled`.
  pub record Persisted : Type 0 where
    pub event : TradeEvent Decimal
    pub inserted : Bool
    pub settled : Bool

  unfoldable pub fill_step : TradeResponse → TradeEvent Decimal → Action x ℕ
  unfolding fill_order exec
  fill_step resp e =
      annotate x (codes "update order")
        (exec x (fill_order x (get_text resp.order_day) (get_int resp.ref_id) e))

  unfoldable pub after_fill : TradeEvent Decimal → ℕ → Action x Persisted
  after_fill e changed =
      if changed == 1
      then pure x (record { event = e; inserted = true; settled = false })
      else raise x rows_affected

  unfoldable pub first_delivery : TradeResponse → TradeEvent Decimal → Action x Persisted
  unfolding fill_step after_fill
  first_delivery resp e = do changed ← fill_step resp e; after_fill e changed

  unfoldable pub read_step : TradeEvent Decimal → Action x Bool
  unfolding read_settled query
  read_step e = annotate x (codes "read settled state") (query x (read_settled x e))

  abbrev pub after_read : TradeEvent Decimal → Bool → Action x Persisted
  after_read e settled = pure x (record { event = e; inserted = false; settled = settled })

  unfoldable pub redelivery : TradeEvent Decimal → Action x Persisted
  unfolding read_step
  redelivery e = do settled ← read_step e; after_read e settled

  -- `NOW()` is the clock at the insert.
  unfoldable pub insert_step : TradeResponse → TradeEvent Decimal → Action x ℕ
  unfolding insert_trade exec
  insert_step resp e w =
      annotate x (codes "insert trade")
        (exec x (
          insert_trade x e (get_int resp.ref_id) (parse_rfc3339 (get_text resp.executed_at))
            (now w.tick)))
        w

  -- The branch on `cmd.RowsAffected()`.
  unfoldable pub after_insert : TradeResponse → TradeEvent Decimal → ℕ → Action x Persisted
  unfolding redelivery first_delivery
  after_insert resp e stored = if stored == 0 then redelivery e else first_delivery resp e

  -- The body of the transaction.
  unfoldable pub store_trade : TradeResponse → TradeEvent Decimal → Action x Persisted
  unfolding insert_step after_insert
  store_trade resp e = do stored ← insert_step resp e; after_insert resp e stored

  unfoldable pub lookup_step : TradeResponse → Action x ParentOrder
  unfolding lookup_order query
  lookup_step resp =
      annotate x (codes "lookup order")
        (query x (lookup_order x (get_text resp.order_day) (get_int resp.ref_id)))

  -- The event joined to its parent order, with its fee and settlement.
  unfoldable pub joined : TradeResponse → ParentOrder → Result (TradeEvent Decimal)
  unfolding cal
  joined resp parent = wrap (codes "compute fee") (cal x (enrich (event_of resp) parent))

  unfoldable pub after_lookup : TradeResponse → ParentOrder → Action x Persisted
  unfolding joined store_trade transaction
  after_lookup resp parent = do e ← lift x (joined resp parent); transaction x (store_trade resp e)

  -- `persistTrade`
  unfoldable pub persist_trade : TradeResponse → Action x Persisted
  unfolding lookup_step after_lookup
  persist_trade resp = do parent ← lookup_step resp; after_lookup resp parent
