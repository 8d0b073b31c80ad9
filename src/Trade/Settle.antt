-- ===== src/Trade/Settle.antt =====
-- `settle` and `markSettled` of go/v1/trade.go.
use fx_sdk.Errors.{ok, err, handler_failed}
use fx_sdk.Trade.Statements.{mark_settled_row, record_failure}
use fx_sdk.Types.{TradeEvent}
use fx_sdk.Store.{Action, World, exec, advance, emit, handled, logged}
use fx_sdk.Platform.{Platform}
use fx_sdk.Common.{ℕ, Option, Text, none, some}

-- The partner's handler: what its call returns may differ from one call to the next; `none` is success.
abbrev pub Handler : Type 0 → Type 0
Handler Decimal = ℕ → TradeEvent Decimal → Option Text

module _ (x : Platform) where
  open x use {Decimal, Numeric}

  -- `markSettled`
  unfoldable pub mark_settled : TradeEvent Decimal → World Numeric Decimal → World Numeric Decimal
  unfolding mark_settled_row exec
  mark_settled e = logged x (exec x (mark_settled_row x e))

  -- After the handler: the row is marked, or the failure is recorded and returned.
  unfoldable pub after_handler : TradeEvent Decimal → Option Text → Action x (Unit {0})
  unfolding mark_settled record_failure exec
  after_handler e none w = (ok tt, mark_settled e w)
  after_handler e (some why) w =
      (err (handler_failed why), logged x (exec x (record_failure x e why)) w)

  -- `settle`; no handler means that there is nothing to do on the partner's side.
  unfoldable pub settle : Option (Handler Decimal) → TradeEvent Decimal → Action x (Unit {0})
  unfolding mark_settled after_handler
  settle none e w = (ok tt, mark_settled e w)
  settle (some handler) e w = after_handler e (handler w.tick e) (emit (handled e) (advance w))
