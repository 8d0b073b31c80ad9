-- ===== src/Client/History.antt =====
-- Any sequence of the client's operations, one after the other, as a relation between states.

use fx_sdk.Reconcile.Drill.{reconcile_diff}
use fx_sdk.Recover.Query.{get_trades_of}
use fx_sdk.Client.Reads.{
  filter_client_orders-Follows, get_currency_pairs-Follows, get_order_book_depth-Follows,
  get_trades_of-Follows, reconcile_diff-Follows,
}
use fx_sdk.Order.Query.{filter_client_orders, get_currency_pairs, get_order_book_depth}
use fx_sdk.Client.Trades.{subscribe_trades-Follows}
use fx_sdk.Trade.Subscribe.{subscribe_trades}
use fx_sdk.Order.Submit.{submit_order}
use fx_sdk.Trade.Unsettled.{retry_unsettled}
use fx_sdk.Recover.Run.{recover_trades}
use fx_sdk.Reconcile.Repair.{reconcile_repair}
use fx_sdk.Client.Runs.{recover_trades-Follows, retry_unsettled-Follows}
use fx_sdk.Client.Hours.{reconcile-Follows, reconcile_repair-Follows}
use fx_sdk.Reconcile.Run.{reconcile}
use fx_sdk.Client.Orders.{submit_order-Follows}
use fx_sdk.Client.Answers.{cancel_order-Follows, subscribe_order_events-Follows}
use fx_sdk.Order.Cancel.{cancel_order}
use fx_sdk.Store.{World}
use fx_sdk.Trade.Stream.{Session}
use fx_sdk.Retry.Reconnect.{Round}
use fx_sdk.Platform.{Platform}
use fx_sdk.Trade.Settle.{Handler}
use fx_sdk.Order.Events.{EventSession, subscribe_order_events}
use fx_sdk.Types.{
  CancelOrderParams, ReconcileParams, RecoverParams, SubmitOrderParams, FilterClientOrdersParams,
  GetOrderBookDepthParams, GetTradesParams,
}
use fx_sdk.Client.Later.{AllBacked-Later, Backed, Follows, Follows-refl, Follows-trans, Later}
use fx_sdk.Common.{All, All-append, Bool, List, Option, ℕ, ℤ}

-- The state of the SDK with the operations that change it: each constructor is one call, with what the
-- environment gives it.
pub data Step (x : Platform) : World x.Numeric x.Decimal → World x.Numeric x.Decimal → Type 0 where
  submitting :
      (p : Option SubmitOrderParams) (w : World x.Numeric x.Decimal)
      → Step x w (submit_order x p w).1
  cancelling :
      (p : Option CancelOrderParams) (w : World x.Numeric x.Decimal)
      → Step x w (cancel_order x p w).1
  order_streaming :
      (has_handler : Bool) (draw : ℕ → ℕ) (base_delay max_delay : ℤ)
      (rounds : List (Round EventSession)) (w : World x.Numeric x.Decimal)
      → Step x w (subscribe_order_events x has_handler draw base_delay max_delay rounds 0 w).2
  trade_streaming :
      (draw : ℕ → ℕ) (base_delay max_delay : ℤ) (handler : Option (Handler x.Decimal))
      (rounds : List (Round Session)) (w : World x.Numeric x.Decimal)
      → Step x w (subscribe_trades x draw base_delay max_delay handler rounds 0 w).2
  retrying :
      (handler : Option (Handler x.Decimal)) (w : World x.Numeric x.Decimal)
      → Step x w (retry_unsettled x handler w).1
  recovering :
      (handler : Option (Handler x.Decimal)) (p : Option RecoverParams)
      (w : World x.Numeric x.Decimal)
      → Step x w (recover_trades x handler p w).2
  checking :
      (p : Option ReconcileParams) (w : World x.Numeric x.Decimal) → Step x w (reconcile x p w).1
  repairing :
      (handler : Option (Handler x.Decimal)) (p : Option ReconcileParams)
      (w : World x.Numeric x.Decimal)
      → Step x w (reconcile_repair x handler p w).2
  filtering :
      (p : Option FilterClientOrdersParams) (w : World x.Numeric x.Decimal)
      → Step x w (filter_client_orders x p w).1
  asking_depth :
      (p : Option GetOrderBookDepthParams) (w : World x.Numeric x.Decimal)
      → Step x w (get_order_book_depth x p w).1
  asking_pairs : (w : World x.Numeric x.Decimal) → Step x w (get_currency_pairs x w).1
  asking_trades :
      (p : Option GetTradesParams) (w : World x.Numeric x.Decimal)
      → Step x w (get_trades_of x p w).1
  diffing :
      (p : Option ReconcileParams) (w : World x.Numeric x.Decimal)
      → Step x w (reconcile_diff x p w).1

-- A history is a sequence of such calls.
pub data History (x : Platform) (w : World x.Numeric x.Decimal)
    : World x.Numeric x.Decimal → Type 0 where
  no_call : History x w w
  one_more : {v u : World x.Numeric x.Decimal} → History x w v → Step x v u → History x w u

module _ (x : Platform) where
  open x use {Decimal, Numeric}

  Step-Follows : {w v : World Numeric Decimal} → Step x w v → Follows x w v
  Step-Follows (submitting p w) = submit_order-Follows x p w
  Step-Follows (cancelling p w) = cancel_order-Follows x p w
  Step-Follows (order_streaming h draw b m rounds w) =
      subscribe_order_events-Follows x h draw b m rounds 0 w
  Step-Follows (trade_streaming draw b m handler rounds w) =
      subscribe_trades-Follows x draw b m handler rounds 0 w
  Step-Follows (retrying handler w) = retry_unsettled-Follows x handler w
  Step-Follows (recovering handler p w) = recover_trades-Follows x handler p w
  Step-Follows (checking p w) = reconcile-Follows x p w
  Step-Follows (repairing handler p w) = reconcile_repair-Follows x handler p w
  Step-Follows (filtering p w) = filter_client_orders-Follows x p w
  Step-Follows (asking_depth p w) = get_order_book_depth-Follows x p w
  Step-Follows (asking_pairs w) = get_currency_pairs-Follows x w
  Step-Follows (asking_trades p w) = get_trades_of-Follows x p w
  Step-Follows (diffing p w) = reconcile_diff-Follows x p w

  History-Follows : {w v : World Numeric Decimal} → History x w v → Follows x w v
  History-Follows {w} no_call = Follows-refl x w
  History-Follows (one_more h s) = Follows-trans x (History-Follows h) (Step-Follows s)

  -- Over any history of calls, whatever the outcomes of its database calls, the answers of the Core and
  -- the handlers' results are: no stored trade, order or reconciliation is lost, the values of the trades and the terms
  -- of the orders stay, the flags of trades and the closed hours are never taken back, and the primary
  -- key of the trades is kept.
  pub History-Later : {w v : World Numeric Decimal} → History x w v → Later w.db v.db
  History-Later h = (History-Follows h).later

  -- Safety: if all that has left the SDK is backed by the database, then so after any history: an ack on
  -- the wire names a stored trade, and a request to submit an order names a stored order with the
  -- terms, the side, segments, type, pair, partner and client, that the request carries.
  pub History-Backed :
      {w v : World Numeric Decimal}
      → History x w v
      → All (Backed x w.db) w.trace
      → All (Backed x v.db) v.trace
  History-Backed {w} {v} h u =
      let f = History-Follows h in
      rw f.trace_eq
        (All-append (Backed x v.db) f.sent w.trace f.backed (AllBacked-Later x f.later w.trace u))
