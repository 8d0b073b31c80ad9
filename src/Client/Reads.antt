-- ===== src/Client/Reads.antt =====
-- The operations that only read: each leaves the database as it is and sends no effect.

use fx_sdk.Reconcile.Local.{local_trades}
use fx_sdk.Recover.Run.{get_trades_raw}
use fx_sdk.Recover.Query.{get_trades_of}
use fx_sdk.Order.Query.{
  check_depth, check_filter, filter_client_orders, get_currency_pairs, get_order_book_depth,
}
use fx_sdk.Reconcile.Drill.{after_raw, reconcile_diff}
use fx_sdk.Store.{World, query}
use fx_sdk.Platform.{Platform}
use fx_sdk.Common.{Option, arith, refl, ◌≡◌}
use fx_sdk.Client.Later.{Follows, Follows-quiet, Later-eq}
use fx_sdk.Types.{
  FilterClientOrdersParams, GetOrderBookDepthParams, GetTradesParams, ReconcileParams,
}

module _ (x : Platform) where
  open x use {Decimal, Numeric}

  -- A call of the Core that only reads, or none.
  read_only : (w v : World Numeric Decimal) → v.db ≡ w.db → v.trace ≡ w.trace → Follows x w v
  read_only w v db trace = Follows-quiet x w v (Later-eq db) trace

  pub filter_client_orders-Follows :
      (p : Option FilterClientOrdersParams) (w : World Numeric Decimal)
      → Follows x w (filter_client_orders x p w).1
  unfolding filter_client_orders check_filter
  filter_client_orders-Follows p w =
      read_only w (filter_client_orders x p w).1 (ground arith) (ground arith)

  pub get_order_book_depth-Follows :
      (p : Option GetOrderBookDepthParams) (w : World Numeric Decimal)
      → Follows x w (get_order_book_depth x p w).1
  unfolding get_order_book_depth check_depth
  get_order_book_depth-Follows p w =
      read_only w (get_order_book_depth x p w).1 (ground arith) (ground arith)

  pub get_currency_pairs-Follows :
      (w : World Numeric Decimal) → Follows x w (get_currency_pairs x w).1
  unfolding get_currency_pairs
  get_currency_pairs-Follows w = read_only w (get_currency_pairs x w).1 refl refl

  pub get_trades_of-Follows :
      (p : Option GetTradesParams) (w : World Numeric Decimal) → Follows x w (get_trades_of x p w).1
  unfolding get_trades_of get_trades_raw
  get_trades_of-Follows p w = read_only w (get_trades_of x p w).1 (ground arith) (ground arith)

  pub reconcile_diff-Follows :
      (p : Option ReconcileParams) (w : World Numeric Decimal)
      → Follows x w (reconcile_diff x p w).1
  unfolding reconcile_diff get_trades_raw after_raw local_trades query
  reconcile_diff-Follows p w = read_only w (reconcile_diff x p w).1 (ground arith) (ground arith)
