-- ===== src/Trade/Retried.antt =====
-- What `RetryUnsettled` of go/v1/trade.go settles.

use fx_sdk.Trade.Untouched.{cal-event_key, retry_one-orders}
use mathlib.Core.Path.{subst}
use fx_sdk.Time.Layout.{format_day}
use fx_sdk.Store.Rows.{find_trade-update_trade, map_found}
use fx_sdk.Store.Laws.{exec_intro, query_intro}
use fx_sdk.Money.{cal}
use fx_sdk.Time.Date.{before_irrefl}
use fx_sdk.Trade.Unsettled.{
  find_ref, insert_by_day, retry_all, retry_all-Extends, retry_one, retry_one-Extends,
  retry_unsettled, stored_event, unsettled,
}
use fx_sdk.Types.{TradeEvent}
use fx_sdk.Errors.{Result, ok}
use fx_sdk.Platform.{Platform, done}
use fx_sdk.Trade.Statements.{
  ParentOrder, event_key, key_at, mark_settled_row, scan_parent, update_at,
}
use fx_sdk.Trade.Settle.{Handler, after_handler, mark_settled, settle}
use fx_sdk.Trade.Extends.{Extends}
use fx_sdk.Store.{
  Db, OrderRow, TradeKey, TradeRow, World, advance, emit, eq_key, eq_key_iff, find_trade, handled,
  query, update_trade,
}
use fx_sdk.Common.{
  Bool, List, [], ap, arith, false, if◌then◌else◌, none, refl, some, some-injective, sym, true, ℕ,
  ◌∙◌, ◌∷◌, ◌≡◌,
}

module _ (x : Platform) where
  open x use {Decimal, Numeric, date_in, outcome}

  -- A stored trade that a retry can settle: its order is found and read, its fee is computed, the handler
  -- accepts it, and the database reads its day as it is printed.
  pub record Ready (handler : Handler Decimal) (orders : List (OrderRow Numeric))
      (r : TradeRow Numeric) : Type 0 where
    pub order : OrderRow Numeric
    pub found : find_ref x r.ref_id orders ≡ some order
    pub parent : ParentOrder
    pub read : scan_parent (some order) ≡ ok parent
    pub event : TradeEvent Decimal
    pub computed : cal x (stored_event x r parent) ≡ ok event
    pub accepts : (n : ℕ) → handler n event ≡ none
    pub day_read : date_in (format_day r.key.trading_day) ≡ some r.key.trading_day

  -- The stored row of a key, marked as settled.
  pub record SettledAt (k : TradeKey) (trades : List (TradeRow Numeric)) : Type 0 where
    pub row : TradeRow Numeric
    pub found : find_trade k trades ≡ some row
    pub is_settled : row.settled ≡ true

  SettledAt-Extends :
      {k : TradeKey} {a b : List (TradeRow Numeric)} → Extends a b → SettledAt k a → SettledAt k b
  SettledAt-Extends {k} h s =
      let (t, found, kept) = h.stays k s.row s.found in
      record { row = t; found = found; is_settled = kept.settled_stays s.is_settled }

  module _ (done_all : (n : ℕ) → outcome n ≡ done) (handler : Handler Decimal) where
    mark_settled-SettledAt :
        (k : TradeKey) (s : TradeRow Numeric) (e : TradeEvent Decimal) (w : World Numeric Decimal)
        → event_key x e ≡ some k
        → find_trade k w.db.trades ≡ some s
        → SettledAt k (mark_settled x e w).db.trades
    unfolding mark_settled mark_settled_row update_at
    mark_settled-SettledAt k s e w key found =
        let f = λ (r : TradeRow Numeric). record r { settled = true; settle_error = none } in
        let d = record w.db { trades = update_trade k f w.db.trades } in
        let ran : mark_settled_row x e w.db ≡ some (tt, d) = rw key refl in
        let w1_eq = exec_intro x (mark_settled_row x e) w (done_all w.tick) ran in
        let at : (mark_settled x e w).db.trades ≡ update_trade k f w.db.trades =
          ap (λ (r : Result (Unit {0}) × World Numeric Decimal). r.1.db.trades) w1_eq in
        record {
          row = f s;
          found =
              ap (find_trade k) at
              ∙ find_trade-update_trade f (λ r. refl) k k w.db.trades
              ∙ (rw ((eq_key_iff k k).1 refl) (ap (map_found f) found));
          is_settled = refl;
        }

    settle-SettledAt :
        (k : TradeKey) (s : TradeRow Numeric) (e : TradeEvent Decimal) (w : World Numeric Decimal)
        → ((n : ℕ) → handler n e ≡ none)
        → event_key x e ≡ some k
        → find_trade k w.db.trades ≡ some s
        → SettledAt k (settle x (some handler) e w).1.db.trades
    unfolding settle after_handler
    settle-SettledAt k s e w accepts key found =
        rw (accepts w.tick) (mark_settled-SettledAt k s e (emit (handled e) (advance w)) key found)

    retry_one-SettledAt :
        (r s : TradeRow Numeric) (w : World Numeric Decimal)
        → Ready handler w.db.orders r
        → find_trade r.key w.db.trades ≡ some s
        → SettledAt r.key (retry_one x handler r w).db.trades
    unfolding retry_one
    retry_one-SettledAt r s w h found =
        let q = λ (d : Db Numeric). scan_parent (find_ref x r.ref_id d.orders) in
        let asked : query x q w ≡ (ok h.parent, advance w) =
          query_intro x q w (done_all w.tick)
          ∙ ap (λ (p : Result ParentOrder). (p, advance w)) (ap scan_parent h.found ∙ h.read) in
        let key : event_key x h.event ≡ some r.key =
          cal-event_key x (stored_event x r h.parent) h.event h.computed
          ∙ ap (key_at x r.key.trade_id r.key.order_id) h.day_read in
        rw asked (rw h.computed (settle-SettledAt r.key s h.event (advance w) h.accepts key found))

    retry_all-SettledAt :
        (k : TradeKey) (r : TradeRow Numeric) (batch : List (TradeRow Numeric))
        (s : TradeRow Numeric) (w : World Numeric Decimal)
        → find_trade k batch ≡ some r
        → Ready handler w.db.orders r
        → find_trade k w.db.trades ≡ some s
        → SettledAt k (retry_all x handler batch w).db.trades
    unfolding retry_all find_trade
    retry_all-SettledAt k r [] s w picked h found = cc
    retry_all-SettledAt k r (t ∷ ts) s w picked h found =
        go (eq_key t.key k) refl picked
          (λ s1 w1 p h1 found1. retry_all-SettledAt k r ts s1 w1 p h1 found1)
      where
        w1 : World Numeric Decimal
        w1 = retry_one x handler t w

        go :
            (b : Bool)
            → eq_key t.key k ≡ b
            → (if b then some t else find_trade k ts) ≡ some r
            → ((s1 : TradeRow Numeric) (w1 : World Numeric Decimal)
                → find_trade k ts ≡ some r
                → Ready handler w1.db.orders r
                → find_trade k w1.db.trades ≡ some s1
                → SettledAt k (retry_all x handler ts w1).db.trades)
            → SettledAt k (retry_all x handler ts w1).db.trades
        go true e p ih =
            let same : t ≡ r = some-injective p in
            let at : t.key ≡ k = (eq_key_iff t.key k).0 e in
            SettledAt-Extends (retry_all-Extends x handler ts w1) (
              subst (λ (j : TradeKey). SettledAt j w1.db.trades) at
                (retry_one-SettledAt t s w (subst (Ready handler w.db.orders) (sym same) h)
                  (ap (λ (j : TradeKey). find_trade j w.db.trades) at ∙ found)))
        go false e p ih =
            let (s1, found1, _) = (retry_one-Extends x handler t w).stays k s found in
            ih s1 w1 p
              (subst (λ (os : List (OrderRow Numeric)). Ready handler os r)
                (sym (retry_one-orders x handler t w)) h)
              found1

  find_trade-insert_by_day :
      (k : TradeKey) (r : TradeRow Numeric) (rs : List (TradeRow Numeric))
      → find_trade k (insert_by_day x r rs) ≡ (if eq_key r.key k then some r else find_trade k rs)
  unfolding find_trade insert_by_day
  find_trade-insert_by_day k r [] = refl
  find_trade-insert_by_day k r (s ∷ ss) = ground (
    arith,
    eq_key_iff r.key k,
    eq_key_iff s.key k,
    before_irrefl k.trading_day,
    find_trade-insert_by_day k r ss,
  )

  -- The batch of a retry has every stored trade that is not settled.
  find_trade-unsettled :
      (k : TradeKey) (r : TradeRow Numeric) (rs : List (TradeRow Numeric))
      → find_trade k rs ≡ some r
      → r.settled ≡ false
      → find_trade k (unsettled x rs) ≡ some r
  unfolding find_trade unsettled
  find_trade-unsettled k r [] found open_row = cc
  find_trade-unsettled k r (s ∷ ss) found open_row =
      ground (arith, find_trade-insert_by_day k s (unsettled x ss), find_trade-unsettled k r ss)

  -- If every database call succeeds, a retry of the settlements succeeds, and settles every stored trade
  -- whose order is found and read, whose fee is computed and which the handler accepts, whatever becomes of
  -- the other trades, which the handler may refuse.
  pub retry_unsettled-SettledAt :
      (handler : Handler Decimal) (w : World Numeric Decimal) (k : TradeKey) (r : TradeRow Numeric)
      → ((n : ℕ) → outcome n ≡ done)
      → find_trade k w.db.trades ≡ some r
      → Ready handler w.db.orders r
      → ((retry_unsettled x (some handler) w).0 ≡ ok tt)
        × SettledAt k (retry_unsettled x (some handler) w).1.db.trades
  unfolding retry_unsettled
  retry_unsettled-SettledAt handler w k r done_all found h =
      rw (query_intro x (λ d. ok (unsettled x d.trades)) w (done_all w.tick))
        (refl, go r.settled refl)
    where
      batch : List (TradeRow Numeric)
      batch = unsettled x w.db.trades

      go :
          (b : Bool) → r.settled ≡ b → SettledAt k (retry_all x handler batch (advance w)).db.trades
      go true e =
          SettledAt-Extends (retry_all-Extends x handler batch (advance w))
            (record { row = r; found = found; is_settled = e })
      go false e =
          retry_all-SettledAt done_all handler k r batch r (advance w)
            (find_trade-unsettled k r w.db.trades found e) h found
