-- ===== src/Trade/Progress.antt =====
-- One stream as a whole: what it does to the stored trades, and what it sends.

use mathlib.Core.Path.{subst}
use fx_sdk.Store.Laws.{trace-exec}
use fx_sdk.Trade.Once.{persist_trade-stored}
use fx_sdk.Types.{TradeEvent}
use fx_sdk.Trade.Stream.{Session, ack_of, after_persist, after_send, deliver, pump}
use fx_sdk.Store.Quiet.{
  Quiet, Quiet-annotate, Quiet-bind, Quiet-exec, Quiet-lift, Quiet-query, Quiet-transaction,
}
use fx_sdk.Trade.Statements.{
  ParentOrder, insert_trade, key_at, mark_ack, mark_settled_row, record_failure,
}
use fx_sdk.Trade.Settle.{Handler, after_handler, mark_settled, settle}
use fx_sdk.Errors.{Error, Result, err, ok}
use fx_sdk.Trade.Delivery.{response_key}
use fx_sdk.Trade.Persist.{
  persist_trade, Persisted, after_fill, after_insert, after_lookup, after_read, fill_step,
  first_delivery, insert_step, joined, lookup_step, read_step, redelivery, store_trade,
}
use fx_sdk.Wire.{TradeRequest, TradeResponse, get_int, get_text}
use fx_sdk.Platform.{Platform}
use fx_sdk.Trade.Extends.{
  Extends, mark_ack-Extends, mark_settled-Extends, persist_trade-Extends, record_failure-Extends,
}
use fx_sdk.Store.{
  Effect, TradeKey, TradeRow, World, acked, cancel_sent, find_trade, handled, submitted, advance,
  emit, exec, lift, transaction, notified,
}
use fx_sdk.Time.Date.{Date}
use fx_sdk.Common.{
  All, List, Option, [], none, refl, some, ◌∷◌, ◌≡◌, Bool, Text, ap, arith, codes, false,
  if◌then◌else◌, sym, true, ℕ, ◌∙◌,
}

module _ (x : Platform) where
  open x use {Decimal, Numeric, date_in}

  -- An ack names a stored trade: a row with its trade id and its trading day.
  abbrev pub NamesStored : List (TradeRow Numeric) → TradeRequest → Type 0
  NamesStored a req =
      (k : TradeKey) × (r : TradeRow Numeric) × (find_trade k a ≡ some r)
      × (k.trade_id ≡ get_int req.trade_id)
      × (date_in (get_text req.trading_day) ≡ some k.trading_day)

  abbrev pub AckStored : List (TradeRow Numeric) → Effect Decimal → Type 0
  AckStored a (acked req) = NamesStored a req
  AckStored a (handled e) = Unit
  AckStored a (submitted r) = Unit
  AckStored a (cancel_sent r) = Unit
  AckStored a (notified e) = Unit

  -- Every ack that has left the SDK names a stored trade.
  abbrev pub AcksStored : World Numeric Decimal → Type 0
  AcksStored w = All (AckStored w.db.trades) w.trace

  AckStored-Extends :
      {a b : List (TradeRow Numeric)}
      → Extends a b
      → (s : Effect Decimal) → AckStored a s
      → AckStored b s
  AckStored-Extends h (acked req) (k, r, found, same, day) =
      let (t, found_t, _) = h.stays k r found in (k, t, found_t, same, day)
  AckStored-Extends h (handled e) u = tt
  AckStored-Extends h (submitted r) u = tt
  AckStored-Extends h (cancel_sent r) u = tt
  AckStored-Extends h (notified e) u = tt

  All-Extends :
      {a b : List (TradeRow Numeric)}
      → Extends a b
      → (ss : List (Effect Decimal)) → All (AckStored a) ss
      → All (AckStored b) ss
  All-Extends h [] u = tt
  All-Extends h (s ∷ ss) u = (AckStored-Extends h s u.0, All-Extends h ss u.1)

  -- A step that extends the table and sends no ack keeps the invariant.
  AcksStored-step :
      (w w1 : World Numeric Decimal)
      → Extends w.db.trades w1.db.trades
      → w1.trace ≡ w.trace
      → AcksStored w
      → AcksStored w1
  AcksStored-step w w1 h same u = rw same (All-Extends h w.trace u)

  response_key-parts :
      (resp : TradeResponse) {k : TradeKey}
      → response_key x resp ≡ some k
      → (k.trade_id ≡ get_int resp.id) × (date_in (get_text resp.trading_day) ≡ some k.trading_day)
  response_key-parts resp {k} h = go (date_in (get_text resp.trading_day)) refl h
    where
      go :
          (d : Option Date)
          → date_in (get_text resp.trading_day) ≡ d
          → key_at x (get_int resp.id) (get_int resp.order_id) d ≡ some k
          → (k.trade_id ≡ get_int resp.id)
            × (date_in (get_text resp.trading_day) ≡ some k.trading_day)
      go none q j = cc
      go (some day) q j =
          let same : k ≡ record {
            trade_id = get_int resp.id;
            order_id = get_int resp.order_id;
            trading_day = day;
          } =
            cc in
          (
            ap (λ (j : TradeKey). j.trade_id) same,
            q ∙ ap (λ (j : TradeKey). some j.trading_day) (sym same),
          )

  first_delivery-Quiet :
      (resp : TradeResponse) (e : TradeEvent Decimal) → Quiet (first_delivery x resp e)
  unfolding first_delivery fill_step after_fill
  first_delivery-Quiet resp e =
      Quiet-bind (fill_step x resp e) (after_fill x e)
        (Quiet-annotate x (codes "update order") _ (Quiet-exec x _))
        λ n. record { same = λ w. ground arith }

  redelivery-Quiet : (e : TradeEvent Decimal) → Quiet (redelivery x e)
  unfolding redelivery read_step
  redelivery-Quiet e =
      Quiet-bind (read_step x e) (after_read x e)
        (Quiet-annotate x (codes "read settled state") _ (Quiet-query x _))
        λ s. record { same = λ w. refl }

  insert_step-Quiet : (resp : TradeResponse) (e : TradeEvent Decimal) → Quiet (insert_step x resp e)
  unfolding insert_step
  insert_step-Quiet resp e = record {
    same = λ w.
        (Quiet-annotate x (codes "insert trade") _ (
            Quiet-exec x (
              insert_trade x e (get_int resp.ref_id) (x.parse_rfc3339 (get_text resp.executed_at))
                (x.now w.tick)))).same
          w;
  }

  after_insert-Quiet :
      (resp : TradeResponse) (e : TradeEvent Decimal) (n : ℕ) → Quiet (after_insert x resp e n)
  unfolding after_insert
  after_insert-Quiet resp e n = record {
    same = λ w. ground (arith, (redelivery-Quiet e).same w, (first_delivery-Quiet resp e).same w);
  }

  store_trade-Quiet : (resp : TradeResponse) (e : TradeEvent Decimal) → Quiet (store_trade x resp e)
  unfolding store_trade
  store_trade-Quiet resp e =
      Quiet-bind (insert_step x resp e) (after_insert x resp e) (insert_step-Quiet resp e)
        (after_insert-Quiet resp e)

  after_lookup-Quiet :
      (resp : TradeResponse) (parent : ParentOrder) → Quiet (after_lookup x resp parent)
  unfolding after_lookup
  after_lookup-Quiet resp parent =
      Quiet-bind (lift x (joined x resp parent)) (λ e. transaction x (store_trade x resp e))
        (Quiet-lift x (joined x resp parent))
        λ e. Quiet-transaction x (store_trade x resp e) (store_trade-Quiet resp e)

  pub persist_trade-Quiet : (resp : TradeResponse) → Quiet (persist_trade x resp)
  unfolding persist_trade lookup_step
  persist_trade-Quiet resp =
      Quiet-bind (lookup_step x resp) (after_lookup x resp)
        (Quiet-annotate x (codes "lookup order") _ (Quiet-query x _)) (after_lookup-Quiet resp)

  pub settle-acks :
      (handler : Option (Handler Decimal)) (e : TradeEvent Decimal) (w : World Numeric Decimal)
      → AcksStored w
      → AcksStored (settle x handler e w).1
  unfolding settle mark_settled after_handler
  settle-acks none e w u =
      AcksStored-step w (mark_settled x e w) (mark_settled-Extends x e w)
        (trace-exec x (mark_settled_row x e) w) u
  settle-acks (some h) e w u = go (h w.tick e) (emit (handled e) (advance w)) (tt, u)
    where
      go :
          (o : Option Text) (w1 : World Numeric Decimal)
          → AcksStored w1
          → AcksStored (after_handler x e o w1).1
      go none w1 v =
          AcksStored-step w1 (mark_settled x e w1) (mark_settled-Extends x e w1)
            (trace-exec x (mark_settled_row x e) w1) v
      go (some why) w1 v =
          AcksStored-step w1 (exec x (record_failure x e why) w1).1
            (record_failure-Extends x e why w1) (trace-exec x (record_failure x e why) w1) v

  after_send-acks :
      (handler : Option (Handler Decimal)) (p : Persisted x) (o : Option Error)
      (w : World Numeric Decimal)
      → AcksStored w
      → AcksStored (after_send x handler p o w).1
  unfolding after_send
  after_send-acks handler p (some e) w u = u
  after_send-acks handler p none w u = go p.settled
    where
      marked : AcksStored (exec x (mark_ack x p.event) w).1
      marked =
          AcksStored-step w (exec x (mark_ack x p.event) w).1 (mark_ack-Extends x p.event w)
            (trace-exec x (mark_ack x p.event) w) u

      go :
          (b : Bool)
          → AcksStored (
              if b
              then (exec x (mark_ack x p.event) w).1
              else (settle x handler p.event (exec x (mark_ack x p.event) w).1).1)
      go true = marked
      go false = settle-acks handler p.event (exec x (mark_ack x p.event) w).1 marked

  -- After a trade is persisted, its ack names the row that is stored.
  pub stored_ack :
      (resp : TradeResponse) (w : World Numeric Decimal) {p : Persisted x}
      {w1 : World Numeric Decimal}
      → persist_trade x resp w ≡ (ok p, w1)
      → NamesStored w1.db.trades (ack_of x resp)
  stored_ack resp w h =
      let (k, row, key, found, _) =
        persist_trade-stored x resp w
          (ap (λ (r : Result (Persisted x) × World Numeric Decimal). r.0) h) in
      let (id_eq, day_eq) = response_key-parts resp key in
      (
        k,
        row,
        subst
            (λ (r : Result (Persisted x) × World Numeric Decimal).
              find_trade k r.1.db.trades ≡ some row)
            h found,
        id_eq,
        day_eq,
      )

  pub deliver-acks :
      (handler : Option (Handler Decimal)) (send : ℕ → Option Error) (resp : TradeResponse)
      (w : World Numeric Decimal)
      → AcksStored w
      → AcksStored (deliver x handler send resp w).1
  unfolding deliver after_persist
  deliver-acks handler send resp w u = go (persist_trade x resp w) refl
    where
      stored : AcksStored (persist_trade x resp w).1
      stored =
          AcksStored-step w (persist_trade x resp w).1 (persist_trade-Extends x resp w)
            ((persist_trade-Quiet resp).same w) u

      go :
          (r : Result (Persisted x) × World Numeric Decimal)
          → persist_trade x resp w ≡ r
          → AcksStored (after_persist x handler send resp r).1
      go (err e, w1) h = rw h at stored
      go (ok p, w1) h =
          after_send-acks handler p (send w1.tick) (emit (acked (ack_of x resp)) (advance w1))
            (stored_ack resp w h, rw h at stored)

  -- Acks mean "received and stored": if every ack that has left names a stored trade, then so after a
  -- run of a stream, whatever the Core sends, the handler returns and the calls' outcomes are.
  pub pump-acks :
      (handler : Option (Handler Decimal)) (s : Session) (messages : List TradeResponse)
      (w : World Numeric Decimal)
      → AcksStored w
      → AcksStored (pump x handler s messages w).1
  unfolding pump
  pump-acks handler s [] w u = u
  pump-acks handler s (resp ∷ rest) w u =
      go (deliver x handler s.send resp w) (deliver-acks handler s.send resp w u)
        (λ v. pump-acks handler s rest v)
    where
      go :
          (r : Option Error × World Numeric Decimal)
          → AcksStored r.1
          → ((v : World Numeric Decimal) → AcksStored v → AcksStored (pump x handler s rest v).1)
          → AcksStored
              (elim r.0 as (λ _. Error × World Numeric Decimal) [
                | some e ↦ (e, r.1)
                | none ↦ pump x handler s rest r.1
              ]).1
      go (none, w1) v ih = ih w1 v
      go (some e, w1) v ih = v
