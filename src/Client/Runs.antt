-- ===== src/Client/Runs.antt =====
-- Recovery and retries grow the database and send only what is backed by it.

use fx_sdk.Client.Trades.{persist_trade-Follows, settle-Follows}
use fx_sdk.Time.Layout.{format_timestamp, parse_day}
use fx_sdk.Recover.Days.{days}
use fx_sdk.Money.{cal}
use fx_sdk.Trade.Unsettled.{
  after_batch, after_parent, find_ref, retry_all, retry_one, retry_unsettled, settle_event,
  stored_event, unsettled,
}
use fx_sdk.Wire.{TradeResponse}
use fx_sdk.Types.{RecoverParams, RecoverResult, TradeEvent}
use fx_sdk.Recover.Run.{
  Progress, get_trades_raw, pull_day, recover_day, recover_days, recover_over, recover_trades,
}
use fx_sdk.Platform.{Platform}
use fx_sdk.Trade.Persist.{Persisted, persist_trade}
use fx_sdk.Trade.Statements.{ParentOrder, scan_parent}
use fx_sdk.Trade.Settle.{Handler}
use fx_sdk.Client.Later.{
  Follows, Follows-quiet, Follows-refl, Follows-trans, Later-refl, Steady-query,
}
use fx_sdk.Errors.{Error, Result, err, ok, partner_id_required}
use fx_sdk.Store.{Db, TradeRow, World, query}
use fx_sdk.Time.Date.{Date, next_day}
use fx_sdk.Trade.Pull.{
  Counts, after_pull, count_inserted, pull_all, pull_result, settle_unless, zero_counts,
}
use fx_sdk.Common.{
  Bool, List, Option, Text, [], false, if◌then◌else◌, is_empty, none, refl, some, true, ℕ, ◌∷◌,
}

module _ (x : Platform) where
  open x use {Decimal, Numeric, date_in}

  settle_unless-Follows :
      (b : Bool) (handler : Option (Handler Decimal)) (c : Counts) (e : TradeEvent Decimal)
      (w : World Numeric Decimal)
      → Follows x w (settle_unless x b handler c e w).1
  unfolding settle_unless
  settle_unless-Follows true handler c e w = Follows-refl x w
  settle_unless-Follows false handler c e w = settle-Follows x handler e w

  pull_result-Follows :
      (handler : Option (Handler Decimal)) (c : Counts)
      (r : Result (Persisted x) × World Numeric Decimal)
      → Follows x r.1 (pull_result x handler c r).1
  unfolding pull_result after_pull
  pull_result-Follows handler c (err e, w) = Follows-refl x w
  pull_result-Follows handler c (ok p, w) =
      settle_unless-Follows p.settled handler (count_inserted x p.inserted c) p.event w

  pub pull_all-Follows :
      (handler : Option (Handler Decimal)) (raw : List TradeResponse) (c : Counts)
      (w : World Numeric Decimal)
      → Follows x w (pull_all x handler raw c w).1
  unfolding pull_all
  pull_all-Follows handler [] c w = Follows-refl x w
  pull_all-Follows handler (resp ∷ rest) c w =
      let (c1, w1) = pull_result x handler c (persist_trade x resp w) in
      Follows-trans x
        (Follows-trans x (persist_trade-Follows x resp w)
          (pull_result-Follows handler c (persist_trade x resp w)))
        (pull_all-Follows handler rest c1 w1)

  -- A call of the Core that only reads.
  pub get_trades_raw-Follows :
      (partner day from to : Text) (b : Bool) (w : World Numeric Decimal)
      → Follows x w (get_trades_raw x partner day from to b w).1
  unfolding get_trades_raw
  get_trades_raw-Follows partner day from to b w =
      Follows-quiet x w (get_trades_raw x partner day from to b w).1 (Later-refl w.db) refl

  pull_day-Follows :
      (handler : Option (Handler Decimal)) (core : ℕ) (c : Counts)
      (r : Result (List TradeResponse) × World Numeric Decimal)
      → Follows x r.1 (pull_day x handler core c r).3
  pull_day-Follows handler core c (err e, w) = Follows-refl x w
  pull_day-Follows handler core c (ok raw, w) = pull_all-Follows handler raw c w

  recover_day-Follows :
      (handler : Option (Handler Decimal)) (partner day : Text) (d : Option Date) (core : ℕ)
      (c : Counts) (w : World Numeric Decimal)
      → Follows x w (recover_day x handler partner day d core c w).3
  unfolding recover_day
  recover_day-Follows handler partner day none core c w = Follows-refl x w
  recover_day-Follows handler partner day (some start) core c w =
      let from = format_timestamp start 0 in
      let to = format_timestamp (next_day start) 0 in
      Follows-trans x (get_trades_raw-Follows partner day from to false w)
        (pull_day-Follows handler core c (get_trades_raw x partner day from to false w))

  recover_days-Follows :
      (handler : Option (Handler Decimal)) (partner : Text) (ds : List Text) (core : ℕ) (c : Counts)
      (w : World Numeric Decimal)
      → Follows x w (recover_days x handler partner ds core c w).3
  unfolding recover_days
  recover_days-Follows handler partner [] core c w = Follows-refl x w
  recover_days-Follows handler partner (day ∷ rest) core c w =
      go (recover_day x handler partner day (parse_day day) core c w)
        (recover_day-Follows handler partner day (parse_day day) core c w)
        (λ core' c' w'. recover_days-Follows handler partner rest core' c' w')
    where
      go :
          (r : Progress x)
          → Follows x w r.3
          → ((core' : ℕ) (c' : Counts) (w' : World Numeric Decimal)
              → Follows x w' (recover_days x handler partner rest core' c' w').3)
          → Follows x w
              (elim r.0 as (λ _. Progress x) [
                | some why ↦ (some why, r.1, r.2, r.3)
                | none ↦ recover_days x handler partner rest r.1 r.2 r.3
              ]).3
      go (some why, core', c', w') h ih = h
      go (none, core', c', w') h ih = Follows-trans x h (ih core' c' w')

  pub recover_trades-Follows :
      (handler : Option (Handler Decimal)) (p : Option RecoverParams) (w : World Numeric Decimal)
      → Follows x w (recover_trades x handler p w).2
  unfolding recover_trades
  recover_trades-Follows handler none w = Follows-refl x w
  recover_trades-Follows handler (some p) w = go (is_empty p.partner_id) (days p)
    where
      go :
          (b : Bool) (ds : Result (List Text))
          → Follows x w
              (if◌then◌else◌ {A = Option Error × Option RecoverResult × World Numeric Decimal} b
                (some partner_id_required, none, w)
                (recover_over x handler p.partner_id ds w)).2
      go true ds = Follows-refl x w
      go false (err e) = Follows-refl x w
      go false (ok ds) = recover_days-Follows handler p.partner_id ds 0 zero_counts w

  retry_one-Follows :
      (handler : Handler Decimal) (r : TradeRow Numeric) (w : World Numeric Decimal)
      → Follows x w (retry_one x handler r w)
  unfolding retry_one
  retry_one-Follows handler r w =
      let q = λ (d : Db Numeric). scan_parent (find_ref x r.ref_id d.orders) in
      Follows-trans x ((Steady-query x q).follows w) (parent (query x q w))
    where
      joined_event :
          (c : Result (TradeEvent Decimal)) (v : World Numeric Decimal)
          → Follows x v (settle_event x handler c v)
      joined_event (err e) v = Follows-refl x v
      joined_event (ok e) v = settle-Follows x (some handler) e v

      parent :
          (p : Result ParentOrder × World Numeric Decimal)
          → Follows x p.1 (after_parent x handler r p)
      parent (err e, v) = Follows-refl x v
      parent (ok o, v) = joined_event (cal x (stored_event x r o)) v

  retry_all-Follows :
      (handler : Handler Decimal) (rs : List (TradeRow Numeric)) (w : World Numeric Decimal)
      → Follows x w (retry_all x handler rs w)
  unfolding retry_all
  retry_all-Follows handler [] w = Follows-refl x w
  retry_all-Follows handler (r ∷ rs) w =
      Follows-trans x (retry_one-Follows handler r w)
        (retry_all-Follows handler rs (retry_one x handler r w))

  pub retry_unsettled-Follows :
      (handler : Option (Handler Decimal)) (w : World Numeric Decimal)
      → Follows x w (retry_unsettled x handler w).1
  unfolding retry_unsettled
  retry_unsettled-Follows none w = Follows-refl x w
  retry_unsettled-Follows (some handler) w =
      let q = λ (d : Db Numeric). ok (unsettled x d.trades) in
      Follows-trans x ((Steady-query x q).follows w) (batch (query x q w))
    where
      batch :
          (b : Result (List (TradeRow Numeric)) × World Numeric Decimal)
          → Follows x b.1 (after_batch x handler b).1
      batch (err e, v) = Follows-refl x v
      batch (ok rs, v) = retry_all-Follows handler rs v
