-- ===== src/Recover/Run.antt =====
-- `RecoverTrades` of go/v1/recover.go and the call that it shares with reconciliation, `getTradesRaw`.

use fx_sdk.Reconcile.Run.{reconcile}
use fx_sdk.Time.Layout.{format_timestamp, parse_day}
use fx_sdk.Recover.Days.{days}
use fx_sdk.Wire.{TradeResponse}
use fx_sdk.Types.{RecoverParams, RecoverResult}
use fx_sdk.Platform.{Platform}
use fx_sdk.Trade.Settle.{Handler}
use fx_sdk.Errors.{Error, Result, err, invalid_day, ok, partner_id_required, wrap}
use fx_sdk.Time.Date.{Date, next_day}
use fx_sdk.Trade.Pull.{Counts, pull_all, zero_counts}
use fx_sdk.Common.{
  Bool, List, Option, Text, [], codes, false, if◌then◌else◌, is_empty, length, none, some, ℕ, ◌+◌,
  ◌∷◌,
}
use fx_sdk.Store.{Action, World, advance}

module _ (x : Platform) where
  open x use {Decimal, Numeric, get_trades}

  -- `getTradesRaw`
  unfoldable pub get_trades_raw : Text → Text → Text → Text → Bool → Action x (List TradeResponse)
  get_trades_raw partner day from to reconcile w = (
    wrap (codes "get trades") (
        get_trades w.tick (record {
          trading_day = some day;
          dt_from = some from;
          dt_to = some to;
          partner_id = some partner;
          is_reconciliation = some reconcile;
        })),
    advance w,
  )

  -- What a run has done so far, and the error that has stopped it, if any.
  abbrev pub Progress : Type 0
  Progress = Option Error × ℕ × Counts × World Numeric Decimal

  abbrev pub pull_day :
      Option (Handler Decimal)
      → ℕ
      → Counts
      → Result (List TradeResponse) × World Numeric Decimal
      → Progress
  pull_day handler core c (err e, w) = (some e, core, c, w)
  pull_day handler core c (ok raw, w) =
      let (c1, w1) = pull_all x handler raw c w in (none, core + length raw, c1, w1)

  -- One day: its window is the whole day.
  unfoldable pub recover_day :
      Option (Handler Decimal)
      → Text
      → Text
      → Option Date
      → ℕ
      → Counts
      → World Numeric Decimal
      → Progress
  unfolding get_trades_raw pull_all
  recover_day handler partner day none core c w = (some (invalid_day day), core, c, w)
  recover_day handler partner day (some start) core c w = pull_day handler core c (
      get_trades_raw partner day (format_timestamp start 0) (format_timestamp (next_day start) 0)
        false w)

  -- The loop over the days; an error returns at once.
  unfoldable pub recover_days :
      Option (Handler Decimal) → Text → List Text → ℕ → Counts → World Numeric Decimal → Progress
  unfolding recover_day
  recover_days handler partner [] core c w = (none, core, c, w)
  recover_days handler partner (day ∷ rest) core c w =
      let (e, core', c', w') = recover_day handler partner day (parse_day day) core c w in
      let more = recover_days handler partner rest core' c' w' in
      elim e [ some why ↦ (some why, core', c', w') | none ↦ more ]

  abbrev pub result_of :
      List Text → Progress → Option Error × Option RecoverResult × World Numeric Decimal
  result_of ds (e, core, c, w) = (
    e,
    some (record {
      days = ds;
      core_trades = core;
      recovered = c.recovered;
      settled = c.settled;
      settle_failed = c.settle_failed;
      failed = c.failed;
    }),
    w,
  )

  abbrev pub recover_over :
      Option (Handler Decimal)
      → Text
      → Result (List Text)
      → World Numeric Decimal
      → Option Error × Option RecoverResult × World Numeric Decimal
  recover_over handler partner (err e) w = (some e, none, w)
  recover_over handler partner (ok ds) w =
      result_of ds (recover_days handler partner ds 0 zero_counts w)

  -- `RecoverTrades`: the error, and the result, which is there beside an error of a later day.
  unfoldable pub recover_trades :
      Option (Handler Decimal)
      → Option RecoverParams
      → World Numeric Decimal
      → Option Error × Option RecoverResult × World Numeric Decimal
  unfolding recover_days days
  recover_trades handler none w = (some partner_id_required, none, w)
  recover_trades handler (some p) w =
      if is_empty p.partner_id
      then (some partner_id_required, none, w)
      else recover_over handler p.partner_id (days p) w
