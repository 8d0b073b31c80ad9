-- ===== src/Reconcile/Repair.antt =====
-- `ReconcileRepair` of go/v1/reconcile.go: the check, the pull of the hour, and the check again.
use fx_sdk.Reconcile.Window.{window}
use fx_sdk.Reconcile.Run.{reconcile}
use fx_sdk.Recover.Run.{get_trades_raw}
use fx_sdk.Time.Date.{before}
use fx_sdk.Store.{World}
use fx_sdk.Wire.{TradeResponse}
use fx_sdk.Types.{ReconcileParams, ReconcileResult, RepairResult}
use fx_sdk.Platform.{Platform}
use fx_sdk.Common.{List, Option, Text, if◌then◌else◌, length, none, some, true, ℕ, ◌&&◌, ◌==◌}
use fx_sdk.Trade.Settle.{Handler}
use fx_sdk.Errors.{Error, Result, err, ok, partner_id_required}
use fx_sdk.Trade.Pull.{Counts, pull_all, zero_counts}

module _ (x : Platform) where
  open x use {Decimal, Numeric}

  -- The error, if any, and the result, which is there unless the first check has failed.
  abbrev pub Repaired : Type 0
  Repaired = Option Error × Option RepairResult × World Numeric Decimal

  abbrev pub started : ReconcileParams → ReconcileResult → ℕ → Counts → RepairResult
  started p before core c = record {
    day = p.day;
    hour = p.hour;
    before = some before;
    after = none;
    core_trades = core;
    recovered = c.recovered;
    settled = c.settled;
    settle_failed = c.settle_failed;
    failed = c.failed;
  }

  abbrev pub checked_again :
      RepairResult → Result ReconcileResult × World Numeric Decimal → Repaired
  checked_again res (err e, w) = (some e, some res, w)
  checked_again res (ok after, w) = (none, some (record res { after = some after }), w)

  -- Nothing moved: the second check is left out.
  unfoldable pub after_repair : ReconcileParams → RepairResult → World Numeric Decimal → Repaired
  unfolding reconcile
  after_repair p res w =
      if res.recovered == 0 && res.settled == 0
      then (none, some res, w)
      else checked_again res (reconcile x (some p) w)

  unfoldable pub repair_pulled :
      Option (Handler Decimal)
      → ReconcileParams
      → ReconcileResult
      → Result (List TradeResponse) × World Numeric Decimal
      → Repaired
  unfolding pull_all after_repair
  repair_pulled handler p before (err e, w) = (some e, some (started p before 0 zero_counts), w)
  repair_pulled handler p before (ok raw, w) =
      let (c, w1) = pull_all x handler raw zero_counts w in
      after_repair p (started p before (length raw) c) w1

  unfoldable pub repair_window :
      Option (Handler Decimal)
      → ReconcileParams
      → ReconcileResult
      → Result (Text × Text)
      → World Numeric Decimal
      → Repaired
  unfolding get_trades_raw repair_pulled
  repair_window handler p before (err e) w = (some e, some (started p before 0 zero_counts), w)
  repair_window handler p before (ok (from, to)) w =
      repair_pulled handler p before (get_trades_raw x p.partner_id p.day from to true w)

  unfoldable pub after_check :
      Option (Handler Decimal)
      → ReconcileParams
      → Result ReconcileResult × World Numeric Decimal
      → Repaired
  unfolding repair_window window
  after_check handler p (err e, w) = (some e, none, w)
  after_check handler p (ok before, w) =
      if before.matched
      then (none, some (started p before 0 zero_counts), w)
      else repair_window handler p before (window p) w

  abbrev repair_some :
      Option (Handler Decimal) → Option ReconcileParams → World Numeric Decimal → Repaired
  repair_some handler none w = (some partner_id_required, none, w)
  repair_some handler (some p) w = after_check handler p (reconcile x (some p) w)

  -- `ReconcileRepair`
  unfoldable pub reconcile_repair :
      Option (Handler Decimal) → Option ReconcileParams → World Numeric Decimal → Repaired
  unfolding after_check
  reconcile_repair handler p w = repair_some handler p w
