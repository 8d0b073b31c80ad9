-- ===== src/Reconcile/Repaired.antt =====
-- The row that a repair of go/v1/reconcile.go leaves.

use fx_sdk.Reconcile.Recorded.{Recorded, reconcile-Recorded}
use fx_sdk.Recover.Run.{get_trades_raw}
use fx_sdk.Wire.{TradeResponse}
use fx_sdk.Trade.Pull.{Counts, pull_all, zero_counts}
use fx_sdk.Reconcile.Repair.{
  after_check, after_repair, checked_again, reconcile_repair, repair_pulled, repair_window,
  Repaired, started,
}
use fx_sdk.Trade.Settle.{Handler}
use mathlib.Core.Path.{subst}
use fx_sdk.Reconcile.Window.{window}
use fx_sdk.Reconcile.Run.{reconcile}
use fx_sdk.Errors.{Result, err, ok, Error}
use fx_sdk.Types.{ReconcileParams, ReconcileResult, RepairResult, resolved, was_matched}
use fx_sdk.Platform.{Platform}
use fx_sdk.Store.{World}
use fx_sdk.Common.{
  Bool, List, Option, Text, arith, false, if◌then◌else◌, none, refl, some, true, ℕ, ◌≡◌, length,
  ◌&&◌, ◌==◌,
}

module _ (x : Platform) where
  open x use {Decimal, Numeric}

  -- What a repair returns, if it has a result that counts as resolved.
  abbrev MatchedIf : ReconcileParams → Repaired x → Type 0
  MatchedIf p (e, none, v) = Unit
  MatchedIf p (e, some res, v) =
      resolved res ≡ true → (r : ReconcileResult) × Recorded x p r v.db × (r.matched ≡ true)

  module _ (handler : Option (Handler Decimal)) (p : ReconcileParams) where
    checked_again-Recorded :
        (old : RepairResult) (v : World Numeric Decimal)
        → resolved old ≡ false
        → was_matched old.before ≡ false
        → MatchedIf p (checked_again x old (reconcile x (some p) v))
    unfolding resolved
    checked_again-Recorded old v open_yet not_before = go (reconcile x (some p) v) refl
      where
        go :
            (r : Result ReconcileResult × World Numeric Decimal)
            → reconcile x (some p) v ≡ r
            → MatchedIf p (checked_again x old r)
        go (err why, u) eq = λ closed. cc
        go (ok later, u) eq =
            λ closed. (later, reconcile-Recorded x p v eq, ground (arith, closed, not_before))

    after_repair-Recorded :
        (old : RepairResult) (v : World Numeric Decimal)
        → resolved old ≡ false
        → was_matched old.before ≡ false
        → MatchedIf p (after_repair x p old v)
    unfolding after_repair resolved
    after_repair-Recorded old v open_yet not_before = go (old.recovered == 0 && old.settled == 0)
      where
        go :
            (b : Bool)
            → MatchedIf p (
                if◌then◌else◌ {A = Repaired x} b
                  (none, some old, v)
                  (checked_again x old (reconcile x (some p) v)))
        go true = λ closed. cc
        go false = checked_again-Recorded old v open_yet not_before

    -- A result that is started on a check that did not match is not resolved yet.
    started-resolved :
        (first : ReconcileResult) (core : ℕ) (c : Counts)
        → first.matched ≡ false
        → resolved (started x p first core c) ≡ false
    unfolding resolved
    started-resolved first core c h = ground arith

    repair_window-Recorded :
        (first : ReconcileResult) (v : World Numeric Decimal)
        → first.matched ≡ false
        → MatchedIf p (repair_window x handler p first (window p) v)
    unfolding repair_window repair_pulled
    repair_window-Recorded first v h = go (window p)
      where
        pulled :
            (r : Result (List TradeResponse) × World Numeric Decimal)
            → MatchedIf p (repair_pulled x handler p first r)
        pulled (err why, u) = λ closed. let no_yet = started-resolved first 0 zero_counts h in cc
        pulled (ok raw, u) =
            let (c, u1) = pull_all x handler raw zero_counts u in
            after_repair-Recorded (started x p first (length raw) c) u1
              (started-resolved first (length raw) c h) h

        go : (o : Result (Text × Text)) → MatchedIf p (repair_window x handler p first o v)
        go (err why) = λ closed. let no_yet = started-resolved first 0 zero_counts h in cc
        go (ok (from, to)) = pulled (get_trades_raw x p.partner_id p.day from to true v)

    after_check-Recorded :
        (w : World Numeric Decimal) → MatchedIf p (after_check x handler p (reconcile x (some p) w))
    unfolding after_check
    after_check-Recorded w = go (reconcile x (some p) w) refl
      where
        go :
            (r : Result ReconcileResult × World Numeric Decimal)
            → reconcile x (some p) w ≡ r
            → MatchedIf p (after_check x handler p r)
        go (err why, v) eq = tt
        go (ok first, v) eq = test first.matched refl
          where
            test :
                (b : Bool)
                → first.matched ≡ b
                → MatchedIf p (
                    if◌then◌else◌ {A = Repaired x} b
                      (none, some (started x p first 0 zero_counts), v)
                      (repair_window x handler p first (window p) v))
            test true h = λ closed. (first, reconcile-Recorded x p w eq, h)
            test false h = repair_window-Recorded first v h

  -- An hour that a repair reports as resolved is recorded as matched, whether the first check found it
  -- so or the one after the repair.
  pub reconcile_repair-Recorded :
      (handler : Option (Handler Decimal)) (p : ReconcileParams) (w : World Numeric Decimal)
      {e : Option Error} {res : RepairResult} {w1 : World Numeric Decimal}
      → reconcile_repair x handler (some p) w ≡ (e, some res, w1)
      → resolved res ≡ true
      → (r : ReconcileResult) × Recorded x p r w1.db × (r.matched ≡ true)
  unfolding reconcile_repair
  reconcile_repair-Recorded handler p w ran =
      subst (MatchedIf p) ran (after_check-Recorded handler p w)
