-- ===== src/Client/Hours.antt =====
-- Reconciliation and repair of an hour grow the database and send only what is backed by it.

use fx_sdk.Reconcile.Recorded.{upsert-is_recorded}
use fx_sdk.Client.Runs.{get_trades_raw-Follows, pull_all-Follows}
use mathlib.Core.Path.{subst}
use fx_sdk.Reconcile.Window.{valid_hour, window}
use fx_sdk.Reconcile.Closed.{upsert-is_closed}
use fx_sdk.Reconcile.Checksum.{compare_checksums}
use fx_sdk.Reconcile.Run.{
  after_local, after_remote, info_of, local_step, reconcile, reconcile_hour, reconcile_window_of,
  remote_step, result_of, upsert, upsert_at, record_step,
}
use fx_sdk.Wire.{TradeResponse}
use fx_sdk.Reconcile.Repair.{
  Repaired, after_check, after_repair, checked_again, reconcile_repair, repair_pulled,
  repair_window, started,
}
use fx_sdk.Types.{ReconcileInfo, ReconcileParams, ReconcileResult, RepairResult}
use fx_sdk.Recover.Run.{get_trades_raw}
use fx_sdk.Platform.{Platform}
use fx_sdk.Order.Terms.{OrdersKept-refl}
use fx_sdk.Trade.Settle.{Handler}
use fx_sdk.Client.Later.{
  Follows, Follows-quiet, Follows-refl, Follows-trans, Later, Later-refl, Steady, Steady-annotate,
  Steady-bind, Steady-exec, Steady-query,
}
use fx_sdk.Trade.Extends.{Extends-refl}
use fx_sdk.Errors.{Result, err, ok, partner_id_required}
use fx_sdk.Store.{Db, ReconRow, World, raise}
use fx_sdk.Time.Date.{Date, before}
use fx_sdk.Trade.Pull.{pull_all, zero_counts}
use fx_sdk.Common.{
  Bool, List, Option, Text, codes, false, if◌then◌else◌, is_empty, length, none, pos, refl, some,
  sym, true, ℕ, ◌&&◌, ◌==◌, ◌≡◌,
}

module _ (x : Platform) where
  open x use {Decimal, Numeric, date_in}

  record_step-Steady :
      (d : Text) (h : ℕ) (matched : Bool) (info : ReconcileInfo)
      → Steady x (record_step x d h matched info)
  unfolding record_step
  record_step-Steady d h matched info = Steady-annotate x (codes "record reconciliation") _ (
      Steady-exec x (upsert_at x (date_in d) h matched info)
        λ b a b' ran. written (date_in d) b a b' ran)
    where
      written :
          (o : Option Date) (b : Db Numeric) (a : Bool × Bool) (v : Db Numeric)
          → upsert_at x o h matched info b ≡ some (a, v)
          → Later b v
      written none b a v ran = cc
      written (some dt) b a v ran =
          let new : ReconRow = record {
            dt = dt;
            hour = pos h;
            is_matched = matched;
            info = info;
            is_done = matched;
          } in
          let same : v ≡ record b { recons = (upsert new b.recons).0 } = cc in
          subst (Later b) (sym same) (record {
            trades = Extends-refl b.trades;
            orders = OrdersKept-refl b.orders;
            recorded = λ day hour u. upsert-is_recorded day hour new b.recons u;
            closed = λ day hour u. upsert-is_closed day hour new b.recons u;
          })

  reconcile_hour-Steady :
      (p : ReconcileParams) (h : ℕ) (bounds : Text × Text) → Steady x (reconcile_hour x p h bounds)
  unfolding reconcile_hour after_local after_remote local_step remote_step
  reconcile_hour-Steady p h bounds =
      Steady-bind x (local_step x p.day h) (after_local x p h bounds)
        (Steady-annotate x (codes "local reconciliation hash") _ (Steady-query x _))
        λ local.
          Steady-bind x (remote_step x p bounds) (after_remote x p h bounds local)
            (record {
              follows = λ w. Follows-quiet x w (remote_step x p bounds w).1 (Later-refl w.db) refl;
            })
            λ resp.
              let cmp = compare_checksums local.v1 local.v2 (pos local.trades) resp in
              Steady-bind x (record_step x p.day h cmp.matched (info_of x bounds local cmp resp))
                (result_of x p local cmp)
                (record_step-Steady p.day h cmp.matched (info_of x bounds local cmp resp))
                λ flags. record { follows = λ w. Follows-refl x w }

  pub reconcile-Follows :
      (p : Option ReconcileParams) (w : World Numeric Decimal) → Follows x w (reconcile x p w).1
  unfolding reconcile
  reconcile-Follows none w = Follows-refl x w
  reconcile-Follows (some p) w = go (is_empty p.partner_id) (valid_hour p.hour) (window p)
    where
      go :
          (b : Bool) (h : Option ℕ) (r : Result (Text × Text))
          → Follows x w
              ((if b then raise x partner_id_required else reconcile_window_of x p h r) w).1
      go true h r = Follows-refl x w
      go false (some h) (ok bounds) = (reconcile_hour-Steady p h bounds).follows w
      go false none (ok bounds) = Follows-refl x w
      go false none (err e) = Follows-refl x w
      go false (some h) (err e) = Follows-refl x w

  checked_again-Follows :
      (res : RepairResult) (r : Result ReconcileResult × World Numeric Decimal)
      → Follows x r.1 (checked_again x res r).2
  checked_again-Follows res (err e, w) = Follows-refl x w
  checked_again-Follows res (ok after, w) = Follows-refl x w

  after_repair-Follows :
      (p : ReconcileParams) (res : RepairResult) (w : World Numeric Decimal)
      → Follows x w (after_repair x p res w).2
  unfolding after_repair
  after_repair-Follows p res w = go (res.recovered == 0 && res.settled == 0)
    where
      go :
          (b : Bool)
          → Follows x w
              (if◌then◌else◌ {A = Repaired x} b
                (none, some res, w)
                (checked_again x res (reconcile x (some p) w))).2
      go true = Follows-refl x w
      go false =
          Follows-trans x (reconcile-Follows (some p) w)
            (checked_again-Follows res (reconcile x (some p) w))

  repair_pulled-Follows :
      (handler : Option (Handler Decimal)) (p : ReconcileParams) (before : ReconcileResult)
      (r : Result (List TradeResponse) × World Numeric Decimal)
      → Follows x r.1 (repair_pulled x handler p before r).2
  unfolding repair_pulled
  repair_pulled-Follows handler p before (err e, w) = Follows-refl x w
  repair_pulled-Follows handler p before (ok raw, w) =
      let (c, w1) = pull_all x handler raw zero_counts w in
      Follows-trans x (pull_all-Follows x handler raw zero_counts w)
        (after_repair-Follows p (started x p before (length raw) c) w1)

  repair_window-Follows :
      (handler : Option (Handler Decimal)) (p : ReconcileParams) (before : ReconcileResult)
      (r : Result (Text × Text)) (w : World Numeric Decimal)
      → Follows x w (repair_window x handler p before r w).2
  unfolding repair_window
  repair_window-Follows handler p before (err e) w = Follows-refl x w
  repair_window-Follows handler p before (ok (from, to)) w =
      Follows-trans x (get_trades_raw-Follows x p.partner_id p.day from to true w) (
        repair_pulled-Follows handler p before (get_trades_raw x p.partner_id p.day from to true w))

  pub after_check-Follows :
      (handler : Option (Handler Decimal)) (p : ReconcileParams)
      (r : Result ReconcileResult × World Numeric Decimal)
      → Follows x r.1 (after_check x handler p r).2
  unfolding after_check
  after_check-Follows handler p (err e, w) = Follows-refl x w
  after_check-Follows handler p (ok before, w) = go before.matched
    where
      go :
          (b : Bool)
          → Follows x w
              (if◌then◌else◌ {A = Repaired x} b
                (none, some (started x p before 0 zero_counts), w)
                (repair_window x handler p before (window p) w)).2
      go true = Follows-refl x w
      go false = repair_window-Follows handler p before (window p) w

  pub reconcile_repair-Follows :
      (handler : Option (Handler Decimal)) (p : Option ReconcileParams) (w : World Numeric Decimal)
      → Follows x w (reconcile_repair x handler p w).2
  unfolding reconcile_repair
  reconcile_repair-Follows handler none w = Follows-refl x w
  reconcile_repair-Follows handler (some p) w =
      Follows-trans x (reconcile-Follows (some p) w)
        (after_check-Follows handler p (reconcile x (some p) w))
