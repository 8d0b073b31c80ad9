-- ===== src/Reconcile/Answered.antt =====
-- When a check of an hour is sure to succeed.

use fx_sdk.Reconcile.Checksum.{compare_checksums}
use fx_sdk.Reconcile.Window.{bounds_of, window, valid_hour}
use fx_sdk.Time.Layout.{parse_day}
use fx_sdk.Errors.{ok, Result, wrap}
use fx_sdk.Store.Laws.{annotate_intro, exec_intro, bind_intro, query_intro}
use fx_sdk.Reconcile.Run.{
  after_local, after_remote, local_step, reconcile, reconcile_hour, remote_step, upsert, upsert_at,
  record_step, checksums, info_of, local_at, reconciliation_request, result_of,
}
use fx_sdk.Wire.{ReconciliationRequest, ReconciliationResponse}
use fx_sdk.Types.{ReconcileInfo, ReconcileParams, ReconcileResult}
use fx_sdk.Platform.{Platform, done}
use fx_sdk.Store.{Db, ReconRow, World, advance, exec, query}
use fx_sdk.Time.Date.{Date}
use fx_sdk.Common.{
  Bool, Text, codes, false, is_empty, pos, refl, some, ℕ, ◌<◌, ◌≡◌, Option, ap, ◌*◌, ◌∙◌, arith,
}

module _ (x : Platform) where
  open x use {Decimal, Numeric, date_in}

  -- Every call of the database takes effect and is answered, and the Core answers every reconciliation.
  pub record Answers : Type 0 where
    pub done_always : (n : ℕ) → x.outcome n ≡ done
    pub answered :
        (n : ℕ) (req : ReconciliationRequest)
        → (resp : ReconciliationResponse) × (x.reconciliation n req ≡ ok resp)

  -- The parameters of a check that name an hour of a day.
  pub record NamesHour (p : ReconcileParams) (day : Date) (h : ℕ) : Type 0 where
    pub partner_given : is_empty p.partner_id ≡ false
    pub hour_eq : p.hour ≡ pos h
    pub hour_lt : h < 24
    pub parsed : parse_day p.day ≡ some day
    pub read : date_in p.day ≡ some day

  abbrev pub Returned : ReconcileParams → World Numeric Decimal → Type 0
  Returned p w =
      (r : ReconcileResult) × (w1 : World Numeric Decimal) × (reconcile x (some p) w ≡ (ok r, w1))

  module _ (a : Answers) (p : ReconcileParams) (day : Date) (h : ℕ) (n : NamesHour p day h) where
    record_step_intro :
        (matched : Bool) (info : ReconcileInfo) (w : World Numeric Decimal)
        → (f : Bool × Bool) × (w1 : World Numeric Decimal) × (record_step x p.day h matched info w
            ≡ (ok f, w1))
    unfolding record_step
    record_step_intro matched info w =
        let new : ReconRow = record {
          dt = day;
          hour = pos h;
          is_matched = matched;
          info = info;
          is_done = matched;
        } in
        let s = upsert_at x (date_in p.day) h matched info in
        let d : Db Numeric = record (w.db) { recons = (upsert new w.db.recons).0 } in
        let f : Bool × Bool =
          ((upsert new w.db.recons).1.is_matched, (upsert new w.db.recons).1.is_done) in
        let ran : s w.db ≡ some (f, d) = rw n.read refl in
        (
          f,
          record (advance w) { db = d },
          annotate_intro x (codes "record reconciliation") (exec x s) w
              (exec_intro x s w (a.done_always w.tick) ran),
        )

    reconcile_hour_intro :
        (bounds : Text × Text) (w : World Numeric Decimal)
        → (r : ReconcileResult) × (w1 : World Numeric Decimal) × (reconcile_hour x p h bounds w
            ≡ (ok r, w1))
    unfolding reconcile_hour after_local after_remote local_step remote_step checksums
    reconcile_hour_intro bounds w =
        let q = local_at x (date_in p.day) h in
        let local = checksums x day h w.db.trades in
        let w1 = advance w in
        let ran_local : local_step x p.day h w ≡ (ok local, w1) =
          annotate_intro x (codes "local reconciliation hash") (query x q) w (
            query_intro x q w (a.done_always w.tick)
            ∙ ap (λ (o : Option Date). (local_at x o h w.db, w1)) n.read) in
        let (resp, answers) = a.answered w1.tick (reconciliation_request x p bounds) in
        let w2 = advance w1 in
        let ran_remote : remote_step x p bounds w1 ≡ (ok resp, w2) =
          ap (λ (o : Result ReconciliationResponse). (wrap (codes "reconciliation") o, w2))
            answers in
        let cmp = compare_checksums local.v1 local.v2 (pos local.trades) resp in
        let info = info_of x bounds local cmp resp in
        let (f, w3, ran_record) = record_step_intro cmp.matched info w2 in
        (
          _,
          w3,
          bind_intro (local_step x p.day h) (after_local x p h bounds) w ran_local
              ∙ bind_intro (remote_step x p bounds) (after_remote x p h bounds local) w1 ran_remote
              ∙ bind_intro (record_step x p.day h cmp.matched info) (result_of x p local cmp) w2
                  ran_record,
        )

    pub valid_hour_intro : valid_hour p.hour ≡ some h
    valid_hour_intro = rw n.hour_eq (ground (arith, n.hour_lt))

    -- A check with such parameters succeeds.
    pub reconcile_intro : (w : World Numeric Decimal) → Returned p w
    unfolding reconcile window
    reconcile_intro w =
        let bounds = bounds_of (record { date = day; secs = h * 3600 }) in
        let (r, w1, ran) = reconcile_hour_intro bounds w in
        (r, w1, rw n.partner_given (rw valid_hour_intro (rw n.parsed ran)))
