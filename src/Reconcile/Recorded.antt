-- ===== src/Reconcile/Recorded.antt =====
-- What a check of an hour leaves in the table `reconciliations`.

use mathlib.Core.Path.{subst}
use fx_sdk.Reconcile.Window.{valid_hour, window}
use fx_sdk.Reconcile.Checksum.{compare_checksums}
use fx_sdk.Store.Laws.{annotate-ok, bind-ok, exec-ok}
use fx_sdk.Reconcile.Run.{
  after_local, after_remote, info_of, is_slot, local_step, reconcile, reconcile_hour,
  reconcile_window_of, remote_step, result_of, upsert, upsert_at, record_step,
}
use fx_sdk.Errors.{Result, err, ok, partner_id_required, ok-injective}
use fx_sdk.Types.{ReconcileInfo, ReconcileParams, ReconcileResult}
use fx_sdk.Platform.{Platform}
use fx_sdk.Store.{Db, ReconRow, World, exec, raise}
use fx_sdk.Time.Date.{Date, eq_date_refl, eq_date-eq}
use fx_sdk.Common.{
  Bool, List, Option, Text, [], ap, arith, codes, eq_ℤ_refl, false, if◌then◌else◌, is_empty, none,
  pos, refl, some, sym, true, ℕ, ℤ, ◌∙◌, ◌∷◌, ◌≡◌, eq_ℤ_iff, ◌||◌,
}

-- The row of a slot.
unfoldable pub find_slot : Date → ℤ → List ReconRow → Option ReconRow
find_slot day hour [] = none
find_slot day hour (r ∷ rs) = if is_slot day hour r then some r else find_slot day hour rs

-- Whether a slot has a row.
abbrev pub is_recorded : Date → ℤ → List ReconRow → Bool
is_recorded day hour [] = false
is_recorded day hour (r ∷ rs) = is_slot day hour r || is_recorded day hour rs

pub upsert-is_recorded :
    (day : Date) (hour : ℤ) (new : ReconRow) (rs : List ReconRow)
    → is_recorded day hour rs ≡ true
    → is_recorded day hour (upsert new rs).0 ≡ true
unfolding upsert
upsert-is_recorded day hour new [] h = cc
upsert-is_recorded day hour new (r ∷ rs) h =
    ground
      (arith, upsert-is_recorded day hour new rs, eq_date-eq r.dt new.dt, eq_ℤ_iff r.hour new.hour)

pub find_slot-is_recorded :
    (day : Date) (hour : ℤ) (rs : List ReconRow) {row : ReconRow}
    → find_slot day hour rs ≡ some row
    → is_recorded day hour rs ≡ true
unfolding find_slot
find_slot-is_recorded day hour [] h = cc
find_slot-is_recorded day hour (r ∷ rs) {row} h =
    ground (arith, find_slot-is_recorded day hour rs {row = row})

-- The row that a check has left, with the outcome that it returns.
pub record Recorded (x : Platform) (p : ReconcileParams) (r : ReconcileResult) (d : Db x.Numeric)
    : Type 0 where
  pub day : Date
  pub day_eq : x.date_in p.day ≡ some day
  pub hour : ℕ
  pub hour_eq : valid_hour p.hour ≡ some hour
  pub row : ReconRow
  pub row_eq : find_slot day (pos hour) d.recons ≡ some row
  pub matched_eq : row.is_matched ≡ r.matched
  pub done_eq : row.is_done ≡ r.done
  pub local_eq : row.info.local_hash ≡ r.local_hash
  pub remote_eq : row.info.remote_hash ≡ r.remote_hash

find_slot-upsert :
    (new : ReconRow) (rs : List ReconRow)
    → find_slot new.dt new.hour (upsert new rs).0 ≡ some (upsert new rs).1
unfolding find_slot upsert
find_slot-upsert new [] = ground (arith, eq_date_refl new.dt, eq_ℤ_refl new.hour)
find_slot-upsert new (r ∷ rs) =
    ground (arith, find_slot-upsert new rs, eq_date_refl new.dt, eq_ℤ_refl new.hour)

upsert-info : (new : ReconRow) (rs : List ReconRow) → (upsert new rs).1.info ≡ new.info
unfolding upsert
upsert-info new [] = refl
upsert-info new (r ∷ rs) = ground (arith, upsert-info new rs)

module _ (x : Platform) where
  open x use {Decimal, Numeric, date_in}

  module _ (p : ReconcileParams) (h : ℕ) (hour_eq : valid_hour p.hour ≡ some h) where
    record_step-Recorded :
        (matched : Bool) (info : ReconcileInfo) (w : World Numeric Decimal) {a b : Bool}
        {w1 : World Numeric Decimal} (r : ReconcileResult)
        → record_step x p.day h matched info w ≡ (ok (a, b), w1)
        → a ≡ r.matched
        → b ≡ r.done
        → info.local_hash ≡ r.local_hash
        → info.remote_hash ≡ r.remote_hash
        → Recorded x p r w1.db
    unfolding record_step
    record_step-Recorded matched info w {a} {b} {w1} r ran ma mb ml mr =
        let s = upsert_at x (date_in p.day) h matched info in
        let (d, made, at) =
          exec-ok x s w (annotate-ok x (codes "record reconciliation") (exec x s) w ran) in
        subst (Recorded x p r) (sym (ap (λ (v : World Numeric Decimal). v.db) at))
          (go d (date_in p.day) refl made)
      where
        go :
            (d : Db Numeric) (o : Option Date)
            → date_in p.day ≡ o
            → upsert_at x o h matched info w.db ≡ some ((a, b), d)
            → Recorded x p r d
        go d none e made = cc
        go d (some day) e made =
            let new : ReconRow = record {
              dt = day;
              hour = pos h;
              is_matched = matched;
              info = info;
              is_done = matched;
            } in
            let rows : d.recons ≡ (upsert new w.db.recons).0 = cc in
            let row = (upsert new w.db.recons).1 in
            let fm : row.is_matched ≡ a = cc in
            let fd : row.is_done ≡ b = cc in
            let info_same = upsert-info new w.db.recons in
            record {
              day = day;
              day_eq = e;
              hour = h;
              hour_eq = hour_eq;
              row = row;
              row_eq = rw rows (find_slot-upsert new w.db.recons);
              matched_eq = fm ∙ ma;
              done_eq = fd ∙ mb;
              local_eq = ap (λ (i : ReconcileInfo). i.local_hash) info_same ∙ ml;
              remote_eq = ap (λ (i : ReconcileInfo). i.remote_hash) info_same ∙ mr;
            }

    reconcile_hour-Recorded :
        (bounds : Text × Text) (w : World Numeric Decimal) {r : ReconcileResult}
        {w1 : World Numeric Decimal}
        → reconcile_hour x p h bounds w ≡ (ok r, w1)
        → Recorded x p r w1.db
    unfolding reconcile_hour after_local after_remote
    reconcile_hour-Recorded bounds w {r} {w1} ran =
        let (local, wa, ran_a, rest) =
          bind-ok (local_step x p.day h) (after_local x p h bounds) w ran in
        let (resp, wb, ran_b, rest_b) =
          bind-ok (remote_step x p bounds) (after_remote x p h bounds local) wa rest in
        let cmp = compare_checksums local.v1 local.v2 (pos local.trades) resp in
        let (flags, wc, ran_c, last) =
          bind-ok (record_step x p.day h cmp.matched (info_of x bounds local cmp resp))
            (result_of x p local cmp) wb rest_b in
        let out =
          ok-injective (ap (λ (v : Result ReconcileResult × World Numeric Decimal). v.0) last) in
        let same : wc ≡ w1 =
          ap (λ (v : Result ReconcileResult × World Numeric Decimal). v.1) last in
        subst (λ (v : World Numeric Decimal). Recorded x p r v.db) same
          (record_step-Recorded cmp.matched (info_of x bounds local cmp resp) wb r ran_c
            (ap (λ (v : ReconcileResult). v.matched) out) (ap (λ (v : ReconcileResult). v.done) out)
            (ap (λ (v : ReconcileResult). v.local_hash) out)
            (ap (λ (v : ReconcileResult). v.remote_hash) out))

  -- A check that succeeds has left the row of its hour, with the outcome and the checksums that it returns.
  pub reconcile-Recorded :
      (p : ReconcileParams) (w : World Numeric Decimal) {r : ReconcileResult}
      {w1 : World Numeric Decimal}
      → reconcile x (some p) w ≡ (ok r, w1)
      → Recorded x p r w1.db
  unfolding reconcile
  reconcile-Recorded p w {r} {w1} ran =
      go (is_empty p.partner_id) (valid_hour p.hour) (window p) refl ran
    where
      go :
          (b : Bool) (h : Option ℕ) (o : Result (Text × Text))
          → valid_hour p.hour ≡ h
          → (if b then raise x partner_id_required else reconcile_window_of x p h o) w ≡ (ok r, w1)
          → Recorded x p r w1.db
      go true h o e j = cc
      go false (some h) (ok bounds) e j = reconcile_hour-Recorded p h e bounds w j
      go false none (ok bounds) e j = cc
      go false none (err why) e j = cc
      go false (some h) (err why) e j = cc
