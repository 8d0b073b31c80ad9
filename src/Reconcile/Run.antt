-- ===== src/Reconcile/Run.antt =====
-- `Reconcile` of go/v1/reconcile.go: the checksums of both sides and the row of the hour. Log lines are left out.
use fx_sdk.Reconcile.Window.{valid_hour, window}
use fx_sdk.Time.Zone.{in_window}
use fx_sdk.Errors.{Result, database_failed, err, invalid_hour, ok, partner_id_required, wrap}
use fx_sdk.Wire.{ReconciliationResponse, get_int, ReconciliationRequest}
use fx_sdk.Types.{ReconcileInfo, ReconcileParams, ReconcileResult}
use fx_sdk.Reconcile.Checksum.{ReconcileComparison, compare_checksums}
use fx_sdk.Platform.{Platform}
use fx_sdk.Time.Date.{Date, eq_date}
use fx_sdk.Common.{
  Bool, List, Option, Text, [], codes, eq_ℤ, if◌then◌else◌, is_empty, none, pos, some, ℕ, ℤ, ◌&&◌,
  ◌++◌, ◌+◌, ◌||◌, ◌∷◌,
}
use fx_sdk.Store.{
  Action, Db, ReconRow, TradeRow, advance, annotate, exec, pure, query, raise, ◌>>=◌,
}

pub record LocalChecksum : Type 0 where
  pub v1 : ℤ
  pub v2 : ℤ
  pub trades : ℕ

abbrev pub is_slot : Date → ℤ → ReconRow → Bool
is_slot day hour r = eq_date r.dt day && eq_ℤ r.hour hour

abbrev closed_over : ReconRow → ReconRow → ReconRow
closed_over new old = record new { is_done = old.is_done || new.is_done }

-- `INSERT … ON CONFLICT (hour, dt) DO UPDATE …`: the rows, and the row of the slot.
unfoldable pub upsert : ReconRow → List ReconRow → List ReconRow × ReconRow
upsert new [] = (new ∷ [], new)
upsert new (r ∷ rs) =
    let (others, row) = upsert new rs in
    if is_slot new.dt new.hour r
    then (closed_over new r ∷ rs, closed_over new r)
    else (r ∷ others, row)

module _ (x : Platform) where
  open x use {
    Decimal, Numeric, date_in, hash_int8, hash_text, bit_xor, int_out, numeric_out, reconciliation,
  }

  -- `trade_id || ':' || order_id || ':' || side || ':' || filled_quantity::text || ':' || execution_rate::text`
  abbrev tuple_text : TradeRow Numeric → Text
  tuple_text r =
      int_out r.key.trade_id
      ++ 58 ∷ int_out r.key.order_id
      ++ 58 ∷ int_out r.side
      ++ 58 ∷ numeric_out r.filled_quantity
      ++ 58 ∷ numeric_out r.execution_rate

  abbrev add_row : TradeRow Numeric → LocalChecksum → LocalChecksum
  add_row r c = record {
    v1 = bit_xor (bit_xor (hash_int8 r.key.trade_id) (hash_int8 r.key.order_id)) c.v1;
    v2 = bit_xor (hash_text (tuple_text r)) c.v2;
    trades = c.trades + 1;
  }

  -- `WHERE trading_day = $1 AND executed_at >= … AND executed_at < …`
  abbrev pub covered : Date → ℕ → TradeRow Numeric → Bool
  covered day hour r = eq_date r.key.trading_day day && in_window day hour r.executed_at

  -- The aggregates over the rows of the hour; `COALESCE` makes 0 of an empty window.
  unfoldable pub checksums : Date → ℕ → List (TradeRow Numeric) → LocalChecksum
  unfolding in_window
  checksums day hour [] = record { v1 = pos 0; v2 = pos 0; trades = 0 }
  checksums day hour (r ∷ rs) =
      let rest = checksums day hour rs in if covered day hour r then add_row r rest else rest

  abbrev pub local_at : Option Date → ℕ → Db Numeric → Result LocalChecksum
  local_at none hour d = err database_failed
  local_at (some day) hour d = ok (checksums day hour d.trades)

  unfoldable pub local_step : Text → ℕ → Action x LocalChecksum
  unfolding query checksums
  local_step day hour =
      annotate x (codes "local reconciliation hash") (query x (local_at (date_in day) hour))

  abbrev pub reconciliation_request : ReconcileParams → Text × Text → ReconciliationRequest
  reconciliation_request p (from, to) = record {
    trading_day = some p.day;
    dt_from = some from;
    dt_to = some to;
    partner_id = some p.partner_id;
  }

  unfoldable pub remote_step : ReconcileParams → Text × Text → Action x ReconciliationResponse
  remote_step p bounds w = (
    wrap (codes "reconciliation") (reconciliation w.tick (reconciliation_request p bounds)),
    advance w,
  )

  abbrev pub info_of :
      Text × Text → LocalChecksum → ReconcileComparison → ReconciliationResponse → ReconcileInfo
  info_of (from, to) local cmp resp = record {
    local_hash = cmp.local;
    remote_hash = cmp.remote;
    hash_version = cmp.version;
    local_trades = pos local.trades;
    remote_trades = cmp.remote_trades;
    dt_from = from;
    dt_to = to;
    local_hash_v1 = local.v1;
    remote_hash_v1 = get_int resp.hash_check;
  }

  abbrev upsert_db : ReconRow → Db Numeric → Option ((Bool × Bool) × Db Numeric)
  upsert_db new d =
      let (rows, row) = upsert new d.recons in
      some ((row.is_matched, row.is_done), record d { recons = rows })

  abbrev pub upsert_at :
      Option Date → ℕ → Bool → ReconcileInfo → Db Numeric → Option ((Bool × Bool) × Db Numeric)
  upsert_at none hour matched info d = none
  upsert_at (some day) hour matched info d =
      upsert_db
        (record { dt = day; hour = pos hour; is_matched = matched; info = info; is_done = matched })
        d

  unfoldable pub record_step : Text → ℕ → Bool → ReconcileInfo → Action x (Bool × Bool)
  unfolding upsert exec
  record_step day hour matched info =
      annotate x (codes "record reconciliation")
        (exec x (upsert_at (date_in day) hour matched info))

  abbrev pub result_of :
      ReconcileParams → LocalChecksum → ReconcileComparison → Bool × Bool → Action x ReconcileResult
  result_of p local cmp (matched, closed) = pure x (record {
    day = p.day;
    hour = p.hour;
    local_hash = cmp.local;
    remote_hash = cmp.remote;
    hash_version = cmp.version;
    local_trades = pos local.trades;
    remote_trades = cmp.remote_trades;
    matched = matched;
    done = closed;
  })

  unfoldable pub after_remote :
      ReconcileParams
      → ℕ
      → Text × Text
      → LocalChecksum
      → ReconciliationResponse
      → Action x ReconcileResult
  unfolding record_step compare_checksums
  after_remote p hour bounds local resp =
      let cmp = compare_checksums local.v1 local.v2 (pos local.trades) resp in
      do
        flags ← record_step p.day hour cmp.matched (info_of bounds local cmp resp)
        result_of p local cmp flags

  unfoldable pub after_local :
      ReconcileParams → ℕ → Text × Text → LocalChecksum → Action x ReconcileResult
  unfolding remote_step after_remote
  after_local p hour bounds local = do
    resp ← remote_step p bounds
    after_remote p hour bounds local resp

  unfoldable pub reconcile_hour : ReconcileParams → ℕ → Text × Text → Action x ReconcileResult
  unfolding local_step after_local
  reconcile_hour p hour bounds = do local ← local_step p.day hour; after_local p hour bounds local

  abbrev pub reconcile_window_of :
      ReconcileParams → Option ℕ → Result (Text × Text) → Action x ReconcileResult
  reconcile_window_of p (some hour) (ok bounds) = reconcile_hour p hour bounds
  reconcile_window_of p hour (err e) = raise x e
  reconcile_window_of p none (ok bounds) = raise x invalid_hour

  -- `Reconcile`
  unfoldable pub reconcile : Option ReconcileParams → Action x ReconcileResult
  unfolding reconcile_hour window
  reconcile none = raise x partner_id_required
  reconcile (some p) =
      if is_empty p.partner_id
      then raise x partner_id_required
      else reconcile_window_of p (valid_hour p.hour) (window p)
