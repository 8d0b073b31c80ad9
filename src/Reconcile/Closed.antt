-- ===== src/Reconcile/Closed.antt =====
-- A closed hour stays closed: `is_done` is never taken back.

use fx_sdk.Reconcile.Run.{is_slot, upsert}
use fx_sdk.Platform.{Platform}
use fx_sdk.Time.Date.{Date, eq_date-eq}
use fx_sdk.Common.{Bool, List, [], arith, eq_ℤ_iff, false, if◌then◌else◌, true, ℤ, ◌∷◌, ◌≡◌}
use fx_sdk.Store.{Action, ReconRow, World}

-- Whether the row of a slot is marked as done.
abbrev pub is_closed : Date → ℤ → List ReconRow → Bool
is_closed day hour [] = false
is_closed day hour (r ∷ rs) = if is_slot day hour r then r.is_done else is_closed day hour rs

pub upsert-is_closed :
    (day : Date) (hour : ℤ) (new : ReconRow) (rs : List ReconRow)
    → is_closed day hour rs ≡ true
    → is_closed day hour (upsert new rs).0 ≡ true
unfolding upsert
upsert-is_closed day hour new [] h = cc
upsert-is_closed day hour new (r ∷ rs) h =
    ground
      (arith, upsert-is_closed day hour new rs, eq_date-eq r.dt new.dt, eq_ℤ_iff r.hour new.hour)

module _ (x : Platform) (day : Date) (hour : ℤ) where
  open x use {Decimal, Numeric, date_in}

  -- What keeps the slot closed.
  pub record KeepsClosed {A : Type 0} (m : Action x A) : Type 0 where
    pub stays :
        (w : World Numeric Decimal)
        → is_closed day hour w.db.recons ≡ true
        → is_closed day hour (m w).1.db.recons ≡ true
