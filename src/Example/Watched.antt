-- ===== src/Example/Watched.antt =====
-- What the background work of the example program (go/example/main.go) leaves.

use mathlib.Core.Path.{subst}
use native.Mathlib.Decide.{dec_lt}
use fx_sdk.Client.Reads.{reconcile_diff-Follows}
use fx_sdk.Reconcile.Drill.{reconcile_diff}
use fx_sdk.Time.Layout.{parse_day, format_day, parse_day-format_day}
use fx_sdk.Errors.{ok, Result}
use fx_sdk.Reconcile.Recorded.{is_recorded, reconcile-Recorded, find_slot-is_recorded}
use fx_sdk.Example.Watch.{
  after_reconcile, catch_up, handle_trade, reconcile_slot, slot_of, start_watch, then_last,
}
use fx_sdk.Client.Hours.{after_check-Follows, reconcile_repair-Follows}
use fx_sdk.Store.{World}
use fx_sdk.Reconcile.Repair.{Repaired, after_check, reconcile_repair}
use fx_sdk.Types.{ReconcileParams, resolved, ReconcileResult}
use fx_sdk.Platform.{Platform}
use fx_sdk.Time.Zone.{
  IsStamp, Stamp, in_time_zone, minus_window, previous_hour, today, in_time_zone-IsStamp,
  minus_window-IsStamp,
}
use fx_sdk.Client.Later.{Follows, Follows-refl, Follows-trans}
use fx_sdk.Time.Date.{Date}
use fx_sdk.Common.{
  Bool, Text, arith, eq_text, false, if◌then◌else◌, is_empty, none, pos, refl, some, suc, true,
  zero, ℕ, ◌+◌, ◌<◌, ◌≡◌, ◌≤◌, ◌⊎◌, ap, some-injective, sym, ◌/◌, ◌∙◌, inl, inr,
}
use fx_sdk.Reconcile.Answered.{Answers, NamesHour, reconcile_intro, valid_hour_intro}

module _ (x : Platform) where
  open x use {Decimal, Numeric, date_in}

  after_reconcile-Follows :
      (p : ReconcileParams) (r : Repaired x) → Follows x r.2 (after_reconcile x p r)
  after_reconcile-Follows p (some e, res, w) = Follows-refl x w
  after_reconcile-Follows p (none, none, w) = Follows-refl x w
  after_reconcile-Follows p (none, some res, w) = go (resolved res)
    where
      go : (b : Bool) → Follows x w (if b then w else (reconcile_diff x (some p) w).1)
      go true = Follows-refl x w
      go false = reconcile_diff-Follows x (some p) w

  pub reconcile_slot-Follows :
      (partner day : Text) (hour : ℕ) (w : World Numeric Decimal)
      → Follows x w (reconcile_slot x partner day hour w)
  unfolding reconcile_slot
  reconcile_slot-Follows partner day hour w =
      let p = slot_of x partner day hour in
      Follows-trans x (reconcile_repair-Follows x (some (handle_trade x)) (some p) w)
        (after_reconcile-Follows p (reconcile_repair x (some (handle_trade x)) (some p) w))

  pub catch_up-Follows :
      (stopped : ℕ → Bool) (partner day : Text) (left h : ℕ) (w : World Numeric Decimal)
      → Follows x w (catch_up x stopped partner day left h w).1
  unfolding catch_up
  catch_up-Follows stopped partner day zero h w = Follows-refl x w
  catch_up-Follows stopped partner day (suc left) h w =
      go (stopped h)
        (catch_up-Follows stopped partner day left (h + 1) (reconcile_slot x partner day h w))
    where
      rest : Bool × World Numeric Decimal
      rest = catch_up x stopped partner day left (h + 1) (reconcile_slot x partner day h w)

      go :
          (b : Bool)
          → Follows x (reconcile_slot x partner day h w) rest.1
          → Follows x w (if◌then◌else◌ {A = Bool × World Numeric Decimal} b (false, w) rest).1
      go true f = Follows-refl x w
      go false f = Follows-trans x (reconcile_slot-Follows partner day h w) f

  module _ (a : Answers x) (partner day : Text) (date : Date) (given : is_empty partner ≡ false)
      (parsed : parse_day day ≡ some date) (read : date_in day ≡ some date) where
    names : (h : ℕ) → h < 24 → NamesHour x (slot_of x partner day h) date h
    names h lt = record {
      partner_given = given;
      hour_eq = refl;
      hour_lt = lt;
      parsed = parsed;
      read = read;
    }

    HasRow : ℕ → World Numeric Decimal → Type 0
    HasRow h w = is_recorded date (pos h) w.db.recons ≡ true

    -- The first check of the slot leaves its row, whatever the rest of the repair does.
    reconcile_slot-is_recorded :
        (h : ℕ) (w : World Numeric Decimal) → h < 24 → HasRow h (reconcile_slot x partner day h w)
    unfolding reconcile_slot reconcile_repair HasRow
    reconcile_slot-is_recorded h w lt =
        let p = slot_of x partner day h in
        let (r, w1, ran) = reconcile_intro x a p date h (names h lt) w in
        let row = reconcile-Recorded x p w ran in
        let f = after_check-Follows x (some (handle_trade x)) p (ok r, w1) in
        let g = after_reconcile-Follows p (after_check x (some (handle_trade x)) p (ok r, w1)) in
        let day_same : row.day ≡ date = some-injective (sym row.day_eq ∙ read) in
        let hour_same : row.hour ≡ h =
          some-injective (sym row.hour_eq ∙ valid_hour_intro x a p date h (names h lt)) in
        let base : is_recorded date (pos h) w1.db.recons ≡ true =
          subst (λ (i : ℕ). is_recorded date (pos i) w1.db.recons ≡ true) hour_same
            (subst (λ (d : Date). is_recorded d (pos row.hour) w1.db.recons ≡ true) day_same
              (find_slot-is_recorded row.day (pos row.hour) w1.db.recons row.row_eq)) in
        subst (λ (v : World Numeric Decimal). is_recorded date (pos h) v.db.recons ≡ true)
          (sym (
            ap
              (λ (o : Result ReconcileResult × World Numeric Decimal).
                after_reconcile x p (after_check x (some (handle_trade x)) p o))
              ran))
          (g.later.recorded date (pos h) (f.later.recorded date (pos h) base))

    catch_up-is_recorded :
        (stopped : ℕ → Bool) (running : (h : ℕ) → stopped h ≡ false) (left h : ℕ)
        (w : World Numeric Decimal) (i : ℕ)
        → h + left ≤ 24
        → h ≤ i
        → i < h + left
        → HasRow i (catch_up x stopped partner day left h w).1
    unfolding catch_up HasRow
    catch_up-is_recorded stopped running zero h w i bound low high = absurd (omega arith)
    catch_up-is_recorded stopped running (suc left) h w i bound low high =
        let w1 = reconcile_slot x partner day h w in
        rw (running h) (elim (dec_lt h i) [
          | yes lt ↦
              catch_up-is_recorded stopped running left (h + 1) w1 i (omega arith) (omega arith)
                (omega arith)
          | no ge ↦
              let same : h ≡ i = omega arith in
              (catch_up-Follows stopped partner day left (h + 1) w1).later.recorded date (pos i) (
                subst (λ (j : ℕ). is_recorded date (pos j) w1.db.recons ≡ true) same
                  (reconcile_slot-is_recorded h w (omega arith)))
        ])

    catch_up_ended :
        (stopped : ℕ → Bool) (running : (h : ℕ) → stopped h ≡ false) (left h : ℕ)
        (w : World Numeric Decimal)
        → (catch_up x stopped partner day left h w).0 ≡ true
    unfolding catch_up
    catch_up_ended stopped running zero h w = refl
    catch_up_ended stopped running (suc left) h w =
        rw (running h)
          (catch_up_ended stopped running left (h + 1) (reconcile_slot x partner day h w))

    then_last-is_recorded :
        (stopped : ℕ → Bool) (running : (h : ℕ) → stopped h ≡ false) (last : ℕ) (lt : last < 24)
        (b : Bool) (w : World Numeric Decimal) (h : ℕ)
        → (h ≡ last) ⊎ ((b ≡ true) × (h < last))
        → HasRow h
            (then_last x partner day last (
              if◌then◌else◌ {A = Bool × World Numeric Decimal} b
                (catch_up x stopped partner day last 0 w)
                (true, w))).1
    unfolding HasRow
    then_last-is_recorded stopped running last lt b w h case = go b case
      where
        slot :
            (v : World Numeric Decimal) → h ≡ last → HasRow h (reconcile_slot x partner day last v)
        slot v same =
            subst
              (λ (i : ℕ).
                is_recorded date (pos h) (reconcile_slot x partner day i v).db.recons ≡ true)
              same (reconcile_slot-is_recorded h v (omega arith))

        ended :
            (r : Bool × World Numeric Decimal)
            → r.0 ≡ true
            → (h ≡ last) ⊎ HasRow h r.1
            → HasRow h (then_last x partner day last r).1
        ended (false, v) e k = cc
        ended (true, v) e (inl same) = slot v same
        ended (true, v) e (inr row) =
            (reconcile_slot-Follows partner day last v).later.recorded date (pos h) row

        go :
            (b : Bool)
            → (h ≡ last) ⊎ ((b ≡ true) × (h < last))
            → HasRow h
                (then_last x partner day last (
                  if◌then◌else◌ {A = Bool × World Numeric Decimal} b
                    (catch_up x stopped partner day last 0 w)
                    (true, w))).1
        go false (inl same) = slot w same
        go false (inr (t, low)) = cc
        go true (inl same) =
            ended (catch_up x stopped partner day last 0 w)
              (catch_up_ended stopped running last 0 w) (inl same)
        go true (inr (t, low)) =
            ended (catch_up x stopped partner day last 0 w)
              (catch_up_ended stopped running last 0 w)
              (inr (
                catch_up-is_recorded stopped running last 0 w h (omega arith) (omega arith)
                  (omega arith)))

  -- Of every hour of the day that is over, the start of the watch leaves the outcome of a reconciliation,
  -- if the partner id is not empty, the context is not done before, every database call and every
  -- reconciliation of the Core succeeds, and the database reads the day as the clock prints it; and of
  -- the last hour also just after midnight, when it is of the day before.
  pub start_watch-is_recorded :
      (a : Answers x) (stopped : ℕ → Bool) (partner : Text) (clock clock' : Stamp)
      (w : World Numeric Decimal) (h : ℕ)
      → is_empty partner ≡ false
      → ((i : ℕ) → stopped i ≡ false)
      → IsStamp clock
      → (minus_window (in_time_zone clock)).date.year < 10000
      → date_in (previous_hour clock).0 ≡ some (minus_window (in_time_zone clock)).date
      → (h ≡ (previous_hour clock).1)
        ⊎ ((eq_text (previous_hour clock).0 (today clock') ≡ true) × (h < (previous_hour clock).1))
      → is_recorded
          (minus_window (in_time_zone clock)).date
          (pos h)
          (start_watch x stopped partner clock clock' w).1.db.recons
        ≡ true
  unfolding start_watch previous_hour HasRow
  start_watch-is_recorded a stopped partner clock clock' w h given running valid year read case =
      let t = minus_window (in_time_zone clock) in
      let v : IsStamp t = minus_window-IsStamp (in_time_zone-IsStamp valid) in
      let last_lt : t.secs / 3600 < 24 = omega (arith, v.secs_lt) in
      then_last-is_recorded a partner (format_day t.date) t.date given
        (parse_day-format_day v.date_ok year) read stopped running (t.secs / 3600) last_lt
        (eq_text (format_day t.date) (today clock')) w h case
