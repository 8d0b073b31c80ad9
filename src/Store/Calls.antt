-- ===== src/Store/Calls.antt =====
-- A run of the SDK: the database, the number of calls made, and what the other parties have seen. An
-- action returns its result and the state after it, also when it fails: what was written stays written.
use fx_sdk.Common.{ℕ, ◌+◌, Text, codes, Option, some, List, ◌∷◌}
use fx_sdk.Errors.{Error, context, database_failed, Result, ok, err}
use fx_sdk.Types.{TradeEvent, OrderEvent}
use fx_sdk.Wire.{TradeRequest, SubmitOrderRequest, CancelOrderRequest}
use fx_sdk.Platform.{Platform, Outcome, done, refused, in_doubt}
use fx_sdk.Store.Tables.{Db}

-- What leaves the SDK: an ack on the trade stream, a call of the settlement handler, a request.
pub data Effect (Decimal : Type 0) : Type 0 where
  acked : TradeRequest → Effect Decimal
  handled : TradeEvent Decimal → Effect Decimal
  submitted : SubmitOrderRequest → Effect Decimal
  cancel_sent : CancelOrderRequest → Effect Decimal
  notified : OrderEvent → Effect Decimal

pub record World (Numeric Decimal : Type 0) : Type 0 where
  pub db : Db Numeric
  pub tick : ℕ
  pub trace : List (Effect Decimal)

abbrev pub advance : {N D : Type 0} → World N D → World N D
advance w = record w { tick = w.tick + 1 }

module _ {N D : Type 0} where
  abbrev pub emit : Effect D → World N D → World N D
  emit s w = record w { trace = s ∷ w.trace }

abbrev pub Action : Platform → Type 0 → Type 0
Action x A = World x.Numeric x.Decimal → Result A × World x.Numeric x.Decimal

module _ {N D A : Type 0} where
  unfoldable pub exec_with : Outcome → Option (A × Db N) → World N D → Result A × World N D
  exec_with done (some (a, d)) w = (ok a, record w { db = d })
  exec_with in_doubt (some (a, d)) w = (err database_failed, record w { db = d })
  exec_with _ _ w = (err database_failed, w)

  unfoldable pub query_with : Outcome → Result A → World N D → Result A × World N D
  query_with done r w = (r, w)
  query_with _ r w = (err database_failed, w)

  -- `tx.Commit`, where `w1` is the state at `Begin` and `w2` that after the body
  unfoldable pub commit_with : Outcome → A → World N D → World N D → Result A × World N D
  commit_with done a w1 w2 = (ok a, w2)
  commit_with refused a w1 w2 =
      (err (context (codes "commit trade tx") database_failed), record w2 { db = w1.db })
  commit_with in_doubt a w1 w2 = (err (context (codes "commit trade tx") database_failed), w2)

module _ (x : Platform) {A : Type 0} where
  -- A statement that may write; `none` is an error of the statement itself, such as a failed cast.
  unfoldable pub exec : (Db x.Numeric → Option (A × Db x.Numeric)) → Action x A
  unfolding exec_with
  exec s w = exec_with (x.outcome w.tick) (s w.db) (advance w)

  -- A statement that only reads.
  unfoldable pub query : (Db x.Numeric → Result A) → Action x A
  unfolding query_with
  query q w = query_with (x.outcome w.tick) (q w.db) (advance w)

  unfoldable pub finish : Result A → World x.Numeric x.Decimal → Action x A
  unfolding commit_with
  finish (err e) w1 w2 = (err e, record w2 { db = w1.db })
  finish (ok a) w1 w2 = commit_with (x.outcome w2.tick) a w1 (advance w2)

  unfoldable pub begin_with : Outcome → Action x A → Action x A
  unfolding finish
  begin_with done body w = let (r, w2) = body w in finish r w w2
  begin_with _ body w = (err (context (codes "begin trade tx") database_failed), w)

  -- `Begin`, the body, and `Commit`; an error rolls back (`defer tx.Rollback`).
  unfoldable pub transaction : Action x A → Action x A
  unfolding begin_with
  transaction body w = begin_with (x.outcome w.tick) body (advance w)

  abbrev pub pure : A → Action x A
  pure a w = (ok a, w)

  abbrev pub raise : Error → Action x A
  raise e w = (err e, w)

  abbrev pub lift : Result A → Action x A
  lift r w = (r, w)

  -- `fmt.Errorf("words: %w", err)`
  abbrev pub annotate_result :
      Text → Result A × World x.Numeric x.Decimal → Result A × World x.Numeric x.Decimal
  annotate_result words (ok a, w) = (ok a, w)
  annotate_result words (err e, w) = (err (context words e), w)

  -- A call whose error is only logged.
  abbrev pub logged : Action x A → World x.Numeric x.Decimal → World x.Numeric x.Decimal
  logged m w = (m w).1

  abbrev pub annotate : Text → Action x A → Action x A
  annotate words m w = annotate_result words (m w)

infixl 5 ◌>>=◌
abbrev pub ◌>>=◌ :
    {N D A B : Type 0}
    → (World N D → Result A × World N D)
    → (A → World N D → Result B × World N D)
    → World N D
    → Result B × World N D
◌>>=◌ m f w = let (r, w') = m w in elim r [ ok a ↦ f a w' | err e ↦ (err e, w') ]
