-- ===== src/Order/Check.antt =====
-- The checks of `SubmitOrder` in go/v1/order.go, which run before anything is stored or sent.

use mathlib.Core.Path.{subst}
use fx_sdk.Money.{check_decimal, max_decimal_places}
use fx_sdk.Errors.{
  Result, client_id_required, err, guard, invalid_counterparty_segment, invalid_order_type,
  limit_rate_required, ok, partner_id_required, segment_required, treasury_counterparty_only, ◌>>=◌,
  ◌>>◌, ok-injective, step_ok,
}
use fx_sdk.Platform.{Platform}
use fx_sdk.Types.{
  OrderType, Segment, SubmitOrderParams, any_counterparty, corporate, limit_order, market_order,
  retail, treasury,
}
use fx_sdk.Common.{
  Bool, Option, Text, [], codes, eq_ℤ, if◌then◌else◌, is_empty, ltb_ℤ, none, not, pos, some, true,
  ◌&&◌, ◌||◌, ◌≡◌, ◌≢◌, ◌⊎◌, arith, refl, some-injective, sym, ◌↔◌, ◌∙◌, eq_ℤ_iff, is_empty_iff,
  negsuc,
}

-- What the checks make of the parameters: the order type, and the rate and the smallest trade that
-- are kept, `nil` for a market order.
pub record Checked : Type 0 where
  pub order_type : OrderType
  pub limit_rate : Option Text
  pub min_trade_quantity : Option Text

-- `p.Segment < Retail || p.Segment > Treasury` is not the case.
abbrev pub is_segment : Segment → Bool
is_segment s = not (ltb_ℤ s retail || ltb_ℤ treasury s)

-- The order type, which is a limit order if it is left unset.
abbrev pub or_limit : OrderType → OrderType
or_limit t = if eq_ℤ t (pos 0) then limit_order else t

abbrev pub limit_rate_of : OrderType → Text → Result (Option Text)
limit_rate_of t rate =
    if eq_ℤ t market_order
    then ok none
    else if is_empty rate
    then err limit_rate_required
    else ok (some rate)

abbrev pub min_trade_quantity_of : OrderType → Text → Option Text
min_trade_quantity_of t min =
    if not (is_empty min) && not (eq_ℤ t market_order) then some min else none

-- The segments and the kind of the order, up to the check of the counterparty.
unfoldable pub check_kind : SubmitOrderParams → Result Checked
check_kind p = do
  guard (not (is_empty p.client_id)) client_id_required
  guard (not (is_empty p.partner_id)) partner_id_required
  guard (is_segment p.segment) segment_required
  let t = or_limit p.order_type
  guard (eq_ℤ t limit_order || eq_ℤ t market_order) invalid_order_type
  rate ← limit_rate_of t p.limit_rate
  guard (eq_ℤ p.counterparty_segment any_counterparty || eq_ℤ p.counterparty_segment treasury)
      invalid_counterparty_segment
  guard (not (eq_ℤ p.counterparty_segment treasury && not (eq_ℤ p.segment treasury)))
      treasury_counterparty_only
  ok (record {
    order_type = t;
    limit_rate = rate;
    min_trade_quantity = min_trade_quantity_of t p.min_trade_quantity;
  })

-- A limit order has a rate, and keeps its smallest trade if one is given.
abbrev pub IsLimit : SubmitOrderParams → Checked → Type 0
IsLimit p c =
    ((p.order_type ≡ pos 0) ⊎ (p.order_type ≡ limit_order))
    × (p.limit_rate ≢ [])
    × (c.order_type ≡ limit_order)
    × (c.limit_rate ≡ some p.limit_rate)
    × (c.min_trade_quantity
        ≡ (if is_empty p.min_trade_quantity then none else some p.min_trade_quantity))

-- A market order keeps neither.
abbrev pub IsMarket : SubmitOrderParams → Checked → Type 0
IsMarket p c =
    (p.order_type ≡ market_order)
    × (c.order_type ≡ market_order)
    × (c.limit_rate ≡ none)
    × (c.min_trade_quantity ≡ none)

-- What is accepted before the decimals are looked at, and what is kept of it.
pub record TermsOf (p : SubmitOrderParams) (c : Checked) : Type 0 where
  pub client_given : p.client_id ≢ []
  pub partner_given : p.partner_id ≢ []
  pub segment_known : (p.segment ≡ retail) ⊎ (p.segment ≡ corporate) ⊎ (p.segment ≡ treasury)
  pub counterparty :
      (p.counterparty_segment ≡ any_counterparty)
      ⊎ ((p.counterparty_segment ≡ treasury) × (p.segment ≡ treasury))
  pub kind : IsLimit p c ⊎ IsMarket p c

is_segment_iff :
    (s : Segment) → (is_segment s ≡ true) ↔ ((s ≡ retail) ⊎ (s ≡ corporate) ⊎ (s ≡ treasury))
is_segment_iff (pos n) = ground arith
is_segment_iff (negsuc n) = ground arith

check_kind_sound : (p : SubmitOrderParams) {c : Checked} → check_kind p ≡ ok c → TermsOf p c
unfolding check_kind
check_kind_sound p h = ground (
  arith,
  is_empty_iff p.client_id,
  is_empty_iff p.partner_id,
  is_segment_iff p.segment,
  is_empty_iff p.limit_rate,
  eq_ℤ_iff p.order_type (pos 0),
  eq_ℤ_iff p.order_type limit_order,
  eq_ℤ_iff p.order_type market_order,
  eq_ℤ_iff p.counterparty_segment any_counterparty,
  eq_ℤ_iff p.counterparty_segment treasury,
  eq_ℤ_iff p.segment treasury,
)

check_kind_complete : (p : SubmitOrderParams) {c : Checked} → TermsOf p c → check_kind p ≡ ok c
unfolding check_kind
check_kind_complete p t = ground (
  arith,
  is_empty_iff p.client_id,
  is_empty_iff p.partner_id,
  is_segment_iff p.segment,
  is_empty_iff p.limit_rate,
  eq_ℤ_iff p.order_type (pos 0),
  eq_ℤ_iff p.order_type limit_order,
  eq_ℤ_iff p.order_type market_order,
  eq_ℤ_iff p.counterparty_segment any_counterparty,
  eq_ℤ_iff p.counterparty_segment treasury,
  eq_ℤ_iff p.segment treasury,
)

module _ (x : Platform) where
  open x use {Decimal, parse_decimal, equal, trunc}

  abbrev check_optional : Text → Option Text → Result (Unit {0})
  check_optional field none = ok tt
  check_optional field (some value) = check_decimal x field value

  -- The precision of the decimals that are stored and sent.
  unfoldable pub check_decimals : SubmitOrderParams → Checked → Result (Unit {0})
  unfolding check_decimal
  check_decimals p c = do
    check_decimal x (codes "quantity") p.quantity
    check_optional (codes "limit_rate") c.limit_rate
    check_optional (codes "min_trade_quantity") c.min_trade_quantity

  unfoldable pub check_order : SubmitOrderParams → Result Checked
  unfolding check_kind check_decimals
  check_order p = do c ← check_kind p; check_decimals p c; ok c

  -- A decimal with at most six places.
  pub record HasScale (t : Text) : Type 0 where
    pub value : Decimal
    pub parsed : parse_decimal t ≡ some value
    pub exact : equal (trunc max_decimal_places value) value ≡ true

  abbrev pub OptionalScale : Option Text → Type 0
  OptionalScale none = Unit
  OptionalScale (some t) = HasScale t

  -- The parameters that are accepted, and what is kept of them.
  pub record Acceptable (p : SubmitOrderParams) (c : Checked) : Type 0 where
    pub terms : TermsOf p c
    pub quantity_scale : HasScale p.quantity
    pub rate_scale : OptionalScale c.limit_rate
    pub min_scale : OptionalScale c.min_trade_quantity

  check_decimal-HasScale : (field t : Text) → (check_decimal x field t ≡ ok tt) ↔ HasScale t
  unfolding check_decimal
  check_decimal-HasScale field t = go (parse_decimal t) refl
    where
      go :
          (o : Option Decimal)
          → parse_decimal t ≡ o
          → (check_decimal x field t ≡ ok tt) ↔ HasScale t
      go none h = (
        (λ q. absurd (ground arith)),
        (λ s. let no : some s.value ≡ none = sym s.parsed ∙ h in cc),
      )
      go (some d) h = (
        (λ q. record { value = d; parsed = h; exact = ground arith }),
        (λ s.
            let same : s.value ≡ d = some-injective (sym s.parsed ∙ h) in ground (arith, s.exact)),
      )

  check_optional-OptionalScale :
      (field : Text) (o : Option Text) → (check_optional field o ≡ ok tt) ↔ OptionalScale o
  check_optional-OptionalScale field none = ((λ q. tt), λ s. refl)
  check_optional-OptionalScale field (some t) = check_decimal-HasScale field t

  -- `SubmitOrder` goes past its checks exactly with the parameters that are acceptable: a client and a
  -- partner, a known segment, a counterparty restriction only to the treasury and only for it, a limit
  -- order with its rate or a market order, whose rate and smallest trade are dropped, and decimals with
  -- at most six places.
  pub check_order-Acceptable :
      (p : SubmitOrderParams) (c : Checked) → (check_order p ≡ ok c) ↔ Acceptable p c
  unfolding check_order check_decimals
  check_order-Acceptable p c = (forward, backward)
    where
      forward : check_order p ≡ ok c → Acceptable p c
      forward h =
          let (d, kind, h1) = step_ok (check_kind p) (λ d. check_decimals p d >> ok d) h in
          let (u, scales, same) = step_ok (check_decimals p d) (λ _. ok d) h1 in
          let (_, q, h2) =
            step_ok (check_decimal x (codes "quantity") p.quantity)
              (λ _.
                check_optional (codes "limit_rate") d.limit_rate
                >> check_optional (codes "min_trade_quantity") d.min_trade_quantity)
              scales in
          let (_, r, m) =
            step_ok (check_optional (codes "limit_rate") d.limit_rate)
              (λ _. check_optional (codes "min_trade_quantity") d.min_trade_quantity) h2 in
          subst (Acceptable p) (ok-injective same) (record {
            terms = check_kind_sound p kind;
            quantity_scale = (check_decimal-HasScale _ p.quantity).0 q;
            rate_scale = (check_optional-OptionalScale _ d.limit_rate).0 r;
            min_scale = (check_optional-OptionalScale _ d.min_trade_quantity).0 m;
          })

      backward : Acceptable p c → check_order p ≡ ok c
      backward a = rw (check_kind_complete p a.terms) (
          rw ((check_decimal-HasScale (codes "quantity") p.quantity).1 a.quantity_scale) (
            rw ((check_optional-OptionalScale (codes "limit_rate") c.limit_rate).1 a.rate_scale) (
              rw
                ((check_optional-OptionalScale (codes "min_trade_quantity") c.min_trade_quantity).1
                  a.min_scale)
                refl)))
