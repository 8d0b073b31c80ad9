-- ===== src/Reconcile/Diff.antt =====
-- `compareTrade` and `sameDecimal` of go/v1/reconcile.go: the fields on which two copies of a trade differ.
use mathlib.Core.Path.{subst}
use fx_sdk.Platform.{Platform}
use fx_sdk.Types.{LocalTrade, Trade, TradeType}
use fx_sdk.Common.{
  Bool, List, Option, Text, [], codes, eq_text, eq_ℤ, eq_ℤ_iff, false, none, pos, refl, some, true,
  ◌||◌, ◌↔◌, ◌∷◌, ◌≡◌, arith, eq_text_iff, inl, inr, some-injective, sym, ◌∙◌, ◌⊎◌,
}

module _ (x : Platform) where
  open x use {Decimal, parse_decimal, equal}

  abbrev same_values : Text → Text → Option Decimal → Option Decimal → Bool
  same_values a b (some da) (some eb) = equal da eb
  same_values a b (some da) none = eq_text a b
  same_values a b none eb = eq_text a b

  -- `sameDecimal`
  unfoldable pub same_decimal : Text → Text → Bool
  same_decimal a b = same_values a b (parse_decimal a) (parse_decimal b)

  abbrev is_unreported : TradeType → Bool
  is_unreported t = eq_ℤ t (pos 0)

  -- The trade types agree, or one side does not report its type.
  abbrev pub agree_type : TradeType → TradeType → Bool
  agree_type a b = is_unreported a || (is_unreported b || eq_ℤ a b)

  abbrev field_unless : Bool → Text → List Text → List Text
  field_unless true name rest = rest
  field_unless false name rest = name ∷ rest

  -- `compareTrade`
  unfoldable pub compare_trade : Trade → LocalTrade → List Text
  unfolding same_decimal
  compare_trade core local = field_unless (eq_ℤ core.ref_id local.ref_id) (codes "ref_id") (
      field_unless (eq_ℤ core.side local.side) (codes "side") (
        field_unless (same_decimal core.filled_quantity local.filled_quantity)
          (codes "filled_quantity")
          (field_unless (same_decimal core.execution_rate local.execution_rate)
            (codes "execution_rate")
            (field_unless (agree_type core.trade_type local.trade_type) (codes "trade_type") []))))

  -- Two texts of one amount: both are decimals and these are equal, or one of them is no decimal and they
  -- are the same text.
  abbrev pub SameAmount : Text → Text → Type 0
  SameAmount a b =
      ((da : Decimal) × (eb : Decimal) × (parse_decimal a ≡ some da)
        × (parse_decimal b ≡ some eb)
        × (equal da eb ≡ true))
      ⊎ (((parse_decimal a ≡ none) ⊎ (parse_decimal b ≡ none)) × (a ≡ b))

  same_decimal-SameAmount : (a b : Text) → (same_decimal a b ≡ true) ↔ SameAmount a b
  unfolding same_decimal
  same_decimal-SameAmount a b = go (parse_decimal a) (parse_decimal b) refl refl
    where
      go :
          (o p : Option Decimal)
          → parse_decimal a ≡ o
          → parse_decimal b ≡ p
          → (same_values a b o p ≡ true) ↔ SameAmount a b
      go (some da) (some eb) h k = (
        (λ e. inl (da, eb, h, k, e)),
        λ s. elim s [
          | inl (da', eb', h', k', e) ↦
              let left : da' ≡ da = some-injective (sym h' ∙ h) in
              let right : eb' ≡ eb = some-injective (sym k' ∙ k) in
              subst (λ (v : Decimal). equal da v ≡ true) right
                (subst (λ (v : Decimal). equal v eb' ≡ true) left e)
          | inr (inl unread, same) ↦ let wrong : some da ≡ none = sym h ∙ unread in cc
          | inr (inr unread, same) ↦ let wrong : some eb ≡ none = sym k ∙ unread in cc
        ],
      )
      go (some da) none h k = (
        (λ e. inr (inr k, (eq_text_iff a b).0 e)),
        λ s. elim s [
          | inl (da', eb', h', k', e) ↦ let wrong : some eb' ≡ none = sym k' ∙ k in cc
          | inr (unread, same) ↦ (eq_text_iff a b).1 same
        ],
      )
      go none p h k = (
        (λ e. inr (inl h, (eq_text_iff a b).0 e)),
        λ s. elim s [
          | inl (da', eb', h', k', e) ↦ let wrong : some da' ≡ none = sym h' ∙ h in cc
          | inr (unread, same) ↦ (eq_text_iff a b).1 same
        ],
      )

  -- Two trade types that do not disagree: the zero of either side stands for one that is not reported.
  abbrev pub SameType : TradeType → TradeType → Type 0
  SameType a b = (a ≡ pos 0) ⊎ ((b ≡ pos 0) ⊎ (a ≡ b))

  agree_type-SameType : (a b : TradeType) → (agree_type a b ≡ true) ↔ SameType a b
  agree_type-SameType a b = ground (arith, eq_ℤ_iff a (pos 0), eq_ℤ_iff b (pos 0), eq_ℤ_iff a b)

  -- Two copies of a trade with the same values: the order's id, the side, the two amounts, and the type where
  -- both sides report it.
  pub record Agree (core : Trade) (local : LocalTrade) : Type 0 where
    pub ref_same : core.ref_id ≡ local.ref_id
    pub side_same : core.side ≡ local.side
    pub filled_same : SameAmount core.filled_quantity local.filled_quantity
    pub rate_same : SameAmount core.execution_rate local.execution_rate
    pub type_same : SameType core.trade_type local.trade_type

  field_unless-nil :
      (b : Bool) (name : Text) (rest : List Text)
      → (field_unless b name rest ≡ []) ↔ ((b ≡ true) × (rest ≡ []))
  field_unless-nil true name rest = ((λ h. (refl, h)), λ h. h.1)
  field_unless-nil false name rest = ((λ h. cc), λ h. cc)

  -- No field is reported exactly when the two copies have the same order reference and side, amounts that
  -- are equal as decimals, or as texts where one is no decimal, and trade types that are equal or of which
  -- one is not reported.
  pub compare_trade-Agree :
      (core : Trade) (local : LocalTrade) → (compare_trade core local ≡ []) ↔ Agree core local
  unfolding compare_trade
  compare_trade-Agree core local = (forward, backward)
    where
      forward : compare_trade core local ≡ [] → Agree core local
      forward h =
          let (a, h1) = (field_unless-nil _ _ _).0 h in
          let (b, h2) = (field_unless-nil _ _ _).0 h1 in
          let (c, h3) = (field_unless-nil _ _ _).0 h2 in
          let (d, h4) = (field_unless-nil _ _ _).0 h3 in
          let (e, _) = (field_unless-nil _ _ _).0 h4 in
          record {
            ref_same = (eq_ℤ_iff core.ref_id local.ref_id).0 a;
            side_same = (eq_ℤ_iff core.side local.side).0 b;
            filled_same = (same_decimal-SameAmount core.filled_quantity local.filled_quantity).0 c;
            rate_same = (same_decimal-SameAmount core.execution_rate local.execution_rate).0 d;
            type_same = (agree_type-SameType core.trade_type local.trade_type).0 e;
          }

      backward : Agree core local → compare_trade core local ≡ []
      backward a = (field_unless-nil _ _ _).1 (
        (eq_ℤ_iff core.ref_id local.ref_id).1 a.ref_same,
        (field_unless-nil _ _ _).1 (
          (eq_ℤ_iff core.side local.side).1 a.side_same,
          (field_unless-nil _ _ _).1 (
            (same_decimal-SameAmount core.filled_quantity local.filled_quantity).1 a.filled_same,
            (field_unless-nil _ _ _).1 (
              (same_decimal-SameAmount core.execution_rate local.execution_rate).1 a.rate_same,
              (field_unless-nil _ _ _).1
                  ((agree_type-SameType core.trade_type local.trade_type).1 a.type_same, refl),
            ),
          ),
        ),
      )
