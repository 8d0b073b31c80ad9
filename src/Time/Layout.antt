-- ===== src/Time/Layout.antt =====
-- The layouts "2006-01-02" and "2006-01-02 15:04:05" of Go's `time.Parse` and `Format`, on bytes.
use fx_sdk.Common.{
  ℕ, ◌+◌, ◌-◌, ◌*◌, ◌/◌, ◌%◌, ◌≤◌, ◌<◌, ◌≡◌, refl, Bool, true, false, ◌&&◌, arith, ltb, leb, ◌==◌,
  if◌then◌else◌, ==_iff, Text, [], ◌∷◌, ◌++◌, ◌∙◌, Option, none, some,
}
use fx_sdk.Time.Date.{Date, IsValid, days_in, days_in_bounds}

-- The byte of a decimal digit.
abbrev digit : ℕ → ℕ
digit n = 48 + n % 10

abbrev is_digit : ℕ → Bool
is_digit c = leb 48 c && leb c 57

abbrev two_digits : ℕ → Text
two_digits n = digit (n / 10) ∷ digit n ∷ []

abbrev four_digits : ℕ → Text
four_digits n = digit (n / 1000) ∷ digit (n / 100) ∷ digit (n / 10) ∷ digit n ∷ []

-- The year is padded to four digits. The source formats no date after the year 10000, the successor
-- of the last date that it can parse; five digits are right below the year 100000.
abbrev year_digits : ℕ → Text
year_digits y = if ltb y 10000 then four_digits y else digit (y / 10000) ∷ four_digits y

-- `t.Format(dayLayout)`
unfoldable pub format_day : Date → Text
format_day d = year_digits d.year ++ 45 ∷ two_digits d.month ++ 45 ∷ two_digits d.day

-- `t.Format(timestampLayout)`, of a date and the seconds since its midnight.
unfoldable pub format_timestamp : Date → ℕ → Text
unfolding format_day
format_timestamp d s =
    format_day d
    ++ 32 ∷ two_digits (s / 3600)
    ++ 58 ∷ two_digits (s / 60 % 60)
    ++ 58 ∷ two_digits (s % 60)

-- Month and day in the range of the calendar.
unfoldable pub check_date : Date → Option Date
check_date d =
    if leb 1 d.month && leb d.month 12 && leb 1 d.day && leb d.day (days_in d.year d.month)
    then some d
    else none

parse_fields : (y1 y2 y3 y4 s1 m1 m2 s2 d1 d2 : ℕ) → Option Date
unfolding check_date
parse_fields y1 y2 y3 y4 s1 m1 m2 s2 d1 d2 =
    if is_digit y1
      && is_digit y2
      && is_digit y3
      && is_digit y4
      && s1 == 45
      && is_digit m1
      && is_digit m2
      && s2 == 45
      && is_digit d1
      && is_digit d2
    then check_date (record {
      year = (y1 - 48) * 1000 + (y2 - 48) * 100 + (y3 - 48) * 10 + (y4 - 48);
      month = (m1 - 48) * 10 + (m2 - 48);
      day = (d1 - 48) * 10 + (d2 - 48);
    })
    else none

-- `time.Parse(dayLayout, s)`: four digits, two digits and two digits, and no other text.
unfoldable pub parse_day : Text → Option Date
unfolding parse_fields
parse_day (y1 ∷ y2 ∷ y3 ∷ y4 ∷ s1 ∷ m1 ∷ m2 ∷ s2 ∷ d1 ∷ d2 ∷ []) =
    parse_fields y1 y2 y3 y4 s1 m1 m2 s2 d1 d2
parse_day _ = none

digit-is_digit : (n : ℕ) → is_digit (digit n) ≡ true
digit-is_digit n = ground arith

pub check_date-eq : {d : Date} → IsValid d → check_date d ≡ some d
unfolding check_date
check_date-eq v = ground arith

-- A date that the check lets pass is itself, and valid.
pub check_date-some : (d : Date) {e : Date} → check_date d ≡ some e → (e ≡ d) × IsValid d
unfolding check_date
check_date-some d h = ground arith

four_digits_value :
    (n : ℕ)
    → n < 10000
    → (digit (n / 1000) - 48) * 1000
        + (digit (n / 100) - 48) * 100
        + (digit (n / 10) - 48) * 10
        + (digit n - 48)
      ≡ n
four_digits_value n h = omega arith

two_digits_value : (n : ℕ) → n < 100 → (digit (n / 10) - 48) * 10 + (digit n - 48) ≡ n
two_digits_value n h = omega arith

parse_fields-digits :
    (y m d : ℕ)
    → y < 10000
    → m < 100
    → d < 100
    → parse_fields
        (digit (y / 1000))
        (digit (y / 100))
        (digit (y / 10))
        (digit y)
        45
        (digit (m / 10))
        (digit m)
        45
        (digit (d / 10))
        (digit d)
      ≡ check_date (record { year = y; month = m; day = d })
unfolding parse_fields
parse_fields-digits y m d hy hm hd = rw (
  digit-is_digit (y / 1000),
  digit-is_digit (y / 100),
  digit-is_digit (y / 10),
  digit-is_digit y,
  digit-is_digit (m / 10),
  digit-is_digit m,
  digit-is_digit (d / 10),
  digit-is_digit d,
  four_digits_value y hy,
  two_digits_value m hm,
  two_digits_value d hd,
)

lt→ltb : (a b : ℕ) → a < b → ltb a b ≡ true
lt→ltb a b h = ground arith

-- A date of the calendar that is printed is parsed back, up to the year 9999.
pub parse_day-format_day :
    {d : Date} → IsValid d → d.year < 10000 → parse_day (format_day d) ≡ some d
unfolding parse_day format_day
parse_day-format_day {d} v h = rw (lt→ltb d.year 10000 h) (
    parse_fields-digits d.year d.month d.day h (omega arith)
      (omega (arith, days_in_bounds d.year d.month))
    ∙ check_date-eq v)

if-eq-some {ℓ} :
    {A : Type ℓ} (b : Bool) (x : Option A) {a : A}
    → (if b then x else none) ≡ some a
    → (b ≡ true) × (x ≡ some a)
if-eq-some true x h = (refl, h)
if-eq-some false x h = cc

&&-true : (a b : Bool) → (a && b) ≡ true → (a ≡ true) × (b ≡ true)
&&-true true true h = (refl, refl)
&&-true true false h = cc
&&-true false b h = cc

is_digit-bounds : (c : ℕ) → is_digit c ≡ true → (48 ≤ c) × (c ≤ 57)
is_digit-bounds c h = ground arith

two_digits_bytes :
    (a b : ℕ)
    → is_digit a ≡ true
    → is_digit b ≡ true
    → (digit (((a - 48) * 10 + (b - 48)) / 10) ≡ a) × (digit ((a - 48) * 10 + (b - 48)) ≡ b)
two_digits_bytes a b ha hb =
    let (p, q) = is_digit-bounds a ha in
    let (r, s) = is_digit-bounds b hb in (omega arith, omega arith)

module _ (y1 y2 y3 y4 : ℕ) (h1 : is_digit y1 ≡ true) (h2 : is_digit y2 ≡ true)
    (h3 : is_digit y3 ≡ true) (h4 : is_digit y4 ≡ true) where
  abbrev value : ℕ
  value = (y1 - 48) * 1000 + (y2 - 48) * 100 + (y3 - 48) * 10 + (y4 - 48)

  value-lt : value < 10000
  value-lt = omega (
    arith,
    is_digit-bounds y1 h1,
    is_digit-bounds y2 h2,
    is_digit-bounds y3 h3,
    is_digit-bounds y4 h4,
  )

  year_digits_bytes : year_digits value ≡ y1 ∷ y2 ∷ y3 ∷ y4 ∷ []
  year_digits_bytes =
      let b1 = is_digit-bounds y1 h1 in
      let b2 = is_digit-bounds y2 h2 in
      let b3 = is_digit-bounds y3 h3 in
      let b4 = is_digit-bounds y4 h4 in
      let e1 : digit (value / 1000) ≡ y1 = omega arith in
      let e2 : digit (value / 100) ≡ y2 = omega arith in
      let e3 : digit (value / 10) ≡ y3 = omega arith in
      let e4 : digit value ≡ y4 = omega arith in
      rw (lt→ltb value 10000 value-lt) (rw (e1, e2, e3, e4))

-- A text that is parsed is a valid date of a year below 10000, and prints as that same text.
module _ (y1 y2 y3 y4 s1 m1 m2 s2 d1 d2 : ℕ) {d : Date} where
  parse_fields-some :
      parse_fields y1 y2 y3 y4 s1 m1 m2 s2 d1 d2 ≡ some d
      → IsValid d
        × (d.year < 10000)
        × (format_day d ≡ y1 ∷ y2 ∷ y3 ∷ y4 ∷ s1 ∷ m1 ∷ m2 ∷ s2 ∷ d1 ∷ d2 ∷ [])
  unfolding parse_fields format_day
  parse_fields-some h =
      let (t, e) = if-eq-some _ _ h in
      let (t, g10) = &&-true _ _ t in
      let (t, g9) = &&-true _ _ t in
      let (t, g8) = &&-true _ _ t in
      let (t, g7) = &&-true _ _ t in
      let (t, g6) = &&-true _ _ t in
      let (t, g5) = &&-true _ _ t in
      let (t, g4) = &&-true _ _ t in
      let (t, g3) = &&-true _ _ t in
      let (g1, g2) = &&-true _ _ t in
      let fields : Date = record {
        year = value y1 y2 y3 y4 g1 g2 g3 g4;
        month = (m1 - 48) * 10 + (m2 - 48);
        day = (d1 - 48) * 10 + (d2 - 48);
      } in
      let (same, valid) = check_date-some fields e in
      rw same (
        valid,
        value-lt y1 y2 y3 y4 g1 g2 g3 g4,
        rw (
          year_digits_bytes y1 y2 y3 y4 g1 g2 g3 g4,
          (two_digits_bytes m1 m2 g6 g7).0,
          (two_digits_bytes m1 m2 g6 g7).1,
          (two_digits_bytes d1 d2 g9 g10).0,
          (two_digits_bytes d1 d2 g9 g10).1,
          (==_iff s1 45).0 g5,
          (==_iff s2 45).0 g8,
        ),
      )

-- Only the text that a date of the calendar is printed as is parsed as that date, and its year is at
-- most 9999.
pub parse_day-some :
    (t : Text) {d : Date} → parse_day t ≡ some d → IsValid d × (d.year < 10000) × (format_day d ≡ t)
unfolding parse_day
parse_day-some (y1 ∷ y2 ∷ y3 ∷ y4 ∷ s1 ∷ m1 ∷ m2 ∷ s2 ∷ d1 ∷ d2 ∷ []) h =
    parse_fields-some y1 y2 y3 y4 s1 m1 m2 s2 d1 d2 h
parse_day-some _ h = cc
