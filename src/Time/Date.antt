-- ===== src/Time/Date.antt =====
-- The proleptic Gregorian calendar of Go's `time` package: a date, its successor and predecessor
-- (`AddDate(0, 0, ±1)`), and the order of dates (`Before`, `After`).
use fx_sdk.Common.{
  ℕ, ◌+◌, ◌-◌, ◌%◌, ◌≤◌, ◌≡◌, refl, Bool, true, false, ◌&&◌, ◌||◌, not, arith, ltb, ◌==◌,
  if◌then◌else◌,
}

pub record Date : Type 0 where
  pub year : ℕ
  pub month : ℕ
  pub day : ℕ

abbrev pub is_leap : ℕ → Bool
is_leap y = y % 4 == 0 && (not (y % 100 == 0) || y % 400 == 0)

unfoldable pub days_in : ℕ → ℕ → ℕ
days_in y m =
    if m == 2
    then (if is_leap y then 29 else 28)
    else if m == 4 || m == 6 || m == 9 || m == 11
    then 30
    else 31

-- A month and a day that the calendar has.
pub record IsValid (d : Date) : Type 0 where
  pub month_pos : 1 ≤ d.month
  pub month_le : d.month ≤ 12
  pub day_pos : 1 ≤ d.day
  pub day_le : d.day ≤ days_in d.year d.month

-- `t.AddDate(0, 0, 1)` on a midnight.
unfoldable pub next_day : Date → Date
next_day d =
    if ltb d.day (days_in d.year d.month)
    then record d { day = d.day + 1 }
    else if ltb d.month 12
    then record d { month = d.month + 1; day = 1 }
    else record { year = d.year + 1; month = 1; day = 1 }

-- The day before, for a date after the first day of the year 0.
unfoldable pub prev_day : Date → Date
prev_day d =
    if ltb 1 d.day
    then record d { day = d.day - 1 }
    else if ltb 1 d.month
    then record d { month = d.month - 1; day = days_in d.year (d.month - 1) }
    else record { year = d.year - 1; month = 12; day = 31 }

-- `a.Before(b)` on midnights.
unfoldable pub before : Date → Date → Bool
before a b =
    if ltb a.year b.year
    then true
    else if ltb b.year a.year
    then false
    else if ltb a.month b.month
    then true
    else if ltb b.month a.month
    then false
    else ltb a.day b.day

abbrev pub eq_date : Date → Date → Bool
eq_date a b = a.year == b.year && (a.month == b.month && a.day == b.day)

pub eq_date_refl : (a : Date) → eq_date a a ≡ true
eq_date_refl a = ground arith

pub eq_date-eq : (a b : Date) → eq_date a b ≡ true → a ≡ b
eq_date-eq a b h = ground arith

pub days_in_bounds : (y m : ℕ) → (28 ≤ days_in y m) × (days_in y m ≤ 31)
unfolding days_in
days_in_bounds y m = ground arith

pub next_day-IsValid : {d : Date} → IsValid d → IsValid (next_day d)
unfolding next_day
next_day-IsValid {d} v =
    ground (arith, days_in_bounds d.year (d.month + 1), days_in_bounds (d.year + 1) 1)

days_in_december : (y : ℕ) → days_in y 12 ≡ 31
unfolding days_in
days_in_december y = refl

pub prev_day-IsValid : {d : Date} → IsValid d → IsValid (prev_day d)
unfolding prev_day
prev_day-IsValid {d} v = ground (
  arith,
  days_in_bounds d.year (d.month - 1),
  days_in_december (d.year - 1),
  days_in_bounds d.year d.month,
)

-- The day before the next day is the day itself.
pub prev_day-next_day : {d : Date} → IsValid d → prev_day (next_day d) ≡ d
unfolding prev_day next_day
prev_day-next_day {d} v = ground (arith, days_in_december d.year)

-- The next day of the day before is the day itself, after the first day of the year 0.
pub next_day-prev_day : {d : Date} → IsValid d → 1 ≤ d.year → next_day (prev_day d) ≡ d
unfolding prev_day next_day
next_day-prev_day {d} v h = ground (
  arith,
  days_in_december (d.year - 1),
  days_in_bounds d.year d.month,
  days_in_bounds d.year (d.month - 1),
)

pub before-next_day : (d : Date) → before d (next_day d) ≡ true
unfolding before next_day
before-next_day d = ground arith

pub before_irrefl : (d : Date) → before d d ≡ false
unfolding before
before_irrefl d = ground arith

pub before_trans : (a b c : Date) → before a b ≡ true → before b c ≡ true → before a c ≡ true
unfolding before
before_trans a b c h k = ground arith

pub before-total : (a b : Date) → before a b ≡ false → before b a ≡ false → a ≡ b
unfolding before
before-total a b h k = ground arith

-- No date lies between a date and its successor.
pub next_day-least :
    {d e : Date} → IsValid d → IsValid e → before d e ≡ true → before e (next_day d) ≡ false
unfolding before next_day
next_day-least {d} {e} v w h = ground arith

pub before-asym : (a b : Date) → before a b ≡ true → before b a ≡ false
unfolding before
before-asym a b h = ground arith
