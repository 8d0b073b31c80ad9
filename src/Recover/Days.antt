-- ===== src/Recover/Days.antt =====
-- `RecoverParams.days`: the days of a window, oldest first.

use fx_sdk.Time.Layout.{format_day, parse_day, parse_day-some}
use fx_sdk.Errors.{Result, err, invalid_day, inverted_range, ok, too_wide_range, ◌>>=◌, Error}
use fx_sdk.Types.{RecoverParams}
use fx_sdk.Time.Date.{
  Date, IsValid, before, before-asym, before_irrefl, before-next_day, before-total, before_trans,
  eq_date, eq_date-eq, eq_date_refl, next_day, next_day-IsValid, next_day-least,
}
use fx_sdk.Common.{
  Bool, Bool-cases, List, Option, Text, [], arith, false, if◌then◌else◌, inl, inr, is_empty, length,
  map, none, not, refl, some, suc, sym, true, zero, ℕ, ◌&&◌, ◌||◌, ◌∷◌, ◌≡◌, ◌≤◌, All, Option-cases,
  ap, ◌∙◌,
}

-- `maxRecoverDays`
abbrev pub max_recover_days : ℕ
max_recover_days = 31

-- The loop, with `left` for `maxRecoverDays - len(days)`: structural, since it gives up at 0.
abbrev cons_day : Date → Result (List Date) → Result (List Date)
cons_day d (ok ds) = ok (d ∷ ds)
cons_day d (err e) = err e

unfoldable pub days_from : ℕ → Date → Date → Result (List Date)
days_from zero d to = if before to d then ok [] else err too_wide_range
days_from (suc left) d to =
    if before to d then ok [] else cons_day d (days_from left (next_day d) to)

abbrev parsed : Text → Option Date → Result Date
parsed day none = err (invalid_day day)
parsed day (some d) = ok d

-- `time.Parse(dayLayout, day)` with the error that the SDK makes of its error.
unfoldable pub parse_param : Text → Result Date
unfolding parse_day
parse_param day = parsed day (parse_day day)

abbrev checked_range : Date → Date → Result (List Date)
checked_range from to =
    if before to from then err inverted_range else days_from max_recover_days from to

abbrev last_day : Bool → Text → Date → Result Date
last_day true day from = ok from
last_day false day from = parse_param day

unfoldable pub dates : RecoverParams → Result (List Date)
unfolding parse_param
dates p = do
  from ← parse_param p.day_from
  to ← last_day (is_empty p.day_to) p.day_to from
  checked_range from to

abbrev format_all : Result (List Date) → Result (List Text)
format_all (ok ds) = ok (map format_day ds)
format_all (err e) = err e

-- `days`
unfoldable pub days : RecoverParams → Result (List Text)
unfolding dates format_day
days p = format_all (dates p)

-- Whether a date is in a list.
abbrev pub has_date : Date → List Date → Bool
has_date e [] = false
has_date e (d ∷ ds) = eq_date d e || has_date e ds

-- The list runs from `d` by single days.
abbrev pub FromDay : Date → List Date → Type 0
FromDay d [] = Unit
FromDay d (e ∷ es) = (e ≡ d) × FromDay (next_day d) es

-- Whether a date lies in a window, both ends included.
abbrev pub within : Date → Date → Date → Bool
within from to e = not (before e from) && not (before to e)

within-step :
    (d to e : Date)
    → IsValid d
    → IsValid e
    → before to d ≡ false
    → within d to e ≡ (eq_date d e || within (next_day d) to e)
within-step d to e v w h = ground (
  arith,
  before-total d e,
  before-asym d e,
  before-asym e d,
  before_irrefl d,
  next_day-least v w,
  before-next_day d,
  eq_date-eq d e,
  eq_date_refl d,
  before_trans e d (next_day d),
)

cons_day-ok :
    (d : Date) (r : Result (List Date)) {ds : List Date}
    → cons_day d r ≡ ok ds
    → (es : List Date) × (r ≡ ok es) × (ds ≡ d ∷ es)
cons_day-ok d (ok es) h = (es, refl, cc)
cons_day-ok d (err e) h = cc

cons_day-err : (d : Date) (r : Result (List Date)) {e : Error} → cons_day d r ≡ err e → r ≡ err e
cons_day-err d (ok es) h = cc
cons_day-err d (err e) h = cc

-- What the loop returns, by the days left.
pub record DaysSpec (left : ℕ) (d to : Date) (ds : List Date) : Type 0 where
  pub from_day : FromDay d ds
  pub length_le : length ds ≤ left
  pub exact : (e : Date) → IsValid e → has_date e ds ≡ within d to e

within-empty : (d to e : Date) → before to d ≡ true → within d to e ≡ false
within-empty d to e h =
    ground (arith, before_trans to d e, before-asym e d, before-total e d, before_irrefl e)

empty-DaysSpec : (left : ℕ) (d to : Date) → before to d ≡ true → DaysSpec left d to []
empty-DaysSpec left d to h = record {
  from_day = tt;
  length_le = omega arith;
  exact = λ e v. sym (within-empty d to e h);
}

days_from-ok :
    (left : ℕ) (d to : Date) {ds : List Date}
    → IsValid d
    → days_from left d to ≡ ok ds
    → DaysSpec left d to ds
unfolding days_from
days_from-ok zero d to {ds} v h = elim (Bool-cases (before to d)) [
  | inl past ↦ let nil : ds ≡ [] = ground arith in rw nil (empty-DaysSpec 0 d to past)
  | inr more ↦ absurd (ground arith)
]
days_from-ok (suc left) d to {ds} v h = elim (Bool-cases (before to d)) [
  | inl past ↦ let nil : ds ≡ [] = ground arith in rw nil (empty-DaysSpec (suc left) d to past)
  | inr more ↦
      let (es, rest, same) = cons_day-ok d (days_from left (next_day d) to) (rw more at h) in
      let ih = days_from-ok left (next_day d) to (next_day-IsValid v) rest in
      rw same (record {
        from_day = (refl, ih.from_day);
        length_le = omega (arith, ih.length_le);
        exact = λ e w. rw (ih.exact e w) (sym (within-step d to e v w more));
      })
]

-- The loop gives up only on a window that holds more days than it has left.
days_from-err :
    (left : ℕ) (d to : Date) {e : Error}
    → days_from left d to ≡ err e
    → (e ≡ too_wide_range)
      × (ds : List Date) × FromDay d ds
      × (length ds ≡ suc left)
      × All (λ k. before to k ≡ false) ds
unfolding days_from
days_from-err zero d to h = elim (Bool-cases (before to d)) [
  | inl past ↦ absurd (ground arith)
  | inr more ↦ (ground arith, d ∷ [], (refl, tt), refl, (more, tt))
]
days_from-err (suc left) d to {e} h = elim (Bool-cases (before to d)) [
  | inl past ↦ absurd (ground arith)
  | inr more ↦
      let rest : days_from left (next_day d) to ≡ err e =
        cons_day-err d (days_from left (next_day d) to) (rw more at h) in
      let (why, ds, from, len, all_in) = days_from-err left (next_day d) to rest in
      (why, d ∷ ds, (refl, from), ap suc len, (more, all_in))
]

parse_param-ok : (t : Text) {d : Date} → parse_param t ≡ ok d → (parse_day t ≡ some d) × IsValid d
unfolding parse_param
parse_param-ok t {d} h = elim (Option-cases (parse_day t)) [
  | inl bad ↦ absurd (ground arith)
  | inr (e, good) ↦
      let same : e ≡ d = ground arith in
      let found : parse_day t ≡ some d = good ∙ ap some same in (found, (parse_day-some t found).0)
]

-- A window that is accepted has at most 31 days, which are consecutive from the first, and its days are
-- exactly the dates between the two ends, both included; the end is the start if it is left empty.
pub dates-ok :
    (p : RecoverParams) {ds : List Date}
    → dates p ≡ ok ds
    → (from : Date) × (to : Date) × (parse_day p.day_from ≡ some from)
      × ((if is_empty p.day_to then some from else parse_day p.day_to) ≡ some to)
      × DaysSpec max_recover_days from to ds
unfolding dates
dates-ok p {ds} h = start (parse_param p.day_from) refl h
  where
    loop :
        (from to : Date)
        → parse_day p.day_from ≡ some from
        → IsValid from
        → (if is_empty p.day_to then some from else parse_day p.day_to) ≡ some to
        → checked_range from to ≡ ok ds
        → (from : Date) × (to : Date) × (parse_day p.day_from ≡ some from)
          × ((if is_empty p.day_to then some from else parse_day p.day_to) ≡ some to)
          × DaysSpec max_recover_days from to ds
    loop from to pf v pt j = elim (Bool-cases (before to from)) [
      | inl inverted ↦ absurd (ground arith)
      | inr fine ↦ (from, to, pf, pt, days_from-ok max_recover_days from to v (rw fine at j))
    ]

    end :
        (b : Bool) (from : Date)
        → is_empty p.day_to ≡ b
        → parse_day p.day_from ≡ some from
        → IsValid from
        → (r : Result Date) → last_day b p.day_to from ≡ r
        → (r >>= checked_range from) ≡ ok ds
        → (from : Date) × (to : Date) × (parse_day p.day_from ≡ some from)
          × ((if is_empty p.day_to then some from else parse_day p.day_to) ≡ some to)
          × DaysSpec max_recover_days from to ds
    end b from hb pf v (err e) q j = cc
    end true from hb pf v (ok to) q j =
        let same : from ≡ to = cc in loop from to pf v (rw hb (ap some same)) j
    end false from hb pf v (ok to) q j = loop from to pf v (rw hb ((parse_param-ok p.day_to q).0)) j

    start :
        (r : Result Date)
        → parse_param p.day_from ≡ r
        → (r >>= λ from. last_day (is_empty p.day_to) p.day_to from >>= checked_range from) ≡ ok ds
        → (from : Date) × (to : Date) × (parse_day p.day_from ≡ some from)
          × ((if is_empty p.day_to then some from else parse_day p.day_to) ≡ some to)
          × DaysSpec max_recover_days from to ds
    start (err e) q j = cc
    start (ok from) q j =
        let (pf, v) = parse_param-ok p.day_from q in
        end (is_empty p.day_to) from refl pf v (last_day (is_empty p.day_to) p.day_to from) refl j
