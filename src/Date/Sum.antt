-- ===== src/Date/Sum.antt =====
-- `operator+` of dates.
use pparam.Prelude.{◌+◌, ◌-◌, ◌*◌, ◌≤◌, ◌<◌, ◌≡◌, true, not, ◌==◌, arith}
use pparam.Time.{u16}
use pparam.Date.{Date, is_valid, plus_days, plus_months, plus}
use pparam.Date.Order.{InRange, is_valid-InRange, days_of_month_range}

plus_short-InRange :
    (a b : Date)
    → InRange a
    → InRange b
    → a.year + b.year + 2 < u16
    → a.day + b.day ≤ 28
    → (is_valid (plus a b) ≡ not (a.month + b.month == 24))
      × ((plus a b).year * 12 + (plus a b).month ≡ (a.year + b.year) * 12 + (a.month + b.month))
      × ((plus a b).day ≡ a.day + b.day)
unfolding plus plus_days plus_months is_valid
plus_short-InRange a b va vb h k = ground (
  arith,
  days_of_month_range (a.year + b.year) a.month,
  days_of_month_range (a.year + b.year + 1) (a.month + b.month - 12),
  days_of_month_range (a.year + b.year) (a.month + b.month),
)

-- Where the days add up to 28 at most, the sum of two valid dates adds up the days, and counts the
-- months of the two dates. It is a valid date again unless both are in December: then its month is
-- 0.
plus_short :
    (a b : Date)
    → is_valid a ≡ true
    → is_valid b ≡ true
    → a.year + b.year + 2 < u16
    → a.day + b.day ≤ 28
    → (is_valid (plus a b) ≡ not (a.month + b.month == 24))
      × ((plus a b).year * 12 + (plus a b).month ≡ (a.year + b.year) * 12 + (a.month + b.month))
      × ((plus a b).day ≡ a.day + b.day)
plus_short a b va vb = plus_short-InRange a b (is_valid-InRange a va) (is_valid-InRange b vb)
