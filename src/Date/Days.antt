-- ===== src/Date/Days.antt =====
-- `daysOfDate` (src/sparam.cpp), the number of days of a date, and what `operator-` makes of it.
use pparam.Prelude.{
  ℕ, zero, suc, ◌+◌, ◌-◌, ◌*◌, ◌/◌, ◌%◌, ◌==◌, ◌≤◌, ◌<◌, ◌≡◌, refl, ap, ◌∙◌, true, none, some,
  if◌then◌else◌, lt→ltb, le→ltb, arith,
}
use pparam.Prelude.Int.{pos}
use pparam.Time.{u8, u16}
use pparam.Date.{
  Date, date, is_leap_year, days_of_month, days_of_year, month_loop, days_before_year, days_of_date,
  difference, minus, less, is_valid,
}
use pparam.Date.Order.{is_valid-InRange}

-- The days of the months before month `m`.
abbrev pub days_before_month : ℕ → ℕ → ℕ
days_before_month y zero = 0
days_before_month y (suc zero) = 0
days_before_month y (suc (suc m)) = days_before_month y (suc m) + days_of_month y (suc m)

days_before_month-suc :
    (y i : ℕ) → 1 ≤ i → days_before_month y (suc i) ≡ days_before_month y i + days_of_month y i
days_before_month-suc y zero h = absurd (omega arith)
days_before_month-suc y (suc i) h = refl

month_loop_done : (fuel y m i d : ℕ) → m ≤ i → month_loop (suc fuel) y m i d ≡ some d
unfolding month_loop
month_loop_done fuel y m i d h = rw (le→ltb i m h)

index_step : (i : ℕ) → suc i < 256 → (i + 1) % u8 ≡ suc i
index_step i h = omega arith

-- The loop adds up the months that are left.
month_loop_sum :
    (left fuel y m i d : ℕ)
    → m ≡ i + left
    → 1 ≤ i
    → m < 256
    → left < fuel
    → (r : ℕ) × (month_loop fuel y m i d ≡ some r)
      × (r + days_before_month y i ≡ d + days_before_month y m)
unfolding month_loop
month_loop_sum left zero y m i d e h k f = absurd (omega arith)
month_loop_sum zero (suc fuel) y m i d e h k f =
    let same : m ≡ i = omega arith in (d, month_loop_done fuel y m i d (omega arith), rw same)
month_loop_sum (suc left) (suc fuel) y m i d e h k f =
    let (r, p, q) =
      month_loop_sum left fuel y m (suc i) (d + days_of_month y i) (omega arith) (omega arith) k
        (omega arith) in
    (
      r,
      rw (lt→ltb i m (omega arith), index_step i (omega arith)) p,
      omega (arith, q, days_before_month-suc y i h),
    )

month_loop_total : (y m d : ℕ) → m < 256 → month_loop 256 y m 1 d ≡ some (d + days_before_month y m)
month_loop_total y zero d h = month_loop_done 255 y 0 1 d (omega arith) ∙ ap some (omega arith)
month_loop_total y (suc m) d h =
    let (r, p, q) =
      month_loop_sum m 256 y (suc m) 1 d (omega arith) (omega arith) h (omega arith) in
    p ∙ ap some (omega (arith, q))

-- With a month below 256 `daysOfDate` ends, and counts the days of the years, of the months and of
-- the month.
pub days_of_date_ends :
    (t : Date)
    → t.month < 256
    → days_of_date t ≡ some (days_before_year t.year + days_before_month t.year t.month + t.day)
unfolding days_of_date
days_of_date_ends t h = rw (month_loop_total t.year t.month (days_before_year t.year) h)

-- With a month from 256 on the unsigned char `index` never reaches it: the loop runs out of any
-- fuel, so that `daysOfDate` does not return.
month_loop_hangs : (fuel y m i d : ℕ) → 256 ≤ m → i < 256 → month_loop fuel y m i d ≡ none
unfolding month_loop
month_loop_hangs zero y m i d h k = refl
month_loop_hangs (suc fuel) y m i d h k =
    rw (lt→ltb i m (omega arith))
      (month_loop_hangs fuel y m ((i + 1) % u8) (d + days_of_month y i) h (omega arith))

abbrev pub leap_before : ℕ → ℕ
leap_before y = if is_leap_year (y - 1) then 1 else 0

pub before_year :
    (y : ℕ) → 1 ≤ y → y < u16 → days_before_year y ≡ (y - 1) * 365 + (y - 1) / 4 + leap_before y
unfolding days_before_year
before_year y h k = let wrap : (y + (u16 - 1)) % u16 ≡ y - 1 = omega arith in rw wrap (ground arith)

twelve_months : (y : ℕ) → days_before_month y 12 + 31 ≡ days_of_year y
unfolding days_of_month days_of_year
twelve_months y = ground arith

difference_small :
    (m n : ℕ) → n ≤ m → m < 1000000000 → difference (some m) (some n) ≡ some (pos (m - n))
difference_small m n h k = ground arith

abbrev new_year_step : ℕ → ℕ
new_year_step y = if y % 4 == 0 then 2 else if is_leap_year (y - 1) then 0 else 1

new_year_days :
    (y : ℕ)
    → 1 ≤ y
    → suc y < u16
    → days_before_year (suc y) + 0 + 1
      ≡ days_before_year y + days_before_month y 12 + 31 + new_year_step y
unfolding is_leap_year days_of_year
new_year_days y h k =
    ground
      (arith, twelve_months y, before_year y h (omega arith), before_year (suc y) (omega arith) k)

before_year-lt : (y : ℕ) → 1 ≤ y → y < u16 → days_before_year y < 30000000
before_year-lt y h k = ground (arith, before_year y h k)

-- From December 31st to the next day `operator-` counts 2 days in every fourth year, no day in the
-- year after a leap year, and 1 day, as it should, in the other years.
pub new_year_minus :
    (y : ℕ)
    → 1 ≤ y
    → suc y < u16
    → minus (date (suc y) 1 1) (date y 12 31)
      ≡ some (pos (if y % 4 == 0 then 2 else if is_leap_year (y - 1) then 0 else 1))
unfolding minus
new_year_minus y h k =
    rw
      (
        days_of_date_ends (date (suc y) 1 1) (omega arith),
        days_of_date_ends (date y 12 31) (omega arith),
      )
      (difference_small (days_before_year (suc y) + 0 + 1)
          (days_before_year y + days_before_month y 12 + 31) (omega (arith, new_year_days y h k))
          (omega (arith, before_year-lt (suc y) (omega arith) k))
        ∙ ap (λ n. some (pos n)) (omega (arith, new_year_days y h k)))

start_mono :
    (y k i : ℕ)
    → 1 ≤ i
    → days_before_month y i + days_of_month y i ≤ days_before_month y (suc (i + k))
start_mono y zero i h =
    let e : i + 0 ≡ i = omega arith in rw e (omega (arith, days_before_month-suc y i h))
start_mono y (suc k) i h =
    let e : i + suc k ≡ suc (i + k) = omega arith in
    rw e (omega (arith, start_mono y k i h, days_before_month-suc y (suc (i + k)) (omega arith)))

earlier_month :
    (y i j : ℕ) → 1 ≤ i → i < j → days_before_month y i + days_of_month y i ≤ days_before_month y j
earlier_month y i j h lt =
    let e : suc (i + (j - i - 1)) ≡ j = omega arith in rw e at (start_mono y (j - i - 1) i h)

-- Within one year the numbers of days are in the order of the dates, so that `operator-` of the
-- later date and the earlier one is positive.
days_of_date-less :
    (a b : Date)
    → is_valid a ≡ true
    → is_valid b ≡ true
    → a.year ≡ b.year
    → less a b ≡ true
    → (m : ℕ) × (n : ℕ) × (days_of_date a ≡ some m) × (days_of_date b ≡ some n) × (m < n)
unfolding less
days_of_date-less a b va vb e l =
    let ra = is_valid-InRange a va in
    let rb = is_valid-InRange b vb in
    (
      _,
      _,
      days_of_date_ends a (omega arith),
      days_of_date_ends b (omega arith),
      rw (← e) (ground (arith, earlier_month a.year a.month b.month ra.1)),
    )
