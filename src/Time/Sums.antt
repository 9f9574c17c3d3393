-- ===== src/Time/Sums.antt =====
-- Sums and differences of times against the number of seconds.
use pparam.Prelude.{ℕ, ◌+◌, ◌-◌, ◌*◌, ◌%◌, ◌≤◌, ◌<◌, ◌≡◌, refl, true, ltb, if◌then◌else◌, arith}
use pparam.Prelude.Int.{pos}
use pparam.Time.{
  Time, u16, u32, u64, is_valid, carry_second, carry_minute, sum_fields, plus, add, seconds_of_time,
  to_long, minus, add_minute,
}
use pparam.Time.Order.{comparisons_seconds}

abbrev pub InRange : Time → Type 0
InRange t = (t.hour < 24) × (t.minute < 60) × (t.second < 60)

pub is_valid-InRange : (t : Time) → is_valid t ≡ true → InRange t
unfolding is_valid
is_valid-InRange t v = ground arith

pub InRange-is_valid : (t : Time) → InRange t → is_valid t ≡ true
unfolding is_valid
InRange-is_valid t v = ground arith

pub seconds_of_time-eq :
    (t : Time) → InRange t → seconds_of_time t ≡ t.hour * 3600 + t.minute * 60 + t.second
unfolding seconds_of_time
seconds_of_time-eq t v = omega arith

seconds_of_time-lt : (t : Time) → InRange t → seconds_of_time t < 86400
seconds_of_time-lt t v = omega (arith, seconds_of_time-eq t v)

carry_second_lem :
    (s : ℕ)
    → s < 120
    → ((carry_second s).0 * 60 + (carry_second s).1 ≡ s) × ((carry_second s).1 < 60)
unfolding carry_second
carry_second_lem s h = ground arith

carry_minute_lem :
    (m : ℕ)
    → m < 121
    → ((carry_minute m).0 * 60 + (carry_minute m).1 ≡ m) × ((carry_minute m).1 < 60)
unfolding carry_minute
carry_minute_lem m h = ground arith

sum_fields_lem :
    (a b : Time)
    → InRange a
    → InRange b
    → ((sum_fields a b).minute < 60)
      × ((sum_fields a b).second < 60)
      × ((sum_fields a b).hour < 49)
      × ((sum_fields a b).hour * 3600 + (sum_fields a b).minute * 60 + (sum_fields a b).second
          ≡ seconds_of_time a + seconds_of_time b)
unfolding sum_fields
sum_fields_lem a b va vb = omega (
  arith,
  carry_second_lem ((a.second + b.second) % u32),
  carry_minute_lem (((carry_second ((a.second + b.second) % u32)).0 + (a.minute + b.minute)) % u16),
  seconds_of_time-eq a va,
  seconds_of_time-eq b vb,
)

add-InRange : (a b : Time) → InRange a → InRange b → InRange (add a b).0
unfolding add
add-InRange a b va vb = omega (arith, sum_fields_lem a b va vb)

add_day :
    (a b : Time)
    → InRange a
    → InRange b
    → (add a b).1 * 24 + (add a b).0.hour ≡ (sum_fields a b).hour
unfolding add
add_day a b va vb = omega (arith, sum_fields_lem a b va vb)

add_total :
    (a b : Time)
    → InRange a
    → InRange b
    → (add a b).0.hour * 3600 + (add a b).0.minute * 60 + (add a b).0.second + 86400 * (add a b).1
      ≡ seconds_of_time a + seconds_of_time b
unfolding add
add_total a b va vb = omega (arith, sum_fields_lem a b va vb, add_day a b va vb)

plus-add : (a b : Time) → plus a b ≡ (add a b).0
unfolding plus add
plus-add a b = refl

-- `add` of valid times is a valid time and 0 or 1 days that together make up the two numbers of
-- seconds, and `operator+` is the same time without the day.
pub add_seconds :
    (a b : Time)
    → is_valid a ≡ true
    → is_valid b ≡ true
    → (is_valid (add a b).0 ≡ true)
      × ((add a b).1 ≤ 1)
      × (seconds_of_time (add a b).0 + 86400 * (add a b).1 ≡ seconds_of_time a + seconds_of_time b)
      × (plus a b ≡ (add a b).0)
add_seconds a b va vb =
    let ra = is_valid-InRange a va in
    let rb = is_valid-InRange b vb in
    let r = add-InRange a b ra rb in
    (
      InRange-is_valid _ r,
      omega (arith, add_total a b ra rb, seconds_of_time-lt a ra, seconds_of_time-lt b rb),
      omega (arith, seconds_of_time-eq (add a b).0 r, add_total a b ra rb),
      plus-add a b,
    )

abbrev forward : ℕ → ℕ → ℕ
forward x y = (y + 86400 - x) % 86400

minus_wrap :
    (x y : ℕ)
    → x < 86400
    → y < 86400
    → to_long (((if ltb y x then 1 else 0) * 86400 + (u64 - x) + y) % u64) ≡ pos (forward x y)
minus_wrap x y hx hy = ground arith

-- `operator-` of valid times is the time from the first forward to the second, less than a day.
minus_forward :
    (a b : Time)
    → is_valid a ≡ true
    → is_valid b ≡ true
    → (d : ℕ) × (minus a b ≡ pos d)
      × (d < 86400)
      × ((seconds_of_time a + d) % 86400 ≡ seconds_of_time b)
unfolding minus
minus_forward a b va vb =
    let x = seconds_of_time a in
    let y = seconds_of_time b in
    let la = seconds_of_time-lt a (is_valid-InRange a va) in
    let lb = seconds_of_time-lt b (is_valid-InRange b vb) in
    (
      forward x y,
      rw ((comparisons_seconds a b va vb).1) (minus_wrap x y la lb),
      omega arith,
      omega arith,
    )

-- `addMinute` moves the minutes on without losing any: what it returns counts the days, and the
-- seconds stay. The time that it leaves has its hour and minute in range.
add_minute_total :
    (n : ℕ) (t : Time)
    → t.minute + n < u32
    → t.hour < u16
    → ((add_minute n t).1 * 1440 + (add_minute n t).0.hour * 60 + (add_minute n t).0.minute
        ≡ t.hour * 60 + t.minute + n)
      × ((add_minute n t).0.hour < 24)
      × ((add_minute n t).0.minute < 60)
      × ((add_minute n t).0.second ≡ t.second)
unfolding add_minute
add_minute_total n t h k = omega arith
