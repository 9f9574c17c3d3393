-- ===== src/DateTime.antt =====
-- `DateTime` of include/sparam.hpp and src/sparam.cpp: a date and a time.
pub mod Printed
use mathlib.Core.Option
use pparam.Prelude.{
  ℕ, ◌+◌, ◌-◌, ◌*◌, ◌%◌, Bool, ◌&&◌, ◌||◌, Option, none, some, [], ◌∷◌, ◌++◌, Text, text, ◌==◌,
  if◌then◌else◌,
}
use pparam.Exception.{Exception, Result, ok, err}
use pparam.Time
use pparam.Date
use pparam.Time.{Time, u64, seconds_of_time}
use pparam.Date.{Date, days_of_date}

pub record DateTime : Type 0 where
  pub date : Date
  pub time : Time

-- `strdate.find(" ")`: what stands before the first blank and what stands behind it.
unfoldable pub split_at_blank : Text → Option (Text × Text)
split_at_blank [] = none
split_at_blank (c ∷ s) =
    if c == 32 then some ([], s) else Option.map (λ p. (c ∷ p.0, p.1)) (split_at_blank s)

abbrev put_time : DateTime → Result Time → DateTime × Result (Unit {0})
put_time t (ok x) = (record t { time = x }, ok tt)
put_time t (err e) = (t, err e)

abbrev put_date :
    DateTime
    → Result Date
    → (DateTime → DateTime × Result (Unit {0}))
    → DateTime × Result (Unit {0})
put_date t (ok x) k = k (record t { date = x })
put_date t (err e) k = (t, err e)

-- `operator=(const string &)`: the date is assigned before the time, and stays assigned when the
-- time throws. `stack` is what the uninitialised variables of the time's assignment hold.
unfoldable pub assign : Time → Text → DateTime → DateTime × Result (Unit {0})
assign stack s t = elim (split_at_blank s) [
  | none ↦ put_date t (Date.assign s) (λ u. (u, ok tt))
  | some (d, r) ↦ put_date t (Date.assign d) (λ u. put_time u (Time.assign stack r))
]

unfoldable pub less : DateTime → DateTime → Bool
less a b = Date.less a.date b.date || (Date.equal a.date b.date && Time.less a.time b.time)

unfoldable pub greater : DateTime → DateTime → Bool
greater a b = Date.greater a.date b.date || (Date.equal a.date b.date && Time.greater a.time b.time)

unfoldable pub is_valid : DateTime → Bool
is_valid t = Date.is_valid t.date && Time.is_valid t.time

-- The two texts with `between` between them and `behind` behind them; `none` where one of them is
-- undefined.
abbrev pub both : ℕ → Text → Option Text → Option Text → Option Text
both between behind none b = none
both between behind (some d) none = none
both between behind (some d) (some t) = some (d ++ (between ∷ (t ++ behind)))

unfoldable pub value : DateTime → Option Text
value t = both 32 [] (Date.value t.date) (Time.value t.time)

-- `isoFormat`
unfoldable pub iso_format : DateTime → Option Text
iso_format t = both b'T' (b'Z' ∷ []) (Date.iso_format t.date) (Time.value t.time)

-- `getInSeconds`, an unsigned long; `none` where `daysOfDate` does not return.
unfoldable pub get_in_seconds : DateTime → Option ℕ
get_in_seconds t =
    Option.map (λ n. (n * 86400 + seconds_of_time t.time) % u64) (days_of_date t.date)

abbrev difference : Option ℕ → Option ℕ → Option ℕ
difference none b = none
difference (some m) none = none
difference (some m) (some n) = some ((m + (u64 - n)) % u64)

unfoldable pub minus : DateTime → DateTime → Option ℕ
minus a b = difference (get_in_seconds a) (get_in_seconds b)

abbrev pub reset : DateTime
reset = record { date = Date.reset; time = Time.reset }
