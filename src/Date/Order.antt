-- ===== src/Date/Order.antt =====
-- The six comparisons of `DateParam`, beside the order by year, month and day.
use pparam.Prelude.{◌+◌, ◌*◌, ◌≤◌, ◌≡◌, true, not, ltb, leb, ◌==◌, arith, ℕ}
use pparam.Date.{
  Date, less, equal, not_equal, greater, greater_equal, less_equal, is_valid, days_of_month,
}

-- Year, month and day in one number.
abbrev pub key : Date → ℕ
key t = t.year * 512 + t.month * 32 + t.day

pub days_of_month_range : (y m : ℕ) → (28 ≤ days_of_month y m) × (days_of_month y m ≤ 31)
unfolding days_of_month
days_of_month_range y m = ground arith

abbrev pub InRange : Date → Type 0
InRange t =
    (1900 ≤ t.year)
    × (1 ≤ t.month)
    × (t.month ≤ 12)
    × (1 ≤ t.day)
    × (t.day ≤ days_of_month t.year t.month)

pub is_valid-InRange : (t : Date) → is_valid t ≡ true → InRange t
unfolding is_valid
is_valid-InRange t v = ground arith

pub InRange-is_valid : (t : Date) → InRange t → is_valid t ≡ true
unfolding is_valid
InRange-is_valid t v = ground arith

abbrev Small : Date → Type 0
Small t = (t.month ≤ 12) × (t.day ≤ 31)

Small-of_valid : (t : Date) → is_valid t ≡ true → Small t
Small-of_valid t v =
    let r = is_valid-InRange t v in (r.2, omega (arith, r.4, days_of_month_range t.year t.month))

less-key : (a b : Date) → Small a → Small b → less a b ≡ ltb (key a) (key b)
unfolding less
less-key a b va vb = ground arith

greater-key : (a b : Date) → Small a → Small b → greater a b ≡ ltb (key b) (key a)
unfolding greater
greater-key a b va vb = ground arith

equal-key : (a b : Date) → Small a → Small b → equal a b ≡ (key a == key b)
unfolding equal
equal-key a b va vb = ground arith

not_equal-key : (a b : Date) → Small a → Small b → not_equal a b ≡ not (key a == key b)
unfolding not_equal
not_equal-key a b va vb = ground arith

-- On valid dates each comparison says of the dates what it says of year, month and day read as one
-- number; so `<` is a total order, and the others are what they should be beside it.
comparisons_key :
    (a b : Date)
    → is_valid a ≡ true
    → is_valid b ≡ true
    → (less a b ≡ ltb (key a) (key b))
      × (greater a b ≡ ltb (key b) (key a))
      × (less_equal a b ≡ leb (key a) (key b))
      × (greater_equal a b ≡ leb (key b) (key a))
      × (equal a b ≡ (key a == key b))
      × (not_equal a b ≡ not (key a == key b))
unfolding less_equal greater_equal
comparisons_key a b va vb =
    let p = Small-of_valid a va in
    let q = Small-of_valid b vb in
    (
      less-key a b p q,
      greater-key a b p q,
      rw (greater-key a b p q) (ground arith),
      rw (less-key a b p q) (ground arith),
      equal-key a b p q,
      not_equal-key a b p q,
    )
