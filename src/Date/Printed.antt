-- ===== src/Date/Printed.antt =====
-- The text of a `DateParam`: `value`, `isoFormat` and the assignment of a string.
use pparam.Prelude.{
  ℕ, ◌+◌, ◌≤◌, ◌<◌, ◌≡◌, refl, true, false, none, some, ltb, [], ◌∷◌, ◌++◌, Text, length,
  length-append, arith,
}
use pparam.Prelude.Decimal.{
  print_pad, length-print_pad, length-print_nat-le, length-print_nat-ge, print_nat_nonempty,
}
use pparam.Prelude.Scan.{print_int_pad, scan_fields-print_pad}
use pparam.Exception.{ok}
use pparam.Date.{Date, IsTyped, is_valid, printed, value, from_fields, assign}
use pparam.Date.Order.{is_valid-InRange, days_of_month_range}

abbrev joined : ℕ → ℕ → ℕ → Text
joined y m d = print_pad 4 y ++ (b'/' ∷ (print_pad 2 m ++ (b'/' ∷ (print_pad 2 d ++ []))))

printed-joined : (t : Date) → printed t ≡ joined t.year t.month t.day
unfolding printed print_int_pad
printed-joined t = refl

-- What `sprintf` prints, the string assignment reads back, for every value of the three fields.
pub assign-printed_date : (t : Date) → IsTyped t → assign (printed t) ≡ ok t
unfolding assign from_fields
assign-printed_date t h =
    ground (arith, printed-joined t, scan_fields-print_pad b'/' 4 2 2 t.year t.month t.day refl)

length-pad2 : (n : ℕ) → n < 100 → length (print_pad 2 n) ≡ 2
length-pad2 n h =
    omega (arith, length-print_pad 2 n, length-print_nat-le 1 n h, print_nat_nonempty n)

length-pad4 : (n : ℕ) → n < 10000 → length (print_pad 4 n) ≡ 4
length-pad4 n h =
    omega (arith, length-print_pad 4 n, length-print_nat-le 3 n h, print_nat_nonempty n)

length-pad4-ge : (n : ℕ) → 10000 ≤ n → 5 ≤ length (print_pad 4 n)
length-pad4-ge n h = omega (arith, length-print_pad 4 n, length-print_nat-ge 4 n h)

length-joined :
    (y m d : ℕ)
    → length (joined y m d)
      ≡ length (print_pad 4 y) + length (print_pad 2 m) + length (print_pad 2 d) + 2
length-joined y m d = omega (
  arith,
  length-append (print_pad 4 y) (b'/' ∷ (print_pad 2 m ++ (b'/' ∷ (print_pad 2 d ++ [])))),
  length-append (print_pad 2 m) (b'/' ∷ (print_pad 2 d ++ [])),
  length-append (print_pad 2 d) [],
)

-- The length of the text of a date whose month and day have two digits.
length-printed :
    (t : Date)
    → t.month < 100
    → t.day < 100
    → (t.year < 10000 → length (printed t) ≡ 10) × (10000 ≤ t.year → 11 ≤ length (printed t))
length-printed t month day =
    let m = length-pad2 t.month month in
    let d = length-pad2 t.day day in
    rw (printed-joined t) (
      λ h. omega (arith, length-joined t.year t.month t.day, length-pad4 t.year h, m, d),
      λ h. omega (arith, length-joined t.year t.month t.day, length-pad4-ge t.year h, m, d),
    )

-- The text of a date with a year of four digits and a month and a day of two fits the buffer.
pub value-printed_date :
    (t : Date) → t.year < 10000 → t.month < 100 → t.day < 100 → value t ≡ some (printed t)
unfolding value
value-printed_date t y m d =
    let fits : ltb (length (printed t)) 11 ≡ true = ground (arith, (length-printed t m d).0 y) in
    simp (fits)

-- The text of a valid date has the ten characters that `char date[11]` has room for if the year is
-- below 10000, and `value` returns it; if it is not, the text is longer than the buffer allows, and
-- `value` is undefined.
pub length-value_date :
    (t : Date)
    → is_valid t ≡ true
    → (t.year < 10000 → (value t ≡ some (printed t)) × (length (printed t) ≡ 10))
      × (10000 ≤ t.year → (value t ≡ none) × (11 ≤ length (printed t)))
unfolding value
length-value_date t v =
    let r = is_valid-InRange t v in
    let m : t.month < 100 = omega arith in
    let d : t.day < 100 = omega (arith, days_of_month_range t.year t.month) in
    let sizes = length-printed t m d in
    (
      λ h. (value-printed_date t h m d, sizes.0 h),
      λ h.
          let over : ltb (length (printed t)) 11 ≡ false = ground (arith, sizes.1 h) in
          (simp (over), sizes.1 h),
    )
