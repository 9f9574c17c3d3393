-- ===== src/Time/Printed.antt =====
-- The text of a `TimeParam`: `value` and the assignment of a string.
use pparam.Prelude.{
  ℕ, ◌+◌, ◌/◌, ◌<◌, lt→ltb, ◌≡◌, refl, true, some, ltb, [], ◌∷◌, ◌++◌, Text, length, length-append,
  arith,
}
use pparam.Prelude.Int.{pos}
use pparam.Prelude.Decimal.{print_pad, length-print_pad, length-print_nat-le, print_nat_nonempty}
use pparam.Prelude.Scan.{
  scan_fields, print_int_pad, scan_fields-print_pad, scan_int-print_pad, is_eof-print_pad,
}
use pparam.Exception.{ok}
use pparam.Time.{Time, time, u16, u32, is_valid, printed, value, assign}
use pparam.Time.Sums.{is_valid-InRange}

abbrev joined : ℕ → ℕ → ℕ → Text
joined h m s = print_pad 2 h ++ (b':' ∷ (print_pad 2 m ++ (b':' ∷ (print_pad 2 s ++ []))))

printed-joined : (t : Time) → t.second < u32 / 2 → printed t ≡ joined t.hour t.minute t.second
unfolding printed print_int_pad
printed-joined t h = rw (lt→ltb t.second 2147483648 h)

-- What `sprintf` prints, the string assignment reads back, whatever the fields hold, as long as the
-- seconds fit an int; the uninitialised variables play no part.
pub assign-printed_time :
    (stack t : Time)
    → t.hour < u16
    → t.minute < u16
    → t.second < u32 / 2
    → assign stack (printed t) ≡ ok t
unfolding assign
assign-printed_time stack t h m s = ground (
  arith,
  printed-joined t s,
  is_eof-print_pad 2 t.hour
      (b':' ∷ (print_pad 2 t.minute ++ (b':' ∷ (print_pad 2 t.second ++ [])))),
  scan_fields-print_pad b':' 2 2 2 t.hour t.minute t.second refl,
)

length-pad2 : (n : ℕ) → n < 100 → length (print_pad 2 n) ≡ 2
length-pad2 n h =
    omega (arith, length-print_pad 2 n, length-print_nat-le 1 n h, print_nat_nonempty n)

length-joined :
    (h m s : ℕ)
    → length (joined h m s)
      ≡ length (print_pad 2 h) + length (print_pad 2 m) + length (print_pad 2 s) + 2
length-joined h m s = omega (
  arith,
  length-append (print_pad 2 h) (b':' ∷ (print_pad 2 m ++ (b':' ∷ (print_pad 2 s ++ [])))),
  length-append (print_pad 2 m) (b':' ∷ (print_pad 2 s ++ [])),
  length-append (print_pad 2 s) [],
)

-- The text of a time whose fields have two digits takes the eight characters that `char time[9]` has
-- room for.
length-printed :
    (t : Time) → t.hour < 100 → t.minute < 100 → t.second < 100 → length (printed t) ≡ 8
length-printed t h m s = rw (printed-joined t (omega arith)) (
    omega (
      arith,
      length-joined t.hour t.minute t.second,
      length-pad2 t.hour h,
      length-pad2 t.minute m,
      length-pad2 t.second s,
    ))

pub value-printed_time :
    (t : Time) → t.hour < 100 → t.minute < 100 → t.second < 100 → value t ≡ some (printed t)
unfolding value
value-printed_time t h m s =
    let fits : ltb (length (printed t)) 9 ≡ true = ground (arith, length-printed t h m s) in
    simp (fits)

-- A valid time is printed, with eight characters.
length-value_time :
    (t : Time) → is_valid t ≡ true → (value t ≡ some (printed t)) × (length (printed t) ≡ 8)
length-value_time t v =
    let r = is_valid-InRange t v in
    (
      value-printed_time t (omega arith) (omega arith) (omega arith),
      length-printed t (omega arith) (omega arith) (omega arith),
    )

scan_one : (h : ℕ) → scan_fields b':' 3 (print_pad 2 h ++ []) ≡ pos h ∷ []
unfolding scan_fields
scan_one h = ground (arith, scan_int-print_pad 2 h [] refl)

-- An hour by itself is accepted too, since the string assignment does not ask for three fields: the
-- minute and the second are then what the uninitialised variables held.
assign_hour_alone :
    (stack : Time) (h : ℕ)
    → h < u16
    → stack.minute < u16
    → stack.second < u32
    → assign stack (print_pad 2 h ++ []) ≡ ok (time h stack.minute stack.second)
unfolding assign
assign_hour_alone stack h a b c = ground (arith, is_eof-print_pad 2 h [], scan_one h)
