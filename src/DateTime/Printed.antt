-- ===== src/DateTime/Printed.antt =====
-- The text of a `DateTime`.
use pparam.Prelude.{
  ◌<◌, ◌≡◌, refl, false, some, [], ◌∷◌, ◌++◌, Text, All, All-append, append_nil, ◌≢◌, ◌==◌, arith,
}
use pparam.Prelude.Decimal.{IsDigits, print_pad, print_pad-IsDigits}
use pparam.Prelude.Scan.{print_int_pad, is_eof, skip_space}
use pparam.Exception.{ok}
use pparam.Time
use pparam.Date
use pparam.Date.{Date}
use pparam.Time.{Time, u16, u32}
use pparam.DateTime.{DateTime, split_at_blank, assign, value}
use pparam.Time.Printed as TimePrinted
use pparam.Date.Printed as DatePrinted

abbrev NoBlank : Text → Type 0
NoBlank s = All (λ c. (c == 32) ≡ false) s

split_at_blank-append : (s t : Text) → NoBlank s → split_at_blank (s ++ (32 ∷ t)) ≡ some (s, t)
unfolding split_at_blank
split_at_blank-append [] t h = refl
split_at_blank-append (c ∷ s) t h = rw (h.0, split_at_blank-append s t h.1)

NoBlank-of_digits : (s : Text) → IsDigits s → NoBlank s
NoBlank-of_digits [] h = tt
NoBlank-of_digits (c ∷ s) h = (ground arith, NoBlank-of_digits s h.1)

printed-NoBlank : (d : Date) → NoBlank (Date.printed d)
unfolding Date.printed print_int_pad
printed-NoBlank d =
    let y = NoBlank-of_digits (print_pad 4 d.year) (print_pad-IsDigits 4 d.year) in
    let m = NoBlank-of_digits (print_pad 2 d.month) (print_pad-IsDigits 2 d.month) in
    let e = NoBlank-of_digits (print_pad 2 d.day) (print_pad-IsDigits 2 d.day) in
    All-append _ (print_pad 4 d.year) _ y (
      refl,
      All-append _ (print_pad 2 d.month) _ m (refl, All-append _ (print_pad 2 d.day) [] e tt),
    )

-- The year has four digits at most, and every other field two: the fields for which the texts fit
-- the buffers that they are printed into.
abbrev pub Fits : DateTime → Type 0
Fits t =
    (t.date.year < 10000)
    × (t.date.month < 100)
    × (t.date.day < 100)
    × (t.time.hour < 100)
    × (t.time.minute < 100)
    × (t.time.second < 100)

assign-printed :
    (stack : Time) (t u : DateTime)
    → Fits t
    → assign stack (Date.printed t.date ++ (32 ∷ Time.printed t.time)) u ≡ (t, ok tt)
unfolding assign
assign-printed stack t u (y, m, d, h, n, s) =
    let date = DatePrinted.assign-printed_date t.date (omega arith, omega arith, omega arith) in
    let time =
      TimePrinted.assign-printed_time stack t.time (omega arith) (omega arith) (omega arith) in
    ground (
      arith,
      split_at_blank-append (Date.printed t.date) (Time.printed t.time) (printed-NoBlank t.date),
      date,
      time,
    )

-- For a date and a time with a year below 10000 and all other fields below 100, valid or not, `value`
-- returns a text, and the string assignment reads it back into any date and time.
pub assign-value_date_time :
    (stack : Time) (t u : DateTime)
    → Fits t
    → (s : Text) × (value t ≡ some s) × (assign stack s u ≡ (t, ok tt))
unfolding value
assign-value_date_time stack t u f =
    let (y, m, d, h, n, s) = f in
    let whole = append_nil (Time.printed t.time) in
    (
      Date.printed t.date ++ (32 ∷ Time.printed t.time),
      simp (
        DatePrinted.value-printed_date t.date y m d,
        TimePrinted.value-printed_time t.time h n s,
        whole,
      ),
      assign-printed stack t u f,
    )

-- The assignment is not all or nothing: with a date that can be read and a blank time behind it,
-- it throws, and the new date stays.
assign_bad_time :
    (stack : Time) (d : Date) (u : DateTime)
    → Date.IsTyped d
    → ((assign stack (Date.printed d ++ (32 ∷ [])) u).0 ≡ record u { date = d })
      × ((assign stack (Date.printed d ++ (32 ∷ [])) u).1 ≢ ok tt)
unfolding assign Time.assign is_eof skip_space
assign_bad_time stack d u h = ground (
  arith,
  split_at_blank-append (Date.printed d) [] (printed-NoBlank d),
  DatePrinted.assign-printed_date d h,
)
