-- ===== src/Time.antt =====
-- `TimeParam` of include/sparam.hpp and src/sparam.cpp. The fields are `unsigned short`, `unsigned
-- short` and `unsigned int`; their wrap-around is written out.
pub mod Order
pub mod Sums
pub mod Printed
use pparam.Prelude.{
  Option, ℕ, ◌+◌, ◌-◌, ◌*◌, ◌/◌, ◌%◌, ◌^◌, ◌<◌, Bool, true, false, not, ◌&&◌, ◌||◌, List, [], ◌∷◌,
  ◌++◌, Text, text, ltb, leb, ◌==◌, if◌then◌else◌, get_or,
}
use pparam.Prelude.Int.{ℤ, pos, negsuc, to_unsigned}
use pparam.Prelude.Scan.{scan_fields, is_eof, print_int_pad, sprintf_into}
use pparam.Exception.{Result, ok, err, exception, trace_point}

abbrev pub u8 : ℕ
u8 = 256

abbrev pub u16 : ℕ
u16 = 65536

abbrev pub u32 : ℕ
u32 = 4294967296

abbrev pub u64 : ℕ
u64 = 18446744073709551616

pub record Time : Type 0 where
  pub hour : ℕ
  pub minute : ℕ
  pub second : ℕ

abbrev pub time : ℕ → ℕ → ℕ → Time
time h m s = record { hour = h; minute = m; second = s }

-- The values that the types of the fields can hold.
abbrev pub IsTyped : Time → Type 0
IsTyped t = (t.hour < u16) × (t.minute < u16) × (t.second < u32)

unfoldable pub is_valid : Time → Bool
is_valid t = not (ltb 23 t.hour || ltb 59 t.minute || ltb 59 t.second)

unfoldable pub less : Time → Time → Bool
less a b =
    if ltb a.hour b.hour
    then true
    else if a.hour == b.hour && ltb a.minute b.minute
    then true
    else a.hour == b.hour && (a.minute == b.minute && ltb a.second b.second)

unfoldable pub equal : Time → Time → Bool
equal a b = a.hour == b.hour && (a.minute == b.minute && a.second == b.second)

unfoldable pub not_equal : Time → Time → Bool
not_equal a b = not (a.hour == b.hour) || (not (a.minute == b.minute) || not (a.second == b.second))

unfoldable pub greater : Time → Time → Bool
greater a b =
    if ltb b.hour a.hour
    then true
    else if a.hour == b.hour && ltb b.minute a.minute
    then true
    else a.hour == b.hour && (a.minute == b.minute && ltb b.second a.second)

unfoldable pub greater_equal : Time → Time → Bool
unfolding less
greater_equal a b = not (less a b)

unfoldable pub less_equal : Time → Time → Bool
unfolding greater
less_equal a b = not (greater a b)

-- The steps that `operator+` and `add` share, up to the hours before they are cut to a day. The
-- minute and hour of the fresh `result` are 0 until a carry is put there.
carry_second : ℕ → ℕ × ℕ
carry_second s = if ltb 59 s then (s / 60 % u16, s % 60) else (0, s)

carry_minute : ℕ → ℕ × ℕ
carry_minute m = if ltb 59 m then (m / 60, m % 60) else (0, m)

sum_fields : Time → Time → Time
unfolding carry_second carry_minute
sum_fields a b =
    let (m, s) = carry_second ((a.second + b.second) % u32) in
    let (h, m') = carry_minute ((m + (a.minute + b.minute)) % u16) in
    time ((h + (a.hour + b.hour)) % u16) m' s

unfoldable pub plus : Time → Time → Time
unfolding sum_fields
plus a b = let r = sum_fields a b in record r { hour = r.hour % 24 }

-- The second part of the result is the output parameter `day`, an unsigned char.
unfoldable pub add : Time → Time → Time × ℕ
unfolding sum_fields
add a b = let r = sum_fields a b in (record r { hour = r.hour % 24 }, r.hour / 24 % u8)

-- `hour * 3600 + minute * 60` is an int that cannot overflow; adding `second` makes it unsigned.
unfoldable pub seconds_of_time : Time → ℕ
seconds_of_time t = (t.hour * 3600 + t.minute * 60 + t.second) % u32

-- A 64-bit pattern as a `long`.
abbrev pub to_long : ℕ → ℤ
to_long n = if ltb n (u64 / 2) then pos n else negsuc (u64 - n - 1)

-- `operator-`: the sum is computed in unsigned long.
unfoldable pub minus : Time → Time → ℤ
unfolding greater seconds_of_time
minus a b =
    let midnight = if greater a b then 1 else 0 in
    to_long ((midnight * 86400 + (u64 - seconds_of_time a) + seconds_of_time b) % u64)

unfoldable pub add_minute : ℕ → Time → Time × ℕ
add_minute n t =
    let m = (t.minute + n) % u32 in
    let h = (t.hour + m / 60) % u32 in (record t { minute = m % 60; hour = h % 24 }, h / 24)

-- An unsigned int handed to `%02d`.
abbrev pub as_int : ℕ → ℤ
as_int n = if ltb n (u32 / 2) then pos n else negsuc (u32 - n - 1)

-- What `sprintf` prints for `"%02d:%02d:%02d"`.
unfoldable pub printed : Time → Text
unfolding print_int_pad
printed t =
    print_int_pad 2 (pos t.hour)
    ++ (b':'
        ∷ (print_int_pad 2 (pos t.minute) ++ (b':' ∷ (print_int_pad 2 (as_int t.second) ++ []))))

-- `value`, through `char time[9]`.
unfoldable pub value : Time → Option Text
unfolding sprintf_into printed
value t = sprintf_into 9 (printed t)

-- `operator=(const string &)`. Fields that `sscanf` does not reach are read from the variables
-- `_hour`, `_minute` and `_second`, which are not initialised: `stack` is what they hold.
unfoldable pub assign : Time → Text → Result Time
assign stack s =
    if is_eof s
    then err (exception (text "Bad-formatted time string") (trace_point "sparam" "operator="))
    else (let fields = scan_fields b':' 3 s in
        ok (
          time (to_unsigned u32 (get_or fields 0 (pos stack.hour)) % u16)
            (to_unsigned u32 (get_or fields 1 (pos stack.minute)) % u16)
            (to_unsigned u32 (get_or fields 2 (pos stack.second)))))

unfoldable pub reset : Time
reset = time 0 0 0
