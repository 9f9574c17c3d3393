-- ===== src/Port/Grammar.antt =====
-- The texts that the comment of `PortParam` (include/sparam.hpp) describes, and what
-- `operator=(const string &)` of src/sparam.cpp makes of them.
use pparam.Prelude.{
  ℕ, ◌+◌, ◌-◌, ◌*◌, ◌/◌, ◌≤◌, ◌<◌, ◌≡◌, ◌⊎◌, ap, refl, ◌∙◌, Bool, true, false, [], ◌∷◌, ◌++◌, Text,
  length, arith,
}
use pparam.Prelude.Int.{ℤ, pos, ◌≤ℤ◌}
use pparam.Prelude.Decimal.{digits_value, IsDigits}
use pparam.Time.{u32}
use pparam.Port.{
  PortParam, invalid_port, State, start, negated, first, second, Locals, round, add_digit,
  from_digit, to_digit, ended, finish, locals, checked, check_range, store, stored, thrown, assign,
  assign_within, invalid_port_number, invalid_port_range,
}
use pparam.Port.Scan.{scan, loop-scan}

-- `[!]N`, `[!]N:`, `[!]:N` and `[!]N:N`, where N is a text of digits.
pub data PortRange : Type 0 where
  one from_on up_to : Text → PortRange
  between : Text → Text → PortRange

abbrev pub print_range : PortRange → Text
print_range (one n) = n ++ []
print_range (from_on n) = n ++ (b':' ∷ [])
print_range (up_to m) = b':' ∷ (m ++ [])
print_range (between n m) = n ++ (b':' ∷ (m ++ []))

unfoldable pub print : Bool → PortRange → Text
print true r = b'!' ∷ print_range r
print false r = print_range r

abbrev IsNumber : Text → Type 0
IsNumber n = IsDigits n × (1 ≤ length n) × (digits_value 0 n < u32 / 2)

-- Numbers are not empty, and fit an int.
abbrev pub IsWritten : PortRange → Type 0
IsWritten (one n) = IsNumber n
IsWritten (from_on n) = IsNumber n
IsWritten (up_to m) = IsNumber m
IsWritten (between n m) = IsNumber n × IsNumber m

abbrev pub lower : PortRange → ℕ
lower (one n) = digits_value 0 n
lower (from_on n) = digits_value 0 n
lower (up_to m) = 0
lower (between n m) = digits_value 0 n

-- The last port of a range; a single port has none.
abbrev pub upper : PortRange → ℤ
upper (one n) = invalid_port
upper (from_on n) = pos 65535
upper (up_to m) = pos (digits_value 0 m)
upper (between n m) = pos (digits_value 0 m)

abbrev pub is_range : PortRange → Bool
is_range (one n) = false
is_range _ = true

abbrev IsRange : ℕ → ℕ → Type 0
IsRange n m = (n < m) × (m ≤ 65535)

-- Ports are at most 65535, and a range has at least two.
abbrev pub InRange : PortRange → Type 0
InRange (one n) = digits_value 0 n ≤ 65535
InRange (from_on n) = IsRange (digits_value 0 n) 65535
InRange (up_to m) = IsRange 0 (digits_value 0 m)
InRange (between n m) = IsRange (digits_value 0 n) (digits_value 0 m)

digits_value-ge : (acc : ℕ) (s : Text) → acc ≤ digits_value acc s
unfolding digits_value
digits_value-ge acc [] = omega arith
digits_value-ge acc (c ∷ s) = omega (arith, digits_value-ge (acc * 10 + (c - 0x30)) s)

scan_from :
    (acc : ℕ) (n t : Text) (l : Locals)
    → IsDigits n
    → digits_value acc n < u32 / 2
    → scan (n ++ t) (record l { state = first; from = pos acc })
      ≡ scan t (record l { state = first; from = pos (digits_value acc n) })
unfolding scan round add_digit from_digit to_digit digits_value
scan_from acc [] t l d h = refl
scan_from acc (c ∷ n) t l d h = ground (
  arith,
  digits_value-ge (acc * 10 + (c - 0x30)) n,
  scan_from (acc * 10 + (c - 0x30)) n t l d.1 h,
)

scan_to :
    (acc : ℕ) (n t : Text) (l : Locals)
    → IsDigits n
    → digits_value acc n < u32 / 2
    → scan (n ++ t) (record l { state = second; set_zero = false; to = pos acc })
      ≡ scan t (record l { state = second; set_zero = false; to = pos (digits_value acc n) })
unfolding scan round add_digit from_digit to_digit digits_value
scan_to acc [] t l d h = refl
scan_to acc (c ∷ n) t l d h =
    ground (
      arith,
      digits_value-ge (acc * 10 + (c - 0x30)) n,
      scan_to (acc * 10 + (c - 0x30)) n t l d.1 h,
    )

abbrev vars : State → Bool → Bool → ℤ → ℤ → Locals
vars s n z f t = record { state = s; not_sign = n; set_zero = z; from = f; to = t }

-- The state in front of the first number.
abbrev opening : Bool → State
opening false = start
opening true = negated

scan_first :
    (neg : Bool) (n t : Text)
    → IsNumber n
    → scan (n ++ t) (vars (opening neg) neg true (pos 0) invalid_port)
      ≡ scan t (vars first neg true (pos (digits_value 0 n)) invalid_port)
unfolding scan round add_digit from_digit digits_value
scan_first neg [] t h = absurd (omega (arith, h.1))
scan_first true (c ∷ n) t h = ground (
  arith,
  scan_from (0 * 10 + (c - 0x30)) n t (vars first true true (pos 0) invalid_port) h.0.1 h.2,
)
scan_first false (c ∷ n) t h = ground (
  arith,
  scan_from (0 * 10 + (c - 0x30)) n t (vars first false true (pos 0) invalid_port) h.0.1 h.2,
)

-- The second number replaces what stood in `_to`.
scan_second :
    (neg : Bool) (m : Text) (f to : ℤ)
    → IsNumber m
    → scan (m ++ []) (vars second neg true f to)
      ≡ ended (vars second neg false f (pos (digits_value 0 m)))
unfolding scan round add_digit to_digit digits_value
scan_second neg [] f to h = absurd (omega (arith, h.1))
scan_second neg (c ∷ m) f to h =
    ground (arith, scan_to (0 * 10 + (c - 0x30)) m [] (vars second neg true f to) h.0.1 h.2)

-- The variables when the loop is over.
abbrev final : Bool → PortRange → Locals
final neg (one n) = vars first neg true (pos (digits_value 0 n)) invalid_port
final neg (from_on n) = vars second neg true (pos (digits_value 0 n)) (pos 65535)
final neg (up_to m) = vars second neg false (pos 0) (pos (digits_value 0 m))
final neg (between n m) = vars second neg false (pos (digits_value 0 n)) (pos (digits_value 0 m))

scan-print_range :
    (neg : Bool) (r : PortRange)
    → IsWritten r
    → scan (print_range r) (vars (opening neg) neg true (pos 0) invalid_port) ≡ ended (final neg r)
unfolding scan round
scan-print_range neg (one n) h = ground (arith, scan_first neg n [] h)
scan-print_range neg (from_on n) h = ground (arith, scan_first neg n (b':' ∷ []) h)
scan-print_range true (up_to m) h = scan_second true m (pos 0) invalid_port h
scan-print_range false (up_to m) h = scan_second false m (pos 0) invalid_port h
scan-print_range neg (between n m) h =
    scan_first neg n (b':' ∷ (m ++ [])) h.0
    ∙ scan_second neg m (pos (digits_value 0 n)) (pos 65535) h.1

scan-print :
    (neg : Bool) (r : PortRange) → IsWritten r → scan (print neg r) locals ≡ ended (final neg r)
unfolding scan round print locals
scan-print true r h = scan-print_range true r h
scan-print false r h = scan-print_range false r h

-- The object after the assignment of a range that is written in one of the forms.
abbrev pub param_of : Bool → PortRange → PortParam
param_of neg r = record {
  not_sign = neg;
  port_range = is_range r;
  port_string = print neg r;
  from = pos (lower r);
  to = upper r;
}

assign-checked :
    (neg : Bool) (r : PortRange)
    → IsWritten r
    → length (print neg r) < 256
    → assign (print neg r) ≡ checked (print neg r) (final neg r)
unfolding assign assign_within
assign-checked neg r w h =
    ap (finish (print neg r))
      (loop-scan (print neg r) 257 locals h (omega (arith, h)) ∙ scan-print neg r w)

-- A text of one of the forms, with fewer than 256 characters and numbers that fit an int, whose ports
-- are at most 65535 and whose range has at least two ports, is stored: the sign, both ends (-1 as the
-- last port of a single port) and whether it is a range are what the text says.
pub assign-print :
    (neg : Bool) (r : PortRange)
    → IsWritten r
    → InRange r
    → length (print neg r) < 256
    → assign (print neg r) ≡ stored (param_of neg r)
unfolding checked check_range store
assign-print neg r w i h = assign-checked neg r w h ∙ on_form r w i
  where
    on_form :
        (r : PortRange)
        → IsWritten r
        → InRange r
        → checked (print neg r) (final neg r) ≡ stored (param_of neg r)
    on_form (one n) w i = ground arith
    on_form (from_on n) w i = ground arith
    on_form (up_to m) w i = ground arith
    on_form (between n m) w i = ground arith

-- A text of one of the forms, with fewer than 256 characters and numbers that fit an int, whose ports
-- are not all at most 65535 or whose range has fewer than two ports, is refused: the number where
-- an end is too large, otherwise the range.
assign_out_of_range :
    (neg : Bool) (r : PortRange)
    → IsWritten r
    → length (print neg r) < 256
    → ¬ InRange r
    → (assign (print neg r) ≡ thrown invalid_port_number)
      ⊎ ((assign (print neg r) ≡ thrown invalid_port_range)
          × (lower r ≤ 65535)
          × (upper r ≤ℤ pos (lower r)))
unfolding checked check_range
assign_out_of_range neg r w h out = rw (assign-checked neg r w h) (on_form r w out)
  where
    on_form :
        (r : PortRange)
        → IsWritten r
        → ¬ InRange r
        → (checked (print neg r) (final neg r) ≡ thrown invalid_port_number)
          ⊎ ((checked (print neg r) (final neg r) ≡ thrown invalid_port_range)
              × (lower r ≤ 65535)
              × (upper r ≤ℤ pos (lower r)))
    on_form (one n) w out = ground arith
    on_form (from_on n) w out = ground arith
    on_form (up_to m) w out = ground arith
    on_form (between n m) w out = ground arith
