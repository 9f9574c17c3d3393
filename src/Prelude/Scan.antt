-- ===== src/Prelude/Scan.antt =====
-- What `sscanf` does on `%d` and on `%d` fields with a separator between them, and `%0wd` of an int.
use Prim.Native.Nat.{ℕ, zero, suc, ◌-◌, ◌≤◌}
use mathlib.Core.Path.{◌≡◌, refl, ap, ◌∙◌}
use mathlib.Core.Bool.{Bool, true, false, ◌&&◌, ◌||◌}
use mathlib.Core.Option.{Option, none, some}
use mathlib.Core.List.{List, [], ◌∷◌, ◌++◌}
use native.Mathlib.Omega.{arith}
use pparam.Prelude.Tests.{ltb, leb, ◌==◌, if◌then◌else◌}
use pparam.Prelude.Lists.{length}
use pparam.Prelude.Texts.{Text}
use pparam.Prelude.Int.{ℤ, pos, negsuc, neg_ℕ}
use pparam.Prelude.Decimal.{
  is_digit, starts_with_digit, read_digits, digits_value, IsDigits, print_pad, read_digits-append,
  digits_value-print_pad, print_pad-IsDigits, length-print_pad, print_nat_nonempty,
}

-- `isspace`
abbrev pub is_space : ℕ → Bool
is_space c = (leb 9 c && leb c 13) || c == 32

unfoldable pub skip_space : Text → Text
skip_space [] = []
skip_space (c ∷ s) = let rest = skip_space s in if is_space c then rest else c ∷ s

abbrev read_nat : (ℕ → ℤ) → Text → Option (ℤ × Text)
read_nat sign s =
    if starts_with_digit s then some (sign (read_digits 0 s).0, (read_digits 0 s).1) else none

abbrev pub read_signed : Text → Option (ℤ × Text)
read_signed [] = none
read_signed (c ∷ s) =
    if c == b'-'
    then read_nat neg_ℕ s
    else if c == b'+'
    then read_nat pos s
    else read_nat pos (c ∷ s)

-- `%d`: white space, an optional sign, digits.
unfoldable pub scan_int : Text → Option (ℤ × Text)
scan_int s = read_signed (skip_space s)

-- The text behind the separator, if it stands there.
unfoldable pub expect : ℕ → Text → Option Text
expect sep [] = none
expect sep (c ∷ s) = if c == sep then some s else none

-- The integers that `"%d<sep>%d<sep>…%d"` with `k` fields assigns: `sscanf` stops at the first
-- field or separator that does not match.
unfoldable pub scan_fields : ℕ → ℕ → Text → List ℤ
unfolding scan_int expect
scan_fields sep zero s = []
scan_fields sep (suc k) s = elim (scan_int s) [
  | none ↦ []
  | some (z, r) ↦ z ∷ elim (expect sep r) [ none ↦ [] | some t ↦ scan_fields sep k t ]
]

-- The input ends before the first conversion: `sscanf` returns `EOF`.
unfoldable pub is_eof : Text → Bool
is_eof s = elim (skip_space s) [ [] ↦ true | c ∷ t ↦ false ]

-- `%0wd`
unfoldable pub print_int_pad : ℕ → ℤ → Text
unfolding print_pad
print_int_pad w (pos n) = print_pad w n
print_int_pad w (negsuc n) = b'-' ∷ print_pad (w - 1) (suc n)

-- `sprintf` into a buffer of `size` bytes, with the closing zero: what is printed, or `none` where it
-- does not fit, which is undefined.
unfoldable pub sprintf_into : ℕ → Text → Option Text
sprintf_into size s = if ltb (length s) size then some s else none

-- Digits are read as the number that they are, up to what follows.
pub scan_int-digits :
    (s t : Text)
    → IsDigits s
    → 1 ≤ length s
    → starts_with_digit t ≡ false
    → scan_int (s ++ t) ≡ some (pos (digits_value 0 s), t)
unfolding scan_int skip_space
scan_int-digits [] t d n h = absurd (omega arith)
scan_int-digits (c ∷ s) t d n h = ground (arith, read_digits-append 0 (c ∷ s) t d h)

print_pad_nonempty : (w n : ℕ) → 1 ≤ length (print_pad w n)
print_pad_nonempty w n = omega (arith, length-print_pad w n, print_nat_nonempty n)

pub scan_int-print_pad :
    (w n : ℕ) (t : Text)
    → starts_with_digit t ≡ false
    → scan_int (print_pad w n ++ t) ≡ some (pos n, t)
scan_int-print_pad w n t h =
    scan_int-digits (print_pad w n) t (print_pad-IsDigits w n) (print_pad_nonempty w n) h
    ∙ ap (λ k. some (pos k, t)) (digits_value-print_pad w n)

-- Three numbers, padded to any widths and joined by a separator that is no digit, are read back.
pub scan_fields-print_pad :
    (sep w v u a b c : ℕ)
    → is_digit sep ≡ false
    → scan_fields sep 3 (print_pad w a ++ (sep ∷ (print_pad v b ++ (sep ∷ (print_pad u c ++ [])))))
      ≡ pos a ∷ pos b ∷ pos c ∷ []
unfolding scan_fields
scan_fields-print_pad sep w v u a b c h = ground (
  arith,
  scan_int-print_pad w a (sep ∷ (print_pad v b ++ (sep ∷ (print_pad u c ++ [])))) h,
  scan_int-print_pad v b (sep ∷ (print_pad u c ++ [])) h,
  scan_int-print_pad u c [] refl,
)

pub is_eof-digits : (s t : Text) → IsDigits s → 1 ≤ length s → is_eof (s ++ t) ≡ false
unfolding is_eof skip_space
is_eof-digits [] t d n = absurd (omega arith)
is_eof-digits (c ∷ s) t d n = ground arith

pub is_eof-print_pad : (w n : ℕ) (t : Text) → is_eof (print_pad w n ++ t) ≡ false
is_eof-print_pad w n t =
    is_eof-digits (print_pad w n) t (print_pad-IsDigits w n) (print_pad_nonempty w n)
