-- ===== src/IntParam/Printed.antt =====
-- The text of an integer parameter (include/xparam.hpp), printed and read.
use pparam.Prelude.{ℕ, ◌≤◌, ◌≡◌, refl, ap, sym, ◌∙◌, some, Text, [], ◌∷◌, ◌++◌, arith, print_nat}
use pparam.Prelude.Int.{ℤ, pos}
use pparam.Prelude.Decimal.{print_nat-IsDigits, print_nat_nonempty, digits_value-print_nat}
use pparam.Prelude.Scan.{skip_space, read_signed, scan_int, scan_int-digits}
use pparam.Exception.{ok}
use pparam.IntParam.{uint_max, IntParam, set_value, assign, extracted, extract_from, value}
use pparam.IntParam.Range.{InRange}

append_nothing : (s : Text) → s ++ [] ≡ s
append_nothing [] = refl
append_nothing (c ∷ s) = ap (λ (t : Text). c ∷ t) (append_nothing s)

extract_read :
    (junk : ℕ) (u : Text) (v : ℤ × Text)
    → read_signed u ≡ some v
    → extract_from junk u ≡ extracted (some v)
extract_read junk [] v h = cc
extract_read junk (c ∷ s) v h = ap extracted h

scan_int-print_nat : (n : ℕ) → scan_int (print_nat n) ≡ some (pos n, [])
scan_int-print_nat n =
    ap scan_int (sym (append_nothing (print_nat n)))
    ∙ scan_int-digits (print_nat n) [] (print_nat-IsDigits n) (print_nat_nonempty n) refl
    ∙ ap (λ (k : ℕ). some (pos k, [])) (digits_value-print_nat n)

-- A number that fits is read back from its digits.
extract_from-print_nat :
    (junk n : ℕ) → n ≤ uint_max → extract_from junk (skip_space (print_nat n)) ≡ n
unfolding scan_int
extract_from-print_nat junk n h =
    extract_read junk (skip_space (print_nat n)) (pos n, []) (scan_int-print_nat n) ∙ ground arith

set_value_inside :
    (n : ℕ) (q : IntParam)
    → (q.min ≤ q.max → (q.min ≤ n) × (n ≤ q.max))
    → set_value n q ≡ ok (record q { val = n })
unfolding set_value
set_value_inside n q h = ground (arith, h)

-- The text of a parameter in its range, assigned to a parameter with the same range, gives it the same
-- value.
assign-value_int :
    (junk : ℕ) (p q : IntParam)
    → InRange p
    → q.min ≡ p.min
    → q.max ≡ p.max
    → assign junk (value p) q ≡ ok (record q { val = p.val })
unfolding assign value
assign-value_int junk p q h l u =
    let inside : q.min ≤ q.max → (q.min ≤ p.val) × (p.val ≤ q.max) = λ c. ground (arith, h.3) in
    ap (λ (n : ℕ). set_value n q) (extract_from-print_nat junk p.val h.0)
    ∙ set_value_inside p.val q inside
