-- ===== src/Prelude/Decimal.antt =====
-- Unsigned decimal text: what `<<` prints and what `strtol`, `sscanf` and `>>` read of digits.
use Prim.Native.Nat.{ℕ, zero, suc, ◌+◌, ◌-◌, ◌*◌, ◌/◌, ◌%◌, ◌≤◌, ◌<◌}
use mathlib.Core.Path.{◌≡◌, refl, ap, ◌∙◌}
use mathlib.Core.Logic.{inl, inr}
use mathlib.Core.Bool.{Bool, true, false, ◌&&◌}
use mathlib.Core.List.{[], ◌∷◌, ◌++◌}
use native.Mathlib.Omega.{arith}
use native.Mathlib.Numerals.{add-one}
use pparam.Prelude.Tests.{ltb, leb, if◌then◌else◌, Bool-cases, lt→ltb, le→ltb}
use pparam.Prelude.Lists.{length, All, All-append, length-append}
use pparam.Prelude.Texts.{Text}

-- `isdigit`
abbrev pub is_digit : ℕ → Bool
is_digit c = leb 0x30 c && leb c 0x39

-- The digits of `n` in front of `acc`; `fuel` bounds their number.
print_acc : ℕ → ℕ → Text → Text
print_acc zero n acc = acc
print_acc (suc fuel) n acc =
    let rest = print_acc fuel (n / 10) ((n % 10 + 0x30) ∷ acc) in
    if ltb n 10 then (n % 10 + 0x30) ∷ acc else rest

-- A number below 2 ^ 64 has at most twenty digits; one digit per unit is always enough.
unfoldable pub print_nat : ℕ → Text
unfolding print_acc
print_nat n = print_acc (n + 1) n []

-- The longest prefix of digits, read in base ten on top of `acc`; also what is left.
unfoldable pub read_digits : ℕ → Text → ℕ × Text
read_digits acc [] = (acc, [])
read_digits acc (c ∷ s) =
    let rest = read_digits (acc * 10 + (c - 0x30)) s in if is_digit c then rest else (acc, c ∷ s)

abbrev pub starts_with_digit : Text → Bool
starts_with_digit [] = false
starts_with_digit (c ∷ s) = is_digit c

-- A decimal text is a list of its digits: `base_value` is their value.
unfoldable pub digits_value : ℕ → Text → ℕ
digits_value acc [] = acc
digits_value acc (c ∷ s) = digits_value (acc * 10 + (c - 0x30)) s

abbrev pub IsDigits : Text → Type 0
IsDigits s = All (λ c. is_digit c ≡ true) s

-- `%0wd`: the digits, padded with zeros in front to `w` of them.
abbrev pub zeros : ℕ → Text
zeros zero = []
zeros (suc n) = 0x30 ∷ zeros n

unfoldable pub print_pad : ℕ → ℕ → Text
unfolding print_nat
print_pad w n = zeros (w - length (print_nat n)) ++ print_nat n

pub digits_value-append :
    (acc : ℕ) (s t : Text) → digits_value acc (s ++ t) ≡ digits_value (digits_value acc s) t
unfolding digits_value
digits_value-append acc [] t = refl
digits_value-append acc (c ∷ s) t = digits_value-append (acc * 10 + (c - 0x30)) s t

digits_value-print_acc :
    (fuel n : ℕ) (acc : Text)
    → n < fuel
    → digits_value 0 (print_acc fuel n acc) ≡ digits_value n acc
unfolding digits_value print_acc
digits_value-print_acc zero n acc h = elim h [ ]
digits_value-print_acc (suc fuel) n acc h = elim (Bool-cases (ltb n 10)) [
  | inl low ↦ rw low (ap (λ k. digits_value k acc) (ground arith))
  | inr high ↦ rw high (
      digits_value-print_acc fuel (n / 10) ((n % 10 + 0x30) ∷ acc) (ground arith)
      ∙ ap (λ k. digits_value k acc) (omega arith))
]

-- Reading what was printed gives the number back.
pub digits_value-print_nat : (n : ℕ) → digits_value 0 (print_nat n) ≡ n
unfolding print_nat digits_value
digits_value-print_nat n = digits_value-print_acc (n + 1) n [] (omega arith)

print_acc-IsDigits : (fuel n : ℕ) (acc : Text) → IsDigits acc → IsDigits (print_acc fuel n acc)
unfolding print_acc
print_acc-IsDigits zero n acc h = h
print_acc-IsDigits (suc fuel) n acc h = elim (Bool-cases (ltb n 10)) [
  | inl low ↦ rw low (ground arith, h)
  | inr high ↦ rw high (print_acc-IsDigits fuel (n / 10) _ (ground arith, h))
]

pub print_nat-IsDigits : (n : ℕ) → IsDigits (print_nat n)
unfolding print_nat
print_nat-IsDigits n = print_acc-IsDigits (n + 1) n [] tt

print_acc_nonempty : (fuel n : ℕ) (acc : Text) → 1 ≤ length acc → 1 ≤ length (print_acc fuel n acc)
unfolding print_acc
print_acc_nonempty zero n acc h = h
print_acc_nonempty (suc fuel) n acc h = elim (Bool-cases (ltb n 10)) [
  | inl low ↦ rw low (omega arith)
  | inr high ↦ rw high (print_acc_nonempty fuel (n / 10) _ (omega arith))
]

pub print_nat_nonempty : (n : ℕ) → 1 ≤ length (print_nat n)
unfolding print_nat print_acc
print_nat_nonempty n = rw (add-one n) (elim (Bool-cases (ltb n 10)) [
  | inl low ↦ rw low (omega arith)
  | inr high ↦ rw high (print_acc_nonempty n (n / 10) _ (omega arith))
])

digits_value-zeros : (n : ℕ) (s : Text) → digits_value 0 (zeros n ++ s) ≡ digits_value 0 s
unfolding digits_value
digits_value-zeros zero s = refl
digits_value-zeros (suc n) s = digits_value-zeros n s

pub digits_value-print_pad : (w n : ℕ) → digits_value 0 (print_pad w n) ≡ n
unfolding print_pad
digits_value-print_pad w n = digits_value-zeros _ (print_nat n) ∙ digits_value-print_nat n

zeros-IsDigits : (n : ℕ) → IsDigits (zeros n)
zeros-IsDigits zero = tt
zeros-IsDigits (suc n) = (refl, zeros-IsDigits n)

pub print_pad-IsDigits : (w n : ℕ) → IsDigits (print_pad w n)
unfolding print_pad
print_pad-IsDigits w n =
    All-append _ (zeros _) (print_nat n) (zeros-IsDigits _) (print_nat-IsDigits n)

pub length-zeros : (n : ℕ) → length (zeros n) ≡ n
length-zeros zero = refl
length-zeros (suc n) = ap suc (length-zeros n)

pub length-print_pad :
    (w n : ℕ) → length (print_pad w n) ≡ w - length (print_nat n) + length (print_nat n)
unfolding print_pad
length-print_pad w n =
    length-append (zeros _) (print_nat n) ∙ ap (λ k. k + length (print_nat n)) (length-zeros _)

-- The digits in front of a text that goes on with something else are read, and no more.
pub read_digits-append :
    (acc : ℕ) (s t : Text)
    → IsDigits s
    → starts_with_digit t ≡ false
    → read_digits acc (s ++ t) ≡ (digits_value acc s, t)
unfolding read_digits digits_value
read_digits-append acc [] [] d h = refl
read_digits-append acc [] (c ∷ t) d h = rw h refl
read_digits-append acc (c ∷ s) t d h =
    rw (d.0) (read_digits-append (acc * 10 + (c - 0x30)) s t d.1 h)

abbrev pub pow10 : ℕ → ℕ
pow10 zero = 1
pow10 (suc k) = 10 * pow10 k

pow10_pos : (k : ℕ) → 1 ≤ pow10 k
pow10_pos zero = omega arith
pow10_pos (suc k) = omega (arith, pow10_pos k)

length-print_acc-le :
    (k fuel n : ℕ) (acc : Text)
    → n < pow10 (suc k)
    → n < fuel
    → length (print_acc fuel n acc) ≤ suc k + length acc
unfolding print_acc
length-print_acc-le k zero n acc h f = elim f [ ]
length-print_acc-le zero (suc fuel) n acc h f = rw (lt→ltb n 10 (omega arith)) (omega arith)
length-print_acc-le (suc k) (suc fuel) n acc h f = elim (Bool-cases (ltb n 10)) [
  | inl low ↦ rw low (omega arith)
  | inr high ↦ rw high (
      omega (
        arith,
        length-print_acc-le k fuel (n / 10) ((n % 10 + 0x30) ∷ acc) (omega arith) (ground arith),
      ))
]

length-print_acc-ge :
    (k fuel n : ℕ) (acc : Text)
    → pow10 k ≤ n
    → n < fuel
    → suc k + length acc ≤ length (print_acc fuel n acc)
unfolding print_acc
length-print_acc-ge k zero n acc h f = elim f [ ]
length-print_acc-ge zero (suc fuel) n acc h f = elim (Bool-cases (ltb n 10)) [
  | inl low ↦ rw low (omega arith)
  | inr high ↦ rw high (
      omega (
        arith,
        length-print_acc-ge zero fuel (n / 10) ((n % 10 + 0x30) ∷ acc) (ground arith)
            (ground arith),
      ))
]
length-print_acc-ge (suc k) (suc fuel) n acc h f =
    let h10 : 10 ≤ n = omega (arith, pow10_pos k) in
    rw (le→ltb n 10 h10) (
      omega (
        arith,
        length-print_acc-ge k fuel (n / 10) ((n % 10 + 0x30) ∷ acc) (omega arith) (omega arith),
      ))

-- A number below 10 ^ (k + 1) has at most k + 1 digits, and one from 10 ^ k on has at least as many.
pub length-print_nat-le : (k n : ℕ) → n < pow10 (suc k) → length (print_nat n) ≤ suc k
unfolding print_nat
length-print_nat-le k n h = omega (arith, length-print_acc-le k (n + 1) n [] h (omega arith))

pub length-print_nat-ge : (k n : ℕ) → pow10 k ≤ n → suc k ≤ length (print_nat n)
unfolding print_nat
length-print_nat-ge k n h = omega (arith, length-print_acc-ge k (n + 1) n [] h (omega arith))
