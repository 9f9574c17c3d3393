-- ===== src/Ipv4/Printed.antt =====
-- `IPv4Param::set(const string &)` of src/sparam.cpp on what `value` and `getAddress` print.
use pparam.Prelude.{
  ℕ, ◌+◌, ◌-◌, ◌*◌, ◌≤◌, ◌≡◌, refl, ◌∙◌, true, false, ◌&&◌, ◌||◌, some, [], ◌∷◌, ◌++◌, Text, length,
  ◌==◌, arith, print_nat,
}
use pparam.Prelude.Int.{pos}
use pparam.Prelude.Decimal.{
  is_digit, IsDigits, read_digits, digits_value, digits_value-print_nat, print_nat-IsDigits,
  print_nat_nonempty,
}
use pparam.Exception.{ok}
use pparam.Ip.{contains, validate_string, split}
use pparam.Ip.Cuts.{Without, split-joined}
use pparam.Ipv4.{
  Ipv4Param, set, set_address, set_address_texts, set_address_parts, allowedchars, strtol, strtoul,
  empty,
}
use pparam.Ipv4.Queries.{get_address}
use pparam.Ipv4.Compact.{IsIpv4}

digits-Without : (c : ℕ) (s : Text) → is_digit c ≡ false → IsDigits s → Without c s
unfolding contains
digits-Without c [] h d = refl
digits-Without c (x ∷ s) h d = ground (arith, digits-Without c s h d.1)

pub contains-append : (c : ℕ) (a s : Text) → contains c (a ++ s) ≡ (contains c a || contains c s)
unfolding contains
contains-append c [] s = refl
contains-append c (x ∷ a) s = ground (arith, contains-append c a s)

digit_allowed : (c : ℕ) → is_digit c ≡ true → contains c allowedchars ≡ true
unfolding contains
digit_allowed c h = ground arith

digits_valid : (s : Text) → IsDigits s → validate_string s allowedchars ≡ true
unfolding validate_string
digits_valid [] d = refl
digits_valid (c ∷ s) d = rw (digit_allowed c d.0) (digits_valid s d.1)

validate_string-append :
    (a s : Text)
    → validate_string (a ++ s) allowedchars
      ≡ (validate_string a allowedchars && validate_string s allowedchars)
unfolding validate_string
validate_string-append [] s = refl
validate_string-append (c ∷ a) s = ground (arith, validate_string-append a s)

read_digits_all : (acc : ℕ) (s : Text) → IsDigits s → (read_digits acc s).0 ≡ digits_value acc s
unfolding read_digits digits_value
read_digits_all acc [] d = refl
read_digits_all acc (c ∷ s) d = rw d.0 (read_digits_all (acc * 10 + (c - 0x30)) s d.1)

read-print : (n : ℕ) → (read_digits 0 (print_nat n)).0 ≡ n
read-print n = read_digits_all 0 (print_nat n) (print_nat-IsDigits n) ∙ digits_value-print_nat n

strtol-print : (n : ℕ) → n ≤ 255 → strtol (print_nat n) ≡ pos n
unfolding strtol
strtol-print n h = rw (read-print n) (ground arith)

pub strtoul-print : (n : ℕ) → n ≤ 255 → strtoul (print_nat n) ≡ n
unfolding strtoul
strtoul-print n h = rw (read-print n) (ground arith)

pub print-Without : (c n : ℕ) → is_digit c ≡ false → Without c (print_nat n)
print-Without c n h = digits-Without c (print_nat n) h (print_nat-IsDigits n)

pub nonempty : (s : Text) → 1 ≤ length s → empty s ≡ false
nonempty [] h = absurd (omega arith)
nonempty (c ∷ s) h = refl

pub print_empty : (n : ℕ) → empty (print_nat n) ≡ false
print_empty n = nonempty (print_nat n) (print_nat_nonempty n)

-- An object with the address of another.
abbrev pub with_address : Ipv4Param → Ipv4Param → Ipv4Param
with_address p q = record p { part0 = q.part0; part1 = q.part1; part2 = q.part2; part3 = q.part3 }

printed_texts :
    (p q : Ipv4Param)
    → IsIpv4 q
    → set_address_texts p
        (some (print_nat q.part0 ∷ print_nat q.part1 ∷ print_nat q.part2 ∷ print_nat q.part3 ∷ []))
      ≡ ok (with_address p q)
unfolding set_address_parts
printed_texts p q h =
    rw (print_empty q.part0, print_empty q.part1, print_empty q.part2, print_empty q.part3)
      (rw
        (
          strtol-print q.part0 h.0,
          strtol-print q.part1 h.1,
          strtol-print q.part2 h.2,
          strtol-print q.part3 h.3,
        )
        (ground arith))

split-get_address :
    (q : Ipv4Param)
    → split (get_address q) b'.'
      ≡ some (print_nat q.part0 ∷ print_nat q.part1 ∷ print_nat q.part2 ∷ print_nat q.part3 ∷ [])
unfolding get_address
split-get_address q =
    split-joined b'.' (print_nat q.part0) (print_nat q.part1)
      (print_nat q.part2 ∷ print_nat q.part3 ∷ []) (print-Without b'.' q.part0 refl)
      (print-Without b'.' q.part1 refl)
      (print-Without b'.' q.part2 refl, (print-Without b'.' q.part3 refl, tt))

pub print_valid : (n : ℕ) → validate_string (print_nat n) allowedchars ≡ true
print_valid n = digits_valid (print_nat n) (print_nat-IsDigits n)

validate-get_address : (q : Ipv4Param) → validate_string (get_address q) allowedchars ≡ true
unfolding get_address validate_string contains
validate-get_address q = ground (
  arith,
  validate_string-append (print_nat q.part0)
      (b'.' ∷ (print_nat q.part1 ++ (b'.' ∷ (print_nat q.part2 ++ (b'.' ∷ print_nat q.part3))))),
  validate_string-append (print_nat q.part1)
      (b'.' ∷ (print_nat q.part2 ++ (b'.' ∷ print_nat q.part3))),
  validate_string-append (print_nat q.part2) (b'.' ∷ print_nat q.part3),
  print_valid q.part0,
  print_valid q.part1,
  print_valid q.part2,
  print_valid q.part3,
)

pub contains-get_address :
    (c : ℕ) (q : Ipv4Param) → is_digit c ≡ false → contains c (get_address q) ≡ (b'.' == c)
unfolding get_address contains
contains-get_address c q h = ground (
  arith,
  contains-append c (print_nat q.part0)
      (b'.' ∷ (print_nat q.part1 ++ (b'.' ∷ (print_nat q.part2 ++ (b'.' ∷ print_nat q.part3))))),
  contains-append c (print_nat q.part1) (b'.' ∷ (print_nat q.part2 ++ (b'.' ∷ print_nat q.part3))),
  contains-append c (print_nat q.part2) (b'.' ∷ print_nat q.part3),
  print-Without c q.part0 h,
  print-Without c q.part1 h,
  print-Without c q.part2 h,
  print-Without c q.part3 h,
)

pub set_address-get_address :
    (p q : Ipv4Param) → IsIpv4 q → set_address p (get_address q) ≡ ok (with_address p q)
unfolding set_address
set_address-get_address p q h =
    rw (validate-get_address q, contains-get_address b'.' q refl, split-get_address q)
      (printed_texts p q h)

-- A printed address is read back; netmask and name stay.
pub set-get_address :
    (p q : Ipv4Param) → IsIpv4 q → set p (get_address q) ≡ (with_address p q, ok tt)
unfolding set
set-get_address p q h =
    rw
      (
        contains-get_address b'\\' q refl,
        contains-get_address b'/' q refl,
        set_address-get_address p q h,
      )
      refl
