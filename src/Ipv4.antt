-- ===== src/Ipv4.antt =====
-- `IPv4Param` of include/sparam.hpp and src/sparam.cpp.
pub mod Compact
pub mod Network
pub mod Queries
pub mod Printed
pub mod Values
use pparam.Prelude.{
  ℕ, ◌+◌, ◌-◌, ◌*◌, ◌/◌, ◌%◌, ◌^◌, Bool, true, false, not, ◌&&◌, ◌||◌, Option, none, some, List, [],
  ◌∷◌, ◌++◌, Text, codes, text, text_eq, ltb, leb, ◌==◌, if◌then◌else◌, print_nat,
}
use pparam.Prelude.Int.{ℤ, pos, negsuc, pos_part}
use pparam.Prelude.Decimal.{read_digits}
use pparam.Exception.{exception, Result, ok, err, guard, ◌>>=◌, trace_point}
use pparam.Time.{u32, u64}
use pparam.Ip.{
  contains, split, validate_string, convert_compact_netmask_to_simple,
  convert_simple_netmask_to_compact, and_bits,
}

-- The first four entries of `address`, which are bytes (`checkByteRange`).
pub record Ipv4Param : Type 0 where
  pub pname : Text
  pub part0 : ℕ
  pub part1 : ℕ
  pub part2 : ℕ
  pub part3 : ℕ
  pub netmask : ℕ
  pub contain_netmask : Bool

-- The constructor, by way of `reset`.
unfoldable pub ipv4_param : Text → Ipv4Param
ipv4_param name = record {
  pname = name;
  part0 = 0;
  part1 = 0;
  part2 = 0;
  part3 = 0;
  netmask = 32;
  contain_netmask = false;
}

unfoldable pub reset : Ipv4Param → Ipv4Param
unfolding ipv4_param
reset p = ipv4_param p.pname

-- `checkByteRange`
abbrev pub is_byte : ℤ → Bool
is_byte (pos n) = not (ltb 255 n)
is_byte (negsuc n) = false

abbrev are_bytes : ℤ → ℤ → ℤ → ℤ → Bool
are_bytes a b c d = is_byte a && (is_byte b && (is_byte c && is_byte d))

abbrev bad_ip {ℓ} : {A : Type ℓ} → Result A
bad_ip = err (exception (text "IP is not valid") (trace_point "sparam" "setAddress"))

abbrev bad_netmask {ℓ} : {A : Type ℓ} → Result A
bad_netmask = err (exception (text "Netmask is not valid") (trace_point "sparam" "setNetmask"))

-- `setAddress(int, int, int, int)`
unfoldable pub set_address_parts : Ipv4Param → ℤ → ℤ → ℤ → ℤ → Result Ipv4Param
set_address_parts p a b c d =
    if are_bytes a b c d
    then ok (record p {
      part0 = pos_part a;
      part1 = pos_part b;
      part2 = pos_part c;
      part3 = pos_part d;
    })
    else bad_ip

-- `setAddress(const unsigned int &)`: the bytes of the number, from the highest on.
unfoldable pub set_address_number : Ipv4Param → ℕ → Result Ipv4Param
unfolding set_address_parts
set_address_number p n =
    set_address_parts p (pos (n / 2 ^ 24 % 256)) (pos (n / 2 ^ 16 % 256)) (pos (n / 2 ^ 8 % 256))
      (pos (n % 256))

-- A long as an int.
abbrev to_int : ℕ → ℤ
to_int n = if ltb (n % u32) (u32 / 2) then pos (n % u32) else negsuc (u32 - n % u32 - 1)

-- `strtol` in base ten of a text that begins with a digit, which stops at `LONG_MAX`, as an int.
unfoldable pub strtol : Text → ℤ
strtol s = let n = (read_digits 0 s).0 in to_int (if ltb n (u64 / 2) then n else u64 / 2 - 1)

-- `strtoul` of a text without sign and blanks, which stops at `ULONG_MAX`, as an unsigned int.
unfoldable pub strtoul : Text → ℕ
strtoul s = let n = (read_digits 0 s).0 in (if ltb n u64 then n else u64 - 1) % u32

abbrev pub allowedchars : Text
allowedchars = codes "0123456789."

abbrev pub empty : Text → Bool
empty [] = true
empty (c ∷ s) = false

abbrev set_address_bytes : Ipv4Param → ℤ → ℤ → ℤ → ℤ → Result Ipv4Param
set_address_bytes p a b c d = if are_bytes a b c d then set_address_parts p a b c d else bad_ip

abbrev pub set_address_texts : Ipv4Param → Option (List Text) → Result Ipv4Param
set_address_texts p (some (a ∷ b ∷ c ∷ d ∷ [])) =
    if empty a || (empty b || (empty c || empty d))
    then bad_ip
    else set_address_bytes p (strtol a) (strtol b) (strtol c) (strtol d)
set_address_texts p _ = bad_ip

-- `setAddress(const string &)`. The second test of the characters, meant for hexadecimal digits,
-- repeats the first, so that the base is always ten. The text has a dot where it is split.
unfoldable pub set_address : Ipv4Param → Text → Result Ipv4Param
unfolding set_address_parts set_address_number strtol strtoul
set_address p s =
    if validate_string s allowedchars
    then (if contains b'.' s
        then set_address_texts p (split s b'.')
        else set_address_number p (strtoul s))
    else bad_ip

-- `setNetmask(const unsigned int &)`
unfoldable pub set_netmask_number : Ipv4Param → ℕ → Result Ipv4Param
set_netmask_number p n =
    if leb n 32 then ok (record p { netmask = n; contain_netmask = true }) else bad_netmask

abbrev pub set_netmask_simple : Ipv4Param → Option ℕ → Result Ipv4Param
set_netmask_simple p (some simpleform) = set_netmask_number p simpleform
set_netmask_simple p none = bad_netmask

-- A netmask written as 32 bits.
unfoldable pub set_netmask_compact : Ipv4Param → ℕ → Result Ipv4Param
unfolding set_netmask_number
set_netmask_compact p n = set_netmask_simple p (convert_compact_netmask_to_simple n)

-- `setNetmask(int, int, int, int)`
unfoldable pub set_netmask_parts : Ipv4Param → ℤ → ℤ → ℤ → ℤ → Result Ipv4Param
unfolding set_netmask_compact
set_netmask_parts p a b c d =
    if are_bytes a b c d
    then set_netmask_compact p
        ((pos_part a * 16777216 + pos_part b * 65536 + pos_part c * 256 + pos_part d) % u32)
    else bad_netmask

abbrev set_netmask_bytes : Ipv4Param → ℤ → ℤ → ℤ → ℤ → Result Ipv4Param
set_netmask_bytes p a b c d = if are_bytes a b c d then set_netmask_parts p a b c d else bad_netmask

abbrev pub set_netmask_texts : Ipv4Param → Option (List Text) → Result Ipv4Param
set_netmask_texts p (some (a ∷ b ∷ c ∷ d ∷ [])) =
    if empty a || (empty b || (empty c || empty d))
    then bad_netmask
    else set_netmask_bytes p (strtol a) (strtol b) (strtol c) (strtol d)
set_netmask_texts p _ = bad_netmask

-- The branches of a netmask without dots.
abbrev set_netmask_digits : Ipv4Param → ℕ → Result Ipv4Param
set_netmask_digits p caddr =
    if leb caddr 32 then set_netmask_number p caddr else set_netmask_compact p caddr

-- `setNetmask(const string &)`, which tests the characters like `setAddress`.
unfoldable pub set_netmask : Ipv4Param → Text → Result Ipv4Param
unfolding set_netmask_number set_netmask_compact set_netmask_parts strtol strtoul
set_netmask p s =
    if validate_string s allowedchars
    then (if contains b'.' s
        then set_netmask_texts p (split s b'.')
        else set_netmask_digits p (strtoul s))
    else bad_netmask

-- An object beside the outcome of a call on it; what throws leaves the object as it was.
abbrev pub keep : Ipv4Param → Result Ipv4Param → Ipv4Param × Result (Unit {0})
keep p (ok q) = (q, ok tt)
keep p (err e) = (p, err e)

abbrev pub then_netmask : Ipv4Param → Result Ipv4Param → Text → Ipv4Param × Result (Unit {0})
then_netmask p (ok q) s = keep q (set_netmask q s)
then_netmask p (err e) s = (p, err e)

abbrev pub set_both : Ipv4Param → Option (List Text) → Ipv4Param × Result (Unit {0})
set_both p (some (a ∷ m ∷ [])) =
    if empty a || empty m
    then (p, err (exception (text "IP is not valid") (trace_point "sparam" "set")))
    else then_netmask p (set_address p a) m
set_both p _ = (p, err (exception (text "IP is not valid") (trace_point "sparam" "set")))

-- `set(const string &)`
unfoldable pub set : Ipv4Param → Text → Ipv4Param × Result (Unit {0})
unfolding set_address set_netmask
set p s =
    if contains b'\\' s
    then set_both p (split s b'\\')
    else if contains b'/' s
    then set_both p (split s b'/')
    else keep p (set_address p s)

-- `set(const IPv4Param &)`
unfoldable pub set_from : Ipv4Param → Ipv4Param → Result Ipv4Param
set_from p ip =
    if text_eq p.pname ip.pname
    then ok ip
    else err (
        exception (text "Assigned XParam or IPv4Param has different name")
          (trace_point "sparam" "set"))

-- `set(const XParam &)`, with the outcome of the `dynamic_cast`.
unfoldable pub set_param : Ipv4Param → Option Ipv4Param → Result Ipv4Param
unfolding set_from
set_param p none = err (exception (text "Bad IP in assignment") (trace_point "sparam" "set"))
set_param p (some ip) = set_from p ip
