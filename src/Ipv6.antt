-- ===== src/Ipv6.antt =====
-- `IPv6Param` of include/sparam.hpp and src/sparam.cpp.
pub mod Words
pub mod Invariant
pub mod Network
pub mod Queries
pub mod Printed
pub mod Compressed
use pparam.Prelude.{
  ℕ, zero, suc, ◌+◌, ◌-◌, ◌*◌, ◌/◌, ◌^◌, Bool, true, false, not, ◌&&◌, ◌||◌, Option, none, some,
  List, [], ◌∷◌, ◌++◌, map, Text, codes, text, text_eq, ltb, leb, ◌==◌, if◌then◌else◌, length, take,
  drop, print_nat,
}
use pparam.Prelude.Int.{ℤ, pos, negsuc}
use pparam.Prelude.Hex.{read_hex, print_hex}
use pparam.Exception.{Exception, exception, Result, ok, err, trace_point}
use pparam.Time.{u64}
use pparam.Ip.{contains, split, validate_string, and_bits}
use pparam.Ipv4
use pparam.Ipv4.{Ipv4Param, ipv4_param, empty, strtol}

-- `address` has eight entries, which are numbers of 16 bits (`checkWordRange`).
pub record Ipv6Param : Type 0 where
  pub pname : Text
  pub address : List ℕ
  pub netmask : ℕ
  pub contain_netmask : Bool

abbrev pub replicate : ℕ → List ℕ
replicate zero = []
replicate (suc n) = 0 ∷ replicate n

-- The constructor, by way of `reset`.
unfoldable pub ipv6_param : Text → Ipv6Param
ipv6_param name = record {
  pname = name;
  address = replicate 8;
  netmask = 128;
  contain_netmask = false;
}

unfoldable pub reset : Ipv6Param → Ipv6Param
unfolding ipv6_param
reset p = ipv6_param p.pname

-- What a call comes to; C++ leaves `split` without a splitter in the text undefined.
pub data Outcome {ℓ} (A : Type ℓ) : Type ℓ where
  done : A → Outcome A
  threw : Exception → Outcome A
  undefined : Outcome A

abbrev pub bad_ip {ℓ} : {A : Type ℓ} → Outcome A
bad_ip = threw (exception (text "IP is not valid") (trace_point "sparam" "setAddress"))

abbrev pub bad_netmask {ℓ} : {A : Type ℓ} → Outcome A
bad_netmask = threw (exception (text "Netmask is not valid") (trace_point "sparam" "setNetmask"))

abbrev pub allowed_ipv6 : Text
allowed_ipv6 = codes "1234567890ABCDEFabcdef:"

-- `strtol` in base sixteen of a text of digits, which stops at `LONG_MAX`.
unfoldable pub strtol16 : Text → ℕ
strtol16 s = let n = read_hex 0 s in if ltb n (u64 / 2) then n else u64 / 2 - 1

-- The numbers of the boxes, unless one has more than 16 bits.
unfoldable pub words : List Text → Option (List ℕ)
unfolding strtol16
words [] = some []
words (s ∷ ss) = elim (words ss) [
  | none ↦ none
  | some ws ↦ if leb (strtol16 s) 65535 then some (strtol16 s ∷ ws) else none
]

-- An empty box at either end stands for 0.
abbrev pub fix_box : Text → Text
fix_box s = if empty s then b'0' ∷ [] else s

abbrev pub fix_last : List Text → List Text
fix_last [] = []
fix_last (s ∷ []) = fix_box s ∷ []
fix_last (s ∷ t ∷ ss) = s ∷ fix_last (t ∷ ss)

abbrev pub fix_boxes : List Text → List Text
fix_boxes [] = []
fix_boxes (s ∷ ss) = fix_last (fix_box s ∷ ss)

-- The search for `emptyBox`, the first box being the `i`-th: where it is, if there is one. Two
-- empty boxes are refused.
unfoldable pub find_empty : ℕ → Option ℕ → List Text → Option (Option ℕ)
find_empty i found [] = some found
find_empty i none (s ∷ ss) =
    let here = find_empty (i + 1) (some i) ss in
    let rest = find_empty (i + 1) none ss in if empty s then here else rest
find_empty i (some b) (s ∷ ss) =
    let rest = find_empty (i + 1) (some b) ss in if empty s then none else rest

abbrev pub put_address : Ipv6Param → Option (List ℕ) → Outcome Ipv6Param
put_address p none = bad_ip
put_address p (some ws) = done (record p { address = ws })

-- The numbers in front of the empty box and behind it, and zeros between.
abbrev pub filled : ℕ → ℕ → Option (List ℕ) → Option (List ℕ) → Option (List ℕ)
filled count box none after = none
filled count box (some before) none = none
filled count box (some before) (some after) = some (before ++ (replicate (8 - count + 1) ++ after))

abbrev pub set_boxes : Ipv6Param → List Text → Option (Option ℕ) → Outcome Ipv6Param
set_boxes p boxes none = bad_ip
set_boxes p boxes (some none) = if length boxes == 8 then put_address p (words boxes) else bad_ip
set_boxes p boxes (some (some box)) =
    put_address p
      (filled (length boxes) box (words (take box boxes)) (words (drop (box + 1) boxes)))

abbrev pub set_parts : Ipv6Param → Option (List Text) → Outcome Ipv6Param
set_parts p none = undefined
set_parts p (some parts) =
    if ltb (length parts) 3 || ltb 8 (length parts)
    then bad_ip
    else set_boxes p (fix_boxes parts) (find_empty 0 none (fix_boxes parts))

-- `setAddress(const string &)`
unfoldable pub set_address : Ipv6Param → Text → Outcome Ipv6Param
unfolding words find_empty
set_address p s = if validate_string s allowed_ipv6 then set_parts p (split s b':') else bad_ip

-- `checkWordRange`
abbrev pub is_word : ℤ → Bool
is_word (pos n) = not (ltb 65535 n)
is_word (negsuc n) = false

-- `setAddress` of eight ints, which are kept as they are where the first four pass the test.
unfoldable pub set_address_words : ℤ → ℤ → ℤ → ℤ → List ℤ → Result (List ℤ)
set_address_words a b c d rest =
    if is_word a && (is_word b && (is_word c && is_word d))
    then ok (a ∷ b ∷ c ∷ d ∷ rest)
    else err (exception (text "IP is not valid") (trace_point "sparam" "setAddress"))

-- `setNetmask(const unsigned int &)`
unfoldable pub set_netmask_number : Ipv6Param → ℕ → Outcome Ipv6Param
set_netmask_number p n =
    if leb n 128 then done (record p { netmask = n; contain_netmask = true }) else bad_netmask

abbrev pub set_netmask_int : Ipv6Param → ℤ → Outcome Ipv6Param
set_netmask_int p (pos n) = if leb n 128 then set_netmask_number p n else bad_netmask
set_netmask_int p (negsuc n) = bad_netmask

-- `setNetmask(const string &)`; `atoi` is `strtol` in base ten.
unfoldable pub set_netmask : Ipv6Param → Text → Outcome Ipv6Param
unfolding set_netmask_number strtol
set_netmask p s =
    if validate_string s (codes "0123456789") then set_netmask_int p (strtol s) else bad_netmask

-- `set(const IPv6Param &)`
unfoldable pub set_from : Ipv6Param → Ipv6Param → Result Ipv6Param
set_from p ip =
    if text_eq p.pname ip.pname
    then ok ip
    else err (
        exception (text "Assigned XParam or IPv6Param has different name")
          (trace_point "sparam" "set"))

-- `set(const XParam &)`, with the outcome of the `dynamic_cast`.
unfoldable pub set_param : Ipv6Param → Option Ipv6Param → Result Ipv6Param
unfolding set_from
set_param p none = err (exception (text "Bad IP in assignment") (trace_point "sparam" "set"))
set_param p (some ip) = set_from p ip

-- An IPv4 address translated.
abbrev pub translated : Ipv6Param → Ipv4Param → Ipv6Param
translated p ip = record {
  pname = p.pname;
  address =
      0 ∷ 0 ∷ 0 ∷ 0 ∷ 0xffff ∷ 0 ∷ (ip.part0 * 256 + ip.part1) ∷ (ip.part2 * 256 + ip.part3) ∷ [];
  netmask = 96 + ip.netmask;
  contain_netmask = true;
}

-- `set(const IPv4Param &)`
unfoldable pub set_from_ipv4 : Ipv6Param → Ipv4Param → Result Ipv6Param
set_from_ipv4 p ip =
    if text_eq p.pname ip.pname
    then ok (translated p ip)
    else err (
        exception (text "Assigned XParam or IPv4Param has different name")
          (trace_point "sparam" "set"))

-- The part of `set(const string &)` under `try`: the object afterwards, and how it ended.
abbrev pub keep : Ipv6Param → Outcome Ipv6Param → Ipv6Param × Outcome (Unit {0})
keep p (done q) = (q, done tt)
keep p (threw e) = (p, threw e)
keep p undefined = (p, undefined)

abbrev pub then_netmask : Ipv6Param → Outcome Ipv6Param → Text → Ipv6Param × Outcome (Unit {0})
then_netmask p (done q) s = keep q (set_netmask q s)
then_netmask p (threw e) s = (p, threw e)
then_netmask p undefined s = (p, undefined)

abbrev pub set_both : Ipv6Param → Option (List Text) → Ipv6Param × Outcome (Unit {0})
set_both p (some (a ∷ m ∷ [])) =
    if empty a || empty m
    then (p, threw (exception (text "IP is not valid") (trace_point "sparam" "set")))
    else then_netmask p (set_address p a) m
set_both p _ = (p, threw (exception (text "IP is not valid") (trace_point "sparam" "set")))

unfoldable pub try_set : Ipv6Param → Text → Ipv6Param × Outcome (Unit {0})
unfolding set_address set_netmask
try_set p s =
    if contains b'\\' s
    then set_both p (split s b'\\')
    else if contains b'/' s
    then set_both p (split s b'/')
    else keep p (set_address p s)

-- The text as an IPv4 address, after the exception `excp`.
abbrev pub use_ipv4 :
    Ipv6Param → Exception → Ipv4Param × Result (Unit {0}) → Ipv6Param × Outcome (Unit {0})
use_ipv4 p excp (ip, err e) = (p, threw excp)
use_ipv4 p excp (ip, ok _) = elim (set_from_ipv4 p ip) [
  | ok q ↦ (q, done tt)
  | err e ↦ (p, threw excp)
]

abbrev pub catch_ipv4 : Text → Ipv6Param × Outcome (Unit {0}) → Ipv6Param × Outcome (Unit {0})
catch_ipv4 s (p, done u) = (p, done u)
catch_ipv4 s (p, undefined) = (p, undefined)
catch_ipv4 s (p, threw excp) = use_ipv4 p excp (Ipv4.set (ipv4_param p.pname) s)

-- `set(const string &)`
unfoldable pub set : Ipv6Param → Text → Ipv6Param × Outcome (Unit {0})
unfolding try_set set_from_ipv4
set p s = catch_ipv4 s (try_set p s)
