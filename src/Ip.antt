-- ===== src/Ip.antt =====
-- `IPParam` of include/sparam.hpp and src/sparam.cpp: cutting a text, and netmasks as numbers.
pub mod Cuts
pub mod Masks
use pparam.Prelude.{
  ℕ, zero, suc, ◌+◌, ◌-◌, ◌*◌, ◌/◌, ◌%◌, ◌^◌, Bool, true, false, Option, none, some, List, [], ◌∷◌,
  Text, ltb, ◌==◌, if◌then◌else◌, take, drop, ◌&&◌, ◌||◌, get_or,
}
use pparam.Time.{u32}

-- `str.find(c, 0) != str.npos`
unfoldable pub contains : ℕ → Text → Bool
contains c [] = false
contains c (x ∷ s) = (x == c) || contains c s

-- Where the splitter stands, the first character of the text being at `i`.
unfoldable pub positions : ℕ → ℕ → Text → List ℕ
positions splitter i [] = []
positions splitter i (c ∷ s) =
    let rest = positions splitter (i + 1) s in if c == splitter then i ∷ rest else rest

-- The parts from `start` on: each up to the next position, and what is behind the last one.
unfoldable pub parts : Text → ℕ → List ℕ → List Text
parts str start [] = drop start str ∷ []
parts str start (p ∷ ps) = take (p - start) (drop start str) ∷ parts str (p + 1) ps

abbrev pub some_parts : Text → List ℕ → Option (List Text)
some_parts str [] = none
some_parts str (p ∷ ps) = some (parts str 0 (p ∷ ps))

-- `split`. Without a splitter in the text the code reads `splitterPoses[0]` of an empty array, which
-- C++ leaves undefined.
unfoldable pub split : Text → ℕ → Option (List Text)
split str splitter = some_parts str (positions splitter 0 str)

unfoldable pub validate_string : Text → Text → Bool
unfolding contains
validate_string [] allowed = true
validate_string (c ∷ s) allowed = contains c allowed && validate_string s allowed

unfoldable pub string_contain : Text → Text → Bool
unfolding contains
string_contain [] char_list = false
string_contain (c ∷ s) char_list = contains c char_list || string_contain s char_list

-- `n & (unsigned int)pow(2, i)`, as whether it is not zero.
abbrev pub bit : ℕ → ℕ → Bool
bit n i = n / 2 ^ i % 2 == 1

-- The first loop of `convertCompactNetmaskToSimple`, at `i - 1`.
unfoldable pub threshold : ℕ → ℕ → ℕ
threshold n zero = 0
threshold n (suc i) = let rest = threshold n i in if bit n i then rest else i

-- The second loop: no bit below `i`.
unfoldable pub is_clear_below : ℕ → ℕ → Bool
is_clear_below n zero = true
is_clear_below n (suc i) = let rest = is_clear_below n i in if bit n i then false else rest

-- The output parameter `simpleForm`, where the result is true.
unfoldable pub convert_compact_netmask_to_simple : ℕ → Option ℕ
unfolding threshold is_clear_below
convert_compact_netmask_to_simple ex_netmask =
    let t = threshold ex_netmask 32 in if is_clear_below ex_netmask t then some (31 - t) else none

-- The loop of `convertSimpleNetmaskToCompact` after `i` rounds.
unfoldable pub low_bits : ℕ → ℕ
low_bits zero = 0
low_bits (suc i) = let rest = low_bits i in if bit rest i then rest else rest + 2 ^ i

-- For 0 the code shifts an unsigned int by 32, which C++ leaves undefined.
unfoldable pub convert_simple_netmask_to_compact : ℕ → Option ℕ
unfolding low_bits
convert_simple_netmask_to_compact zero = none
convert_simple_netmask_to_compact (suc m) = some (low_bits (suc m) * 2 ^ (32 - suc m) % u32)

-- `a & b` of numbers of `w` bits.
unfoldable pub and_bits : ℕ → ℕ → ℕ → ℕ
and_bits zero a b = 0
and_bits (suc w) a b = a % 2 * (b % 2) + 2 * and_bits w (a / 2) (b / 2)
