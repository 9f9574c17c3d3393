-- ===== src/Ipv6/Queries.antt =====
-- Printing an `IPv6Param` and asking it for a network (src/sparam.cpp).
use pparam.Prelude.{
  ℕ, zero, suc, ◌+◌, ◌-◌, ◌^◌, Bool, true, false, ◌&&◌, Option, none, some, List, [], ◌∷◌, ◌++◌,
  Text, codes, text, leb, ◌==◌, if◌then◌else◌, print_nat,
}
use pparam.Prelude.Hex.{print_hex}
use pparam.Ip.{and_bits}
use pparam.Ipv6.{Ipv6Param, ipv6_param, set, Outcome, done, threw, undefined}

-- The loop of `getAddress` that finds the first run of zeros: `skipStart` and `skipEnd`, where they
-- are not -1, after the entries from the `i`-th on.
unfoldable pub find_skip : ℕ → Option ℕ → Option ℕ → List ℕ → Option ℕ × Option ℕ
find_skip i start end [] = (start, end)
find_skip i none end (a ∷ more) =
    let here = find_skip (i + 1) (some i) end more in
    let rest = find_skip (i + 1) none end more in if a == 0 then here else rest
find_skip i (some b) none (a ∷ more) =
    let rest = find_skip (i + 1) (some b) none more in
    let over = find_skip (i + 1) (some b) (some (i - 1)) more in if a == 0 then rest else over
find_skip i (some b) (some e) (a ∷ more) = find_skip (i + 1) (some b) (some e) more

-- `i >= skipStart && i <= skipEnd`; a start without an end goes to the last entry.
abbrev pub in_skip : Option ℕ × Option ℕ → ℕ → Bool
in_skip (none, e) i = false
in_skip (some b, none) i = leb b i && leb i 7
in_skip (some b, some e) i = leb b i && leb i e

abbrev skip_text : Option ℕ × Option ℕ → Bool → Text
skip_text skip true = []
skip_text (some zero, e) false = codes "::"
skip_text (b, e) false = codes ":"

-- The printing loop, the first entry being the `i`-th.
unfoldable pub print_entries : Option ℕ × Option ℕ → ℕ → Bool → List ℕ → Text
print_entries skip i skipped [] = []
print_entries skip i skipped (a ∷ more) =
    let in_run = skip_text skip skipped ++ print_entries skip (i + 1) true more in
    let shown =
      print_hex a
      ++ ((if i == 7 then [] else b':' ∷ []) ++ print_entries skip (i + 1) skipped more) in
    if in_skip skip i then in_run else shown

unfoldable pub get_address : Ipv6Param → Text
unfolding find_skip print_entries
get_address p = print_entries (find_skip 0 none none p.address) 0 false p.address

unfoldable pub get_netmask : Ipv6Param → ℕ
get_netmask p = if p.contain_netmask then p.netmask else 128

unfoldable pub value : Ipv6Param → Text
unfolding get_address get_netmask
value p = get_address p ++ (if p.contain_netmask then b'/' ∷ print_nat (get_netmask p) else [])

-- The inner loop of `checkNetworkAvailability` over the bits `j - 1` to 0: the entry of `tmpNetmask`
-- and what is left of `c`.
unfoldable pub mask_word : ℕ → ℕ → ℕ × ℕ
mask_word j zero = (0, 0)
mask_word zero (suc c) = (0, suc c)
mask_word (suc j) (suc c) = let (m, left) = mask_word j c in (2 ^ j + m, left)

unfoldable pub mask_words : ℕ → ℕ → List ℕ
unfolding mask_word
mask_words zero c = []
mask_words (suc i) c = let (m, left) = mask_word 16 c in m ∷ mask_words i left

unfoldable pub same_words : List ℕ → List ℕ → List ℕ → Bool
unfolding and_bits
same_words (m ∷ ms) (a ∷ more) (b ∷ bs) =
    (and_bits 16 a m == and_bits 16 b m) && same_words ms more bs
same_words _ _ _ = true

abbrev pub check_set : Ipv6Param → Ipv6Param × Outcome (Unit {0}) → Outcome Bool
check_set p (q, threw e) = threw e
check_set p (q, undefined) = undefined
check_set p (q, done _) =
    done
      (if p.contain_netmask then same_words (mask_words 8 p.netmask) p.address q.address else false)

-- `checkNetworkAvailability(string)`
unfoldable pub check_network_availability : Ipv6Param → Text → Outcome Bool
unfolding set ipv6_param mask_words same_words
check_network_availability p s = check_set p (set (ipv6_param (text "tmp")) s)
