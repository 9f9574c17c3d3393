-- ===== src/Ipv4/Queries.antt =====
-- Reading, printing and asking an `IPv4Param` (src/sparam.cpp).
use pparam.Prelude.{
  ℕ, ◌+◌, ◌*◌, ◌%◌, ◌^◌, Bool, false, Option, none, some, [], ◌∷◌, ◌++◌, Text, text, ◌==◌,
  if◌then◌else◌, print_nat,
}
use pparam.Exception.{Result, ok, err}
use pparam.Time.{u32}
use pparam.Ip.{convert_simple_netmask_to_compact, and_bits}
use pparam.Ipv4.{Ipv4Param, ipv4_param, set}

unfoldable pub get_address : Ipv4Param → Text
get_address p =
    print_nat p.part0
    ++ (b'.' ∷ (print_nat p.part1 ++ (b'.' ∷ (print_nat p.part2 ++ (b'.' ∷ print_nat p.part3)))))

unfoldable pub get_address_compact : Ipv4Param → ℕ
get_address_compact p =
    (p.part0 * 2 ^ 24 % u32 + p.part1 * 2 ^ 16 + p.part2 * 2 ^ 8 + p.part3) % u32

unfoldable pub get_netmask : Ipv4Param → ℕ
get_netmask p = if p.contain_netmask then p.netmask else 32

unfoldable pub get_netmask_compact : Ipv4Param → Option ℕ
get_netmask_compact p = convert_simple_netmask_to_compact p.netmask

unfoldable pub value : Ipv4Param → Text
unfolding get_address get_netmask
value p = get_address p ++ (if p.contain_netmask then b'/' ∷ print_nat (get_netmask p) else [])

-- `(IPtmp.getAddressCompact() & getNetmaskCompact()) == (getAddressCompact() & getNetmaskCompact())`,
-- or nothing where the netmask is undefined.
abbrev pub in_network : ℕ → ℕ → Option ℕ → Option Bool
in_network a b none = none
in_network a b (some m) = some (and_bits 32 a m == and_bits 32 b m)

abbrev pub check_set : Ipv4Param → Ipv4Param × Result (Unit {0}) → Result (Option Bool)
check_set p (q, err e) = err e
check_set p (q, ok _) = ok (
    if p.contain_netmask
    then in_network (get_address_compact q) (get_address_compact p) (get_netmask_compact p)
    else some false)

-- `checkNetworkAvailability(string)`
unfoldable pub check_network_availability : Ipv4Param → Text → Result (Option Bool)
unfolding set ipv4_param get_address_compact get_netmask_compact
check_network_availability p s = check_set p (set (ipv4_param (text "tmp")) s)
