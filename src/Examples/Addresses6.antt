-- ===== src/Examples/Addresses6.antt =====
-- Runs of `IPv6Param` of src/sparam.cpp.
use pparam.Prelude.{◌≡◌, refl, true, false, ◌&&◌, [], ◌∷◌, ◌++◌, codes, text, arith}
use pparam.Prelude.Hex.{read_hex, print_hex}
use pparam.Ip.{contains, validate_string, split, positions, parts}
use pparam.Ipv6.{
  Ipv6Param, ipv6_param, replicate, done, set, try_set, set_address, words, strtol16, find_empty,
}
use pparam.Ipv6.Words.{IsIpv6}
use pparam.Ipv6.Invariant.{set-IsIpv6}
use pparam.Ipv6.Compressed.{compressed_text, set_address-compressed_text}
use pparam.Ipv6.Queries.{check_network_availability, get_address}
use pparam.Ipv6.Network.{same_prefix, check_network-same_prefix}

abbrev site : Ipv6Param
site = record {
  pname = codes "ip";
  address = 0x2001 ∷ 0xdb8 ∷ 0 ∷ 0 ∷ 0 ∷ 0 ∷ 0 ∷ 1 ∷ [];
  netmask = 32;
  contain_netmask = true;
}

site-IsIpv6 : IsIpv6 site
site-IsIpv6 = (
  refl,
  (
    omega arith,
    (
      omega arith,
      (omega arith, (omega arith, (omega arith, (omega arith, (omega arith, (omega arith, tt)))))),
    ),
  ),
  omega arith,
)

-- `10.0.0.1`
set-IsIpv6_example : IsIpv6 (set site (codes "10.0.0.1")).0
set-IsIpv6_example = set-IsIpv6 site (codes "10.0.0.1") site-IsIpv6

-- `2001:db8::8329`
set_address-compressed_text_example :
    set_address site (compressed_text 0x2001 (0xdb8 ∷ []) 0x8329 [])
    ≡ done (record site { address = (0x2001 ∷ 0xdb8 ∷ []) ++ (replicate 5 ++ (0x8329 ∷ [])) })
set_address-compressed_text_example =
    set_address-compressed_text site 0x2001 (0xdb8 ∷ []) 0x8329 [] (omega arith)
      (omega arith, (omega arith, tt)) (omega arith, tt)

abbrev guest : Ipv6Param
guest = record {
  pname = text "tmp";
  address = 0x2001 ∷ 0xdb8 ∷ 0 ∷ 0 ∷ 0 ∷ 0 ∷ 0 ∷ 0x8329 ∷ [];
  netmask = 128;
  contain_netmask = false;
}

set-guest : set (ipv6_param (text "tmp")) (codes "2001:db8::8329") ≡ (guest, done tt)
unfolding set try_set set_address ipv6_param words strtol16 find_empty contains validate_string
    split positions parts read_hex
set-guest = refl

check_network-same_prefix_example :
    check_network_availability site (codes "2001:db8::8329")
    ≡ done (true && same_prefix 32 site.address guest.address)
check_network-same_prefix_example =
    check_network-same_prefix site guest (codes "2001:db8::8329") site-IsIpv6 set-guest

-- An address with a single zero in front is printed with eight colons, which are refused.
lone_zero_printed :
    get_address (record site { address = 0 ∷ 2 ∷ 3 ∷ 4 ∷ 5 ∷ 6 ∷ 7 ∷ 8 ∷ [] })
    ≡ codes "::2:3:4:5:6:7:8"
unfolding get_address print_hex
lone_zero_printed = refl
