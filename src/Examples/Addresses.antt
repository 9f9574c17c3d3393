-- ===== src/Examples/Addresses.antt =====
-- Runs of `IPv4Param` of src/sparam.cpp.
use pparam.Prelude.{◌≡◌, true, false, ◌&&◌, some, codes, arith}
use pparam.Exception.{ok}
use pparam.Ipv4.{Ipv4Param, set}
use pparam.Ipv4.Queries.{get_address, get_address_compact, check_network_availability, value}
use pparam.Ipv4.Compact.{IsIpv4, set-IsIpv4}
use pparam.Ipv4.Values.{read_back, set-value_ipv4}
use pparam.Ipv4.Network.{same_network, check_network-prefix}

abbrev fresh_ip : Ipv4Param
fresh_ip = record {
  pname = codes "ip";
  part0 = 0;
  part1 = 0;
  part2 = 0;
  part3 = 0;
  netmask = 32;
  contain_netmask = false;
}

abbrev router : Ipv4Param
router = record {
  pname = codes "ip";
  part0 = 192;
  part1 = 168;
  part2 = 10;
  part3 = 1;
  netmask = 24;
  contain_netmask = true;
}

abbrev host : Ipv4Param
host = record router { part3 = 77; contain_netmask = false }

router-IsIpv4 : IsIpv4 router
router-IsIpv4 = (omega arith, omega arith, omega arith, omega arith, omega arith)

host-IsIpv4 : IsIpv4 host
host-IsIpv4 = (omega arith, omega arith, omega arith, omega arith, omega arith)

set-value_ipv4_example : set fresh_ip (value router) ≡ (read_back fresh_ip router, ok tt)
set-value_ipv4_example = set-value_ipv4 fresh_ip router router-IsIpv4

-- `300.1.2.3`
set-IsIpv4_example : IsIpv4 (set router (codes "300.1.2.3")).0
set-IsIpv4_example = set-IsIpv4 router (codes "300.1.2.3") router-IsIpv4

check_network-prefix_example :
    check_network_availability router (get_address host)
    ≡ ok (some (true && same_network 24 (get_address_compact host) (get_address_compact router)))
check_network-prefix_example =
    check_network-prefix router host router-IsIpv4 host-IsIpv4 (omega arith)
