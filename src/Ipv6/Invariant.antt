-- ===== src/Ipv6/Invariant.antt =====
-- `IPv6Param::set(const string &)` of src/sparam.cpp, and what an object may hold.
use pparam.Prelude.{Option, none, some, List, [], ◌∷◌, Text, arith}
use pparam.Prelude.Int.{ℤ, pos, negsuc}
use pparam.Exception.{Exception, Result, ok, err}
use pparam.Ip.{split}
use pparam.Ipv4
use pparam.Ipv4.{Ipv4Param, ipv4_param, strtol}
use pparam.Ipv4.Compact.{IsIpv4, set-IsIpv4}
use pparam.Ipv6.{
  Ipv6Param, Outcome, done, threw, undefined, set_address, set_netmask_number, set_netmask_int,
  set_netmask, set_from_ipv4, keep, then_netmask, set_both, try_set, use_ipv4, catch_ipv4, set,
}
use pparam.Ipv6.Words.{IsIpv6, IsKept, address-IsKept}

netmask_int-IsKept : (p : Ipv6Param) (z : ℤ) → IsIpv6 p → IsKept (set_netmask_int p z)
unfolding set_netmask_number
netmask_int-IsKept p (pos n) h = ground arith
netmask_int-IsKept p (negsuc n) h = tt

netmask-IsKept : (p : Ipv6Param) (s : Text) → IsIpv6 p → IsKept (set_netmask p s)
unfolding set_netmask
netmask-IsKept p s h = ground (arith, netmask_int-IsKept p (strtol s) h)

keep-IsIpv6 : (p : Ipv6Param) (o : Outcome Ipv6Param) → IsIpv6 p → IsKept o → IsIpv6 (keep p o).0
keep-IsIpv6 p (done q) h k = k
keep-IsIpv6 p (threw e) h k = h
keep-IsIpv6 p undefined h k = h

then-IsIpv6 :
    (p : Ipv6Param) (o : Outcome Ipv6Param) (s : Text)
    → IsIpv6 p
    → IsKept o
    → IsIpv6 (then_netmask p o s).0
then-IsIpv6 p (done q) s h k = keep-IsIpv6 q (set_netmask q s) k (netmask-IsKept q s k)
then-IsIpv6 p (threw e) s h k = h
then-IsIpv6 p undefined s h k = h

both-IsIpv6 : (p : Ipv6Param) (o : Option (List Text)) → IsIpv6 p → IsIpv6 (set_both p o).0
both-IsIpv6 p none h = h
both-IsIpv6 p (some []) h = h
both-IsIpv6 p (some (a ∷ [])) h = h
both-IsIpv6 p (some (a ∷ m ∷ [])) h =
    ground (arith, then-IsIpv6 p (set_address p a) m h (address-IsKept p a h))
both-IsIpv6 p (some (a ∷ m ∷ e ∷ r)) h = h

try-IsIpv6 : (p : Ipv6Param) (s : Text) → IsIpv6 p → IsIpv6 (try_set p s).0
unfolding try_set
try-IsIpv6 p s h = ground (
  arith,
  both-IsIpv6 p (split s b'\\') h,
  both-IsIpv6 p (split s b'/') h,
  keep-IsIpv6 p (set_address p s) h (address-IsKept p s h),
)

ipv4-IsIpv6 :
    (p : Ipv6Param) (e : Exception) (ip : Ipv4Param) (r : Result (Unit {0}))
    → IsIpv6 p
    → IsIpv4 ip
    → IsIpv6 (use_ipv4 p e (ip, r)).0
unfolding set_from_ipv4
ipv4-IsIpv6 p e ip (err x) h i = h
ipv4-IsIpv6 p e ip (ok u) h i = ground arith

catch-IsIpv6 :
    (s : Text) (p : Ipv6Param) (o : Outcome (Unit {0})) → IsIpv6 p → IsIpv6 (catch_ipv4 s (p, o)).0
unfolding ipv4_param
catch-IsIpv6 s p (done u) h = h
catch-IsIpv6 s p undefined h = h
catch-IsIpv6 s p (threw e) h =
    ipv4-IsIpv6 p e (Ipv4.set (ipv4_param p.pname) s).0 (Ipv4.set (ipv4_param p.pname) s).1 h (
      set-IsIpv4 (ipv4_param p.pname) s
        (omega arith, omega arith, omega arith, omega arith, omega arith))

-- Whatever text is assigned, also where the assignment throws, falls back on an IPv4 address, or is
-- undefined: the address keeps eight numbers of 16 bits, and the netmask at most 128 bits.
pub set-IsIpv6 : (p : Ipv6Param) (s : Text) → IsIpv6 p → IsIpv6 (set p s).0
unfolding set
set-IsIpv6 p s h = catch-IsIpv6 s (try_set p s).0 (try_set p s).1 (try-IsIpv6 p s h)
