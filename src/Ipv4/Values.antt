-- ===== src/Ipv4/Values.antt =====
-- `IPv4Param::set(const string &)` and `value` of src/sparam.cpp, with and without a netmask.
use pparam.Prelude.{
  ℕ, ◌≤◌, ◌≡◌, refl, ap, ◌∙◌, true, false, append_nil, length-append, if◌then◌else◌, Bool-cases,
  inl, inr, [], ◌∷◌, ◌++◌, Text, length, arith, print_nat,
}
use pparam.Prelude.Decimal.{print_nat_nonempty}
use pparam.Exception.{Exception, ok, err}
use pparam.Ip.{contains}
use pparam.Ip.Cuts.{Without, split-joined}
use pparam.Ipv4.{Ipv4Param, set, set_netmask, set_netmask_number, empty, keep}
use pparam.Ipv4.Queries.{get_address, get_netmask, value}
use pparam.Ipv4.Compact.{IsIpv4}
use pparam.Ipv4.Printed.{
  with_address, set-get_address, set_address-get_address, contains-append, contains-get_address,
  strtoul-print, print-Without, print_valid, nonempty,
}

set_netmask-print :
    (p : Ipv4Param) (m : ℕ)
    → m ≤ 32
    → set_netmask p (print_nat m) ≡ ok (record p { netmask = m; contain_netmask = true })
unfolding set_netmask set_netmask_number
set_netmask-print p m h =
    rw (print_valid m, print-Without b'.' m refl, strtoul-print m (omega arith)) (ground arith)

address_full : (q : Ipv4Param) → empty (get_address q) ≡ false
unfolding get_address
address_full q = nonempty (get_address q) (
    omega (
      arith,
      print_nat_nonempty q.part0,
      length-append (print_nat q.part0) (
          b'.' ∷ (print_nat q.part1 ++ (b'.' ∷ (print_nat q.part2 ++ (b'.' ∷ print_nat q.part3))))),
    ))

-- A printed address, a slash and a text without slashes: the address first, then the netmask.
set-slash :
    (p q : Ipv4Param) (m : Text)
    → IsIpv4 q
    → 1 ≤ length m
    → Without b'/' m
    → Without b'\\' m
    → set p (get_address q ++ (b'/' ∷ m))
      ≡ keep (with_address p q) (set_netmask (with_address p q) m)
unfolding set contains
set-slash p q m h full slash back =
    let divided =
      split-joined b'/' (get_address q) m [] (contains-get_address b'/' q refl) slash tt in
    rw
      (
        contains-append b'\\' (get_address q) (b'/' ∷ m),
        contains-get_address b'\\' q refl,
        back,
        contains-append b'/' (get_address q) (b'/' ∷ m),
        contains-get_address b'/' q refl,
        divided,
        address_full q,
        nonempty m full,
        set_address-get_address p q h,
      )
      refl

set-netmasked :
    (p q : Ipv4Param) (m : ℕ)
    → IsIpv4 q
    → m ≤ 32
    → set p (get_address q ++ (b'/' ∷ print_nat m))
      ≡ (record (with_address p q) { netmask = m; contain_netmask = true }, ok tt)
set-netmasked p q m h l =
    set-slash p q (print_nat m) h (print_nat_nonempty m) (print-Without b'/' m refl)
      (print-Without b'\\' m refl)
    ∙ ap (keep (with_address p q)) (set_netmask-print (with_address p q) m l)

-- A printed address with a slash and a text behind it that has no slash or backslash and that
-- `setNetmask` refuses: the assignment throws the same exception, and the object has the new address
-- and its old netmask.
set_bad_netmask :
    (p q : Ipv4Param) (m : Text) (e : Exception)
    → IsIpv4 q
    → 1 ≤ length m
    → Without b'/' m
    → Without b'\\' m
    → set_netmask (with_address p q) m ≡ err e
    → set p (get_address q ++ (b'/' ∷ m)) ≡ (with_address p q, err e)
set_bad_netmask p q m e h full slash back bad =
    set-slash p q m h full slash back ∙ ap (keep (with_address p q)) bad

-- What reading the text of `q` makes of `p`: the address, and the netmask if the text has one.
abbrev pub read_back : Ipv4Param → Ipv4Param → Ipv4Param
read_back p q =
    if q.contain_netmask
    then record (with_address p q) { netmask = q.netmask; contain_netmask = true }
    else with_address p q

-- The text of an object with four bytes and a netmask of at most 32 is read back by any object: it
-- takes the address over, and the netmask if there is one; otherwise it keeps its own.
pub set-value_ipv4 : (p q : Ipv4Param) → IsIpv4 q → set p (value q) ≡ (read_back p q, ok tt)
unfolding value get_netmask
set-value_ipv4 p q h = elim (Bool-cases q.contain_netmask) [
  | inl masked ↦ rw masked (set-netmasked p q q.netmask h h.4)
  | inr bare ↦ rw (bare, append_nil (get_address q)) (set-get_address p q h)
]
