-- ===== src/Ipv4/Network.antt =====
-- Netmasks of an `IPv4Param` and `checkNetworkAvailability` (src/sparam.cpp).
use pparam.Prelude.{
  ℕ, ◌+◌, ◌-◌, ◌*◌, ◌/◌, ◌%◌, ◌^◌, ◌≤◌, ◌<◌, ◌≡◌, ◌↔◌, refl, ap, ◌∙◌, inl, inr, Bool-cases, Bool,
  true, some, text, if◌then◌else◌, ◌&&◌, ltb, ◌==◌, ==_iff, arith,
}
use pparam.Prelude.Int.{pos}
use pparam.Exception.{ok}
use pparam.Time.{u32}
use pparam.Ip.{and_bits}
use pparam.Ip.Masks.{
  shift_right, shift_left, shift_left_inj, high_mask, high_mask-lt, and_bits-high_mask,
  to_compact_lem, to_simple_lem,
}
use pparam.Ipv4.{Ipv4Param, ipv4_param, set_netmask_number, set_netmask_parts, set_netmask_compact}
use pparam.Ipv4.Queries.{
  get_address, get_netmask_compact, get_address_compact, check_network_availability, in_network,
}
use pparam.Ipv4.Compact.{IsIpv4}
use pparam.Ipv4.Printed.{with_address, set-get_address}

get_address_compact-lt : (p : Ipv4Param) → get_address_compact p < u32
unfolding get_address_compact
get_address_compact-lt p = omega arith

-- Two addresses agree in the bits of the netmask exactly if they agree without the bits below.
pub in_network-high_bits :
    (a b m : ℕ)
    → a < u32
    → b < u32
    → m ≤ 32
    → ((and_bits 32 a (high_mask 32 (32 - m)) == and_bits 32 b (high_mask 32 (32 - m))) ≡ true)
      ↔ (shift_right (32 - m) a ≡ shift_right (32 - m) b)
in_network-high_bits a b m ha hb hm =
    rw
      (
        and_bits-high_mask 32 (32 - m) a ha (omega arith),
        and_bits-high_mask 32 (32 - m) b hb (omega arith),
      )
      (
        (λ e. shift_left_inj (32 - m) _ _ ((==_iff _ _).0 e)),
        (λ e. (==_iff _ _).1 (ap (shift_left (32 - m)) e)),
      )

-- Whether two addresses, as numbers of 32 bits, agree but for the 32 - m lowest bits.
abbrev pub same_network : ℕ → ℕ → ℕ → Bool
same_network m a b = shift_right (32 - m) a == shift_right (32 - m) b

in_network-same_network :
    (m a b : ℕ)
    → a < u32
    → b < u32
    → m ≤ 32
    → in_network a b (some (high_mask 32 (32 - m))) ≡ some (same_network m a b)
in_network-same_network m a b ha hb hm =
    ap some (ground (arith, in_network-high_bits a b m ha hb hm))

compact-with_address :
    (p q : Ipv4Param) → get_address_compact (with_address p q) ≡ get_address_compact q
unfolding get_address_compact
compact-with_address p q = refl

-- Asked about the printed address of another object, an object with a netmask of 1 to 32 bits says yes
-- exactly if its netmask was set and the two addresses, as numbers of 32 bits, agree but for the bits
-- behind the netmask. It always answers.
pub check_network-prefix :
    (p q : Ipv4Param)
    → IsIpv4 p
    → IsIpv4 q
    → 1 ≤ p.netmask
    → check_network_availability p (get_address q)
      ≡ ok (
          some (
            p.contain_netmask
            && same_network p.netmask (get_address_compact q) (get_address_compact p)))
unfolding check_network_availability get_netmask_compact
check_network-prefix p q hp hq h =
    let tmp = ipv4_param (text "tmp") in
    rw (set-get_address tmp q hq) (elim (Bool-cases p.contain_netmask) [
      | inl masked ↦
          rw (masked, to_compact_lem p.netmask h hp.4, compact-with_address tmp q)
            (ap ok (
              in_network-same_network p.netmask _ _ (get_address_compact-lt q)
                (get_address_compact-lt p) hp.4))
      | inr bare ↦ rw bare refl
    ])

parts-compact :
    (r : Ipv4Param) (n : ℕ)
    → n < u32
    → set_netmask_parts r
        (pos (n / 2 ^ 24 % 256))
        (pos (n / 2 ^ 16 % 256))
        (pos (n / 2 ^ 8 % 256))
        (pos (n % 256))
      ≡ set_netmask_compact r n
unfolding set_netmask_parts
parts-compact r n h =
    let whole : (n / 2 ^ 24 % 256 * 16777216
            + n / 2 ^ 16 % 256 * 65536
            + n / 2 ^ 8 % 256 * 256
            + n % 256)
          % u32
        ≡ n =
      omega arith in
    ground (arith, ap (set_netmask_compact r) whole)

-- The four numbers of `getNetmaskExtended` of an object with a netmask of 1 to 32 bits, given to
-- `setNetmask(int, int, int, int)`, set that netmask again, but 31 in place of 32.
set_netmask-extended :
    (p r : Ipv4Param)
    → IsIpv4 p
    → 1 ≤ p.netmask
    → (n : ℕ) × ((get_netmask_compact p ≡ some n)
        × (set_netmask_parts r
              (pos (n / 2 ^ 24 % 256))
              (pos (n / 2 ^ 16 % 256))
              (pos (n / 2 ^ 8 % 256))
              (pos (n % 256))
            ≡ ok (record r {
              netmask = if ltb p.netmask 32 then p.netmask else 31;
              contain_netmask = true;
            })))
unfolding get_netmask_compact set_netmask_compact set_netmask_number
set_netmask-extended p r hp h =
    let n = high_mask 32 (32 - p.netmask) in
    (
      n,
      (
        to_compact_lem p.netmask h hp.4,
        parts-compact r n (high_mask-lt 32 (32 - p.netmask))
            ∙ rw (to_simple_lem p.netmask hp.4) (ground arith),
      ),
    )
