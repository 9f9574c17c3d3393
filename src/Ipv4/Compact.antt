-- ===== src/Ipv4/Compact.antt =====
-- What an `IPv4Param` (src/sparam.cpp) may hold, and its address as one number.
use pparam.Prelude.{
  ℕ, ◌+◌, ◌*◌, ◌/◌, ◌%◌, ◌^◌, ◌≤◌, ◌<◌, ◌≡◌, Option, none, some, List, [], ◌∷◌, Text, arith,
}
use pparam.Prelude.Int.{ℤ, pos, pos_part}
use pparam.Exception.{Result, ok, err}
use pparam.Time.{u32}
use pparam.Ip.{split, convert_compact_netmask_to_simple}
use pparam.Ipv4.{
  Ipv4Param, set_address_parts, set_address_number, set_address_texts, set_address,
  set_netmask_number, set_netmask_simple, set_netmask_compact, set_netmask_parts, set_netmask_texts,
  set_netmask, keep, then_netmask, set_both, set, strtol, strtoul,
}
use pparam.Ipv4.Queries.{get_address_compact}

-- Four bytes, and a netmask of at most 32 bits.
abbrev pub IsIpv4 : Ipv4Param → Type 0
IsIpv4 p = (p.part0 ≤ 255) × (p.part1 ≤ 255) × (p.part2 ≤ 255) × (p.part3 ≤ 255) × (p.netmask ≤ 32)

abbrev IsKept : Result Ipv4Param → Type 0
IsKept (ok p) = IsIpv4 p
IsKept (err e) = Unit

address_parts-IsKept :
    (p : Ipv4Param) (a b c d : ℤ) → IsIpv4 p → IsKept (set_address_parts p a b c d)
unfolding set_address_parts
address_parts-IsKept p a b c d h = ground arith

address_texts-IsKept :
    (p : Ipv4Param) (s : Option (List Text)) → IsIpv4 p → IsKept (set_address_texts p s)
address_texts-IsKept p none h = tt
address_texts-IsKept p (some []) h = tt
address_texts-IsKept p (some (a ∷ [])) h = tt
address_texts-IsKept p (some (a ∷ b ∷ [])) h = tt
address_texts-IsKept p (some (a ∷ b ∷ c ∷ [])) h = tt
address_texts-IsKept p (some (a ∷ b ∷ c ∷ d ∷ [])) h =
    ground (arith, address_parts-IsKept p (strtol a) (strtol b) (strtol c) (strtol d) h)
address_texts-IsKept p (some (a ∷ b ∷ c ∷ d ∷ e ∷ r)) h = tt

address-IsKept : (p : Ipv4Param) (s : Text) → IsIpv4 p → IsKept (set_address p s)
unfolding set_address set_address_number
address-IsKept p s h = ground (
  arith,
  address_texts-IsKept p (split s b'.') h,
  address_parts-IsKept p (pos (strtoul s / 2 ^ 24 % 256)) (pos (strtoul s / 2 ^ 16 % 256))
      (pos (strtoul s / 2 ^ 8 % 256)) (pos (strtoul s % 256)) h,
)

netmask_number-IsKept : (p : Ipv4Param) (n : ℕ) → IsIpv4 p → IsKept (set_netmask_number p n)
unfolding set_netmask_number
netmask_number-IsKept p n h = ground arith

netmask_simple-IsKept : (p : Ipv4Param) (o : Option ℕ) → IsIpv4 p → IsKept (set_netmask_simple p o)
netmask_simple-IsKept p none h = tt
netmask_simple-IsKept p (some m) h = netmask_number-IsKept p m h

netmask_parts-IsKept :
    (p : Ipv4Param) (a b c d : ℤ) → IsIpv4 p → IsKept (set_netmask_parts p a b c d)
unfolding set_netmask_parts set_netmask_compact
netmask_parts-IsKept p a b c d h = ground (
  arith,
  netmask_simple-IsKept p
      (convert_compact_netmask_to_simple
        ((pos_part a * 16777216 + pos_part b * 65536 + pos_part c * 256 + pos_part d) % u32))
      h,
)

netmask_texts-IsKept :
    (p : Ipv4Param) (s : Option (List Text)) → IsIpv4 p → IsKept (set_netmask_texts p s)
netmask_texts-IsKept p none h = tt
netmask_texts-IsKept p (some []) h = tt
netmask_texts-IsKept p (some (a ∷ [])) h = tt
netmask_texts-IsKept p (some (a ∷ b ∷ [])) h = tt
netmask_texts-IsKept p (some (a ∷ b ∷ c ∷ [])) h = tt
netmask_texts-IsKept p (some (a ∷ b ∷ c ∷ d ∷ [])) h =
    ground (arith, netmask_parts-IsKept p (strtol a) (strtol b) (strtol c) (strtol d) h)
netmask_texts-IsKept p (some (a ∷ b ∷ c ∷ d ∷ e ∷ r)) h = tt

netmask-IsKept : (p : Ipv4Param) (s : Text) → IsIpv4 p → IsKept (set_netmask p s)
unfolding set_netmask set_netmask_compact
netmask-IsKept p s h = ground (
  arith,
  netmask_texts-IsKept p (split s b'.') h,
  netmask_number-IsKept p (strtoul s) h,
  netmask_simple-IsKept p (convert_compact_netmask_to_simple (strtoul s)) h,
)

keep-IsIpv4 : (p : Ipv4Param) (r : Result Ipv4Param) → IsIpv4 p → IsKept r → IsIpv4 (keep p r).0
keep-IsIpv4 p (ok q) h k = k
keep-IsIpv4 p (err e) h k = h

then-IsIpv4 :
    (p : Ipv4Param) (r : Result Ipv4Param) (s : Text)
    → IsIpv4 p
    → IsKept r
    → IsIpv4 (then_netmask p r s).0
then-IsIpv4 p (ok q) s h k = keep-IsIpv4 q (set_netmask q s) k (netmask-IsKept q s k)
then-IsIpv4 p (err e) s h k = h

both-IsIpv4 : (p : Ipv4Param) (s : Option (List Text)) → IsIpv4 p → IsIpv4 (set_both p s).0
both-IsIpv4 p none h = h
both-IsIpv4 p (some []) h = h
both-IsIpv4 p (some (a ∷ [])) h = h
both-IsIpv4 p (some (a ∷ m ∷ [])) h =
    ground (arith, then-IsIpv4 p (set_address p a) m h (address-IsKept p a h))
both-IsIpv4 p (some (a ∷ m ∷ e ∷ r)) h = h

-- Whatever text is assigned, also where the assignment throws: the four parts stay bytes and the
-- netmask stays at most 32.
pub set-IsIpv4 : (p : Ipv4Param) (s : Text) → IsIpv4 p → IsIpv4 (set p s).0
unfolding set
set-IsIpv4 p s h = ground (
  arith,
  both-IsIpv4 p (split s b'\\') h,
  both-IsIpv4 p (split s b'/') h,
  keep-IsIpv4 p (set_address p s) h (address-IsKept p s h),
)

-- An object with the bytes of a number as its address.
abbrev pub with_bytes : Ipv4Param → ℕ → Ipv4Param
with_bytes p n = record p {
  part0 = n / 2 ^ 24;
  part1 = n / 2 ^ 16 % 256;
  part2 = n / 2 ^ 8 % 256;
  part3 = n % 256;
}

-- The address as a number of 32 bits and back. Assigning the number of an address of four bytes gives
-- its four parts. Assigning a number of 32 bits sets the four parts to its bytes and nothing else, and
-- the number of that address is the number assigned.
number-compact :
    (p q : Ipv4Param) (n : ℕ)
    → IsIpv4 q
    → n < u32
    → (set_address_number p (get_address_compact q)
        ≡ ok (record p { part0 = q.part0; part1 = q.part1; part2 = q.part2; part3 = q.part3 }))
      × (set_address_number p n ≡ ok (with_bytes p n))
      × (get_address_compact (with_bytes p n) ≡ n)
unfolding set_address_number set_address_parts get_address_compact
number-compact p q n h l = (ground arith, ground arith, ground arith)
