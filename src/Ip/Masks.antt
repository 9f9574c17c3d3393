-- ===== src/Ip/Masks.antt =====
-- The netmask conversions of `IPParam` (src/sparam.cpp) and what `&` with a netmask keeps.
use pparam.Prelude.{
  ℕ, zero, suc, ◌+◌, ◌-◌, ◌*◌, ◌/◌, ◌%◌, ◌≤◌, ◌<◌, ◌≡◌, refl, Bool, true, false, Option, none, some,
  ◌&&◌, ◌==◌, ltb, if◌then◌else◌, arith, &&_split, Bool-cases, ==_iff, inl, inr,
}
use pparam.Ip.{
  convert_compact_netmask_to_simple, convert_simple_netmask_to_compact, threshold, is_clear_below,
  low_bits, and_bits,
}

-- A number without its `z` lowest bits, and with `z` zero bits added.
abbrev pub shift_right : ℕ → ℕ → ℕ
shift_right zero a = a
shift_right (suc z) a = shift_right z (a / 2)

abbrev pub shift_left : ℕ → ℕ → ℕ
shift_left zero a = a
shift_left (suc z) a = 2 * shift_left z a

abbrev pub pow2 : ℕ → ℕ
pow2 zero = 1
pow2 (suc w) = 2 * pow2 w

-- `w` bits, all set but the `z` lowest.
abbrev pub high_mask : ℕ → ℕ → ℕ
high_mask zero z = 0
high_mask (suc w) zero = 1 + 2 * high_mask w zero
high_mask (suc w) (suc z) = 2 * high_mask w z

pub high_mask-lt : (w z : ℕ) → high_mask w z < pow2 w
high_mask-lt zero z = omega arith
high_mask-lt (suc w) zero = omega (arith, high_mask-lt w zero)
high_mask-lt (suc w) (suc z) = omega (arith, high_mask-lt w z)

pub and_bits-high_mask :
    (w z a : ℕ) → a < pow2 w → z ≤ w → and_bits w a (high_mask w z) ≡ shift_left z (shift_right z a)
unfolding and_bits
and_bits-high_mask zero zero a h l = omega arith
and_bits-high_mask zero (suc z) a h l = absurd (omega arith)
and_bits-high_mask (suc w) zero a h l =
    let half : (1 + 2 * high_mask w zero) / 2 ≡ high_mask w zero = omega arith in
    let odd : (1 + 2 * high_mask w zero) % 2 ≡ 1 = omega arith in
    rw (half, odd) (omega (arith, and_bits-high_mask w zero (a / 2) (omega arith) (omega arith)))
and_bits-high_mask (suc w) (suc z) a h l =
    let half : 2 * high_mask w z / 2 ≡ high_mask w z = omega arith in
    let even : 2 * high_mask w z % 2 ≡ 0 = omega arith in
    rw (half, even) (omega (arith, and_bits-high_mask w z (a / 2) (omega arith) (omega arith)))

pub shift_left_inj : (z a b : ℕ) → shift_left z a ≡ shift_left z b → a ≡ b
shift_left_inj zero a b h = h
shift_left_inj (suc z) a b h = shift_left_inj z a b (omega arith)

-- A test that holds at each number up to `n`.
abbrev pub all_to : (ℕ → Bool) → ℕ → Bool
all_to test zero = test 0
all_to test (suc n) = test (suc n) && all_to test n

pub all_to_at : (test : ℕ → Bool) (n m : ℕ) → all_to test n ≡ true → m ≤ n → test m ≡ true
all_to_at test zero m h l = let least : m ≡ 0 = omega arith in rw least h
all_to_at test (suc n) m h l = elim (Bool-cases (m == suc n)) [
  | inl last ↦ rw ((==_iff m (suc n)).0 last) (&&_split _ _ h).0
  | inr other ↦ all_to_at test n m (&&_split _ _ h).1 (ground arith)
]

abbrev is_value : Option ℕ → ℕ → Bool
is_value none n = false
is_value (some v) n = v == n

is_value-some : (o : Option ℕ) (n : ℕ) → is_value o n ≡ true → o ≡ some n
is_value-some none n h = absurd (cc)
is_value-some (some v) n h = ground arith

abbrev to_compact_test : ℕ → Bool
to_compact_test zero = true
to_compact_test (suc m) =
    is_value (convert_simple_netmask_to_compact (suc m)) (high_mask 32 (32 - suc m))

-- The netmask of `m` bits has the `m` highest bits.
pub to_compact_lem :
    (m : ℕ) → 1 ≤ m → m ≤ 32 → convert_simple_netmask_to_compact m ≡ some (high_mask 32 (32 - m))
unfolding convert_simple_netmask_to_compact low_bits
to_compact_lem zero h l = absurd (omega arith)
to_compact_lem (suc m) h l = is_value-some _ _ (all_to_at to_compact_test 32 (suc m) refl l)

abbrev min31 : ℕ → ℕ
min31 m = if ltb m 32 then m else 31

to_simple_test : ℕ → Bool
to_simple_test m = is_value (convert_compact_netmask_to_simple (high_mask 32 (32 - m))) (min31 m)

-- Back from the highest bits to their number, but 31 where all 32 are set.
pub to_simple_lem :
    (m : ℕ)
    → m ≤ 32
    → convert_compact_netmask_to_simple (high_mask 32 (32 - m)) ≡ some (if ltb m 32 then m else 31)
unfolding convert_compact_netmask_to_simple threshold is_clear_below to_simple_test
to_simple_lem m l = is_value-some _ _ (all_to_at to_simple_test 32 m refl l)
