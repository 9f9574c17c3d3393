-- ===== src/Ipv6/Network.antt =====
-- `IPv6Param::checkNetworkAvailability` of src/sparam.cpp.
use pparam.Prelude.{
  ℕ, zero, suc, ◌+◌, ◌-◌, ◌*◌, ◌^◌, ◌≤◌, ◌≡◌, refl, ap, sym, subst, ◌∙◌, Bool, true, ◌&&◌, List, [],
  ◌∷◌, Text, text, length, All, if◌then◌else◌, leb, ◌==◌, ==_iff, arith, Bool-cases, inl, inr,
}
use pparam.Ip.{and_bits}
use pparam.Ip.Masks.{all_to_at, shift_right, shift_left, high_mask, and_bits-high_mask}
use pparam.Ipv6.{Ipv6Param, ipv6_param, done, set}
use pparam.Ipv6.Queries.{mask_word, mask_words, same_words, check_network_availability}
use pparam.Ipv6.Words.{IsIpv6}
use pparam.Ipv6.Invariant.{set-IsIpv6}

-- At most 16 of the bits of a netmask stand in one entry.
abbrev pub bits_of : ℕ → ℕ
bits_of c = if leb c 16 then c else 16

-- Whether two addresses agree in their first `c` bits: the highest bits of one entry after the other.
abbrev pub same_prefix : ℕ → List ℕ → List ℕ → Bool
same_prefix c [] bs = true
same_prefix c (a ∷ more) [] = true
same_prefix c (a ∷ more) (b ∷ bs) =
    (shift_right (16 - bits_of c) a == shift_right (16 - bits_of c) b)
    && same_prefix (c - 16) more bs

abbrev mask_test : ℕ → Bool
mask_test c = (mask_word 16 c).0 == high_mask 16 (16 - c)

mask_word_few : (c : ℕ) → c ≤ 16 → (mask_word 16 c).0 ≡ high_mask 16 (16 - c)
unfolding mask_word
mask_word_few c h = (==_iff _ _).0 (all_to_at mask_test 16 c refl h)

mask_word_more : (j c : ℕ) → j ≤ c → (mask_word j c).0 ≡ (mask_word j j).0
unfolding mask_word
mask_word_more zero zero h = refl
mask_word_more zero (suc c) h = refl
mask_word_more (suc j) zero h = absurd (omega arith)
mask_word_more (suc j) (suc c) h = ap (λ k. 2 ^ j + k) (mask_word_more j c (omega arith))

mask_word_lem : (c : ℕ) → (mask_word 16 c).0 ≡ high_mask 16 (16 - bits_of c)
mask_word_lem c = elim (Bool-cases (leb c 16)) [
  | inl few ↦ rw few (mask_word_few c (ground arith))
  | inr more ↦ rw more (mask_word_more 16 c (ground arith) ∙ mask_word_few 16 (omega arith))
]

mask_word_left : (j c : ℕ) → (mask_word j c).1 ≡ c - j
unfolding mask_word
mask_word_left j zero = omega arith
mask_word_left zero (suc c) = omega arith
mask_word_left (suc j) (suc c) = omega (arith, mask_word_left j c)

shift_left_test : (z a b : ℕ) → (shift_left z a == shift_left z b) ≡ (a == b)
shift_left_test zero a b = refl
shift_left_test (suc z) a b = double (shift_left z a) (shift_left z b) ∙ shift_left_test z a b
  where
    double : (m n : ℕ) → (2 * m == 2 * n) ≡ (m == n)
    double m n = ground arith

same_word :
    (c a b : ℕ)
    → a ≤ 65535
    → b ≤ 65535
    → (and_bits 16 a (mask_word 16 c).0 == and_bits 16 b (mask_word 16 c).0)
      ≡ (shift_right (16 - bits_of c) a == shift_right (16 - bits_of c) b)
same_word c a b ha hb =
    let z = 16 - bits_of c in
    let low : z ≤ 16 = omega arith in
    rw
      (
        mask_word_lem c,
        and_bits-high_mask 16 z a (omega arith) low,
        and_bits-high_mask 16 z b (omega arith) low,
      )
      (shift_left_test z (shift_right z a) (shift_right z b))

same_words-same_prefix :
    (c : ℕ) (front bs : List ℕ)
    → All (λ n. n ≤ 65535) front
    → All (λ n. n ≤ 65535) bs
    → length front ≡ length bs
    → same_words (mask_words (length bs) c) front bs ≡ same_prefix c front bs
unfolding same_words mask_words
same_words-same_prefix c [] [] ha hb e = refl
same_words-same_prefix c [] (b ∷ bs) ha hb e = absurd (omega arith)
same_words-same_prefix c (a ∷ more) [] ha hb e = absurd (omega arith)
same_words-same_prefix c (a ∷ more) (b ∷ bs) ha hb e = ground (
  arith,
  same_word c a b ha.0 hb.0,
  mask_word_left 16 c,
  same_words-same_prefix (c - 16) more bs ha.1 hb.1 (omega arith),
)

-- Asked about a text that the assignment turns into the address of `q`, an object with eight numbers
-- of 16 bits says yes exactly if its netmask was set and the two addresses agree in as many of
-- their 128 bits, from the highest on, as the netmask has.
pub check_network-same_prefix :
    (p q : Ipv6Param) (s : Text)
    → IsIpv6 p
    → set (ipv6_param (text "tmp")) s ≡ (q, done tt)
    → check_network_availability p s
      ≡ done (p.contain_netmask && same_prefix p.netmask p.address q.address)
unfolding check_network_availability ipv6_param
check_network-same_prefix p q s hp h =
    let hq : IsIpv6 q =
      subst (λ r. IsIpv6 r.0) h
        (set-IsIpv6 (ipv6_param (text "tmp")) s (
          refl,
          (
            omega arith,
            (
              omega arith,
              (
                omega arith,
                (omega arith, (omega arith, (omega arith, (omega arith, (omega arith, tt))))),
              ),
            ),
          ),
          omega arith,
        )) in
    rw h (elim (Bool-cases p.contain_netmask) [
      | inl masked ↦ rw masked (
          ap done (
            ap (λ k. same_words (mask_words k p.netmask) p.address q.address) (sym hq.0)
            ∙ same_words-same_prefix p.netmask p.address q.address hp.1 hq.1 (hp.0 ∙ sym hq.0)))
      | inr bare ↦ rw bare refl
    ])
