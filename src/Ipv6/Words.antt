-- ===== src/Ipv6/Words.antt =====
-- What an `IPv6Param` (src/sparam.cpp) may hold.
use pparam.Prelude.{
  ℕ, zero, suc, ◌+◌, ◌-◌, ◌≤◌, ◌<◌, ◌≡◌, refl, ap, Option, none, some, List, [], ◌∷◌, ◌++◌, Text,
  length, length-append, All, All-append, take, drop, ◌==◌, arith, Bool-cases, inl, inr, ==_iff,
  subst, ltb, ◌||◌,
}
use pparam.Ip.{split}
use pparam.Ipv4.{empty}
use pparam.Ipv6.{
  Ipv6Param, replicate, Outcome, done, threw, undefined, words, fix_box, fix_last, fix_boxes,
  find_empty, filled, put_address, set_boxes, set_parts, set_address,
}

-- Eight numbers of 16 bits, and a netmask of at most 128 bits.
abbrev pub IsIpv6 : Ipv6Param → Type 0
IsIpv6 p = (length p.address ≡ 8) × All (λ n. n ≤ 65535) p.address × (p.netmask ≤ 128)

abbrev AreWords : ℕ → Option (List ℕ) → Type 0
AreWords n none = Unit
AreWords n (some ws) = (length ws ≡ n) × All (λ k. k ≤ 65535) ws

words-AreWords : (ss : List Text) → AreWords (length ss) (words ss)
unfolding words
words-AreWords [] = (refl, tt)
words-AreWords (s ∷ ss) = ground (arith, words-AreWords ss)

zeros_fit : (n : ℕ) → (length (replicate n) ≡ n) × All (λ k. k ≤ 65535) (replicate n)
zeros_fit zero = (refl, tt)
zeros_fit (suc n) = (ap suc (zeros_fit n).0, (omega arith, (zeros_fit n).1))

abbrev IsFound : ℕ → Option (Option ℕ) → Type 0
IsFound n (some (some b)) = b < n
IsFound n _ = Unit

find_empty-IsFound :
    (n i : ℕ) (found : Option ℕ) (ss : List Text)
    → n ≡ i + length ss
    → IsFound n (some found)
    → IsFound n (find_empty i found ss)
unfolding find_empty
find_empty-IsFound n i found [] e h = h
find_empty-IsFound n i none (s ∷ ss) e h = elim (Bool-cases (empty s)) [
  | inl here ↦ rw here (find_empty-IsFound n (i + 1) (some i) ss (omega arith) (omega arith))
  | inr other ↦ rw other (find_empty-IsFound n (i + 1) none ss (omega arith) tt)
]
find_empty-IsFound n i (some b) (s ∷ ss) e h = elim (Bool-cases (empty s)) [
  | inl here ↦ rw here tt
  | inr other ↦ rw other (find_empty-IsFound n (i + 1) (some b) ss (omega arith) h)
]

filled-AreWords :
    (count box : ℕ) (before after : Option (List ℕ))
    → box < count
    → count ≤ 8
    → AreWords box before
    → AreWords (count - box - 1) after
    → AreWords 8 (filled count box before after)
filled-AreWords count box none after b c hb ha = tt
filled-AreWords count box (some ws) none b c hb ha = tt
filled-AreWords count box (some ws) (some vs) b c hb ha =
    let zs = replicate (8 - count + 1) in
    let z = zeros_fit (8 - count + 1) in
    (
      omega (arith, length-append ws (zs ++ vs), length-append zs vs, z.0, hb.0, ha.0),
      All-append (λ k. k ≤ 65535) ws (zs ++ vs) hb.1 (All-append (λ k. k ≤ 65535) zs vs z.1 ha.1),
    )

length-take : (n : ℕ) (ss : List Text) → n ≤ length ss → length (take n ss) ≡ n
length-take zero ss h = refl
length-take (suc n) [] h = absurd (omega arith)
length-take (suc n) (s ∷ ss) h = ap suc (length-take n ss (omega arith))

length-drop : (n : ℕ) (ss : List Text) → length (drop n ss) ≡ length ss - n
length-drop zero ss = omega arith
length-drop (suc n) [] = omega arith
length-drop (suc n) (s ∷ ss) = omega (arith, length-drop n ss)

length-fix_last : (ss : List Text) → length (fix_last ss) ≡ length ss
length-fix_last [] = refl
length-fix_last (s ∷ []) = refl
length-fix_last (s ∷ t ∷ ss) = ap suc (length-fix_last (t ∷ ss))

length-fix_boxes : (ss : List Text) → length (fix_boxes ss) ≡ length ss
length-fix_boxes [] = refl
length-fix_boxes (s ∷ ss) = length-fix_last (fix_box s ∷ ss)

abbrev pub IsKept : Outcome Ipv6Param → Type 0
IsKept (done p) = IsIpv6 p
IsKept (threw e) = Unit
IsKept undefined = Unit

put_address-IsKept :
    (p : Ipv6Param) (o : Option (List ℕ)) → IsIpv6 p → AreWords 8 o → IsKept (put_address p o)
put_address-IsKept p none h w = tt
put_address-IsKept p (some ws) h w = (w.0, w.1, h.2)

boxes-IsKept :
    (p : Ipv6Param) (boxes : List Text) (o : Option (Option ℕ))
    → IsIpv6 p
    → length boxes ≤ 8
    → IsFound (length boxes) o
    → IsKept (set_boxes p boxes o)
boxes-IsKept p boxes none h l f = tt
boxes-IsKept p boxes (some none) h l f = elim (Bool-cases (length boxes == 8)) [
  | inl eight ↦ rw eight (
      put_address-IsKept p (words boxes) h (
        subst (λ k. AreWords k (words boxes)) ((==_iff (length boxes) 8).0 eight)
          (words-AreWords boxes)))
  | inr other ↦ rw other tt
]
boxes-IsKept p boxes (some (some b)) h l f = put_address-IsKept p _ h (
    filled-AreWords (length boxes) b (words (take b boxes)) (words (drop (b + 1) boxes)) f l
      (subst (λ k. AreWords k (words (take b boxes))) (length-take b boxes (omega arith))
        (words-AreWords (take b boxes)))
      (subst (λ k. AreWords k (words (drop (b + 1) boxes)))
        (omega (arith, length-drop (b + 1) boxes)) (words-AreWords (drop (b + 1) boxes))))

parts-IsKept : (p : Ipv6Param) (o : Option (List Text)) → IsIpv6 p → IsKept (set_parts p o)
parts-IsKept p none h = tt
parts-IsKept p (some ss) h = elim (Bool-cases (ltb (length ss) 3 || ltb 8 (length ss))) [
  | inl outside ↦ rw outside tt
  | inr inside ↦ rw inside (
      boxes-IsKept p (fix_boxes ss) (find_empty 0 none (fix_boxes ss)) h
        (ground (arith, length-fix_boxes ss))
        (find_empty-IsFound (length (fix_boxes ss)) 0 none (fix_boxes ss) (omega arith) tt))
]

pub address-IsKept : (p : Ipv6Param) (s : Text) → IsIpv6 p → IsKept (set_address p s)
unfolding set_address
address-IsKept p s h = ground (arith, parts-IsKept p (split s b':') h)
