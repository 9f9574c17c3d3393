-- ===== src/Prelude/Hex.antt =====
-- Hexadecimal text: what `<< hex <<` prints and what `strtol` in base sixteen reads.
use Prim.Native.Nat.{ℕ, zero, suc, ◌+◌, ◌-◌, ◌*◌, ◌/◌, ◌%◌, ◌≤◌, ◌<◌}
use mathlib.Core.Path.{◌≡◌, ap, ◌∙◌}
use mathlib.Core.Logic.{inl, inr}
use mathlib.Core.Bool.{Bool, true, ◌&&◌, ◌||◌}
use mathlib.Core.List.{[], ◌∷◌}
use native.Mathlib.Omega.{arith}
use pparam.Prelude.Tests.{ltb, leb, if◌then◌else◌, Bool-cases}
use pparam.Prelude.Lists.{length, All}
use pparam.Prelude.Texts.{Text}

abbrev pub is_hex : ℕ → Bool
is_hex c = (leb b'0' c && leb c b'9') || ((leb b'A' c && leb c b'F') || (leb b'a' c && leb c b'f'))

-- What a hexadecimal digit of either case stands for.
abbrev pub nibble : ℕ → ℕ
nibble c = if leb c b'9' then c - b'0' else if leb c b'F' then c - 55 else c - 87

abbrev pub hex_digit : ℕ → ℕ
hex_digit d = if ltb d 10 then d + b'0' else d + 87

-- The number of the digits at the front of a text.
unfoldable pub read_hex : ℕ → Text → ℕ
read_hex acc [] = acc
read_hex acc (c ∷ s) = let rest = read_hex (acc * 16 + nibble c) s in if is_hex c then rest else acc

-- The digits of `n` in front of `acc`; `fuel` bounds their number.
print_acc : ℕ → ℕ → Text → Text
print_acc zero n acc = acc
print_acc (suc fuel) n acc =
    let rest = print_acc fuel (n / 16) (hex_digit (n % 16) ∷ acc) in
    if ltb n 16 then hex_digit n ∷ acc else rest

unfoldable pub print_hex : ℕ → Text
unfolding print_acc
print_hex n = print_acc (n + 1) n []

abbrev pub IsHexText : Text → Type 0
IsHexText s = All (λ c. is_hex c ≡ true) s

read-print_acc :
    (fuel n : ℕ) (acc : Text) → n < fuel → read_hex 0 (print_acc fuel n acc) ≡ read_hex n acc
unfolding read_hex print_acc
read-print_acc zero n acc h = absurd (omega arith)
read-print_acc (suc fuel) n acc h = elim (Bool-cases (ltb n 16)) [
  | inl low ↦ rw low (ground arith)
  | inr high ↦ rw high (
      read-print_acc fuel (n / 16) (hex_digit (n % 16) ∷ acc) (ground arith)
      ∙ on_digit (n % 16) (n / 16) (omega arith)
      ∙ ap (λ k. read_hex k acc) (omega arith))
]
  where
    on_digit : (d q : ℕ) → d < 16 → read_hex q (hex_digit d ∷ acc) ≡ read_hex (q * 16 + d) acc
    on_digit d q l = ground arith

pub read_hex-print_hex : (n : ℕ) → read_hex 0 (print_hex n) ≡ n
unfolding print_hex read_hex
read_hex-print_hex n = read-print_acc (n + 1) n [] (omega arith)

print_acc-IsHexText : (fuel n : ℕ) (acc : Text) → IsHexText acc → IsHexText (print_acc fuel n acc)
unfolding print_acc
print_acc-IsHexText zero n acc h = h
print_acc-IsHexText (suc fuel) n acc h = elim (Bool-cases (ltb n 16)) [
  | inl low ↦ rw low (ground arith, h)
  | inr high ↦ rw high (print_acc-IsHexText fuel (n / 16) _ (digit (n % 16) (omega arith), h))
]
  where
    digit : (d : ℕ) → d < 16 → is_hex (hex_digit d) ≡ true
    digit d l = ground arith

pub print_hex-IsHexText : (n : ℕ) → IsHexText (print_hex n)
unfolding print_hex print_acc
print_hex-IsHexText n = print_acc-IsHexText (n + 1) n [] tt

print_acc_nonempty : (fuel n : ℕ) (acc : Text) → 1 ≤ length acc → 1 ≤ length (print_acc fuel n acc)
unfolding print_acc
print_acc_nonempty zero n acc h = h
print_acc_nonempty (suc fuel) n acc h = elim (Bool-cases (ltb n 16)) [
  | inl low ↦ rw low (omega arith)
  | inr high ↦ rw high (print_acc_nonempty fuel (n / 16) _ (omega arith))
]

pub print_hex_nonempty : (n : ℕ) → 1 ≤ length (print_hex n)
unfolding print_hex print_acc
print_hex_nonempty n = first n (n + 1) (omega arith)
  where
    first : (m fuel : ℕ) → 1 ≤ fuel → 1 ≤ length (print_acc fuel m [])
    first m zero h = absurd (omega arith)
    first m (suc fuel) h = elim (Bool-cases (ltb m 16)) [
      | inl low ↦ rw low (omega arith)
      | inr high ↦ rw high (print_acc_nonempty fuel (m / 16) _ (omega arith))
    ]
