-- ===== src/IntParam/Range.antt =====
-- The range of an integer parameter (include/xparam.hpp, include/xparam.tcc), and how the value
-- circulates in it.
use pparam.Prelude.{
  ℕ, ◌+◌, ◌-◌, ◌%◌, ◌≤◌, ◌<◌, ◌≡◌, refl, ◌==◌, arith, ap, sym, ◌∙◌, suc, zero, Bool-cases,
  if◌then◌else◌, ◌⊎◌, inl, inr,
}
use native.Mathlib.Nat.{mod-eq_of_lt, mod_self, mod-add-mod}
use pparam.IntParam.{uint_max, IntParam, check_limit, increment, decrement}

-- The fields are unsigned ints, and the value lies in the range if the range is checked.
abbrev pub InRange : IntParam → Type 0
InRange p =
    (p.val ≤ uint_max)
    × (p.min ≤ uint_max)
    × (p.max ≤ uint_max)
    × (p.min ≤ p.max → (p.min ≤ p.val) × (p.val ≤ p.max))

increment_lem :
    (p : IntParam)
    → InRange p
    → p.min ≤ p.max
    → (p.max < uint_max) ⊎ (p.min ≡ 0)
    → (increment p).val ≡ (if p.val == p.max then p.min else p.val + 1)
unfolding increment check_limit
increment_lem p h c w = elim w [
  | inl below ↦ ground (arith, h.3 c)
  | inr zero_min ↦ ground (arith, h.3 c)
]

-- Decremented, a value in a checked range goes down by one, and from the minimum to the maximum; but
-- if the minimum is 0, to the largest unsigned int, which is out of the range where the maximum is
-- another.
pub decrement_lem :
    (p : IntParam)
    → InRange p
    → p.min ≤ p.max
    → (decrement p).val
      ≡ (if p.val == p.min then (if p.min == 0 then uint_max else p.max) else p.val - 1)
unfolding decrement check_limit
decrement_lem p h c = ground (arith, h.3 c)

-- The range is checked, the value lies in it, and no increment leaves the unsigned ints before it is
-- seen to leave the range.
abbrev pub Circulates : IntParam → Type 0
Circulates p = (InRange p) × (p.min ≤ p.max) × ((p.max < uint_max) ⊎ (p.min ≡ 0))

increment-Circulates :
    (p : IntParam)
    → Circulates p
    → (Circulates (increment p)) × ((increment p).min ≡ p.min) × ((increment p).max ≡ p.max)
unfolding increment check_limit
increment-Circulates p (h, c, w) = elim w [
  | inl below ↦ ground (arith, h.3 c)
  | inr zero_min ↦ ground (arith, h.3 c)
]

-- The place of the value in its range, after an increment.
increment_place :
    (p : IntParam)
    → Circulates p
    → (increment p).val - p.min ≡ (p.val - p.min + 1) % (p.max - p.min + 1)
increment_place p (h, c, w) =
    let inside = h.3 c in
    let next = increment_lem p h c w in
    elim (Bool-cases (p.val == p.max)) [
      | inl last ↦
          let round : p.val - p.min + 1 ≡ p.max - p.min + 1 = ground arith in
          let start : (increment p).val - p.min ≡ 0 = ground arith in
          start ∙ sym (ap (λ (n : ℕ). n % (p.max - p.min + 1)) round ∙ mod_self (p.max - p.min + 1))
      | inr before ↦
          let less : p.val - p.min + 1 < p.max - p.min + 1 = ground arith in
          let on : (increment p).val - p.min ≡ p.val - p.min + 1 = ground arith in
          on ∙ sym (mod-eq_of_lt less)
    ]

unfoldable pub increments : ℕ → IntParam → IntParam
unfolding increment
increments zero p = p
increments (suc n) p = increments n (increment p)

same_place :
    (x y lo lo' hi hi' n : ℕ)
    → lo' ≡ lo
    → hi' ≡ hi
    → x - lo' ≡ (y - lo' + n) % (hi' - lo' + 1)
    → x - lo ≡ (y - lo + n) % (hi - lo + 1)
same_place x y lo lo' hi hi' n l h e = cc

-- Any number of increments of a value in a checked range goes round the range: the place of the value
-- counts on modulo the size of the range, which stays as it is. Excluded is a range from above 0 to
-- the largest unsigned int.
pub increments_cyclic :
    (n : ℕ) (p : IntParam)
    → Circulates p
    → (Circulates (increments n p))
      × ((increments n p).min ≡ p.min)
      × ((increments n p).max ≡ p.max)
      × ((increments n p).val - p.min ≡ (p.val - p.min + n) % (p.max - p.min + 1))
unfolding increments
increments_cyclic zero p (h, c, w) =
    let inside = h.3 c in
    let less : p.val - p.min + 0 < p.max - p.min + 1 = omega arith in
    let same : p.val - p.min ≡ p.val - p.min + 0 = omega arith in
    ((h, c, w), refl, refl, same ∙ sym (mod-eq_of_lt less))
increments_cyclic (suc n) p h =
    let (kept, same_min, same_max) = increment-Circulates p h in
    let (ends, ends_min, ends_max, place) = increments_cyclic n (increment p) kept in
    let size = p.max - p.min + 1 in
    let more : p.val - p.min + 1 + n ≡ p.val - p.min + suc n = omega arith in
    (
      ends,
      ends_min ∙ same_min,
      ends_max ∙ same_max,
      same_place _ _ _ _ _ _ n same_min same_max place
          ∙ ap (λ (a : ℕ). (a + n) % size) (increment_place p h)
          ∙ mod-add-mod (p.val - p.min + 1) size n
          ∙ ap (λ (a : ℕ). a % size) more,
    )

-- In a checked range that begins above 0 and ends below the largest unsigned int, decrementing and
-- incrementing undo each other, at the ends as well.
decrement-increment :
    (p : IntParam)
    → InRange p
    → p.min ≤ p.max
    → 0 < p.min
    → p.max < uint_max
    → ((decrement (increment p)).val ≡ p.val) × ((increment (decrement p)).val ≡ p.val)
unfolding increment decrement check_limit
decrement-increment p h c above below = let inside = h.3 c in ground arith
