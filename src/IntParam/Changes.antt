-- ===== src/IntParam/Changes.antt =====
-- The calls that change an integer parameter (include/xparam.hpp, include/xparam.tcc), and its range
-- under them.
use pparam.Prelude.{
  ℕ, ◌≤◌, ◌<◌, Bool, true, false, Option, none, some, Text, text_eq, [], ◌∷◌, arith, if◌then◌else◌,
}
use pparam.Prelude.Int.{ℤ, pos, negsuc}
use pparam.Prelude.Scan.{skip_space, read_signed}
use pparam.Exception.{Exception, Result, ok, err}
use pparam.IntParam.{
  uint_max, IntParam, check_limit, set_value, assign, extracted, extract_from, increment, decrement,
  reset, assign_param,
}
use pparam.IntParam.Range.{InRange}

pub data Change : Type 0 where
  sets : ℕ → Change
  reads : ℕ → Text → Change
  copies : Option IntParam → Change
  resets ups downs : Change

-- A change that throws leaves the parameter as it was.
abbrev after : IntParam → Result IntParam → IntParam
after p (ok q) = q
after p (err e) = p

unfoldable pub change : Change → IntParam → IntParam
change (sets n) p = after p (set_value n p)
change (reads junk str) p = after p (assign junk str p)
change (copies q) p = after p (assign_param q p)
change resets p = reset p
change ups p = increment p
change downs p = decrement p

-- What a change brings from outside is an unsigned int, or another parameter in its range; an
-- increment needs a range that ends below the largest unsigned int, a decrement one that begins above 0.
abbrev pub Given : Change → IntParam → Type 0
Given (sets n) p = n ≤ uint_max
Given (reads junk str) p = junk ≤ uint_max
Given (copies none) p = Unit {0}
Given (copies (some q)) p = InRange q
Given resets p = Unit {0}
Given ups p = p.max < uint_max
Given downs p = 0 < p.min

extracted-le : (o : Option (ℤ × Text)) → extracted o ≤ uint_max
extracted-le none = omega arith
extracted-le (some (pos n, rest)) = ground arith
extracted-le (some (negsuc n, rest)) = ground arith

set_value-InRange :
    (n : ℕ) (p : IntParam) → InRange p → n ≤ uint_max → InRange (after p (set_value n p))
unfolding set_value
set_value-InRange n p h g = ground (arith, h.3)

extract_from-le : (junk : ℕ) (str : Text) → junk ≤ uint_max → extract_from junk str ≤ uint_max
extract_from-le junk [] g = g
extract_from-le junk (c ∷ s) g = extracted-le (read_signed (c ∷ s))

kept_or :
    (b : Bool) (p q : IntParam) (e : Exception)
    → InRange p
    → InRange q
    → InRange (after p (if b then ok q else err e))
kept_or true p q e h g = g
kept_or false p q e h g = h

reset-InRange : (p : IntParam) → InRange p → InRange (reset p)
unfolding reset
reset-InRange p h = ground arith

increment-InRange : (p : IntParam) → InRange p → p.max < uint_max → InRange (increment p)
unfolding increment check_limit
increment-InRange p h w = ground (arith, h.3)

decrement-InRange : (p : IntParam) → InRange p → 0 < p.min → InRange (decrement p)
unfolding decrement check_limit
decrement-InRange p h w = ground (arith, h.3)

-- The value of a checked parameter stays in its range under every assignment, also under one that
-- throws (an assigned parameter must be in its own range), and under reset; under increments if the
-- range ends below the largest unsigned int, and under decrements if it begins above 0.
pub change-InRange : (c : Change) (p : IntParam) → InRange p → Given c p → InRange (change c p)
unfolding change assign assign_param
change-InRange (sets n) p h g = set_value-InRange n p h g
change-InRange (reads junk str) p h g =
    set_value-InRange (extract_from junk (skip_space str)) p h
      (extract_from-le junk (skip_space str) g)
change-InRange (copies none) p h g = h
change-InRange (copies (some q)) p h g =
    kept_or (text_eq p.pname q.pname) p (record q { pname = p.pname }) _ h g
change-InRange resets p h g = reset-InRange p h
change-InRange ups p h g = increment-InRange p h g
change-InRange downs p h g = decrement-InRange p h g
