-- ===== src/Examples/Sets.antt =====
-- Runs of `XSetParam` of include/xparam.hpp.
use pparam.Prelude.{
  ℕ, Bool, ◌≡◌, ◌↔◌, refl, true, none, some, List, [], ◌∷◌, text, ltb, arith, ◌==◌, if◌then◌else◌,
}
use pparam.Exception.{Exception, exception, add_trace_point, trace_point}
use pparam.SetParam.{Keys, SetParam, lookup, add2smap, add_all, enable_smap, find}
use pparam.SetParam.Mirror.{Mirrors, is_in}
use pparam.SetParam.Sort.{sort, count}
use pparam.SetParam.Sorted.{IsSorted, sort-IsSorted}
use pparam.SetParam.Calls.{run, add, run-Mirrors, find-is_in}

-- The objects at 100 and 200 have keys 1 and 2, and the one at 300 has key 1 again.
abbrev keys : Keys
keys p = if p == 100 then some 1 else if p == 200 then some 2 else if p == 300 then some 1 else none

abbrev two : SetParam
two = record { params = 100 ∷ 200 ∷ []; smap = (1, 100) ∷ (2, 200) ∷ []; smap_enabled = true }

two-Mirrors : Mirrors keys two
unfolding lookup
two-Mirrors = (refl, refl, refl, (refl, refl, refl, tt))

run-Mirrors_example : Mirrors keys (run keys two (add 300))
run-Mirrors_example = run-Mirrors keys two (add 300) two-Mirrors tt

find-is_in_example : (find two 2 ≡ some 200) ↔ ((keys 200 ≡ some 2) × (is_in 200 two.params ≡ true))
find-is_in_example = find-is_in keys two 2 200 two-Mirrors refl

abbrev refusal : Exception
refusal =
    add_trace_point (trace_point "pparam" "addParam")
      (exception (text "Duplicated key parameter !") (trace_point "pparam" "add2SMap"))

-- Ascending by address.
abbrev descends : ℕ → ℕ → Bool
descends a b = ltb b a

sort-IsSorted_example :
    (sorted : List ℕ) × ((sort descends (300 ∷ 100 ∷ 200 ∷ []) ≡ some sorted)
      × IsSorted descends sorted
      × ((a : ℕ) → count a sorted ≡ count a (300 ∷ 100 ∷ 200 ∷ [])))
sort-IsSorted_example =
    sort-IsSorted descends (λ a b h. ground arith) (λ a b c h k. ground arith)
      (300 ∷ 100 ∷ 200 ∷ []) (omega arith)

-- Enabling an enabled map empties it and leaves it enabled.
enabled_twice :
    (enable_smap keys two).0 ≡ record { params = 100 ∷ 200 ∷ []; smap = []; smap_enabled = true }
unfolding enable_smap add_all add2smap lookup
enabled_twice = refl
