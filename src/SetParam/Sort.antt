-- ===== src/SetParam/Sort.antt =====
-- `XSetParam::sort` (include/xparam.hpp): exchanges of neighbours, on an array.
use pparam.Prelude.{
  ℕ, zero, suc, ◌≡◌, refl, ap, ◌∙◌, Bool, Option, none, some, List, [], ◌∷◌, ◌++◌, ◌==◌,
  if◌then◌else◌, length, All, arith, Bool-cases, inl, inr,
}

-- `compare(t1, t2) == asc`: whether two neighbours change places.
abbrev pub Swap : Type 0
Swap = ℕ → ℕ → Bool

-- The inner loop of `sort` over the first `k` pairs of neighbours.
unfoldable pub bubble : Swap → ℕ → List ℕ → List ℕ
bubble swap zero ps = ps
bubble swap (suc k) [] = []
bubble swap (suc k) (p ∷ []) = p ∷ []
bubble swap (suc k) (p ∷ q ∷ ps) =
    let swapped = q ∷ bubble swap k (p ∷ ps) in
    let kept = p ∷ bubble swap k (q ∷ ps) in if swap p q then swapped else kept

-- The outer loop, with `k` pairs in its first round and one less in each round after it.
unfoldable pub rounds : Swap → ℕ → List ℕ → List ℕ
unfolding bubble
rounds swap zero ps = ps
rounds swap (suc k) ps = rounds swap k (bubble swap (suc k) ps)

-- On an empty set the bound of the outer loop is -1, and the loop runs until the int overflows.
abbrev sort_size : Swap → ℕ → List ℕ → Option (List ℕ)
sort_size swap zero ps = none
sort_size swap (suc k) ps = some (rounds swap k ps)

unfoldable pub sort : Swap → List ℕ → Option (List ℕ)
unfolding rounds
sort swap ps = sort_size swap (length ps) ps

unfoldable pub count : ℕ → List ℕ → ℕ
count a [] = 0
count a (p ∷ ps) = let rest = count a ps in if p == a then suc rest else rest

count-bubble : (swap : Swap) (a k : ℕ) (ps : List ℕ) → count a (bubble swap k ps) ≡ count a ps
unfolding count bubble
count-bubble swap a zero ps = refl
count-bubble swap a (suc k) [] = refl
count-bubble swap a (suc k) (p ∷ []) = refl
count-bubble swap a (suc k) (p ∷ q ∷ ps) =
    ground (arith, count-bubble swap a k (p ∷ ps), count-bubble swap a k (q ∷ ps))

pub count-rounds : (swap : Swap) (a k : ℕ) (ps : List ℕ) → count a (rounds swap k ps) ≡ count a ps
unfolding rounds
count-rounds swap a zero ps = refl
count-rounds swap a (suc k) ps =
    count-rounds swap a k (bubble swap (suc k) ps) ∙ count-bubble swap a (suc k) ps

pub length-bubble : (swap : Swap) (k : ℕ) (ps : List ℕ) → length (bubble swap k ps) ≡ length ps
unfolding bubble
length-bubble swap zero ps = refl
length-bubble swap (suc k) [] = refl
length-bubble swap (suc k) (p ∷ []) = refl
length-bubble swap (suc k) (p ∷ q ∷ ps) =
    ground (arith, length-bubble swap k (p ∷ ps), length-bubble swap k (q ∷ ps))

pub bubble-append :
    (swap : Swap) (k : ℕ) (p : ℕ) (front rest : List ℕ)
    → length front ≡ k
    → bubble swap k ((p ∷ front) ++ rest) ≡ bubble swap k (p ∷ front) ++ rest
unfolding bubble
bubble-append swap zero p [] rest h = refl
bubble-append swap zero p (q ∷ front) rest h = absurd (omega arith)
bubble-append swap (suc k) p [] rest h = absurd (omega arith)
bubble-append swap (suc k) p (q ∷ front) rest h = elim (Bool-cases (swap p q)) [
  | inl swaps ↦ rw swaps (ap (λ l. q ∷ l) (bubble-append swap k p front rest (omega arith)))
  | inr stays ↦ rw stays (ap (λ l. p ∷ l) (bubble-append swap k q front rest (omega arith)))
]

pub All-bubble :
    (P : ℕ → Type 0) (swap : Swap) (k : ℕ) (ps : List ℕ) → All P ps → All P (bubble swap k ps)
unfolding bubble
All-bubble P swap zero ps h = h
All-bubble P swap (suc k) [] h = h
All-bubble P swap (suc k) (p ∷ []) h = h
All-bubble P swap (suc k) (p ∷ q ∷ ps) h = elim (Bool-cases (swap p q)) [
  | inl swaps ↦ rw swaps (h.1.0, All-bubble P swap k (p ∷ ps) (h.0, h.1.1))
  | inr stays ↦ rw stays (h.0, All-bubble P swap k (q ∷ ps) h.1)
]
