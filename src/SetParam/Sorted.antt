-- ===== src/SetParam/Sorted.antt =====
-- `XSetParam::sort` (include/xparam.hpp): the order that it leaves.
use pparam.Prelude.{
  ℕ, zero, suc, ◌≤◌, ◌≡◌, refl, ap, sym, subst, ◌∙◌, true, false, some, List, [], ◌∷◌, ◌++◌, length,
  length-append, append_nil, All, arith, Bool-cases, inl, inr,
}
use pparam.SetParam.Sort.{
  Swap, bubble, rounds, sort, count, count-rounds, length-bubble, bubble-append, All-bubble,
}

-- No entry would change places with one behind it.
abbrev pub IsSorted : Swap → List ℕ → Type 0
IsSorted swap [] = Unit
IsSorted swap (p ∷ ps) = All (λ y. swap p y ≡ false) ps × IsSorted swap ps

All-of_front : (P : ℕ → Type 0) (front : List ℕ) (m : ℕ) → All P (front ++ (m ∷ [])) → All P front
All-of_front P [] m h = tt
All-of_front P (p ∷ front) m h = (h.0, All-of_front P front m h.1)

All-of_last : (P : ℕ → Type 0) (front : List ℕ) (m : ℕ) → All P (front ++ (m ∷ [])) → P m
All-of_last P [] m h = h.0
All-of_last P (p ∷ front) m h = All-of_last P front m h.1

append-append :
    (front : List ℕ) (m : ℕ) (rest : List ℕ) → (front ++ (m ∷ [])) ++ rest ≡ front ++ (m ∷ rest)
append-append [] m rest = refl
append-append (p ∷ front) m rest = ap (λ k. p ∷ k) (append-append front m rest)

module _ (swap : Swap) (swap_once : (a b : ℕ) → swap a b ≡ true → swap b a ≡ false)
    (stay_trans : (a b c : ℕ) → swap a b ≡ false → swap b c ≡ false → swap a c ≡ false) where
  stay_self : (a : ℕ) → swap a a ≡ false
  stay_self a = elim (Bool-cases (swap a a)) [ inl swaps ↦ swap_once a a swaps | inr stays ↦ stays ]

  -- The last entry is behind the first, and no entry would change places with it.
  abbrev EndsHigh : ℕ → List ℕ → Type 0
  EndsHigh p ps =
      (front : List ℕ) × ((m : ℕ) × ((ps ≡ front ++ (m ∷ []))
          × (swap p m ≡ false)
          × All (λ y. swap y m ≡ false) front))

  bubble-EndsHigh : (k p : ℕ) (ps : List ℕ) → length ps ≡ k → EndsHigh p (bubble swap k (p ∷ ps))
  unfolding bubble
  bubble-EndsHigh zero p [] h = ([], (p, (refl, stay_self p, tt)))
  bubble-EndsHigh zero p (q ∷ ps) h = absurd (omega arith)
  bubble-EndsHigh (suc k) p [] h = absurd (omega arith)
  bubble-EndsHigh (suc k) p (q ∷ ps) h = elim (Bool-cases (swap p q)) [
    | inl swaps ↦
        let (front, (m, (e, high, all))) = bubble-EndsHigh k p ps (omega arith) in
        rw swaps (
          q ∷ front,
          (m, (ap (λ l. q ∷ l) e, high, (stay_trans q p m (swap_once p q swaps) high, all))),
        )
    | inr stays ↦
        let (front, (m, (e, high, all))) = bubble-EndsHigh k q ps (omega arith) in
        rw stays (
          p ∷ front,
          (m, (ap (λ l. p ∷ l) e, stay_trans p q m stays high, (stay_trans p q m stays high, all))),
        )
  ]

  -- Every entry of the front stands well with the whole rest.
  abbrev IsBelow : List ℕ → ℕ → Type 0
  IsBelow rest p = All (λ y. swap p y ≡ false) rest

  All-of_both :
      (m : ℕ) (rest g : List ℕ)
      → All (λ y. swap y m ≡ false) g
      → All (IsBelow rest) g
      → All (IsBelow (m ∷ rest)) g
  All-of_both m rest [] a b = tt
  All-of_both m rest (y ∷ g) a b = ((a.0, b.0), All-of_both m rest g a.1 b.1)

  rounds-IsSorted :
      (k : ℕ) (front rest : List ℕ)
      → length front ≡ suc k
      → IsSorted swap rest
      → All (IsBelow rest) front
      → IsSorted swap (rounds swap k (front ++ rest))
  unfolding rounds
  rounds-IsSorted k [] rest h s b = absurd (omega arith)
  rounds-IsSorted zero (p ∷ []) rest h s b = (b.0, s)
  rounds-IsSorted zero (p ∷ q ∷ front) rest h s b = absurd (omega arith)
  rounds-IsSorted (suc k) (p ∷ front) rest h s b =
      let (g, (m, (e, high, all))) = bubble-EndsHigh (suc k) p front (omega arith) in
      let below : All (IsBelow rest) (g ++ (m ∷ [])) =
        subst (All (IsBelow rest)) e (All-bubble (IsBelow rest) swap (suc k) (p ∷ front) b) in
      let size : length g ≡ suc k =
        omega
          (arith, ap length e, length-bubble swap (suc k) (p ∷ front), length-append g (m ∷ [])) in
      let divided : bubble swap (suc k) ((p ∷ front) ++ rest) ≡ g ++ (m ∷ rest) =
        bubble-append swap (suc k) p front rest (omega arith)
        ∙ ap (λ l. l ++ rest) e
        ∙ append-append g m rest in
      subst (λ l. IsSorted swap (rounds swap k l)) (sym divided)
        (rounds-IsSorted k g (m ∷ rest) size (All-of_last (IsBelow rest) g m below, s)
          (All-of_both m rest g all (All-of_front (IsBelow rest) g m below)))

  -- For a comparison by which two parameters never both want to change places, and where not changing
  -- places is transitive: a set with one parameter or more is sorted. The result has every
  -- parameter as often as the set had it, and no parameter would change places with one behind it.
  pub sort-IsSorted :
      (ps : List ℕ)
      → 1 ≤ length ps
      → (sorted : List ℕ) × ((sort swap ps ≡ some sorted)
          × IsSorted swap sorted
          × ((a : ℕ) → count a sorted ≡ count a ps))
  unfolding sort
  sort-IsSorted [] h = absurd (omega arith)
  sort-IsSorted (p ∷ ps) h =
      let one = append_nil (p ∷ ps) in
      (
        rounds swap (length ps) (p ∷ ps),
        (
          refl,
          subst (λ l. IsSorted swap (rounds swap (length ps) l)) one
              (rounds-IsSorted (length ps) (p ∷ ps) [] refl tt (All-of_none (p ∷ ps))),
          (λ a. count-rounds swap a (length ps) (p ∷ ps)),
        ),
      )
    where
      All-of_none : (ps : List ℕ) → All (IsBelow []) ps
      All-of_none [] = tt
      All-of_none (q ∷ ps) = (tt, All-of_none ps)
