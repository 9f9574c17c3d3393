-- ===== src/SetParam/Mirror.antt =====
-- The search map of `XSetParam` (include/xparam.hpp) and the list that it mirrors.
use pparam.Prelude.{
  ℕ, ◌≡◌, inl, inr, refl, ap, sym, ◌∙◌, Bool, true, false, ◌||◌, none, some, List, [], ◌∷◌, ◌++◌,
  ◌==◌, ==_iff, if◌then◌else◌, arith, Bool-cases,
}
use pparam.SetParam.{Keys, Map, SetParam, lookup, erase_key, erase_param, pop_back}

-- The map has the parameters of the list with their keys, and no key twice.
abbrev pub Indexed : Keys → List ℕ → Map → Type 0
Indexed key [] [] = Unit
Indexed key [] (e ∷ m) = ⊥
Indexed key (p ∷ ps) [] = ⊥
Indexed key (p ∷ ps) (e ∷ m) =
    (key p ≡ some e.0) × (e.1 ≡ p) × (lookup e.0 m ≡ none) × Indexed key ps m

-- An enabled map mirrors the list; a disabled one is empty.
abbrev pub Mirrors : Keys → SetParam → Type 0
Mirrors key s = if s.smap_enabled then Indexed key s.params s.smap else s.smap ≡ []

lookup-append :
    (k j p : ℕ) (m : Map)
    → lookup k m ≡ none
    → (j == k) ≡ false
    → lookup k (m ++ ((j, p) ∷ [])) ≡ none
unfolding lookup
lookup-append k j p [] h n = rw n refl
lookup-append k j p ((i, q) ∷ m) h n = ground (arith, lookup-append k j p m)

pub lookup_other :
    (k j r : ℕ) (m : Map) → lookup k ((j, r) ∷ m) ≡ none → ((j == k) ≡ false) × (lookup k m ≡ none)
unfolding lookup
lookup_other k j r m h = elim (Bool-cases (j == k)) [
  | inl same ↦ absurd (ground arith)
  | inr other ↦ (other, ground arith)
]

pub flip_test : (j k : ℕ) → (j == k) ≡ false → (k == j) ≡ false
flip_test j k h = ground arith

pub Indexed-append :
    (key : Keys) (ps : List ℕ) (m : Map) (p k : ℕ)
    → Indexed key ps m
    → key p ≡ some k
    → lookup k m ≡ none
    → Indexed key (ps ++ (p ∷ [])) (m ++ ((k, p) ∷ []))
unfolding lookup
Indexed-append key [] [] p k i h n = (h, refl, refl, tt)
Indexed-append key [] (e ∷ m) p k i h n = absurd i
Indexed-append key (q ∷ ps) [] p k i h n = absurd i
Indexed-append key (q ∷ ps) ((j, r) ∷ m) p k i h n =
    let other = lookup_other k j r m n in
    (
      i.0,
      i.1,
      lookup-append j k p m i.2 (flip_test j k other.0),
      Indexed-append key ps m p k i.3 h other.1,
    )

pub pop_back-append : (ps : List ℕ) (p : ℕ) → pop_back (ps ++ (p ∷ [])) ≡ ps
pop_back-append [] p = refl
pop_back-append (q ∷ []) p = refl
pop_back-append (q ∷ r ∷ ps) p = ap (λ k. q ∷ k) (pop_back-append (r ∷ ps) p)

-- A key that the map has is the key of its parameter, which is in the list.
abbrev pub is_in : ℕ → List ℕ → Bool
is_in p [] = false
is_in p (q ∷ ps) = (q == p) || is_in p ps

pub lookup_found :
    (key : Keys) (ps : List ℕ) (m : Map) (k p : ℕ)
    → Indexed key ps m
    → lookup k m ≡ some p
    → (key p ≡ some k) × (is_in p ps ≡ true)
unfolding lookup
lookup_found key [] [] k p i h = absurd (cc)
lookup_found key [] (e ∷ m) k p i h = absurd i
lookup_found key (q ∷ ps) [] k p i h = absurd i
lookup_found key (q ∷ ps) ((j, r) ∷ m) k p i h = elim (Bool-cases (j == k)) [
  | inl same ↦ ground (arith, i.0, i.1, h, same)
  | inr other ↦
      let rest = lookup_found key ps m k p i.3 (ground (arith, h, other)) in
      (rest.0, ground (arith, rest.1))
]

some_inj : (a b : ℕ) → some a ≡ some b → a ≡ b
some_inj a b h = cc

distinct_keys :
    (key : Keys) (q p j k : ℕ)
    → key q ≡ some j
    → key p ≡ some k
    → (j == k) ≡ false
    → (q == p) ≡ false
distinct_keys key q p j k hq hp n = elim (Bool-cases (q == p)) [
  | inl same ↦
      let jk : j ≡ k = some_inj j k (sym hq ∙ ap key ((==_iff q p).0 same) ∙ hp) in
      absurd (ground (arith, jk, n))
  | inr other ↦ other
]

pub found_lookup :
    (key : Keys) (ps : List ℕ) (m : Map) (k p : ℕ)
    → Indexed key ps m
    → key p ≡ some k
    → is_in p ps ≡ true
    → lookup k m ≡ some p
unfolding lookup
found_lookup key [] [] k p i h a = absurd (cc)
found_lookup key [] (e ∷ m) k p i h a = absurd i
found_lookup key (q ∷ ps) [] k p i h a = absurd i
found_lookup key (q ∷ ps) ((j, r) ∷ m) k p i h a = elim (Bool-cases (q == p)) [
  | inl same ↦
      let qp : q ≡ p = (==_iff q p).0 same in
      let jk : j ≡ k = some_inj j k (sym i.0 ∙ ap key qp ∙ h) in
      rw ((==_iff j k).1 jk) (ap some (i.1 ∙ qp))
  | inr other ↦
      let rest = found_lookup key ps m k p i.3 h (ground (arith, a, other)) in
      let differs : (j == k) ≡ false = ground (arith, i.2, rest) in rw differs rest
]

erase_other : (k j : ℕ) (m : Map) → lookup j m ≡ none → lookup j (erase_key k m) ≡ none
unfolding lookup erase_key
erase_other k j [] h = refl
erase_other k j ((i, q) ∷ m) h =
    let other = lookup_other j i q m h in
    ground (arith, other.0, other.1, erase_other k j m other.1)

pub Indexed-erase :
    (key : Keys) (ps : List ℕ) (m : Map) (k p : ℕ)
    → Indexed key ps m
    → lookup k m ≡ some p
    → Indexed key (erase_param p ps) (erase_key k m)
unfolding lookup erase_param erase_key
Indexed-erase key [] [] k p i h = absurd (cc)
Indexed-erase key [] (e ∷ m) k p i h = absurd i
Indexed-erase key (q ∷ ps) [] k p i h = absurd i
Indexed-erase key (q ∷ ps) ((j, r) ∷ m) k p i h = elim (Bool-cases (j == k)) [
  | inl same ↦
      let rp : r ≡ p = some_inj r p (ground (arith, h, same)) in
      rw (same, (==_iff q p).1 (sym i.1 ∙ rp)) i.3
  | inr other ↦
      let rest : lookup k m ≡ some p = ground (arith, h, other) in
      let found = lookup_found key ps m k p i.3 rest in
      let differs : (q == p) ≡ false = distinct_keys key q p j k i.0 found.0 other in
      rw (other, differs) (i.0, i.1, erase_other k j m i.2, Indexed-erase key ps m k p i.3 rest)
]
