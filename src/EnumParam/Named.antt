-- ===== src/EnumParam/Named.antt =====
-- The texts of an enumeration parameter (include/xparam.hpp), written and read.
use pparam.Prelude.{
  ℕ, zero, suc, ◌+◌, ◌≤◌, ◌<◌, ◌≡◌, refl, ap, sym, subst, ◌∙◌, leb, false, Option, none, some, List,
  [], ◌∷◌, length, Text, text_eq, text_eq_iff, text_eq_self, arith, Bool-cases, ◌⊎◌, inl, inr,
}
use pparam.Prelude.Int.{pos}
use pparam.Exception.{Result, ok, err}
use pparam.EnumParam.{EnumParam, stored, index_of, nth, assign, value, set_value}

abbrev pub Absent : Text → List Text → Type 0
Absent s [] = Unit {0}
Absent s (t ∷ ts) = (text_eq s t ≡ false) × Absent s ts

abbrev Fresh : Text → List Text → Type 0
Fresh t [] = Unit {0}
Fresh t (u ∷ ts) = (text_eq u t ≡ false) × Fresh t ts

-- No text stands twice.
abbrev pub Distinct : List Text → Type 0
Distinct [] = Unit {0}
Distinct (t ∷ ts) = (Fresh t ts) × Distinct ts

abbrev Found : Text → ℕ → List Text → Type 0
Found s i ts = (n : ℕ) × (index_of s i ts ≡ some (i + n)) × (n < length ts) × (nth ts n ≡ s)

Found-later :
    (s t : Text) (i : ℕ) (ts : List Text)
    → text_eq s t ≡ false
    → Found s (i + 1) ts
    → Found s i (t ∷ ts)
unfolding index_of
Found-later s t i ts other (n, found, inside, same) =
    let next : i + 1 + n ≡ i + suc n = omega arith in
    (suc n, simp (other) (found ∙ ap (λ (k : ℕ). some k) next), omega arith, same)

-- The index that the loop finds holds the text; if it finds none, the text is absent.
index_of_lem :
    (s : Text) (i : ℕ) (ts : List Text) → ((index_of s i ts ≡ none) × Absent s ts) ⊎ (Found s i ts)
unfolding index_of
index_of_lem s i [] = inl (refl, tt)
index_of_lem s i (t ∷ ts) = elim (Bool-cases (text_eq s t)) [
  | inl here ↦
      let same : s ≡ t = (text_eq_iff s t).0 here in
      let first : i ≡ i + 0 = omega arith in
      inr (0, simp (here) (ap (λ (k : ℕ). some k) first), omega arith, sym same)
  | inr other ↦ elim (index_of_lem s (i + 1) ts) [
    | inl (none_found, absent) ↦ inl (simp (other) none_found, (other, absent))
    | inr found ↦ inr (Found-later s t i ts other found)
  ]
]

index_of-Absent : (s : Text) (i : ℕ) (ts : List Text) → Absent s ts → index_of s i ts ≡ none
unfolding index_of
index_of-Absent s i [] h = refl
index_of-Absent s i (t ∷ ts) h = simp (h.0) (index_of-Absent s (i + 1) ts h.1)

Fresh-nth :
    (t : Text) (ts : List Text) (n : ℕ) → Fresh t ts → n < length ts → text_eq (nth ts n) t ≡ false
Fresh-nth t [] n h l = absurd (omega arith)
Fresh-nth t (u ∷ ts) zero h l = h.0
Fresh-nth t (u ∷ ts) (suc n) h l = Fresh-nth t ts n h.1 (omega arith)

index_of-nth :
    (i : ℕ) (ts : List Text) (n : ℕ)
    → Distinct ts
    → n < length ts
    → index_of (nth ts n) i ts ≡ some (i + n)
unfolding index_of
index_of-nth i [] n h l = absurd (omega arith)
index_of-nth i (t ∷ ts) zero h l = simp (text_eq_self t) (ap (λ (k : ℕ). some k) (omega arith))
index_of-nth i (t ∷ ts) (suc n) h l =
    let next : i + 1 + n ≡ i + suc n = omega arith in
    simp (Fresh-nth t ts n h.0 (omega arith))
      (index_of-nth (i + 1) ts n h.1 (omega arith) ∙ ap (λ (k : ℕ). some k) next)

abbrev pub Threw : Result EnumParam → Type 0
Threw (ok p) = ⊥
Threw (err e) = Unit {0}

nothing_added : (n : ℕ) → 0 + n ≡ n
nothing_added n = omega arith

module _ (type_string : List Text) where
  -- A text of the enumeration is accepted and printed again from then on; every other text throws.
  pub assign_lem :
      (s : Text) (p : EnumParam)
      → ((Absent s type_string) × Threw (assign type_string s p))
        ⊎ ((q : EnumParam) × (assign type_string s p ≡ ok q) × (value type_string q ≡ s))
  unfolding assign value
  assign_lem s p = elim (index_of_lem s 0 type_string) [
    | inl (none_found, absent) ↦
        inl (absent, subst (λ (o : Option ℕ). Threw (stored p o)) (sym none_found) tt)
    | inr (n, found, inside, same) ↦ inr (
      record p { val = pos (0 + n) },
      ap (stored p) found,
      ap (nth type_string) (nothing_added n) ∙ same,
    )
  ]

  -- The text of a value that is one of the enumeration's, with no text twice, is read back.
  assign-value_enum :
      (p q : EnumParam) (n : ℕ)
      → Distinct type_string
      → p.val ≡ pos n
      → n < length type_string
      → assign type_string (value type_string p) q ≡ ok (record q { val = p.val })
  unfolding assign value
  assign-value_enum p q n d v l = rw v (
      ap (stored q) (index_of-nth 0 type_string n d l)
      ∙ ap (λ (k : ℕ). stored q (some k)) (nothing_added n))

  Absent-Threw : (s : Text) (p : EnumParam) → Absent s type_string → Threw (assign type_string s p)
  unfolding assign
  Absent-Threw s p h =
      subst (λ (o : Option ℕ). Threw (stored p o)) (sym (index_of-Absent s 0 type_string h)) tt

  nth_outside : (ts : List Text) → nth ts (length ts) ≡ []
  nth_outside [] = refl
  nth_outside (t ∷ ts) = nth_outside ts

  -- `set_value` takes every index of a text, and one more, whose text is empty and is not read back
  -- unless it is one of the enumeration's.
  set_value_accepts :
      (n : ℕ) (p q : EnumParam)
      → ((n ≤ length type_string)
          × (set_value type_string (pos n) p ≡ ok (record p { val = pos n }))
          × (n ≡ length type_string
              → Absent [] type_string
              → Threw (assign type_string (value type_string (record p { val = pos n })) q)))
        ⊎ ((length type_string < n) × Threw (set_value type_string (pos n) p))
  unfolding set_value value assign
  set_value_accepts n p q = elim (Bool-cases (leb n (length type_string))) [
    | inl low ↦ inl (
      ground arith,
      simp (low),
      λ last none_empty.
          subst (λ (s : Text). Threw (assign type_string s q))
            (sym (ap (nth type_string) last ∙ nth_outside type_string))
            (Absent-Threw [] q none_empty),
    )
    | inr high ↦ inr (ground arith, simp (high) tt)
  ]
