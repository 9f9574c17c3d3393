-- ===== src/SingleParam/Stripped.antt =====
-- `stripBlanks` (src/xparam.cpp) against a text trimmed at either end.
use pparam.Prelude.{
  ℕ, suc, ◌+◌, ◌-◌, ◌≡◌, refl, ap, sym, ◌∙◌, ◌==◌, ◌&&◌, Bool, true, false, Option, none, some, [],
  ◌∷◌, take, drop, Text, arith, if◌then◌else◌, Bool-cases, inl, inr, ◌⊎◌,
}
use pparam.SingleParam.{first_not_blank, last_not_blank, cut, strip_blanks}

abbrev pub all_blank : Text → Bool
all_blank [] = true
all_blank (c ∷ s) = (c == 32) && all_blank s

-- Without the blanks in front.
unfoldable pub trim_start : Text → Text
trim_start [] = []
trim_start (c ∷ s) = let rest = trim_start s in if c == 32 then rest else c ∷ s

-- Without the blanks at the end.
unfoldable pub trim_end : Text → Text
trim_end [] = []
trim_end (c ∷ s) = let rest = trim_end s in if all_blank (c ∷ s) then [] else c ∷ rest

true-false : ¬ (true ≡ false)
true-false e = cc

trim_end_blank : (s : Text) → all_blank s ≡ true → trim_end s ≡ []
unfolding trim_end
trim_end_blank [] h = refl
trim_end_blank (c ∷ s) h = simp (h)

abbrev LastAt : Text → Type 0
LastAt s =
    (j : ℕ) × (all_blank s ≡ false) × (last_not_blank s ≡ some j) × (take (suc j) s ≡ trim_end s)

last_lem : (s : Text) → ((all_blank s ≡ true) × (last_not_blank s ≡ none)) ⊎ LastAt s
unfolding last_not_blank trim_end
last_lem [] = inl (refl, refl)
last_lem (c ∷ s) = elim (last_lem s) [
  | inl (rest_blank, nothing) ↦ elim (Bool-cases (c == 32)) [
    | inl blank ↦ inl (simp (blank, rest_blank), simp (blank, nothing))
    | inr other ↦
        inr (0, simp (other), simp (other, nothing), simp (other, trim_end_blank s rest_blank))
  ]
  | inr (j, not_blank, found, same) ↦
      let some_not : all_blank (c ∷ s) ≡ false = ground (arith, not_blank) in
      inr (suc j, some_not, simp (found), simp (some_not, same))
]

-- Both ends are found in a text that is not blank, and what is cut out is the text trimmed twice.
cut_lem :
    (s : Text)
    → all_blank s ≡ false
    → (i : ℕ) × (j : ℕ) × (first_not_blank s ≡ some i)
      × (last_not_blank s ≡ some j)
      × (take (j - i + 1) (drop i s) ≡ trim_end (trim_start s))
unfolding first_not_blank last_not_blank trim_start
cut_lem [] h = cc
cut_lem (c ∷ s) h = elim (Bool-cases (c == 32)) [
  | inl blank ↦
      let rest_not : all_blank s ≡ false = ground (arith, h) in
      let (i, j, first, last, same) = cut_lem s rest_not in
      let width : suc j - suc i + 1 ≡ j - i + 1 = omega arith in
      let started : trim_start (c ∷ s) ≡ trim_start s = simp (blank) in
      (
        suc i,
        suc j,
        simp (blank, first),
        simp (last),
        ap (λ (n : ℕ). take n (drop i s)) width ∙ same ∙ sym (ap trim_end started),
      )
  | inr other ↦ elim (last_lem (c ∷ s)) [
    | inl (blank, nothing) ↦ absurd (true-false (sym blank ∙ h))
    | inr (j, not_blank, found, same) ↦
        let width : j - 0 + 1 ≡ suc j = omega arith in
        let whole : trim_start (c ∷ s) ≡ c ∷ s = simp (other) in
        (
          0,
          j,
          simp (other),
          found,
          ap (λ (n : ℕ). take n (c ∷ s)) width ∙ same ∙ sym (ap trim_end whole),
        )
  ]
]

cut_nothing : (s : Text) (x : Option ℕ) → cut s x none ≡ none
cut_nothing s none = refl
cut_nothing s (some i) = refl

cut_found :
    (s t : Text) (x y : Option ℕ) (i j : ℕ)
    → x ≡ some i
    → y ≡ some j
    → take (j - i + 1) (drop i s) ≡ t
    → cut s x y ≡ some t
cut_found s t x y i j first last same = rw first (rw last (ap (λ (u : Text). some u) same))

abbrev of_blank : Text → Option Text
of_blank [] = some []
of_blank (c ∷ s) = none

-- A text that is not blank is trimmed at both ends; an empty one stays; a blank one makes `substr` throw.
pub strip_blanks_lem :
    (s : Text)
    → strip_blanks s ≡ (if all_blank s then of_blank s else some (trim_end (trim_start s)))
unfolding strip_blanks
strip_blanks_lem [] = refl
strip_blanks_lem (c ∷ s) = elim (last_lem (c ∷ s)) [
  | inl (blank, nothing) ↦
      ap (cut (c ∷ s) (first_not_blank (c ∷ s))) nothing
      ∙ cut_nothing (c ∷ s) (first_not_blank (c ∷ s))
      ∙ simp (blank)
  | inr (j, not_blank, found, same) ↦
      let (i, k, first, last, trimmed) = cut_lem (c ∷ s) not_blank in
      cut_found (c ∷ s) _ _ _ i k first last trimmed ∙ simp (not_blank)
]
