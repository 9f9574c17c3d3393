-- ===== src/Ip/Cuts.antt =====
-- `split` of src/sparam.cpp.
use pparam.Prelude.{
  ℕ, zero, suc, ◌+◌, ◌-◌, ◌≡◌, refl, ap, sym, ◌∙◌, false, some, List, [], ◌∷◌, ◌++◌, Text, take,
  drop, All, arith, length,
}
use pparam.Ip.{contains, positions, parts, some_parts, split}

-- Texts with a separator between each two.
abbrev pub joined : ℕ → Text → List Text → Text
joined c a [] = a
joined c a (b ∷ rest) = a ++ (c ∷ joined c b rest)

abbrev pub Without : ℕ → Text → Type 0
Without c a = contains c a ≡ false

positions_last : (c i : ℕ) (a : Text) → Without c a → positions c i a ≡ []
unfolding positions contains
positions_last c i [] h = refl
positions_last c i (x ∷ a) h = ground (arith, positions_last c (i + 1) a)

positions-append :
    (c i : ℕ) (a s : Text)
    → Without c a
    → positions c i (a ++ (c ∷ s)) ≡ (i + length a) ∷ positions c (i + length a + 1) s
unfolding positions contains
positions-append c i [] s h = ground arith
positions-append c i (x ∷ a) s h = ground (arith, positions-append c (i + 1) a s)

take_append : (a s : Text) → take (length a) (a ++ s) ≡ a
take_append [] s = refl
take_append (x ∷ a) s = ap (λ k. x ∷ k) (take_append a s)

drop_append : (a s : Text) (c : ℕ) → drop (suc (length a)) (a ++ (c ∷ s)) ≡ s
drop_append [] s c = refl
drop_append (x ∷ a) s c = drop_append a s c

drop_nil : (i : ℕ) → drop {A = ℕ} i [] ≡ []
drop_nil zero = refl
drop_nil (suc i) = refl

drop-drop : (i j : ℕ) (s : Text) → drop (i + j) s ≡ drop j (drop i s)
drop-drop zero j s = ap (λ k. drop k s) (omega arith)
drop-drop (suc i) j [] = drop_nil (suc i + j) ∙ sym (drop_nil j)
drop-drop (suc i) j (x ∷ s) =
    let step : suc i + j ≡ suc (i + j) = omega arith in
    ap (λ k. drop k (x ∷ s)) step ∙ drop-drop i j s

parts-joined :
    (c : ℕ) (str : Text) (start : ℕ) (a : Text) (rest : List Text)
    → drop start str ≡ joined c a rest
    → Without c a
    → All (Without c) rest
    → parts str start (positions c start (joined c a rest)) ≡ a ∷ rest
unfolding parts
parts-joined c str start a [] e h all = rw (positions_last c start a h) (ap (λ k. k ∷ []) e)
parts-joined c str start a (b ∷ rest) e h all =
    let width : start + length a - start ≡ length a = omega arith in
    let front : take (start + length a - start) (drop start str) ≡ a =
      rw (width, e) (take_append a (c ∷ joined c b rest)) in
    let next : start + length a + 1 ≡ start + suc (length a) = omega arith in
    let behind : drop (start + length a + 1) str ≡ joined c b rest = rw next (
      drop-drop start (suc (length a)) str
      ∙ ap (λ k. drop (suc (length a)) k) e
      ∙ drop_append a (joined c b rest) c) in
    rw (positions-append c start a (joined c b rest) h) (
      ap
        (λ k.
          k
          ∷ parts str (start + length a + 1) (positions c (start + length a + 1) (joined c b rest)))
        front
      ∙ ap (λ k. a ∷ k) (parts-joined c str (start + length a + 1) b rest behind all.0 all.1))

-- Parts without the splitter, joined by it, are what `split` gives back.
pub split-joined :
    (c : ℕ) (a b : Text) (rest : List Text)
    → Without c a
    → Without c b
    → All (Without c) rest
    → split (joined c a (b ∷ rest)) c ≡ some (a ∷ b ∷ rest)
unfolding split
split-joined c a b rest ha hb hr =
    let str = joined c a (b ∷ rest) in
    let found = positions-append c 0 a (joined c b rest) ha in
    ap (some_parts str) found
    ∙ ap (λ k. some (parts str 0 k)) (sym found)
    ∙ ap some (parts-joined c str 0 a (b ∷ rest) refl ha (hb, hr))
