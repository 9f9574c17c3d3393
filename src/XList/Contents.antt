-- ===== src/XList/Contents.antt =====
-- The list that a heap stands for (include/xlist.hpp): the nodes that `_M_next` leads to from the
-- sentinel back to the sentinel, when a node is linked last and when one is led past.
use pparam.Prelude.{
  ℕ, ◌≡◌, ◌≢◌, refl, ap, sym, ◌∙◌, subst, true, false, List, [], ◌∷◌, ◌++◌, ◌==◌, if◌then◌else◌,
  arith, Bool-cases, inl, inr, ==_iff,
}
use pparam.XList.{sentinel, Heap}
use pparam.XList.Effects.{bump, unbump, link_next, link_prev, created, linked_last, unlinked}
use pparam.XList.Sound.{Sound}
use pparam.XList.Sound.Unlinking.{marked}

unfoldable pub removed : ℕ → List ℕ → List ℕ
removed y [] = []
removed y (x ∷ xs) = if x == y then removed y xs else x ∷ removed y xs

-- The nodes after `p`, up to the sentinel.
abbrev pub Chain : (ℕ → ℕ) → ℕ → List ℕ → Type 0
Chain next p [] = next p ≡ sentinel
Chain next p (x ∷ xs) = (next p ≡ x) × (x ≢ sentinel) × Chain next x xs

-- A heap stands for one list only.
pub Chain-unique :
    (next : ℕ → ℕ) (p : ℕ) (xs ys : List ℕ) → Chain next p xs → Chain next p ys → xs ≡ ys
Chain-unique next p [] [] c e = refl
Chain-unique next p [] (y ∷ ys) c e = absurd (omega (arith, e.0, e.1))
Chain-unique next p (x ∷ xs) [] c e = absurd (omega (arith, c.0, c.1))
Chain-unique next p (x ∷ xs) (y ∷ ys) c e =
    let same : x ≡ y = sym c.0 ∙ e.0 in
    let rest = Chain-unique next x xs ys c.2 (subst (λ (z : ℕ). Chain next z ys) (sym same) e.2) in
    cc

module _ {D : Type 0} where
  abbrev pub Contents : Heap D → List ℕ → Type 0
  Contents h xs = Chain h.next sentinel xs

  module _ (h : Heap D) (held : ℕ → ℕ) (s : Sound h held) where
    -- What stands on a chain is alive and is not being erased.
    pub chain_listed :
        (p x : ℕ)
        → h.alive p ≡ true
        → h.is_erasing p ≡ false
        → h.next p ≡ x
        → (h.alive x ≡ true) × (h.is_erasing x ≡ false)
    chain_listed p x live listed e =
        ground (arith, s.next_alive p live, (s.linked p live listed).next_listed)

    module _ (p : ℕ) (live : h.alive p ≡ true) (listed : h.is_erasing p ≡ false)
        (inner : p ≢ sentinel) where
      -- The node before `p` is led to the node after it.
      next_skips :
          (q : ℕ)
          → h.next q ≡ p
          → h.alive q ≡ true
          → h.is_erasing q ≡ false
          → (unlinked p (marked p h)).next q ≡ h.next p
      unfolding unlinked marked bump unbump link_next link_prev
      next_skips q e living still =
          let back = (s.linked q living still).prev_next in ground (arith, ==_iff (h.prev p) q)

      next_stays : (q : ℕ) → h.next q ≢ p → (unlinked p (marked p h)).next q ≡ h.next q
      unfolding unlinked marked bump unbump link_next link_prev
      next_stays q e =
          let forth = (s.linked p live listed).next_prev in ground (arith, ==_iff (h.prev p) q)

      pub unlinked-Chain :
          (q : ℕ) (xs : List ℕ)
          → q ≢ p
          → h.alive q ≡ true
          → h.is_erasing q ≡ false
          → Chain h.next q xs
          → Chain (unlinked p (marked p h)).next q (removed p xs)
      unfolding removed
      unlinked-Chain q [] other living still c = next_stays q (λ e. inner (sym e ∙ c)) ∙ c
      unlinked-Chain q (x ∷ []) other living still c =
          let (live_x, listed_x) = chain_listed q x living still c.0 in
          elim (Bool-cases (x == p)) [
            | inl e ↦
                let same : x ≡ p = (==_iff x p).0 e in
                rw e (next_skips q (c.0 ∙ same) living still ∙ ap h.next (sym same) ∙ c.2)
            | inr e ↦
                let differ : x ≢ p = ground (arith, ==_iff x p) in
                rw e (
                  next_stays q (λ f. differ (sym c.0 ∙ f)) ∙ c.0,
                  c.1,
                  unlinked-Chain x [] differ live_x listed_x c.2,
                )
          ]
      unlinked-Chain q (x ∷ z ∷ r) other living still c =
          let (live_x, listed_x) = chain_listed q x living still c.0 in
          let (live_z, listed_z) = chain_listed x z live_x listed_x c.2.0 in
          elim (Bool-cases (x == p)) [
            | inl e ↦
                let same : x ≡ p = (==_iff x p).0 e in
                let after : h.next p ≡ z = ap h.next (sym same) ∙ c.2.0 in
                let back = (s.linked q living still).prev_next in
                let back_p = (s.linked p live listed).prev_next in
                let differ : z ≢ p = λ f. other (cc) in
                let differs : (z == p) ≡ false = ground (arith, ==_iff z p) in
                rw (e, differs)
                  (
                    next_skips q (c.0 ∙ same) living still ∙ after,
                    c.2.1,
                    unlinked-Chain z r differ live_z listed_z c.2.2,
                  )
            | inr e ↦
                let differ : x ≢ p = ground (arith, ==_iff x p) in
                rw e (
                  next_stays q (λ f. differ (sym c.0 ∙ f)) ∙ c.0,
                  c.1,
                  unlinked-Chain x (z ∷ r) differ live_x listed_x c.2,
                )
          ]

    module _ (d : D) where
      pub grown-Chain :
          (q : ℕ) (xs : List ℕ)
          → h.alive q ≡ true
          → h.is_erasing q ≡ false
          → Chain h.next q xs
          → Chain (linked_last h.fresh (h.prev sentinel) (created d h)).next q (xs ++ h.fresh ∷ [])
      unfolding linked_last created bump link_next link_prev
      grown-Chain q [] living still c =
          let back = (s.linked q living still).prev_next in
          let known = s.known q living in
          let start = s.known sentinel s.start in
          (
            ground (arith, ==_iff (h.prev sentinel) q),
            λ e. absurd (omega arith),
            ground (arith, ==_iff (h.prev sentinel) h.fresh, ==_iff h.fresh h.fresh),
          )
      grown-Chain q (x ∷ xs) living still c =
          let (live_x, listed_x) = chain_listed q x living still c.0 in
          let known = s.known q living in
          let forth = (s.linked sentinel s.start s.start_listed).next_prev in
          let differ : h.prev sentinel ≢ q = λ e. c.1 (sym c.0 ∙ ap h.next (sym e) ∙ forth) in
          (
            ground (arith, ==_iff (h.prev sentinel) q, ==_iff h.fresh q),
            c.1,
            grown-Chain x xs live_x listed_x c.2,
          )
