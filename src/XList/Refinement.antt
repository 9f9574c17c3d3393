-- ===== src/XList/Refinement.antt =====
-- What `push_back`, `xerase_prepare` and `size` (include/xlist.hpp) do to the sequence of the list's
-- elements.
use pparam.Prelude.{
  ℕ, zero, suc, ◌+◌, ◌≡◌, ◌≢◌, ◌<◌, refl, sym, subst, true, false, some, List, [], ◌∷◌, ◌++◌, ◌==◌,
  arith, ==_iff, length,
}
use pparam.XList.{sentinel, update, Heap, Iterator}
use pparam.XList.Iterators.{iterator_at}
use pparam.XList.Operations.{push_back, distance, size, xerase_prepare}
use pparam.XList.Effects.{bump, unbump, link_next, link_prev, created, linked_last}
use pparam.XList.Moves.{fini-unbump, increment-bump, begin-bump, list_end-bump}
use pparam.XList.Erasing.{push_back-grown, fresh_dead}
use pparam.XList.Keeping.{Ends, plus, xerase_prepare_first, prepared-Sound, prepared-Contents}
use pparam.XList.Contents.{Chain, Contents, removed, grown-Chain}
use pparam.XList.Sound.{Sound, bump-Sound, unbump-Sound}
use pparam.XList.Sound.Growing.{grown-Sound}
use pparam.XList.Sound.Unlinking.{prepared}

-- The nodes from `q` on, up to the sentinel.
abbrev pub Line : (ℕ → ℕ) → ℕ → List ℕ → Type 0
Line next q [] = q ≡ sentinel
Line next q (x ∷ xs) = (q ≡ x) × (x ≢ sentinel) × Line next (next x) xs

pub Chain-Line : (next : ℕ → ℕ) (p : ℕ) (xs : List ℕ) → Chain next p xs → Line next (next p) xs
Chain-Line next p [] c = c
Chain-Line next p (x ∷ xs) c = (c.0, c.1, Chain-Line next x xs c.2)

module _ {D : Type 0} where
  -- `std::distance` counts the nodes that are left, and lets both of its iterators go.
  distance_lem :
      (fuel n q : ℕ) (xs : List ℕ) (h : Heap D) (held : ℕ → ℕ)
      → length xs < fuel
      → Line h.next q xs
      → h.alive q ≡ true
      → Sound h (plus (plus held sentinel) q)
      → Ends
          (distance fuel
            (iterator_at (some sentinel) (some q))
            (iterator_at (some sentinel) (some sentinel))
            n
            h)
          (n + length xs)
          (λ h'. Sound h' held)
  unfolding distance bump unbump
  distance_lem zero n q xs h held few line live s = absurd (omega arith)
  distance_lem (suc fuel) n q [] h held few line live s =
      let at_end : (q == sentinel) ≡ true = (==_iff q sentinel).1 line in
      let h₁ = unbump q h in
      let same : n + 0 ≡ n = omega arith in
      let e₁ = fini-unbump h (iterator_at (some sentinel) (some q)) q refl live (s.unlocked q) in
      let s₁ = unbump-Sound q h _ (plus held sentinel) (λ m. refl) s in
      let e₂ =
        fini-unbump h₁ (iterator_at (some sentinel) (some sentinel)) sentinel refl s₁.start
          (s₁.unlocked sentinel) in
      (
        unbump sentinel h₁,
        simp (at_end, e₁, e₂, same),
        unbump-Sound sentinel h₁ _ held (λ m. refl) s₁,
      )
  distance_lem (suc fuel) n q (x ∷ xs) h held few line live s =
      let inside : (q == sentinel) ≡ false = ground (arith, ==_iff q sentinel, line.0, line.1) in
      let live_next = s.next_alive q live in
      let h₁ = bump (h.next q) (unbump q h) in
      let s₁ =
        bump-Sound (h.next q) (unbump q h) _ _ (λ m. refl)
          (unbump-Sound q h _ (plus held sentinel) (λ m. refl) s) in
      let at =
        increment-bump h (iterator_at (some sentinel) (some q)) q refl live (s.unlocked q)
          live_next in
      let (g, e, s₂) =
        distance_lem fuel (n + 1) (h.next q) xs h₁ held (omega (arith, few))
          (subst (λ (z : ℕ). Line h.next (h.next z) xs) (sym line.0) line.2) live_next s₁ in
      let same : n + 1 + length xs ≡ n + suc (length xs) = omega arith in
      (g, simp (inside, at, e, same), s₂)

  module _ (h : Heap D) (held : ℕ → ℕ) (s : Sound h held) (xs : List ℕ) (c : Contents h xs) where
    -- The size of a list that stands for `xs` is their number, and every iterator that is made for
    -- it is let go.
    pub size-length :
        (fuel : ℕ) → length xs < fuel → Ends (size fuel h) (length xs) (λ h'. Sound h' held)
    unfolding size bump
    size-length fuel enough =
        let q : ℕ = h.next sentinel in
        let live = s.next_alive sentinel s.start in
        let h₁ = bump q h in
        let s₁ = bump-Sound q h held (plus held q) (λ m. refl) s in
        let s₂ =
          bump-Sound sentinel h₁ (plus held q) (plus (plus held sentinel) q) (λ m. omega arith)
            s₁ in
        let (g, e, s₃) =
          distance_lem fuel 0 q xs (bump sentinel h₁) held enough (Chain-Line h.next sentinel xs c)
            live s₂ in
        let same : 0 + length xs ≡ length xs = omega arith in
        (
          g,
          simp (begin-bump h s.start (s.unlocked sentinel) live, list_end-bump h₁ s.start, e, same),
          s₃,
        )

    -- `push_back` appends the new node, with the value, and all others keep theirs.
    pub push_back-Contents :
        (d : D)
        → held h.fresh ≡ 0
        → Ends (push_back d h) tt (λ h'.
          Sound h' held
          × Contents h' (xs ++ h.fresh ∷ [])
          × (h'.value ≡ update h.value h.fresh (some d)))
    unfolding created linked_last bump link_next link_prev
    push_back-Contents d unheld = (
      _,
      push_back-grown h held s d,
      (
        grown-Sound d h held s (fresh_dead h held s) unheld,
        grown-Chain h held s d sentinel xs s.start s.start_listed c,
        refl,
      ),
    )

    -- `xerase_prepare` takes the iterator's node out, and leaves the order of the others.
    pub xerase_prepare-Contents :
        (it : Iterator) (p : ℕ)
        → it.node ≡ some p
        → h.alive p ≡ true
        → h.is_erasing p ≡ false
        → p ≢ sentinel
        → Ends
            (xerase_prepare it h)
            true
            (λ h'. Sound h' held × Contents h' (removed p xs) × (h'.value ≡ h.value))
    unfolding prepared
    xerase_prepare-Contents it p on live listed inner = (
      _,
      xerase_prepare_first h held s it p on live listed inner,
      (
        prepared-Sound h held s it p on live listed inner,
        prepared-Contents h held s it p on live listed inner xs c,
        refl,
      ),
    )
