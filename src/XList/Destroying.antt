-- ===== src/XList/Destroying.antt =====
-- `xerase` (include/xlist.hpp), which gives its two usages back, waits for the others, and destroys
-- the node.
use pparam.Prelude.{
  ℕ, ◌+◌, ◌≡◌, ◌≢◌, ◌<◌, refl, sym, ◌∙◌, true, false, some, ◌==◌, if◌then◌else◌, arith, Bool-cases,
  inl, inr, ==_iff,
}
use pparam.XList.{sentinel, uint_mod, Heap, Iterator, ok, blocked}
use pparam.XList.Iterators.{iterator_at}
use pparam.XList.Operations.{xerase, xerase_begin, finish}
use pparam.XList.Effects.{
  up, down, bump, unbump, buried, dec_usage-unbump, get_next_ok, get_prev_ok,
}
use pparam.XList.Moves.{copy-bump, fini-unbump}
use pparam.XList.Erasing.{finish_unused, finish_used}
use pparam.XList.Keeping.{Ends, Frozen, plus}
use pparam.XList.Counts.{hit}
use pparam.XList.Sound.{Sound, bump-Sound, unbump-Sound, refs}
use pparam.XList.Sound.Burying.{buried-Sound}

pub false-true : false ≢ true
false-true e = cc

down_lt : (usage : ℕ → ℕ) (p : ℕ) → down usage p p < uint_mod
unfolding down
down_lt usage p = ground (arith, ==_iff p p)

module _ {D : Type 0} where
  -- The heap after the node is destroyed and its neighbours are let go.
  unfoldable pub finished : ℕ → Heap D → Heap D
  unfolding buried unbump
  finished p h = unbump (h.prev p) (unbump (h.next p) (buried p h))

  -- The heap in which `xerase` waits.
  unfoldable pub waiting : ℕ → Heap D → Heap D
  unfolding bump unbump
  waiting p h = unbump p (unbump p (bump p h))

  module _ (p : ℕ) (h : Heap D) (held : ℕ → ℕ) (s : Sound h held) (live : h.alive p ≡ true)
      (listed : h.is_erasing p ≡ true) (few : refs h p + held p < uint_mod)
      (unused : h.usage p ≡ 0) where
    pub finished-Sound : Sound (finished p h) held
    unfolding finished
    finished-Sound =
        unbump-Sound (h.prev p) _ (plus held (h.prev p)) held (λ n. refl)
          (unbump-Sound (h.next p) (buried p h) (λ m. held m + hit (h.next p) m + hit (h.prev p) m)
            (plus held (h.prev p)) (λ n. omega arith)
            (buried-Sound p h held s live listed unused few))

    pub finish_lem : finish p (h.next p) (h.prev p) h ≡ ok tt (finished p h)
    unfolding finished
    finish_lem = finish_unused h held s p live listed few unused

  module _ (h : Heap D) (held rest : ℕ → ℕ) (s : Sound h held) (it : Iterator) (p : ℕ)
      (on : it.node ≡ some p) (live : h.alive p ≡ true)
      (counts : (n : ℕ) → held n ≡ plus rest p n) where
    pub waiting-Sound : Sound (waiting p h) rest
    unfolding waiting
    waiting-Sound = unbump-Sound p _ held rest counts (
        unbump-Sound p (bump p h) (plus held p) held (λ n. refl)
          (bump-Sound p h held (plus held p) (λ n. refl) s))

    waiting-Frozen : Frozen 0 h (waiting p h)
    unfolding waiting
    waiting-Frozen = record {
      fresh_grows = omega arith;
      alive_stays = λ n l. l;
      erasing_stays = λ n l e. e;
      next_stays = λ n l e. refl;
      prev_stays = λ n l e. refl;
    }

    pub xerase_begin_lem : xerase_begin it h ≡ ok (p, h.next p, h.prev p) (waiting p h)
    unfolding xerase_begin waiting bump unbump
    xerase_begin_lem =
        let pos = iterator_at it.list_end (some p) in
        let h₁ = bump p h in
        let h₂ = unbump p h₁ in
        simp (
          copy-bump h it p on live,
          get_next_ok p h₁ live,
          get_prev_ok p h₁ live,
          dec_usage-unbump p h₁ live,
          fini-unbump h₂ pos p refl live (s.unlocked p),
        )

    pub xerase_begin_ends :
        Ends (xerase_begin it h) (p, h.next p, h.prev p) (λ h'. Sound h' rest × Frozen 0 h h')
    xerase_begin_ends = (waiting p h, xerase_begin_lem, (waiting-Sound, waiting-Frozen))

    module _ (listed : h.is_erasing p ≡ true) (few : refs h p + held p < uint_mod) where
      -- The usage in which `xerase` waits: what is left on the node.
      waiting_usage : (waiting p h).usage p ≡ refs h p + rest p
      unfolding waiting refs
      waiting_usage =
          let c = waiting-Sound.counted p live in
          let some_held = counts p in
          let bound = down_lt (down (up h.usage p) p) p in
          ground (arith, ==_iff p p, ==_iff sentinel p, s.start_listed)

      few_waiting : refs (waiting p h) p + rest p < uint_mod
      unfolding waiting refs
      few_waiting = omega (arith, counts p)

      pub xerase_waits : refs h p + rest p ≢ 0 → xerase it h ≡ blocked
      unfolding xerase bump unbump waiting
      xerase_waits used =
          let h₁ = bump p h in
          let h₂ = unbump p h₁ in
          let pos = iterator_at it.list_end (some p) in
          let w = waiting_usage in
          let still : ((waiting p h).usage p == 0) ≡ false =
            ground (arith, ==_iff ((waiting p h).usage p) 0) in
          simp (
            copy-bump h it p on live,
            get_next_ok p h₁ live,
            get_prev_ok p h₁ live,
            dec_usage-unbump p h₁ live,
            fini-unbump h₂ pos p refl live (s.unlocked p),
            finish_used (waiting p h) rest waiting-Sound p live still,
          )

      pub xerase_destroys : refs h p + rest p ≡ 0 → xerase it h ≡ ok tt (finished p (waiting p h))
      unfolding xerase bump unbump waiting finished
      xerase_destroys unused =
          let h₁ = bump p h in
          let h₂ = unbump p h₁ in
          let pos = iterator_at it.list_end (some p) in
          let w = waiting_usage in
          let zero_usage : (waiting p h).usage p ≡ 0 = omega arith in
          simp (
            copy-bump h it p on live,
            get_next_ok p h₁ live,
            get_prev_ok p h₁ live,
            dec_usage-unbump p h₁ live,
            fini-unbump h₂ pos p refl live (s.unlocked p),
            finish_unused (waiting p h) rest waiting-Sound p live listed few_waiting zero_usage,
          )

      -- `xerase` ends when there is no pointer and no other iterator on the node, which it destroys,
      -- and else it waits.
      pub xerase_lem :
          xerase it h
          ≡ (if refs h p + rest p == 0 then ok tt (finished p (waiting p h)) else blocked)
      xerase_lem = elim (Bool-cases (refs h p + rest p == 0)) [
        | inl free ↦ rw free (xerase_destroys ((==_iff _ 0).0 free))
        | inr used ↦ rw used (xerase_waits (λ e. false-true (sym used ∙ (==_iff _ 0).1 e)))
      ]
