-- ===== src/XList/Erase.antt =====
-- `erase` (include/xlist.hpp, also called by `clear`, `pop_back` and the destructor): it destroys
-- the node while its own parameter `pos` is still on it, and the end of `pos` uses that node.
use pparam.Prelude.{
  ℕ, ◌+◌, ◌*◌, ◌≡◌, ◌≢◌, ◌<◌, ◌⊎◌, ◌∙◌, refl, sym, true, false, some, ◌==◌, arith, Bool-cases, inl,
  inr, ==_iff, ==_self,
}
use pparam.XList.{sentinel, uint_mod, Heap, dec_usage, ok, blocked, fault}
use pparam.XList.Iterators.{iterator_at, copy, fini}
use pparam.XList.Operations.{erase, xerase_prepare}
use pparam.XList.Effects.{bump, unbump, dec_usage-unbump}
use pparam.XList.Moves.{copy-bump}
use pparam.XList.Keeping.{plus, xerase_prepare_first, prepared-Sound}
use pparam.XList.Destroying.{false-true, finished, waiting, xerase_waits, xerase_destroys}
use pparam.XList.Sound.{Sound, bump-Sound, unbump-Sound, refs}
use pparam.XList.Sound.Unlinking.{prepared}
use pparam.XList.Sound.Burying.{refs_le}

module _ {D : Type 0} where
  -- The end of an iterator on a destroyed node.
  fini_fault :
      (p : ℕ) (h : Heap D)
      → h.alive p ≡ false
      → fini (iterator_at (some sentinel) (some p)) h ≡ fault
  unfolding fini
  fini_fault p h dead = simp (dead)

  module _ (h : Heap D) (held rest : ℕ → ℕ) (s : Sound h held) (p : ℕ) (live : h.alive p ≡ true)
      (listed : h.is_erasing p ≡ false) (inner : p ≢ sentinel)
      (counts : (n : ℕ) → held n ≡ plus rest p n) (few : 2 * h.fresh + held p < uint_mod) where
    -- The heap in which `erase` calls `xerase`.
    erase_from : Heap D
    unfolding prepared bump unbump
    erase_from = unbump p (prepared p (bump p h))

    erase_from-Sound : Sound erase_from held
    unfolding erase_from
    erase_from-Sound =
        let it = iterator_at (some sentinel) (some p) in
        let s₁ = bump-Sound p h held (plus held p) (λ n. refl) s in
        let s₂ = prepared-Sound (bump p h) (plus held p) s₁ it p refl live listed inner in
        unbump-Sound p (prepared p (bump p h)) (plus held p) held (λ n. refl) s₂

    -- How many there are besides the caller's iterator, when `erase` calls `xerase`.
    left_over : ℕ
    left_over = refs erase_from p + rest p

    few_from : refs erase_from p + held p < uint_mod
    few_from =
        let same : erase_from.fresh ≡ h.fresh = unfold erase_from in refl in
        omega (arith, refs_le erase_from p)

    marked_from : erase_from.is_erasing p ≡ true
    unfolding erase_from
    marked_from = ground (arith, ==_self p)

    copied :
        copy (iterator_at (some sentinel) (some p)) h
        ≡ ok (iterator_at (some sentinel) (some p)) (bump p h)
    copied = copy-bump h (iterator_at (some sentinel) (some p)) p refl live

    prepares :
        xerase_prepare (iterator_at (some sentinel) (some p)) (bump p h)
        ≡ ok true (prepared p (bump p h))
    unfolding bump
    prepares =
        xerase_prepare_first (bump p h) (plus held p)
          (bump-Sound p h held (plus held p) (λ n. refl) s) (iterator_at (some sentinel) (some p)) p
          refl live listed inner

    lets_go : dec_usage p (prepared p (bump p h)) ≡ ok tt erase_from
    unfolding erase_from
    lets_go = dec_usage-unbump p (prepared p (bump p h)) live

    erase_waits : left_over ≢ 0 → erase (iterator_at (some sentinel) (some p)) h ≡ blocked
    unfolding erase left_over
    erase_waits used =
        let it = iterator_at (some sentinel) (some p) in
        let stuck =
          xerase_waits erase_from held rest erase_from-Sound it p refl (unfold erase_from in live)
            counts marked_from few_from used in
        simp (copied, prepares, lets_go, stuck)

    erase_fault : left_over ≡ 0 → erase (iterator_at (some sentinel) (some p)) h ≡ fault
    unfolding erase left_over
    erase_fault free =
        let it = iterator_at (some sentinel) (some p) in
        let done =
          xerase_destroys erase_from held rest erase_from-Sound it p refl
            (unfold erase_from in live) counts marked_from few_from free in
        let dead : (finished p (waiting p erase_from)).alive p ≡ false =
          unfold finished waiting in (ground (arith, ==_self p)) in
        simp
          (copied, prepares, lets_go, done, fini_fault p (finished p (waiting p erase_from)) dead)

    -- With an iterator of the caller on it, a call of `erase` on an element never returns: it waits
    -- for other pointers and iterators, or uses the node that it has destroyed.
    pub erase_never_returns :
        (erase (iterator_at (some sentinel) (some p)) h ≡ blocked)
        ⊎ (erase (iterator_at (some sentinel) (some p)) h ≡ fault)
    erase_never_returns = elim (Bool-cases (left_over == 0)) [
      | inl free ↦ inr (erase_fault ((==_iff left_over 0).0 free))
      | inr used ↦ inl (erase_waits (λ e. false-true (sym used ∙ (==_iff left_over 0).1 e)))
    ]
