-- ===== src/XList/Erasing.antt =====
-- How `push_back`, `xerase_prepare` and `xerase` (include/xlist.hpp) end on a sound heap.
use pparam.Prelude.{
  ℕ, ◌+◌, ◌≡◌, ◌≢◌, ◌<◌, ap, ◌∙◌, true, false, ◌==◌, arith, Bool-cases, inl, inr, ==_iff, ==_self,
}
use pparam.XList.{sentinel, uint_mod, Heap, ok, blocked, erasing}
use pparam.XList.Operations.{push_back, prepare_node, finish}
use pparam.XList.Effects.{
  unbump, buried, created, linked_last, unlinked, destroy-buried, destroy_blocked,
}
use pparam.XList.Linking.{unlink-unlinked, link_last-linked_last}
use pparam.XList.Moves.{release_locked-unbump}
use pparam.XList.Sound.{Sound, refs}
use pparam.XList.Sound.Unlinking.{marked}
use pparam.XList.Sound.Burying.{unused-next_ne, unused-prev_ne}

module _ {D : Type 0} (h : Heap D) (held : ℕ → ℕ) (s : Sound h held) where
  pub fresh_dead : h.alive h.fresh ≡ false
  fresh_dead = elim (Bool-cases (h.alive h.fresh)) [
    | inl live ↦ absurd (omega (arith, s.known h.fresh live))
    | inr dead ↦ dead
  ]

  pub push_back-grown :
      (d : D) → push_back d h ≡ ok tt (linked_last h.fresh (h.prev sentinel) (created d h))
  unfolding push_back created
  push_back-grown d =
      let start : sentinel < h.fresh = s.known sentinel s.start in
      let last = s.known (h.prev sentinel) (s.prev_alive sentinel s.start) in
      let other : h.fresh ≢ sentinel = λ e. absurd (omega arith) in
      let same : (created d h).prev sentinel ≡ h.prev sentinel =
        ground (arith, ==_iff h.fresh sentinel) in
      link_last-linked_last (created d h) (λ p. ground (arith, s.unlocked p)) h.fresh
        (ground (arith, ==_self h.fresh)) (ground (arith, s.start))
        (rw same (ground (arith, s.prev_alive sentinel s.start))) other
      ∙ ap (λ (t : ℕ). ok tt (linked_last h.fresh t (created d h))) same

  module _ (p : ℕ) (live : h.alive p ≡ true) where
    erasing-marked : h.is_erasing p ≡ false → erasing p h ≡ ok true (marked p h)
    unfolding erasing marked
    erasing-marked listed = simp (live, listed)

    pub prepare_node_first :
        h.is_erasing p ≡ false → prepare_node p h ≡ ok true (unlinked p (marked p h))
    unfolding prepare_node marked
    prepare_node_first listed = simp (
      erasing-marked listed,
      unlink-unlinked (marked p h) s.unlocked p live (s.next_alive p live) (s.prev_alive p live),
    )

    pub prepare_node_again : h.is_erasing p ≡ true → prepare_node p h ≡ ok false h
    unfolding prepare_node erasing
    prepare_node_again listed = simp (live, listed)

    pub finish_used : (h.usage p == 0) ≡ false → finish p (h.next p) (h.prev p) h ≡ blocked
    unfolding finish
    finish_used used = simp (destroy_blocked p h live (s.unlocked p) used)

    -- The node is destroyed once nothing is on it, and its neighbours are let go.
    module _ (listed : h.is_erasing p ≡ true) (few : refs h p + held p < uint_mod) where
      pub finish_unused :
          h.usage p ≡ 0
          → finish p (h.next p) (h.prev p) h
            ≡ ok tt (unbump (h.prev p) (unbump (h.next p) (buried p h)))
      unfolding finish buried unbump
      finish_unused unused =
          let h₁ = buried p h in
          let h₂ = unbump (h.next p) h₁ in
          let before = s.next_alive p live in
          let after = s.prev_alive p live in
          let apart = unused-next_ne p h held s live listed unused few p live in
          let apart_prev = unused-prev_ne p h held s live listed unused few p live in
          let next_live : h₁.alive (h.next p) ≡ true = ground (arith, ==_iff p (h.next p)) in
          let prev_live : h₁.alive (h.prev p) ≡ true = ground (arith, ==_iff p (h.prev p)) in
          simp (
            destroy-buried p h live (s.unlocked p) unused,
            release_locked-unbump h₁ (h.next p) next_live (s.unlocked (h.next p)),
            release_locked-unbump h₂ (h.prev p) prev_live (s.unlocked (h.prev p)),
          )
