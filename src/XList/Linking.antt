-- ===== src/XList/Linking.antt =====
-- What the operations that link nodes leave behind (include/xlist.hpp, `push_back` and
-- `xerase_prepare`), on a heap whose locks are free.
use pparam.Prelude.{ℕ, ◌≡◌, ◌≢◌, true, false, ◌==◌, arith, ==_iff}
use pparam.XList.{sentinel, update, Heap, ok}
use pparam.XList.Operations.{unlink, link_last}
use pparam.XList.Effects.{
  up, down, bump, unbump, link_next, link_prev, linked_last, unlinked, Unlocked, inc_usage-bump,
  get_prev_ok, set_next-link_next, set_prev-link_prev, ch_next_prev-link_next,
  ch_next_prev-link_prev,
}

module _ {D : Type 0} (h : Heap D) (free : Unlocked h) where
  module _ (p : ℕ) (live : h.alive p ≡ true) (live_next : h.alive (h.next p) ≡ true)
      (live_prev : h.alive (h.prev p) ≡ true) where
    pub unlink-unlinked : unlink p h ≡ ok tt (unlinked p h)
    unfolding unlink unlinked bump unbump up down link_next link_prev
    unlink-unlinked =
        let a : ℕ = h.next p in
        let b : ℕ = h.prev p in
        let h₁ = bump b h in
        let h₂ = link_prev a b h₁ in
        let h₃ = unbump p h₂ in
        let h₄ = bump a h₃ in
        let same : update h.prev a b p ≡ b = ground arith in
        let h₅ = link_next b a h₄ in
        let l₄ : h₄.alive p ≡ true = live in
        let l₅ : h₅.alive p ≡ true = live in
        let e₄ : h₄.prev p ≡ b = same in
        simp (
          l₄,
          e₄,
          inc_usage-bump b h live_prev,
          ch_next_prev-link_prev a h₁ live_next (free a) b,
          inc_usage-bump a h₃ live_next,
          ch_next_prev-link_next b h₄ live_prev (free b) a,
        )

  module _ (n : ℕ) (live : h.alive n ≡ true) (start : h.alive sentinel ≡ true)
      (last : h.alive (h.prev sentinel) ≡ true) (other : n ≢ sentinel) where
    pub link_last-linked_last : link_last n h ≡ ok tt (linked_last n (h.prev sentinel) h)
    unfolding link_last linked_last bump link_next link_prev
    link_last-linked_last =
        let t : ℕ = h.prev sentinel in
        let differ : (n == sentinel) ≡ false = ground (arith, ==_iff n sentinel) in
        let h₁ = link_next n sentinel h in
        let h₂ = link_prev n t h₁ in
        let h₃ = bump n h₂ in
        let h₄ = link_next t n h₃ in
        let h₅ = bump n h₄ in
        let same : h₂.prev sentinel ≡ t = rw (differ) in
        let same₃ : h₃.prev sentinel ≡ t = same in
        simp (
          set_next-link_next n h live sentinel,
          get_prev_ok sentinel h₁ start,
          set_prev-link_prev n h₁ live t,
          inc_usage-bump n h₂ live,
          get_prev_ok sentinel h₃ start,
          same₃,
          ch_next_prev-link_next t h₃ last (free t) n,
          inc_usage-bump n h₄ live,
          ch_next_prev-link_prev sentinel h₅ start (free sentinel) n,
        )
