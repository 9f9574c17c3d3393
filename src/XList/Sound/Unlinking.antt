-- ===== src/XList/Sound/Unlinking.antt =====
-- The node that `xerase_prepare` (include/xlist.hpp) leads past, and the heap's invariant.
use pparam.Prelude.{ℕ, ◌≡◌, ◌≢◌, ap, true, false, ◌==◌, arith, ==_iff, Bool-cases, inl, inr}
use pparam.XList.{sentinel, update, Heap}
use pparam.XList.Effects.{up, down, bump, unbump, link_next, link_prev, unlinked}
use pparam.XList.Counts.{hit, up_mod, down_mod, pointers-update}
use pparam.XList.Sound.{Sound, Links, Counted, refs}

module _ {D : Type 0} where
  -- The node is marked by `erasing`.
  unfoldable pub marked : ℕ → Heap D → Heap D
  marked p h = record h { is_erasing = update h.is_erasing p true }

  -- The heap that `xerase_prepare` leaves: the copy of the iterator takes and gives back a usage.
  unfoldable pub prepared : ℕ → Heap D → Heap D
  unfolding marked bump unlinked unbump link_next link_prev
  prepared p h = unbump p (unlinked p (marked p (bump p h)))

  module _ (p : ℕ) (h : Heap D) (lp : Links h p) where
    -- The other nodes of a ring stay linked both ways, and to none that is being erased.
    unlinked-Links : (q : ℕ) → p ≢ q → Links h q → Links (unlinked p (marked p h)) q
    unfolding unlinked marked bump unbump link_next link_prev
    unlinked-Links q other l =
        let a : ℕ = h.next p in
        let b : ℕ = h.prev p in
        record {
          next_listed = elim (Bool-cases (b == q)) [
            | inl e ↦ rw e (ground (arith, ==_iff b q, ==_iff p a, lp.next_listed, lp.prev_next))
            | inr e ↦
                rw e (ground (arith, ==_iff b q, ==_iff p (h.next q), l.next_listed, l.prev_next))
          ];
          prev_listed = elim (Bool-cases (a == q)) [
            | inl e ↦ rw e (ground (arith, ==_iff a q, ==_iff p b, lp.prev_listed, lp.next_prev))
            | inr e ↦
                rw e (ground (arith, ==_iff a q, ==_iff p (h.prev q), l.prev_listed, l.next_prev))
          ];
          prev_next = elim (Bool-cases (b == q)) [
            | inl e ↦ rw e (ground (arith, ==_iff b q, ==_iff a a))
            | inr e ↦
                rw e (ground (arith, ==_iff b q, ==_iff a (h.next q), l.prev_next, lp.prev_next))
          ];
          next_prev = elim (Bool-cases (a == q)) [
            | inl e ↦ rw e (ground (arith, ==_iff a q, ==_iff b b))
            | inr e ↦
                rw e (ground (arith, ==_iff a q, ==_iff b (h.prev q), l.next_prev, lp.next_prev))
          ];
        }

  module _ (p : ℕ) (h : Heap D) (held : ℕ → ℕ) (s : Sound h held) (live : h.alive p ≡ true)
      (listed : h.is_erasing p ≡ false) where
    unlinked-Counted : (n : ℕ) → h.alive n ≡ true → Counted (unlinked p (marked p h)) held n
    unfolding unlinked marked bump unbump link_next link_prev refs
    unlinked-Counted n living =
        let a : ℕ = h.next p in
        let b : ℕ = h.prev p in
        let lp = s.linked p live listed in
        let back : h.prev a ≡ p = lp.prev_next in
        let forth : h.next b ≡ p = lp.next_prev in
        let nexts =
          pointers-update h.alive h.next n b a h.fresh (s.known b (s.prev_alive p live))
            (s.prev_alive p live) in
        let prevs =
          pointers-update h.alive h.prev n a b h.fresh (s.known a (s.next_alive p live))
            (s.next_alive p live) in
        let u₁ = up h.usage b in
        let u₂ = down u₁ p in
        let u₃ = up u₂ a in
        let here : hit (h.prev a) n ≡ hit p n = ap (λ (q : ℕ). hit q n) back in
        let there : hit (h.next b) n ≡ hit p n = ap (λ (q : ℕ). hit q n) forth in
        omega (
          arith,
          up_mod h.usage b n,
          down_mod u₁ p n,
          up_mod u₂ a n,
          down_mod u₃ p n,
          s.counted n living,
        )

    pub unlinked-Sound : p ≢ sentinel → Sound (unlinked p (marked p h)) held
    unfolding unlinked marked bump unbump link_next link_prev
    unlinked-Sound other = record {
      unlocked = s.unlocked;
      start = s.start;
      start_listed = ground (arith, ==_iff p sentinel, s.start_listed);
      known = s.known;
      next_alive = λ q living. ground (arith, s.next_alive q living, s.next_alive p live);
      prev_alive = λ q living. ground (arith, s.prev_alive q living, s.prev_alive p live);
      linked = λ q living still.
          let apart : p ≢ q = ground (arith, ==_iff p q) in
          let same : h.is_erasing q ≡ false = ground (arith, ==_iff p q) in
          unlinked-Links p h (s.linked p live listed) q apart (s.linked q living same);
      counted = unlinked-Counted;
    }
