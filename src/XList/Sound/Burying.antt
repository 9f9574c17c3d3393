-- ===== src/XList/Sound/Burying.antt =====
-- The destruction of a node without usages (include/xlist.hpp, `~XListNode`), and the heap's invariant.
use pparam.Prelude.{ℕ, ◌+◌, ◌*◌, ◌≤◌, ◌<◌, ◌≡◌, ◌≢◌, true, arith, ==_iff}
use pparam.XList.{sentinel, uint_mod, Heap}
use pparam.XList.Effects.{buried}
use pparam.XList.Counts.{hit, pointers_buried, pointers_pos, pointers_le}
use pparam.XList.Sound.{Sound, refs}

module _ {D : Type 0} where
  pub refs_le : (h : Heap D) (n : ℕ) → refs h n ≤ 2 * h.fresh
  unfolding refs
  refs_le h n =
      omega (arith, pointers_le h.alive h.next n h.fresh, pointers_le h.alive h.prev n h.fresh)

  module _ (n : ℕ) (h : Heap D) (held : ℕ → ℕ) (s : Sound h held) (live : h.alive n ≡ true)
      (listed : h.is_erasing n ≡ true) (unused : h.usage n ≡ 0)
      (few : refs h n + held n < uint_mod) where
    unused_zero : (refs h n ≡ 0) × (held n ≡ 0)
    unused_zero =
        let other : sentinel ≢ n = ground (arith, ==_iff sentinel n, s.start_listed) in
        ground (arith, ==_iff sentinel n, s.counted n live)

    pub unused-held : held n ≡ 0
    unused-held = unused_zero.1

    -- No living node points to it.
    pub unused-next_ne : (q : ℕ) → h.alive q ≡ true → h.next q ≢ n
    unfolding refs
    unused-next_ne q living =
        let z = unused_zero.0 in
        ground (
          arith,
          ==_iff (h.next q) n,
          pointers_pos h.alive h.next n q h.fresh (s.known q living) living,
        )

    pub unused-prev_ne : (q : ℕ) → h.alive q ≡ true → h.prev q ≢ n
    unfolding refs
    unused-prev_ne q living =
        let z = unused_zero.0 in
        ground (
          arith,
          ==_iff (h.prev q) n,
          pointers_pos h.alive h.prev n q h.fresh (s.known q living) living,
        )

    pub buried-Sound : Sound (buried n h) (λ m. held m + hit (h.next n) m + hit (h.prev n) m)
    unfolding buried refs
    buried-Sound = record {
      unlocked = s.unlocked;
      start = ground (arith, ==_iff n sentinel, s.start, s.start_listed);
      start_listed = s.start_listed;
      known = λ q living. ground (arith, s.known q);
      next_alive =
          λ q living. ground (arith, ==_iff n (h.next q), unused-next_ne q, s.next_alive q);
      prev_alive =
          λ q living. ground (arith, ==_iff n (h.prev q), unused-prev_ne q, s.prev_alive q);
      linked = λ q living still.
          let was : h.alive q ≡ true = ground arith in
          let l = s.linked q was still in
          record {
            next_listed = l.next_listed;
            prev_listed = l.prev_listed;
            prev_next = l.prev_next;
            next_prev = l.next_prev;
          };
      counted = λ m living.
          let was : h.alive m ≡ true = ground arith in
          let c = s.counted m was in
          omega (
            arith,
            pointers_buried h.alive h.next m n h.fresh (s.known n live) live,
            pointers_buried h.alive h.prev m n h.fresh (s.known n live) live,
          );
    }
