-- ===== src/XList/Effects.antt =====
-- What the node operations of the list (include/xlist.hpp) do to a heap in which every node's lock
-- is free: they end, and they leave the heap that is written here.
use mathlib.Core.Path.{fun_ext}
use pparam.Prelude.{ℕ, ◌+◌, ◌-◌, ◌%◌, ◌≡◌, ap, Bool, true, false, none, some, ◌==◌, arith, ==_iff}
use pparam.XList.{
  sentinel, uint_mod, update, Heap, ok, blocked, inc_usage, dec_usage, get_next, get_prev, set_next,
  set_prev, ch_next_prev, destroy,
}

-- A lock that is taken and given back.
pub relock :
    (locked : ℕ → Bool) (p : ℕ) → locked p ≡ false → update (update locked p true) p false ≡ locked
relock locked p free = fun_ext λ q. ground (arith, ==_iff p q)

-- The usages with one more, and with one less, on `p`.
unfoldable pub up : (ℕ → ℕ) → ℕ → ℕ → ℕ
up usage p = update usage p ((usage p + 1) % uint_mod)

unfoldable pub down : (ℕ → ℕ) → ℕ → ℕ → ℕ
down usage p = update usage p ((usage p + uint_mod - 1) % uint_mod)

module _ {D : Type 0} where
  unfoldable pub bump : ℕ → Heap D → Heap D
  bump p h = record h { usage = up h.usage p }

  unfoldable pub unbump : ℕ → Heap D → Heap D
  unbump p h = record h { usage = down h.usage p }

  unfoldable pub link_next : ℕ → ℕ → Heap D → Heap D
  link_next p q h = record h { next = update h.next p q }

  unfoldable pub link_prev : ℕ → ℕ → Heap D → Heap D
  link_prev p q h = record h { prev = update h.prev p q }

  unfoldable pub buried : ℕ → Heap D → Heap D
  buried p h = record h { alive = update h.alive p false }

  abbrev pub Unlocked : Heap D → Type 0
  Unlocked h = (p : ℕ) → h.locked p ≡ false

  module _ (p : ℕ) (h : Heap D) (live : h.alive p ≡ true) where
    pub inc_usage-bump : inc_usage p h ≡ ok tt (bump p h)
    unfolding inc_usage bump up
    inc_usage-bump = ground arith

    pub dec_usage-unbump : dec_usage p h ≡ ok tt (unbump p h)
    unfolding dec_usage unbump down
    dec_usage-unbump = ground arith

    pub get_next_ok : get_next p h ≡ ok (h.next p) h
    unfolding get_next
    get_next_ok = ground arith

    pub get_prev_ok : get_prev p h ≡ ok (h.prev p) h
    unfolding get_prev
    get_prev_ok = ground arith

    pub set_next-link_next : (q : ℕ) → set_next p q h ≡ ok tt (link_next p q h)
    unfolding set_next link_next
    set_next-link_next q = ground arith

    pub set_prev-link_prev : (q : ℕ) → set_prev p q h ≡ ok tt (link_prev p q h)
    unfolding set_prev link_prev
    set_prev-link_prev q = ground arith

    module _ (free : h.locked p ≡ false) where
      pub ch_next_prev-link_next :
          (q : ℕ) → ch_next_prev p (some q) none h ≡ ok tt (link_next p q h)
      unfolding ch_next_prev link_next
      ch_next_prev-link_next q =
          simp (live, free)
            (ap (λ (l : ℕ → Bool). ok tt (record (link_next p q h) { locked = l }))
              (relock h.locked p free))

      pub ch_next_prev-link_prev :
          (q : ℕ) → ch_next_prev p none (some q) h ≡ ok tt (link_prev p q h)
      unfolding ch_next_prev link_prev
      ch_next_prev-link_prev q =
          simp (live, free)
            (ap (λ (l : ℕ → Bool). ok tt (record (link_prev p q h) { locked = l }))
              (relock h.locked p free))

      -- A node without usage is destroyed at once, any other keeps the caller waiting.
      pub destroy-buried : h.usage p ≡ 0 → destroy p h ≡ ok tt (buried p h)
      unfolding destroy buried
      destroy-buried unused =
          simp (live, free, unused)
            (ap (λ (l : ℕ → Bool). ok tt (record (buried p h) { locked = l }))
              (relock h.locked p free))

      pub destroy_blocked : (h.usage p == 0) ≡ false → destroy p h ≡ blocked
      unfolding destroy
      destroy_blocked used = simp (live, free, used)

  -- The heap that `push_back` leaves.
  unfoldable pub created : D → Heap D → Heap D
  created d h = record {
    next = update h.next h.fresh h.fresh;
    prev = update h.prev h.fresh h.fresh;
    usage = update h.usage h.fresh 0;
    is_erasing = update h.is_erasing h.fresh false;
    locked = update h.locked h.fresh false;
    alive = update h.alive h.fresh true;
    value = update h.value h.fresh (some d);
    fresh = h.fresh + 1;
  }

  unfoldable pub linked_last : ℕ → ℕ → Heap D → Heap D
  unfolding bump link_next link_prev
  linked_last n last h =
      link_prev sentinel n
        (bump n (link_next last n (bump n (link_prev n last (link_next n sentinel h)))))

  -- The heap in which the node `p` is led past.
  unfoldable pub unlinked : ℕ → Heap D → Heap D
  unfolding bump unbump link_next link_prev
  unlinked p h =
      let b = h.prev p in
      let a = h.next p in unbump p (link_next b a (bump a (unbump p (link_prev a b (bump b h)))))
