-- ===== src/XList/Moves.antt =====
-- What the methods of an iterator (include/xlist.hpp) leave behind, on a heap whose locks are free.
use pparam.Prelude.{ℕ, ◌≡◌, ap, Bool, true, false, none, some}
use pparam.XList.{sentinel, Heap, Iterator, Run, ok}
use pparam.XList.Iterators.{iterator_at, copy, increment, decrement, fini}
use pparam.XList.Operations.{begin, list_end, release_locked}
use pparam.XList.Effects.{bump, unbump, up, down, relock}

module _ {D : Type 0} (h : Heap D) where
  -- The heap with another set of taken locks.
  with_locks : (A : Type 0) → A → Heap D → (ℕ → Bool) → Run D A
  with_locks A a g l = ok a (record g { locked = l })

  module _ (it : Iterator) (p : ℕ) (on : it.node ≡ some p) (live : h.alive p ≡ true) where
    pub copy-bump : copy it h ≡ ok (iterator_at it.list_end (some p)) (bump p h)
    unfolding copy bump up
    copy-bump = simp (on, live)

    module _ (free : h.locked p ≡ false) where
      pub fini-unbump :
          fini it h
          ≡ ok (record it { node = none; list_end = none; locked_node = none }) (unbump p h)
      unfolding fini unbump down with_locks
      fini-unbump =
          simp (on, live, free) (ap (with_locks _ _ (unbump p h)) (relock h.locked p free))

      -- `++` leaves the node and takes the next one.
      pub increment-bump :
          h.alive (h.next p) ≡ true
          → increment it h
            ≡ ok
                (record it { node = some (h.next p); locked_node = none })
                (bump (h.next p) (unbump p h))
      unfolding increment bump unbump up down with_locks
      increment-bump live_next =
          simp (on, live, free, live_next)
            (ap (with_locks _ _ (bump (h.next p) (unbump p h))) (relock h.locked p free))

      pub decrement-bump :
          h.alive (h.prev p) ≡ true
          → decrement it h
            ≡ ok
                (record it { node = some (h.prev p); locked_node = none })
                (bump (h.prev p) (unbump p h))
      unfolding decrement bump unbump up down with_locks
      decrement-bump live_prev =
          simp (on, live, free, live_prev)
            (ap (with_locks _ _ (bump (h.prev p) (unbump p h))) (relock h.locked p free))

  pub release_locked-unbump :
      (p : ℕ) → h.alive p ≡ true → h.locked p ≡ false → release_locked p h ≡ ok tt (unbump p h)
  unfolding release_locked unbump down with_locks
  release_locked-unbump p live free =
      simp (live, free) (ap (with_locks _ _ (unbump p h)) (relock h.locked p free))

  module _ (start : h.alive sentinel ≡ true) where
    pub list_end-bump :
        list_end h ≡ ok (iterator_at (some sentinel) (some sentinel)) (bump sentinel h)
    unfolding list_end bump up
    list_end-bump = simp (start)

    pub begin-bump :
        h.locked sentinel ≡ false
        → h.alive (h.next sentinel) ≡ true
        → begin h
          ≡ ok (iterator_at (some sentinel) (some (h.next sentinel))) (bump (h.next sentinel) h)
    unfolding begin bump up with_locks
    begin-bump free live_first =
        simp (start, free, live_first)
          (ap (with_locks _ _ (bump (h.next sentinel) h)) (relock h.locked sentinel free))
