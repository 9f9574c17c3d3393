-- ===== src/XList/World/Safety.antt =====
-- The invariant of a program that uses a list (include/xlist.hpp), call by call.
use pparam.Prelude.{
  ℕ, ◌+◌, ◌*◌, ◌≡◌, ◌≢◌, ◌<◌, refl, ap, sym, ◌∙◌, subst, Bool, true, none, some, ◌==◌, arith,
  ==_iff, Bool-cases, inl, inr,
}
use pparam.XList.{sentinel, uint_mod, update, Heap, Iterator, ok}
use pparam.XList.Iterators.{null_iterator, reset}
use pparam.XList.Operations.{xerase_prepare, xerase_begin, finish}
use pparam.XList.Erasing.{finish_used}
use pparam.XList.Destroying.{finished, finished-Sound, finish_lem, xerase_begin_ends}
use pparam.XList.Keeping.{
  push_back_ends, begin_ends, list_end_ends, copy_ends, fini_ends, increment_ends, decrement_ends,
  xerase_prepare_ends, xerase_prepare_again,
}
use pparam.XList.Counts.{hit, holders, holders_le, holders_pos, holders_none}
use pparam.XList.Sound.{refs}
use pparam.XList.Sound.Burying.{refs_le, unused-held}
use pparam.XList.World.{
  World, On, Step, push, first, last, copied, forward, backward, dropped, prepare, erase_begin,
  erase_end,
}
use pparam.XList.World.Invariant.{
  Inv, Inv-heap, Inv-take, Inv-move, Inv-drop, Waits, Waits-Frozen, none_some, hit_iterator_on,
  Ends_unique, hit_iterator-eq-zero, others, others_counts,
}

pub hit_same : (p n : ℕ) → p ≡ n → hit p n ≡ 1
hit_same p n e = ground (arith, ==_iff p n)

module _ {D : Type 0} (k : ℕ) where
  module _ (w : World D) (inv : Inv k w) where
    held : ℕ → ℕ
    held n = holders w.iter n k

    -- No iterator is on a node that the allocator has not given out.
    fresh_unheld : holders w.iter w.heap.fresh k ≡ 0
    fresh_unheld = holders_none w.iter w.heap.fresh k λ i lt.
        hit_iterator-eq-zero (w.iter i) w.heap.fresh
          λ p on same. absurd (omega (arith, inv.sound.known p (inv.on_alive i p lt on)))

    few_on : (n : ℕ) → refs w.heap n + holders w.iter n k < uint_mod
    few_on n = omega (arith, refs_le w.heap n, holders_le w.iter n k, inv.few)

    prepare-Inv :
        (i p : ℕ) (done : Bool) (h : Heap D)
        → i < k
        → On w i p
        → p ≢ sentinel
        → xerase_prepare (w.iter i) w.heap ≡ ok done h
        → Inv k (record w { heap = h })
    prepare-Inv i p done h lt on inner e =
        let live = inv.on_alive i p lt on in
        let few : 2 * (w.heap.fresh + 0) + k < uint_mod = omega (arith, inv.few) in
        elim (Bool-cases (w.heap.is_erasing p)) [
          | inl listed ↦
              let (same, (s, f)) =
                Ends_unique _ _ done _ h
                  (xerase_prepare_again w.heap _ inv.sound (w.iter i) p on live listed) e in
              Inv-heap k w inv 0 h s f few
          | inr listed ↦
              let (same, (s, f, marked)) =
                Ends_unique _ _ done _ h
                  (xerase_prepare_ends w.heap _ inv.sound (w.iter i) p on live listed inner) e in
              Inv-heap k w inv 0 h s f few
        ]

    erase_begin-Inv :
        (i p n next prev : ℕ) (h : Heap D)
        → i < k
        → On w i p
        → w.heap.is_erasing p ≡ true
        → xerase_begin (w.iter i) w.heap ≡ ok (n, next, prev) h
        → Inv k (record {
          heap = h;
          iter = update w.iter i (reset (w.iter i));
          pending = update w.pending n (some (next, prev));
        })
    unfolding reset
    erase_begin-Inv i p n next prev h lt on listed e =
        let live = inv.on_alive i p lt on in
        let (same, kept) =
          Ends_unique _ _ (n, next, prev) _ h
            (xerase_begin_ends w.heap _ (others k w inv i) inv.sound (w.iter i) p on live
              (others_counts k w inv i lt p on))
            e in
        let moved = Inv-drop k w inv i lt p on h null_iterator refl kept in
        let frozen = kept.1 in
        record {
          sound = moved.sound;
          on_alive = moved.on_alive;
          waits = λ m a b q. elim (Bool-cases (n == m)) [
            | inl at ↦
                let value : update w.pending n (some (next, prev)) m ≡ some (next, prev) = rw at in
                let told : some (next, prev) ≡ some (a, b) = sym value ∙ q in
                let node : n ≡ m = (==_iff n m).0 at in
                let all : (p, w.heap.next p, w.heap.prev p) ≡ (m, a, b) = cc in
                subst (λ (t : ℕ × ℕ × ℕ). Waits h t.0 t.1 t.2) all
                  (Waits-Frozen 0 w.heap h p (w.heap.next p) (w.heap.prev p) frozen
                    (live, listed, refl, refl))
            | inr apart ↦
                let value : update w.pending n (some (next, prev)) m ≡ w.pending m = rw apart in
                moved.waits m a b (sym value ∙ q)
          ];
          few = moved.few;
        }

    -- The node that is destroyed has no iterator on it.
    finished-Inv :
        (n : ℕ)
        → w.heap.alive n ≡ true
        → w.heap.is_erasing n ≡ true
        → w.heap.usage n ≡ 0
        → Inv k (record w { heap = finished n w.heap; pending = update w.pending n none })
    unfolding finished
    finished-Inv n live listed unused = record {
      sound = finished-Sound n w.heap _ inv.sound live listed (few_on n) unused;
      on_alive = λ i p lt on.
          let none_on = unused-held n w.heap _ inv.sound live listed unused (few_on n) in
          let counted = holders_pos w.iter n i k lt in
          let was = inv.on_alive i p lt on in
          let apart : p ≢ n =
            λ same. absurd (omega (arith, hit_iterator_on (w.iter i) n p on, hit_same p n same)) in
          ground (arith, ==_iff n p);
      waits = λ m a b q. elim (Bool-cases (n == m)) [
        | inl at ↦
            let value : update w.pending n none m ≡ none = rw at in
            absurd (none_some (sym value ∙ q))
        | inr apart ↦
            let value : update w.pending n none m ≡ w.pending m = rw apart in
            let (was, erased, is_next, is_prev) = inv.waits m a b (sym value ∙ q) in
            (rw apart was, erased, is_next, is_prev)
      ];
      few = inv.few;
    }

    erase_end-Inv :
        (n next prev : ℕ) (h : Heap D)
        → w.pending n ≡ some (next, prev)
        → finish n next prev w.heap ≡ ok tt h
        → Inv k (record w { heap = h; pending = update w.pending n none })
    erase_end-Inv n next prev h pending e =
        let (live, listed, is_next, is_prev) = inv.waits n next prev pending in
        let e' : finish n (w.heap.next n) (w.heap.prev n) w.heap ≡ ok tt h =
          rw (is_next, is_prev) e in
        elim (Bool-cases (w.heap.usage n == 0)) [
          | inl free ↦
              let unused : w.heap.usage n ≡ 0 = (==_iff _ 0).0 free in
              let ended = finish_lem n w.heap _ inv.sound live listed (few_on n) unused in
              let same : finished n w.heap ≡ h = cc in
              subst
                (λ (g : Heap D). Inv k (record w { heap = g; pending = update w.pending n none }))
                same (finished-Inv n live listed unused)
          | inr used ↦ let stuck = finish_used w.heap _ inv.sound n live used in cc
        ]

  pub Step-Inv : {w v : World D} → Step k w v → Inv k w → Inv k v
  Step-Inv (push w d h few e) inv =
      let (same, (s, f)) =
        Ends_unique _ tt tt _ h (push_back_ends w.heap _ inv.sound d (fresh_unheld w inv)) e in
      Inv-heap k w inv 1 h s f few
  Step-Inv (first w i it h lt free e) inv =
      let (same, kept) = Ends_unique _ _ it _ h (begin_ends w.heap _ inv.sound) e in
      Inv-take k w inv i lt (w.heap.next sentinel) h it free (ap (λ (x : Iterator). x.node) same)
        (inv.sound.next_alive sentinel inv.sound.start) kept
  Step-Inv (last w i it h lt free e) inv =
      let (same, kept) = Ends_unique _ _ it _ h (list_end_ends w.heap _ inv.sound) e in
      Inv-take k w inv i lt sentinel h it free (ap (λ (x : Iterator). x.node) same) inv.sound.start
        kept
  Step-Inv (copied w i j p it h lt lt_j on free e) inv =
      let live = inv.on_alive i p lt on in
      let (same, kept) =
        Ends_unique _ _ it _ h (copy_ends w.heap _ inv.sound (w.iter i) p on live) e in
      Inv-take k w inv j lt_j p h it free (ap (λ (x : Iterator). x.node) same) live kept
  Step-Inv (forward w i p it h lt on e) inv =
      let live = inv.on_alive i p lt on in
      let (same, kept) =
        Ends_unique _ _ it _ h
          (increment_ends w.heap _ inv.sound (w.iter i) p on live (others k w inv i)
            (others_counts k w inv i lt p on))
          e in
      Inv-move k w inv i lt p on (w.heap.next p) h it (ap (λ (x : Iterator). x.node) same)
        (inv.sound.next_alive p live) kept
  Step-Inv (backward w i p it h lt on e) inv =
      let live = inv.on_alive i p lt on in
      let (same, kept) =
        Ends_unique _ _ it _ h
          (decrement_ends w.heap _ inv.sound (w.iter i) p on live (others k w inv i)
            (others_counts k w inv i lt p on))
          e in
      Inv-move k w inv i lt p on (w.heap.prev p) h it (ap (λ (x : Iterator). x.node) same)
        (inv.sound.prev_alive p live) kept
  Step-Inv (dropped w i p it h lt on e) inv =
      let live = inv.on_alive i p lt on in
      let (same, kept) =
        Ends_unique _ _ it _ h
          (fini_ends w.heap _ inv.sound (w.iter i) p on live (others k w inv i)
            (others_counts k w inv i lt p on))
          e in
      Inv-drop k w inv i lt p on h it (ap (λ (x : Iterator). x.node) same) kept
  Step-Inv (prepare w i p done h lt on inner e) inv = prepare-Inv w inv i p done h lt on inner e
  Step-Inv (erase_begin w i p n next prev h lt on listed unpended e) inv =
      erase_begin-Inv w inv i p n next prev h lt on listed e
  Step-Inv (erase_end w n next prev h pending e) inv = erase_end-Inv w inv n next prev h pending e
