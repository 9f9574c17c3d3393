-- ===== src/XList/World/Reached.antt =====
-- What holds in every state that a program reaches with one list (include/xlist.hpp).
use pparam.Prelude.{
  ℕ, ◌+◌, ◌≡◌, ◌≢◌, ◌<◌, refl, sym, true, none, some, ◌==◌, arith, ==_iff, Bool-cases, inl, inr,
}
use pparam.XList.{uint_mod, Heap, ok}
use pparam.XList.Iterators.{null_iterator, increment, reset}
use pparam.XList.Operations.{finish, empty_list}
use pparam.XList.Keeping.{Ends, increment_ends}
use pparam.XList.Counts.{holders_le, holders_pos, holders, holders_none}
use pparam.XList.Sound.{refs}
use pparam.XList.Sound.Empty.{empty_list-Sound}
use pparam.XList.Sound.Burying.{refs_le, unused-held, unused-next_ne, unused-prev_ne}
use pparam.XList.Erasing.{finish_used}
use pparam.XList.World.{World, On, Reach, here, later, initial}
use pparam.XList.World.Invariant.{hit_iterator_on, Sound-held, Inv, others, others_counts}
use pparam.XList.World.Safety.{Step-Inv, hit_same}

module _ {D : Type 0} (k : ℕ) (few : 2 + k < uint_mod) where
  initial-Inv : Inv {D = D} k initial
  unfolding empty_list reset
  initial-Inv = record {
    sound =
        Sound-held empty_list (λ _. 0) _
          (λ n. sym (holders_none (λ _. null_iterator) n k (λ i lt. refl))) (empty_list-Sound D);
    on_alive = λ i p lt on. cc;
    waits = λ n a b e. cc;
    few = omega arith;
  }

  pub Reach-Inv : {w : World D} → Reach k w → Inv k w
  Reach-Inv here = initial-Inv
  Reach-Inv (later r step) = Step-Inv k step (Reach-Inv r)

  -- In every state that is reached, every iterator in use is on a living node, and every living
  -- node's neighbours are living.
  pub Reach-alive :
      (w : World D)
      → Reach k w
      → ((i p : ℕ) → i < k → On w i p → w.heap.alive p ≡ true)
        × ((p : ℕ)
            → w.heap.alive p ≡ true
            → (w.heap.alive (w.heap.next p) ≡ true) × (w.heap.alive (w.heap.prev p) ≡ true))
  Reach-alive w r =
      let inv = Reach-Inv r in
      (inv.on_alive, λ p live. (inv.sound.next_alive p live, inv.sound.prev_alive p live))

  -- In every state that is reached, `++` on an iterator in use ends, on the next node.
  pub increment-Reach :
      (w : World D) (i p : ℕ)
      → Reach k w
      → i < k
      → On w i p
      → Ends
          (increment (w.iter i) w.heap)
          (record (w.iter i) { node = some (w.heap.next p); locked_node = none })
          (λ h. h.alive (w.heap.next p) ≡ true)
  increment-Reach w i p r lt on =
      let inv = Reach-Inv r in
      let live = inv.on_alive i p lt on in
      let (h, e, (s, f)) =
        increment_ends w.heap _ inv.sound (w.iter i) p on live (others k w inv i)
          (others_counts k w inv i lt p on) in
      (h, e, f.alive_stays (w.heap.next p) (inv.sound.next_alive p live))

  module _ (w : World D) (r : Reach k w) (n next prev : ℕ) (h : Heap D)
      (pending : w.pending n ≡ some (next, prev))
      (ended : finish n next prev w.heap ≡ ok tt h) where
    finish_unused : w.heap.usage n ≡ 0
    finish_unused =
        let inv = Reach-Inv r in
        let (live, listed, is_next, is_prev) = inv.waits n next prev pending in
        let ended' : finish n (w.heap.next n) (w.heap.prev n) w.heap ≡ ok tt h =
          rw (is_next, is_prev) ended in
        elim (Bool-cases (w.heap.usage n == 0)) [
          | inl free ↦ (==_iff _ 0).0 free
          | inr used ↦ let stuck = finish_used w.heap _ inv.sound n live used in cc
        ]

    -- When a waiting erasure ends, no iterator is on its node and no living node points to it.
    pub finish_alone :
        ((i : ℕ) → i < k → (w.iter i).node ≢ some n)
        × ((q : ℕ) → w.heap.alive q ≡ true → (w.heap.next q ≢ n) × (w.heap.prev q ≢ n))
    finish_alone =
        let inv = Reach-Inv r in
        let (live, listed, is_next, is_prev) = inv.waits n next prev pending in
        let few_n : refs w.heap n + holders w.iter n k < uint_mod =
          omega (arith, refs_le w.heap n, holders_le w.iter n k, inv.few) in
        let unheld = unused-held n w.heap _ inv.sound live listed finish_unused few_n in
        (
          λ i lt on.
              let counted = holders_pos w.iter n i k lt in
              absurd (omega (arith, hit_iterator_on (w.iter i) n n on, hit_same n n refl)),
          λ q living. (
            unused-next_ne n w.heap _ inv.sound live listed finish_unused few_n q living,
            unused-prev_ne n w.heap _ inv.sound live listed finish_unused few_n q living,
          ),
        )
