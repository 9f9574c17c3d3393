-- ===== src/XList/World.antt =====
-- A program that uses one list (include/xlist.hpp): the list's heap, iterators in `k` slots, and
-- the erasures that wait in a node's destructor. A step is one call by one thread, and the calls of
-- different threads interleave in any order. The steps are those that the comments of the list
-- allow: whoever's `xerase_prepare` returned true calls `xerase` once, with an iterator that is
-- not used again.
pub mod Invariant
pub mod Reached
pub mod Safety
use pparam.Prelude.{ℕ, ◌+◌, ◌*◌, ◌≡◌, ◌≢◌, ◌<◌, Bool, true, false, Option, none, some}
use pparam.XList.{sentinel, uint_mod, update, Heap, Iterator, ok}
use pparam.XList.Iterators.{copy, fini, increment, decrement, reset}
use pparam.XList.Operations.{
  push_back, begin, list_end, xerase_prepare, xerase_begin, finish, empty_list,
}

pub record World (D : Type 0) : Type 0 where
  pub heap : Heap D
  pub iter : ℕ → Iterator
  pub pending : ℕ → Option (ℕ × ℕ)

module _ {D : Type 0} where
  -- The slot's iterator is on the node `p`.
  abbrev pub On : World D → ℕ → ℕ → Type 0
  On w i p = (w.iter i).node ≡ some p

  abbrev pub Free : World D → ℕ → Type 0
  Free w i = (w.iter i).node ≡ none

  abbrev pub put : World D → Heap D → ℕ → Iterator → World D
  put w h i it = record w { heap = h; iter = update w.iter i it }

  pub data Step (k : ℕ) : World D → World D → Type 0 where
    push :
        (w : World D) (d : D) (h : Heap D)
        → 2 * (w.heap.fresh + 1) + k < uint_mod
        → push_back d w.heap ≡ ok tt h
        → Step k w (record w { heap = h })
    first :
        (w : World D) (i : ℕ) (it : Iterator) (h : Heap D)
        → i < k
        → Free w i
        → begin w.heap ≡ ok it h
        → Step k w (put w h i it)
    last :
        (w : World D) (i : ℕ) (it : Iterator) (h : Heap D)
        → i < k
        → Free w i
        → list_end w.heap ≡ ok it h
        → Step k w (put w h i it)
    copied :
        (w : World D) (i j p : ℕ) (it : Iterator) (h : Heap D)
        → i < k
        → j < k
        → On w i p
        → Free w j
        → copy (w.iter i) w.heap ≡ ok it h
        → Step k w (put w h j it)
    forward :
        (w : World D) (i p : ℕ) (it : Iterator) (h : Heap D)
        → i < k
        → On w i p
        → increment (w.iter i) w.heap ≡ ok it h
        → Step k w (put w h i it)
    backward :
        (w : World D) (i p : ℕ) (it : Iterator) (h : Heap D)
        → i < k
        → On w i p
        → decrement (w.iter i) w.heap ≡ ok it h
        → Step k w (put w h i it)
    dropped :
        (w : World D) (i p : ℕ) (it : Iterator) (h : Heap D)
        → i < k
        → On w i p
        → fini (w.iter i) w.heap ≡ ok it h
        → Step k w (put w h i it)
    prepare :
        (w : World D) (i p : ℕ) (done : Bool) (h : Heap D)
        → i < k
        → On w i p
        → p ≢ sentinel
        → xerase_prepare (w.iter i) w.heap ≡ ok done h
        → Step k w (record w { heap = h })
    erase_begin :
        (w : World D) (i p n next prev : ℕ) (h : Heap D)
        → i < k
        → On w i p
        → w.heap.is_erasing p ≡ true
        → w.pending p ≡ none
        → xerase_begin (w.iter i) w.heap ≡ ok (n, next, prev) h
        → Step k w (record {
          heap = h;
          iter = update w.iter i (reset (w.iter i));
          pending = update w.pending n (some (next, prev));
        })
    erase_end :
        (w : World D) (n next prev : ℕ) (h : Heap D)
        → w.pending n ≡ some (next, prev)
        → finish n next prev w.heap ≡ ok tt h
        → Step k w (record w { heap = h; pending = update w.pending n none })

  -- The list is new, and no slot holds an iterator.
  abbrev pub initial : World D
  initial = record {
    heap = empty_list;
    iter = λ _. reset (record { node = none; list_end = none; locked_node = none });
    pending = λ _. none;
  }

  pub data Reach (k : ℕ) : World D → Type 0 where
    here : Reach k initial
    later : {w v : World D} → Reach k w → Step k w v → Reach k v
