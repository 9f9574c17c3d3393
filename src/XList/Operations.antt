-- ===== src/XList/Operations.antt =====
-- The operations of `XList` (include/xlist.hpp) on the ring around the sentinel. An iterator that
-- is passed by value is copied by the caller, who also destroys the copy after the call.
use pparam.Prelude.{ℕ, zero, suc, ◌+◌, Bool, true, false, none, some, if◌then◌else◌, not, ◌==◌}
use pparam.XList.{
  sentinel, Heap, Iterator, ok, blocked, fault, out_of_fuel, Cmd, pure, ◌>>=◌, ◌>>◌, get_next,
  get_prev, set_next, set_prev, inc_usage, dec_usage, lock, unlock, erasing, ch_next_prev, destroy,
  create_node, Run,
}
use pparam.XList.Iterators.{
  null_iterator, make, copy, fini, through, deref, increment, decrement, assign, equals,
}

module _ {D : Type 0} where
  -- A list with no element: its sentinel is linked to itself and counts no usage.
  unfoldable pub empty_list : Heap D
  empty_list = record {
    next = λ _. sentinel;
    prev = λ _. sentinel;
    usage = λ _. 0;
    is_erasing = λ _. false;
    locked = λ _. false;
    alive = λ p. p == sentinel;
    value = λ _. none;
    fresh = 1;
  }

  unfoldable pub begin : Cmd D Iterator
  unfolding lock unlock get_next make
  begin = do
    lock sentinel
    q ← get_next sentinel
    iter ← make (some sentinel) (some q)
    unlock sentinel
    pure iter

  unfoldable pub list_end : Cmd D Iterator
  unfolding make
  list_end = make (some sentinel) (some sentinel)

  unfoldable pub link_last : ℕ → Cmd D (Unit {0})
  link_last node = do
    set_next node sentinel
    last ← get_prev sentinel
    set_prev node last
    inc_usage node
    tail ← get_prev sentinel
    ch_next_prev tail (some node) none
    inc_usage node
    ch_next_prev sentinel none (some node)

  unfoldable pub push_back : D → Cmd D (Unit {0})
  unfolding create_node link_last
  push_back val = create_node val >>= link_last

  -- A call that takes an iterator by value: the body leaves its copy behind, which is destroyed.
  unfoldable pub by_value : {A : Type 0} → Iterator → (Iterator → Cmd D (Iterator × A)) → Cmd D A
  unfolding copy fini
  by_value it body = do pos ← copy it; (left, result) ← body pos; fini left; pure result

  -- The two pointers at the node `p` are led past it.
  unfoldable pub unlink : ℕ → Cmd D (Unit {0})
  unfolding get_next get_prev inc_usage dec_usage ch_next_prev
  unlink p = do
    before ← get_prev p
    inc_usage before
    after ← get_next p
    back ← get_prev p
    ch_next_prev after none (some back)
    dec_usage p
    after ← get_next p
    inc_usage after
    back ← get_prev p
    forth ← get_next p
    ch_next_prev back (some forth) none
    dec_usage p

  unfoldable pub prepare_node : ℕ → Cmd D Bool
  prepare_node p = do first ← erasing p; if first then unlink p >> pure true else pure false

  unfoldable pub xerase_prepare : Iterator → Cmd D Bool
  unfolding by_value through prepare_node
  xerase_prepare it = by_value it λ pos. do done ← through pos.node prepare_node; pure (pos, done)

  -- The neighbours are let go when the node is destroyed.
  unfoldable pub release_locked : ℕ → Cmd D (Unit {0})
  unfolding lock dec_usage unlock
  release_locked p = do lock p; dec_usage p; unlock p

  -- The two usages that `xerase` gives back: its caller's iterator and its own.
  unfoldable pub let_go : ℕ → Iterator → Cmd D Iterator
  unfolding dec_usage fini
  let_go n pos = dec_usage n >> fini pos

  unfoldable pub finish : (n next prev : ℕ) → Cmd D (Unit {0})
  unfolding destroy release_locked
  finish n next prev = do destroy n; release_locked next; release_locked prev

  -- The part of `xerase` before it waits in the node's destructor.
  unfoldable pub xerase_begin : Iterator → Cmd D (ℕ × ℕ × ℕ)
  unfolding copy through get_next get_prev let_go
  xerase_begin it = do
    pos ← copy it
    through pos.node
        λ n. do next ← get_next n; prev ← get_prev n; pos ← let_go n pos; pure (n, next, prev)

  unfoldable pub xerase : Iterator → Cmd D (Unit {0})
  unfolding by_value through get_next get_prev let_go finish
  xerase it = by_value it λ pos. through pos.node λ n. do
    next ← get_next n
    prev ← get_prev n
    pos ← let_go n pos
    finish n next prev
    pure (pos, tt)

  unfoldable pub erase : Iterator → Cmd D (Unit {0})
  unfolding by_value xerase_prepare through dec_usage xerase
  erase it = by_value it λ pos. do
    prepared ← xerase_prepare pos
    if prepared
        then (through pos.node dec_usage >> xerase pos >> pure (pos, tt))
        else pure (pos, tt)

  unfoldable pub pop_back : Cmd D (Unit {0})
  unfolding list_end decrement erase fini
  pop_back = do last ← list_end; last ← decrement last; erase last; fini last; pure tt

  -- `it != end()`, with the temporary that `end()` makes.
  unfoldable pub not_at_end : Iterator → Cmd D Bool
  unfolding list_end equals fini
  not_at_end it = do last ← list_end; let differ = not (equals it last); fini last; pure differ

  unfoldable pub clear_loop : ℕ → Iterator → Cmd D Iterator
  unfolding begin assign not_at_end fini erase
  clear_loop zero iter = λ _. out_of_fuel
  clear_loop (suc fuel) iter = do
    first ← begin
    iter ← assign iter first
    more ← not_at_end iter
    fini first
    let rest = erase iter >> clear_loop fuel iter
    if more then rest else pure iter

  unfoldable pub clear : ℕ → Cmd D (Unit {0})
  unfolding clear_loop fini
  clear fuel = do iter ← clear_loop fuel null_iterator; fini iter; pure tt

  -- `std::distance(first, last)`.
  unfoldable pub distance : ℕ → Iterator → Iterator → ℕ → Cmd D ℕ
  unfolding equals increment fini
  distance zero first last n = λ _. out_of_fuel
  distance (suc fuel) first last n =
      if equals first last
      then (fini first >> fini last >> pure n)
      else (increment first >>= λ first. distance fuel first last (n + 1))

  unfoldable pub size : ℕ → Cmd D ℕ
  unfolding begin list_end distance
  size fuel = do first ← begin; last ← list_end; distance fuel first last 0

  abbrev pub handed_on : Run D (Unit {0}) → Cmd D (Heap D)
  handed_on (ok _ target) h = ok target h
  handed_on blocked h = blocked
  handed_on fault h = fault
  handed_on out_of_fuel h = out_of_fuel

  -- `push_back` on the new list, whose nodes are not those of the source.
  unfoldable pub push_to : D → Heap D → Cmd D (Heap D)
  push_to d target = handed_on (push_back d target)

  -- The loop of the copy constructor, over the source's heap; it fills the new list `target`.
  unfoldable pub copy_loop : ℕ → Iterator → Heap D → Cmd D (Heap D)
  unfolding not_at_end fini deref push_to increment
  copy_loop zero iter target = λ _. out_of_fuel
  copy_loop (suc fuel) iter target = do
    more ← not_at_end iter
    let rest = (do
      d ← deref iter
      target ← push_to d target
      iter ← increment iter
      copy_loop fuel iter target)
    if more then rest else (fini iter >> pure target)

  unfoldable pub copy_list : ℕ → Cmd D (Heap D)
  unfolding empty_list begin copy_loop
  copy_list fuel = do iter ← begin; copy_loop fuel iter empty_list
