-- ===== src/Examples/Erasures.antt =====
-- A program that appends an element, takes an iterator on it and erases it, and the theorems on
-- erasures at its states.
use pparam.Prelude.{ℕ, ◌+◌, ◌<◌, ◌≡◌, ◌≢◌, refl, true, some, none, arith, ◌==◌, if◌then◌else◌}
use pparam.XList.{uint_mod, update, Heap, ok, blocked}
use pparam.XList.Iterators.{increment, reset}
use pparam.XList.Operations.{empty_list, finish, xerase, xerase_begin}
use pparam.XList.Effects.{up, down, bump, unbump, created, linked_last}
use pparam.XList.Moves.{begin-bump}
use pparam.XList.Erasing.{push_back-grown}
use pparam.XList.Destroying.{
  xerase_begin_lem, finished, waiting, xerase_lem, finish_lem, waiting-Sound,
}
use pparam.XList.Keeping.{Ends, prepared-Sound, xerase_prepare_first}
use pparam.XList.Sound.{Sound, refs}
use pparam.XList.Sound.Empty.{empty_list-Sound}
use pparam.XList.Sound.Unlinking.{prepared}
use pparam.XList.Sound.Burying.{refs_le}
use pparam.XList.World.{
  World, On, push, first, prepare, erase_begin, Reach, here, later, initial, put,
}
use pparam.XList.World.Reached.{Reach-alive, increment-Reach, finish_alone}
use pparam.Examples.Lists.{one, at_one, held_one, inner, seen-Sound, one_alive, one_listed}

abbrev appended : World ℕ
appended = record initial { heap = one }

appended_reached : Reach 1 appended
unfolding empty_list
appended_reached =
    later here (
      push initial 7 one (omega arith) (push_back-grown empty_list (λ _. 0) (empty_list-Sound ℕ) 7))

abbrev seen : World ℕ
seen = put appended (bump 1 one) 0 at_one

seen_reached : Reach 1 seen
unfolding linked_last created empty_list reset
seen_reached =
    later appended_reached
      (first appended 0 at_one (bump 1 one) (omega arith) refl (begin-bump one refl refl refl))

Reach-alive_example :
    ((i p : ℕ) → i < 1 → On seen i p → seen.heap.alive p ≡ true)
    × ((p : ℕ)
        → seen.heap.alive p ≡ true
        → (seen.heap.alive (seen.heap.next p) ≡ true) × (seen.heap.alive (seen.heap.prev p) ≡ true))
Reach-alive_example = Reach-alive 1 (omega arith) seen seen_reached

increment-Reach_example :
    Ends
      (increment (seen.iter 0) seen.heap)
      (record (seen.iter 0) { node = some (seen.heap.next 1); locked_node = none })
      (λ h. h.alive (seen.heap.next 1) ≡ true)
increment-Reach_example = increment-Reach 1 (omega arith) seen 0 1 seen_reached (omega arith) refl

-- The element is taken out, and its iterator is given to `xerase`.
abbrev taken : Heap ℕ
taken = prepared 1 (bump 1 one)

taken-Sound : Sound taken held_one
unfolding bump
taken-Sound =
    prepared-Sound (bump 1 one) held_one seen-Sound at_one 1 refl one_alive one_listed inner

taken_few : refs taken 1 + held_one 1 < uint_mod
unfolding prepared linked_last created empty_list
taken_few = omega (arith, refs_le taken 1)

taken_fresh : taken.fresh ≡ 2
unfolding prepared linked_last created empty_list
taken_fresh = omega arith

taken_marked : taken.is_erasing 1 ≡ true
unfolding prepared
taken_marked = refl

taken_alive : taken.alive 1 ≡ true
unfolding prepared linked_last created empty_list
taken_alive = refl

xerase_lem_example :
    xerase at_one taken
    ≡ (if refs taken 1 + 0 == 0 then ok tt (finished 1 (waiting 1 taken)) else blocked)
xerase_lem_example =
    xerase_lem taken held_one (λ _. 0) taken-Sound at_one 1 refl taken_alive (λ n. omega arith)
      taken_marked taken_few

abbrev unlinked_world : World ℕ
unlinked_world = record seen { heap = taken }

unlinked_reached : Reach 1 unlinked_world
unfolding bump
unlinked_reached = later seen_reached (
    prepare seen 0 1 true taken (omega arith) refl inner (
      xerase_prepare_first (bump 1 one) held_one seen-Sound at_one 1 refl one_alive one_listed
        inner))

-- The erasure waits for the node, which nothing is on any more.
abbrev erasing_world : World ℕ
erasing_world = record {
  heap = waiting 1 taken;
  iter = update seen.iter 0 (reset at_one);
  pending = update seen.pending 1 (some (taken.next 1, taken.prev 1));
}

begun : xerase_begin at_one taken ≡ ok (1, taken.next 1, taken.prev 1) (waiting 1 taken)
unfolding waiting
begun =
    xerase_begin_lem taken held_one (λ _. 0) taken-Sound at_one 1 refl taken_alive
      (λ n. omega arith)

unused : (waiting 1 taken).usage 1 ≡ 0
unfolding waiting prepared linked_last created empty_list bump unbump up down
unused = refl

ended :
    finish 1 (taken.next 1) (taken.prev 1) (waiting 1 taken) ≡ ok tt (finished 1 (waiting 1 taken))
unfolding waiting
ended =
    finish_lem 1 (waiting 1 taken) (λ _. 0)
      (waiting-Sound taken held_one (λ _. 0) taken-Sound at_one 1 refl taken_alive
        (λ n. omega arith))
      taken_alive taken_marked (omega (arith, refs_le (waiting 1 taken) 1, taken_fresh)) unused

erasing_reached : Reach 1 erasing_world
unfolding waiting bump unbump
erasing_reached = later unlinked_reached (
    erase_begin unlinked_world 0 1 1 (taken.next 1) (taken.prev 1) (waiting 1 taken) (omega arith)
      refl taken_marked refl begun)

finish_alone_example :
    ((i : ℕ) → i < 1 → (erasing_world.iter i).node ≢ some 1)
    × ((q : ℕ)
        → erasing_world.heap.alive q ≡ true
        → (erasing_world.heap.next q ≢ 1) × (erasing_world.heap.prev q ≢ 1))
finish_alone_example =
    finish_alone 1 (omega arith) erasing_world erasing_reached 1 (taken.next 1) (taken.prev 1)
      (finished 1 (waiting 1 taken)) refl ended
