-- ===== src/Examples/Lists.antt =====
-- Runs of the concurrent list on concrete inputs, and its theorems at an input.
use pparam.Prelude.{
  ℕ, ◌≡◌, ◌≢◌, ◌+◌, ◌*◌, ◌<◌, ◌++◌, ◌⊎◌, arith, refl, Bool, true, false, Option, none, some, List,
  [], ◌∷◌,
}
use pparam.XList.{
  uint_mod, sentinel, update, Heap, Run, ok, blocked, fault, Cmd, ◌>>=◌, ◌>>◌, pure, Iterator,
  set_next, set_prev, get_prev, inc_usage, ch_next_prev, erasing,
}
use pparam.XList.Iterators.{iterator_at, increment, fini, deref}
use pparam.XList.Effects.{bump, created, linked_last}
use pparam.XList.Counts.{hit}
use pparam.XList.Sound.{Sound, bump-Sound}
use pparam.XList.Sound.Empty.{empty_list-Sound}
use pparam.XList.Sound.Growing.{grown-Sound}
use pparam.XList.Contents.{Contents, removed}
use pparam.XList.Keeping.{Ends}
use pparam.XList.Refinement.{push_back-Contents, xerase_prepare-Contents, size-length}
use pparam.XList.Copying.{Holds, Untouched, copy_list-Holds}
use pparam.XList.Erase.{erase_never_returns}
use pparam.XList.Operations.{
  empty_list, push_back, begin, size, erase, clear, xerase_prepare, xerase, pop_back, copy_list,
  prepare_node, unlink,
}

abbrev outcome : {A : Type 0} → Run ℕ A → Option A
outcome (ok a h) = some a
outcome _ = none

abbrev is_fault : {A : Type 0} → Run ℕ A → Bool
is_fault fault = true
is_fault _ = false

abbrev two : Cmd ℕ (Unit {0})
two = push_back 10 >> push_back 20

size-two : outcome ((two >> size 5) empty_list) ≡ some 2
unfolding size push_back set_next set_prev get_prev inc_usage ch_next_prev erasing prepare_node
    unlink empty_list
size-two = refl

second_of_two :
    outcome ((two >> (do i ← begin; i ← increment i; d ← deref i; fini i; pure d)) empty_list)
    ≡ some 20
unfolding push_back set_next set_prev get_prev inc_usage ch_next_prev erasing prepare_node unlink
    empty_list begin increment fini deref
second_of_two = refl

xerase_first :
    outcome ((two >> (do i ← begin; b ← xerase_prepare i; xerase i; size 5)) empty_list) ≡ some 1
unfolding size push_back set_next set_prev get_prev inc_usage ch_next_prev erasing prepare_node
    unlink empty_list begin xerase_prepare xerase
xerase_first = refl

clear-two : is_fault ((two >> clear 5) empty_list) ≡ true
unfolding push_back set_next set_prev get_prev inc_usage ch_next_prev erasing prepare_node unlink
    empty_list clear
clear-two = refl

pop_two : is_fault ((two >> pop_back) empty_list) ≡ true
unfolding push_back set_next set_prev get_prev inc_usage ch_next_prev erasing prepare_node unlink
    empty_list pop_back
pop_two = refl

clear_none : outcome (clear 5 empty_list) ≡ some tt
unfolding empty_list clear
clear_none = refl

prepare_twice :
    outcome ((two >> (do i ← begin; b ← xerase_prepare i; xerase_prepare i)) empty_list)
    ≡ some false
unfolding push_back set_next set_prev get_prev inc_usage ch_next_prev erasing prepare_node unlink
    empty_list begin xerase_prepare
prepare_twice = refl

copied : outcome ((two >> (do t ← copy_list 5; λ h. size 5 t)) empty_list) ≡ some 2
unfolding size push_back set_next set_prev get_prev inc_usage ch_next_prev erasing prepare_node
    unlink empty_list copy_list
copied = refl

-- A list with one element, the node 1, and no iterator.
abbrev pub one : Heap ℕ
one = linked_last 1 0 (created 7 empty_list)

pub one-Sound : Sound one (λ _. 0)
unfolding empty_list
one-Sound = grown-Sound 7 empty_list (λ _. 0) (empty_list-Sound ℕ) refl refl

one-Contents : Contents one (1 ∷ [])
unfolding linked_last created empty_list
one-Contents = (refl, (λ e. absurd (omega arith)), refl)

pub one_alive : one.alive 1 ≡ true
unfolding linked_last created empty_list
one_alive = refl

pub one_listed : one.is_erasing 1 ≡ false
unfolding linked_last created empty_list
one_listed = refl

pub inner : ◌≢◌ {A = ℕ} 1 sentinel
inner e = absurd (omega arith)

-- The element's iterator, and the heap that counts it.
abbrev pub at_one : Iterator
at_one = iterator_at (some sentinel) (some 1)

abbrev pub held_one : ℕ → ℕ
held_one n = hit 1 n

pub seen-Sound : Sound (bump 1 one) held_one
seen-Sound = bump-Sound 1 one (λ _. 0) held_one (λ n. omega arith) one-Sound

push_back-Contents_example : Ends (push_back 8 one) tt (λ h'.
    Sound h' (λ _. 0)
    × Contents h' ((1 ∷ []) ++ one.fresh ∷ [])
    × (h'.value ≡ update one.value one.fresh (some 8)))
push_back-Contents_example = push_back-Contents one (λ _. 0) one-Sound (1 ∷ []) one-Contents 8 refl

xerase_prepare-Contents_example :
    Ends
      (xerase_prepare at_one (bump 1 one))
      true
      (λ h'. Sound h' held_one × Contents h' (removed 1 (1 ∷ [])) × (h'.value ≡ (bump 1 one).value))
unfolding bump
xerase_prepare-Contents_example =
    xerase_prepare-Contents (bump 1 one) held_one seen-Sound (1 ∷ []) one-Contents at_one 1 refl
      one_alive one_listed inner

size-length_example : Ends (size 2 one) 1 (λ h'. Sound h' (λ _. 0))
size-length_example = size-length one (λ _. 0) one-Sound (1 ∷ []) one-Contents 2 (omega arith)

-- A list that a thread holds an iterator on.
copy_list-Holds_example :
    (t : Heap ℕ) × (ys : List ℕ) × (Ends
      (copy_list 2 (bump 1 one))
      t
      (Untouched (bump 1 one) held_one))
    × Holds t ys (7 ∷ [])
unfolding bump linked_last created empty_list
copy_list-Holds_example =
    copy_list-Holds 2 (bump 1 one) held_one (1 ∷ []) (7 ∷ []) (omega arith) seen-Sound one-Contents
      refl

pub one_few : 2 * one.fresh + held_one 1 < uint_mod
unfolding linked_last created empty_list
one_few = omega arith

erase_never_returns_example :
    (erase at_one (bump 1 one) ≡ blocked) ⊎ (erase at_one (bump 1 one) ≡ fault)
unfolding bump
erase_never_returns_example =
    erase_never_returns (bump 1 one) held_one (λ _. 0) seen-Sound 1 one_alive one_listed inner
      (λ n. omega arith) one_few
