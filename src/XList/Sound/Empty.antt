-- ===== src/XList/Sound/Empty.antt =====
-- A new list (include/xlist.hpp): the sentinel is linked to itself, and counts no usage for it.
use pparam.Prelude.{ℕ, ◌*◌, ◌≡◌, refl, arith, ==_iff}
use pparam.XList.{sentinel}
use pparam.XList.Operations.{empty_list}
use pparam.XList.Counts.{hit, pointers}
use pparam.XList.Sound.{Sound, refs}

empty_list-refs : (D : Type 0) (n : ℕ) → refs {D = D} empty_list n ≡ 2 * hit sentinel n
unfolding empty_list refs pointers
empty_list-refs D n = ground arith

pub empty_list-Sound : (D : Type 0) → Sound {D = D} empty_list (λ _. 0)
unfolding empty_list
empty_list-Sound D = record {
  unlocked = λ p. refl;
  start = refl;
  start_listed = refl;
  known = λ p live. ground (arith, ==_iff p sentinel);
  next_alive = λ p live. refl;
  prev_alive = λ p live. refl;
  linked = λ p live listed. record {
    next_listed = refl;
    prev_listed = refl;
    prev_next = ground (arith, ==_iff p sentinel);
    next_prev = ground (arith, ==_iff p sentinel);
  };
  counted = λ n live. omega (arith, empty_list-refs D n);
}
