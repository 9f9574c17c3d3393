-- ===== src/Status.antt =====
-- `XObjectStatus` of include/xobject.hpp and src/xobject.cpp, and the status of one object: the
-- transition table, `setStatus`, `chStatus` and `bkStatus`.
pub mod Table
pub mod Threads
pub mod Exclusion
pub mod Deleted
use pparam.Prelude.{ℕ, Bool, true, false, List, [], ◌∷◌, get_or}

pub data Status : Type 0 where
  loaded adding normal modifying deleting deleted scanning querying reloading printing : Status

-- The value of the enumerator.
unfoldable pub index : Status → ℕ
index loaded = 0
index adding = 1
index normal = 2
index modifying = 3
index deleting = 4
index deleted = 5
index scanning = 6
index querying = 7
index reloading = 8
index printing = 9

pub data StatusTransition : Type 0 where
  direct wait none : StatusTransition

pub transition_table : List (List StatusTransition)
transition_table =
    (N ∷ D ∷ N ∷ N ∷ D ∷ N ∷ N ∷ D ∷ D ∷ D ∷ [])
    ∷ (D ∷ W ∷ D ∷ W ∷ W ∷ N ∷ W ∷ W ∷ W ∷ W ∷ [])
    ∷ (N ∷ N ∷ N ∷ D ∷ D ∷ N ∷ D ∷ D ∷ N ∷ D ∷ [])
    ∷ (N ∷ N ∷ D ∷ W ∷ W ∷ N ∷ W ∷ W ∷ N ∷ W ∷ [])
    ∷ (N ∷ N ∷ D ∷ W ∷ W ∷ D ∷ W ∷ W ∷ N ∷ W ∷ [])
    ∷ (N ∷ N ∷ N ∷ N ∷ N ∷ N ∷ N ∷ N ∷ N ∷ D ∷ [])
    ∷ (N ∷ N ∷ D ∷ W ∷ W ∷ N ∷ W ∷ W ∷ N ∷ W ∷ [])
    ∷ (D ∷ N ∷ D ∷ W ∷ W ∷ N ∷ W ∷ W ∷ N ∷ W ∷ [])
    ∷ (D ∷ W ∷ N ∷ N ∷ N ∷ N ∷ N ∷ N ∷ W ∷ W ∷ [])
    ∷ (D ∷ W ∷ D ∷ W ∷ W ∷ D ∷ W ∷ W ∷ W ∷ W ∷ [])
    ∷ []
  where
    D : StatusTransition
    D = direct

    W : StatusTransition
    W = wait

    N : StatusTransition
    N = none

unfoldable pub can_transit : Status → Status → StatusTransition
unfolding index transition_table
can_transit from to = get_or (get_or transition_table (index from) []) (index to) none

-- `xoStatus` and `xoStatus_prev`, which `obj_status_lock` guards.
pub record ObjectStatus : Type 0 where
  pub xo_status : Status
  pub xo_status_prev : Status

-- The constructor of `XObject`.
abbrev pub initial : ObjectStatus
initial = record { xo_status = loaded; xo_status_prev = loaded }

unfoldable pub set_status : ObjectStatus → Status → ObjectStatus
set_status s to = record { xo_status = to; xo_status_prev = s.xo_status }

-- One round of the loop of `chStatus` under the lock: the new status and `true`, a wait on the
-- condition variable after which the round is run again, or `false`.
pub data Change : Type 0 where
  changed : ObjectStatus → Change
  waits refused : Change

unfoldable pub ch_status : ObjectStatus → Status → Change
unfolding set_status
ch_status s to = elim (can_transit s.xo_status to) [
  | direct ↦ changed (set_status s to)
  | wait ↦ waits
  | none ↦ refused
]

unfoldable pub bk_status : ObjectStatus → ObjectStatus
unfolding set_status
bk_status s = set_status s s.xo_status_prev

-- The statuses in which some thread works on the object, and those in which none does.
unfoldable pub is_active : Status → Bool
is_active loaded = false
is_active normal = false
is_active deleted = false
is_active _ = true
