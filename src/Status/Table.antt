-- ===== src/Status/Table.antt =====
-- The transition table by itself.
use pparam.Prelude.{◌≡◌, ◌≢◌, ◌↔◌, Bool, true, false, ◌||◌, ◌&&◌, arith}
use pparam.Status.{
  Status, loaded, adding, normal, deleting, deleted, querying, reloading, StatusTransition, direct,
  wait, none, can_transit, ObjectStatus, ch_status, waits, changed,
}

is_direct : StatusTransition → Bool
is_direct direct = true
is_direct _ = false

abbrev via : Status → Status → Status → Bool
via from rest to = is_direct (can_transit from rest) && is_direct (can_transit rest to)

-- Some status at rest can be reached from `from`, and `to` from it.
unfoldable pub chance : Status → Status → Bool
unfolding is_direct
chance from to = via from loaded to || via from normal to || via from deleted to

-- The four entries that read `none` although there is a chance.
unfoldable pub is_exception : Status → Status → Bool
is_exception querying adding = true
is_exception querying reloading = true
is_exception reloading deleting = true
is_exception reloading querying = true
is_exception _ _ = false

-- The table says `wait` exactly where the transition is not direct, a rest leads to the target,
-- and the pair is none of the four exceptions.
wait_iff-chance :
    (from to : Status)
    → (can_transit from to ≡ wait)
      ↔ ((can_transit from to ≢ direct) × (chance from to ≡ true) × (is_exception from to ≡ false))
unfolding can_transit chance is_exception
wait_iff-chance from to = ground arith

-- The four exceptions have the chance and are refused at once all the same.
exception_refused :
    (from to : Status)
    → is_exception from to ≡ true
    → (can_transit from to ≡ none) × (chance from to ≡ true)
unfolding can_transit chance is_exception
exception_refused from to h = ground arith

-- A request that waits is decided, one way or the other, at the next change of the status.
waits_decided :
    (s s' : ObjectStatus) (next to : Status)
    → ch_status s to ≡ waits
    → ch_status s next ≡ changed s'
    → ch_status s' to ≢ waits
unfolding ch_status can_transit
waits_decided s s' next to h e = ground arith
