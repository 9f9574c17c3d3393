-- ===== src/Object/Outcomes.antt =====
-- How an operation ends, and the status that it leaves.
use pparam.Prelude.{◌≡◌, ◌≢◌, Bool, true, false, if◌then◌else◌, arith}
use pparam.Exception.{add_trace_point, exception, is_failed, is_nok}
use pparam.Status.{Status, normal, deleted, ch_status, can_transit, bk_status, is_active}
use pparam.Object.{
  Hooks, XObject, Outcome, returned, blocked, thrown, Operation, add_it, del_it, mod_it, reload_it,
  run, notify_dependent_objects,
}

-- Where an operation that is done leaves an object.
unfoldable pub target : {D : Type 0} → Operation D → Status → Status
target add_it s = normal
target del_it s = deleted
target (mod_it xo) s = s
target (reload_it xo) s = s

-- Done: it returned, or threw `NOK`, "operation is ok but some errors occured".
unfoldable pub is_done : Outcome → Bool
is_done returned = true
is_done blocked = false
is_done (thrown e) = is_nok e

-- On an object that nobody works on, an operation never waits. Done, it leaves the object in the
-- operation's target status; not done (refused or `FAILED`), in the status that it found.
pub run_status :
    {D : Type 0} (h : Hooks D) (op : Operation D) (o : XObject D)
    → is_active o.status.xo_status ≡ false
    → ((run h op o).0.status.xo_status
        ≡ (if is_done (run h op o).1 then target op o.status.xo_status else o.status.xo_status))
      × ((run h op o).1 ≢ blocked)
unfolding run target is_done ch_status can_transit bk_status is_active is_nok is_failed
    notify_dependent_objects add_trace_point exception
run_status h add_it o r = ground arith
run_status h del_it o r = ground arith
run_status h (mod_it xo) o r = ground arith
run_status h (reload_it xo) o r = ground arith
