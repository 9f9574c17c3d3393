-- ===== src/Examples/Objects.antt =====
-- Runs of the statuses and operations of include/xobject.hpp.
use pparam.Prelude.{
  ◌≤◌, ◌≡◌, ◌≢◌, refl, ◌↔◌, false, none, [], ◌∷◌, Text, text, length, if◌then◌else◌,
}
use pparam.Prelude.Int.{pos}
use pparam.Exception.{ok, err, exception, trace_point, is_failed}
use pparam.Status.{
  Status, loaded, adding, deleting, deleted, printing, can_transit, ObjectStatus, initial,
  ch_status, bk_status, is_active,
}
use pparam.Status.Table.{is_exception}
use pparam.Status.Threads.{job, System, begin, finish, Reach, here, next, is_final, fresh}
use pparam.Status.Exclusion.{mutual_exclusion, bk_status_restores}
use pparam.Status.Deleted.{IsGone, deleted_forever}
use pparam.Object.{Hooks, XObject, blocked, add_it, run}
use pparam.Object.Outcomes.{target, is_done, run_status}

table : Unit {0}
unfolding can_transit ch_status bk_status is_active is_final is_exception
table = tt

abbrev status : Status → Status → ObjectStatus
status now prev = record { xo_status = now; xo_status_prev = prev }

abbrev printing_it : System
printing_it = record { object = status printing loaded; jobs = job 7 printing loaded ∷ [] }

abbrev adding_it : System
adding_it = record { object = status adding loaded; jobs = job 7 adding loaded ∷ [] }

started_printing : Reach fresh printing_it
unfolding table
started_printing = next here (begin fresh 7 printing (status printing loaded) refl refl)

started_adding : Reach fresh adding_it
unfolding table
started_adding = next here (begin fresh 7 adding (status adding loaded) refl refl)

abbrev deleting_it : System
deleting_it = record { object = status deleting loaded; jobs = job 3 deleting loaded ∷ [] }

abbrev deleted_it : System
deleted_it = record { object = status deleted deleting; jobs = [] }

was_deleted : Reach fresh deleted_it
unfolding table
was_deleted =
    next (next here (begin fresh 3 deleting (status deleting loaded) refl refl))
      (finish deleting_it [] (job 3 deleting loaded) [] deleted refl refl (λ e. cc))

abbrev printing_gone : System
printing_gone = record { object = status printing deleted; jobs = job 4 printing deleted ∷ [] }

printed_later : Reach deleted_it printing_gone
unfolding table
printed_later = next here (begin deleted_it 4 printing (status printing deleted) refl refl)

mutual_exclusion_example :
    (length printing_it.jobs ≤ 1) × ((printing_it.jobs ≡ []) ↔ (is_active printing ≡ false))
mutual_exclusion_example = mutual_exclusion {s = printing_it} started_printing

bk_status_restores_example : (bk_status (status printing loaded)).xo_status ≡ loaded
bk_status_restores_example =
    bk_status_restores {s = printing_it} [] (job 7 printing loaded) [] started_printing refl

deleted_forever_example : IsGone printing_gone.object
deleted_forever_example =
    deleted_forever {s = deleted_it} {u = printing_gone} was_deleted refl printed_later

-- An object whose `_add` throws a failure.
abbrev broken : Hooks Text
broken = record {
  name = λ d. d;
  set_name = λ n d. n;
  add_hook = λ d. (d, err (exception (text "no") (trace_point "server" "_add")));
  del_hook = λ d. (d, ok tt);
  mod_hook = λ xo d. (xo, ok tt);
  assign = λ xo d. (xo, ok tt);
  disconnect_all = λ d. d;
  notified = λ d. d;
}

abbrev server : XObject Text
server = record { status = initial; ruse = pos 0; this_iter = none; content = [] }

run_status_example :
    ((run broken add_it server).0.status.xo_status
      ≡ (if is_done (run broken add_it server).1 then target {D = Text} add_it loaded else loaded))
    × ((run broken add_it server).1 ≢ blocked)
unfolding is_active
run_status_example = run_status broken add_it server refl

add_fails : (run broken add_it server).0.status ≡ status loaded adding
unfolding run table exception is_failed
add_fails = refl
