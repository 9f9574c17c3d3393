-- ===== src/Object.antt =====
-- The operations of one `XObject` (include/xobject.hpp): `add`, `del`, `mod` and `reload` with the
-- status changes around the virtual functions `_add`, `_del` and `_mod`. What a subclass, the
-- parameters of the object and its connections do is the record `Hooks`.
pub mod Outcomes
use pparam.Prelude.{ℕ, Bool, true, false, not, Option, none, ◌++◌, Text, String, text}
use pparam.Prelude.Int.{ℤ, pos, negsuc, ◌+ℤ◌, ◌-ℤ◌, eqb_ℤ}
use pparam.Exception.{
  Exception, Result, ok, err, exception, trace_point, add_trace_point, is_failed, is_nok,
}
use pparam.Status.{
  Status, adding, normal, modifying, deleting, deleted, scanning, reloading, ObjectStatus, Change,
  changed, waits, refused, ch_status, bk_status,
}

-- `D` is all of the object that is not modelled here. A virtual function returns the changed object
-- and what it throws, if anything; none of them touches the status, which is protected by its lock.
pub record Hooks (D : Type 0) : Type 0 where
  pub name : D → Text
  pub set_name : Text → D → D
  pub add_hook : D → D × Result (Unit {0})
  pub del_hook : D → D × Result (Unit {0})
  pub mod_hook : D → D → D × Result (Unit {0})
  pub assign : D → D → D × Result (Unit {0})
  pub disconnect_all : D → D
  pub notified : D → D

pub record XObject (D : Type 0) : Type 0 where
  pub status : ObjectStatus
  pub ruse : ℤ
  pub this_iter : Option ℕ
  pub content : D

-- How a call ends; `blocked`: it waits on `obj_status_cond`.
pub data Outcome : Type 0 where
  returned blocked : Outcome
  thrown : Exception → Outcome

module _ {D : Type 0} where
  unfoldable pub is_busy : XObject D → Bool
  is_busy o = not (eqb_ℤ o.ruse (pos 0))

  unfoldable pub inc_ruse : XObject D → XObject D
  inc_ruse o = record o { ruse = o.ruse +ℤ pos 1 }

  unfoldable pub dec_ruse : XObject D → XObject D
  unfolding is_busy
  dec_ruse o = elim (is_busy o) [ true ↦ record o { ruse = o.ruse -ℤ pos 1 } | false ↦ o ]

  abbrev change_to : XObject D → Change → XObject D
  change_to o (changed s) = record o { status = s }
  change_to o waits = o
  change_to o refused = o

  abbrev back : XObject D → XObject D
  back o = record o { status = bk_status o.status }

  abbrev into : XObject D → Status → XObject D
  into o to = change_to o (ch_status o.status to)

module _ {D : Type 0} (h : Hooks D) where
  open h use {name, set_name, add_hook, del_hook, mod_hook, assign, disconnect_all, notified}

  cannot : Text → String → XObject D → Exception
  cannot what fn o =
      exception (text "Can't prepare object : " ++ (name o.content ++ what))
        (trace_point "xobject" fn)

  abbrev end_add : XObject D → Result (Unit {0}) → XObject D × Outcome
  end_add o (ok _) = (into o normal, returned)
  end_add o (err e) = elim (is_failed e) [
    | true ↦ (back o, thrown (add_trace_point (trace_point "xobject" "add") e))
    | false ↦ (into o normal, thrown (add_trace_point (trace_point "xobject" "add") e))
  ]

  abbrev run_add : XObject D → D × Result (Unit {0}) → XObject D × Outcome
  run_add o (d, r) = end_add (record o { content = d }) r

  unfoldable pub add : XObject D → XObject D × Outcome
  unfolding cannot
  add o = elim (ch_status o.status adding) [
    | changed s ↦ run_add (record o { status = s }) (add_hook o.content)
    | waits ↦ (o, blocked)
    | refused ↦ (o, thrown (cannot (text " for adding!") "add" o))
  ]

  abbrev gone : XObject D → XObject D
  gone o = record (into o deleted) { content = disconnect_all o.content; this_iter = none }

  abbrev end_del : XObject D → Result (Unit {0}) → XObject D × Outcome
  end_del o (ok _) = (gone o, returned)
  end_del o (err e) = elim (is_nok e) [
    | true ↦ (gone o, thrown (add_trace_point (trace_point "xobject" "del") e))
    | false ↦ (back o, thrown (add_trace_point (trace_point "xobject" "del") e))
  ]

  abbrev run_del : XObject D → D × Result (Unit {0}) → XObject D × Outcome
  run_del o (d, r) = end_del (record o { content = d }) r

  unfoldable pub del : XObject D → XObject D × Outcome
  unfolding is_busy cannot
  del o = elim (ch_status o.status deleting) [
    | changed s ↦ elim (is_busy o) [
      | true ↦ (
        back (record o { status = s }),
        thrown (exception (text "Can't delete busy object !") (trace_point "xobject" "del")),
      )
      | false ↦ run_del (record o { status = s }) (del_hook o.content)
    ]
    | waits ↦ (o, blocked)
    | refused ↦ (o, thrown (cannot (text " for deleting!") "del" o))
  ]

  -- `scan(notifier)` from the object that was modified: it passes through `SCANNING` and goes on
  -- to the connected objects.
  unfoldable pub notify_dependent_objects : XObject D → Outcome → XObject D × Outcome
  notify_dependent_objects o out = elim (ch_status o.status scanning) [
    | changed s ↦ (record o { status = bk_status s; content = notified o.content }, out)
    | waits ↦ (o, blocked)
    | refused ↦ (o, out)
  ]

  abbrev named_as : D → XObject D → XObject D
  named_as xo o = record o { content = set_name (name xo) o.content }

  abbrev end_mod : D → XObject D → Result (Unit {0}) → XObject D × Outcome
  end_mod xo o (ok _) = notify_dependent_objects (back (named_as xo o)) returned
  end_mod xo o (err e) =
      let out = thrown (add_trace_point (trace_point "xobject" "mod") e) in
      elim (is_nok e) [
        | true ↦ notify_dependent_objects (named_as xo (back o)) out
        | false ↦ (back o, out)
      ]

  abbrev run_mod : D → XObject D → D × Result (Unit {0}) → XObject D × Outcome
  run_mod xo o (d, r) = end_mod xo (record o { content = d }) r

  -- `mod_prepare`, and `mod` if it succeeds, as `XObjectList::mod` calls them.
  unfoldable pub mod_object : D → XObject D → XObject D × Outcome
  unfolding notify_dependent_objects
  mod_object xo o = elim (ch_status o.status modifying) [
    | changed s ↦ run_mod xo (record o { status = s }) (mod_hook xo o.content)
    | waits ↦ (o, blocked)
    | refused ↦ (
      o,
      thrown
          (exception (text "Can't prepare Object for modifying !") (trace_point "xobject" "mod")),
    )
  ]

  abbrev end_reload : XObject D → Result (Unit {0}) → XObject D × Outcome
  end_reload o (ok _) = (back o, returned)
  end_reload o (err e) = (back o, thrown (add_trace_point (trace_point "xobject" "reload") e))

  abbrev run_reload : XObject D → D × Result (Unit {0}) → XObject D × Outcome
  run_reload o (d, r) = end_reload (record o { content = d }) r

  -- `reload_prepare`, and `reload` if it succeeds.
  unfoldable pub reload : D → XObject D → XObject D × Outcome
  reload xo o = elim (ch_status o.status reloading) [
    | changed s ↦ run_reload (record o { status = s }) (assign xo o.content)
    | waits ↦ (o, blocked)
    | refused ↦ (
      o,
      thrown
          (exception (text "Can't prepare Object for reloading !") (trace_point "xobject" "mod")),
    )
  ]

pub data Operation (D : Type 0) : Type 0 where
  add_it del_it : Operation D
  mod_it reload_it : D → Operation D

unfoldable pub run : {D : Type 0} → Hooks D → Operation D → XObject D → XObject D × Outcome
unfolding add del mod_object reload
run h add_it o = add h o
run h del_it o = del h o
run h (mod_it xo) o = mod_object h xo o
run h (reload_it xo) o = reload h xo o
