-- ===== src/Repository/Lists.antt =====
-- The operations of `XObjectRepository` (include/xobject.hpp) on its lists and on the objects in
-- them. What is written to the log is not modelled.
use pparam.Prelude.{Bool, true, false, Option, none, some, List, [], ◌∷◌, ◌++◌, ◌&&◌, Text, text}
use pparam.Prelude.Int.{ℤ}
use mathlib.Core.List.{reverse}
use pparam.Exception.{exception, trace_point}
use pparam.Repository.{
  ListRun, ListOps, Cmd, pure, throw, try_catch, ◌>>=◌, ◌>>◌, rdlock, wrlock, unlock, lookup,
  insert, erased, after_call, on_list, rethrow, read_locked, read_open,
}

module _ {L O I Q T : Type 0} (ops : ListOps L O I Q T) where
  -- `if (repo.find(listID) != repo.end())`, `repo[listID] = xolist`.
  unfoldable pub reg_at : ℤ → L → Option L → Cmd L L
  reg_at id l (some old) =
      unlock >> throw (exception (text "Duplicate list !") (trace_point "xobject" "regObjList"))
  reg_at id l none =
      (λ r. pure tt (record r { lists = insert id (ops.set_repo l) r.lists })) >> unlock >> pure l

  abbrev pub given_or : Option L → L → L
  given_or (some l) made = l
  given_or none made = made

  -- `given` is the caller's list, `made` the one that `new` makes where there is none.
  unfoldable pub reg_obj_list : ℤ → Option L → L → Cmd L L
  reg_obj_list id given made = wrlock >> λ r. reg_at id (given_or given made) (lookup id r.lists) r

  -- `repo.erase(iter)`.
  unfoldable pub erase_list : ℤ → Bool → Cmd L (Unit {0})
  erase_list id unloaded = (λ r. pure tt (record r { lists = erased id r.lists })) >> unlock

  unfoldable pub unreg_obj_list : ℤ → Cmd L (Unit {0})
  unreg_obj_list id =
      wrlock
      >> (try_catch (on_list id ops.unload) (rethrow "xobject" "unregObjList") >>= erase_list id)

  unfoldable pub load_obj : ℤ → O → Bool → Cmd L I
  unfolding read_locked on_list
  load_obj id xo clone = read_locked "xobject" "loadObj" (on_list id (ops.load_obj xo clone))

  unfoldable pub reload_obj : ℤ → O → Cmd L I
  unfolding read_locked on_list
  reload_obj id xo =
      read_locked "xobject" "reloadObj"
        (on_list id (ops.mod_obj xo true) >> on_list id (ops.add_key (ops.get_key xo)))

  unfoldable pub add : ℤ → O → Bool → Cmd L I
  unfolding read_locked on_list
  add id xo clone = read_locked "xobject" "add" (on_list id (ops.add xo clone))

  unfoldable pub add_key : ℤ → Text → Cmd L I
  unfolding read_locked on_list
  add_key id key = read_locked "xobject" "add" (on_list id (ops.add_key key))

  unfoldable pub del : ℤ → Text → Cmd L I
  unfolding read_locked on_list
  del id key = read_locked "xobject" "del" (on_list id (ops.del_key key))

  unfoldable pub mod_obj : ℤ → O → Cmd L I
  unfolding read_locked on_list
  mod_obj id xo = read_locked "xobject" "mod" (on_list id (ops.mod_obj xo false))

  unfoldable pub load_xml_str : ℤ → Text → Cmd L Bool
  unfolding read_locked on_list
  load_xml_str id xstr = read_locked "xobject" "loadXmlStr" (on_list id (ops.load_xml_str xstr))

  unfoldable pub load_xml_doc : ℤ → Text → Cmd L Bool
  unfolding read_locked on_list
  load_xml_doc id xdoc = read_locked "xobject" "loadXmlDoc" (on_list id (ops.load_xml_doc xdoc))

  unfoldable pub add_loaded_objects_in : ℤ → Cmd L Bool
  unfolding read_locked on_list
  add_loaded_objects_in id =
      read_locked "xobject" "addLoadedObjects" (on_list id ops.add_loaded_objects)

  -- `isOK = iter->second->op() && isOK` for every list.
  unfoldable pub all_lists : (L → ListRun L Bool) → Bool → List (ℤ × L) → Cmd L Bool
  all_lists op is_ok [] = pure is_ok
  all_lists op is_ok ((k, l) ∷ rest) = after_call k (op l) >>= λ b. all_lists op (b && is_ok) rest

  unfoldable pub add_loaded_objects : Cmd L Bool
  unfolding read_open all_lists
  add_loaded_objects = read_open λ r. all_lists ops.add_loaded_objects true r.lists r

  unfoldable pub save_xml_doc : ℤ → Text → Cmd L (Unit {0})
  unfolding read_locked on_list
  save_xml_doc id xdoc = read_locked "xobject" "saveXmlDoc" (on_list id (ops.save_xml_doc xdoc))

  unfoldable pub xml_of : ℤ → Cmd L Text
  unfolding read_locked on_list
  xml_of id = read_locked "xobject" "xml" (on_list id ops.xml)

  -- `str += iter->second->op()` for every list.
  unfoldable pub all_texts : (L → ListRun L Text) → Text → List (ℤ × L) → Cmd L Text
  all_texts op str [] = pure str
  all_texts op str ((k, l) ∷ rest) = after_call k (op l) >>= λ t. all_texts op (str ++ t) rest

  unfoldable pub xml : Text → Cmd L Text
  unfolding read_locked all_texts
  xml name = read_locked "xobject" "xml" (do
    str ← λ r. all_texts ops.xml (text "<" ++ (name ++ text ">")) r.lists r
    pure (str ++ (text "</" ++ (name ++ text ">"))))

  unfoldable pub shell_xml : Cmd L Text
  unfolding read_locked all_texts
  shell_xml = read_locked "xobject" "shell_xml" (do
    str ← λ r. all_texts ops.shell_xml (text "<rows>") r.lists r
    pure (str ++ text "</rows>"))

  -- An exception is logged, and the next list is saved.
  unfoldable pub save_all : List (ℤ × L) → Cmd L (Unit {0})
  save_all [] = pure tt
  save_all ((k, l) ∷ rest) = try_catch (after_call k (ops.save l)) (λ e. pure tt) >> save_all rest

  unfoldable pub save : Cmd L (Unit {0})
  unfolding read_open save_all
  save = read_open λ r. save_all r.lists r

  -- This one names another subsystem.
  unfoldable pub save_list : ℤ → Cmd L (Unit {0})
  unfolding read_locked on_list
  save_list id = read_locked "mngr" "save" (on_list id ops.save)

  unfoldable pub load : Cmd L Bool
  unfolding read_open all_lists
  load = read_open (do
    is_ok ← λ r. all_lists ops.load true r.lists r
    λ r. all_lists ops.add_loaded_objects is_ok r.lists r)

  unfoldable pub disconnect_lists : List (ℤ × L) → Cmd L (Unit {0})
  disconnect_lists [] = pure tt
  disconnect_lists ((k, l) ∷ rest) = after_call k (ops.disconnect_all l) >> disconnect_lists rest

  -- It ends with a second `rdlock`.
  unfoldable pub unload : Cmd L Bool
  unfolding rdlock disconnect_lists all_lists
  unload = do
    rdlock
    is_ok ←
        (λ r. disconnect_lists (reverse r.lists) r)
        >> (λ r. all_lists ops.unload true (reverse r.lists) r)
    rdlock
    pure is_ok

  unfoldable pub unload_list : ℤ → Cmd L Bool
  unfolding read_locked on_list
  unload_list id = read_locked "xobject" "unload" (on_list id ops.unload)
