-- ===== src/Repository/Requests.antt =====
-- Every operation of `XObjectRepository` (include/xobject.hpp) as a request, and what the lock is
-- after it.
use pparam.Prelude.{
  ℕ, ◌≡◌, refl, Bool, true, false, Option, none, some, List, [], ◌∷◌, ◌++◌, Text, String, text,
  ◌==◌, subst, Bool-cases, inl, inr,
}
use pparam.Prelude.Int.{ℤ}
use pparam.Exception.{ok, err}
use pparam.Repository.{
  ListRun, ListOps, Repository, Run, done, blocked, undefined, Cmd, pure, and_then, or_catch, ◌>>=◌,
  ◌>>◌, wrlock, insert, erased, lookup, on_list, after_call, find_list, rethrow, read_locked,
}
use pparam.Repository.Lists.{
  given_or, erase_list, reg_at, reg_obj_list, unreg_obj_list, load_obj, reload_obj, add, add_key,
  del, mod_obj, load_xml_str, load_xml_doc, add_loaded_objects_in, add_loaded_objects, save_xml_doc,
  xml_of, all_texts, xml, shell_xml, save, save_list, load, unload_list,
}
use pparam.Repository.Queries.{
  traced, query, query_lock, query_lock_locklst, query_key, query_name, query_key_lock,
  query_name_lock, query_locklst, query_key_lock_locklst, query_any, query_key_any, query_name_any,
  find_key_any, find_name_any, query_type_locklst, query_type_lock_locklst, begin, list_end,
}
use pparam.Repository.Balance.{
  unlock_writing, Kept, Balanced, >>=-Balanced, pure-Balanced, try_catch-Balanced,
  find_list-Balanced, after_call-Balanced, on_list-Balanced, read_locked-Balanced,
}

-- What a request answers.
pub data Answer (L I : Type 0) : Type 0 where
  nothing : Answer L I
  flag : Bool → Answer L I
  told : Text → Answer L I
  at : I → Answer L I
  looked : Bool → I → Answer L I
  all_at : List I → Answer L I
  the_list : L → Answer L I

-- The operations that give the lock back on both ways out.
pub data Request (L O Q T : Type 0) : Type 0 where
  registers : ℤ → Option L → L → Request L O Q T
  unregisters : ℤ → Request L O Q T
  loads_obj adds : ℤ → O → Bool → Request L O Q T
  reloads modifies : ℤ → O → Request L O Q T
  adds_key deletes : ℤ → Text → Request L O Q T
  loads_str loads_doc saves_doc : ℤ → Text → Request L O Q T
  adds_loaded unloads_list prints_list saves_list begins ends : ℤ → Request L O Q T
  prints : Text → Request L O Q T
  prints_shell : Request L O Q T
  asks asks_lock asks_lists : ℤ → Q → Request L O Q T
  asks_key asks_name asks_key_lock asks_name_lock asks_locklst asks_key_lists :
      ℤ → Text → Request L O Q T
  asks_type asks_type_lock : ℤ → T → Request L O Q T

-- The loops over all lists, which stand outside a `try`.
pub data Sweep (Q : Type 0) : Type 0 where
  adds_all saves_all loads_all : Sweep Q
  asks_any : Q → Sweep Q
  asks_key_any asks_name_any finds_key_any finds_name_any : Text → Sweep Q

module _ {L O I Q T : Type 0} (ops : ListOps L O I Q T) where
  abbrev answer : {A : Type 0} → (A → Answer L I) → Cmd L A → Cmd L (Answer L I)
  answer f m = m >>= λ a. pure (f a)

  unfoldable pub run : Request L O Q T → Cmd L (Answer L I)
  run (registers id given made) = answer the_list (reg_obj_list ops id given made)
  run (unregisters id) = answer (λ _. nothing) (unreg_obj_list ops id)
  run (loads_obj id xo clone) = answer at (load_obj ops id xo clone)
  run (adds id xo clone) = answer at (add ops id xo clone)
  run (reloads id xo) = answer at (reload_obj ops id xo)
  run (modifies id xo) = answer at (mod_obj ops id xo)
  run (adds_key id key) = answer at (add_key ops id key)
  run (deletes id key) = answer at (del ops id key)
  run (loads_str id xstr) = answer flag (load_xml_str ops id xstr)
  run (loads_doc id xdoc) = answer flag (load_xml_doc ops id xdoc)
  run (saves_doc id xdoc) = answer (λ _. nothing) (save_xml_doc ops id xdoc)
  run (adds_loaded id) = answer flag (add_loaded_objects_in ops id)
  run (unloads_list id) = answer flag (unload_list ops id)
  run (prints_list id) = answer told (xml_of ops id)
  run (saves_list id) = answer (λ _. nothing) (save_list ops id)
  run (begins id) = answer at (begin ops id)
  run (ends id) = answer at (list_end ops id)
  run (prints name) = answer told (xml ops name)
  run prints_shell = answer told (shell_xml ops)
  run (asks id q) = answer at (query ops id q)
  run (asks_lock id q) = answer at (query_lock ops id q)
  run (asks_lists id q) = answer at (query_lock_locklst ops id q)
  run (asks_key id key) = answer at (query_key ops id key)
  run (asks_name id name) = answer at (query_name ops id name)
  run (asks_key_lock id key) = answer at (query_key_lock ops id key)
  run (asks_name_lock id name) = answer at (query_name_lock ops id name)
  run (asks_locklst id key) = answer at (query_locklst ops id key)
  run (asks_key_lists id key) = answer at (query_key_lock_locklst ops id key)
  run (asks_type id type) = answer all_at (query_type_locklst ops id type)
  run (asks_type_lock id type) = answer all_at (query_type_lock_locklst ops id type)

  unfoldable pub sweep : Sweep Q → Cmd L (Answer L I)
  sweep adds_all = answer flag (add_loaded_objects ops)
  sweep saves_all = answer (λ _. nothing) (save ops)
  sweep loads_all = answer flag (load ops)
  sweep (asks_any q) = answer at (query_any ops q)
  sweep (asks_key_any key) = answer (λ (b, i). looked b i) (query_key_any ops key)
  sweep (asks_name_any name) = answer (λ (b, i). looked b i) (query_name_any ops name)
  sweep (finds_key_any key) = answer at (find_key_any ops key)
  sweep (finds_name_any name) = answer at (find_name_any ops name)

  answered : {A : Type 0} (f : A → Answer L I) (m : Cmd L A) → Balanced m → Balanced (answer f m)
  answered f m h = >>=-Balanced m (λ a. pure (f a)) h (λ a. pure-Balanced (f a))

  locked_on :
      {A : Type 0} (system fn : String) (id : ℤ) (op : L → ListRun L A)
      → Balanced (read_locked system fn (on_list id op))
  locked_on system fn id op =
      read_locked-Balanced system fn (on_list id op) (on_list-Balanced id op)

  all_texts-Balanced :
      (op : L → ListRun L Text) (str : Text) (ls : List (ℤ × L))
      → Balanced (all_texts ops op str ls)
  unfolding all_texts
  all_texts-Balanced op str [] = pure-Balanced str
  all_texts-Balanced op str ((k, l) ∷ rest) =
      >>=-Balanced (after_call k (op l)) (λ t. all_texts ops op (str ++ t) rest)
        (after_call-Balanced k (op l)) (λ t. all_texts-Balanced op (str ++ t) rest)

  traced_on :
      {A : Type 0} (fn : String) (body : Cmd L A) → Balanced body → Balanced (traced ops fn body)
  traced_on fn body h = try_catch-Balanced body _ h (λ e r. (refl, refl))

  query_name-Balanced : (id : ℤ) (name : Text) → Balanced (query_name ops id name)
  unfolding query_name
  query_name-Balanced id name =
      >>=-Balanced _ _ (traced_on "query_name" (find_list id) (find_list-Balanced id))
        (λ l. after_call-Balanced id (ops.query_name name l))

  reg_at-Kept :
      (id : ℤ) (l : L) (o : Option L) (r : Repository L)
      → r.writer ≡ true
      → Kept r.readers false (reg_at ops id l o r)
  unfolding reg_at
  reg_at-Kept id l (some old) r w = rw (unlock_writing r w) (refl, refl)
  reg_at-Kept id l none r w =
      rw (unlock_writing (record r { lists = insert id (ops.set_repo l) r.lists }) w) (refl, refl)

  -- A body under the write lock: the lock is free before, or the caller waits.
  write_locked :
      {A : Type 0} (body : Cmd L A)
      → ((r : Repository L) → r.writer ≡ true → Kept r.readers false (body r))
      → Balanced (wrlock >> body)
  unfolding wrlock
  write_locked body h r = elim (Bool-cases r.writer) [
    | inl writing ↦ simp (writing) tt
    | inr free ↦ elim (Bool-cases (r.readers == 0)) [
      | inl unread ↦
          let locked : Repository L = record {
            lists = r.lists;
            readers = r.readers;
            writer = true;
            cancel = r.cancel;
          } in
          simp (free, unread) (h locked refl)
      | inr read ↦ simp (free, read) tt
    ]
  ]

  reg_obj_list-Balanced :
      (id : ℤ) (given : Option L) (made : L) → Balanced (reg_obj_list ops id given made)
  unfolding reg_obj_list
  reg_obj_list-Balanced id given made =
      write_locked _ λ r w. reg_at-Kept id (given_or ops given made) (lookup id r.lists) r w

  unreg_end :
      (id : ℤ) (x : Run L Bool) (n : ℕ)
      → Kept n true x
      → Kept n false (and_then (or_catch x (rethrow "xobject" "unregObjList")) (erase_list ops id))
  unfolding erase_list
  unreg_end id (done r (ok b)) n h =
      rw (unlock_writing (record r { lists = erased id r.lists }) h.1) (h.0, refl)
  unreg_end id (done r (err e)) n h = rw (unlock_writing r h.1) (h.0, refl)
  unreg_end id blocked n h = tt
  unreg_end id undefined n h = h

  unreg_obj_list-Balanced : (id : ℤ) → Balanced (unreg_obj_list ops id)
  unfolding unreg_obj_list
  unreg_obj_list-Balanced id = write_locked _ λ r w.
      unreg_end id (on_list id ops.unload r) r.readers (
        subst (λ (v : Bool). Kept r.readers v (on_list id ops.unload r)) w
          (on_list-Balanced id ops.unload r))

  -- Every operation that names one list, registers one or prints all of them, with whatever operations
  -- the lists have: it waits, or it returns or throws with the lock held for reading and writing as
  -- it was before; none gives back a lock that is not held.
  pub run-Balanced : (q : Request L O Q T) → Balanced (run q)
  unfolding run load_obj reload_obj add add_key del mod_obj load_xml_str load_xml_doc save_xml_doc
      add_loaded_objects_in unload_list xml_of save_list begin list_end xml shell_xml query
      query_lock query_lock_locklst query_key query_name query_key_lock query_name_lock
      query_locklst query_key_lock_locklst query_type_locklst query_type_lock_locklst
  run-Balanced (registers id given made) = answered the_list _ (reg_obj_list-Balanced id given made)
  run-Balanced (unregisters id) = answered (λ _. nothing) _ (unreg_obj_list-Balanced id)
  run-Balanced (loads_obj id xo clone) =
      answered at _ (locked_on "xobject" "loadObj" id (ops.load_obj xo clone))
  run-Balanced (adds id xo clone) = answered at _ (locked_on "xobject" "add" id (ops.add xo clone))
  run-Balanced (reloads id xo) = answered at _ (
      read_locked-Balanced "xobject" "reloadObj" _ (
        >>=-Balanced (on_list id (ops.mod_obj xo true)) _
          (on_list-Balanced id (ops.mod_obj xo true))
          (λ _. on_list-Balanced id (ops.add_key (ops.get_key xo)))))
  run-Balanced (modifies id xo) =
      answered at _ (locked_on "xobject" "mod" id (ops.mod_obj xo false))
  run-Balanced (adds_key id key) = answered at _ (locked_on "xobject" "add" id (ops.add_key key))
  run-Balanced (deletes id key) = answered at _ (locked_on "xobject" "del" id (ops.del_key key))
  run-Balanced (loads_str id xstr) =
      answered flag _ (locked_on "xobject" "loadXmlStr" id (ops.load_xml_str xstr))
  run-Balanced (loads_doc id xdoc) =
      answered flag _ (locked_on "xobject" "loadXmlDoc" id (ops.load_xml_doc xdoc))
  run-Balanced (saves_doc id xdoc) =
      answered (λ _. nothing) _ (locked_on "xobject" "saveXmlDoc" id (ops.save_xml_doc xdoc))
  run-Balanced (adds_loaded id) =
      answered flag _ (locked_on "xobject" "addLoadedObjects" id ops.add_loaded_objects)
  run-Balanced (unloads_list id) = answered flag _ (locked_on "xobject" "unload" id ops.unload)
  run-Balanced (prints_list id) = answered told _ (locked_on "xobject" "xml" id ops.xml)
  run-Balanced (saves_list id) = answered (λ _. nothing) _ (locked_on "mngr" "save" id ops.save)
  run-Balanced (begins id) = answered at _ (
      read_locked-Balanced "xobject" "begin" _
        (>>=-Balanced (find_list id) _ (find_list-Balanced id) (λ l. pure-Balanced (ops.begin l))))
  run-Balanced (ends id) = answered at _ (
      read_locked-Balanced "xobject" "end" _ (
        >>=-Balanced (find_list id) _ (find_list-Balanced id)
          (λ l. pure-Balanced (ops.list_end l))))
  run-Balanced (prints name) = answered told _ (
      read_locked-Balanced "xobject" "xml" _ (
        >>=-Balanced _ _
          (λ r. all_texts-Balanced ops.xml (text "<" ++ (name ++ text ">")) r.lists r)
          (λ str. pure-Balanced (str ++ (text "</" ++ (name ++ text ">"))))))
  run-Balanced prints_shell = answered told _ (
      read_locked-Balanced "xobject" "shell_xml" _ (
        >>=-Balanced _ _ (λ r. all_texts-Balanced ops.shell_xml (text "<rows>") r.lists r)
          (λ str. pure-Balanced (str ++ text "</rows>"))))
  run-Balanced (asks id q) =
      answered at _
        (traced_on "query" (on_list id (ops.query q)) (on_list-Balanced id (ops.query q)))
  run-Balanced (asks_lock id q) = answered at _ (
      read_locked-Balanced "xobject" "query_lock" _
        (traced_on "query" (on_list id (ops.query q)) (on_list-Balanced id (ops.query q))))
  run-Balanced (asks_lists id q) =
      answered at _ (locked_on "xobject" "query_lock_locklst" id (ops.query_lock q))
  run-Balanced (asks_key id key) =
      answered at _ (
        traced_on "query" (on_list id (ops.query_key key))
          (on_list-Balanced id (ops.query_key key)))
  run-Balanced (asks_name id name) = answered at _ (query_name-Balanced id name)
  run-Balanced (asks_key_lock id key) = answered at _ (
      read_locked-Balanced "xobject" "query_lock" _ (
        traced_on "query" (on_list id (ops.query_key key))
          (on_list-Balanced id (ops.query_key key))))
  run-Balanced (asks_name_lock id name) =
      answered at _
        (read_locked-Balanced "xobject" "query_name_lock" _ (query_name-Balanced id name))
  run-Balanced (asks_locklst id key) = answered at _ (
      traced_on "query_locklst" (on_list id (ops.query_key_lock key))
        (on_list-Balanced id (ops.query_key_lock key)))
  run-Balanced (asks_key_lists id key) = answered at _ (
      read_locked-Balanced "xobject" "query_lock_locklst" _ (
        traced_on "query_locklst" (on_list id (ops.query_key_lock key))
          (on_list-Balanced id (ops.query_key_lock key))))
  run-Balanced (asks_type id type) = answered all_at _ (
      traced_on "query_type_locklst" (on_list id (ops.query_type_lock type))
        (on_list-Balanced id (ops.query_type_lock type)))
  run-Balanced (asks_type_lock id type) =
      answered all_at _
        (locked_on "xobject" "query_type_lock_locklst" id (ops.query_type_lock type))
