-- ===== src/Repository.antt =====
-- `XObjectRepository` (include/xobject.hpp): object lists under their numbers, and the read-write
-- lock that every operation takes and gives back. What the operations call of `XObjectList` is the
-- record `ListOps`.
pub mod Lists
pub mod Queries
pub mod Balance
pub mod Requests
pub mod Registered
pub mod Sweeps
use pparam.Prelude.{
  ℕ, ◌+◌, ◌-◌, Bool, true, false, Option, none, some, List, [], ◌∷◌, Text, String, text, ◌==◌, ◌||◌,
  not, if◌then◌else◌,
}
use pparam.Prelude.Int.{ℤ, eqb_ℤ, ltb_ℤ}
use pparam.Exception.{Exception, Result, ok, err, exception, trace_point, add_trace_point}

-- A call of a list's operation ends with a result, or waits for the status of an object.
pub data ListRun (L A : Type 0) : Type 0 where
  ended : L → Result A → ListRun L A
  waits : ListRun L A

-- The operations of a list that the repository calls: `L` is a list, `O` an object, `I` an iterator
-- and `Q` a condition on objects. An argument that is only handed through (the parser, the layout
-- of an xml text) is part of the operation.
pub record ListOps (L O I Q T : Type 0) : Type 0 where
  pub get_key : O → Text
  pub set_repo : L → L
  pub load_obj : O → Bool → L → ListRun L I
  pub add : O → Bool → L → ListRun L I
  pub add_key : Text → L → ListRun L I
  pub del_key : Text → L → ListRun L I
  pub mod_obj : O → Bool → L → ListRun L I
  pub load_xml_str : Text → L → ListRun L Bool
  pub load_xml_doc : Text → L → ListRun L Bool
  pub add_loaded_objects : L → ListRun L Bool
  pub save_xml_doc : Text → L → ListRun L (Unit {0})
  pub save : L → ListRun L (Unit {0})
  pub xml : L → ListRun L Text
  pub shell_xml : L → ListRun L Text
  pub load : L → ListRun L Bool
  pub unload : L → ListRun L Bool
  pub disconnect_all : L → ListRun L (Unit {0})
  pub query : Q → L → ListRun L I
  pub query_lock : Q → L → ListRun L I
  pub query_key : Text → L → ListRun L I
  pub query_key_lock : Text → L → ListRun L I
  pub query_name : Text → L → ListRun L I
  pub query_name_lock : Text → L → ListRun L I
  pub query_type_lock : T → L → ListRun L (List I)
  pub begin : L → I
  pub list_end : L → I
  pub same_iterator : I → I → Bool
  pub is_end : I → Bool
  pub on_element : I → Bool
  pub no_iterator : I

-- `readers` and `writer`: the holds on `rw_lock`. `lists` is the std::map, in the order of its keys.
pub record Repository (L : Type 0) : Type 0 where
  pub lists : List (ℤ × L)
  pub readers : ℕ
  pub writer : Bool
  pub cancel : Option Bool

-- How a call ends; `undefined`: a lock that is not held is given back.
pub data Run (L A : Type 0) : Type 0 where
  done : Repository L → Result A → Run L A
  blocked undefined : Run L A

abbrev pub Cmd : Type 0 → Type 0 → Type 0
Cmd L A = Repository L → Run L A

module _ {L : Type 0} where
  abbrev pub pure : {A : Type 0} → A → Cmd L A
  pure a r = done r (ok a)

  abbrev pub throw : {A : Type 0} → Exception → Cmd L A
  throw e r = done r (err e)

  abbrev pub and_then : {A B : Type 0} → Run L A → (A → Cmd L B) → Run L B
  and_then (done r (ok a)) k = k a r
  and_then (done r (err e)) k = done r (err e)
  and_then blocked k = blocked
  and_then undefined k = undefined

  infixl 5 ◌>>=◌ ◌>>◌
  abbrev pub ◌>>=◌ : {A B : Type 0} → Cmd L A → (A → Cmd L B) → Cmd L B
  m >>= k = λ r. and_then (m r) k

  abbrev pub ◌>>◌ : {A B : Type 0} → Cmd L A → Cmd L B → Cmd L B
  m >> k = m >>= λ _. k

  abbrev pub or_catch : {A : Type 0} → Run L A → (Exception → Cmd L A) → Run L A
  or_catch (done r (ok a)) k = done r (ok a)
  or_catch (done r (err e)) k = k e r
  or_catch blocked k = blocked
  or_catch undefined k = undefined

  abbrev pub try_catch : {A : Type 0} → Cmd L A → (Exception → Cmd L A) → Cmd L A
  try_catch m k r = or_catch (m r) k

  unfoldable pub rdlock : Cmd L (Unit {0})
  rdlock r = if r.writer then blocked else done (record r { readers = r.readers + 1 }) (ok tt)

  unfoldable pub wrlock : Cmd L (Unit {0})
  wrlock r =
      if r.writer
      then blocked
      else if r.readers == 0
      then done (record r { writer = true }) (ok tt)
      else blocked

  unfoldable pub unlock : Cmd L (Unit {0})
  unlock r =
      if r.writer
      then done (record r { writer = false }) (ok tt)
      else if r.readers == 0
      then undefined
      else done (record r { readers = r.readers - 1 }) (ok tt)

  unfoldable pub lookup : ℤ → List (ℤ × L) → Option L
  lookup id [] = none
  lookup id ((k, l) ∷ rest) = if eqb_ℤ k id then some l else lookup id rest

  -- `repo[listID] = xolist` for a key that is not there.
  unfoldable pub insert : ℤ → L → List (ℤ × L) → List (ℤ × L)
  insert id l [] = (id, l) ∷ []
  insert id l ((k, m) ∷ rest) =
      if ltb_ℤ id k then (id, l) ∷ (k, m) ∷ rest else (k, m) ∷ insert id l rest

  unfoldable pub replaced : ℤ → L → List (ℤ × L) → List (ℤ × L)
  replaced id l [] = []
  replaced id l ((k, m) ∷ rest) = if eqb_ℤ k id then (k, l) ∷ rest else (k, m) ∷ replaced id l rest

  unfoldable pub erased : ℤ → List (ℤ × L) → List (ℤ × L)
  erased id [] = []
  erased id ((k, m) ∷ rest) = if eqb_ℤ k id then rest else (k, m) ∷ erased id rest

  abbrev found_list : Option L → Cmd L L
  found_list none =
      throw (exception (text "Object List doesn't exist !") (trace_point "xobject" "findList"))
  found_list (some l) = pure l

  unfoldable pub find_list : ℤ → Cmd L L
  unfolding lookup
  find_list id r = found_list (lookup id r.lists) r

  abbrev pub after_call : {A : Type 0} → ℤ → ListRun L A → Cmd L A
  after_call id (ended l res) r = done (record r { lists = replaced id l r.lists }) res
  after_call id waits r = blocked

  -- `iter->second->op(...)` on the list that `findList` found.
  unfoldable pub on_list : {A : Type 0} → ℤ → (L → ListRun L A) → Cmd L A
  unfolding find_list replaced
  on_list id op = find_list id >>= λ l. after_call id (op l)

  unfoldable pub cancel_loading : Repository L → Bool
  cancel_loading r = elim r.cancel [ none ↦ false | some b ↦ b ]

  abbrev pub rethrow : {A : Type 0} → String → String → Exception → Cmd L A
  rethrow system fn e = unlock >> throw (add_trace_point (trace_point system fn) e)

  -- The pattern of most operations: the read lock is given back on both ways out.
  unfoldable pub read_locked : {A : Type 0} → String → String → Cmd L A → Cmd L A
  unfolding rdlock unlock
  read_locked system fn body = do
    rdlock
    result ← try_catch body (rethrow system fn)
    unlock
    pure result

  -- Without a `try`, an exception leaves the lock taken.
  unfoldable pub read_open : {A : Type 0} → Cmd L A → Cmd L A
  unfolding rdlock unlock
  read_open body = do rdlock; result ← body; unlock; pure result
