-- ===== src/Repository/Queries.antt =====
-- The queries of `XObjectRepository` (include/xobject.hpp). `_lock` takes the lock of the
-- repository, `_locklst` the one of the list.
use pparam.Prelude.{Bool, true, false, not, List, [], ◌∷◌, Text, String}
use pparam.Prelude.Int.{ℤ}
use pparam.Exception.{trace_point, add_trace_point}
use pparam.Repository.{
  ListRun, ListOps, Cmd, pure, throw, try_catch, ◌>>=◌, find_list, after_call, on_list, read_locked,
  read_open,
}

module _ {L O I Q T : Type 0} (ops : ListOps L O I Q T) where
  abbrev pub traced : {A : Type 0} → String → Cmd L A → Cmd L A
  traced fn body = try_catch body λ e. throw (add_trace_point (trace_point "xobject" fn) e)

  unfoldable pub query : ℤ → Q → Cmd L I
  unfolding on_list
  query id q = traced "query" (on_list id (ops.query q))

  unfoldable pub query_lock : ℤ → Q → Cmd L I
  unfolding read_locked query
  query_lock id q = read_locked "xobject" "query_lock" (query id q)

  unfoldable pub query_lock_locklst : ℤ → Q → Cmd L I
  unfolding read_locked on_list
  query_lock_locklst id q =
      read_locked "xobject" "query_lock_locklst" (on_list id (ops.query_lock q))

  unfoldable pub query_key : ℤ → Text → Cmd L I
  unfolding on_list
  query_key id objkey = traced "query" (on_list id (ops.query_key objkey))

  unfoldable pub query_name : ℤ → Text → Cmd L I
  unfolding find_list
  query_name id name =
      traced "query_name" (find_list id) >>= λ l. after_call id (ops.query_name name l)

  unfoldable pub query_key_lock : ℤ → Text → Cmd L I
  unfolding read_locked query_key
  query_key_lock id objkey = read_locked "xobject" "query_lock" (query_key id objkey)

  unfoldable pub query_name_lock : ℤ → Text → Cmd L I
  unfolding read_locked query_name
  query_name_lock id name = read_locked "xobject" "query_name_lock" (query_name id name)

  unfoldable pub query_locklst : ℤ → Text → Cmd L I
  unfolding on_list
  query_locklst id objkey = traced "query_locklst" (on_list id (ops.query_key_lock objkey))

  unfoldable pub query_key_lock_locklst : ℤ → Text → Cmd L I
  unfolding read_locked query_locklst
  query_key_lock_locklst id objkey =
      read_locked "xobject" "query_lock_locklst" (query_locklst id objkey)

  -- The loop over the lists: the first iterator that `stop` accepts, else the last one and `false`.
  unfoldable pub search_lists :
      (L → ListRun L I) → (L → I → Bool) → I → List (ℤ × L) → Cmd L (Bool × I)
  search_lists op stop last [] = pure (false, last)
  search_lists op stop last ((k, l) ∷ rest) = do
    objiter ← after_call k (op l)
    let next = search_lists op stop objiter rest
    elim (stop l objiter) [ true ↦ pure (true, objiter) | false ↦ next ]

  -- The loops stand outside a `try`.
  unfoldable pub searched : (L → ListRun L I) → (L → I → Bool) → Cmd L (Bool × I)
  unfolding read_open search_lists
  searched op stop = read_open λ r. search_lists op stop ops.no_iterator r.lists r

  unfoldable pub query_any : Q → Cmd L I
  unfolding searched
  query_any q = do
    (found, objiter) ← searched (ops.query_lock q) (λ l i. ops.on_element i)
    pure objiter

  unfoldable pub query_key_any : Text → Cmd L (Bool × I)
  unfolding searched
  query_key_any objkey =
      searched (ops.query_key_lock objkey) (λ l i. not (ops.same_iterator i (ops.list_end l)))

  unfoldable pub query_name_any : Text → Cmd L (Bool × I)
  unfolding searched
  query_name_any name = searched (ops.query_name_lock name) (λ l i. not (ops.is_end i))

  unfoldable pub find_key_any : Text → Cmd L I
  unfolding searched
  find_key_any objkey = do
    (found, objiter) ← searched (ops.query_key_lock objkey) (λ l i. not (ops.is_end i))
    pure objiter

  unfoldable pub find_name_any : Text → Cmd L I
  unfolding searched
  find_name_any name = do
    (found, objiter) ← searched (ops.query_name_lock name) (λ l i. not (ops.is_end i))
    pure objiter

  unfoldable pub query_type_locklst : ℤ → T → Cmd L (List I)
  unfolding on_list
  query_type_locklst id type = traced "query_type_locklst" (on_list id (ops.query_type_lock type))

  unfoldable pub query_type_lock_locklst : ℤ → T → Cmd L (List I)
  unfolding read_locked on_list
  query_type_lock_locklst id type =
      read_locked "xobject" "query_type_lock_locklst" (on_list id (ops.query_type_lock type))

  unfoldable pub begin : ℤ → Cmd L I
  unfolding read_locked find_list
  begin id = read_locked "xobject" "begin" (find_list id >>= λ l. pure (ops.begin l))

  unfoldable pub list_end : ℤ → Cmd L I
  unfolding read_locked find_list
  list_end id = read_locked "xobject" "end" (find_list id >>= λ l. pure (ops.list_end l))
