-- ===== src/Repository/Sweeps.antt =====
-- The loops of `XObjectRepository` (include/xobject.hpp) over all lists, and `unload`: these take the
-- lock outside a `try`.
use pparam.Prelude.{
  ℕ, ◌+◌, ◌≡◌, refl, Bool, true, false, not, Option, List, [], ◌∷◌, ◌&&◌, arith, subst, Bool-cases,
  inl, inr, ◌==◌,
}
use pparam.Prelude.Int.{ℤ}
use mathlib.Core.List.{reverse}
use pparam.Exception.{ok, err}
use pparam.Repository.{
  ListRun, ListOps, Repository, Run, done, blocked, undefined, Cmd, pure, and_then, ◌>>=◌, ◌>>◌,
  rdlock, wrlock, after_call,
}
use pparam.Repository.Lists.{
  all_lists, add_loaded_objects, save_all, save, load, disconnect_lists, unload, reg_obj_list,
  unreg_obj_list,
}
use pparam.Repository.Queries.{
  search_lists, searched, query_any, query_key_any, query_name_any, find_key_any, find_name_any,
}
use pparam.Repository.Requests.{
  at, looked, Sweep, adds_all, saves_all, loads_all, asks_any, asks_key_any, asks_name_any,
  finds_key_any, finds_name_any, sweep,
}
use pparam.Repository.Balance.{
  Kept, Open, Balanced, LeftOpen, >>=-Balanced, pure-Balanced, try_catch-Balanced,
  after_call-Balanced, read_open-LeftOpen, rdlock_free,
}

module _ {L O I Q T : Type 0} (ops : ListOps L O I Q T) where
  all_lists-Balanced :
      (op : L → ListRun L Bool) (is_ok : Bool) (ls : List (ℤ × L))
      → Balanced (all_lists ops op is_ok ls)
  unfolding all_lists
  all_lists-Balanced op is_ok [] = pure-Balanced is_ok
  all_lists-Balanced op is_ok ((k, l) ∷ rest) =
      >>=-Balanced (after_call k (op l)) _ (after_call-Balanced k (op l))
        (λ b. all_lists-Balanced op (b && is_ok) rest)

  save_all-Balanced : (ls : List (ℤ × L)) → Balanced (save_all ops ls)
  unfolding save_all
  save_all-Balanced [] = pure-Balanced tt
  save_all-Balanced ((k, l) ∷ rest) =
      >>=-Balanced _ _
        (try_catch-Balanced (after_call k (ops.save l)) _ (after_call-Balanced k (ops.save l))
          (λ e r. (refl, refl)))
        (λ _. save_all-Balanced rest)

  disconnect_lists-Balanced : (ls : List (ℤ × L)) → Balanced (disconnect_lists ops ls)
  unfolding disconnect_lists
  disconnect_lists-Balanced [] = pure-Balanced tt
  disconnect_lists-Balanced ((k, l) ∷ rest) =
      >>=-Balanced (after_call k (ops.disconnect_all l)) _
        (after_call-Balanced k (ops.disconnect_all l)) (λ _. disconnect_lists-Balanced rest)

  stop_or_go :
      (b : Bool) (i : I) (m : Cmd L (Bool × I))
      → Balanced m
      → Balanced (elim b [ true ↦ pure (true, i) | false ↦ m ])
  stop_or_go true i m h = λ r. (refl, refl)
  stop_or_go false i m h = h

  search_lists-Balanced :
      (op : L → ListRun L I) (stop : L → I → Bool) (last : I) (ls : List (ℤ × L))
      → Balanced (search_lists ops op stop last ls)
  unfolding search_lists
  search_lists-Balanced op stop last [] = λ r. (refl, refl)
  search_lists-Balanced op stop last ((k, l) ∷ rest) =
      >>=-Balanced (after_call k (op l)) _ (after_call-Balanced k (op l)) (λ i.
        stop_or_go (stop l i) i (search_lists ops op stop i rest)
          (search_lists-Balanced op stop i rest))

  and_then-Open :
      {A B : Type 0} (x : Run L A) (f : A → B) (n : ℕ) (w : Bool)
      → Open n w x
      → Open n w (and_then x (λ a. pure (f a)))
  and_then-Open (done r (ok a)) f n w h = h
  and_then-Open (done r (err e)) f n w h = h
  and_then-Open blocked f n w h = tt
  and_then-Open undefined f n w h = h

  answered_open :
      {A B : Type 0} (m : Cmd L A) (f : A → B) → LeftOpen m → LeftOpen (m >>= λ a. pure (f a))
  answered_open m f h r = and_then-Open (m r) f r.readers r.writer (h r)

  searched-LeftOpen : (op : L → ListRun L I) (stop : L → I → Bool) → LeftOpen (searched ops op stop)
  unfolding searched
  searched-LeftOpen op stop =
      read_open-LeftOpen _ (λ r. search_lists-Balanced op stop ops.no_iterator r.lists r)

  iterator_open :
      (op : L → ListRun L I) (stop : L → I → Bool)
      → LeftOpen (searched ops op stop >>= λ (found, objiter). pure objiter)
  iterator_open op stop =
      answered_open (searched ops op stop) (λ p. p.1) (searched-LeftOpen op stop)

  -- A loop over all lists that returns leaves the lock as it was; one that ends by an exception of a list leaves
  -- it taken once more for reading.
  pub sweep-LeftOpen : (q : Sweep Q) → LeftOpen (sweep ops q)
  unfolding sweep add_loaded_objects save load query_any query_key_any query_name_any find_key_any
      find_name_any
  sweep-LeftOpen adds_all =
      answered_open _ _
        (read_open-LeftOpen _ (λ r. all_lists-Balanced ops.add_loaded_objects true r.lists r))
  sweep-LeftOpen saves_all =
      answered_open _ _ (read_open-LeftOpen _ (λ r. save_all-Balanced r.lists r))
  sweep-LeftOpen loads_all = answered_open _ _ (
      read_open-LeftOpen _ (
        >>=-Balanced _ _ (λ r. all_lists-Balanced ops.load true r.lists r)
          (λ is_ok r. all_lists-Balanced ops.add_loaded_objects is_ok r.lists r)))
  sweep-LeftOpen (asks_any q) =
      answered_open (query_any ops q) at
        (iterator_open (ops.query_lock q) (λ (l : L) (i : I). ops.on_element i))
  sweep-LeftOpen (asks_key_any key) =
      answered_open (query_key_any ops key) (λ (b, i). looked b i)
        (searched-LeftOpen (ops.query_key_lock key)
          (λ (l : L) (i : I). not (ops.same_iterator i (ops.list_end l))))
  sweep-LeftOpen (asks_name_any name) =
      answered_open (query_name_any ops name) (λ (b, i). looked b i)
        (searched-LeftOpen (ops.query_name_lock name) (λ (l : L) (i : I). not (ops.is_end i)))
  sweep-LeftOpen (finds_key_any key) =
      answered_open (find_key_any ops key) at
        (iterator_open (ops.query_key_lock key) (λ (l : L) (i : I). not (ops.is_end i)))
  sweep-LeftOpen (finds_name_any name) =
      answered_open (find_name_any ops name) at
        (iterator_open (ops.query_name_lock name) (λ (l : L) (i : I). not (ops.is_end i)))

  -- The holds after `unload`: two more if it returns.
  abbrev Leaked : {A : Type 0} → ℕ → Run L A → Type 0
  Leaked n (done r (ok a)) = (r.readers ≡ n + 2) × (r.writer ≡ false)
  Leaked n (done r (err e)) = (r.readers ≡ n + 1) × (r.writer ≡ false)
  Leaked n blocked = Unit {0}
  Leaked n undefined = ⊥

  relocked :
      (x : Run L Bool) (n : ℕ)
      → Kept (n + 1) false x
      → Leaked n (and_then x (λ b. rdlock >> pure b))
  relocked (done r (ok b)) n h = rw (rdlock_free r h.1) (omega arith, h.1)
  relocked (done r (err e)) n h = h
  relocked blocked n h = tt
  relocked undefined n h = h

  unload-Leaked : (r : Repository L) → Leaked r.readers (unload ops r)
  unfolding unload
  unload-Leaked r = elim (Bool-cases r.writer) [
    | inl writing ↦ simp (writing) tt
    | inr free ↦
        let locked : Repository L = record {
          lists = r.lists;
          readers = r.readers + 1;
          writer = false;
          cancel = r.cancel;
        } in
        let body : Cmd L Bool =
          (λ g. disconnect_lists ops (reverse g.lists) g)
          >> (λ g. all_lists ops ops.unload true (reverse g.lists) g) in
        let kept =
          >>=-Balanced (λ g. disconnect_lists ops (reverse g.lists) g) _
            (λ g. disconnect_lists-Balanced (reverse g.lists) g)
            (λ _ g. all_lists-Balanced ops.unload true (reverse g.lists) g) locked in
        simp (free) (relocked (body locked) r.readers kept)
  ]

  wrlock_read :
      (r : Repository L) (n : ℕ) → r.readers ≡ n + 2 → r.writer ≡ false → wrlock r ≡ blocked
  unfolding wrlock
  wrlock_read r n h w = let read : (r.readers == 0) ≡ false = ground arith in simp (w, read)

  -- After an `unload` that returned, the lock is held for reading twice more than before, and
  -- registering and unregistering a list wait.
  pub unload_blocks :
      (r r' : Repository L) (b : Bool) (id : ℤ) (given : Option L) (made : L)
      → unload ops r ≡ done r' (ok b)
      → (r'.readers ≡ r.readers + 2)
        × (reg_obj_list ops id given made r' ≡ blocked)
        × (unreg_obj_list ops id r' ≡ blocked)
  unfolding reg_obj_list unreg_obj_list
  unload_blocks r r' b id given made e =
      let leaked : Leaked r.readers (done r' (ok b)) =
        subst (Leaked r.readers) e (unload-Leaked r) in
      let stuck = wrlock_read r' r.readers leaked.0 leaked.1 in
      (leaked.0, simp (stuck), simp (stuck))
