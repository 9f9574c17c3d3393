-- ===== src/Repository/Balance.antt =====
-- The balance of the repository's lock (include/xobject.hpp, `rw_lock` of XObjectRepository): how
-- often it is held after a command, when the command returns and when it throws.
use pparam.Prelude.{
  ℕ, ◌+◌, ◌-◌, ◌≡◌, refl, Bool, true, false, Option, none, some, arith, String, ◌==◌, subst,
  Bool-cases, inl, inr,
}
use pparam.Prelude.Int.{ℤ}
use pparam.Exception.{Exception, ok, err}
use pparam.Repository.{
  ListRun, ended, waits, Repository, Run, done, blocked, undefined, Cmd, pure, throw, and_then,
  or_catch, try_catch, ◌>>=◌, ◌>>◌, rdlock, unlock, lookup, found_list, find_list, after_call,
  on_list, rethrow, read_locked, read_open,
}

module _ {L : Type 0} where
  -- The lock is held `n` times for reading and, if `w`, for writing, however the run ends; no lock is
  -- given back that is not held.
  abbrev pub Kept : {A : Type 0} → ℕ → Bool → Run L A → Type 0
  Kept n w (done r res) = (r.readers ≡ n) × (r.writer ≡ w)
  Kept n w blocked = Unit {0}
  Kept n w undefined = ⊥

  -- After an exception the lock is held for reading once more than before.
  abbrev pub Open : {A : Type 0} → ℕ → Bool → Run L A → Type 0
  Open n w (done r (ok a)) = (r.readers ≡ n) × (r.writer ≡ w)
  Open n w (done r (err e)) = (r.readers ≡ n + 1) × (r.writer ≡ w)
  Open n w blocked = Unit {0}
  Open n w undefined = ⊥

  abbrev pub Balanced : {A : Type 0} → Cmd L A → Type 0
  Balanced m = (r : Repository L) → Kept r.readers r.writer (m r)

  abbrev pub LeftOpen : {A : Type 0} → Cmd L A → Type 0
  LeftOpen m = (r : Repository L) → Open r.readers r.writer (m r)

  pub and_then-Kept :
      {A B : Type 0} (x : Run L A) (f : A → Cmd L B) (n : ℕ) (w : Bool)
      → Kept n w x
      → ((a : A) → Balanced (f a))
      → Kept n w (and_then x f)
  and_then-Kept (done r (ok a)) f n w h k =
      subst (λ (m : ℕ). Kept m w (f a r)) h.0
        (subst (λ (v : Bool). Kept r.readers v (f a r)) h.1 (k a r))
  and_then-Kept (done r (err e)) f n w h k = h
  and_then-Kept blocked f n w h k = tt
  and_then-Kept undefined f n w h k = h

  pub >>=-Balanced :
      {A B : Type 0} (m : Cmd L A) (f : A → Cmd L B)
      → Balanced m
      → ((a : A) → Balanced (f a))
      → Balanced (m >>= f)
  >>=-Balanced m f h k r = and_then-Kept (m r) f r.readers r.writer (h r) k

  pub pure-Balanced : {A : Type 0} (a : A) → Balanced (pure a)
  pure-Balanced a r = (refl, refl)

  pub throw-Balanced : (A : Type 0) (e : Exception) → Balanced (throw {A = A} e)
  throw-Balanced A e r = (refl, refl)

  or_catch-Kept :
      {A : Type 0} (x : Run L A) (k : Exception → Cmd L A) (n : ℕ) (w : Bool)
      → Kept n w x
      → ((e : Exception) → Balanced (k e))
      → Kept n w (or_catch x k)
  or_catch-Kept (done r (ok a)) k n w h b = h
  or_catch-Kept (done r (err e)) k n w h b =
      subst (λ (m : ℕ). Kept m w (k e r)) h.0
        (subst (λ (v : Bool). Kept r.readers v (k e r)) h.1 (b e r))
  or_catch-Kept blocked k n w h b = tt
  or_catch-Kept undefined k n w h b = h

  pub try_catch-Balanced :
      {A : Type 0} (m : Cmd L A) (k : Exception → Cmd L A)
      → Balanced m
      → ((e : Exception) → Balanced (k e))
      → Balanced (try_catch m k)
  try_catch-Balanced m k h b r = or_catch-Kept (m r) k r.readers r.writer (h r) b

  found_list-Balanced : (o : Option L) → Balanced (found_list o)
  found_list-Balanced none r = (refl, refl)
  found_list-Balanced (some l) r = (refl, refl)

  pub find_list-Balanced : (id : ℤ) → Balanced (find_list id)
  unfolding find_list
  find_list-Balanced id r = found_list-Balanced (lookup id r.lists) r

  pub after_call-Balanced : {A : Type 0} (id : ℤ) (x : ListRun L A) → Balanced (after_call id x)
  after_call-Balanced id (ended l res) r = (refl, refl)
  after_call-Balanced id waits r = tt

  pub on_list-Balanced : {A : Type 0} (id : ℤ) (op : L → ListRun L A) → Balanced (on_list id op)
  unfolding on_list
  on_list-Balanced id op =
      >>=-Balanced (find_list id) (λ l. after_call id (op l)) (find_list-Balanced id)
        (λ l. after_call-Balanced id (op l))

  -- The end of a body that ran under the read lock.
  abbrev closed : {A : Type 0} → String → String → Run L A → Run L A
  closed system fn x = and_then (or_catch x (rethrow system fn)) (λ a. unlock >> pure a)

  unlock_reading :
      (r : Repository L) (n : ℕ)
      → r.readers ≡ n + 1
      → r.writer ≡ false
      → unlock r ≡ done (record r { readers = n }) (ok tt)
  unfolding unlock
  unlock_reading r n h w =
      let some_reader : (r.readers == 0) ≡ false = ground arith in
      let less : r.readers - 1 ≡ n = omega arith in simp (w, some_reader, less)

  pub unlock_writing :
      (r : Repository L) → r.writer ≡ true → unlock r ≡ done (record r { writer = false }) (ok tt)
  unfolding unlock
  unlock_writing r w = simp (w)

  closed-Kept :
      {A : Type 0} (system fn : String) (x : Run L A) (n : ℕ)
      → Kept (n + 1) false x
      → Kept n false (closed system fn x)
  closed-Kept system fn (done r (ok a)) n h = rw (unlock_reading r n h.0 h.1) (refl, h.1)
  closed-Kept system fn (done r (err e)) n h = rw (unlock_reading r n h.0 h.1) (refl, h.1)
  closed-Kept system fn blocked n h = tt
  closed-Kept system fn undefined n h = h

  reader_done :
      {A : Type 0} (x : Run L A) (n : ℕ)
      → Kept (n + 1) false x
      → Open n false (and_then x (λ a. unlock >> pure a))
  reader_done (done r (ok a)) n h = rw (unlock_reading r n h.0 h.1) (refl, h.1)
  reader_done (done r (err e)) n h = h
  reader_done blocked n h = tt
  reader_done undefined n h = h

  pub rdlock_free :
      (r : Repository L)
      → r.writer ≡ false
      → rdlock r ≡ done (record r { readers = r.readers + 1 }) (ok tt)
  unfolding rdlock
  rdlock_free r w = simp (w)

  -- A body that leaves the lock alone, in the usual pattern.
  pub read_locked-Balanced :
      {A : Type 0} (system fn : String) (body : Cmd L A)
      → Balanced body
      → Balanced (read_locked system fn body)
  unfolding read_locked
  read_locked-Balanced system fn body h r = elim (Bool-cases r.writer) [
    | inl writing ↦ simp (writing) tt
    | inr free ↦
        let locked : Repository L = record {
          lists = r.lists;
          readers = r.readers + 1;
          writer = false;
          cancel = r.cancel;
        } in
        simp (free) (closed-Kept system fn (body locked) r.readers (h locked))
  ]

  pub read_open-LeftOpen : {A : Type 0} (body : Cmd L A) → Balanced body → LeftOpen (read_open body)
  unfolding read_open
  read_open-LeftOpen body h r = elim (Bool-cases r.writer) [
    | inl writing ↦ simp (writing) tt
    | inr free ↦
        let locked : Repository L = record {
          lists = r.lists;
          readers = r.readers + 1;
          writer = false;
          cancel = r.cancel;
        } in
        simp (free) (reader_done (body locked) r.readers (h locked))
  ]
