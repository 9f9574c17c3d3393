-- ===== src/XList.antt =====
-- The concurrent list (include/xlist.hpp): nodes that count the pointers and the iterators on
-- them, iterators that take and give back such a usage, and the list's ring of nodes around the
-- sentinel `_M_impl._M_node`. The heap holds each field of the nodes as a function of the
-- address. A call is one step of a thread; a mutex that is taken and a destructor that waits for
-- `usageNO` stop it as `blocked`, and an access to a destroyed node or through NULL is a `fault`.
pub mod Counts
pub mod Effects
pub mod Erase
pub mod Linking
pub mod Moves
pub mod Contents
pub mod Copying
pub mod Destroying
pub mod Erasing
pub mod Keeping
pub mod Refinement
pub mod Sound
pub mod World
pub mod Iterators
pub mod Operations
use pparam.Prelude.{
  ℕ, zero, suc, ◌+◌, ◌-◌, ◌%◌, ◌^◌, Bool, true, false, Option, none, some, List, [], ◌∷◌, ◌++◌,
  ◌==◌, if◌then◌else◌,
}

-- The address of the sentinel, which every list has.
abbrev pub sentinel : ℕ
sentinel = 0

abbrev pub uint_mod : ℕ
uint_mod = 2 ^ 32

abbrev pub update {ℓ} : {A : Type ℓ} → (ℕ → A) → ℕ → A → ℕ → A
update f p v q = if p == q then v else f q

-- `fresh` is the address that the allocator gives next.
pub record Heap (D : Type 0) : Type 0 where
  pub next : ℕ → ℕ
  pub prev : ℕ → ℕ
  pub usage : ℕ → ℕ
  pub is_erasing : ℕ → Bool
  pub locked : ℕ → Bool
  pub alive : ℕ → Bool
  pub value : ℕ → Option D
  pub fresh : ℕ

pub record Iterator : Type 0 where
  pub node : Option ℕ
  pub list_end : Option ℕ
  pub locked_node : Option ℕ

pub data Run (D A : Type 0) : Type 0 where
  ok : A → Heap D → Run D A
  blocked fault out_of_fuel : Run D A

abbrev pub Cmd : Type 0 → Type 0 → Type 0
Cmd D A = Heap D → Run D A

module _ {D : Type 0} where
  abbrev pub pure : {A : Type 0} → A → Cmd D A
  pure = ok

  abbrev pub and_then : {A B : Type 0} → Run D A → (A → Cmd D B) → Run D B
  and_then (ok a h) k = k a h
  and_then blocked k = blocked
  and_then fault k = fault
  and_then out_of_fuel k = out_of_fuel

  infixl 5 ◌>>=◌ ◌>>◌
  abbrev pub ◌>>=◌ : {A B : Type 0} → Cmd D A → (A → Cmd D B) → Cmd D B
  m >>= k = λ h. and_then (m h) k

  abbrev pub ◌>>◌ : {A B : Type 0} → Cmd D A → Cmd D B → Cmd D B
  m >> k = m >>= λ _. k

  -- An access to the node at `p`.
  unfoldable pub access_node : {A : Type 0} → ℕ → Cmd D A → Cmd D A
  access_node p m h = if h.alive p then m h else fault

  unfoldable pub get_next : ℕ → Cmd D ℕ
  unfolding access_node
  get_next p = access_node p λ h. ok (h.next p) h

  unfoldable pub get_prev : ℕ → Cmd D ℕ
  unfolding access_node
  get_prev p = access_node p λ h. ok (h.prev p) h

  unfoldable pub set_next : ℕ → ℕ → Cmd D (Unit {0})
  unfolding access_node
  set_next p q = access_node p λ h. ok tt (record h { next = update h.next p q })

  unfoldable pub set_prev : ℕ → ℕ → Cmd D (Unit {0})
  unfolding access_node
  set_prev p q = access_node p λ h. ok tt (record h { prev = update h.prev p q })

  -- `_XListNode_base`: the usage is an `atomic_uint`, which wraps around.
  unfoldable pub inc_usage : ℕ → Cmd D (Unit {0})
  unfolding access_node
  inc_usage p =
      access_node p λ h. ok tt (record h { usage = update h.usage p ((h.usage p + 1) % uint_mod) })

  unfoldable pub dec_usage : ℕ → Cmd D (Unit {0})
  unfolding access_node
  dec_usage p =
      access_node p
        λ h. ok tt (record h { usage = update h.usage p ((h.usage p + uint_mod - 1) % uint_mod) })

  unfoldable pub lock : ℕ → Cmd D (Unit {0})
  unfolding access_node
  lock p =
      access_node p
        λ h. if h.locked p then blocked else ok tt (record h { locked = update h.locked p true })

  unfoldable pub unlock : ℕ → Cmd D (Unit {0})
  unfolding access_node
  unlock p = access_node p λ h. ok tt (record h { locked = update h.locked p false })

  unfoldable pub erasing : ℕ → Cmd D Bool
  unfolding access_node
  erasing p = access_node p λ h.
      if h.is_erasing p
      then ok false h
      else ok true (record h { is_erasing = update h.is_erasing p true })

  abbrev pub on_some : Option ℕ → (ℕ → Cmd D (Unit {0})) → Cmd D (Unit {0})
  on_some none f = pure tt
  on_some (some p) f = f p

  unfoldable pub ch_next_prev : ℕ → Option ℕ → Option ℕ → Cmd D (Unit {0})
  unfolding lock unlock set_next set_prev
  ch_next_prev p next prev = do
    lock p
    on_some next (set_next p)
    on_some prev (set_prev p)
    unlock p

  -- The wait of `pthread_cond_wait` gives the lock back, and ends when others have let the node go.
  unfoldable pub wait_for_usage : ℕ → Cmd D (Unit {0})
  unfolding access_node lock unlock
  wait_for_usage p = do
    lock p
    access_node p λ h. if h.usage p == 0 then ok tt h else blocked
    unlock p

  -- `~XListNode`; `xerase` calls it and leaves the memory allocated.
  unfoldable pub destroy : ℕ → Cmd D (Unit {0})
  unfolding access_node wait_for_usage
  destroy p = do
    wait_for_usage p
    access_node p λ h. ok tt (record h { alive = update h.alive p false })

  -- `_M_create_node`: a node that is linked to itself, with no usage.
  unfoldable pub create_node : D → Cmd D ℕ
  create_node val h =
      let p = h.fresh in
      ok p (record {
        next = update h.next p p;
        prev = update h.prev p p;
        usage = update h.usage p 0;
        is_erasing = update h.is_erasing p false;
        locked = update h.locked p false;
        alive = update h.alive p true;
        value = update h.value p (some val);
        fresh = p + 1;
      })
