-- ===== src/XList/Iterators.antt =====
-- `XListIterator` (include/xlist.hpp): every method, as a function from the iterator to the
-- iterator that it leaves behind. `lockedNode` remembers which node's lock was taken.
use pparam.Prelude.{ℕ, Bool, Option, none, some, ◌==◌, true, false, not, ◌&&◌}
use pparam.XList.{
  Iterator, fault, Cmd, pure, ◌>>=◌, ◌>>◌, on_some, access_node, get_next, get_prev, inc_usage,
  dec_usage, lock, unlock,
}

-- The default constructor.
abbrev pub null_iterator : Iterator
null_iterator = record { node = none; list_end = none; locked_node = none }

abbrev pub iterator_at : Option ℕ → Option ℕ → Iterator
iterator_at list_end x = record { node = x; list_end = list_end; locked_node = none }

unfoldable pub same_node : Option ℕ → Option ℕ → Bool
same_node none none = true
same_node none (some q) = false
same_node (some p) none = false
same_node (some p) (some q) = p == q

module _ {D : Type 0} where
  abbrev pub lock_at : Option ℕ → Iterator → Cmd D Iterator
  lock_at none it = pure it
  lock_at (some p) it = lock p >> pure (record it { locked_node = some p })

  unfoldable pub lock_node : Iterator → Cmd D Iterator
  unfolding lock
  lock_node it = lock_at it.node it

  abbrev pub unlock_at : Option ℕ → Iterator → Cmd D Iterator
  unlock_at none it = pure it
  unlock_at (some p) it = unlock p >> pure (record it { locked_node = none })

  unfoldable pub unlock_node : Iterator → Cmd D Iterator
  unfolding unlock
  unlock_node it = unlock_at it.locked_node it

  unfoldable pub release : Iterator → Cmd D (Unit {0})
  unfolding dec_usage
  release it = on_some it.node dec_usage

  unfoldable pub access : Iterator → Cmd D (Unit {0})
  unfolding inc_usage
  access it = on_some it.node inc_usage

  -- The constructor from the end and a node.
  unfoldable pub make : Option ℕ → Option ℕ → Cmd D Iterator
  unfolding access
  make list_end x = let it = iterator_at list_end x in access it >> pure it

  -- The copy constructor.
  unfoldable pub copy : Iterator → Cmd D Iterator
  unfolding access
  copy xiter = let it = iterator_at xiter.list_end xiter.node in access it >> pure it

  -- Reading a member of `*_M_node`; through NULL it is a fault.
  unfoldable pub through : {A : Type 0} → Option ℕ → (ℕ → Cmd D A) → Cmd D A
  through none f = λ _. fault
  through (some p) f = f p

  abbrev pub content_of : Option D → Cmd D D
  content_of none = λ _. fault
  content_of (some d) = pure d

  unfoldable pub deref : Iterator → Cmd D D
  unfolding through access_node
  deref it = through it.node λ p. access_node p λ h. content_of (h.value p) h

  -- `++it`.
  unfoldable pub increment : Iterator → Cmd D Iterator
  unfolding lock_node unlock_node release access through get_next
  increment it = do
    it₁ ← lock_node it
    release it₁
    q ← through it₁.node get_next
    let it₂ = record it₁ { node = some q }
    access it₂
    unlock_node it₂

  -- `--it`.
  unfoldable pub decrement : Iterator → Cmd D Iterator
  unfolding lock_node unlock_node release access through get_prev
  decrement it = do
    it₁ ← lock_node it
    release it₁
    q ← through it₁.node get_prev
    let it₂ = record it₁ { node = some q }
    access it₂
    unlock_node it₂

  -- `it++`: the moved iterator, and the copy that is returned.
  unfoldable pub post_increment : Iterator → Cmd D (Iterator × Iterator)
  unfolding lock_node unlock_node release access copy through get_next
  post_increment it = do
    it₁ ← lock_node it
    release it₁
    tmp ← copy it₁
    q ← through it₁.node get_next
    let it₂ = record it₁ { node = some q }
    access it₂
    it₃ ← unlock_node it₂
    pure (it₃, tmp)

  -- `it--`.
  unfoldable pub post_decrement : Iterator → Cmd D (Iterator × Iterator)
  unfolding lock_node unlock_node release access copy through get_prev
  post_decrement it = do
    it₁ ← lock_node it
    release it₁
    tmp ← copy it₁
    q ← through it₁.node get_prev
    let it₂ = record it₁ { node = some q }
    access it₂
    it₃ ← unlock_node it₂
    pure (it₃, tmp)

  -- `it = rvalue`.
  unfoldable pub assign : Iterator → Iterator → Cmd D Iterator
  unfolding lock_node unlock_node release access
  assign it rvalue = do
    it₁ ← lock_node it
    release it₁
    it₂ ← unlock_node it₁
    let it₃ = record it₂ { node = rvalue.node; list_end = rvalue.list_end }
    access it₃
    pure it₃

  -- `fini`, which is also the destructor.
  unfoldable pub fini : Iterator → Cmd D Iterator
  unfolding lock_node unlock_node release
  fini it = do
    it₁ ← lock_node it
    release it₁
    it₂ ← unlock_node it₁
    pure (record it₂ { node = none; list_end = none })

unfoldable pub equals : Iterator → Iterator → Bool
unfolding same_node
equals it rvalue = same_node it.node rvalue.node

unfoldable pub is_finied : Iterator → Bool
unfolding same_node
is_finied it = same_node it.node none

unfoldable pub is_end : Iterator → Bool
unfolding same_node
is_end it = same_node it.node it.list_end

unfoldable pub on_element : Iterator → Bool
unfolding same_node
on_element it = not (same_node it.node it.list_end) && not (same_node it.node none)

-- The iterator forgets its node and gives no usage back.
unfoldable pub reset : Iterator → Iterator
reset it = null_iterator
