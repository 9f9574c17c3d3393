-- ===== src/XList/Sound.antt =====
-- The invariant of a list's heap (include/xlist.hpp): the usages count the pointers and the
-- iterators, no living node points to a destroyed one, and the nodes that are not being erased
-- form doubly linked rings. `held n` is how many iterators there are on `n`.
pub mod Burying
pub mod Empty
pub mod Growing
pub mod Unlinking
use pparam.Prelude.{
  ℕ, zero, suc, ◌+◌, ◌-◌, ◌*◌, ◌%◌, ◌^◌, ◌≤◌, ◌<◌, ◌≡◌, ◌≢◌, refl, ap, ◌∙◌, sym, Bool, true, false,
  ◌==◌, if◌then◌else◌, arith, Bool-cases, inl, inr, ==_iff, ==_self,
}
use pparam.XList.{sentinel, uint_mod, update, Heap}
use pparam.XList.Effects.{
  bump, unbump, link_next, link_prev, created, buried, linked_last, unlinked, Unlocked,
}
use pparam.XList.Counts.{
  hit, up_mod, down_mod, pointers, pointers_le, pointers-update, pointers_buried, pointers_created,
  pointers_none, pointers_pos,
}

module _ {D : Type 0} where
  -- The `_M_next` and `_M_prev` of living nodes that lead to `n`.
  unfoldable pub refs : Heap D → ℕ → ℕ
  refs h n = pointers h.alive h.next n h.fresh + pointers h.alive h.prev n h.fresh

  -- The sentinel's two pointers are not counted.
  abbrev pub Counted : Heap D → (ℕ → ℕ) → ℕ → Type 0
  Counted h held n = (h.usage n + 2 * hit sentinel n) % uint_mod ≡ (refs h n + held n) % uint_mod

  pub record Links (h : Heap D) (p : ℕ) : Type 0 where
    pub next_listed : h.is_erasing (h.next p) ≡ false
    pub prev_listed : h.is_erasing (h.prev p) ≡ false
    pub prev_next : h.prev (h.next p) ≡ p
    pub next_prev : h.next (h.prev p) ≡ p

  pub record Sound (h : Heap D) (held : ℕ → ℕ) : Type 0 where
    pub unlocked : Unlocked h
    pub start : h.alive sentinel ≡ true
    pub start_listed : h.is_erasing sentinel ≡ false
    pub known : (p : ℕ) → h.alive p ≡ true → p < h.fresh
    pub next_alive : (p : ℕ) → h.alive p ≡ true → h.alive (h.next p) ≡ true
    pub prev_alive : (p : ℕ) → h.alive p ≡ true → h.alive (h.prev p) ≡ true
    pub linked : (p : ℕ) → h.alive p ≡ true → h.is_erasing p ≡ false → Links h p
    pub counted : (n : ℕ) → h.alive n ≡ true → Counted h held n

  pub bump-Sound :
      (p : ℕ) (h : Heap D) (held held' : ℕ → ℕ)
      → ((n : ℕ) → held' n ≡ held n + hit p n)
      → Sound h held
      → Sound (bump p h) held'
  unfolding bump refs
  bump-Sound p h held held' more s = record {
    unlocked = s.unlocked;
    start = s.start;
    start_listed = s.start_listed;
    known = s.known;
    next_alive = s.next_alive;
    prev_alive = s.prev_alive;
    linked = λ q live listed.
        let l = s.linked q live listed in
        record {
          next_listed = l.next_listed;
          prev_listed = l.prev_listed;
          prev_next = l.prev_next;
          next_prev = l.next_prev;
        };
    counted = λ n live. omega (arith, up_mod h.usage p n, more n, s.counted n live);
  }

  pub unbump-Sound :
      (p : ℕ) (h : Heap D) (held held' : ℕ → ℕ)
      → ((n : ℕ) → held n ≡ held' n + hit p n)
      → Sound h held
      → Sound (unbump p h) held'
  unfolding unbump refs
  unbump-Sound p h held held' more s = record {
    unlocked = s.unlocked;
    start = s.start;
    start_listed = s.start_listed;
    known = s.known;
    next_alive = s.next_alive;
    prev_alive = s.prev_alive;
    linked = λ q live listed.
        let l = s.linked q live listed in
        record {
          next_listed = l.next_listed;
          prev_listed = l.prev_listed;
          prev_next = l.prev_next;
          next_prev = l.next_prev;
        };
    counted = λ n live. omega (arith, down_mod h.usage p n, more n, s.counted n live);
  }
