-- ===== src/XList/World/Invariant.antt =====
-- The invariant of a program that uses a list (include/xlist.hpp), and one call.
use mathlib.Core.Path.{fun_ext}
use pparam.Prelude.{
  ℕ, ◌+◌, ◌*◌, ◌≡◌, ◌≢◌, ◌<◌, ap, sym, ◌∙◌, subst, true, none, some, ◌==◌, arith, ==_iff,
  Option-cases, Bool-cases, inl, inr,
}
use pparam.XList.{uint_mod, update, Heap, Iterator, Run, ok}
use pparam.XList.Iterators.{null_iterator}
use pparam.XList.Keeping.{Ends, Frozen, plus}
use pparam.XList.Counts.{hit, hit_iterator, holders, holders-update}
use pparam.XList.Sound.{Sound}
use pparam.XList.World.{World, On, Free, put}

pub none_some : {A : Type 0} {a : A} → none ≢ some a
none_some e = cc

pub hit_iterator_on : (it : Iterator) (n p : ℕ) → it.node ≡ some p → hit_iterator it n ≡ hit p n
hit_iterator_on it n p on = rw on

hit_iterator_none : (it : Iterator) (n : ℕ) → it.node ≡ none → hit_iterator it n ≡ 0
hit_iterator_none it n off = rw off

-- A node that no slot's iterator is on.
pub hit_iterator-eq-zero :
    (it : Iterator) (n : ℕ) → ((p : ℕ) → it.node ≡ some p → p ≢ n) → hit_iterator it n ≡ 0
hit_iterator-eq-zero it n avoid = elim (Option-cases it.node) [
  | inl off ↦ hit_iterator_none it n off
  | inr (p, on) ↦ rw on (ground (arith, ==_iff p n, avoid p on))
]

module _ {D : Type 0} where
  pub Sound-held :
      (h : Heap D) (held held' : ℕ → ℕ)
      → ((n : ℕ) → held n ≡ held' n)
      → Sound h held
      → Sound h held'
  Sound-held h held held' same s = subst (λ (f : ℕ → ℕ). Sound h f) (fun_ext same) s

  -- A call that is known to end with `a` ends with nothing else.
  pub Ends_unique :
      {A : Type 0} (r : Run D A) (a b : A) (P : Heap D → Type 0) (g : Heap D)
      → Ends r a P
      → r ≡ ok b g
      → (b ≡ a) × P g
  Ends_unique r a b P g (h, e, p) f = let same : h ≡ g = cc in (cc, subst P same p)

  -- What is known of an erasure that waits.
  abbrev pub Waits : Heap D → (n next prev : ℕ) → Type 0
  Waits h n next prev =
      (h.alive n ≡ true) × (h.is_erasing n ≡ true) × (h.next n ≡ next) × (h.prev n ≡ prev)

  pub record Inv (k : ℕ) (w : World D) : Type 0 where
    pub sound : Sound w.heap (λ n. holders w.iter n k)
    pub on_alive : (i p : ℕ) → i < k → On w i p → w.heap.alive p ≡ true
    pub waits : (n next prev : ℕ) → w.pending n ≡ some (next, prev) → Waits w.heap n next prev
    pub few : 2 * w.heap.fresh + k < uint_mod

  pub Waits-Frozen :
      (more : ℕ) (h h' : Heap D) (n next prev : ℕ)
      → Frozen more h h'
      → Waits h n next prev
      → Waits h' n next prev
  Waits-Frozen more h h' n next prev f w = (
    f.alive_stays n w.0,
    f.erasing_stays n w.0 w.1,
    f.next_stays n w.0 w.1 ∙ w.2,
    f.prev_stays n w.0 w.1 ∙ w.3,
  )

  module _ (k : ℕ) (w : World D) (inv : Inv k w) where
    -- A call that leaves the iterators in their slots.
    pub Inv-heap :
        (more : ℕ) (h : Heap D)
        → Sound h (λ n. holders w.iter n k)
        → Frozen more w.heap h
        → 2 * (w.heap.fresh + more) + k < uint_mod
        → Inv k (record w { heap = h })
    Inv-heap more h s f few = record {
      sound = s;
      on_alive = λ i p lt on. f.alive_stays p (inv.on_alive i p lt on);
      waits = λ n next prev e. Waits-Frozen more w.heap h n next prev f (inv.waits n next prev e);
      few = omega (arith, f.fresh_grows);
    }

    -- A call that puts another iterator into a slot.
    pub Inv-put :
        (h : Heap D) (i : ℕ) (it : Iterator)
        → Sound h (λ n. holders (update w.iter i it) n k)
        → Frozen 0 w.heap h
        → ((p : ℕ) → it.node ≡ some p → h.alive p ≡ true)
        → Inv k (put w h i it)
    Inv-put h i it s f live = record {
      sound = s;
      on_alive = λ j p lt on. elim (Bool-cases (i == j)) [
        | inl e ↦
            let same : update w.iter i it j ≡ it = rw e in
            live p (sym (ap (λ (x : Iterator). x.node) same) ∙ on)
        | inr e ↦
            let same : update w.iter i it j ≡ w.iter j = rw e in
            f.alive_stays p (inv.on_alive j p lt (sym (ap (λ (x : Iterator). x.node) same) ∙ on))
      ];
      waits = λ n next prev e. Waits-Frozen 0 w.heap h n next prev f (inv.waits n next prev e);
      few = omega (arith, inv.few, f.fresh_grows);
    }

    -- The iterators on a node, without the one in slot `i`.
    abbrev pub others : ℕ → ℕ → ℕ
    others i n = holders (update w.iter i null_iterator) n k

    module _ (i : ℕ) (lt : i < k) where
      -- A free slot takes an iterator on `q`.
      pub Inv-take :
          (q : ℕ) (h : Heap D) (it : Iterator)
          → Free w i
          → it.node ≡ some q
          → w.heap.alive q ≡ true
          → Sound h (plus (λ n. holders w.iter n k) q) × Frozen 0 w.heap h
          → Inv k (put w h i it)
      Inv-take q h it free on live (s, f) =
          Inv-put h i it
            (Sound-held h _ _
              (λ n. omega (
                arith,
                holders-update w.iter n i k it lt,
                hit_iterator_none (w.iter i) n free,
                hit_iterator_on it n q on,
              ))
              s)
            f
            (λ p e.
              let same : q ≡ p = cc in
              subst (λ (x : ℕ). h.alive x ≡ true) same (f.alive_stays q live))

      module _ (p : ℕ) (on : On w i p) where
        pub others_counts : (n : ℕ) → holders w.iter n k ≡ plus (others i) p n
        others_counts n =
            omega (
              arith,
              holders-update w.iter n i k null_iterator lt,
              hit_iterator_on (w.iter i) n p on,
            )

        -- The iterator of the slot goes on to `q`.
        pub Inv-move :
            (q : ℕ) (h : Heap D) (it : Iterator)
            → it.node ≡ some q
            → w.heap.alive q ≡ true
            → Sound h (plus (others i) q) × Frozen 0 w.heap h
            → Inv k (put w h i it)
        Inv-move q h it on' live (s, f) =
            Inv-put h i it
              (Sound-held h _ _
                (λ n. omega (
                  arith,
                  holders-update w.iter n i k it lt,
                  others_counts n,
                  hit_iterator_on (w.iter i) n p on,
                  hit_iterator_on it n q on',
                ))
                s)
              f
              (λ x e.
                let same : q ≡ x = cc in
                subst (λ (y : ℕ). h.alive y ≡ true) same (f.alive_stays q live))

        -- The iterator of the slot lets its node go.
        pub Inv-drop :
            (h : Heap D) (it : Iterator)
            → it.node ≡ none
            → Sound h (others i) × Frozen 0 w.heap h
            → Inv k (put w h i it)
        Inv-drop h it off (s, f) =
            Inv-put h i it
              (Sound-held h _ _
                (λ n. omega (
                  arith,
                  holders-update w.iter n i k it lt,
                  others_counts n,
                  hit_iterator_on (w.iter i) n p on,
                  hit_iterator_none it n off,
                ))
                s)
              f (λ x e. absurd (none_some (sym off ∙ e)))
