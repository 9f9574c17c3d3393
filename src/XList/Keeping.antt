-- ===== src/XList/Keeping.antt =====
-- The operations of the list (include/xlist.hpp) on a sound heap: how they end, and the invariant with
-- the iterators that there are then.
use pparam.Prelude.{
  ℕ, ◌+◌, ◌≡◌, ◌≢◌, refl, sym, Bool, true, false, none, some, List, arith, ==_iff, ==_self,
}
use pparam.XList.{sentinel, Heap, Iterator, Run, ok}
use pparam.XList.Iterators.{copy, fini, increment, decrement, iterator_at}
use pparam.XList.Operations.{prepare_node, push_back, begin, list_end, xerase_prepare}
use pparam.XList.Effects.{link_next, link_prev, bump, unbump, created, linked_last, unlinked}
use pparam.XList.Moves.{
  copy-bump, fini-unbump, increment-bump, decrement-bump, begin-bump, list_end-bump,
}
use pparam.XList.Erasing.{fresh_dead, push_back-grown, prepare_node_first, prepare_node_again}
use pparam.XList.Counts.{hit}
use pparam.XList.Contents.{Contents, removed, unlinked-Chain}
use pparam.XList.Sound.{Sound, bump-Sound, unbump-Sound}
use pparam.XList.Sound.Growing.{grown-Sound}
use pparam.XList.Sound.Unlinking.{marked, prepared, unlinked-Sound}

-- The call ends with `a`, in a heap for which `P` holds.
abbrev pub Ends : {D A : Type 0} → Run D A → A → (Heap D → Type 0) → Type 0
Ends {D} r a P = (h' : Heap D) × (r ≡ ok a h') × P h'

abbrev pub plus : (ℕ → ℕ) → ℕ → ℕ → ℕ
plus held p n = held n + hit p n

-- No living node dies, and one that is being erased keeps its pointers; there are `more` nodes.
pub record Frozen {D : Type 0} (more : ℕ) (h h' : Heap D) : Type 0 where
  pub fresh_grows : h'.fresh ≡ h.fresh + more
  pub alive_stays : (n : ℕ) → h.alive n ≡ true → h'.alive n ≡ true
  pub erasing_stays : (n : ℕ) → h.alive n ≡ true → h.is_erasing n ≡ true → h'.is_erasing n ≡ true
  pub next_stays : (n : ℕ) → h.alive n ≡ true → h.is_erasing n ≡ true → h'.next n ≡ h.next n
  pub prev_stays : (n : ℕ) → h.alive n ≡ true → h.is_erasing n ≡ true → h'.prev n ≡ h.prev n

usage-Frozen : {D : Type 0} (h : Heap D) (usage : ℕ → ℕ) → Frozen 0 h (record h { usage = usage })
usage-Frozen h usage = record {
  fresh_grows = omega arith;
  alive_stays = λ n l. l;
  erasing_stays = λ n l e. e;
  next_stays = λ n l e. refl;
  prev_stays = λ n l e. refl;
}

module _ {D : Type 0} (h : Heap D) (held : ℕ → ℕ) (s : Sound h held) where
  grown-Frozen : (d : D) → Frozen 1 h (linked_last h.fresh (h.prev sentinel) (created d h))
  unfolding linked_last created bump link_next link_prev
  grown-Frozen d = record {
    fresh_grows = refl;
    alive_stays = λ n l. ground arith;
    erasing_stays = λ n l e. ground (arith, ==_iff h.fresh n, s.known n l);
    next_stays = λ n l e. ground (
      arith,
      ==_iff h.fresh n,
      ==_iff (h.prev sentinel) n,
      s.known n l,
      (s.linked sentinel s.start s.start_listed).prev_listed,
    );
    prev_stays =
        λ n l e. ground (arith, ==_iff h.fresh n, ==_iff sentinel n, s.known n l, s.start_listed);
  }

  pub push_back_ends :
      (d : D) → held h.fresh ≡ 0 → Ends (push_back d h) tt (λ h'. Sound h' held × Frozen 1 h h')
  push_back_ends d unheld = (
    _,
    push_back-grown h held s d,
    (grown-Sound d h held s (fresh_dead h held s) unheld, grown-Frozen d),
  )

  pub begin_ends :
      Ends
        (begin h)
        (iterator_at (some sentinel) (some (h.next sentinel)))
        (λ h'. Sound h' (plus held (h.next sentinel)) × Frozen 0 h h')
  unfolding bump unbump
  begin_ends = (
    _,
    begin-bump h s.start (s.unlocked sentinel) (s.next_alive sentinel s.start),
    (bump-Sound (h.next sentinel) h held _ (λ n. refl) s, usage-Frozen h _),
  )

  pub list_end_ends :
      Ends
        (list_end h)
        (iterator_at (some sentinel) (some sentinel))
        (λ h'. Sound h' (plus held sentinel) × Frozen 0 h h')
  unfolding bump unbump
  list_end_ends =
      (_, list_end-bump h s.start, (bump-Sound sentinel h held _ (λ n. refl) s, usage-Frozen h _))

  module _ (it : Iterator) (p : ℕ) (on : it.node ≡ some p) (live : h.alive p ≡ true) where
    pub copy_ends :
        Ends
          (copy it h)
          (iterator_at it.list_end (some p))
          (λ h'. Sound h' (plus held p) × Frozen 0 h h')
    unfolding bump unbump
    copy_ends =
        (_, copy-bump h it p on live, (bump-Sound p h held _ (λ n. refl) s, usage-Frozen h _))

    -- `it` is one of the iterators that are counted.
    module _ (rest : ℕ → ℕ) (counts : (n : ℕ) → held n ≡ plus rest p n) where
      pub fini_ends :
          Ends
            (fini it h)
            (record it { node = none; list_end = none; locked_node = none })
            (λ h'. Sound h' rest × Frozen 0 h h')
      unfolding bump unbump
      fini_ends = (
        _,
        fini-unbump h it p on live (s.unlocked p),
        (unbump-Sound p h held rest counts s, usage-Frozen h _),
      )

      pub increment_ends :
          Ends
            (increment it h)
            (record it { node = some (h.next p); locked_node = none })
            (λ h'. Sound h' (plus rest (h.next p)) × Frozen 0 h h')
      unfolding bump unbump
      increment_ends = (
        _,
        increment-bump h it p on live (s.unlocked p) (s.next_alive p live),
        (
          bump-Sound (h.next p) (unbump p h) rest _ (λ n. refl)
              (unbump-Sound p h held rest counts s),
          usage-Frozen h _,
        ),
      )

      pub decrement_ends :
          Ends
            (decrement it h)
            (record it { node = some (h.prev p); locked_node = none })
            (λ h'. Sound h' (plus rest (h.prev p)) × Frozen 0 h h')
      unfolding bump unbump
      decrement_ends = (
        _,
        decrement-bump h it p on live (s.unlocked p) (s.prev_alive p live),
        (
          bump-Sound (h.prev p) (unbump p h) rest _ (λ n. refl)
              (unbump-Sound p h held rest counts s),
          usage-Frozen h _,
        ),
      )

    -- What the copy that `xerase_prepare` is given does to the heap, and its end.
    by_value_prepare :
        (done : Bool) (g : Heap D)
        → prepare_node p (bump p h) ≡ ok done g
        → g.alive p ≡ true
        → g.locked p ≡ false
        → xerase_prepare it h ≡ ok done (unbump p g)
    unfolding xerase_prepare
    by_value_prepare done g e live_g free =
        let pos = iterator_at it.list_end (some p) in
        simp (copy-bump h it p on live, e, fini-unbump g pos p refl live_g free)

    module _ (listed : h.is_erasing p ≡ false) (inner : p ≢ sentinel) where
      pub xerase_prepare_first : xerase_prepare it h ≡ ok true (prepared p h)
      unfolding prepared marked bump unlinked unbump
      xerase_prepare_first =
          let copied = bump-Sound p h held _ (λ n. refl) s in
          by_value_prepare true (unlinked p (marked p (bump p h)))
            (prepare_node_first (bump p h) (plus held p) copied p live listed) live (s.unlocked p)

      pub prepared-Sound : Sound (prepared p h) held
      unfolding prepared bump
      prepared-Sound =
          let copied = bump-Sound p h held (plus held p) (λ n. refl) s in
          unbump-Sound p _ (plus held p) held (λ n. refl)
            (unlinked-Sound p (bump p h) (plus held p) copied live listed inner)

      pub prepared-Contents : (xs : List ℕ) → Contents h xs → Contents (prepared p h) (removed p xs)
      unfolding prepared bump unbump unlinked marked
      prepared-Contents xs c =
          let copied = bump-Sound p h held (plus held p) (λ n. refl) s in
          unlinked-Chain (bump p h) (plus held p) copied p live listed inner sentinel xs
            (λ e. inner (sym e)) s.start s.start_listed c

      prepared-Frozen : Frozen 0 h (prepared p h)
      unfolding prepared
      prepared-Frozen = record {
        fresh_grows = omega arith;
        alive_stays = λ n l. l;
        erasing_stays = λ n l e. ground arith;
        next_stays =
            λ n l e. ground (arith, ==_iff (h.prev p) n, (s.linked p live listed).prev_listed);
        prev_stays =
            λ n l e. ground (arith, ==_iff (h.next p) n, (s.linked p live listed).next_listed);
      }

      pub xerase_prepare_ends :
          Ends
            (xerase_prepare it h)
            true
            (λ h'. Sound h' held × Frozen 0 h h' × (h'.is_erasing p ≡ true))
      unfolding prepared
      xerase_prepare_ends =
          (_, xerase_prepare_first, (prepared-Sound, prepared-Frozen, ground (arith, ==_self p)))

    pub xerase_prepare_again :
        h.is_erasing p ≡ true
        → Ends (xerase_prepare it h) false (λ h'. Sound h' held × Frozen 0 h h')
    unfolding bump unbump
    xerase_prepare_again listed =
        let copied = bump-Sound p h held (plus held p) (λ n. refl) s in
        (
          _,
          by_value_prepare false (bump p h)
              (prepare_node_again (bump p h) (plus held p) copied p live listed) live
              (s.unlocked p),
          (unbump-Sound p (bump p h) (plus held p) held (λ n. refl) copied, usage-Frozen h _),
        )
