-- ===== src/XList/Copying.antt =====
-- The copy constructor of the list (include/xlist.hpp), an iteration over the source that appends each
-- value to the new list.
use pparam.Prelude.{
  ℕ, zero, suc, ◌≡◌, ◌≢◌, ◌<◌, refl, ap, sym, ◌∙◌, subst, Bool, true, false, not, Option, some,
  List, [], ◌∷◌, ◌++◌, ◌==◌, arith, ==_iff, ==_self, map, length, All, append_nil,
}
use mathlib.Core.List.{map-append, append_assoc}
use pparam.XList.{access_node, sentinel, update, Heap, ok}
use pparam.XList.Iterators.{iterator_at, deref}
use pparam.XList.Operations.{push_back, not_at_end, push_to, copy_loop, copy_list, empty_list}
use pparam.XList.Effects.{bump, unbump}
use pparam.XList.Moves.{fini-unbump, increment-bump, begin-bump, list_end-bump}
use pparam.XList.Erasing.{fresh_dead}
use pparam.XList.Keeping.{Ends, plus}
use pparam.XList.Contents.{Chain, Contents, chain_listed}
use pparam.XList.Refinement.{Line, Chain-Line, push_back-Contents}
use pparam.XList.Sound.Empty.{empty_list-Sound}
use pparam.XList.Sound.{Sound, bump-Sound, unbump-Sound}

-- The nodes `xs` hold the values `ds`.
abbrev pub Values : {D : Type 0} → (ℕ → Option D) → List ℕ → List D → Type 0
Values value xs ds = map value xs ≡ map some ds

module _ {D : Type 0} where
  -- The list that a heap stands for, with its values.
  pub record Holds (h : Heap D) (xs : List ℕ) (ds : List D) : Type 0 where
    pub sound : Sound h (λ _. 0)
    pub contents : Contents h xs
    pub values : Values h.value xs ds

  -- All but the usages of the nodes is as it was, and the heap is sound with the iterators `held`.
  abbrev pub Untouched : Heap D → (ℕ → ℕ) → Heap D → Type 0
  Untouched h held h' =
      Sound h' held
      × (h'.next ≡ h.next)
      × (h'.prev ≡ h.prev)
      × (h'.value ≡ h.value)
      × (h'.alive ≡ h.alive)
      × (h'.is_erasing ≡ h.is_erasing)
      × (h'.fresh ≡ h.fresh)

  Contents_alive :
      (h : Heap D) (held : ℕ → ℕ) (s : Sound h held) (p : ℕ) (xs : List ℕ)
      → h.alive p ≡ true
      → h.is_erasing p ≡ false
      → Chain h.next p xs
      → All (λ x. h.alive x ≡ true) xs
  Contents_alive h held s p [] live listed c = tt
  Contents_alive h held s p (x ∷ xs) live listed c =
      let (live_x, listed_x) = chain_listed h held s p x live listed c.0 in
      (live_x, Contents_alive h held s x xs live_x listed_x c.2)

  map-update :
      (value : ℕ → Option D) (alive : ℕ → Bool) (f : ℕ) (v : Option D) (xs : List ℕ)
      → alive f ≡ false
      → All (λ x. alive x ≡ true) xs
      → map (update value f v) xs ≡ map value xs
  map-update value alive f v [] dead all = refl
  map-update value alive f v (x ∷ xs) dead all =
      let differ : f ≢ x = λ e. (cc) in
      let missed : (f == x) ≡ false = ground (arith, ==_iff f x) in
      rw missed
        (ap (λ (l : List (Option D)). value x ∷ l) (map-update value alive f v xs dead all.1))

  push_back-Holds :
      (t : Heap D) (ys : List ℕ) (es : List D) (d : D)
      → Holds t ys es
      → (t' : Heap D) × (push_back d t ≡ ok tt t') × Holds t' (ys ++ t.fresh ∷ []) (es ++ d ∷ [])
  push_back-Holds t ys es d holds =
      let (t', e, (s, c, v)) = push_back-Contents t (λ _. 0) holds.sound ys holds.contents d refl in
      let dead = fresh_dead t (λ _. 0) holds.sound in
      let living =
        Contents_alive t (λ _. 0) holds.sound sentinel ys holds.sound.start holds.sound.start_listed
          holds.contents in
      let same = map-update t.value t.alive t.fresh (some d) ys dead living in
      let new : update t.value t.fresh (some d) t.fresh ≡ some d = rw (==_self t.fresh) in
      (
        t',
        e,
        record {
          sound = s;
          contents = c;
          values = rw v (simp (map-append, same, holds.values, new));
        },
      )

  -- `iter != end()` leaves the heap as it was, but for a usage of the sentinel.
  compared : Heap D → Heap D
  unfolding bump unbump
  compared h = unbump sentinel (bump sentinel h)

  not_at_end_lem :
      (q : ℕ) (h : Heap D) (held : ℕ → ℕ)
      → Sound h held
      → not_at_end (iterator_at (some sentinel) (some q)) h ≡ ok (not (q == sentinel)) (compared h)
  unfolding not_at_end compared bump unbump
  not_at_end_lem q h held s = simp (
    list_end-bump h s.start,
    fini-unbump (bump sentinel h) (iterator_at (some sentinel) (some sentinel)) sentinel refl
        s.start (s.unlocked sentinel),
  )

  compared-Sound : (h : Heap D) (held : ℕ → ℕ) → Sound h held → Sound (compared h) held
  unfolding compared
  compared-Sound h held s =
      unbump-Sound sentinel (bump sentinel h) (plus held sentinel) held (λ m. refl)
        (bump-Sound sentinel h held (plus held sentinel) (λ m. refl) s)

  deref_lem :
      (q : ℕ) (h : Heap D) (d : D)
      → h.alive q ≡ true
      → h.value q ≡ some d
      → deref (iterator_at (some sentinel) (some q)) h ≡ ok d h
  unfolding deref access_node
  deref_lem q h d live value = simp (live, value)

  push_to_lem : (d : D) (t t' h : Heap D) → push_back d t ≡ ok tt t' → push_to d t h ≡ ok t' h
  unfolding push_to
  push_to_lem d t t' h e = simp (e)

  copy_loop-Holds :
      (fuel q : ℕ) (xs : List ℕ) (ds : List D) (h : Heap D) (held : ℕ → ℕ) (t : Heap D)
      (ys : List ℕ) (es : List D)
      → length xs < fuel
      → Line h.next q xs
      → Values h.value xs ds
      → h.alive q ≡ true
      → Sound h (plus held q)
      → Holds t ys es
      → (t' : Heap D) × (zs : List ℕ) × (Ends
          (copy_loop fuel (iterator_at (some sentinel) (some q)) t h)
          t'
          (Untouched h held))
        × Holds t' zs (es ++ ds)
  unfolding copy_loop compared bump unbump
  copy_loop-Holds zero q xs ds h held t ys es few line vals live s holds = absurd (omega arith)
  copy_loop-Holds (suc fuel) q [] (d ∷ ds) h held t ys es few line vals live s holds = cc
  copy_loop-Holds (suc fuel) q [] [] h held t ys es few line vals live s holds =
      let at_end : (q == sentinel) ≡ true = (==_iff q sentinel).1 line in
      let first = not_at_end_lem q h (plus held q) s in
      let s₁ = compared-Sound h (plus held q) s in
      let ended =
        fini-unbump (compared h) (iterator_at (some sentinel) (some q)) q refl live
          (s₁.unlocked q) in
      (
        t,
        ys,
        (
          unbump q (compared h),
          simp (first, at_end, ended),
          (
            unbump-Sound q (compared h) (plus held q) held (λ m. refl) s₁,
            refl,
            refl,
            refl,
            refl,
            refl,
            refl,
          ),
        ),
        rw (append_nil es) holds,
      )
  copy_loop-Holds (suc fuel) q (x ∷ xs) [] h held t ys es few line vals live s holds = cc
  copy_loop-Holds (suc fuel) q (x ∷ xs) (d ∷ ds) h held t ys es few line vals live s holds =
      let inside : (q == sentinel) ≡ false = ground (arith, ==_iff q sentinel, line.0, line.1) in
      let first = not_at_end_lem q h (plus held q) s in
      let h₁ = compared h in
      let s₁ = compared-Sound h (plus held q) s in
      let live_next = s.next_alive q live in
      let head : h.value x ≡ some d = cc in
      let value : h.value q ≡ some d = ap h.value line.0 ∙ head in
      let tail : Values h.value xs ds = cc in
      let (t', pushed, holds') = push_back-Holds t ys es d holds in
      let at = iterator_at (some sentinel) (some q) in
      let moved = increment-bump h₁ at q refl live (s₁.unlocked q) live_next in
      let h₂ = bump (h.next q) (unbump q h₁) in
      let s₂ =
        bump-Sound (h.next q) (unbump q h₁) held (plus held (h.next q)) (λ m. refl)
          (unbump-Sound q h₁ (plus held q) held (λ m. refl) s₁) in
      let (t'', zs, ends, result) =
        copy_loop-Holds fuel (h.next q) xs ds h₂ held t' (ys ++ t.fresh ∷ []) (es ++ d ∷ [])
          (omega (arith, few)) (subst (λ (z : ℕ). Line h.next (h.next z) xs) (sym line.0) line.2)
          tail live_next s₂ holds' in
      let (g, e, s₃) = ends in
      (
        t'',
        zs,
        (
          g,
          simp (first, inside, deref_lem q h₁ d live value, push_to_lem d t t' h₁ pushed, moved, e),
          s₃,
        ),
        subst (λ (l : List D). Holds t'' zs l) (append_assoc es (d ∷ []) ds) result,
      )

  empty_list-Holds : Holds empty_list [] []
  unfolding empty_list
  empty_list-Holds = record { sound = empty_list-Sound D; contents = refl; values = refl }

  -- On a sound heap, and with a round more than there are elements, the copy constructor ends,
  -- whatever iterators there are on the source. The copy is a sound list with no iterator on it that
  -- holds the values of the source, in order; the source has the links, values and nodes that it
  -- had, and is sound with the iterators that there were.
  pub copy_list-Holds :
      (fuel : ℕ) (h : Heap D) (held : ℕ → ℕ) (xs : List ℕ) (ds : List D)
      → length xs < fuel
      → Sound h held
      → Contents h xs
      → Values h.value xs ds
      → (t : Heap D) × (ys : List ℕ) × (Ends (copy_list fuel h) t (Untouched h held))
        × Holds t ys ds
  unfolding copy_list bump
  copy_list-Holds fuel h held xs ds few s contents values =
      let q : ℕ = h.next sentinel in
      let live = s.next_alive sentinel s.start in
      let began = begin-bump h s.start (s.unlocked sentinel) live in
      let (t, ys, ends, result) =
        copy_loop-Holds fuel q xs ds (bump q h) held empty_list [] [] few
          (Chain-Line h.next sentinel xs contents) values live (bump-Sound q h held _ (λ m. refl) s)
          empty_list-Holds in
      let (g, e, s₁) = ends in (t, ys, (g, simp (began, e), s₁), result)
