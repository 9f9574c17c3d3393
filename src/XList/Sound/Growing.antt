-- ===== src/XList/Sound/Growing.antt =====
-- The node that `push_back` (include/xlist.hpp) links last, and the heap's invariant.
use pparam.Prelude.{
  ℕ, ◌+◌, ◌*◌, ◌≡◌, ◌≢◌, sym, subst, true, false, ◌==◌, arith, ==_iff, Bool-cases, inl, inr,
}
use pparam.XList.{sentinel, update, Heap}
use pparam.XList.Effects.{up, bump, link_next, link_prev, created, linked_last}
use pparam.XList.Counts.{hit, up_mod, pointers-update, pointers_created, pointers_none}
use pparam.XList.Sound.{Sound, Links, Counted, refs}

module _ {D : Type 0} (d : D) (h : Heap D) (held : ℕ → ℕ) (s : Sound h held)
    (is_new : h.alive h.fresh ≡ false) where
  grown : Heap D
  unfolding linked_last created bump link_next link_prev
  grown = linked_last h.fresh (h.prev sentinel) (created d h)

  -- The new node is not the last, nor a neighbour of a living node.
  fresh_ne : (p : ℕ) → h.alive p ≡ true → h.fresh ≢ p
  fresh_ne p live = ground (arith, s.known p live)

  module _ (q : ℕ) (l : Links h q) (live : h.alive q ≡ true) where
    old-Links : Links grown q
    unfolding grown
    old-Links =
        let f : ℕ = h.fresh in
        let t : ℕ = h.prev sentinel in
        let ls = s.linked sentinel s.start s.start_listed in
        let ne = fresh_ne q live in
        let ne_next = fresh_ne (h.next q) (s.next_alive q live) in
        let ne_prev = fresh_ne (h.prev q) (s.prev_alive q live) in
        let ne_start = fresh_ne sentinel s.start in
        let ne_last = fresh_ne t (s.prev_alive sentinel s.start) in
        record {
          next_listed = elim (Bool-cases (t == q)) [
            | inl e ↦ rw e (ground (arith, ==_iff f f))
            | inr e ↦ rw e (ground (arith, ==_iff f q, ==_iff f (h.next q), l.next_listed))
          ];
          prev_listed = elim (Bool-cases (sentinel == q)) [
            | inl e ↦ rw e (ground (arith, ==_iff f f))
            | inr e ↦ rw e (ground (arith, ==_iff f q, ==_iff f (h.prev q), l.prev_listed))
          ];
          prev_next = elim (Bool-cases (t == q)) [
            | inl e ↦ rw e (ground (arith, ==_iff t q, ==_iff sentinel f, ==_iff f f))
            | inr e ↦ rw e (
                ground (
                  arith,
                  ==_iff t q,
                  ==_iff f q,
                  ==_iff f (h.next q),
                  ==_iff sentinel (h.next q),
                  l.prev_next,
                ))
          ];
          next_prev = elim (Bool-cases (sentinel == q)) [
            | inl e ↦ rw e (ground (arith, ==_iff sentinel q, ==_iff t f, ==_iff f f))
            | inr e ↦ rw e (
                ground (
                  arith,
                  ==_iff sentinel q,
                  ==_iff f q,
                  ==_iff f (h.prev q),
                  ==_iff t (h.prev q),
                  l.next_prev,
                  ls.next_prev,
                ))
          ];
        }

  new-Links : Links grown h.fresh
  unfolding grown
  new-Links =
      let f : ℕ = h.fresh in
      let t : ℕ = h.prev sentinel in
      let ls = s.linked sentinel s.start s.start_listed in
      let ne_start = fresh_ne sentinel s.start in
      let ne_last = fresh_ne t (s.prev_alive sentinel s.start) in
      record {
        next_listed = ground (arith, ==_iff t f, ==_iff f f, ==_iff f sentinel, s.start_listed);
        prev_listed = ground (arith, ==_iff sentinel f, ==_iff f f, ==_iff f t, ls.prev_listed);
        prev_next = ground (arith, ==_iff t f, ==_iff f f, ==_iff f sentinel);
        next_prev = ground (arith, ==_iff t t, ==_iff f f, ==_iff f sentinel, ==_iff sentinel f);
      }

  -- The pointers of the heap that has grown: two more on the new node.
  refs-grown : (n : ℕ) → refs grown n ≡ refs h n + 2 * hit h.fresh n
  unfolding grown refs
  refs-grown n =
      let f : ℕ = h.fresh in
      let t : ℕ = h.prev sentinel in
      let a = update h.alive f true in
      let next₁ = update h.next f f in
      let next₂ = update next₁ f sentinel in
      let prev₁ = update h.prev f f in
      let prev₂ = update prev₁ f t in
      let live : a f ≡ true = ground (arith, ==_iff f f) in
      let start : a sentinel ≡ true = ground (arith, s.start) in
      let last_live = s.prev_alive sentinel s.start in
      let last : a t ≡ true = ground arith in
      let ne_last = fresh_ne t last_live in
      let ne_start = fresh_ne sentinel s.start in
      let ls = s.linked sentinel s.start s.start_listed in
      let was₁ : hit (next₁ f) n ≡ hit f n = ground (arith, ==_iff f f) in
      let was₂ : hit (next₂ t) n ≡ hit sentinel n = ground (arith, ==_iff f t, ls.next_prev) in
      let was₃ : hit (prev₁ f) n ≡ hit f n = ground (arith, ==_iff f f) in
      let was₄ : hit (prev₂ sentinel) n ≡ hit t n = ground (arith, ==_iff f sentinel) in
      omega (
        arith,
        was₁,
        was₂,
        was₃,
        was₄,
        pointers_created h.alive h.next n f f,
        pointers-update a next₁ n f sentinel (f + 1) (omega arith) live,
        pointers-update a next₂ n t f (f + 1) (omega (arith, s.known t last_live)) last,
        pointers_created h.alive h.prev n f f,
        pointers-update a prev₁ n f t (f + 1) (omega arith) live,
        pointers-update a prev₂ n sentinel f (f + 1) (omega (arith, s.known sentinel s.start))
            start,
      )

  refs_fresh : refs h h.fresh ≡ 0
  unfolding refs
  refs_fresh = omega (
    arith,
    pointers_none h.alive h.next h.fresh h.fresh
        (λ p live e. fresh_ne (h.next p) (s.next_alive p live) (sym e)),
    pointers_none h.alive h.prev h.fresh h.fresh
        (λ p live e. fresh_ne (h.prev p) (s.prev_alive p live) (sym e)),
  )

  module _ (none_held : held h.fresh ≡ 0) where
    grown-Counted : (n : ℕ) → grown.alive n ≡ true → Counted grown held n
    unfolding grown
    grown-Counted n live =
        let f : ℕ = h.fresh in
        let u₀ = update h.usage f 0 in
        let ne_start = fresh_ne sentinel s.start in
        let first = up_mod u₀ f n in
        let second = up_mod (up u₀ f) f n in
        elim (Bool-cases (f == n)) [
          | inl e ↦
              let same : f ≡ n = (==_iff f n).0 e in
              let no_refs : refs h n ≡ 0 = subst (λ (x : ℕ). refs h x ≡ 0) same refs_fresh in
              let no_held : held n ≡ 0 = subst (λ (x : ℕ). held x ≡ 0) same none_held in
              ground (arith, ==_iff f n, ==_iff sentinel n, refs-grown n)
          | inr e ↦ ground (arith, ==_iff f n, refs-grown n, s.counted n)
        ]

    pub grown-Sound : Sound (linked_last h.fresh (h.prev sentinel) (created d h)) held
    unfolding grown
    grown-Sound =
        let f : ℕ = h.fresh in
        let t : ℕ = h.prev sentinel in
        let ne_start = fresh_ne sentinel s.start in
        let last_live = s.prev_alive sentinel s.start in
        record {
          unlocked = λ p. ground (arith, s.unlocked p);
          start = ground (arith, s.start);
          start_listed = ground (arith, s.start_listed, ==_iff f sentinel);
          known = λ p live. ground (arith, s.known p);
          next_alive = λ p live. ground (
            arith,
            ==_iff f p,
            ==_iff f (h.next p),
            ==_iff f f,
            ==_iff f sentinel,
            s.start,
            s.next_alive p,
          );
          prev_alive =
              λ p live. ground (arith, ==_iff f p, ==_iff f (h.prev p), ==_iff f f, s.prev_alive p);
          linked = λ q live listed. elim (Bool-cases (f == q)) [
            | inl e ↦ subst (λ (x : ℕ). Links grown x) ((==_iff f q).0 e) new-Links
            | inr e ↦
                let was : h.alive q ≡ true = ground arith in
                let still : h.is_erasing q ≡ false = ground arith in
                old-Links q (s.linked q was still) was
          ];
          counted = grown-Counted;
        }
