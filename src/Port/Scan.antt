-- ===== src/Port/Scan.antt =====
-- The loop of `PortParam::operator=(const string &)` (src/sparam.cpp) as a recursion along the text.
use pparam.Prelude.Int.{ℤ}
use pparam.Prelude.{
  Bool, ℕ, zero, suc, ◌+◌, ◌-◌, ◌%◌, ◌≤◌, ◌<◌, ◌≡◌, refl, ap, ◌∙◌, [], ◌∷◌, Text, length, drop,
  get_or, arith,
}
use pparam.Time.{u8}
use pparam.Port.{
  State, start, negated, first, second, invalid, Locals, Round, goes, ends, throws, overflows,
  round, carry_on, Ending, threw, loop,
}

-- Behind the closing zero the machine is over or in the state that throws.
abbrev pub scan_end : Round → Ending
scan_end r = carry_on (λ m. threw) r

unfoldable pub scan : Text → Locals → Ending
scan [] l = scan_end (round l 0)
scan (c ∷ s) l = carry_on (λ m. scan s m) (round l c)

get_or-drop :
    (i : ℕ) (port : Text) (c : ℕ) (s : Text)
    → drop i port ≡ c ∷ s
    → (get_or port i 0 ≡ c) × (drop (suc i) port ≡ s)
get_or-drop zero [] c s h = absurd (cc)
get_or-drop zero (b ∷ port) c s h = ground arith
get_or-drop (suc i) [] c s h = absurd (cc)
get_or-drop (suc i) (b ∷ port) c s h = get_or-drop i port c s h

get_or_past : (i : ℕ) (port : Text) → drop i port ≡ [] → get_or port i 0 ≡ 0
get_or_past zero [] h = refl
get_or_past zero (b ∷ port) h = absurd (cc)
get_or_past (suc i) [] h = refl
get_or_past (suc i) (b ∷ port) h = get_or_past i port h

-- After the closing zero, one more round throws at most.
after_zero :
    (rounds : ℕ) (port : Text) (i : ℕ) (st : State) (n z : Bool) (f t : ℤ)
    → get_or port i 0 ≡ 0
    → loop
        (suc (suc rounds))
        port
        i
        (record { state = st; not_sign = n; set_zero = z; from = f; to = t })
      ≡ scan_end (round (record { state = st; not_sign = n; set_zero = z; from = f; to = t }) 0)
unfolding loop round
after_zero rounds port i start n z f t h = rw (h, loop) refl
after_zero rounds port i negated n z f t h = rw (h, loop) refl
after_zero rounds port i first n z f t h = rw (h, loop) refl
after_zero rounds port i second n z f t h = rw (h, loop) refl
after_zero rounds port i invalid n z f t h = refl

loop-last :
    (rounds : ℕ) (port : Text) (i : ℕ) (l : Locals)
    → get_or port i 0 ≡ 0
    → loop (suc (suc rounds)) port i l ≡ scan_end (round l 0)
loop-last rounds port i l h = after_zero rounds port i l.state l.not_sign l.set_zero l.from l.to h

-- The rounds that a text takes, and `more`.
abbrev rounds_for : Text → ℕ → ℕ
rounds_for [] more = suc (suc more)
rounds_for (c ∷ s) more = suc (rounds_for s more)

rounds_for-length : (s : Text) (more : ℕ) → rounds_for s more ≡ length s + 2 + more
rounds_for-length [] more = omega arith
rounds_for-length (c ∷ s) more = omega (arith, rounds_for-length s more)

carry_on-cong :
    (f g : Locals → Ending) → ((m : Locals) → f m ≡ g m) → (r : Round) → carry_on f r ≡ carry_on g r
carry_on-cong f g h (goes m) = h m
carry_on-cong f g h (ends m) = refl
carry_on-cong f g h throws = refl
carry_on-cong f g h overflows = refl

loop-drop :
    (s port : Text) (more i : ℕ) (l : Locals)
    → drop i port ≡ s
    → i + length s < 256
    → loop (rounds_for s more) port i l ≡ scan s l
unfolding loop scan
loop-drop [] port more i l e n = loop-last more port i l (get_or_past i port e)
loop-drop (c ∷ s) port more i l e n =
    ap (λ k. carry_on (λ m. loop (rounds_for s more) port ((i + 1) % u8) m) (round l k))
      (get_or-drop i port c s e).0
    ∙ carry_on-cong _ _
        (λ m.
          let wrap : (i + 1) % u8 ≡ suc i = omega arith in
          rw wrap (loop-drop s port more (suc i) m (get_or-drop i port c s e).1 (omega arith)))
        (round l c)

-- Whatever the number of rounds from two more than the characters on, a text of fewer than 256
-- characters is scanned once, from its first character to its last.
pub loop-scan :
    (port : Text) (rounds : ℕ) (l : Locals)
    → length port < 256
    → length port + 2 ≤ rounds
    → loop rounds port 0 l ≡ scan port l
loop-scan port rounds l n h =
    let enough : rounds ≡ rounds_for port (rounds - length port - 2) =
      omega (arith, rounds_for-length port (rounds - length port - 2)) in
    ap (λ k. loop k port 0 l) enough ∙ loop-drop port port _ 0 l refl (omega arith)
