-- ===== src/Port/Bounds.antt =====
-- Which assignments of `PortParam` (src/sparam.cpp) end, and what they let through.
use pparam.Prelude.{
  ℕ, zero, suc, ◌+◌, ◌%◌, ◌≤◌, ◌<◌, ◌≡◌, ◌≢◌, ◌↔◌, subst, refl, ap, sym, ◌∙◌, Bool, true, false, [],
  ◌∷◌, Text, length, get_or, All, arith,
}
use pparam.Prelude.Int.{ℤ, pos, ◌≤ℤ◌, ltb_ℤ}
use pparam.Time.{u8}
use pparam.Prelude.Decimal.{zeros}
use pparam.Port.{
  PortParam, invalid_port, assign_port, State, start, negated, first, second, invalid, Locals,
  locals, Round, goes, ends, throws, overflows, round, from_digit, to_digit, add_digit, carry_on,
  Ending, ended, threw, overflowed, running, loop, checked, check_range, store, Assignment, stored,
  unfinished, finish, assign_within, assign,
}
use pparam.Port.Scan.{scan, loop-scan}

-- A single port, or a range with at least two ports, all from 0 to 65535.
abbrev FlagPorts : Bool → ℤ → ℤ → Type 0
FlagPorts true from to =
    (pos 0 ≤ℤ from) × (from ≤ℤ pos 65535) × (ltb_ℤ from to ≡ true) × (to ≤ℤ pos 65535)
FlagPorts false from to = (pos 0 ≤ℤ from) × (from ≤ℤ pos 65535) × (to ≡ invalid_port)

abbrev pub IsPorts : PortParam → Type 0
IsPorts p = FlagPorts p.port_range p.from p.to

-- Until the second part of a range is reached, `_to` is untouched.
abbrev IsUntouched : State → ℤ → Type 0
IsUntouched second t = Unit
IsUntouched invalid t = Unit
IsUntouched _ t = t ≡ invalid_port

abbrev Keeps : Round → Type 0
Keeps (goes m) = IsUntouched m.state m.to
Keeps (ends m) = IsUntouched m.state m.to
Keeps throws = Unit
Keeps overflows = Unit

round-Keeps :
    (s : State) (n z : Bool) (f t : ℤ) (c : ℕ)
    → IsUntouched s t
    → Keeps (round (record { state = s; not_sign = n; set_zero = z; from = f; to = t }) c)
unfolding round from_digit to_digit
round-Keeps start n z f t c h = ground arith
round-Keeps negated n z f t c h = ground arith
round-Keeps first n z f t c h = ground arith
round-Keeps second n z f t c h = ground arith
round-Keeps invalid n z f t c h = tt

abbrev EndsKept : Ending → Type 0
EndsKept (ended m) = IsUntouched m.state m.to
EndsKept _ = Unit

loop-EndsKept :
    (rounds : ℕ) (port : Text) (i : ℕ) (l : Locals)
    → IsUntouched l.state l.to
    → EndsKept (loop rounds port i l)
unfolding loop
loop-EndsKept zero port i l h = tt
loop-EndsKept (suc rounds) port i l h =
    on_round (round l (get_or port i 0))
      (round-Keeps l.state l.not_sign l.set_zero l.from l.to (get_or port i 0) h)
      (λ m. loop-EndsKept rounds port ((i + 1) % u8) m)
  where
    on_round :
        (r : Round)
        → Keeps r
        → ((m : Locals) → IsUntouched m.state m.to → EndsKept (loop rounds port ((i + 1) % u8) m))
        → EndsKept (carry_on (λ m. loop rounds port ((i + 1) % u8) m) r)
    on_round (goes m) k step = step m k
    on_round (ends m) k step = k
    on_round throws k step = tt
    on_round overflows k step = tt

abbrev IsStoredPorts : Text → Assignment → Type 0
IsStoredPorts port (stored p) = IsPorts p × (p.port_string ≡ port)
IsStoredPorts port _ = Unit

checked-IsStoredPorts :
    (port : Text) (s : State) (n z : Bool) (f t : ℤ)
    → IsUntouched s t
    → IsStoredPorts port
        (checked port (record { state = s; not_sign = n; set_zero = z; from = f; to = t }))
unfolding checked check_range store
checked-IsStoredPorts port first n z f t h = ground arith
checked-IsStoredPorts port second n z f t h = ground arith
checked-IsStoredPorts port start n z f t h = ground arith
checked-IsStoredPorts port negated n z f t h = ground arith
checked-IsStoredPorts port invalid n z f t h = ground arith

-- However long the text is and however many rounds its loop is given: what is stored keeps the
-- text, and is a single port or a range of at least two ports, all from 0 to 65535.
pub assign_within-IsPorts :
    (rounds : ℕ) (port : Text) (p : PortParam)
    → assign_within rounds port ≡ stored p
    → IsPorts p × (p.port_string ≡ port)
unfolding assign_within locals
assign_within-IsPorts rounds port p h =
    subst (IsStoredPorts port) h
      (on_ending (loop rounds port 0 locals) (loop-EndsKept rounds port 0 locals refl))
  where
    on_ending : (e : Ending) → EndsKept e → IsStoredPorts port (finish port e)
    on_ending (ended l) k = checked-IsStoredPorts port l.state l.not_sign l.set_zero l.from l.to k
    on_ending threw k = tt
    on_ending overflowed k = tt
    on_ending running k = tt

-- The assignment of another port does not copy whether it is a range. What is stored is a single
-- port or a range as above exactly if the object was a range before and the other is one, or
-- neither.
assign_port-IsPorts :
    (p port : PortParam)
    → IsPorts port
    → IsPorts (assign_port p port) ↔ (p.port_range ≡ port.port_range)
unfolding assign_port
assign_port-IsPorts p port h = on_flags p.port_range port.port_range port.from port.to h
  where
    on_flags : (b c : Bool) (f t : ℤ) → FlagPorts c f t → FlagPorts b f t ↔ (b ≡ c)
    on_flags true true f t h = ground arith
    on_flags true false f t h = ground arith
    on_flags false true f t h = ground arith
    on_flags false false f t h = ground arith

checked_ends : (port : Text) (l : Locals) → checked port l ≢ unfinished
unfolding checked check_range
checked_ends port l = ground arith

abbrev IsOver : Ending → Type 0
IsOver running = ⊥
IsOver _ = Unit

scan-IsOver : (s : Text) (l : Locals) → IsOver (scan s l)
unfolding scan
scan-IsOver [] l = on_round (round l 0)
  where
    on_round : (r : Round) → IsOver (carry_on (λ m. threw) r)
    on_round (goes m) = tt
    on_round (ends m) = tt
    on_round throws = tt
    on_round overflows = tt
scan-IsOver (c ∷ s) l = on_round (round l c) (λ m. scan-IsOver s m)
  where
    on_round :
        (r : Round) → ((m : Locals) → IsOver (scan s m)) → IsOver (carry_on (λ m. scan s m) r)
    on_round (goes m) step = step m
    on_round (ends m) step = tt
    on_round throws step = tt
    on_round overflows step = tt

-- The assignment of any text of fewer than 256 characters ends, 257 rounds being enough and more
-- making no difference.
pub assign_terminates :
    (port : Text) (rounds : ℕ)
    → length port < 256
    → 257 ≤ rounds
    → (assign_within rounds port ≡ assign port) × (assign port ≢ unfinished)
unfolding assign assign_within
assign_terminates port rounds h r = (
  ap (finish port) (
      loop-scan port rounds locals h (omega arith)
      ∙ sym (loop-scan port 257 locals h (omega arith))),
  rw (loop-scan port 257 locals h (omega arith))
      (on_ending (scan port locals) (scan-IsOver port locals)),
)
  where
    on_ending : (e : Ending) → IsOver e → finish port e ≢ unfinished
    on_ending (ended l) h = checked_ends port l
    on_ending threw h = ground arith
    on_ending overflowed h = ground arith
    on_ending running h = absurd h

abbrev pub IsZeros : Text → Type 0
IsZeros s = All (λ c. c ≡ b'0') s

pub zeros-IsZeros : (n : ℕ) → IsZeros (zeros n)
zeros-IsZeros zero = tt
zeros-IsZeros (suc n) = (refl, zeros-IsZeros n)

get_or-IsZeros : (s : Text) (i : ℕ) → IsZeros s → i < length s → get_or s i 0 ≡ b'0'
get_or-IsZeros [] i z h = absurd (omega arith)
get_or-IsZeros (c ∷ s) zero z h = z.0
get_or-IsZeros (c ∷ s) (suc i) z h = get_or-IsZeros s i z.1 (omega arith)

loop-zeros :
    (rounds : ℕ) (port : Text) (i : ℕ) (n z : Bool) (t : ℤ)
    → IsZeros port
    → 256 ≤ length port
    → i < 256
    → loop rounds port i
        (record { state = first; not_sign = n; set_zero = z; from = pos 0; to = t })
      ≡ running
unfolding loop round from_digit add_digit
loop-zeros zero port i n z t a l h = refl
loop-zeros (suc rounds) port i n z t a l h =
    rw (get_or-IsZeros port i a (omega arith), loop)
      (loop-zeros rounds port ((i + 1) % u8) n z t a l (omega arith))

-- The index is an unsigned char: on a text of 256 or more zeros the loop never ends, however many
-- rounds it runs.
assign_zeros_hangs :
    (rounds : ℕ) (port : Text)
    → IsZeros port
    → 256 ≤ length port
    → assign_within rounds port ≡ unfinished
unfolding assign_within loop locals round from_digit add_digit
assign_zeros_hangs zero port z l = refl
assign_zeros_hangs (suc rounds) port z l =
    rw (get_or-IsZeros port 0 z (omega arith), loop)
      (ap (finish port) (loop-zeros rounds port 1 false true invalid_port z l (omega arith)))
