-- ===== src/Port.antt =====
-- `PortParam` of include/sparam.hpp and src/sparam.cpp. The text assignment is a state machine over
-- the characters of a C string; its index is an unsigned char.
pub mod Scan
pub mod Grammar
pub mod Numbers
pub mod Bounds
use pparam.Prelude.{
  ℕ, zero, suc, ◌+◌, ◌-◌, ◌*◌, ◌/◌, ◌%◌, Bool, true, false, not, ◌||◌, Option, none, some, [], Text,
  ltb, ◌==◌, if◌then◌else◌, get_or, text, print_nat,
}
use pparam.Prelude.Int.{ℤ, pos, negsuc, sub_ℕ, ltb_ℤ, eqb_ℤ}
use pparam.Prelude.Decimal.{is_digit}
use pparam.Exception.{
  Exception, failed, exception, exception_with_status, Result, ok, err, trace_point,
}
use pparam.Time.{u8, u32}

pub record PortParam : Type 0 where
  pub not_sign : Bool
  pub port_range : Bool
  pub port_string : Text
  pub from : ℤ
  pub to : ℤ

abbrev pub invalid_port : ℤ
invalid_port = negsuc 0

abbrev pub min_port : ℤ
min_port = pos 0

abbrev pub max_port : ℤ
max_port = pos 65535

unfoldable pub reset : PortParam
reset = record {
  not_sign = false;
  port_range = false;
  port_string = [];
  from = invalid_port;
  to = invalid_port;
}

unfoldable pub invalid_port_number : Exception
invalid_port_number =
    exception_with_status failed (text "Invalid port number !") (trace_point "sparam" "operator=")

unfoldable pub invalid_port_format : Exception
invalid_port_format =
    exception_with_status failed (text "Invalid port format !") (trace_point "sparam" "operator=")

unfoldable pub invalid_port_range : Exception
invalid_port_range =
    exception_with_status failed (text "Invalid port range !") (trace_point "sparam" "operator=")

-- `operator=(const unsigned int)`
unfoldable pub assign_number : ℕ → Result PortParam
assign_number port =
    if ltb 65535 port
    then err invalid_port_number
    else ok (record {
      not_sign = false;
      port_range = false;
      port_string = print_nat port;
      from = pos port;
      to = invalid_port;
    })

-- `operator=(const PortParam &)`; the left side is the object assigned to.
unfoldable pub assign_port : PortParam → PortParam → PortParam
assign_port p port = record p {
  not_sign = port.not_sign;
  port_string = port.port_string;
  from = port.from;
  to = port.to;
}

-- `operator=(const XParam &)`, with the outcome of the `dynamic_cast`.
unfoldable pub assign_param : PortParam → Option PortParam → Result PortParam
unfolding assign_port
assign_param p none =
    err (exception (text "Bad PortParam in assignment") (trace_point "sparam" "operator="))
assign_param p (some port) = ok (assign_port p port)

-- The values 0 to 4 of `state`.
pub data State : Type 0 where
  start negated first second invalid : State

-- The local variables of the loop but the index.
pub record Locals : Type 0 where
  pub state : State
  pub not_sign : Bool
  pub set_zero : Bool
  pub from : ℤ
  pub to : ℤ

unfoldable pub locals : Locals
locals = record {
  state = start;
  not_sign = false;
  set_zero = true;
  from = min_port;
  to = invalid_port;
}

-- `n * 10 + (c - 0x30)` of an int, or nothing where it overflows.
unfoldable pub add_digit : ℤ → ℕ → Option ℤ
add_digit (pos n) c = let m = n * 10 + (c - 0x30) in if ltb m (u32 / 2) then some (pos m) else none
add_digit (negsuc n) c =
    if ltb (u32 / 2 + (c - 0x30)) (suc n * 10) then none else some (sub_ℕ (c - 0x30) (suc n * 10))

-- One round of the loop: it goes on, is over, throws, or overflows an int, which C++ leaves
-- undefined.
pub data Round : Type 0 where
  goes ends : Locals → Round
  throws overflows : Round

unfoldable pub from_digit : Locals → ℕ → Round
from_digit l c = elim (add_digit l.from c) [
  | none ↦ overflows
  | some n ↦ goes (record l { from = n; state = first })
]

unfoldable pub to_digit : Locals → ℕ → Round
to_digit l c = elim (add_digit (if l.set_zero then min_port else l.to) c) [
  | none ↦ overflows
  | some n ↦ goes (record l { to = n; set_zero = false })
]

unfoldable pub round : Locals → ℕ → Round
unfolding from_digit to_digit
round l c = elim l.state [
  | start ↦
      if c == b'!'
      then goes (record l { not_sign = true; state = negated })
      else if is_digit c
      then from_digit l c
      else if c == b':'
      then goes (record l { state = second })
      else goes (record l { state = invalid })
  | negated ↦
      if c == b':'
      then goes (record l { state = second })
      else if is_digit c
      then from_digit l c
      else goes (record l { state = invalid })
  | first ↦
      if is_digit c
      then from_digit l c
      else if c == b':'
      then goes (record l { to = max_port; state = second })
      else if c == 0
      then ends l
      else goes (record l { state = invalid })
  | second ↦
      if is_digit c
      then to_digit l c
      else if c == 0
      then ends l
      else goes (record l { state = invalid })
  | invalid ↦ throws
]

-- How the loop ends, if it does within the rounds given.
pub data Ending : Type 0 where
  ended : Locals → Ending
  threw overflowed running : Ending

abbrev pub carry_on : (Locals → Ending) → Round → Ending
carry_on more (goes m) = more m
carry_on more (ends m) = ended m
carry_on more throws = threw
carry_on more overflows = overflowed

-- `c_str()` has a zero behind the last character.
unfoldable pub loop : ℕ → Text → ℕ → Locals → Ending
unfolding round
loop zero port index l = running
loop (suc rounds) port index l =
    carry_on (λ m. loop rounds port ((index + 1) % u8) m) (round l (get_or port index 0))

abbrev pub is_port : ℤ → Bool
is_port n = not (ltb_ℤ n min_port || ltb_ℤ max_port n)

-- `state > 2`
abbrev pub has_range : State → Bool
has_range second = true
has_range invalid = true
has_range _ = false

unfoldable pub check_range : Locals → Result (Unit {0})
check_range l =
    if has_range l.state
    then (if is_port l.to
        then (if ltb_ℤ l.from l.to then ok tt else err invalid_port_range)
        else err invalid_port_number)
    else ok tt

unfoldable pub store : Text → Locals → PortParam
store port l = record {
  not_sign = l.not_sign;
  port_range = not (eqb_ℤ l.to invalid_port);
  port_string = port;
  from = l.from;
  to = l.to;
}

-- What the assignment of a text comes to; an exception leaves the object as it was.
pub data Assignment : Type 0 where
  stored : PortParam → Assignment
  thrown : Exception → Assignment
  undefined unfinished : Assignment

unfoldable pub checked : Text → Locals → Assignment
unfolding check_range store
checked port l =
    if is_port l.from
    then elim (check_range l) [ ok _ ↦ stored (store port l) | err e ↦ thrown e ]
    else thrown invalid_port_number

abbrev pub finish : Text → Ending → Assignment
finish port (ended l) = checked port l
finish port threw = thrown invalid_port_format
finish port overflowed = undefined
finish port running = unfinished

-- `operator=(const string &)`, with a bound on the rounds of its loop.
unfoldable pub assign_within : ℕ → Text → Assignment
assign_within rounds port = finish port (loop rounds port 0 locals)

-- 257 rounds are enough for every text of fewer than 256 characters (`Scan.loop-scan`).
unfoldable pub assign : Text → Assignment
assign port = assign_within 257 port
