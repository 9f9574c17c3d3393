-- ===== src/IntParam.antt =====
-- `XIntParam<XUInt>` of include/xparam.hpp and include/xparam.tcc, the instance that the library
-- uses: an unsigned int with a minimum and a maximum, which are checked if they are in order.
pub mod Range
pub mod Changes
pub mod Printed
use pparam.Prelude.{
  ℕ, zero, suc, ◌+◌, ◌-◌, ◌%◌, ltb, leb, ◌==◌, ◌&&◌, ◌||◌, Bool, true, false, not, Option, none,
  some, [], ◌∷◌, ◌++◌, Text, text, text_eq, if◌then◌else◌,
}
use pparam.Prelude.Int.{ℤ, pos, negsuc}
use pparam.Prelude.Decimal.{print_nat}
use pparam.Prelude.Scan.{skip_space, read_signed}
use pparam.Exception.{Exception, exception, trace_point, Result, ok, err}

abbrev pub uint_mod : ℕ
uint_mod = 4294967296

abbrev pub uint_max : ℕ
uint_max = 4294967295

pub record IntParam : Type 0 where
  pub pname : Text
  pub min : ℕ
  pub max : ℕ
  pub val : ℕ

unfoldable pub int_param : Text → ℕ → ℕ → IntParam
int_param pname min max = record { pname = pname; min = min; max = max; val = min }

unfoldable pub check_limit : IntParam → Bool
check_limit p = leb p.min p.max

abbrev out_of_range : IntParam → Exception
out_of_range p =
    exception (p.pname ++ text " value is out of range !") (trace_point "pparam" "set_value")

unfoldable pub set_value : ℕ → IntParam → Result IntParam
set_value value p =
    if leb p.min p.max && (ltb value p.min || ltb p.max value)
    then err (out_of_range p)
    else ok (record p { val = value })

-- What `iss >> value` leaves in an unsigned int: 0 if no number stands there, the largest value for
-- a number that is too large, and the wrapped one for a number with a minus.
abbrev pub extracted : Option (ℤ × Text) → ℕ
extracted none = 0
extracted (some (pos n, rest)) = if leb n uint_max then n else uint_max
extracted (some (negsuc n, rest)) = if leb (suc n) uint_max then uint_mod - suc n else uint_max

-- Of a text that is empty or blank nothing is extracted, and `value` keeps `junk`, what the
-- uninitialised variable holds.
abbrev pub extract_from : ℕ → Text → ℕ
extract_from junk [] = junk
extract_from junk (c ∷ s) = extracted (read_signed (c ∷ s))

unfoldable pub assign : ℕ → Text → IntParam → Result IntParam
unfolding set_value skip_space
assign junk str p = set_value (extract_from junk (skip_space str)) p

unfoldable pub value : IntParam → Text
unfolding print_nat
value p = print_nat p.val

unfoldable pub increment : IntParam → IntParam
unfolding check_limit
increment p =
    let v = (p.val + 1) % uint_mod in
    if check_limit p && ltb p.max v then record p { val = p.min } else record p { val = v }

unfoldable pub decrement : IntParam → IntParam
unfolding check_limit
decrement p =
    let v = (p.val + uint_max) % uint_mod in
    if check_limit p && ltb v p.min then record p { val = p.max } else record p { val = v }

unfoldable pub reset : IntParam → IntParam
reset p = record p { val = p.min }

-- The argument is what `dynamic_cast` gives for the other parameter.
unfoldable pub assign_param : Option IntParam → IntParam → Result IntParam
assign_param none p = err (
    exception (p.pname ++ text ": Bad XIntParam in assignment !")
      (trace_point "pparam" "operator="))
assign_param (some q) p =
    if text_eq p.pname q.pname
    then ok (record p { min = q.min; max = q.max; val = q.val })
    else err (
        exception (text "Different mix xparameters in assignment !")
          (trace_point "pparam" "operator="))
