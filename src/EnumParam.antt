-- ===== src/EnumParam.antt =====
-- `XEnumParam<T>` of include/xparam.hpp and include/xparam.tcc, and `BoolParam` of src/sparam.cpp.
-- `T::typeString` is the list of texts, and `T::MAX` its length.
pub mod Named
pub mod Switch
use pparam.Prelude.{
  ℕ, zero, suc, ◌+◌, ◌-◌, ◌%◌, ltb, leb, ◌==◌, ◌&&◌, ◌||◌, Bool, true, false, not, Option, none,
  some, List, [], ◌∷◌, ◌++◌, length, Text, text, text_eq, if◌then◌else◌,
}
use pparam.Prelude.Int.{ℤ, pos, negsuc, ◌+ℤ◌, neg_ℕ, ltb_ℤ, eqb_ℤ}
use pparam.Exception.{Exception, exception, trace_point, Result, ok, err}

pub record EnumParam : Type 0 where
  pub pname : Text
  pub def : ℤ
  pub val : ℤ

unfoldable pub reset : EnumParam → EnumParam
reset p = record p { val = p.def }

-- The argument is what `dynamic_cast` gives for the other parameter.
unfoldable pub assign_param : Option EnumParam → EnumParam → Result EnumParam
assign_param none p =
    err (exception (text "Bad enum XParam in assignment !") (trace_point "pparam" "operator="))
assign_param (some q) p =
    if text_eq p.pname q.pname
    then ok (record p { def = q.def; val = q.val })
    else err (
        exception (text "Different enum xparameters in assignment !")
          (trace_point "pparam" "operator="))

-- The loop over `T::typeString`, from the index `i` on.
unfoldable pub index_of : Text → ℕ → List Text → Option ℕ
index_of str i [] = none
index_of str i (t ∷ types) =
    let rest = index_of str (i + 1) types in if text_eq str t then some i else rest

abbrev pub nth : List Text → ℕ → Text
nth [] n = []
nth (t ∷ types) zero = t
nth (t ∷ types) (suc n) = nth types n

abbrev pub stored : EnumParam → Option ℕ → Result EnumParam
stored p none =
    err
      (exception (text "Bad '" ++ (p.pname ++ text "' value !")) (trace_point "pparam" "operator="))
stored p (some i) = ok (record p { val = pos i })

module _ (type_string : List Text) where
  unfoldable pub assign : Text → EnumParam → Result EnumParam
  unfolding index_of
  assign str p = stored p (index_of str 0 type_string)

  unfoldable pub value : EnumParam → Text
  value p = elim p.val [ negsuc n ↦ [] | pos n ↦ nth type_string n ]

  -- `T::MAX` itself is accepted.
  unfoldable pub set_value : ℤ → EnumParam → Result EnumParam
  set_value (pos n) p =
      if leb n (length type_string)
      then ok (record p { val = pos n })
      else err (
          exception (text "Bad <" ++ (p.pname ++ text "> value !"))
            (trace_point "pparam" "set_value"))
  set_value (negsuc n) p =
      err (
        exception (text "Bad <" ++ (p.pname ++ text "> value !"))
          (trace_point "pparam" "set_value"))

abbrev pub bool_strings : List Text
bool_strings =
    text "yes"
    ∷ text "no"
    ∷ text "on"
    ∷ text "off"
    ∷ text "enable"
    ∷ text "disable"
    ∷ text "enabled"
    ∷ text "disabled"
    ∷ text "up"
    ∷ text "down"
    ∷ text "set"
    ∷ text "unset"
    ∷ []

-- `%` of C++: the sign is the one of the dividend.
abbrev pub rem : ℤ → ℕ → ℤ
rem (pos n) m = pos (n % m)
rem (negsuc n) m = neg_ℕ (suc n % m)

unfoldable pub is_disable : EnumParam → Bool
is_disable p = not (eqb_ℤ (rem p.val 2) (pos 0))

unfoldable pub is_enable : EnumParam → Bool
unfolding is_disable
is_enable p = not (is_disable p)

unfoldable pub enable : ℤ → EnumParam → Result EnumParam
unfolding set_value
enable v p = set_value bool_strings (rem (v +ℤ rem v 2) 12) p

unfoldable pub disable : ℤ → EnumParam → Result EnumParam
unfolding set_value
disable v p =
    set_value bool_strings (rem (v +ℤ (if eqb_ℤ (rem v 2) (pos 0) then pos 1 else pos 0)) 12) p

-- `operator=(const bool &)`, with the default arguments ENABLE and DISABLE.
unfoldable pub assign_bool : Bool → EnumParam → Result EnumParam
unfolding enable disable
assign_bool true p = enable (pos 4) p
assign_bool false p = disable (pos 5) p

unfoldable pub equals_bool : Bool → EnumParam → Bool
unfolding is_enable is_disable
equals_bool true p = is_enable p
equals_bool false p = is_disable p

unfoldable pub equals_int : ℤ → EnumParam → Bool
equals_int v p = eqb_ℤ p.val v
