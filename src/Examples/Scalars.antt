-- ===== src/Examples/Scalars.antt =====
-- Integer, enumeration, Boolean and single parameters, and the theorems on them.
use pparam.Prelude.{
  false, some, List, Text, ◌+◌, ◌-◌, ◌%◌, ◌≡◌, refl, arith, inl, ◌⊎◌, [], ◌∷◌, text,
}
use pparam.Prelude.Int.{pos}
use pparam.Exception.{Result, ok}
use pparam.IntParam.{IntParam, assign, decrement}
use pparam.IntParam.Range.{InRange, Circulates, increments, increments_cyclic, decrement_lem}
use pparam.IntParam.Changes.{change, change-InRange, reads}
use pparam.SingleParam.{Param, comment, content, strip_blanks, assign_children, out_of_range}
use pparam.SingleParam.Stripped.{trim_start, trim_end, strip_blanks_lem}
use pparam.EnumParam
use pparam.EnumParam.{EnumParam, bool_strings}
use pparam.Prelude.Decimal.{read_digits}
use pparam.Prelude.Scan.{skip_space}
use pparam.EnumParam.Named.{Absent, Threw, assign_lem}

abbrev level : IntParam
level = record { pname = text "level"; min = 3; max = 7; val = 6 }

abbrev count : IntParam
count = record { pname = text "count"; min = 0; max = 9; val = 0 }

decrement_run : (decrement count).val ≡ 4294967295
unfolding decrement
decrement_run = refl

assign_run : assign 0 (b' ' ∷ b'5' ∷ b'x' ∷ []) level ≡ ok (record level { val = 5 })
unfolding assign skip_space read_digits
assign_run = refl

level-InRange : InRange level
level-InRange = (omega arith, omega arith, omega arith, λ _. (omega arith, omega arith))

increments_cyclic_example :
    (Circulates (increments 12 level))
    × ((increments 12 level).min ≡ 3)
    × ((increments 12 level).max ≡ 7)
    × ((increments 12 level).val - 3 ≡ (6 - 3 + 12) % (7 - 3 + 1))
increments_cyclic_example =
    increments_cyclic 12 level (level-InRange, omega arith, inl (omega arith))

decrement_lem_example : (decrement count).val ≡ 4294967295
decrement_lem_example =
    decrement_lem count (omega arith, omega arith, omega arith, λ _. (omega arith, omega arith))
      (omega arith)

change-InRange_example : InRange (change (reads 0 (b'9' ∷ [])) level)
change-InRange_example = change-InRange (reads 0 (b'9' ∷ [])) level level-InRange (omega arith)

abbrev switch : EnumParam
switch = record { pname = text "switch"; def = pos 0; val = pos 1 }

assign_lem_example :
    ((Absent (text "off") bool_strings) × Threw (EnumParam.assign bool_strings (text "off") switch))
    ⊎ ((q : EnumParam) × (EnumParam.assign bool_strings (text "off") switch ≡ ok q)
        × (EnumParam.value bool_strings q ≡ text "off"))
assign_lem_example = assign_lem bool_strings (text "off") switch

strip_blanks_lem_example :
    strip_blanks (32 ∷ 32 ∷ b'a' ∷ 32 ∷ b'b' ∷ 32 ∷ []) ≡ some (b'a' ∷ 32 ∷ b'b' ∷ [])
unfolding trim_start trim_end
strip_blanks_lem_example = strip_blanks_lem (32 ∷ 32 ∷ b'a' ∷ 32 ∷ b'b' ∷ 32 ∷ [])

-- A parameter that keeps the texts it is assigned.
abbrev keeper : Param
keeper = record { pname = b'p' ∷ []; version = []; runtime = false }

abbrev kept_texts : Text → List Text → List Text × Result (Unit {0})
kept_texts t ts = (t ∷ ts, ok tt)

assign_children_run :
    assign_children
      (λ _. keeper)
      kept_texts
      (content (b'a' ∷ 32 ∷ []) ∷ comment ∷ content (32 ∷ []) ∷ [])
      []
    ≡ out_of_range ((b'a' ∷ []) ∷ [])
unfolding assign_children strip_blanks
assign_children_run = refl
