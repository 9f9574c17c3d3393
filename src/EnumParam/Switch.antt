-- ===== src/EnumParam/Switch.antt =====
-- `BoolParam` (src/sparam.cpp): the parameter as a switch.
use pparam.Prelude.{ℕ, ◌≡◌, refl, not, Bool, true, false, arith, if◌then◌else◌}
use pparam.Prelude.Int.{pos, ◌+ℤ◌}
use pparam.Exception.{Result, ok, err}
use pparam.EnumParam.{
  EnumParam, set_value, is_enable, is_disable, enable, disable, assign_bool, equals_bool,
}

-- What a call leaves, if it returns.
abbrev pub Leaves : (EnumParam → Type 0) → Result EnumParam → Type 0
Leaves P (ok p) = P p
Leaves P (err e) = ⊥

-- `enable` and `disable` of any number from 0 on return, and switch the parameter on and off.
enable_lem :
    (p : EnumParam) (n : ℕ)
    → (Leaves (λ q. (is_enable q ≡ true) × (is_disable q ≡ false)) (enable (pos n) p))
      × (Leaves (λ q. (is_enable q ≡ false) × (is_disable q ≡ true)) (disable (pos n) p))
unfolding enable disable set_value is_enable is_disable ◌+ℤ◌
enable_lem p n = ground arith

-- A parameter that is assigned a Boolean is equal to that one and not to the other.
equals_bool-assign_bool :
    (p : EnumParam) (b c : Bool)
    → Leaves (λ q. equals_bool c q ≡ (if b then c else not c)) (assign_bool b p)
unfolding assign_bool equals_bool enable disable set_value is_enable is_disable ◌+ℤ◌
equals_bool-assign_bool p true true = refl
equals_bool-assign_bool p true false = refl
equals_bool-assign_bool p false true = refl
equals_bool-assign_bool p false false = refl
