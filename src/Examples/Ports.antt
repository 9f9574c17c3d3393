-- ===== src/Examples/Ports.antt =====
-- Runs of `PortParam` of src/sparam.cpp.
use pparam.Prelude.{◌≡◌, ◌≢◌, refl, true, codes, arith}
use pparam.Prelude.Decimal.{digits_value}
use pparam.Port.{stored, unfinished, assign, assign_within}
use pparam.Port.Grammar.{PortRange, between, print, param_of, assign-print}
use pparam.Port.Bounds.{IsPorts, assign_within-IsPorts, assign_terminates}

abbrev not_web : PortRange
not_web = between (codes "80") (codes "90")

-- `!80:90`
assign-print_example : assign (print true not_web) ≡ stored (param_of true not_web)
unfolding print digits_value
assign-print_example =
    assign-print true not_web
      (
        ((refl, (refl, tt)), omega arith, omega arith),
        ((refl, (refl, tt)), omega arith, omega arith),
      )
      (omega arith, omega arith) (omega arith)

abbrev backwards : PortRange
backwards = between (codes "90") (codes "80")

assign_within-IsPorts_example :
    IsPorts (param_of true not_web) × ((param_of true not_web).port_string ≡ print true not_web)
unfolding assign
assign_within-IsPorts_example =
    assign_within-IsPorts 257 (print true not_web) (param_of true not_web) assign-print_example

assign_terminates_example :
    (assign_within 1000 (codes "x") ≡ assign (codes "x")) × (assign (codes "x") ≢ unfinished)
assign_terminates_example = assign_terminates (codes "x") 1000 (omega arith) (omega arith)
