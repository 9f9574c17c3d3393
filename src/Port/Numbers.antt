-- ===== src/Port/Numbers.antt =====
-- `PortParam::operator=(const unsigned int)` of src/sparam.cpp beside the assignment of a text.
use pparam.Prelude.{
  ℕ, ◌≤◌, ◌≡◌, ap, sym, ◌∙◌, false, [], length, length-append, append_nil, print_nat, arith,
}
use pparam.Prelude.Int.{pos}
use pparam.Prelude.Decimal.{
  digits_value, digits_value-print_nat, length-print_nat-le, print_nat-IsDigits, print_nat_nonempty,
}
use pparam.Exception.{ok}
use pparam.Port.{PortParam, invalid_port, stored, assign, assign_number}
use pparam.Port.Grammar.{one, print, param_of, assign-print}

-- The number that `unsigned int` assigns and its decimal text, assigned as a text, make the same
-- object, if it is at most 65535.
assign_number-assign :
    (n : ℕ)
    → n ≤ 65535
    → (p : PortParam) × ((assign_number n ≡ ok p) × (assign (print_nat n) ≡ stored p))
unfolding assign_number print
assign_number-assign n h =
    let v : digits_value 0 (print_nat n) ≡ n = digits_value-print_nat n in
    let low : length (print_nat n) ≤ 5 = length-print_nat-le 4 n (omega arith) in
    let text_is : print false (one (print_nat n)) ≡ print_nat n = append_nil (print_nat n) in
    let stored_it : assign (print false (one (print_nat n)))
        ≡ stored (param_of false (one (print_nat n))) =
      assign-print false (one (print_nat n))
        (print_nat-IsDigits n, print_nat_nonempty n, omega (arith, v)) (omega (arith, v))
        (omega (arith, low, length-append (print_nat n) [])) in
    (
      record {
        not_sign = false;
        port_range = false;
        port_string = print_nat n;
        from = pos n;
        to = invalid_port;
      },
      (ground arith, ap assign (sym text_is) ∙ stored_it ∙ ap stored (cc)),
    )
