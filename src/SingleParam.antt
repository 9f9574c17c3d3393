-- ===== src/SingleParam.antt =====
-- `XParam::stripBlanks`, `XParam::is_myNode` and `XSingleParam` of src/xparam.cpp. A node of an xml
-- document is its name, its attribute "ver" and its children; what a class derived from
-- `XSingleParam` does with a text is an argument.
pub mod Stripped
use pparam.Prelude.{
  ℕ, zero, suc, ◌+◌, ◌-◌, ◌==◌, ◌&&◌, Bool, true, false, not, Option, none, some, List, [], ◌∷◌,
  ◌++◌, take, drop, length, Text, text, text_eq, if◌then◌else◌,
}
use pparam.Exception.{
  failed, Exception, exception, exception_with_status, trace_point, Result, ok, err,
}

pub record Param : Type 0 where
  pub pname : Text
  pub version : Text
  pub runtime : Bool

pub data Child : Type 0 where
  comment element : Child
  content : Text → Child

pub record Node : Type 0 where
  pub name : Text
  pub ver : Text
  pub children : List Child

abbrev pub further : Option ℕ → Option ℕ
further none = none
further (some i) = some (suc i)

-- `find_first_not_of(" ")`
unfoldable pub first_not_blank : Text → Option ℕ
first_not_blank [] = none
first_not_blank (c ∷ s) = let rest = first_not_blank s in if c == 32 then further rest else some 0

abbrev pub last_or : Bool → Option ℕ → Option ℕ
last_or blank (some i) = some (suc i)
last_or true none = none
last_or false none = some 0

-- `find_last_not_of(" ")`
unfoldable pub last_not_blank : Text → Option ℕ
last_not_blank [] = none
last_not_blank (c ∷ s) = last_or (c == 32) (last_not_blank s)

-- `str.substr(start, end - start + 1)`; it throws std::out_of_range, which is `none`, if nothing was
-- found: `start` is -1 then.
abbrev pub cut : Text → Option ℕ → Option ℕ → Option Text
cut str none end = none
cut str (some start) none = none
cut str (some start) (some end) = some (take (end - start + 1) (drop start str))

unfoldable pub strip_blanks : Text → Option Text
unfolding first_not_blank last_not_blank
strip_blanks [] = some []
strip_blanks (c ∷ s) = cut (c ∷ s) (first_not_blank (c ∷ s)) (last_not_blank (c ∷ s))

abbrev is_empty : Text → Bool
is_empty [] = true
is_empty (c ∷ s) = false

unfoldable pub is_my_node : Param → Option Node → Result Bool
is_my_node p none = ok false
is_my_node p (some node) =
    if not (text_eq p.pname node.name)
    then ok false
    else if is_empty p.version
    then ok true
    else if is_empty node.ver
    then err (
        exception (text "There is no \"ver\" attribute in " ++ (p.pname ++ text " element"))
          (trace_point "pparam" "is_myNode"))
    else if text_eq node.ver p.version
    then ok true
    else err (
        exception
          (text "Bad " ++ (p.pname ++ (text " version! supported version is: " ++ p.version)))
          (trace_point "pparam" "is_myNode"))

-- How the assignment of a node ends; `out_of_range`: by the exception of the standard library.
pub data NodeRun (P : Type 0) : Type 0 where
  ended : P → Result (Unit {0}) → NodeRun P
  out_of_range : P → NodeRun P

module _ {P : Type 0} (base : P → Param) (assign : Text → P → P × Result (Unit {0})) where
  abbrev pub go_on : P × Result (Unit {0}) → (P → NodeRun P) → NodeRun P
  go_on (p, ok _) k = k p
  go_on (p, err e) k = ended p (err e)

  abbrev pub assign_text : Option Text → P → (P → NodeRun P) → NodeRun P
  assign_text none p k = out_of_range p
  assign_text (some s) p k = go_on (assign s p) k

  -- The loop over the children of the node.
  unfoldable pub assign_children : List Child → P → NodeRun P
  unfolding strip_blanks
  assign_children [] p = ended p (ok tt)
  assign_children (comment ∷ cs) p = assign_children cs p
  assign_children (element ∷ cs) p = assign_children cs p
  assign_children (content t ∷ cs) p = assign_text (strip_blanks t) p (λ q. assign_children cs q)

  abbrev pub if_mine : Result Bool → NodeRun P → P → NodeRun P
  if_mine (err e) run p = ended p (err e)
  if_mine (ok false) run p = ended p (ok tt)
  if_mine (ok true) run p = run

  abbrev children_of : Option Node → List Child
  children_of none = []
  children_of (some n) = n.children

  unfoldable pub assign_node : Option Node → P → NodeRun P
  unfolding is_my_node assign_children
  assign_node node p = if_mine (is_my_node (base p) node) (assign_children (children_of node) p) p

module _ {P : Type 0} (base : P → Param) (value : P → Text) where
  -- The argument is what `dynamic_cast` gives for the other parameter.
  unfoldable pub equal : P → Option P → Result Bool
  equal p none = err (
      exception_with_status failed (text "Bad single parameter in assignment !")
        (trace_point "pparam" "operator=="))
  equal p (some q) = ok (text_eq (base p).pname (base q).pname && text_eq (value p) (value q))

  abbrev blanks : ℕ → Text
  blanks zero = []
  blanks (suc n) = 32 ∷ blanks n

  abbrev version_text : Text → Text
  version_text [] = []
  version_text (c ∷ s) = text " ver=\"" ++ ((c ∷ s) ++ text "\"")

  -- `_xml`; a runtime parameter is only shown if it is asked for.
  unfoldable pub xml : Bool → ℕ → Text → P → Text
  xml show_runtime indent endl p =
      if (base p).runtime && not show_runtime
      then []
      else blanks indent
        ++ (text "<"
            ++ ((base p).pname
                ++ (version_text (base p).version
                    ++ (text ">"
                        ++ (value p ++ (text "</" ++ ((base p).pname ++ (text ">" ++ endl))))))))
