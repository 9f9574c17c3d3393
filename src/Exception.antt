-- ===== src/Exception.antt =====
-- include/exception.hpp and src/exception.cpp: exceptions as values, and the result of a call
-- that may throw one.
use pparam.Prelude.{
  ℕ, Bool, true, false, List, [], ◌∷◌, ◌++◌, Text, String, text, print_nat, if◌then◌else◌,
}

-- `nok`: the operation is done but some errors occurred. `failed`: it is not done.
pub data ExStatus : Type 0 where
  nok failed : ExStatus

pub record TraceInfo : Type 0 where
  pub sub_system_name : Text
  pub function_name : Text
  pub function_parameters : Text

pub record Exception : Type 0 where
  pub status : ExStatus
  pub module_name : Text
  pub err : ℕ
  pub exc_desc : Text
  pub nok_desc : Text
  pub call_sequence : List TraceInfo

-- `TracePoint(SystemName)`, which takes the function's name from `__FUNCTION__`.
pub trace_point : String → String → TraceInfo
trace_point system function = record {
  sub_system_name = text system;
  function_name = text function;
  function_parameters = [];
}

-- `err = -1` in an unsigned int.
abbrev pub no_errno : ℕ
no_errno = 0xffffffff

unfoldable pub exception : Text → TraceInfo → Exception
exception des t = record {
  status = failed;
  module_name = [];
  err = no_errno;
  exc_desc = des;
  nok_desc = [];
  call_sequence = t ∷ [];
}

unfoldable pub exception_with_status : ExStatus → Text → TraceInfo → Exception
unfolding exception
exception_with_status st des t = record (exception des t) { status = st }

unfoldable pub exception_with_errno : Text → ℕ → Text → TraceInfo → Exception
unfolding exception
exception_with_errno m e des t = record (exception des t) { module_name = m; err = e }

unfoldable pub add_trace_point : TraceInfo → Exception → Exception
add_trace_point t e = record e { call_sequence = t ∷ e.call_sequence }

unfoldable pub is_failed : Exception → Bool
is_failed e = elim e.status [ failed ↦ true | nok ↦ false ]

unfoldable pub is_nok : Exception → Bool
is_nok e = elim e.status [ failed ↦ false | nok ↦ true ]

xml_call : TraceInfo → Text
xml_call t =
    text "<call><system_name>"
    ++ (t.sub_system_name
        ++ (text "</system_name><function>"
            ++ (t.function_name
                ++ (text "</function><params>"
                    ++ (t.function_parameters ++ text "</params></call>")))))

xml_calls : List TraceInfo → Text
unfolding xml_call
xml_calls [] = []
xml_calls (t ∷ ts) = xml_call t ++ xml_calls ts

pub exception_xml : Exception → Bool → Text
unfolding xml_calls
exception_xml e with_call_trace =
    text "<mid>"
    ++ (e.module_name
        ++ (text "</mid><aid></aid><errno>"
            ++ (print_nat e.err
                ++ (text "</errno><what>"
                    ++ (e.exc_desc ++ (text "</what>" ++ call_trace with_call_trace))))))
  where
    call_trace : Bool → Text
    call_trace true = text "<call_trace>" ++ (xml_calls e.call_sequence ++ text "</call_trace>")
    call_trace false = []

-- What a call that may throw hands back.
pub data Result {ℓ} (A : Type ℓ) : Type ℓ where
  ok : A → Result A
  err : Exception → Result A

-- The exception of an `if (...) throw` whose test keeps the call going when it is true.
abbrev pub guard : Bool → Exception → Result (Unit {0})
guard passes thrown = if passes then ok tt else err thrown

infixl 5 ◌>>=◌ ◌>>◌
abbrev pub ◌>>=◌ {ℓ κ} : {V : Type ℓ} {W : Type κ} → Result V → (V → Result W) → Result W
err thrown >>= continue = err thrown
ok value >>= continue = continue value

abbrev pub ◌>>◌ {ℓ} : {W : Type ℓ} → Result (Unit {0}) → Result W → Result W
err thrown >> next = err thrown
ok _ >> next = next

-- `catch (Exception &e) { e.addTracePoint(...); throw e; }`
abbrev pub rethrow {ℓ} : {A : Type ℓ} → TraceInfo → Result A → Result A
rethrow t (ok a) = ok a
rethrow t (err e) = err (add_trace_point t e)
