-- ===== src/SetParam.antt =====
-- `XSetParam` of include/xparam.hpp: a list of parameters and its search map. A parameter is the
-- address of an object; `T::key` is an argument. Keys are numbers, like those of the default `int`.
pub mod Mirror
pub mod Calls
pub mod Sort
pub mod Sorted
use pparam.Prelude.{
  ℕ, Bool, true, false, Option, none, some, List, [], ◌∷◌, ◌++◌, text, ◌==◌, if◌then◌else◌,
}
use pparam.Exception.{
  Exception, exception, add_trace_point, Result, ok, err, rethrow, ◌>>=◌, trace_point,
}

abbrev pub Keys : Type 0
Keys = ℕ → Option ℕ

abbrev pub Map : Type 0
Map = List (ℕ × ℕ)

pub record SetParam : Type 0 where
  pub params : List ℕ
  pub smap : Map
  pub smap_enabled : Bool

-- `smap.find`
unfoldable pub lookup : ℕ → Map → Option ℕ
lookup k [] = none
lookup k ((j, p) ∷ m) = let rest = lookup k m in if j == k then some p else rest

-- `smap.erase` of the entry with a key.
unfoldable pub erase_key : ℕ → Map → Map
erase_key k [] = []
erase_key k ((j, p) ∷ m) = let rest = erase_key k m in if j == k then m else (j, p) ∷ rest

-- `params.erase` of what `std::find` finds.
unfoldable pub erase_param : ℕ → List ℕ → List ℕ
erase_param p [] = []
erase_param p (q ∷ ps) = let rest = erase_param p ps in if q == p then ps else q ∷ rest

abbrev pub pop_back : List ℕ → List ℕ
pop_back [] = []
pop_back (p ∷ []) = []
pop_back (p ∷ q ∷ ps) = p ∷ pop_back (q ∷ ps)

abbrev no_key : Exception
no_key = exception (text "Parameter doesn't have any key !") (trace_point "pparam" "add2SMap")

abbrev duplicated : Exception
duplicated = exception (text "Duplicated key parameter !") (trace_point "pparam" "add2SMap")

abbrev pub put_key : Map → ℕ → Option ℕ → Option ℕ → Result Map
put_key m p none found = err no_key
put_key m p (some k) (some q) = err duplicated
put_key m p (some k) none = ok (m ++ ((k, p) ∷ []))

abbrev pub key_exist : Map → Option ℕ → Option ℕ
key_exist m none = none
key_exist m (some k) = lookup k m

-- `add2SMap`
unfoldable pub add2smap : Keys → Map → ℕ → Result Map
unfolding lookup
add2smap key m p = put_key m p (key p) (key_exist m (key p))

abbrev pub end_add : SetParam → ℕ → Result Map → SetParam × Result (Unit {0})
end_add s p (ok m) = (record s { params = s.params ++ (p ∷ []); smap = m }, ok tt)
end_add s p (err e) = (
  record s { params = pop_back (s.params ++ (p ∷ [])) },
  err (add_trace_point (trace_point "pparam" "addParam") e),
)

-- `addParam` of an object that is a `T`.
unfoldable pub add_param : Keys → SetParam → ℕ → SetParam × Result (Unit {0})
unfolding add2smap
add_param key s p =
    if s.smap_enabled
    then end_add s p (add2smap key s.smap p)
    else (record s { params = s.params ++ (p ∷ []) }, ok tt)

-- The loop of `enable_smap`.
unfoldable pub add_all : Keys → Map → List ℕ → Result Map
unfolding add2smap
add_all key m [] = ok m
add_all key m (p ∷ ps) = add2smap key m p >>= λ n. add_all key n ps

abbrev pub end_enable : SetParam → Result Map → SetParam × Result (Unit {0})
end_enable s (ok m) = (record s { smap = m; smap_enabled = true }, ok tt)
end_enable s (err e) =
    (record s { smap = [] }, err (add_trace_point (trace_point "pparam" "enable_smap") e))

unfoldable pub enable_smap : Keys → SetParam → SetParam × Result (Unit {0})
unfolding add_all
enable_smap key s = end_enable s (add_all key s.smap s.params)

unfoldable pub disable_smap : SetParam → SetParam
disable_smap s = record s { smap = []; smap_enabled = false }

unfoldable pub find : SetParam → ℕ → Option ℕ
unfolding lookup
find s k = lookup k s.smap

abbrev pub end_del : SetParam → ℕ → Option ℕ → SetParam × Option ℕ
end_del s k none = (s, none)
end_del s k (some p) =
    (record s { params = erase_param p s.params; smap = erase_key k s.smap }, some p)

-- `del_soft(const Key &)`; `del` frees what it returns.
unfoldable pub del_soft : SetParam → ℕ → SetParam × Option ℕ
unfolding lookup erase_param erase_key
del_soft s k = end_del s k (lookup k s.smap)

unfoldable pub clear : SetParam → SetParam
clear s = record s { params = []; smap = if s.smap_enabled then [] else s.smap }
