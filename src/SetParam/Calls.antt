-- ===== src/SetParam/Calls.antt =====
-- The calls of an `XSetParam` (include/xparam.hpp), one after the other.
use pparam.Prelude.{
  ℕ, ◌≡◌, ◌↔◌, refl, ap, sym, subst, Bool, true, false, Option, none, some, List, [], ◌∷◌, ◌++◌,
  if◌then◌else◌, append_nil,
}
use pparam.Exception.{Exception, Result, ok, err, ◌>>=◌}
use pparam.SetParam.{
  Keys, Map, SetParam, lookup, erase_key, put_key, key_exist, add2smap, end_add, add_param, add_all,
  end_enable, enable_smap, disable_smap, find, end_del, del_soft, clear,
}
use pparam.SetParam.Mirror.{
  Indexed, Mirrors, Indexed-append, pop_back-append, is_in, lookup_found, found_lookup,
  Indexed-erase,
}

pub data Call : Type 0 where
  add del : ℕ → Call
  enable disable clearing : Call

unfoldable pub run : Keys → SetParam → Call → SetParam
run key s (add p) = (add_param key s p).0
run key s (del k) = (del_soft s k).0
run key s enable = (enable_smap key s).0
run key s disable = disable_smap s
run key s clearing = clear s

-- `enable_smap` of a map that is enabled takes every key for a duplicate.
abbrev pub IsInOrder : SetParam → Call → Type 0
IsInOrder s enable = s.smap_enabled ≡ false
IsInOrder s _ = Unit

ok_inj : {A : Type 0} {a b : A} → ok a ≡ ok b → a ≡ b
ok_inj h = cc

add2smap-Indexed :
    (key : Keys) (ps : List ℕ) (m n : Map) (p : ℕ)
    → Indexed key ps m
    → add2smap key m p ≡ ok n
    → Indexed key (ps ++ (p ∷ [])) n
unfolding add2smap
add2smap-Indexed key ps m n p i h = on_key (key p) refl h
  where
    on_found :
        (k : ℕ) (f : Option ℕ)
        → key p ≡ some k
        → lookup k m ≡ f
        → put_key m p (some k) f ≡ ok n
        → Indexed key (ps ++ (p ∷ [])) n
    on_found k (some q) e l h = absurd (cc)
    on_found k none e l h =
        subst (Indexed key (ps ++ (p ∷ []))) (ok_inj h) (Indexed-append key ps m p k i e l)

    on_key :
        (o : Option ℕ)
        → key p ≡ o
        → put_key m p o (key_exist m o) ≡ ok n
        → Indexed key (ps ++ (p ∷ [])) n
    on_key none e h = absurd (cc)
    on_key (some k) e h = on_found k (lookup k m) e refl h

append-append : (front back : List ℕ) (p : ℕ) → (front ++ (p ∷ [])) ++ back ≡ front ++ (p ∷ back)
append-append [] back p = refl
append-append (q ∷ front) back p = ap (λ k. q ∷ k) (append-append front back p)

add_all-Indexed :
    (key : Keys) (front back : List ℕ) (m n : Map)
    → Indexed key front m
    → add_all key m back ≡ ok n
    → Indexed key (front ++ back) n
unfolding add_all
add_all-Indexed key front [] m n i h =
    subst (λ k. Indexed key k n) (sym (append_nil front)) (subst (Indexed key front) (ok_inj h) i)
add_all-Indexed key front (p ∷ back) m n i h = on_result (add2smap key m p) refl h (λ m' e h'.
    subst (λ k. Indexed key k n) (append-append front back p)
      (add_all-Indexed key (front ++ (p ∷ [])) back m' n (add2smap-Indexed key front m m' p i e)
        h'))
  where
    on_result :
        (r : Result Map)
        → add2smap key m p ≡ r
        → (r >>= λ k. add_all key k back) ≡ ok n
        → ((m' : Map)
            → add2smap key m p ≡ ok m'
            → add_all key m' back ≡ ok n
            → Indexed key (front ++ (p ∷ back)) n)
        → Indexed key (front ++ (p ∷ back)) n
    on_result (ok m') e h rest = rest m' e h
    on_result (err x) e h rest = absurd (cc)

abbrev state : List ℕ → Map → Bool → SetParam
state ps m b = record { params = ps; smap = m; smap_enabled = b }

end_add-Mirrors :
    (key : Keys) (ps : List ℕ) (m : Map) (p : ℕ) (r : Result Map)
    → Indexed key ps m
    → add2smap key m p ≡ r
    → Mirrors key (end_add (state ps m true) p r).0
end_add-Mirrors key ps m p (ok n) i e = add2smap-Indexed key ps m n p i e
end_add-Mirrors key ps m p (err x) i e = subst (λ k. Indexed key k m) (sym (pop_back-append ps p)) i

add-Mirrors :
    (key : Keys) (ps : List ℕ) (m : Map) (b : Bool) (p : ℕ)
    → Mirrors key (state ps m b)
    → Mirrors key (add_param key (state ps m b) p).0
unfolding add_param
add-Mirrors key ps m true p h = end_add-Mirrors key ps m p (add2smap key m p) h refl
add-Mirrors key ps m false p h = h

end_del-Mirrors :
    (key : Keys) (ps : List ℕ) (m : Map) (b : Bool) (k : ℕ) (o : Option ℕ)
    → Mirrors key (state ps m b)
    → lookup k m ≡ o
    → Mirrors key (end_del (state ps m b) k o).0
unfolding erase_key
end_del-Mirrors key ps m b k none h e = h
end_del-Mirrors key ps m true k (some p) h e = Indexed-erase key ps m k p h e
end_del-Mirrors key ps m false k (some p) h e = ap (erase_key k) h

end_enable-Mirrors :
    (key : Keys) (ps : List ℕ) (m : Map) (r : Result Map)
    → add_all key [] ps ≡ r
    → Mirrors key (end_enable (state ps m false) r).0
end_enable-Mirrors key ps m (ok n) e = add_all-Indexed key [] ps [] n tt e
end_enable-Mirrors key ps m (err x) e = refl

enable-Mirrors :
    (key : Keys) (ps : List ℕ) (m : Map) (b : Bool)
    → Mirrors key (state ps m b)
    → b ≡ false
    → Mirrors key (enable_smap key (state ps m b)).0
unfolding enable_smap
enable-Mirrors key ps m true h e = absurd (cc)
enable-Mirrors key ps m false h e =
    end_enable-Mirrors key ps m (add_all key m ps) (ap (λ k. add_all key k ps) (sym h))

clear-Mirrors :
    (key : Keys) (ps : List ℕ) (m : Map) (b : Bool)
    → Mirrors key (state ps m b)
    → Mirrors key (clear (state ps m b))
unfolding clear
clear-Mirrors key ps m true h = tt
clear-Mirrors key ps m false h = h

-- After each call, also one that throws: an enabled map has exactly the parameters of the list,
-- each under its key and no key twice, and a disabled map is empty; if this held before the call,
-- and `enable_smap` is called on a disabled map only.
pub run-Mirrors :
    (key : Keys) (s : SetParam) (c : Call)
    → Mirrors key s
    → IsInOrder s c
    → Mirrors key (run key s c)
unfolding run del_soft disable_smap
run-Mirrors key s (add p) h o = add-Mirrors key s.params s.smap s.smap_enabled p h
run-Mirrors key s (del k) h o =
    end_del-Mirrors key s.params s.smap s.smap_enabled k (lookup k s.smap) h refl
run-Mirrors key s enable h o = enable-Mirrors key s.params s.smap s.smap_enabled h o
run-Mirrors key s disable h o = refl
run-Mirrors key s clearing h o = clear-Mirrors key s.params s.smap s.smap_enabled h

-- Where an enabled map mirrors the list, `find` gives a parameter exactly if it is in the list and has
-- the key.
pub find-is_in :
    (key : Keys) (s : SetParam) (k p : ℕ)
    → Mirrors key s
    → s.smap_enabled ≡ true
    → (find s k ≡ some p) ↔ ((key p ≡ some k) × (is_in p s.params ≡ true))
unfolding find
find-is_in key s k p h e =
    let i : Indexed key s.params s.smap =
      subst (λ b. if b then Indexed key s.params s.smap else s.smap ≡ []) e h in
    (
      λ f. lookup_found key s.params s.smap k p i f,
      λ a. found_lookup key s.params s.smap k p i a.0 a.1,
    )

-- An `addParam` that throws leaves the object as it was.
add_param_refused :
    (key : Keys) (s : SetParam) (p : ℕ) (e : Exception)
    → (add_param key s p).1 ≡ err e
    → (add_param key s p).0 ≡ s
unfolding add_param
add_param_refused key s p e h = on_enabled s.smap_enabled (add2smap key s.smap p) h
  where
    on_enabled :
        (b : Bool) (r : Result Map)
        → (if b then end_add s p r else (record s { params = s.params ++ (p ∷ []) }, ok tt)).1
          ≡ err e
        → (if b then end_add s p r else (record s { params = s.params ++ (p ∷ []) }, ok tt)).0 ≡ s
    on_enabled true (ok n) h = absurd (cc)
    on_enabled true (err x) h = ap (λ k. record s { params = k }) (pop_back-append s.params p)
    on_enabled false r h = absurd (cc)
