-- ===== src/Repository/Registered.antt =====
-- Registering and unregistering an object list (include/xobject.hpp, `regObjList` and
-- `unregObjList`).
use pparam.Prelude.{
  ◌≡◌, refl, subst, sym, ◌∙◌, Bool, true, false, Option, none, some, List, [], ◌∷◌, arith,
  if◌then◌else◌, Bool-cases, Option-cases, inl, inr, ◌⊎◌, text,
}
use pparam.Prelude.Int.{ℤ, eqb_ℤ, ltb_ℤ}
use pparam.Exception.{exception, trace_point, ok, err}
use pparam.Repository.{
  ended, ListOps, Repository, done, ◌>>◌, wrlock, unlock, lookup, insert, replaced, erased,
  find_list, on_list,
}
use pparam.Repository.Lists.{given_or, reg_at, reg_obj_list, erase_list, unreg_obj_list}

-- A repository that nobody has locked.
abbrev pub unlocked : {L : Type 0} → List (ℤ × L) → Option Bool → Repository L
unlocked ls cancel = record { lists = ls; readers = 0; writer = false; cancel = cancel }

eqb_refl : (i : ℤ) → eqb_ℤ i i ≡ true
eqb_refl i = ground arith

apart : (i j k : ℤ) → eqb_ℤ k j ≡ true → eqb_ℤ k i ≡ false → eqb_ℤ i j ≡ false
apart i j k h g = ground arith

none-some : {L : Type 0} (l : L) → ¬ (some l ≡ none)
none-some l e = cc

-- An entry that is not the one asked for is not in the way.
tail_free :
    {L : Type 0} (id k : ℤ) (m : L) (rest : List (ℤ × L))
    → lookup id ((k, m) ∷ rest) ≡ none
    → (eqb_ℤ k id ≡ false) × (lookup id rest ≡ none)
unfolding lookup
tail_free id k m rest h = elim (Bool-cases (eqb_ℤ k id)) [
  | inl e ↦
      absurd (none-some m (subst (λ (b : Bool). (if b then some m else lookup id rest) ≡ none) e h))
  | inr e ↦ (e, subst (λ (b : Bool). (if b then some m else lookup id rest) ≡ none) e h)
]

lookup-insert :
    {L : Type 0} (id j : ℤ) (l : L) (ls : List (ℤ × L))
    → lookup id ls ≡ none
    → lookup j (insert id l ls) ≡ (if eqb_ℤ id j then some l else lookup j ls)
unfolding lookup insert
lookup-insert id j l [] h = refl
lookup-insert id j l ((k, m) ∷ rest) h =
    let free = tail_free id k m rest h in
    let later = lookup-insert id j l rest free.1 in
    elim (Bool-cases (ltb_ℤ id k)) [
      | inl before ↦ simp (before)
      | inr after ↦ elim (Bool-cases (eqb_ℤ k j)) [
        | inl here ↦
            let other : eqb_ℤ id j ≡ false = apart id j k here free.0 in simp (after, here, other)
        | inr there ↦ simp (after, there, later)
      ]
    ]

erased-replaced :
    {L : Type 0} (id : ℤ) (l l' : L) (ls : List (ℤ × L))
    → lookup id ls ≡ none
    → erased id (replaced id l' (insert id l ls)) ≡ ls
unfolding lookup insert replaced erased
erased-replaced id l l' [] h = simp (eqb_refl id)
erased-replaced id l l' ((k, m) ∷ rest) h =
    let free = tail_free id k m rest h in
    elim (Bool-cases (ltb_ℤ id k)) [
      | inl before ↦ simp (before, eqb_refl id)
      | inr after ↦ simp (after, free.0, erased-replaced id l l' rest free.1)
    ]

module _ {L O I Q T : Type 0} (ops : ListOps L O I Q T) where
  abbrev registered : Option L → L → L
  registered given made = ops.set_repo (given_or ops given made)

  reg_new :
      (id : ℤ) (given : Option L) (made : L) (ls : List (ℤ × L)) (cancel : Option Bool)
      → lookup id ls ≡ none
      → reg_obj_list ops id given made (unlocked ls cancel)
        ≡ done
            (unlocked (insert id (registered given made) ls) cancel)
            (ok (given_or ops given made))
  unfolding reg_obj_list reg_at wrlock unlock
  reg_new id given made ls cancel h = simp (h)

  -- Registering a list in a repository that nobody has locked: under a number that is free, the list
  -- is found there from then on and every other number finds what it found before; under a number
  -- that is taken, it throws. Either way the lock is free again, and without the new list nothing
  -- has changed.
  pub reg_obj_list-lookup :
      (id : ℤ) (given : Option L) (made : L) (ls : List (ℤ × L)) (cancel : Option Bool)
      → ((lookup id ls ≡ none)
          × (reg_obj_list ops id given made (unlocked ls cancel)
              ≡ done
                  (unlocked (insert id (registered given made) ls) cancel)
                  (ok (given_or ops given made)))
          × ((j : ℤ)
              → lookup j (insert id (registered given made) ls)
                ≡ (if eqb_ℤ id j then some (registered given made) else lookup j ls)))
        ⊎ ((¬ (lookup id ls ≡ none))
            × (reg_obj_list ops id given made (unlocked ls cancel)
                ≡ done (unlocked ls cancel) (
                    err
                      (exception (text "Duplicate list !") (trace_point "xobject" "regObjList")))))
  unfolding reg_obj_list reg_at wrlock unlock
  reg_obj_list-lookup id given made ls cancel = elim (Option-cases (lookup id ls)) [
    | inl free ↦ inl (
      free,
      reg_new id given made ls cancel free,
      λ j. lookup-insert id j (registered given made) ls free,
    )
    | inr (old, taken) ↦ inr (λ e. none-some old (sym taken ∙ e), simp (taken))
  ]

  lookup-inserted :
      (id : ℤ) (l : L) (ls : List (ℤ × L))
      → lookup id ls ≡ none
      → lookup id (insert id l ls) ≡ some l
  lookup-inserted id l ls h = lookup-insert id id l ls h ∙ simp (eqb_refl id)

  -- A list that is registered under a free number of an unlocked repository and unregistered again
  -- leaves the repository as it was, whatever `unload` answers, if it returns.
  pub unreg_obj_list-reg_obj_list :
      (id : ℤ) (given : Option L) (made l' : L) (b : Bool) (ls : List (ℤ × L))
      (cancel : Option Bool)
      → lookup id ls ≡ none
      → ops.unload (registered given made) ≡ ended l' (ok b)
      → (reg_obj_list ops id given made >> unreg_obj_list ops id) (unlocked ls cancel)
        ≡ done (unlocked ls cancel) (ok tt)
  unfolding unreg_obj_list erase_list on_list find_list wrlock unlock
  unreg_obj_list-reg_obj_list id given made l' b ls cancel h unloads =
      let l = registered given made in
      rw (reg_new id given made ls cancel h)
        (simp (lookup-inserted id l ls h, unloads, erased-replaced id l l' ls h))
