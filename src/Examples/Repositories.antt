-- ===== src/Examples/Repositories.antt =====
-- A repository of counters: loading an object raises the counter, an empty key throws, unloading
-- empties a counter; and the theorems on repositories at it.
use pparam.Prelude.{
  ◌⊎◌, if◌then◌else◌, ℕ, ◌+◌, ◌≡◌, refl, Bool, true, false, none, some, [], ◌∷◌, Text, text, ◌==◌,
}
use pparam.Prelude.Int.{ℤ, pos, eqb_ℤ}
use pparam.Exception.{exception, trace_point, ok, err}
use pparam.Repository.{
  ListRun, ended, waits, ListOps, Repository, done, blocked, ◌>>◌, wrlock, lookup, unlock, insert,
  replaced,
}
use pparam.Repository.Lists.{reg_at, unload, reg_obj_list, unreg_obj_list}
use pparam.Repository.Balance.{Kept, Open}
use pparam.Repository.Requests.{run-Balanced, adds_key, run, sweep, loads_all}
use pparam.Repository.Sweeps.{sweep-LeftOpen, unload_blocks}
use pparam.Repository.Registered.{unlocked, reg_obj_list-lookup, unreg_obj_list-reg_obj_list}

abbrev raised : Bool → ℕ → ListRun ℕ ℕ
raised clone n = ended (n + 1) (ok (n + 1))

abbrev refused : {A : Type 0} → ℕ → ListRun ℕ A
refused n = ended n (err (exception (text "no such key") (trace_point "xobject" "query")))

abbrev by_key : Text → ℕ → ListRun ℕ ℕ
by_key [] n = refused n
by_key (c ∷ key) n = ended n (ok n)

-- A counter of five throws.
abbrev loaded : ℕ → ListRun ℕ Bool
loaded n = elim (n == 5) [ true ↦ refused n | false ↦ ended (n + 10) (ok true) ]

abbrev counters : ListOps ℕ Text ℕ ℕ ℕ
counters = record {
  get_key = λ xo. xo;
  set_repo = λ n. n;
  load_obj = λ xo clone n. raised clone n;
  add = λ xo clone n. raised clone n;
  add_key = by_key;
  del_key = by_key;
  mod_obj = λ xo reload n. raised reload n;
  load_xml_str = λ x n. loaded n;
  load_xml_doc = λ x n. loaded n;
  add_loaded_objects = λ n. ended n (ok true);
  save_xml_doc = λ x n. ended n (ok tt);
  save = λ n. ended n (ok tt);
  xml = λ n. ended n (ok (text "<list/>"));
  shell_xml = λ n. ended n (ok (text "<row/>"));
  load = loaded;
  unload = λ n. ended 0 (ok true);
  disconnect_all = λ n. ended n (ok tt);
  query = λ q n. ended n (ok q);
  query_lock = λ q n. waits;
  query_key = by_key;
  query_key_lock = by_key;
  query_name = by_key;
  query_name_lock = by_key;
  query_type_lock = λ t n. ended n (ok (t ∷ []));
  begin = λ n. 1;
  list_end = λ n. 0;
  same_iterator = λ i j. i == j;
  is_end = λ i. i == 0;
  on_element = λ i. elim (i == 0) [ true ↦ false | false ↦ true ];
  no_iterator = 0;
}

abbrev two_lists : Repository ℕ
two_lists = unlocked ((pos 3, 4) ∷ (pos 8, 5) ∷ []) none

reg_obj_list_run :
    reg_obj_list counters (pos 6) none 9 two_lists
    ≡ done (unlocked ((pos 3, 4) ∷ (pos 6, 9) ∷ (pos 8, 5) ∷ []) none) (ok 9)
unfolding reg_obj_list wrlock reg_at lookup unlock insert
reg_obj_list_run = refl

unload_run :
    unload counters two_lists
    ≡ done (record (unlocked ((pos 3, 0) ∷ (pos 8, 0) ∷ []) none) { readers = 2 }) (ok true)
unfolding unload replaced
unload_run = refl

run-Balanced_example : Kept 0 false (run counters (adds_key (pos 3) (text "k")) two_lists)
run-Balanced_example = run-Balanced counters (adds_key (pos 3) (text "k")) two_lists

sweep-LeftOpen_example : Open 0 false (sweep counters loads_all two_lists)
sweep-LeftOpen_example = sweep-LeftOpen counters loads_all two_lists

abbrev unloaded_lists : Repository ℕ
unloaded_lists = record (unlocked ((pos 3, 0) ∷ (pos 8, 0) ∷ []) none) { readers = 2 }

unload_blocks_example :
    (unloaded_lists.readers ≡ two_lists.readers + 2)
    × (reg_obj_list counters (pos 6) none 9 unloaded_lists ≡ blocked)
    × (unreg_obj_list counters (pos 6) unloaded_lists ≡ blocked)
unload_blocks_example =
    unload_blocks counters two_lists unloaded_lists true (pos 6) none 9 unload_run

six_is_free : lookup (pos 6) two_lists.lists ≡ none
unfolding lookup
six_is_free = refl

unreg_obj_list-reg_obj_list_example :
    (reg_obj_list counters (pos 6) none 9 >> unreg_obj_list counters (pos 6)) two_lists
    ≡ done two_lists (ok tt)
unreg_obj_list-reg_obj_list_example =
    unreg_obj_list-reg_obj_list counters (pos 6) none 9 0 true two_lists.lists none six_is_free refl

reg_obj_list-lookup_example :
    ((lookup (pos 8) two_lists.lists ≡ none)
      × (reg_obj_list counters (pos 8) none 9 two_lists
          ≡ done (unlocked (insert (pos 8) 9 two_lists.lists) none) (ok 9))
      × ((j : ℤ)
          → lookup j (insert (pos 8) 9 two_lists.lists)
            ≡ (if eqb_ℤ (pos 8) j then some 9 else lookup j two_lists.lists)))
    ⊎ ((¬ (lookup (pos 8) two_lists.lists ≡ none))
        × (reg_obj_list counters (pos 8) none 9 two_lists
            ≡ done two_lists
                (err (exception (text "Duplicate list !") (trace_point "xobject" "regObjList")))))
reg_obj_list-lookup_example = reg_obj_list-lookup counters (pos 8) none 9 two_lists.lists none
