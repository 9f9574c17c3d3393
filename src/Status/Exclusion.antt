-- ===== src/Status/Exclusion.antt =====
-- How many threads work on one object, and what status `bkStatus` puts back.
use pparam.Prelude.{◌≡◌, refl, subst, ◌↔◌, ◌≤◌, length, true, false, List, [], ◌∷◌, ◌++◌, arith}
use pparam.Status.{
  Status, can_transit, set_status, ObjectStatus, changed, ch_status, bk_status, is_active,
}
use pparam.Status.Threads.{
  Job, job, System, Step, begin, back, finish, Reach, here, next, is_final, after, fresh,
}

-- The jobs that fit an object's status: none while it rests; otherwise one, whose operation is the
-- status, begun from the rest that `xoStatus_prev` still holds.
abbrev pub JobsFit : ObjectStatus → List Job → Type 0
JobsFit o [] = is_active o.xo_status ≡ false
JobsFit o (j ∷ []) =
    (o.xo_status ≡ j.operation)
    × (o.xo_status_prev ≡ j.found)
    × (is_active j.operation ≡ true)
    × (is_active j.found ≡ false)
JobsFit o (j ∷ k ∷ rest) = ⊥

abbrev pub Inv : System → Type 0
Inv s = JobsFit s.object s.jobs

pub alone :
    (o : ObjectStatus) (before : List Job) (j : Job) (rest : List Job)
    → JobsFit o (before ++ (j ∷ rest))
    → (before ≡ []) × (rest ≡ []) × JobsFit o (j ∷ [])
alone o [] j [] h = (refl, refl, h)
alone o [] j (k ∷ rest) h = absurd h
alone o (b ∷ []) j rest h = absurd h
alone o (b ∷ c ∷ before) j rest h = absurd h

begin-JobsFit :
    (o o' : ObjectStatus) (js : List Job) (t : Job)
    → is_active t.operation ≡ true
    → ch_status o t.operation ≡ changed o'
    → t.found ≡ o.xo_status
    → JobsFit o js
    → JobsFit o' (t ∷ js)
unfolding ch_status can_transit is_active
begin-JobsFit o o' [] t a e f h = ground arith
begin-JobsFit o o' (j ∷ []) t a e f h = ground arith
begin-JobsFit o o' (j ∷ k ∷ js) t a e f h = h

back-JobsFit : (o : ObjectStatus) (j : Job) → JobsFit o (j ∷ []) → JobsFit (bk_status o) []
unfolding bk_status
back-JobsFit o j h = ground arith

finish-JobsFit :
    (o : ObjectStatus) (j : Job) (to : Status)
    → is_final j.operation to ≡ true
    → JobsFit o (j ∷ [])
    → JobsFit (after o (ch_status o to)) []
unfolding ch_status can_transit is_active is_final
finish-JobsFit o j to f h = ground arith

Step-Inv : {s u : System} → Step s u → Inv s → Inv u
Step-Inv (begin s t op o a e) h =
    begin-JobsFit s.object o s.jobs (job t op s.object.xo_status) a e refl h
Step-Inv (back s before j rest e) h =
    let (p, q, fit) = alone s.object before j rest (subst (JobsFit s.object) e h) in
    rw (p, q) (back-JobsFit s.object j fit)
Step-Inv (finish s before j rest to e f n) h =
    let (p, q, fit) = alone s.object before j rest (subst (JobsFit s.object) e h) in
    rw (p, q) (finish-JobsFit s.object j to f fit)

pub Reach-Inv : {s u : System} → Reach s u → Inv s → Inv u
Reach-Inv here h = h
Reach-Inv (next r st) h = Step-Inv st (Reach-Inv r h)

pub fresh-Inv : Inv fresh
unfolding is_active
fresh-Inv = refl

JobsFit-count :
    (o : ObjectStatus) (js : List Job)
    → JobsFit o js
    → (length js ≤ 1) × ((js ≡ []) ↔ (is_active o.xo_status ≡ false))
JobsFit-count o [] h = (omega arith, (λ _. h, λ _. refl))
JobsFit-count o (j ∷ []) h = (omega arith, (λ e. cc, λ e. ground arith))
JobsFit-count o (j ∷ k ∷ js) h = absurd h

-- In every history of a new object, however the threads interleave, at most one thread works on
-- it, and none does just when the status is one of rest.
pub mutual_exclusion :
    {s : System}
    → Reach fresh s
    → (length s.jobs ≤ 1) × ((s.jobs ≡ []) ↔ (is_active s.object.xo_status ≡ false))
mutual_exclusion {s} r = JobsFit-count s.object s.jobs (Reach-Inv r fresh-Inv)

at_work :
    {s : System} (before : List Job) (j : Job) (rest : List Job)
    → Reach fresh s
    → s.jobs ≡ before ++ (j ∷ rest)
    → JobsFit s.object (j ∷ [])
at_work {s} before j rest r e =
    (alone s.object before j rest (subst (JobsFit s.object) e (Reach-Inv r fresh-Inv))).2

-- A thread at work that calls `bkStatus` puts back the very status that its `chStatus` replaced,
-- whatever the other threads did since.
pub bk_status_restores :
    {s : System} (before : List Job) (j : Job) (rest : List Job)
    → Reach fresh s
    → s.jobs ≡ before ++ (j ∷ rest)
    → (bk_status s.object).xo_status ≡ j.found
unfolding bk_status
bk_status_restores before j rest r e = (at_work before j rest r e).1

-- The `chStatus` whose answer `add` and `del` ignore always succeeds at once.
final_ch_status :
    {s : System} (before : List Job) (j : Job) (rest : List Job) (to : Status)
    → Reach fresh s
    → s.jobs ≡ before ++ (j ∷ rest)
    → is_final j.operation to ≡ true
    → ch_status s.object to ≡ changed (set_status s.object to)
unfolding ch_status can_transit is_final
final_ch_status before j rest to r e f = ground (arith, at_work before j rest r e)
