-- ===== src/Status/Deleted.antt =====
-- What a deleted object can still do.
use pparam.Prelude.{◌≡◌, subst, ◌⊎◌, inl, true, [], ◌∷◌, arith}
use pparam.Status.{
  Status, deleted, printing, can_transit, ObjectStatus, changed, ch_status, bk_status, is_active,
}
use pparam.Status.Threads.{
  Job, System, Step, begin, back, finish, Reach, here, next, is_final, after, fresh,
}
use pparam.Status.Exclusion.{JobsFit, Inv, alone, Reach-Inv, fresh-Inv}

-- Deleted, or being printed and deleted before.
abbrev pub IsGone : ObjectStatus → Type 0
IsGone o = (o.xo_status ≡ deleted) ⊎ ((o.xo_status ≡ printing) × (o.xo_status_prev ≡ deleted))

begin-IsGone :
    (o o' : ObjectStatus) (op : Status)
    → is_active op ≡ true
    → ch_status o op ≡ changed o'
    → IsGone o
    → IsGone o'
unfolding ch_status can_transit is_active
begin-IsGone o o' op a e g = ground arith

back-IsGone : (o : ObjectStatus) (j : Job) → JobsFit o (j ∷ []) → IsGone o → IsGone (bk_status o)
unfolding bk_status is_active
back-IsGone o j h g = ground arith

finish-IsGone :
    (o : ObjectStatus) (j : Job) (to : Status)
    → is_final j.operation to ≡ true
    → JobsFit o (j ∷ [])
    → IsGone o
    → IsGone (after o (ch_status o to))
unfolding ch_status can_transit is_active is_final
finish-IsGone o j to f h g = ground arith

Step-IsGone : {s u : System} → Step s u → Inv s → IsGone s.object → IsGone u.object
Step-IsGone (begin s t op o a e) h g = begin-IsGone s.object o op a e g
Step-IsGone (back s before j rest e) h g =
    back-IsGone s.object j (alone s.object before j rest (subst (JobsFit s.object) e h)).2 g
Step-IsGone (finish s before j rest to e f n) h g =
    finish-IsGone s.object j to f (alone s.object before j rest (subst (JobsFit s.object) e h)).2 g

Reach-IsGone : {s u : System} → Reach s u → Inv s → IsGone s.object → IsGone u.object
Reach-IsGone here h g = g
Reach-IsGone (next r st) h g = Step-IsGone st (Reach-Inv r h) (Reach-IsGone r h g)

-- Once an object of any history is deleted, it stays so: later it is deleted, or is being printed
-- with `deleted` to go back to. (The table by itself lets `printing` turn into `normal`.)
pub deleted_forever :
    {s u : System} → Reach fresh s → s.object.xo_status ≡ deleted → Reach s u → IsGone u.object
deleted_forever r e later = Reach-IsGone later (Reach-Inv r fresh-Inv) (inl e)
