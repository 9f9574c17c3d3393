-- ===== src/Status/Threads.antt =====
-- Threads that share one object of include/xobject.hpp. Each takes the object by `chStatus`, works
-- on it, and gives it back by `bkStatus`, or, at the end of `add` and `del`, by `chStatus`. The
-- steps of different threads interleave freely, since `obj_status_lock` is held within a step only.
use pparam.Prelude.{ℕ, ◌≡◌, ◌≢◌, Bool, true, false, List, [], ◌∷◌, ◌++◌}
use pparam.Status.{
  Status, adding, normal, deleting, deleted, ObjectStatus, initial, Change, changed, waits, refused,
  ch_status, bk_status, is_active,
}

-- A thread at work; `found` records the status that its `chStatus` replaced.
pub record Job : Type 0 where
  pub thread : ℕ
  pub operation : Status
  pub found : Status

pub record System : Type 0 where
  pub object : ObjectStatus
  pub jobs : List Job

-- The status that ends a successful operation, where that is not `bkStatus`.
unfoldable pub is_final : Status → Status → Bool
is_final adding normal = true
is_final deleting deleted = true
is_final _ _ = false

-- `add` and `del` do not look at what their last `chStatus` returns.
abbrev pub after : ObjectStatus → Change → ObjectStatus
after o (changed o') = o'
after o waits = o
after o refused = o

abbrev pub job : ℕ → Status → Status → Job
job t op found = record { thread = t; operation = op; found = found }

pub data Step : System → System → Type 0 where
  begin :
      (s : System) (t : ℕ) (op : Status) (o : ObjectStatus)
      → is_active op ≡ true
      → ch_status s.object op ≡ changed o
      → Step s (record { object = o; jobs = job t op s.object.xo_status ∷ s.jobs })
  back :
      (s : System) (before : List Job) (j : Job) (rest : List Job)
      → s.jobs ≡ before ++ (j ∷ rest)
      → Step s (record { object = bk_status s.object; jobs = before ++ rest })
  finish :
      (s : System) (before : List Job) (j : Job) (rest : List Job) (to : Status)
      → s.jobs ≡ before ++ (j ∷ rest)
      → is_final j.operation to ≡ true
      → ch_status s.object to ≢ waits
      → Step s (record { object = after s.object (ch_status s.object to); jobs = before ++ rest })

pub data Reach (s : System) : System → Type 0 where
  here : Reach s s
  next : {t u : System} → Reach s t → Step t u → Reach s u

abbrev pub fresh : System
fresh = record { object = initial; jobs = [] }
