-- ===== src/Workflows/Review/Runs.antt =====
-- The review machine of one advisory, over any number of transactions.
use advisoryhub.Prelude.{ℕ}
use advisoryhub.Db.{Db}
use advisoryhub.Workflows.Review.Pending.{InStep}
use advisoryhub.Workflows.Review.Steps.{
  ReviewStep, submit, decide, reopen, revoke, withdraw, cancel, ReviewStep-InStep,
}
use advisoryhub.Workflows.Review.Keys.{
  TasksKeyed, submit_for_review-TasksKeyed, decide_review-TasksKeyed, reopen_review-TasksKeyed,
  revoke_approval-TasksKeyed, withdraw_review-TasksKeyed, cancel_pending_review-TasksKeyed,
}

ReviewStep-TasksKeyed : {db db' : Db} {k : ℕ} → ReviewStep db k db' → TasksKeyed db → TasksKeyed db'
ReviewStep-TasksKeyed {db} (submit a by f e) h = rw e at (submit_for_review-TasksKeyed by db h a)
ReviewStep-TasksKeyed {db} (decide t by d n f e) h =
    rw e at (decide_review-TasksKeyed by db h t d n)
ReviewStep-TasksKeyed {db} (reopen a by f e) h = rw e at (reopen_review-TasksKeyed by db h a)
ReviewStep-TasksKeyed {db} (revoke a by r f e) h = rw e at (revoke_approval-TasksKeyed by db h a r)
ReviewStep-TasksKeyed {db} (withdraw a by f c e) h = rw e at (withdraw_review-TasksKeyed by db h a)
ReviewStep-TasksKeyed {db} (cancel a by f e) h =
    rw e at (cancel_pending_review-TasksKeyed by db h a)

-- Any number of steps on one advisory.
pub data Reaches (k : ℕ) (db : Db) : Db → Type 0 where
  start : Reaches k db db
  next : {db' db'' : Db} → Reaches k db db' → ReviewStep db' k db'' → Reaches k db db''

-- The keys are distinct, and the review status is in step with the open tasks.
abbrev pub Sound : ℕ → Db → Type 0
Sound k db = TasksKeyed db × InStep k db

-- However many steps the review machine takes on an advisory, each one a service that is called with
-- an advisory or a task that is just as its row is then, so with no stale copy, from rows where the keys of the review
-- tasks are distinct and its status is in step with its open tasks: both stay so. While its review
-- is pending it has one open task, and none otherwise.
pub Reaches-Sound : {k : ℕ} {db db' : Db} → Reaches k db db' → Sound k db → Sound k db'
Reaches-Sound start h = h
Reaches-Sound (next r s) h =
    let sound = Reaches-Sound r h in
    (ReviewStep-TasksKeyed s sound.0, ReviewStep-InStep s sound.0 sound.1)
