-- ===== src/Workflows/Review/Steps.antt =====
-- The review machine as a step relation: what may happen to an advisory's review in one transaction,
-- each service called with the rows as they are.
use advisoryhub.Prelude.{ℕ, ◌≡◌, true, Option, some, Text, get_row, Keyed}
use advisoryhub.Accounts.{Actor}
use advisoryhub.Advisory.{Advisory}
use advisoryhub.Tasks.{ReviewTask}
use advisoryhub.Db.{Db, ok}
use advisoryhub.Permissions.Review.{can_withdraw_review}
use advisoryhub.Workflows.Review.{
  Decision, submit_for_review, decide_review, reopen_review, revoke_approval, withdraw_review,
  cancel_pending_review,
}
use advisoryhub.Workflows.Review.Pending.{
  task_key, find, InStep, submit_for_review-InStep, decide_review-InStep, reopen_review-InStep,
  revoke_approval-InStep, withdraw_review-InStep, cancel_pending_review-InStep,
}

pub data ReviewStep (db : Db) : ℕ → Db → Type 0 where
  submit :
      (a : Advisory) (by : Actor) {t : ReviewTask} {db' : Db}
      → find a.pk db ≡ some a
      → submit_for_review a by db ≡ ok t db'
      → ReviewStep db a.pk db'
  decide :
      (task : ReviewTask) (by : Actor) (decision : Decision) (notes : Text) {t : ReviewTask}
      {db' : Db}
      → get_row task_key task.pk db.review_tasks ≡ some task
      → decide_review task by decision notes db ≡ ok t db'
      → ReviewStep db task.advisory db'
  reopen :
      (a : Advisory) (by : Actor) {held : Advisory} {db' : Db}
      → find a.pk db ≡ some a
      → reopen_review a by db ≡ ok held db'
      → ReviewStep db a.pk db'
  revoke :
      (a : Advisory) (by : Actor) (reason : Text) {held : Advisory} {db' : Db}
      → find a.pk db ≡ some a
      → revoke_approval a by reason db ≡ ok held db'
      → ReviewStep db a.pk db'
  withdraw :
      (a : Advisory) (by : Actor) {held : Advisory} {db' : Db}
      → find a.pk db ≡ some a
      → can_withdraw_review db by a ≡ true
      → withdraw_review a by db ≡ ok held db'
      → ReviewStep db a.pk db'
  cancel :
      (a : Advisory) (by : Actor) {r : Option ReviewTask × Advisory} {db' : Db}
      → find a.pk db ≡ some a
      → cancel_pending_review a by db ≡ ok r db'
      → ReviewStep db a.pk db'

-- Where the keys of the review tasks are distinct, each step of the review machine on an advisory
-- keeps its status and its open tasks in step: one open task while the review is pending, none
-- otherwise.
pub ReviewStep-InStep :
    {db db' : Db} {k : ℕ}
    → ReviewStep db k db'
    → Keyed task_key db.next_pk db.review_tasks
    → InStep k db
    → InStep k db'
ReviewStep-InStep {db} (submit a by f e) keyed h = rw e at (submit_for_review-InStep a by db f h)
ReviewStep-InStep {db} (decide t by d n f e) keyed h =
    rw e at (decide_review-InStep t by d n db f h)
ReviewStep-InStep {db} (reopen a by f e) keyed h = rw e at (reopen_review-InStep a by db f h)
ReviewStep-InStep {db} (revoke a by r f e) keyed h = rw e at (revoke_approval-InStep a by db f h r)
ReviewStep-InStep {db} (withdraw a by f c e) keyed h =
    rw e at (withdraw_review-InStep a by db f h keyed c)
ReviewStep-InStep {db} (cancel a by f e) keyed h =
    (rw e at (cancel_pending_review-InStep a by db f h keyed)).0
