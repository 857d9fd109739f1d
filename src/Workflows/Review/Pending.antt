-- ===== src/Workflows/Review/Pending.antt =====
-- The review status of an advisory and its open review tasks stay in step.
use advisoryhub.Prelude.{
  ℕ, ◌≡◌, refl, true, Option, none, some, Text, count_rows, get_row, first_row, map_row,
  get_row-modify_row_self, count_rows-modify_row, get_row-first_row, first_row-none, get_row-key,
  Keyed, if◌then◌else◌, arith, Option-cases, Bool-cases, inl, inr, ◌∙◌, ap, modify_row,
  select-first_row,
}
use advisoryhub.Accounts.{Actor, actor_or_none}
use advisoryhub.Advisory.{Advisory, ReviewStatus, is_submitted}
use advisoryhub.Tasks.{ReviewTask}
use advisoryhub.Db.{Db, Post, Returns, save_advisory, record_action, on_commit, record_action_note}
use advisoryhub.Permissions.Review.{can_withdraw_review}
use advisoryhub.Workflows.{load_advisory}
use advisoryhub.Workflows.Review.{
  is_open_review, set_review_status, save_review_task, create_review_task, submit_for_review,
  Decision, decided_task, decide_review, reopen_review, revoke_approval, withdraw_review,
  withdrawn_task, close_open_review, cancel_pending_review, new_review_status,
}

abbrev advisory_key : Advisory → ℕ
advisory_key a = a.pk

abbrev pub task_key : ReviewTask → ℕ
task_key t = t.pk

abbrev pub find : ℕ → Db → Option Advisory
find pk db = get_row advisory_key pk db.advisories

abbrev pub open_reviews : ℕ → Db → ℕ
open_reviews k db = count_rows (is_open_review k) db.review_tasks

-- One open task while a review is pending, none otherwise.
abbrev pub expected : Option Advisory → ℕ
expected none = 0
expected (some a) = if is_submitted a.review_status then 1 else 0

abbrev pub InStep : ℕ → Db → Type 0
InStep k db = open_reviews k db ≡ expected (find k db)

pub submit_for_review-InStep :
    (a : Advisory) (by : Actor) (db : Db)
    → find a.pk db ≡ some a
    → InStep a.pk db
    → Post (submit_for_review a by db) (λ t db'. InStep a.pk db')
unfolding submit_for_review save_advisory create_review_task record_action on_commit
submit_for_review-InStep a by db fresh h = ground (
  arith,
  get_row-modify_row_self advisory_key
      (λ x. record x {
        review_status = ReviewStatus.submitted;
        submitted_for_review_at = some db.now;
        submitted_for_review_by = actor_or_none by;
      })
      (λ x. refl) a.pk db.advisories,
)

pub decide_review-InStep :
    (task : ReviewTask) (by : Actor) (decision : Decision) (notes : Text) (db : Db)
    → get_row task_key task.pk db.review_tasks ≡ some task
    → InStep task.advisory db
    → Post (decide_review task by decision notes db) (λ t db'. InStep task.advisory db')
unfolding decide_review load_advisory save_review_task save_advisory decided_task record_action
    record_action_note
decide_review-InStep task by decision notes db fresh h =
    elim (Option-cases (find task.advisory db)) [
      | inl e ↦ ground (arith, e)
      | inr (a, e) ↦
          let key = get_row-key advisory_key task.advisory a db.advisories e in
          let moved =
            count_rows-modify_row task_key (decided_task db.now by decision notes)
              (is_open_review task.advisory) task.pk db.review_tasks in
          let row =
            get_row-modify_row_self advisory_key (set_review_status (new_review_status decision))
              (λ x. refl) task.advisory db.advisories in
          ground (arith, e, key, moved, row)
    ]

module _ (a : Advisory) (by : Actor) (db : Db) (fresh : find a.pk db ≡ some a)
    (h : InStep a.pk db) where
  -- The row after its review status is cleared.
  cleared :
      get_row advisory_key a.pk
        (modify_row advisory_key a.pk (set_review_status ReviewStatus.none) db.advisories)
      ≡ some (set_review_status ReviewStatus.none a)
  cleared =
      get_row-modify_row_self advisory_key (set_review_status ReviewStatus.none) (λ x. refl) a.pk
        db.advisories
      ∙ ap (map_row (set_review_status ReviewStatus.none)) fresh

  pub reopen_review-InStep : Post (reopen_review a by db) (λ t db'. InStep a.pk db')
  unfolding reopen_review save_advisory record_action
  reopen_review-InStep = ground (arith, cleared)

  pub revoke_approval-InStep :
      (reason : Text) → Post (revoke_approval a by reason db) (λ t db'. InStep a.pk db')
  unfolding revoke_approval save_advisory record_action record_action_note
  revoke_approval-InStep reason = ground (arith, cleared)

  module _ (keyed : Keyed task_key db.next_pk db.review_tasks) where
    -- Where the keys of the review tasks are distinct and the status and the open tasks of the
    -- advisory are in step, withdrawing a review goes through for whoever may withdraw it, since
    -- there is exactly one open task to close, and leaves status and tasks in step.
    pub withdraw_review-InStep :
        can_withdraw_review db by a ≡ true
        → Returns (withdraw_review a by db) (λ t db'. InStep a.pk db')
    unfolding withdraw_review can_withdraw_review save_advisory save_review_task record_action
        on_commit
    withdraw_review-InStep can = elim (Bool-cases (is_submitted a.review_status)) [
      | inl s ↦
          let (t, only, first) =
            select-first_row (is_open_review a.pk) db.review_tasks (ground (arith, h, fresh, s)) in
          let found =
            get_row-first_row task_key db.next_pk (is_open_review a.pk) t db.review_tasks keyed
              first in
          let moved =
            count_rows-modify_row task_key (withdrawn_task db.now) (is_open_review a.pk) t.pk
              db.review_tasks in
          ground (arith, only, found, moved, cleared)
      | inr n ↦ ground (arith, n)
    ]

    -- Where the keys of the review tasks are distinct and the status and the open tasks of the
    -- advisory are in step, cancelling a review always goes through and leaves no open task, with
    -- status and tasks still in step and the review status of the returned advisory cleared.
    pub cancel_pending_review-InStep : Returns (cancel_pending_review a by db) (λ r db'.
        InStep a.pk db' × (open_reviews a.pk db' ≡ 0) × (r.1.review_status ≡ ReviewStatus.none))
    unfolding cancel_pending_review close_open_review save_advisory save_review_task record_action
    cancel_pending_review-InStep =
        elim (Option-cases (first_row (is_open_review a.pk) db.review_tasks)) [
          | inl e ↦
              ground (arith, e, cleared, first_row-none (is_open_review a.pk) db.review_tasks e)
          | inr (t, e) ↦
              let found =
                get_row-first_row task_key db.next_pk (is_open_review a.pk) t db.review_tasks keyed
                  e in
              let moved =
                count_rows-modify_row task_key (withdrawn_task db.now) (is_open_review a.pk) t.pk
                  db.review_tasks in
              ground (arith, e, found, moved, cleared)
        ]
