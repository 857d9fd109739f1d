-- ===== src/Lifecycle/Cascade.antt =====
-- What each step of a dismissal writes, and what it leaves alone.
pub mod Dismissed
use advisoryhub.Prelude.{
  ℕ, ◌+◌, ◌≤◌, ◌<◌, ◌≡◌, ◌⊎◌, refl, Bool, true, false, blank, Option, none, some, List, Text,
  is_blank, strip, is_blank-strip_upper_a, codes, ◌++◌, ◌==◌, count_rows, get_row, map_row,
  modify_row, first_row, exists_row, Keyed, Keyed-mono, get_row-modify_row_self, get_row-first_row,
  get_row-key, if◌then◌else◌, arith, Option-cases, Bool-cases, inl, inr, ◌∙◌, ap,
}
use advisoryhub.Accounts.{Actor}
use advisoryhub.Advisory.{Advisory, State, ReviewStatus, is_dismissed}
use advisoryhub.Tasks.{CveRequestTask, ReviewTask}
use advisoryhub.Db.{
  Db, M, Result, Error, ok, err, Returns, ◌>>=◌, ◌>>◌, save_advisory, record_action,
  record_action_note,
}
use advisoryhub.Permissions.{is_global_admin, group_state}
use advisoryhub.Permissions.Rules.{can_unassign_cve}
use advisoryhub.Workflows.{load_advisory}
use advisoryhub.Workflows.Cve.{cancel_open_cve_request, is_open_request, cancel_request}
use advisoryhub.Workflows.Cve.Requests.{open_requests, cancel_open_cve_request-open}
use advisoryhub.Workflows.Orphan.{has_cve, unassign_cve, orphan_cve, without_cve, create_orphan}
use advisoryhub.Workflows.Review.{
  cancel_pending_review, is_open_review, set_review_status, close_open_review, save_review_task,
}
use advisoryhub.Workflows.Review.Pending.{
  task_key, find, open_reviews, InStep, cancel_pending_review-InStep,
}
use advisoryhub.Lifecycle.Requests.{
  clear_reassignment_request_if_pending, without_reassignment_request,
}
use advisoryhub.Lifecycle.Triage.{dismissed_as}
use advisoryhub.Lifecycle.Dismissal.{
  dismissal_note, release_cve, dismissal_cascade, dismiss_locked, dismiss_advisory,
}

abbrev pub advisory_key : Advisory → ℕ
advisory_key a = a.pk

abbrev pub request_key : CveRequestTask → ℕ
request_key t = t.pk

-- The advisory that the service holds is the row, and is dismissed.
abbrev pub Held : ℕ → Option State → Advisory → Db → Type 0
Held k from a db =
    (a.pk ≡ k)
    × (find k db ≡ some a)
    × (a.state ≡ State.dismissed)
    × (a.dismissed_from_state ≡ from)

module _ (k : ℕ) (from : Option State) (a : Advisory) (by : Actor) (db : Db)
    (held : Held k from a db) where
  pub clear_lem : Returns (clear_reassignment_request_if_pending a by db) (λ r db'.
      Held k from r.1 db'
      × (r.1.reassignment_requested_at ≡ none)
      × (r.1.assigned_cve_id ≡ a.assigned_cve_id)
      × (r.1.review_status ≡ a.review_status)
      × (db'.review_tasks ≡ db.review_tasks)
      × (db'.cve_requests ≡ db.cve_requests)
      × (db'.orphans ≡ db.orphans)
      × (db'.next_pk ≡ db.next_pk)
      × (db'.settings ≡ db.settings))
  unfolding clear_reassignment_request_if_pending save_advisory record_action
  clear_lem = ground (
    arith,
    held,
    get_row-modify_row_self advisory_key without_reassignment_request (λ x. refl) a.pk
        db.advisories,
  )

  -- What cancelling a review writes besides the review.
  pub cancel-frame : Returns (cancel_pending_review a by db) (λ r db'.
      Held k from r.1 db'
      × (r.1.reassignment_requested_at ≡ a.reassignment_requested_at)
      × (r.1.assigned_cve_id ≡ a.assigned_cve_id)
      × (db'.cve_requests ≡ db.cve_requests)
      × (db'.orphans ≡ db.orphans)
      × (db'.next_pk ≡ db.next_pk)
      × (db'.settings ≡ db.settings))
  unfolding cancel_pending_review close_open_review save_review_task save_advisory record_action
  cancel-frame =
      let saved =
        get_row-modify_row_self advisory_key (set_review_status ReviewStatus.none) (λ x. refl) a.pk
          db.advisories in
      elim (Option-cases (first_row (is_open_review a.pk) db.review_tasks)) [
        | inl e ↦ ground (arith, held, e, saved)
        | inr (t, e) ↦ ground (arith, held, e, saved)
      ]

  -- What closing the open request writes besides the requests.
  pub close-frame :
      (reason : Text)
      → Returns (cancel_open_cve_request k by reason db) (λ r db'.
        Held k from a db'
        × (db'.review_tasks ≡ db.review_tasks)
        × (db'.orphans ≡ db.orphans)
        × (db'.next_pk ≡ db.next_pk)
        × (db'.settings ≡ db.settings))
  unfolding cancel_open_cve_request cancel_request record_action
  close-frame reason = elim (Option-cases (first_row (is_open_request k) db.cve_requests)) [
    | inl e ↦ ground (arith, held, e)
    | inr (t, e) ↦ ground (arith, held, e)
  ]

  -- The CVE, if there is one, goes to a fresh receipt.
  pub release_lem :
      (reason : Text)
      → is_blank (strip (dismissal_note reason)) ≡ false
      → is_blank a.assigned_cve_id ≡ true
        ⊎ (can_unassign_cve db by ≡ true)
          × (exists_row (has_cve a.assigned_cve_id) db.orphans ≡ false)
      → Returns (release_cve a by reason db) (λ r db'.
        Held k from r db'
        × (is_blank r.assigned_cve_id ≡ true)
        × (r.review_status ≡ a.review_status)
        × (r.reassignment_requested_at ≡ a.reassignment_requested_at)
        × (db'.cve_requests ≡ db.cve_requests)
        × (db'.review_tasks ≡ db.review_tasks))
  unfolding release_cve unassign_cve orphan_cve create_orphan save_advisory record_action
      record_action_note without_cve
  release_lem reason said free =
      let saved =
        get_row-modify_row_self advisory_key (without_cve a) (λ x. refl) a.pk db.advisories in
      elim free [
        | inl b ↦ ground (arith, held, b)
        | inr (may, fresh) ↦ elim (Bool-cases (is_blank a.assigned_cve_id)) [
          | inl b ↦ ground (arith, held, b)
          | inr b ↦ ground (arith, held, b, may, fresh, said, saved)
        ]
      ]
