-- ===== src/Workflows/Review/Keys.antt =====
-- The keys of the review tasks stay distinct.
use advisoryhub.Prelude.{
  suc, ◌≡◌, ◌⊎◌, refl, List, [], ◌∷◌, Text, Keyed, Keyed-mono, get_row_fresh, modify_row-Keyed,
  first_row, select, arith, Option-cases, inl, inr,
}
use advisoryhub.Accounts.{Actor}
use advisoryhub.Advisory.{Advisory}
use advisoryhub.Tasks.{ReviewTask}
use advisoryhub.Db.{
  Db, Error, ok, err, Post, save_advisory, record_action, on_commit, record_action_note,
}
use advisoryhub.Workflows.{load_advisory}
use advisoryhub.Workflows.Review.{
  Decision, is_open_review, save_review_task, create_review_task, submit_for_review, decided_task,
  decide_review, reopen_review, revoke_approval, withdraw_review, withdrawn_task, close_open_review,
  cancel_pending_review, the_only,
}
use advisoryhub.Workflows.Review.Pending.{task_key}

-- The keys are distinct, and below the next one.
abbrev pub TasksKeyed : Db → Type 0
TasksKeyed db = Keyed task_key db.next_pk db.review_tasks

the_only-cases :
    (rows : List ReviewTask) (db : Db)
    → ((e : Error) × (the_only rows db ≡ err e)) ⊎ ((t : ReviewTask) × (the_only rows db ≡ ok t db))
the_only-cases [] db = inl (Error.does_not_exist, refl)
the_only-cases (t ∷ []) db = inr (t, refl)
the_only-cases (t ∷ u ∷ rest) db = inl (Error.multiple_objects_returned, refl)

module _ (by : Actor) (db : Db) (h : TasksKeyed db) where
  pub submit_for_review-TasksKeyed :
      (a : Advisory) → Post (submit_for_review a by db) (λ _ db'. TasksKeyed db')
  unfolding submit_for_review save_advisory create_review_task record_action on_commit
  submit_for_review-TasksKeyed a = ground (
    arith,
    get_row_fresh task_key db.next_pk db.next_pk db.review_tasks h (omega arith),
    Keyed-mono task_key db.next_pk (suc db.next_pk) db.review_tasks (omega arith) h,
  )

  pub decide_review-TasksKeyed :
      (t : ReviewTask) (d : Decision) (notes : Text)
      → Post (decide_review t by d notes db) (λ _ db'. TasksKeyed db')
  unfolding decide_review load_advisory save_review_task save_advisory decided_task record_action
      record_action_note
  decide_review-TasksKeyed t d notes =
      let moved =
        modify_row-Keyed task_key (decided_task db.now by d notes) db.next_pk t.pk db.review_tasks
          (λ x. refl) h in
      ground
        (arith, moved, Keyed-mono task_key db.next_pk (suc (suc db.next_pk)) _ (omega arith) moved)

  pub reopen_review-TasksKeyed :
      (a : Advisory) → Post (reopen_review a by db) (λ _ db'. TasksKeyed db')
  unfolding reopen_review save_advisory record_action
  reopen_review-TasksKeyed a = ground (arith, h)

  pub revoke_approval-TasksKeyed :
      (a : Advisory) (reason : Text)
      → Post (revoke_approval a by reason db) (λ _ db'. TasksKeyed db')
  unfolding revoke_approval save_advisory record_action record_action_note
  revoke_approval-TasksKeyed a reason = ground (
    arith,
    h,
    Keyed-mono task_key db.next_pk (suc (suc db.next_pk)) db.review_tasks (omega arith) h,
  )

  pub withdraw_review-TasksKeyed :
      (a : Advisory) → Post (withdraw_review a by db) (λ _ db'. TasksKeyed db')
  unfolding withdraw_review save_advisory save_review_task record_action on_commit
  withdraw_review-TasksKeyed a =
      elim (the_only-cases (select (is_open_review a.pk) db.review_tasks) db) [
        | inl (e, none_or_many) ↦ ground (arith, none_or_many)
        | inr (t, one) ↦ ground (
          arith,
          one,
          modify_row-Keyed task_key (withdrawn_task db.now) db.next_pk t.pk db.review_tasks
              (λ x. refl) h,
        )
      ]

  pub cancel_pending_review-TasksKeyed :
      (a : Advisory) → Post (cancel_pending_review a by db) (λ _ db'. TasksKeyed db')
  unfolding cancel_pending_review close_open_review save_advisory save_review_task record_action
  cancel_pending_review-TasksKeyed a =
      elim (Option-cases (first_row (is_open_review a.pk) db.review_tasks)) [
        | inl e ↦ ground (arith, e, h)
        | inr (t, e) ↦ ground (
          arith,
          e,
          h,
          modify_row-Keyed task_key (withdrawn_task db.now) db.next_pk t.pk db.review_tasks
              (λ x. refl) h,
        )
      ]
