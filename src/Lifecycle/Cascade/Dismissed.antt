-- ===== src/Lifecycle/Cascade/Dismissed.antt =====
-- What a dismissal does to the machines that hang on the advisory.
use advisoryhub.Prelude.{
  ℕ, ◌≤◌, ◌≡◌, ◌⊎◌, refl, Bool, true, false, Option, none, some, Text, is_blank, strip,
  is_blank-strip_upper_a, codes, ◌++◌, get_row, map_row, exists_row, Keyed, Keyed-mono,
  get_row-modify_row_self, arith, ◌∙◌, ap,
}
use advisoryhub.Accounts.{Actor}
use advisoryhub.Advisory.{Advisory, State, ReviewStatus, is_dismissed}
use advisoryhub.Db.Calls.{Returns->>=, Returns-mono, Returns-and}
use advisoryhub.Db.{Db, ok, err, Returns, ◌>>=◌, save_advisory, record_action, record_action_note}
use advisoryhub.Permissions.{is_global_admin, group_state}
use advisoryhub.Permissions.Rules.{can_unassign_cve}
use advisoryhub.Workflows.{load_advisory}
use advisoryhub.Workflows.Cve.{cancel_open_cve_request}
use advisoryhub.Workflows.Cve.Requests.{open_requests, cancel_open_cve_request-open}
use advisoryhub.Workflows.Orphan.{has_cve}
use advisoryhub.Workflows.Review.{cancel_pending_review}
use advisoryhub.Workflows.Review.Pending.{
  task_key, find, open_reviews, InStep, cancel_pending_review-InStep,
}
use advisoryhub.Lifecycle.Requests.{clear_reassignment_request_if_pending}
use advisoryhub.Lifecycle.Triage.{dismissed_as}
use advisoryhub.Lifecycle.Dismissal.{
  dismissal_note, release_cve, dismissal_cascade, dismiss_locked, dismiss_advisory,
}
use advisoryhub.Lifecycle.Cascade.{
  advisory_key, request_key, Held, clear_lem, cancel-frame, close-frame, release_lem,
}

dismissal_note-said : (reason : Text) → is_blank (strip (dismissal_note reason)) ≡ false
dismissal_note-said reason = is_blank-strip_upper_a (codes "dvisory dismissed: " ++ reason)

-- The CVE of the advisory, if it has one, may be released by the actor and has no receipt yet.
abbrev Free : Advisory → Actor → Db → Type 0
Free a by db =
    is_blank a.assigned_cve_id ≡ true
    ⊎ (can_unassign_cve db by ≡ true) × (exists_row (has_cve a.assigned_cve_id) db.orphans ≡ false)

-- What the machines of an advisory have to be like before its dismissal: distinct keys, the review
-- status in step with the open reviews, at most one queued CVE request, and a CVE, if any, that the
-- actor may release and that has no receipt yet.
abbrev pub Ready : Advisory → Actor → Db → Type 0
Ready a by db =
    Keyed task_key db.next_pk db.review_tasks
    × Keyed request_key db.next_pk db.cve_requests
    × InStep a.pk db
    × (open_requests a.pk db ≤ 1)
    × Free a by db

-- Nothing is left open.
abbrev pub Closed : ℕ → Option State → Advisory → Db → Type 0
Closed k from a db =
    Held k from a db
    × (open_requests k db ≡ 0)
    × (open_reviews k db ≡ 0)
    × (a.review_status ≡ ReviewStatus.none)
    × (a.reassignment_requested_at ≡ none)
    × (is_blank a.assigned_cve_id ≡ true)

can_unassign_cve-settings :
    (db db' : Db) (by : Actor)
    → db'.settings ≡ db.settings
    → can_unassign_cve db' by ≡ can_unassign_cve db by
unfolding can_unassign_cve is_global_admin group_state
can_unassign_cve-settings db db' (Actor.account u) e = rw e refl
can_unassign_cve-settings db db' _ e = refl

Free-mono :
    (a a' : Advisory) (by : Actor) (db db' : Db)
    → a'.assigned_cve_id ≡ a.assigned_cve_id
    → db'.orphans ≡ db.orphans
    → db'.settings ≡ db.settings
    → Free a by db
    → Free a' by db'
Free-mono a a' by db db' cve orphans settings free =
    rw (cve, can_unassign_cve-settings db db' by settings, orphans) free

-- The end of the cascade: the review, then the CVE.
review_lem :
    (k : ℕ) (from : Option State) (a : Advisory) (by : Actor) (reason : Text) (db : Db)
    → Held k from a db
    → Keyed task_key db.next_pk db.review_tasks
    → InStep k db
    → open_requests k db ≡ 0
    → a.reassignment_requested_at ≡ none
    → Free a by db
    → Returns
        (elim (cancel_pending_review a by db) [
          | ok r db1 ↦ release_cve r.1 by reason db1
          | err e ↦ err e
        ])
        (Closed k from)
review_lem k from a by reason db held keyed h none_open no_request free =
    Returns->>= (cancel_pending_review a by db) (λ r. release_cve r.1 by reason) _ _
      (Returns-and (cancel_pending_review a by db) _ _ (cancel-frame k from a by db held) (
        cancel_pending_review-InStep a by db (ap (λ j. find j db) held.0 ∙ held.1) (rw held.0 h)
          keyed))
      (λ r db1 h1.
        Returns-mono (release_cve r.1 by reason db1) _ _
          (release_lem k from r.1 by db1 h1.0.0 reason (dismissal_note-said reason)
            (Free-mono a r.1 by db db1 h1.0.2 h1.0.4 h1.0.6 free))
          (λ b db2 h2. ground (arith, h1, h2, held, none_open, no_request)))

cascade_lem :
    (from : Option State) (a : Advisory) (by : Actor) (reason : Text) (db : Db)
    → Held a.pk from a db
    → Ready a by db
    → Returns (dismissal_cascade a by reason db) (Closed a.pk from)
unfolding dismissal_cascade
cascade_lem from a by reason db held (reviews, requests, h, one, free) =
    Returns->>= (clear_reassignment_request_if_pending a by db) _ _ _
      (clear_lem a.pk from a by db held)
      (λ r db1 h1.
        let keyed1 : Keyed request_key db1.next_pk db1.cve_requests = rw (h1.5, h1.7) requests in
        let one1 : open_requests a.pk db1 ≤ 1 = rw h1.5 one in
        Returns->>= (cancel_open_cve_request a.pk by (dismissal_note reason) db1)
          (λ _ db2. (cancel_pending_review r.1 by >>= λ c. release_cve c.1 by reason) db2) _ _
          (Returns-and (cancel_open_cve_request a.pk by (dismissal_note reason) db1) _ _
            (close-frame a.pk from r.1 by db1 h1.0 (dismissal_note reason))
            (cancel_open_cve_request-open a.pk by (dismissal_note reason) db1 keyed1 one1))
          (λ _ db2 h2.
            review_lem a.pk from r.1 by reason db2 h2.0.0
              (rw (h2.0.1 ∙ h1.4, h2.0.3 ∙ h1.7) reviews) (ground (arith, h, h1, h2.0, held)) h2.1.0
              h1.1 (Free-mono a r.1 by db db2 h1.2 (h2.0.2 ∙ h1.6) (h2.0.4 ∙ h1.8) free)))

note-frame :
    (k : ℕ) (by : Actor) (body : Text) (internal : Bool) (db : Db)
    → Returns (record_action_note k by body internal db) (λ _ db'.
      (db'.advisories ≡ db.advisories)
      × (db'.review_tasks ≡ db.review_tasks)
      × (db'.cve_requests ≡ db.cve_requests)
      × (db'.orphans ≡ db.orphans)
      × (db'.settings ≡ db.settings)
      × (db.next_pk ≤ db'.next_pk))
unfolding record_action_note
note-frame k by body internal db = ground arith

dismiss_locked_lem :
    (a : Advisory) (by : Actor) (reason : Text) (db : Db)
    → find a.pk db ≡ some a
    → Ready a by db
    → Returns (dismiss_locked a by reason db) (Closed a.pk (some a.state))
unfolding dismiss_locked save_advisory record_action
dismiss_locked_lem a by reason db found (reviews, requests, h, one, free) =
    let saved =
      get_row-modify_row_self advisory_key (dismissed_as reason (some a.state)) (λ x. refl) a.pk
        db.advisories
      ∙ ap (map_row (dismissed_as reason (some a.state))) found in
    Returns->>= (record_action_note a.pk by reason false _)
      (λ _. dismissal_cascade (dismissed_as reason (some a.state) a) by reason) _ _
      (note-frame a.pk by reason false _)
      (λ _ db4 h4.
        cascade_lem (some a.state) (dismissed_as reason (some a.state) a) by reason db4
          (refl, ap (get_row advisory_key a.pk) h4.0 ∙ saved, refl, refl)
          (
            rw h4.1 (Keyed-mono task_key db.next_pk db4.next_pk db.review_tasks h4.5 reviews),
            rw h4.2 (Keyed-mono request_key db.next_pk db4.next_pk db.cve_requests h4.5 requests),
            ground (arith, h, h4, saved, found),
            rw h4.2 one,
            Free-mono a (dismissed_as reason (some a.state) a) by db db4 refl h4.3 h4.4 free,
          ))

-- Dismissing an advisory that is not dismissed, for a reason that is not blank, goes through where
-- its machines are well formed and its CVE, if any, can be released; afterwards its row is dismissed
-- and remembers the state that it was in, no CVE request and no review of it is open, its review
-- status and its reassignment request are cleared, it holds no CVE, and the advisory that is
-- returned is the row.
pub dismiss_advisory-Closed :
    (a : Advisory) (by : Actor) (reason : Text) (db : Db)
    → is_blank (strip reason) ≡ false
    → find a.pk db ≡ some a
    → is_dismissed a.state ≡ false
    → Ready a by db
    → Returns (dismiss_advisory a.pk by reason db) (Closed a.pk (some a.state))
unfolding dismiss_advisory load_advisory
dismiss_advisory-Closed a by reason db said found live ready =
    ground (arith, said, found, live, dismiss_locked_lem a by (strip reason) db found ready)
