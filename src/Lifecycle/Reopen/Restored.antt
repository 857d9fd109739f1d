-- ===== src/Lifecycle/Reopen/Restored.antt =====
-- What a whole reopening of an advisory that was not published restores (advisories/services.py,
-- `reopen_advisory`).
use advisoryhub.Prelude.{
  ℕ, ◌≡◌, ◌∙◌, ap, sym, refl, get_row, true, false, some, is_blank, map_row, modify_row, exists_row,
  first_row, get_row-modify_row_self, exists_row-modify_row, arith, Bool-cases, inl, inr,
}
use advisoryhub.Accounts.{Actor}
use advisoryhub.Advisory.{Advisory, State, is_dismissed, is_from_published}
use advisoryhub.Tasks.{OrphanCve, OrphanCveStatus}
use advisoryhub.Db.Calls.{Returns->>=, Returns-mono}
use advisoryhub.Db.{Db, Error, err, ok, Returns, save_advisory, record_action, on_commit}
use advisoryhub.Permissions.{
  resolved_permission, explicit_grant_rank, applies_to, is_global_admin, is_security_team_member,
  group_state, user_or_group_filter,
}
use advisoryhub.Permissions.Rules.{can_reopen, can_request_cve}
use advisoryhub.Publication.{Externals}
use advisoryhub.Workflows.{load_advisory}
use advisoryhub.Workflows.Cve.{is_open_request}
use advisoryhub.Workflows.Orphan.{holds_elsewhere}
use advisoryhub.Lifecycle.Reopen.{
  is_queued_for, is_orphan_of, is_request_of, is_cancelled_task, Disposition, is_queued_admin_task,
  restore_cve_request, restore_orphan, target_state, with_state, reopen_to, reopen_advisory,
}
use advisoryhub.Lifecycle.Reopen.Conflict.{find, restore_orphan_outcome}
use advisoryhub.Lifecycle.Reopen.Twofold.{restore_both}

-- The rows with the new state.
abbrev pub put_back : ℕ → State → Db → Db
put_back k s db = record db {
  advisories = modify_row (λ (a : Advisory). a.pk) k (with_state s) db.advisories;
}

-- What is left to do touches only the ledger and the outbox.
abbrev Finished : (Disposition × Advisory → Db → Type 0) → Advisory → Db → Type 0
Finished P x db' =
    (r : Disposition × Advisory) × (db : Db) × P r db
    × (x ≡ r.1)
    × (db'.advisories ≡ db.advisories)
    × (db'.cve_requests ≡ db.cve_requests)
    × (db'.reassignments ≡ db.reassignments)

reopen_to-Returns :
    (a : Advisory) (s : State) (by : Actor) (db : Db) (P : Disposition × Advisory → Db → Type 0)
    → Returns
        (restore_cve_request (with_state s a) by (put_back a.pk s db))
        (λ _ db1. Returns (restore_orphan (with_state s a) by db1) P)
    → Returns (reopen_to a s by db) (Finished P)
unfolding reopen_to save_advisory record_action on_commit
reopen_to-Returns a s by db P h =
    Returns->>= (restore_cve_request (with_state s a) by (put_back a.pk s db)) _ _ _ h (λ _ db1 h1.
      Returns->>= (restore_orphan (with_state s a) by db1) _ _ _ h1 (λ r db2 p.
        elim (Bool-cases (is_queued_admin_task r.0)) [
          | inl queued ↦ rw queued (r, db2, p, refl, refl, refl, refl)
          | inr direct ↦ rw direct (r, db2, p, refl, refl, refl, refl)
        ]))

reopen-eq-reopen_to :
    (ext : Externals) (a : Advisory) (by : Actor) (db : Db)
    → find a.pk db ≡ some a
    → can_reopen db by a ≡ true
    → is_dismissed a.state ≡ true
    → is_from_published a.dismissed_from_state ≡ false
    → reopen_advisory ext a.pk by db ≡ reopen_to a (target_state a.dismissed_from_state) by db
unfolding reopen_advisory load_advisory
reopen-eq-reopen_to ext a by db row may dismissed native =
    ground (arith, row, may, dismissed, native)

put_back-find :
    (a : Advisory) (s : State) (db : Db)
    → find a.pk db ≡ some a
    → find a.pk (put_back a.pk s db) ≡ some (with_state s a)
put_back-find a s db row =
    get_row-modify_row_self (λ (a : Advisory). a.pk) (with_state s) (λ x. refl) a.pk db.advisories
    ∙ ap (map_row (with_state s)) row

put_back-holds :
    (a : Advisory) (s : State) (o : OrphanCve) (db : Db)
    → exists_row (holds_elsewhere o.cve_id a.pk) (put_back a.pk s db).advisories
      ≡ exists_row (holds_elsewhere o.cve_id a.pk) db.advisories
put_back-holds a s o db =
    exists_row-modify_row (λ (a : Advisory). a.pk) (with_state s) (holds_elsewhere o.cve_id a.pk)
      a.pk db.advisories (λ x. refl)

put_back-can_request :
    (a : Advisory) (s : State) (by : Actor) (db : Db) (k : ℕ)
    → can_request_cve (put_back k s db) by a ≡ can_request_cve db by a
unfolding can_request_cve resolved_permission explicit_grant_rank applies_to is_global_admin
    is_security_team_member group_state user_or_group_filter
put_back-can_request a s Actor.nobody db k = refl
put_back-can_request a s Actor.anonymous db k = refl
put_back-can_request a s (Actor.account u) db k = refl

no_request_lem :
    (a : Advisory) (by : Actor) (db : Db)
    → is_cancelled_task (first_row (is_request_of a.pk) db.cve_requests) ≡ false
    → restore_cve_request a by db ≡ ok tt db
unfolding restore_cve_request
no_request_lem a by db none_cancelled = ground (arith, none_cancelled)

reopen_to-err :
    (a : Advisory) (s : State) (by : Actor) (db : Db) (e : Error)
    → restore_cve_request (with_state s a) by (put_back a.pk s db) ≡ ok tt (put_back a.pk s db)
    → restore_orphan (with_state s a) by (put_back a.pk s db) ≡ err e
    → reopen_to a s by db ≡ err e
unfolding reopen_to save_advisory
reopen_to-err a s by db e requested restored = ground (arith, requested, restored)

same_row : (k : ℕ) (db' db : Db) → db'.advisories ≡ db.advisories → find k db' ≡ find k db
same_row k db' db e = ap (get_row (λ (a : Advisory). a.pk) k) e

module _ (ext : Externals) (a : Advisory) (by : Actor) (o : OrphanCve) (db : Db)
    (row : find a.pk db ≡ some a) (may : can_reopen db by a ≡ true)
    (dismissed : is_dismissed a.state ≡ true)
    (native : is_from_published a.dismissed_from_state ≡ false)
    (newest : first_row (is_orphan_of a.pk) db.orphans ≡ some o)
    (orphaned : o.status ≡ OrphanCveStatus.orphaned)
    (free : is_blank a.assigned_cve_id ≡ true) where
  abbrev target : State
  target = target_state a.dismissed_from_state

  abbrev back : Db
  back = put_back a.pk target db

  restored_lem :
      (P : Disposition × Advisory → Db → Type 0)
      → is_cancelled_task (first_row (is_request_of a.pk) db.cve_requests) ≡ false
      → Returns (restore_orphan (with_state target a) by back) P
      → Returns (reopen_advisory ext a.pk by db) (Finished P)
  restored_lem P none_cancelled h = rw (reopen-eq-reopen_to ext a by db row may dismissed native) (
      reopen_to-Returns a target by db P
        (rw (no_request_lem (with_state target a) by back none_cancelled) h))

  -- A dismissed advisory that was never published and holds no CVE is reopened by someone who may.
  -- Its newest CVE request, if it has one, is not cancelled, and its newest orphan CVE is neither
  -- reattached nor rejected. If no other advisory holds that CVE, the advisory gets it back: the one that is
  -- returned has it, and is the row. If another one does, the
  -- advisory is reopened without it, and a reassignment task is queued for the administrators; but
  -- if one is queued for that orphan already, the reopening fails on the unique constraint.
  pub reopen_advisory-orphan :
      is_cancelled_task (first_row (is_request_of a.pk) db.cve_requests) ≡ false
      → (exists_row (holds_elsewhere o.cve_id a.pk) db.advisories ≡ false
          → Returns
              (reopen_advisory ext a.pk by db)
              (λ r db'. (r.assigned_cve_id ≡ o.cve_id) × (find a.pk db' ≡ some r)))
        × (exists_row (holds_elsewhere o.cve_id a.pk) db.advisories ≡ true
            → exists_row (is_queued_for o.pk) db.reassignments ≡ false
            → Returns (reopen_advisory ext a.pk by db) (λ r db'.
              (r ≡ record a { state = target_state a.dismissed_from_state })
              × (find a.pk db' ≡ some r)
              × (exists_row (is_queued_for o.pk) db'.reassignments ≡ true)))
        × (exists_row (holds_elsewhere o.cve_id a.pk) db.advisories ≡ true
            → exists_row (is_queued_for o.pk) db.reassignments ≡ true
            → reopen_advisory ext a.pk by db ≡ err Error.integrity_error)
  reopen_advisory-orphan none_cancelled =
      let outcome =
        restore_orphan_outcome (with_state target a) by o back newest
          (put_back-find a target db row) orphaned free in
      (
        λ alone.
            Returns-mono (reopen_advisory ext a.pk by db) _ _
              (restored_lem _ none_cancelled (outcome.0 (put_back-holds a target o db ∙ alone)))
              (λ x db' (r, db2, p, e, advisories, requests, tasks). (
                ap (λ (y : Advisory). y.assigned_cve_id) e ∙ p.1,
                same_row a.pk db' db2 advisories ∙ p.2 ∙ ap some (sym e),
              )),
        λ held unqueued.
            Returns-mono (reopen_advisory ext a.pk by db) _ _
              (restored_lem _ none_cancelled
                (outcome.1 (put_back-holds a target o db ∙ held) unqueued))
              (λ x db' (r, db2, p, e, advisories, requests, tasks). (
                e ∙ p.1,
                same_row a.pk db' db2 advisories ∙ p.2 ∙ ap some (sym (e ∙ p.1)),
                ap (exists_row (is_queued_for o.pk)) tasks ∙ p.3,
              )),
        λ held queued.
            reopen-eq-reopen_to ext a by db row may dismissed native
            ∙ reopen_to-err a target by db Error.integrity_error
                (no_request_lem (with_state target a) by back none_cancelled)
                (outcome.2 (put_back-holds a target o db ∙ held) queued),
      )

  -- A dismissed advisory goes back to draft, reopened by someone who may. It holds no CVE, its newest
  -- CVE request was cancelled, none is queued, its requests are not banned, and the caller may
  -- request a CVE for it once it is a draft; its newest orphan CVE can be reattached. Then the
  -- reopening restores both: the advisory that is returned is the row and holds its CVE again, and it
  -- has a queued request for another one as well.
  pub reopen_advisory-twofold :
      target_state a.dismissed_from_state ≡ State.draft
      → exists_row (is_open_request a.pk) db.cve_requests ≡ false
      → is_cancelled_task (first_row (is_request_of a.pk) db.cve_requests) ≡ true
      → can_request_cve db by (record a { state = State.draft }) ≡ true
      → a.cve_requests_banned ≡ false
      → exists_row (holds_elsewhere o.cve_id a.pk) db.advisories ≡ false
      → Returns (reopen_advisory ext a.pk by db) (λ r db'.
        (r.assigned_cve_id ≡ o.cve_id)
        × (find a.pk db' ≡ some r)
        × (exists_row (is_open_request a.pk) db'.cve_requests ≡ true))
  reopen_advisory-twofold draft no_open cancelled may_request allowed alone =
      let both =
        restore_both (with_state target a) by o back draft free no_open cancelled
          (put_back-can_request (with_state target a) target by db a.pk
            ∙ ap (λ s. can_request_cve db by (with_state s a)) draft
            ∙ may_request)
          allowed newest (put_back-find a target db row) orphaned
          (put_back-holds a target o db ∙ alone) in
      rw (reopen-eq-reopen_to ext a by db row may dismissed native) (
        Returns-mono (reopen_to a target by db) _ _ (reopen_to-Returns a target by db _ both)
          (λ x db' (r, db2, p, e, advisories, requests, tasks). (
            ap (λ (y : Advisory). y.assigned_cve_id) e ∙ p.0,
            same_row a.pk db' db2 advisories ∙ p.1 ∙ ap some (sym e),
            ap (exists_row (is_open_request a.pk)) requests ∙ p.2,
          )))
