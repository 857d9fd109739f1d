-- ===== src/Lifecycle/Reopen/Twofold.antt =====
-- A reopening that restores both a CVE request and a CVE.
use advisoryhub.Prelude.{
  ◌≡◌, refl, true, false, some, is_blank, exists_row, first_row, get_row, get_row-modify_row_self,
  arith, ◌∙◌, ap,
}
use advisoryhub.Accounts.{Actor}
use advisoryhub.Advisory.{Advisory, State}
use advisoryhub.Tasks.{OrphanCve, OrphanCveStatus}
use advisoryhub.Db.Calls.{Returns-mono}
use advisoryhub.Db.{Db, Returns, save_advisory, record_action}
use advisoryhub.Permissions.Rules.{can_request_cve}
use advisoryhub.Workflows.Cve.{is_open_request, request_cve, create_cve_request}
use advisoryhub.Workflows.Orphan.{reassign_orphan_cve, save_orphan, holds_elsewhere}
use advisoryhub.Lifecycle.Reopen.{
  is_orphan_of, is_request_of, is_cancelled_task, restore_cve_request, restore_orphan,
  restore_by_status, reattach,
}
use advisoryhub.Lifecycle.Reopen.Conflict.{find, first_row-holds}

module _ (a : Advisory) (by : Actor) (o : OrphanCve) (db : Db) where
  restore_request_lem :
      a.state ≡ State.draft
      → is_blank a.assigned_cve_id ≡ true
      → exists_row (is_open_request a.pk) db.cve_requests ≡ false
      → is_cancelled_task (first_row (is_request_of a.pk) db.cve_requests) ≡ true
      → can_request_cve db by a ≡ true
      → a.cve_requests_banned ≡ false
      → Returns (restore_cve_request a by db) (λ _ db1.
        (exists_row (is_open_request a.pk) db1.cve_requests ≡ true)
        × (db1.advisories ≡ db.advisories)
        × (db1.orphans ≡ db.orphans))
  unfolding restore_cve_request request_cve create_cve_request record_action
  restore_request_lem draft free no_open cancelled may allowed =
      ground (arith, draft, free, no_open, cancelled, may, allowed)

  reattach_lem :
      (db1 : Db)
      → first_row (is_orphan_of a.pk) db1.orphans ≡ some o
      → find a.pk db1 ≡ some a
      → o.status ≡ OrphanCveStatus.orphaned
      → is_blank a.assigned_cve_id ≡ true
      → exists_row (holds_elsewhere o.cve_id a.pk) db1.advisories ≡ false
      → Returns (restore_orphan a by db1) (λ r db2.
        (r.1.assigned_cve_id ≡ o.cve_id)
        × (find a.pk db2 ≡ some r.1)
        × (db2.cve_requests ≡ db1.cve_requests))
  unfolding restore_orphan restore_by_status reattach reassign_orphan_cve save_orphan save_advisory
      record_action
  reattach_lem db1 newest row orphaned free alone =
      let own = first_row-holds (is_orphan_of a.pk) o db1.orphans newest in
      let saved =
        get_row-modify_row_self (λ (x : Advisory). x.pk)
          (λ x. record x { assigned_cve_id = o.cve_id }) (λ x. refl) a.pk db1.advisories in
      ground (arith, own, newest, row, orphaned, free, alone, saved)

  -- The two restorations of a reopening do not look at each other. Where the newest CVE request of a
  -- draft was cancelled and its newest orphan CVE can be reattached, its caller may request a CVE
  -- and its requests are not banned, both go through: the advisory holds the CVE again, and has a
  -- queued request for another one.
  pub restore_both :
      a.state ≡ State.draft
      → is_blank a.assigned_cve_id ≡ true
      → exists_row (is_open_request a.pk) db.cve_requests ≡ false
      → is_cancelled_task (first_row (is_request_of a.pk) db.cve_requests) ≡ true
      → can_request_cve db by a ≡ true
      → a.cve_requests_banned ≡ false
      → first_row (is_orphan_of a.pk) db.orphans ≡ some o
      → find a.pk db ≡ some a
      → o.status ≡ OrphanCveStatus.orphaned
      → exists_row (holds_elsewhere o.cve_id a.pk) db.advisories ≡ false
      → Returns (restore_cve_request a by db) (λ _ db1. Returns (restore_orphan a by db1) (λ r db2.
        (r.1.assigned_cve_id ≡ o.cve_id)
        × (find a.pk db2 ≡ some r.1)
        × (exists_row (is_open_request a.pk) db2.cve_requests ≡ true)))
  restore_both draft free no_open cancelled may allowed newest row orphaned alone =
      Returns-mono (restore_cve_request a by db) _ _
        (restore_request_lem draft free no_open cancelled may allowed)
        (λ _ db1 h1.
          Returns-mono (restore_orphan a by db1) _ _
            (reattach_lem db1 (ap (first_row (is_orphan_of a.pk)) h1.2 ∙ newest)
              (ap (get_row (λ (x : Advisory). x.pk) a.pk) h1.1 ∙ row) orphaned free
              (ap (exists_row (holds_elsewhere o.cve_id a.pk)) h1.1 ∙ alone))
            (λ r db2 h2. (h2.0, h2.1, ap (exists_row (is_open_request a.pk)) h2.2 ∙ h1.0)))
