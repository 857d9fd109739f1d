-- ===== src/Lifecycle/Reopen/Conflict.antt =====
-- What a reopening makes of the CVE that the dismissal orphaned.
use advisoryhub.Prelude.{
  ℕ, ◌≡◌, refl, Bool, true, false, Option, some, List, [], ◌∷◌, is_blank, exists_row, first_row,
  get_row, get_row-modify_row_self, arith,
}
use advisoryhub.Accounts.{Actor}
use advisoryhub.Advisory.{Advisory}
use advisoryhub.Tasks.{OrphanCve, OrphanCveStatus}
use advisoryhub.Db.{Db, Error, err, Returns, save_advisory, record_action}
use advisoryhub.Workflows.Orphan.{reassign_orphan_cve, save_orphan, holds_elsewhere}
use advisoryhub.Lifecycle.Reopen.{
  is_queued_for, create_reassignment, Disposition, reattach, queue_admin_task, restore_by_status,
  is_orphan_of, restore_orphan,
}

pub first_row-holds :
    {A : Type 0} (p : A → Bool) (x : A) (xs : List A) → first_row p xs ≡ some x → p x ≡ true
first_row-holds p x [] e = ground arith
first_row-holds p x (y ∷ ys) e = ground (arith, first_row-holds p x ys)

abbrev advisory_key : Advisory → ℕ
advisory_key a = a.pk

abbrev pub find : ℕ → Db → Option Advisory
find k db = get_row advisory_key k db.advisories

module _ (a : Advisory) (by : Actor) (o : OrphanCve) (db : Db)
    (newest : first_row (is_orphan_of a.pk) db.orphans ≡ some o) (row : find a.pk db ≡ some a)
    (orphaned : o.status ≡ OrphanCveStatus.orphaned)
    (free : is_blank a.assigned_cve_id ≡ true) where
  -- An advisory that holds no CVE is reopened, and its newest orphan CVE is neither reattached nor
  -- rejected. If no other advisory holds that CVE, the advisory gets it back, in its row too. If
  -- another one does, a reassignment task is queued for the administrators and the advisory is left
  -- as it is; but if one is queued for that orphan already, the reopening fails on the unique
  -- constraint.
  pub restore_orphan_outcome :
      (exists_row (holds_elsewhere o.cve_id a.pk) db.advisories ≡ false
        → Returns (restore_orphan a by db) (λ r db'.
          (r.0 ≡ Disposition.reassigned_direct)
          × (r.1.assigned_cve_id ≡ o.cve_id)
          × (find a.pk db' ≡ some r.1)))
      × (exists_row (holds_elsewhere o.cve_id a.pk) db.advisories ≡ true
          → exists_row (is_queued_for o.pk) db.reassignments ≡ false
          → Returns (restore_orphan a by db) (λ r db'.
            (r.0 ≡ Disposition.queued_admin_task)
            × (r.1 ≡ a)
            × (find a.pk db' ≡ some a)
            × (exists_row (is_queued_for o.pk) db'.reassignments ≡ true)))
      × (exists_row (holds_elsewhere o.cve_id a.pk) db.advisories ≡ true
          → exists_row (is_queued_for o.pk) db.reassignments ≡ true
          → restore_orphan a by db ≡ err Error.integrity_error)
  unfolding restore_orphan restore_by_status reattach queue_admin_task create_reassignment
      reassign_orphan_cve save_orphan save_advisory record_action
  restore_orphan_outcome =
      let own = first_row-holds (is_orphan_of a.pk) o db.orphans newest in
      let saved =
        get_row-modify_row_self advisory_key (λ x. record x { assigned_cve_id = o.cve_id })
          (λ x. refl) a.pk db.advisories in
      (
        λ alone. ground (arith, own, newest, row, orphaned, free, alone, saved),
        λ held unqueued. ground (arith, own, newest, row, orphaned, free, held, unqueued),
        λ held queued. ground (arith, own, newest, row, orphaned, free, held, queued),
      )
