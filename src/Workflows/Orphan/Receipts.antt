-- ===== src/Workflows/Orphan/Receipts.antt =====
-- What becomes of a CVE id that leaves its advisory.
use advisoryhub.Prelude.{
  ℕ, ◌≡◌, refl, true, false, Option, some, ◌∷◌, Text, text_eq_refl, blank, exists_row, get_row,
  map_row, get_row-modify_row_self, exists_row-modify_row, exists_row-get_row, arith,
}
use advisoryhub.Accounts.{Actor}
use advisoryhub.Advisory.{Advisory}
use advisoryhub.Tasks.{OrphanCve, OrphanCveStatus}
use advisoryhub.Db.{Db, Error, err, Post, Returns, save_advisory, record_action}
use advisoryhub.Workflows.Orphan.{
  has_cve, create_orphan, orphan_cve, without_cve, save_orphan, reassign_orphan_cve,
  holds_elsewhere,
}

abbrev pub advisory_key : Advisory → ℕ
advisory_key a = a.pk

abbrev pub find_advisory : ℕ → Db → Option Advisory
find_advisory pk db = get_row advisory_key pk db.advisories

-- Orphaning a CVE that has no receipt yet returns a fresh receipt for it, on top of the others; the
-- advisory's row and the caller's object lose the id. Where the CVE has a receipt already, the call
-- fails.
pub orphan_cve_outcome :
    (a : Advisory) (by : Actor) (reason : Text) (db : Db)
    → (exists_row (has_cve a.assigned_cve_id) db.orphans ≡ false
        → Returns (orphan_cve a by reason db) (λ r db'.
          (r.0.cve_id ≡ a.assigned_cve_id)
          × (r.0.status ≡ OrphanCveStatus.orphaned)
          × (db'.orphans ≡ r.0 ∷ db.orphans)
          × (r.1.assigned_cve_id ≡ blank)
          × (find_advisory a.pk db' ≡ map_row (without_cve a) (find_advisory a.pk db))))
      × (exists_row (has_cve a.assigned_cve_id) db.orphans ≡ true
          → orphan_cve a by reason db ≡ err Error.integrity_error)
unfolding orphan_cve create_orphan save_advisory record_action without_cve
orphan_cve_outcome a by reason db =
    ground
      (arith, get_row-modify_row_self advisory_key (without_cve a) (λ x. refl) a.pk db.advisories)

-- Reattaching gives the id back to the advisory, in its row and in the caller's object, and no other
-- advisory held it.
pub reassign_orphan_cve_outcome :
    (orphan : OrphanCve) (by : Actor) (a : Advisory) (db : Db)
    → Post (reassign_orphan_cve orphan by a db) (λ held db'.
      (a.assigned_cve_id ≡ blank)
      × (held.assigned_cve_id ≡ orphan.cve_id)
      × (exists_row (holds_elsewhere orphan.cve_id a.pk) db.advisories ≡ false)
      × (find_advisory a.pk db'
          ≡ map_row (λ x. record x { assigned_cve_id = orphan.cve_id }) (find_advisory a.pk db)))
unfolding reassign_orphan_cve save_orphan save_advisory record_action
reassign_orphan_cve_outcome orphan by a db = ground (
  arith,
  get_row-modify_row_self advisory_key (λ x. record x { assigned_cve_id = orphan.cve_id })
      (λ x. refl) a.pk db.advisories,
)

abbrev orphan_key : OrphanCve → ℕ
orphan_key o = o.pk

abbrev as_reassigned : OrphanCve → OrphanCve
as_reassigned o = record o { status = OrphanCveStatus.reassigned }

-- Right after a reassignment of an orphan that is in the table, on the rows that it leaves, an attempt
-- to orphan the CVE of the advisory that has got it back, by whomever and for whatever reason, fails
-- on the unique id of the receipt.
pub reassigned_orphan_again :
    (orphan : OrphanCve) (by : Actor) (a : Advisory) (db : Db) (by' : Actor) (reason : Text)
    → get_row orphan_key orphan.pk db.orphans ≡ some orphan
    → Post
        (reassign_orphan_cve orphan by a db)
        (λ held db'. orphan_cve held by' reason db' ≡ err Error.integrity_error)
unfolding reassign_orphan_cve save_orphan save_advisory record_action orphan_cve create_orphan
reassigned_orphan_again orphan by a db by' reason e = ground (
  arith,
  exists_row-get_row orphan_key (has_cve orphan.cve_id) orphan.pk orphan db.orphans e
      (text_eq_refl orphan.cve_id),
  exists_row-modify_row orphan_key as_reassigned (has_cve orphan.cve_id) orphan.pk db.orphans
      (λ x. refl),
)
