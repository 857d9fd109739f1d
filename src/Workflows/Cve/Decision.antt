-- ===== src/Workflows/Cve/Decision.antt =====
-- What a reservation does to the request and to the advisory.
use advisoryhub.Prelude.{
  ℕ, ◌≡◌, refl, true, false, ◌&&◌, ◌||◌, not, Option, none, some, Text, is_blank, get_row, map_row,
  modify_row, get_row-modify_row_self, get_row-key, get_row-write_row, if◌then◌else◌, arith,
  Bool-cases, inl, inr,
}
use advisoryhub.Accounts.{Actor}
use advisoryhub.Advisory.{Advisory, GhsaCvePushStatus, is_published, is_ghsa_linked}
use advisoryhub.Tasks.{CveRequestTask, CveRequestStatus}
use advisoryhub.Db.{Db, Error, err, Returns, save_advisory, record_action, on_commit}
use advisoryhub.Permissions.Review.{can_review}
use advisoryhub.Workflows.{load_advisory, validate_cve_id, is_cve_id}
use advisoryhub.Workflows.Cve.{
  decided_request, save_request, full_clean_request, enqueue_cve_push, assign_cve, write_decision,
  is_valid_cve_transition, transition_cve_request,
}

abbrev advisory_key : Advisory → ℕ
advisory_key a = a.pk

abbrev pub find : ℕ → Db → Option Advisory
find k db = get_row advisory_key k db.advisories

abbrev pub Has : Option Advisory → (Advisory → Type 0) → Type 0
Has none P = ⊥
Has (some a) P = P a

-- The row with the reserved id, flagged if it is published.
abbrev pub Reserved : Advisory → Text → Advisory → Type 0
Reserved row cve_id a =
    (a.assigned_cve_id ≡ cve_id)
    × (a.republish_required ≡ (row.republish_required || is_published row.state))
    × (a.state ≡ row.state)

abbrev with_cve : Advisory → Text → Advisory → Advisory
with_cve held cve_id a = record a {
  assigned_cve_id = cve_id;
  republish_required =
      if is_published held.state && not held.republish_required then true else a.republish_required;
}

abbrev pending_push : Advisory → Advisory
pending_push a = record a { ghsa_cve_push_status = GhsaCvePushStatus.pending }

assign_cve_lem :
    (row : Advisory) (by : Actor) (cve_id : Text) (db : Db)
    → find row.pk db ≡ some row
    → Returns (assign_cve row by cve_id db) (λ _ db'.
      Has (find row.pk db') (Reserved row cve_id) × (db'.cve_requests ≡ db.cve_requests))
unfolding assign_cve save_advisory enqueue_cve_push on_commit record_action
assign_cve_lem row by cve_id db found =
    let saved =
      get_row-modify_row_self advisory_key (with_cve row cve_id) (λ x. refl) row.pk db.advisories in
    let pushed =
      get_row-modify_row_self advisory_key pending_push (λ x. refl) row.pk
        (modify_row advisory_key row.pk (with_cve row cve_id) db.advisories) in
    elim (Bool-cases (is_ghsa_linked row.kind)) [
      | inl linked ↦ ground (arith, found, saved, pushed, linked)
      | inr native ↦ ground (arith, found, saved, native)
    ]

abbrev pub request_key : CveRequestTask → ℕ
request_key t = t.pk

module _ (task : CveRequestTask) (by : Actor) (cve_id : Text) (notes : Option Text) (db : Db)
    (may : can_review db by ≡ true) (queued : task.status ≡ CveRequestStatus.queued)
    (given : is_blank cve_id ≡ false) where
  abbrev decided : CveRequestTask
  decided = decided_request db.now task by CveRequestStatus.reserved (some cve_id) notes

  -- An administrator reserves an id for a queued request. If the request still names its requester
  -- and the id is a CVE id, the row of its advisory gets the id and is flagged for republication if
  -- it is published, and the request is stored as it is returned: reserved, with the id and the
  -- time. If the request names no requester any more, the reservation always fails.
  pub reserve_outcome :
      ((u : ℕ) (row : Advisory)
        → task.requested_by ≡ some u
        → is_cve_id db.settings.is_decimal cve_id ≡ true
        → find task.advisory db ≡ some row
        → Returns
            (transition_cve_request task by CveRequestStatus.reserved (some cve_id) notes false db)
            (λ t db'.
              (t.status ≡ CveRequestStatus.reserved)
              × (t.cve_id ≡ cve_id)
              × (t.finished_at ≡ some db.now)
              × Has (find task.advisory db') (Reserved row cve_id)
              × (get_row request_key task.pk db'.cve_requests
                  ≡ map_row (λ _. t) (get_row request_key task.pk db.cve_requests))))
      × (task.requested_by ≡ none
          → transition_cve_request task by CveRequestStatus.reserved (some cve_id) notes false db
            ≡ err Error.validation_error)
  unfolding transition_cve_request is_valid_cve_transition write_decision full_clean_request
      validate_cve_id save_request load_advisory decided_request record_action
  reserve_outcome = (
    λ u row asked valid found. ground (
      arith,
      may,
      queued,
      given,
      asked,
      valid,
      found,
      get_row-key advisory_key task.advisory row db.advisories found,
      assign_cve_lem row by cve_id (record db {
        cve_requests = modify_row request_key task.pk (λ _. decided) db.cve_requests;
      }),
      get_row-write_row request_key (λ t. decided) task.pk db.cve_requests (λ t. refl),
    ),
    λ deleted. ground (arith, may, queued, given, deleted),
  )
