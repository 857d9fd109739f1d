-- ===== src/Workflows/Cve/Requests.antt =====
-- The queue of open CVE requests (INV-CVE-1) under each operation that touches it.
use advisoryhub.Prelude.{
  ℕ, ◌≤◌, ◌≡◌, ◌≢◌, refl, Bool, true, false, Option, some, Text, count_rows, first_row,
  count_rows-modify_row, exists_row-eq-count_rows, get_row-first_row, first_row-none, Keyed, arith,
  Option-cases, Bool-cases, inl, inr,
}
use advisoryhub.Accounts.{Actor}
use advisoryhub.Advisory.{Advisory}
use advisoryhub.Tasks.{CveRequestTask, CveRequestStatus, is_queued_request}
use advisoryhub.Db.{Db, Error, err, Post, Returns, save_advisory}
use advisoryhub.Db.Keeps.{Keeps, keeps_rules, Keeps-or_raise}
use advisoryhub.Db.Log.{IsQuiet, log_rules}
use advisoryhub.Workflows.{load_advisory, validate_cve_id}
use advisoryhub.Permissions.Rules.{can_request_cve}
use advisoryhub.Workflows.Cve.{
  is_open_request, request_cve, decided_request, save_request, full_clean_request, enqueue_cve_push,
  assign_cve, reject_cve, write_decision, is_valid_cve_transition, cancel_open_cve_request,
  transition_cve_request,
}

-- How many requests of the advisory are queued.
abbrev pub open_requests : ℕ → Db → ℕ
open_requests k db = count_rows (is_open_request k) db.cve_requests

-- Who may request a CVE gets a queued task on the advisory, and the advisory then has exactly one
-- queued request, the other advisories as many as before; who may not is refused.
pub request_cve_outcome :
    (a : Advisory) (by : Actor) (db : Db)
    → (can_request_cve db by a ≡ true
        → Returns (request_cve a by db) (λ t db'.
          (t.advisory ≡ a.pk)
          × (t.status ≡ CveRequestStatus.queued)
          × (open_requests a.pk db' ≡ 1)
          × ((k : ℕ) → k ≢ a.pk → open_requests k db' ≡ open_requests k db)))
      × (can_request_cve db by a ≡ false → request_cve a by db ≡ err Error.permission_denied)
unfolding request_cve can_request_cve
request_cve_outcome a by db =
    ground (arith, exists_row-eq-count_rows (is_open_request a.pk) db.cve_requests)

abbrev request_key : CveRequestTask → ℕ
request_key t = t.pk

abbrev cancelled_task : ℕ → Text → CveRequestTask → CveRequestTask
cancelled_task now reason t = record t {
  status = CveRequestStatus.cancelled;
  notes = reason;
  finished_at = some now;
}

-- Where the keys of the requests are distinct and the advisory has at most one queued request,
-- cancelling leaves it with none, and the other advisories with as many as before; it is no error
-- that there was none.
pub cancel_open_cve_request-open :
    (advisory : ℕ) (by : Actor) (reason : Text) (db : Db)
    → Keyed request_key db.next_pk db.cve_requests
    → open_requests advisory db ≤ 1
    → Returns (cancel_open_cve_request advisory by reason db) (λ t db'.
      (open_requests advisory db' ≡ 0)
      × ((k : ℕ) → k ≢ advisory → open_requests k db' ≡ open_requests k db))
unfolding cancel_open_cve_request
cancel_open_cve_request-open advisory by reason db keyed one =
    elim (Option-cases (first_row (is_open_request advisory) db.cve_requests)) [
      | inl e ↦
          rw (e, cancel_open_cve_request, Returns)
            (first_row-none (is_open_request advisory) db.cve_requests e, λ k h. refl)
      | inr (t, e) ↦
          let found =
            get_row-first_row request_key db.next_pk (is_open_request advisory) t db.cve_requests
              keyed e in
          let moved = λ (k : ℕ).
            count_rows-modify_row request_key (cancelled_task db.now reason) (is_open_request k)
              t.pk db.cve_requests in
          rw (e, cancel_open_cve_request, Returns)
            (ground (arith, found, moved advisory), λ k h. ground (arith, found, moved k))
    ]

valid-not-queued :
    (s t : CveRequestStatus) → is_valid_cve_transition s t ≡ true → is_queued_request t ≡ false
unfolding is_valid_cve_transition
valid-not-queued s t h = ground arith

module _ (k n : ℕ) where
  -- At most `n` requests of the advisory `k` are queued.
  abbrev AtMost : Db → Type 0
  AtMost db = open_requests k db ≤ n

  save_advisory-AtMost : (pk : ℕ) (f : Advisory → Advisory) → Keeps AtMost (save_advisory pk f)
  unfolding save_advisory
  save_advisory-AtMost pk f = record { at = λ db h. h }

  AtMost-quiet : IsQuiet AtMost
  AtMost-quiet = record { at = λ db n c v a o h. h }

  decided-AtMost :
      (now : ℕ) (task : CveRequestTask) (by : Actor) (new_status : CveRequestStatus)
      (cve_id notes : Option Text)
      → is_queued_request new_status ≡ false
      → Keeps AtMost (save_request (decided_request now task by new_status cve_id notes))
  unfolding save_request decided_request
  decided-AtMost now task by new_status cve_id notes e = record {
    at = λ db h. ground (
      arith,
      count_rows-modify_row request_key (λ t. decided_request now task by new_status cve_id notes)
          (is_open_request k) task.pk db.cve_requests,
    );
  }

  load_advisory-AtMost : (pk : ℕ) → Keeps AtMost (load_advisory pk)
  unfolding load_advisory
  load_advisory-AtMost pk = record { at = λ db h. (Keeps-or_raise {P = AtMost} _ _).at db h }

  full_clean_request-AtMost : (t : CveRequestTask) → Keeps AtMost (full_clean_request t)
  unfolding full_clean_request validate_cve_id
  full_clean_request-AtMost t = record { at = λ db h. ground arith }

  enqueue_cve_push-AtMost :
      (a : Advisory) (c : Text) (by : Actor) → Keeps AtMost (enqueue_cve_push a c by)
  unfolding enqueue_cve_push
  enqueue_cve_push-AtMost a c by = record { at = λ db h. ground arith }

  assign_cve-AtMost : (a : Advisory) (by : Actor) (c : Text) → Keeps AtMost (assign_cve a by c)
  unfolding assign_cve
  assign_cve-AtMost a by c =
      search (keeps_rules, save_advisory-AtMost, log_rules, AtMost-quiet, enqueue_cve_push-AtMost)
        depth 9

  reject_cve-AtMost :
      (a : Advisory) (by : Actor) (c : Text) (b : Bool) → Keeps AtMost (reject_cve a by c b)
  unfolding reject_cve
  reject_cve-AtMost a by c b =
      search (keeps_rules, save_advisory-AtMost, log_rules, AtMost-quiet) depth 9

  write_decision-AtMost :
      (decided : CveRequestTask) (by : Actor) (new_status : CveRequestStatus)
      (cve_id notes : Option Text) (ban : Bool)
      → Keeps AtMost (save_request decided)
      → Keeps AtMost (write_decision decided by new_status cve_id notes ban)
  unfolding write_decision
  write_decision-AtMost decided by new_status cve_id notes ban saved =
      search
        (
          keeps_rules, full_clean_request-AtMost, load_advisory-AtMost, assign_cve-AtMost,
          reject_cve-AtMost, log_rules, AtMost-quiet,
        )
        depth 12

-- A decision adds no queued request to any advisory, however stale the task that the caller holds.
pub transition_cve_request-open :
    (task : CveRequestTask) (by : Actor) (new_status : CveRequestStatus)
    (cve_id notes : Option Text) (ban : Bool) (db : Db) (k : ℕ)
    → Post
        (transition_cve_request task by new_status cve_id notes ban db)
        (λ t db'. open_requests k db' ≤ open_requests k db)
unfolding transition_cve_request
transition_cve_request-open task by new_status cve_id notes ban db k =
    elim (Bool-cases (is_valid_cve_transition task.status new_status)) [
      | inl valid ↦
          let decided = decided_request db.now task by new_status cve_id notes in
          let saved =
            decided-AtMost k (open_requests k db) db.now task by new_status cve_id notes
              (valid-not-queued task.status new_status valid) in
          let kept =
            (write_decision-AtMost k (open_requests k db) decided by new_status cve_id notes ban
                saved).at
              db (omega arith) in
          ground (arith, kept)
      | inr invalid ↦ ground arith
    ]
