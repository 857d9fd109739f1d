-- ===== src/Ghsa/React/Kept.antt =====
-- What following GitHub leaves alone (ghsa/services.py, `react_to_ghsa_state`).
use advisoryhub.Prelude.{
  ℕ, ◌≡◌, ◌≢◌, ◌⊎◌, inl, inr, refl, Bool, true, false, some, is_blank, get_row-modify_row_self,
  get_row-modify_row_ne, arith, Bool-cases,
}
use advisoryhub.Accounts.{Actor}
use advisoryhub.Advisory.{Advisory, State, GhsaState, is_ghsa_linked}
use advisoryhub.Db.{Db, Returns, save_advisory, record_action, on_commit}
use advisoryhub.Publication.{Externals}
use advisoryhub.Ghsa.Sync.{SyncSummary}
use advisoryhub.Ghsa.React.{react_to_ghsa_state, accept_draft, is_due, is_accepted, is_to_retract}
use advisoryhub.Workflows.Review.Pending.{find}

-- Following GitHub for an advisory that holds a CVE, as the caller has it, always goes through. It
-- dismisses and withdraws nothing: every other row stays as it is, and the advisory's own row too,
-- but that it may be moved to draft, and then only where the caller has it as a linked
-- advisory in triage whose state on GitHub is "draft"; no CVE becomes an orphan, and no run is
-- started.
pub react_to_ghsa_state-holding :
    (ext : Externals) (auto_publish : Bool) (a : Advisory) (summary : SyncSummary) (by : Actor)
    (db : Db) (row : Advisory)
    → is_blank a.assigned_cve_id ≡ false
    → find a.pk db ≡ some row
    → Returns (react_to_ghsa_state ext auto_publish a summary by db) (λ u db'.
      ((k : ℕ) → k ≢ a.pk → find k db' ≡ find k db)
      × (find a.pk db' ≡ some row
          ⊎ (find a.pk db' ≡ some (record row { state = State.draft }))
            × (a.state ≡ State.triage)
            × (a.ghsa_state ≡ GhsaState.draft)
            × (is_ghsa_linked a.kind ≡ true))
      × (db'.orphans ≡ db.orphans)
      × (db'.publications ≡ db.publications))
unfolding react_to_ghsa_state accept_draft save_advisory record_action on_commit
react_to_ghsa_state-holding ext auto_publish a summary by db row holds found =
    let draft = λ (r : Advisory). record r { state = State.draft } in
    let self =
      get_row-modify_row_self (λ (a : Advisory). a.pk) draft (λ r. refl) a.pk db.advisories in
    let other = λ (k : ℕ) (ne : k ≢ a.pk).
      get_row-modify_row_ne (λ (a : Advisory). a.pk) draft (λ r. refl) k a.pk db.advisories ne in
    let kept : is_to_retract ext auto_publish a summary.missing_upstream ≡ false =
      ground (arith, holds) in
    elim (Bool-cases (is_ghsa_linked a.kind)) [
      | inr native ↦ rw native (λ k ne. refl, inl found, refl, refl)
      | inl linked ↦ elim (Bool-cases (is_due ext auto_publish a summary.missing_upstream)) [
        | inl due ↦ rw (linked, due) (λ k ne. refl, inl found, refl, refl)
        | inr not_due ↦ elim (Bool-cases (is_accepted ext auto_publish a)) [
          | inl accepted ↦
              rw (linked, not_due, accepted)
                (
                  other,
                  inr (
                    ground (arith, self, found),
                    ground (arith, accepted),
                    ground (arith, accepted),
                    refl,
                  ),
                  refl,
                  refl,
                )
          | inr not_accepted ↦
              rw (linked, not_due, not_accepted, kept) (λ k ne. refl, inl found, refl, refl)
        ]
      ]
    ]
