-- ===== src/Ghsa/React.antt =====
-- Following the state of an advisory on GitHub (ghsa/services.py, `react_to_ghsa_state` and
-- `reconcile_ghsa_linked_advisories`).
pub mod Kept
use advisoryhub.Prelude.{
  ℕ, suc, Bool, true, false, not, ◌&&◌, ◌||◌, Option, none, some, List, [], ◌∷◌, ◌++◌, reverse,
  select, Text, codes, is_blank, if◌then◌else◌,
}
use advisoryhub.Accounts.{Actor}
use advisoryhub.Advisory.{
  Advisory, State, GhsaState, is_ghsa_linked, is_published, is_draft, is_triage,
}
use advisoryhub.Db.{
  Db, M, Result, ok, err, Error, Action, Message, pure, ◌>>=◌, ◌>>◌, record_action, save_advisory,
  on_commit,
}
use advisoryhub.Publication.{Externals, is_ghsa_published}
use advisoryhub.Lifecycle.Dismissal.{dismiss_advisory, withdraw_advisory}
use advisoryhub.Ghsa.Sync.{Github, SyncSummary, sync_single_ghsa}

abbrev pub is_ghsa_draft : GhsaState → Bool
is_ghsa_draft GhsaState.draft = true
is_ghsa_draft _ = false

abbrev pub is_ghsa_gone : GhsaState → Bool
is_ghsa_gone GhsaState.closed = true
is_ghsa_gone GhsaState.withdrawn = true
is_ghsa_gone _ = false

-- The value of a GHSA state
abbrev state_text : GhsaState → Text
state_text GhsaState.unknown = codes "unknown"
state_text GhsaState.draft = codes "draft"
state_text GhsaState.triage = codes "triage"
state_text GhsaState.published = codes "published"
state_text GhsaState.closed = codes "closed"
state_text GhsaState.withdrawn = codes "withdrawn"

abbrev pub gone_reason : Bool → GhsaState → Text
gone_reason missing s =
    codes "Linked GHSA was "
    ++ (if missing then codes "deleted" else state_text s)
    ++ codes " on GitHub."

abbrev pub is_active : State → Bool
is_active s = is_draft s || is_triage s || is_published s

-- `ext` is what a publication uses; `auto_publish` is the setting `GHSA_AUTO_PUBLISH_ENABLED`.
module _ (ext : Externals) (auto_publish : Bool) where
  -- To publish, or to publish again
  abbrev pub is_due : Advisory → Bool → Bool
  is_due a missing =
      auto_publish
      && not missing
      && is_ghsa_published a.ghsa_state
      && (is_draft a.state || is_triage a.state || is_published a.state && a.republish_required)

  abbrev pub is_accepted : Advisory → Bool
  is_accepted a = is_ghsa_draft a.ghsa_state && is_triage a.state

  -- Gone on GitHub, without a CVE, and not dismissed
  abbrev pub is_to_retract : Advisory → Bool → Bool
  is_to_retract a missing =
      (missing || is_ghsa_gone a.ghsa_state) && is_active a.state && is_blank a.assigned_cve_id

  pub accept_draft : Advisory → Actor → M (Unit {0})
  unfolding save_advisory record_action
  accept_draft a by = do
    save_advisory a.pk (λ row. record row { state = State.draft })
    record_action Action.advisory_state_changed by a.pk

  unfoldable pub retract : Advisory → Bool → Actor → M (Unit {0})
  retract a missing by =
      if is_published a.state
      then withdraw_advisory ext a.pk by (gone_reason missing a.ghsa_state) >> pure tt
      else dismiss_advisory a.pk by (gone_reason missing a.ghsa_state) >> pure tt

  unfoldable pub react_to_ghsa_state : Advisory → SyncSummary → Actor → M (Unit {0})
  unfolding accept_draft retract on_commit
  react_to_ghsa_state a summary by =
      if not (is_ghsa_linked a.kind)
      then pure tt
      else if is_due a summary.missing_upstream
      then on_commit (Message.run_ghsa_auto_publish a.pk)
      else if is_accepted a
      then accept_draft a by
      else if is_to_retract a summary.missing_upstream
      then retract a summary.missing_upstream by
      else pure tt
