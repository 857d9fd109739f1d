-- ===== src/Lifecycle/Triage.antt =====
-- Triage and admin routing (advisories/services.py).
use advisoryhub.Prelude.{
  ℕ, Bool, true, false, not, blank, codes, ◌&&◌, ◌||◌, Option, none, some, Text, is_blank, is_some,
  strip, if◌then◌else◌,
}
use advisoryhub.Accounts.{Actor, Project, actor_or_none, same_project, is_unsorted}
use advisoryhub.Advisory.{Advisory, Intake, State, is_triage}
use advisoryhub.Versions.{record_advisory_version}
use advisoryhub.Db.{
  M, Error, Action, Message, pure, ◌>>=◌, ◌>>◌, require, require_not, gets, when, save_advisory,
  record_action, record_action_note, on_commit,
}
use advisoryhub.Permissions.{is_global_admin}
use advisoryhub.Permissions.Rules.{needs_routing}
use advisoryhub.Permissions.Routing.{
  can_triage, can_flag_for_admin_routing, can_clear_admin_routing_flag, has_authority_on,
}
use advisoryhub.Workflows.{load_advisory}
use advisoryhub.Workflows.Review.{cancel_pending_review}

-- `_clear_routing_flag`
abbrev pub cleared_flag : Intake → Intake
cleared_flag i = record i {
  needs_admin_routing = false;
  admin_routing_note = blank;
  flagged_for_routing_at = none;
  flagged_for_routing_by = none;
}

abbrev pub map_intake : (Intake → Intake) → Option Intake → Option Intake
map_intake f none = none
map_intake f (some i) = some (f i)

pub clear_routing_flag : ℕ → M (Unit {0})
clear_routing_flag pk =
    save_advisory pk (λ a. record a { intake = map_intake cleared_flag a.intake })

-- `get_or_create(advisory=…)`, with the flag raised.
abbrev pub raised_flag : Text → ℕ → Actor → Option Intake → Option Intake
raised_flag note now by none = some (record {
  reporter_user = none;
  needs_admin_routing = true;
  admin_routing_note = note;
  flagged_for_routing_at = some now;
  flagged_for_routing_by = actor_or_none by;
})
raised_flag note now by (some i) = some (record i {
  needs_admin_routing = true;
  admin_routing_note = note;
  flagged_for_routing_at = some now;
  flagged_for_routing_by = actor_or_none by;
})

pub raise_routing_flag : ℕ → Text → ℕ → Actor → M (Unit {0})
raise_routing_flag pk note now by =
    save_advisory pk (λ a. record a { intake = raised_flag note now by a.intake })

-- `intake is not None and (needs_admin_routing or admin_routing_note or flagged_for_routing_at)`
abbrev pub has_routing_trace : Option Intake → Bool
has_routing_trace none = false
has_routing_trace (some i) =
    i.needs_admin_routing || not (is_blank i.admin_routing_note) || is_some i.flagged_for_routing_at

-- `project or advisory.project`
abbrev pub or_current : Option Project → Project → Project
or_current none current = current
or_current (some p) current = p

-- `project is None or project.slug == UNSORTED_PROJECT_SLUG`
abbrev pub is_no_target : Option Project → Bool
is_no_target none = true
is_no_target (some p) = is_unsorted p

abbrev pub promoted : Project → Advisory → Advisory
promoted project a = record a { state = State.draft; project = project }

pub promote_triage_to_draft : ℕ → Actor → Option Project → M Advisory
promote_triage_to_draft pk by project = do
  locked ← load_advisory pk
  db ← gets (λ db. db)
  require (can_triage db by locked) Error.permission_denied
  require (is_triage locked.state) Error.value_error
  require_not (is_unsorted locked.project && is_no_target project) Error.value_error
  let target = or_current project locked.project
  require (same_project locked.project target || has_authority_on db by target)
      Error.permission_denied
  save_advisory pk (promoted target)
  record_advisory_version (promoted target locked) by true
  when (has_routing_trace locked.intake) (clear_routing_flag pk)
  record_action Action.advisory_triage_promoted by pk
  record_action Action.advisory_state_changed by pk
  on_commit (Message.triage_promoted pk)
  pure (record (promoted target locked) {
    intake =
        if has_routing_trace locked.intake
        then map_intake cleared_flag locked.intake
        else locked.intake;
  })

abbrev pub dismissed_as : Text → Option State → Advisory → Advisory
dismissed_as reason from a = record a {
  state = State.dismissed;
  dismissed_reason = reason;
  dismissed_from_state = from;
}

pub dismiss_triage : ℕ → Actor → Text → M Advisory
dismiss_triage pk by reason = do
  require_not (is_blank (strip reason)) Error.value_error
  locked ← load_advisory pk
  db ← gets (λ db. db)
  require (can_triage db by locked) Error.permission_denied
  require (is_triage locked.state) Error.value_error
  save_advisory pk (dismissed_as (strip reason) (some State.triage))
  record_action Action.advisory_dismissed by pk
  record_action Action.advisory_state_changed by pk
  record_action_note pk by (strip reason) false
  cancelled ← cancel_pending_review (dismissed_as (strip reason) (some State.triage) locked) by
  on_commit (Message.triage_dismissed pk)
  pure cancelled.1

abbrev pub note_or_default : Text → Text
note_or_default note =
    if is_blank note then codes "Reassigned to the Unsorted project for admin routing." else note

-- What a reassignment does to the routing flag; returns the sidecar as the caller now holds it.
pub reroute : ℕ → Advisory → Actor → Project → Text → M (Option Intake)
reroute pk locked by new_project note = do
  db ← gets (λ db. db)
  let raise = is_unsorted new_project && not (needs_routing locked.intake)
  let clear = not (is_unsorted new_project) && is_global_admin db by && needs_routing locked.intake
  when raise (raise_routing_flag pk (note_or_default note) db.now by)
  when clear (clear_routing_flag pk)
  pure (
      if raise
      then raised_flag (note_or_default note) db.now by locked.intake
      else if clear
      then map_intake cleared_flag locked.intake
      else locked.intake)

pub reassign_triage_project : ℕ → Actor → Project → Text → M Advisory
reassign_triage_project pk by new_project note = do
  locked ← load_advisory pk
  require (is_triage locked.state) Error.value_error
  db ← gets (λ db. db)
  require (is_global_admin db by || can_triage db by locked) Error.permission_denied
  require (has_authority_on db by new_project) Error.permission_denied
  require_not (same_project locked.project new_project) Error.value_error
  save_advisory pk (λ a. record a { project = new_project })
  record_advisory_version (record locked { project = new_project }) by true
  intake ← reroute pk locked by new_project (strip note)
  record_action Action.advisory_project_changed by pk
  on_commit (Message.triage_reassigned pk)
  pure (record locked { project = new_project; intake = intake })

pub flag_for_admin_routing : ℕ → Actor → Text → M Advisory
flag_for_admin_routing pk by note = do
  locked ← load_advisory pk
  db ← gets (λ db. db)
  require (can_flag_for_admin_routing db by locked) Error.permission_denied
  require_not (is_blank (strip note)) Error.value_error
  require (is_triage locked.state) Error.value_error
  require_not (needs_routing locked.intake) Error.value_error
  raise_routing_flag pk (strip note) db.now by
  record_action Action.advisory_flagged_for_routing by pk
  record_action_note pk by (strip note) true
  on_commit (Message.flagged_for_routing pk)
  pure (record locked { intake = raised_flag (strip note) db.now by locked.intake })

pub clear_admin_routing_flag : ℕ → Actor → Text → M Advisory
clear_admin_routing_flag pk by note = do
  locked ← load_advisory pk
  db ← gets (λ db. db)
  require (can_clear_admin_routing_flag db by locked) Error.permission_denied
  require (is_triage locked.state) Error.value_error
  require (needs_routing locked.intake) Error.value_error
  clear_routing_flag pk
  record_action Action.advisory_routing_flag_cleared by pk
  record_action_note pk by (strip note) true
  on_commit (Message.routing_flag_cleared pk)
  pure (record locked { intake = map_intake cleared_flag locked.intake })
