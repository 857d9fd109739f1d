-- ===== src/Advisory.antt =====
-- The `Advisory` row and its enumerations (advisories/models.py). A foreign key to a project is
-- the project's row; one to a user is its primary key; the intake sidecar, a one-to-one row, is a
-- field. Nothing modelled reads `modified_at`,
-- `created_at` and the columns computed from the severity, and they are left out.
use advisoryhub.Prelude.{ℕ, Bool, true, false, Option, Text, text_eq, ◌==◌, ◌&&◌}
use advisoryhub.Accounts.{Project}

pub data State : Type 0 where
  triage draft published dismissed : State

pub data ReviewStatus : Type 0 where
  none submitted changes_requested approved : ReviewStatus

pub data Kind : Type 0 where
  native ghsa_linked : Kind

pub data GhsaState : Type 0 where
  unknown draft triage published closed withdrawn : GhsaState

pub data GhsaCvePushStatus : Type 0 where
  none pending succeeded failed : GhsaCvePushStatus

abbrev pub is_triage : State → Bool
is_triage State.triage = true
is_triage _ = false

abbrev pub is_draft : State → Bool
is_draft State.draft = true
is_draft _ = false

abbrev pub is_published : State → Bool
is_published State.published = true
is_published _ = false

abbrev pub is_dismissed : State → Bool
is_dismissed State.dismissed = true
is_dismissed _ = false

abbrev pub is_submitted : ReviewStatus → Bool
is_submitted ReviewStatus.submitted = true
is_submitted _ = false

abbrev pub is_approved : ReviewStatus → Bool
is_approved ReviewStatus.approved = true
is_approved _ = false

abbrev pub is_changes_requested : ReviewStatus → Bool
is_changes_requested ReviewStatus.changes_requested = true
is_changes_requested _ = false

abbrev pub is_unreviewed : ReviewStatus → Bool
is_unreviewed ReviewStatus.none = true
is_unreviewed _ = false

abbrev pub is_ghsa_linked : Kind → Bool
is_ghsa_linked Kind.ghsa_linked = true
is_ghsa_linked _ = false

-- The blank `dismissed_from_state` is `none`.
abbrev pub is_from_published : Option State → Bool
is_from_published Option.none = false
is_from_published (Option.some s) = is_published s

-- The admin-routing flag of `AdvisoryIntakeMetadata`, with what else the services write there.
pub record Intake : Type 0 where
  pub reporter_user : Option ℕ
  pub needs_admin_routing : Bool
  pub admin_routing_note : Text
  pub flagged_for_routing_at : Option ℕ
  pub flagged_for_routing_by : Option ℕ

-- The content that an editor works on; lists in JSON are kept as texts, since the services modelled
-- here only compare and copy them.
pub record Content : Type 0 where
  pub summary : Text
  pub details : Text
  pub aliases : Text
  pub references : Text
  pub affected : Text
  pub severity : Text
  pub cwe_ids : Text
  pub credits : Text

pub record Advisory : Type 0 where
  pub pk : ℕ
  pub advisory_id : Text
  pub project : Project
  pub state : State
  pub review_status : ReviewStatus
  pub submitted_for_review_at : Option ℕ
  pub submitted_for_review_by : Option ℕ
  pub content : Content
  pub published_at : Option ℕ
  pub created_by : Option ℕ
  pub withdrawn_reason : Text
  pub dismissed_reason : Text
  pub dismissed_from_state : Option State
  pub republish_required : Bool
  pub access_review_required_at : Option ℕ
  pub reassignment_requested_at : Option ℕ
  pub reassignment_requested_by : Option ℕ
  pub reassignment_request_note : Text
  pub reassignment_suggested_project : Option Project
  pub withdrawal_requested_at : Option ℕ
  pub withdrawal_requested_by : Option ℕ
  pub withdrawal_request_note : Text
  pub comments_locked : Bool
  pub comments_locked_at : Option ℕ
  pub comments_locked_by : Option ℕ
  pub comments_lock_reason : Text
  pub assigned_cve_id : Text
  pub cve_requests_banned : Bool
  pub kind : Kind
  pub ghsa_id : Text
  pub ghsa_owner : Text
  pub ghsa_repo : Text
  pub ghsa_metadata : Text
  pub ghsa_metadata_synced_at : Option ℕ
  pub ghsa_sync_error : Text
  pub ghsa_state : GhsaState
  pub ghsa_cve_push_status : GhsaCvePushStatus
  pub ghsa_cve_push_attempted_at : Option ℕ
  pub ghsa_cve_conflict_detected_at : Option ℕ
  pub ghsa_cve_conflict_ghsa_value : Text
  pub intake : Option Intake

-- `Advisory.to_payload`: what an `AdvisoryVersion` freezes.
pub record Payload : Type 0 where
  pub advisory_id : Text
  pub project_slug : Text
  pub project_name : Text
  pub content : Content
  pub assigned_cve_id : Text
  pub withdrawn_reason : Text
  pub kind : Kind
  pub ghsa_id : Text
  pub ghsa_owner : Text
  pub ghsa_repo : Text
  pub ghsa_metadata_synced_at : Option ℕ

unfoldable pub to_payload : Advisory → Payload
to_payload a = record {
  advisory_id = a.advisory_id;
  project_slug = a.project.slug;
  project_name = a.project.name;
  content = a.content;
  assigned_cve_id = a.assigned_cve_id;
  withdrawn_reason = a.withdrawn_reason;
  kind = a.kind;
  ghsa_id = a.ghsa_id;
  ghsa_owner = a.ghsa_owner;
  ghsa_repo = a.ghsa_repo;
  ghsa_metadata_synced_at = a.ghsa_metadata_synced_at;
}

content_eq : Content → Content → Bool
content_eq c d =
    text_eq c.summary d.summary
    && text_eq c.details d.details
    && text_eq c.aliases d.aliases
    && text_eq c.references d.references
    && text_eq c.affected d.affected
    && text_eq c.severity d.severity
    && text_eq c.cwe_ids d.cwe_ids
    && text_eq c.credits d.credits

kind_eq : Kind → Kind → Bool
kind_eq Kind.native Kind.native = true
kind_eq Kind.ghsa_linked Kind.ghsa_linked = true
kind_eq _ _ = false

time_eq : Option ℕ → Option ℕ → Bool
time_eq Option.none Option.none = true
time_eq (Option.some s) (Option.some t) = s == t
time_eq _ _ = false

-- `==` of two payload dictionaries.
unfoldable pub payload_eq : Payload → Payload → Bool
unfolding content_eq kind_eq time_eq
payload_eq p q =
    text_eq p.advisory_id q.advisory_id
    && text_eq p.project_slug q.project_slug
    && text_eq p.project_name q.project_name
    && content_eq p.content q.content
    && text_eq p.assigned_cve_id q.assigned_cve_id
    && text_eq p.withdrawn_reason q.withdrawn_reason
    && kind_eq p.kind q.kind
    && text_eq p.ghsa_id q.ghsa_id
    && text_eq p.ghsa_owner q.ghsa_owner
    && text_eq p.ghsa_repo q.ghsa_repo
    && time_eq p.ghsa_metadata_synced_at q.ghsa_metadata_synced_at
