-- ===== src/Tests/Data.antt =====
-- A small installation: an administrator, a member of the project's security team, a stranger, and
-- rows to run the services on.
use advisoryhub.Prelude.{true, false, blank, codes, ◌&&◌, leb, none, some, [], ◌∷◌, Text}
use advisoryhub.Accounts.{Account, Project, Settings}
use advisoryhub.Advisory.{
  Advisory, Content, GhsaCvePushStatus, GhsaState, Kind, ReviewStatus, State, to_payload,
}
use advisoryhub.Tasks.{
  AdvisoryAccessGrant, AdvisoryVersion, CveRequestStatus, CveRequestTask, OrphanCve,
  OrphanCveStatus, PrincipalType, PublicationTask, PublicationTaskStatus, ReviewTask,
  ReviewTaskStatus, named, viewer,
}
use advisoryhub.Db.{Db, ok}
use advisoryhub.Publication.{Export, Externals}

abbrev pub admin : Account
admin = record {
  pk = 1;
  email = codes "admin@x.org";
  groups = record { pk = 10; name = codes "admins" } ∷ [];
}

abbrev pub member : Account
member = record {
  pk = 2;
  email = codes "member@x.org";
  groups = record { pk = 20; name = codes "team" } ∷ [];
}

abbrev pub stranger : Account
stranger = record { pk = 3; email = codes "stranger@x.org"; groups = [] }

abbrev pub project : Project
project = record {
  pk = 5;
  slug = codes "jetty";
  name = codes "Jetty";
  security_team_id = 20;
  is_mature_publisher = false;
  github_repositories = [];
}

abbrev pub other_project : Project
other_project = record project { pk = 6; slug = codes "ditto"; security_team_id = 30 }

abbrev pub settings : Settings
settings = record {
  oidc_admin_group = codes "admins";
  ghsa_feature_enabled = true;
  pub_task_stale_running_after_seconds = 900;
  pub_task_stale_queued_after_seconds = 600;
  ghsa_cve_push_stale_running_after_seconds = 1800;
  ghsa_cve_push_stale_queued_after_seconds = 7200;
  is_decimal = λ c. leb 48 c && leb c 57;
}

abbrev pub no_content : Content
no_content = record {
  summary = codes "XSS";
  details = blank;
  aliases = blank;
  references = blank;
  affected = blank;
  severity = blank;
  cwe_ids = blank;
  credits = blank;
}

abbrev pub draft : Advisory
draft = record {
  pk = 7;
  advisory_id = codes "EF-7";
  project = project;
  state = State.draft;
  review_status = ReviewStatus.none;
  submitted_for_review_at = none;
  submitted_for_review_by = none;
  content = no_content;
  published_at = none;
  created_by = some 2;
  withdrawn_reason = blank;
  dismissed_reason = blank;
  dismissed_from_state = none;
  republish_required = false;
  access_review_required_at = none;
  reassignment_requested_at = none;
  reassignment_requested_by = none;
  reassignment_request_note = blank;
  reassignment_suggested_project = none;
  withdrawal_requested_at = none;
  withdrawal_requested_by = none;
  withdrawal_request_note = blank;
  comments_locked = false;
  comments_locked_at = none;
  comments_locked_by = none;
  comments_lock_reason = blank;
  assigned_cve_id = blank;
  cve_requests_banned = false;
  kind = Kind.native;
  ghsa_id = blank;
  ghsa_owner = blank;
  ghsa_repo = blank;
  ghsa_metadata = blank;
  ghsa_metadata_synced_at = none;
  ghsa_sync_error = blank;
  ghsa_state = GhsaState.unknown;
  ghsa_cve_push_status = GhsaCvePushStatus.none;
  ghsa_cve_push_attempted_at = none;
  ghsa_cve_conflict_detected_at = none;
  ghsa_cve_conflict_ghsa_value = blank;
  intake = none;
}

-- A draft under review, with a CVE and a reassignment request.
abbrev pub busy : Advisory
busy = record draft {
  review_status = ReviewStatus.submitted;
  assigned_cve_id = codes "CVE-2025-0001";
  reassignment_requested_at = some 3;
}

abbrev pub published : Advisory
published = record draft {
  state = State.published;
  published_at = some 40;
  assigned_cve_id = codes "CVE-2025-0001";
}

abbrev pub dismissed : Advisory
dismissed = record draft { state = State.dismissed; dismissed_from_state = some State.triage }

abbrev pub empty : Db
empty = record {
  settings = settings;
  now = 5000000000;
  next_pk = 100;
  advisories = [];
  versions = [];
  grants = [];
  users = [];
  invitations = [];
  comments = [];
  comment_versions = [];
  cve_requests = [];
  orphans = [];
  reassignments = [];
  review_tasks = [];
  publications = [];
  cve_pushes = [];
  audit = [];
  outbox = [];
}

abbrev pub version : Text → AdvisoryVersion
version withdrawn_reason = record {
  pk = 8;
  advisory = 7;
  version = 1;
  payload = record (to_payload draft) { withdrawn_reason = withdrawn_reason };
  editor = some 2;
}

abbrev pub review : ReviewTask
review = record {
  pk = 9;
  advisory = 7;
  version = 8;
  status = ReviewTaskStatus.open_task;
  submitted_by = some 2;
  reviewer = none;
  decision_notes = blank;
  decided_at = none;
}

abbrev pub request : CveRequestTask
request = record {
  pk = 11;
  advisory = 7;
  status = CveRequestStatus.queued;
  requested_by = some 2;
  assignee = none;
  cve_id = blank;
  notes = blank;
  finished_at = none;
}

abbrev pub run : Text → PublicationTask
run withdrawn_reason = record {
  pk = 12;
  advisory = 7;
  version = version withdrawn_reason;
  status = PublicationTaskStatus.queued;
  attempts = 0;
  last_error = blank;
  started_at = none;
  finished_at = none;
  enqueued_by = some 2;
  commit_sha = blank;
  created_at = 0;
}

abbrev pub orphan : OrphanCve
orphan = record {
  pk = 13;
  cve_id = codes "CVE-2025-0001";
  previous_advisory = 7;
  previous_advisory_label = codes "EF-7";
  status = OrphanCveStatus.orphaned;
  unassigned_by = some 1;
  unassign_reason = codes "duplicate";
  marked_rejected_by = none;
  marked_rejected_at = none;
  marked_rejected_notes = blank;
}

abbrev pub viewer_grant : AdvisoryAccessGrant
viewer_grant = record {
  pk = 14;
  advisory = 7;
  principal_type = PrincipalType.user;
  principal_id = 3;
  permission = named viewer;
  created_by = some 1;
}

abbrev pub with_rows : Advisory → Db
with_rows a = record empty {
  advisories = a ∷ [];
  versions = version blank ∷ [];
  grants = viewer_grant ∷ [];
}

-- An advisory with every machine running.
abbrev pub busy_db : Db
busy_db = record (with_rows busy) { review_tasks = review ∷ []; cve_requests = request ∷ [] }

abbrev pub run_db : Text → Advisory → Db
run_db withdrawn_reason a = record (with_rows a) { publications = run withdrawn_reason ∷ [] }

-- A GitHub that answers with the advisory as it is, and an export that ends as given.
abbrev pub ending : Export → Externals
ending outcome = record {
  sync_single_ghsa = λ a by db. ok (false, a) db;
  export = λ task. outcome;
  redact_error = λ text. text;
}

-- A draft whose CVE was orphaned.
abbrev pub orphan_db : Db
orphan_db = record (with_rows draft) { orphans = orphan ∷ [] }
