-- ===== src/Tasks.antt =====
-- The other rows: versions, grants, comments and the tasks of the sub-machines
-- (advisories/models.py, access/models.py, comments/models.py, workflows/models.py,
-- publication/models.py, ghsa/models.py).
use advisoryhub.Prelude.{ℕ, Bool, true, false, Option, Text}
use advisoryhub.Advisory.{Payload}

pub data Permission : Type 0 where
  viewer collaborator owner : Permission

-- The string of a `permission` column: one of the three words, or any other.
pub data PermissionName : Type 0 where
  named : Permission → PermissionName
  other : Text → PermissionName

pub data PrincipalType : Type 0 where
  user group : PrincipalType

pub record AdvisoryVersion : Type 0 where
  pub pk : ℕ
  pub advisory : ℕ
  pub version : ℕ
  pub payload : Payload
  pub editor : Option ℕ

pub record AdvisoryAccessGrant : Type 0 where
  pub pk : ℕ
  pub advisory : ℕ
  pub principal_type : PrincipalType
  pub principal_id : ℕ
  pub permission : PermissionName
  pub created_by : Option ℕ

-- The token is left out: no service reads it.
pub record PendingInvitation : Type 0 where
  pub pk : ℕ
  pub advisory : ℕ
  pub email : Text
  pub permission : PermissionName
  pub expires_at : ℕ
  pub created_by : Option ℕ
  pub redeemed_at : Option ℕ
  pub redeemed_by : Option ℕ

pub record AdvisoryComment : Type 0 where
  pub pk : ℕ
  pub advisory : ℕ
  pub author : Option ℕ
  pub body : Text
  pub is_internal : Bool
  pub created_at : ℕ
  pub edited_at : Option ℕ
  pub redacted_at : Option ℕ
  pub redacted_by : Option ℕ

pub record CommentVersion : Type 0 where
  pub pk : ℕ
  pub comment : ℕ
  pub version : ℕ
  pub body : Text
  pub editor : Option ℕ

pub data CveRequestStatus : Type 0 where
  queued reserved rejected cancelled : CveRequestStatus

pub record CveRequestTask : Type 0 where
  pub pk : ℕ
  pub advisory : ℕ
  pub status : CveRequestStatus
  pub requested_by : Option ℕ
  pub assignee : Option ℕ
  pub cve_id : Text
  pub notes : Text
  pub finished_at : Option ℕ

pub data OrphanCveStatus : Type 0 where
  orphaned marked_rejected reassigned : OrphanCveStatus

pub record OrphanCve : Type 0 where
  pub pk : ℕ
  pub cve_id : Text
  pub previous_advisory : ℕ
  pub previous_advisory_label : Text
  pub status : OrphanCveStatus
  pub unassigned_by : Option ℕ
  pub unassign_reason : Text
  pub marked_rejected_by : Option ℕ
  pub marked_rejected_at : Option ℕ
  pub marked_rejected_notes : Text

pub data OrphanCveReassignmentStatus : Type 0 where
  queued resolved_reassigned resolved_replaced : OrphanCveReassignmentStatus

pub record OrphanCveReassignmentTask : Type 0 where
  pub pk : ℕ
  pub orphan_cve : ℕ
  pub advisory : ℕ
  pub status : OrphanCveReassignmentStatus
  pub requested_by : Option ℕ
  pub resolved_by : Option ℕ
  pub replacement_cve_id : Text
  pub resolution_notes : Text
  pub finished_at : Option ℕ

pub data ReviewTaskStatus : Type 0 where
  open_task approved changes_requested withdrawn : ReviewTaskStatus

pub record ReviewTask : Type 0 where
  pub pk : ℕ
  pub advisory : ℕ
  pub version : ℕ
  pub status : ReviewTaskStatus
  pub submitted_by : Option ℕ
  pub reviewer : Option ℕ
  pub decision_notes : Text
  pub decided_at : Option ℕ

pub data PublicationTaskStatus : Type 0 where
  queued running succeeded failed : PublicationTaskStatus

pub record PublicationTask : Type 0 where
  pub pk : ℕ
  pub advisory : ℕ
  pub version : AdvisoryVersion
  pub status : PublicationTaskStatus
  pub attempts : ℕ
  pub last_error : Text
  pub started_at : Option ℕ
  pub finished_at : Option ℕ
  pub enqueued_by : Option ℕ
  pub commit_sha : Text
  pub created_at : ℕ

pub data GhsaCvePushTaskStatus : Type 0 where
  queued running succeeded failed : GhsaCvePushTaskStatus

-- A queued push of a CVE id to GitHub.
pub record GhsaCvePushTask : Type 0 where
  pub pk : ℕ
  pub advisory : ℕ
  pub cve_id : Text
  pub requested_by : Option ℕ
  pub status : GhsaCvePushTaskStatus
  pub attempts : ℕ
  pub last_error : Text
  pub started_at : Option ℕ
  pub finished_at : Option ℕ
  pub created_at : ℕ

abbrev pub is_queued_request : CveRequestStatus → Bool
is_queued_request CveRequestStatus.queued = true
is_queued_request _ = false

abbrev pub is_open_task : ReviewTaskStatus → Bool
is_open_task ReviewTaskStatus.open_task = true
is_open_task _ = false

abbrev pub is_queued_reassignment : OrphanCveReassignmentStatus → Bool
is_queued_reassignment OrphanCveReassignmentStatus.queued = true
is_queued_reassignment _ = false

abbrev pub is_in_flight : PublicationTaskStatus → Bool
is_in_flight PublicationTaskStatus.queued = true
is_in_flight PublicationTaskStatus.running = true
is_in_flight _ = false
