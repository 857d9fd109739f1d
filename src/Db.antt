-- ===== src/Db.antt =====
-- The database, a transaction over it, and the writes that every service makes: rows saved by
-- `save(update_fields=…)`, `audit.services.record`, `comments.services.record_action_note`.
-- A service under `transaction.atomic` is a function from a database to a result: an exception
-- carries no database, since the transaction is rolled back.
pub mod Keeps
pub mod Log
pub mod Calls
use advisoryhub.Prelude.{
  ℕ, suc, Bool, true, false, not, Option, none, some, List, ◌∷◌, Text, is_blank, strip, modify_row,
  if◌then◌else◌,
}
use advisoryhub.Accounts.{Account, Actor, actor_or_none, Settings}
use advisoryhub.Advisory.{Advisory}
use advisoryhub.Tasks.{
  AdvisoryVersion, AdvisoryAccessGrant, PendingInvitation, AdvisoryComment, CommentVersion,
  CveRequestTask, OrphanCve, OrphanCveReassignmentTask, ReviewTask, PublicationTask,
  GhsaCvePushTask,
}

-- The audit actions that the modelled services record.
pub data Action : Type 0 where
  advisory_triage_promoted advisory_state_changed advisory_dismissed advisory_reopened : Action
  advisory_published advisory_project_changed advisory_flagged_for_routing : Action
  advisory_routing_flag_cleared advisory_comments_locked advisory_comments_unlocked : Action
  advisory_reassignment_requested advisory_reassignment_request_cleared : Action
  advisory_withdrawal_requested advisory_withdrawal_request_cleared : Action
  advisory_submitted_for_review advisory_review_withdrawn advisory_review_approved : Action
  advisory_review_changes_requested advisory_review_approval_revoked : Action
  review_task_status_changed comment_created : Action
  cve_requested cve_request_banned cve_request_unbanned cve_request_cancelled : Action
  cve_task_status_changed cve_unassigned cve_reassigned_from_orphan : Action
  cve_marked_rejected_at_cve_org orphan_reassignment_requested : Action
  orphan_reassignment_resolved ghsa_cve_push_requested : Action
  publication_export_started publication_osv_generated publication_csaf_generated : Action
  publication_cve_generated publication_git_commit publication_git_push : Action
  publication_export_completed publication_export_failed publication_git_push_failed : Action
  publication_task_reaped access_granted access_revoked : Action
  comment_edited comment_redacted invitation_created invitation_redeemed invitation_revoked
        invitation_resent ghsa_metadata_fetched ghsa_cve_conflict_detected ghsa_cve_push_succeeded
        ghsa_cve_push_failed ghsa_cve_push_reaped :
      Action

-- A ledger row: which action, by whom, on which advisory. Its JSON values are left out.
pub record AuditEntry : Type 0 where
  pub action : Action
  pub actor : Option ℕ
  pub advisory : ℕ

-- What is handed to the task queue after the commit.
pub data Message : Type 0 where
  submitted_for_review review_withdrawn triage_promoted triage_dismissed : ℕ → Message
  triage_reassigned flagged_for_routing routing_flag_cleared reopened : ℕ → Message
  advisory_published export_status : ℕ → Message
  run_publication : ℕ → Message
  run_cve_push run_ghsa_auto_publish : ℕ → Message
  send_invitation_email : ℕ → Message

-- The tables, newest row first; primary keys come from one sequence; `now` is the clock that one
-- transaction reads.
pub record Db : Type 0 where
  pub settings : Settings
  pub now : ℕ
  pub next_pk : ℕ
  pub advisories : List Advisory
  pub versions : List AdvisoryVersion
  pub grants : List AdvisoryAccessGrant
  pub users : List Account
  pub invitations : List PendingInvitation
  pub comments : List AdvisoryComment
  pub comment_versions : List CommentVersion
  pub cve_requests : List CveRequestTask
  pub orphans : List OrphanCve
  pub reassignments : List OrphanCveReassignmentTask
  pub review_tasks : List ReviewTask
  pub publications : List PublicationTask
  pub cve_pushes : List GhsaCvePushTask
  pub audit : List AuditEntry
  pub outbox : List Message

pub data Error : Type 0 where
  permission_denied value_error validation_error integrity_error : Error
  does_not_exist multiple_objects_returned publication_in_progress attribute_error : Error
  type_error key_error ghsa_client_error : Error

pub data Result (A : Type 0) : Type 0 where
  ok : A → Db → Result A
  err : Error → Result A

abbrev pub M : Type 0 → Type 0
M A = Db → Result A

abbrev pub pure : {A : Type 0} → A → M A
pure a db = ok a db

abbrev pub raise : {A : Type 0} → Error → M A
raise e db = err e

infixl 5 ◌>>=◌ ◌>>◌
abbrev pub ◌>>=◌ : {A B : Type 0} → M A → (A → M B) → M B
◌>>=◌ m f db = elim (m db) [ ok a db' ↦ f a db' | err e ↦ err e ]

abbrev pub ◌>>◌ : {A B : Type 0} → M A → M B → M B
◌>>◌ m k db = elim (m db) [ ok a db' ↦ k db' | err e ↦ err e ]

-- `if not b: raise e`
abbrev pub require : Bool → Error → M (Unit {0})
require b e db = elim b [ true ↦ ok tt db | false ↦ err e ]

abbrev pub require_not : Bool → Error → M (Unit {0})
require_not b e db = elim b [ true ↦ err e | false ↦ ok tt db ]

abbrev pub gets : {A : Type 0} → (Db → A) → M A
gets f db = ok (f db) db

abbrev pub modify : (Db → Db) → M (Unit {0})
modify f db = ok tt (f db)

-- The next primary key.
abbrev pub take_pk : M ℕ
take_pk db = ok db.next_pk (record db { next_pk = suc db.next_pk })

-- `if b: m`
abbrev pub when : Bool → M (Unit {0}) → M (Unit {0})
when b m db = elim b [ true ↦ m db | false ↦ ok tt db ]

-- `try: m / except ValueError: h`
abbrev pub except_value_error : {A : Type 0} → M A → M A → M A
except_value_error m h db = elim (m db) [
  | ok a db' ↦ ok a db'
  | err Error.value_error ↦ h db
  | err e ↦ err e
]

abbrev pub or_raise : {A : Type 0} → Option A → Error → M A
or_raise none e db = err e
or_raise (some a) e db = ok a db

-- `advisory.save(update_fields=…)`: the written fields go to the row, the others stay as they are
-- there.
unfoldable pub save_advisory : ℕ → (Advisory → Advisory) → M (Unit {0})
save_advisory pk f db =
    ok tt (record db { advisories = modify_row (λ (a : Advisory). a.pk) pk f db.advisories })

-- `audit.services.record`
unfoldable pub record_action : Action → Actor → ℕ → M (Unit {0})
record_action action by advisory db = ok tt (record db {
  audit = record { action = action; actor = actor_or_none by; advisory = advisory } ∷ db.audit;
})

unfoldable pub on_commit : Message → M (Unit {0})
on_commit m db = ok tt (record db { outbox = m ∷ db.outbox })

-- `AdvisoryComment.objects.create` and `CommentVersion.objects.create`
abbrev pub create_comment : ℕ → Actor → Text → Bool → M AdvisoryComment
create_comment advisory author body internal = do
  pk ← take_pk
  version_pk ← take_pk
  comment ← gets (λ db. record {
    pk = pk;
    advisory = advisory;
    author = actor_or_none author;
    body = body;
    is_internal = internal;
    created_at = db.now;
    edited_at = none;
    redacted_at = none;
    redacted_by = none;
  })
  modify (λ db. record db {
    comments = comment ∷ db.comments;
    comment_versions =
        record {
          pk = version_pk;
          comment = pk;
          version = 1;
          body = body;
          editor = actor_or_none author;
        }
        ∷ db.comment_versions;
  })
  pure comment

-- `comments.services.add_comment` with `system=True`
pub add_system_comment : ℕ → Actor → Text → Bool → M (Unit {0})
unfolding record_action
add_system_comment advisory author body internal = do
  create_comment advisory author body internal
  record_action Action.comment_created author advisory

abbrev is_nobody : Actor → Bool
is_nobody Actor.nobody = true
is_nobody _ = false

-- `comments.services.record_action_note`
unfoldable pub record_action_note : ℕ → Actor → Text → Bool → M (Unit {0})
unfolding add_system_comment
record_action_note advisory author body internal =
    when (not (is_nobody author)) (
      when (not (is_blank (strip body))) (add_system_comment advisory author (strip body) internal))

-- What holds of a call that returns; an exception claims nothing.
abbrev pub Post : {A : Type 0} → Result A → (A → Db → Type 0) → Type 0
Post (ok a db) P = P a db
Post (err e) P = Unit

-- The call returns, and `P` holds of what it returns.
abbrev pub Returns : {A : Type 0} → Result A → (A → Db → Type 0) → Type 0
Returns (ok a db) P = P a db
Returns (err e) P = ⊥
