-- ===== src/Tests/Comments.antt =====
-- A comment that is written and then edited.
use advisoryhub.Prelude.{false, refl, arith, codes, none, some, [], ◌∷◌}
use advisoryhub.Accounts.{Actor}
use advisoryhub.Tasks.{AdvisoryComment}
use advisoryhub.Db.{Action, Db, record_action}
use advisoryhub.Comments.{add_comment, edit_comment, edited, can_edit_own_comment}
use advisoryhub.Permissions.{
  resolved_permission, is_global_admin, is_security_team_member, group_state, contains,
}
use advisoryhub.Permissions.Rules.{can_comment}
use advisoryhub.Comments.History.{InSync}
use advisoryhub.Comments.Runs.{CommentStep, CommentRun-InSync, start, next, adding, editing}
use advisoryhub.Tests.Data.{member, draft, with_rows}

abbrev note : AdvisoryComment
note = record {
  pk = 100;
  advisory = 7;
  author = some 2;
  body = codes "Hi";
  is_internal = false;
  created_at = 5000000000;
  edited_at = none;
  redacted_at = none;
  redacted_by = none;
}

abbrev noted_db : Db
noted_db = record (with_rows draft) {
  next_pk = 102;
  comments = note ∷ [];
  comment_versions =
      record { pk = 101; comment = 100; version = 1; body = codes "Hi"; editor = some 2 } ∷ [];
  audit = record { action = Action.comment_created; actor = some 2; advisory = 7 } ∷ [];
}

abbrev edited_db : Db
edited_db = record noted_db {
  next_pk = 103;
  comments = edited 5000000000 (codes "Hello") note ∷ [];
  comment_versions =
      record { pk = 102; comment = 100; version = 2; body = codes "Hello"; editor = some 2 }
      ∷ noted_db.comment_versions;
  audit = record { action = Action.comment_edited; actor = some 2; advisory = 7 } ∷ noted_db.audit;
}

note_added : CommentStep (with_rows draft) noted_db
unfolding add_comment can_comment resolved_permission is_global_admin is_security_team_member
    group_state contains record_action
note_added = adding draft (Actor.account member) (codes "Hi") false note refl

note_edited : CommentStep noted_db edited_db
unfolding edit_comment can_edit_own_comment record_action
note_edited =
    editing note note (Actor.account member) (codes "Hello")
      (edited 5000000000 (codes "Hello") note) refl refl

no_comments-InSync : InSync (with_rows draft)
no_comments-InSync = record { keyed = tt; made = refl; same = λ k c e. ground (arith, e) }

CommentRun-InSync_example : InSync edited_db
CommentRun-InSync_example =
    CommentRun-InSync {db = with_rows draft} {db' = edited_db}
      (next (next start note_added) note_edited) no_comments-InSync
