-- ===== src/Comments/Runs.antt =====
-- Runs of the comment services (comments/services.py).
use advisoryhub.Prelude.{◌≡◌, Bool, some, Text, get_row}
use mathlib.Core.Path.{subst}
use advisoryhub.Accounts.{Actor}
use advisoryhub.Advisory.{Advisory}
use advisoryhub.Tasks.{AdvisoryComment}
use advisoryhub.Db.{Db, Result, ok, Post}
use advisoryhub.Comments.{comment_key, add_comment, edit_comment, redact_comment}
use advisoryhub.Comments.History.{
  InSync, add_comment-InSync, edit_comment-InSync, redact_comment-InSync,
}

-- One call of the comment services that returns; an edit is of a comment that has a row.
pub data CommentStep : Db → Db → Type 0 where
  adding :
      {db db' : Db} (a : Advisory) (by : Actor) (body : Text) (internal : Bool)
      (c : AdvisoryComment)
      → add_comment a by body internal db ≡ ok c db'
      → CommentStep db db'
  editing :
      {db db' : Db} (comment row : AdvisoryComment) (by : Actor) (body : Text) (c : AdvisoryComment)
      → get_row comment_key comment.pk db.comments ≡ some row
      → edit_comment comment by body db ≡ ok c db'
      → CommentStep db db'
  redacting :
      {db db' : Db} (comment : AdvisoryComment) (by : Actor) (c : AdvisoryComment)
      → redact_comment comment by db ≡ ok c db'
      → CommentStep db db'

pub data CommentRun (db : Db) : Db → Type 0 where
  start : CommentRun db db
  next : {db1 db2 : Db} → CommentRun db db1 → CommentStep db1 db2 → CommentRun db db2

at_end :
    {A : Type 0} (P : Db → Type 0) (m : Result A) (a : A) (db : Db)
    → Post m (λ x db'. P db')
    → m ≡ ok a db
    → P db
at_end P m a db p e = subst (λ r. Post r (λ x db'. P db')) e p

CommentStep-InSync : {db db' : Db} → CommentStep db db' → InSync db → InSync db'
CommentStep-InSync {db} {db'} (adding a by body internal c e) h =
    at_end InSync (add_comment a by body internal db) c db'
      (add_comment-InSync db h a by body internal) e
CommentStep-InSync {db} {db'} (editing comment row by body c there e) h =
    at_end InSync (edit_comment comment by body db) c db'
      (edit_comment-InSync db h comment row by body there) e
CommentStep-InSync {db} {db'} (redacting comment by c e) h =
    at_end InSync (redact_comment comment by db) c db' (redact_comment-InSync db h comment by) e

-- However comments are added, edited and redacted, each comment's version with the largest number
-- holds the comment's body, where this held at the start, the keys of the comments were distinct and
-- each version was of a comment that had been made; the last two stay so as well.
pub CommentRun-InSync : {db db' : Db} → CommentRun db db' → InSync db → InSync db'
CommentRun-InSync start h = h
CommentRun-InSync (next run step) h = CommentStep-InSync step (CommentRun-InSync run h)
