-- ===== src/Comments.antt =====
-- Comments on an advisory: writing, editing, redacting and reading them (comments/services.py,
-- comments/models.py).
pub mod History
pub mod Runs
use advisoryhub.Prelude.{
  ℕ, ◌+◌, Bool, true, false, not, ◌&&◌, ◌||◌, Option, none, some, List, [], ◌∷◌, Text, blank, ◌==◌,
  leb, select, max_row, modify_row, if◌then◌else◌, is_some, reverse,
}
use advisoryhub.Accounts.{Actor, Account, actor_or_none}
use advisoryhub.Advisory.{Advisory}
use advisoryhub.Tasks.{AdvisoryComment, CommentVersion}
use advisoryhub.Db.{
  Action, Db, M, Error, ok, ◌>>=◌, ◌>>◌, pure, gets, modify, take_pk, require, when, create_comment,
  record_action,
}
use advisoryhub.Permissions.{is_global_admin, can_view}
use advisoryhub.Permissions.Rules.{can_comment, can_post_internal_comment, can_see_internal_comment}

abbrev pub comment_key : AdvisoryComment → ℕ
comment_key c = c.pk

-- `add_comment` of a user: `internal` asks for a comment that only collaborators see.
unfoldable pub add_comment : Advisory → Actor → Text → Bool → M AdvisoryComment
unfolding record_action
add_comment advisory author body internal db =
    (do
      require (can_comment db author advisory) Error.permission_denied
      require (not internal || can_post_internal_comment db author advisory) Error.permission_denied
      comment ← create_comment advisory.pk author body internal
      record_action Action.comment_created author advisory.pk
      pure comment)
      db

-- `is_redacted`
abbrev pub is_redacted : AdvisoryComment → Bool
is_redacted c = is_some c.redacted_at

-- `visible_body`
abbrev pub visible_body : AdvisoryComment → Text
visible_body c = if is_redacted c then blank else c.body

abbrev pub is_author : AdvisoryComment → Account → Bool
is_author c u = elim c.author [ none ↦ false | some pk ↦ pk == u.pk ]

-- `_can_edit_own_comment`
unfoldable pub can_edit_own_comment : AdvisoryComment → Actor → Bool
can_edit_own_comment c (Actor.account u) = not (is_redacted c) && is_author c u
can_edit_own_comment c _ = false

-- `_can_redact`
pub can_redact : Db → AdvisoryComment → Actor → Bool
can_redact db c (Actor.account u) =
    not (is_redacted c) && (is_global_admin db (Actor.account u) || is_author c u)
can_redact db c _ = false

abbrev pub save_comment : ℕ → (AdvisoryComment → AdvisoryComment) → M (Unit {0})
save_comment pk f = modify (λ db. record db { comments = modify_row comment_key pk f db.comments })

abbrev pub edited : ℕ → Text → AdvisoryComment → AdvisoryComment
edited now body c = record c { body = body; edited_at = some now }

abbrev pub redacted : ℕ → Actor → AdvisoryComment → AdvisoryComment
redacted now by c = record c { redacted_at = some now; redacted_by = actor_or_none by }

-- The rows of `CommentVersion.objects.filter(comment=…)`, the newest first.
abbrev pub versions_of : ℕ → Db → List CommentVersion
versions_of comment db = select (λ (v : CommentVersion). v.comment == comment) db.comment_versions

-- The row with the largest version number.
abbrev pub latest : ℕ → Db → Option CommentVersion
latest comment db = max_row (λ (v : CommentVersion). v.version) (versions_of comment db)

-- `(Max("version") or 0) + 1`
abbrev pub next_version : Option CommentVersion → ℕ
next_version none = 1
next_version (some v) = v.version + 1

abbrev pub add_version : ℕ → ℕ → Text → Actor → M (Unit {0})
add_version comment version body editor = do
  pk ← take_pk
  modify (λ db. record db {
    comment_versions =
        record {
          pk = pk;
          comment = comment;
          version = version;
          body = body;
          editor = actor_or_none editor;
        }
        ∷ db.comment_versions;
  })

-- `edit_comment`, on the caller's instance of the comment
unfoldable pub edit_comment : AdvisoryComment → Actor → Text → M AdvisoryComment
unfolding can_edit_own_comment record_action
edit_comment comment by body = do
  require (can_edit_own_comment comment by) Error.permission_denied
  now ← gets (λ db. db.now)
  save_comment comment.pk (edited now body)
  version ← gets (λ db. next_version (latest comment.pk db))
  add_version comment.pk version body by
  record_action Action.comment_edited by comment.advisory
  pure (edited now body comment)

pub redact_comment : AdvisoryComment → Actor → M AdvisoryComment
unfolding can_redact record_action
redact_comment comment by db =
    (do
      require (can_redact db comment by) Error.permission_denied
      save_comment comment.pk (redacted db.now by)
      record_action Action.comment_redacted by comment.advisory
      pure (redacted db.now by comment))
      db

-- `history_for_comment`, the oldest version first
pub history_for_comment : Advisory → AdvisoryComment → Actor → M (List CommentVersion)
history_for_comment advisory comment viewer db =
    (do
      require (can_view db viewer advisory) Error.permission_denied
      require (not comment.is_internal || can_see_internal_comment db viewer advisory)
          Error.permission_denied
      pure (if is_redacted comment then [] else reverse (versions_of comment.pk db)))
      db

-- `comments_for_advisory`, the oldest comment first
pub comments_for_advisory : Advisory → Actor → Db → List AdvisoryComment
comments_for_advisory advisory viewer db =
    let hidden = not (can_see_internal_comment db viewer advisory) in
    reverse (select (λ c. c.advisory == advisory.pk && not (hidden && c.is_internal)) db.comments)
