-- ===== src/Comments/History.antt =====
-- The history of a comment ends with what the comment says (comments/models.py).
use advisoryhub.Prelude.{
  ℕ, suc, ◌≡◌, ◌≤◌, refl, sym, ◌∙◌, Bool, false, not, ◌||◌, Option, none, some, List, [], ◌∷◌, Text,
  ◌==◌, leb, arith, select, get_row, exists_row, Keyed, Keyed-mono, get_row_fresh, modify_row-Keyed,
  get_row-modify_row_self, get_row-modify_row_ne, get_row-below, modify_row, Bool-cases,
  Option-cases, inl, inr,
}
use mathlib.Core.Path.{subst}
use advisoryhub.Accounts.{Actor}
use advisoryhub.Advisory.{Advisory}
use advisoryhub.Tasks.{AdvisoryComment, CommentVersion}
use advisoryhub.Db.{Db, Post, record_action}
use advisoryhub.Permissions.Rules.{can_comment, can_post_internal_comment}
use advisoryhub.Comments.{
  comment_key, add_comment, edit_comment, redact_comment, latest, edited, redacted, next_version,
  can_edit_own_comment, can_redact,
}

abbrev pub body_of : Option CommentVersion → Option Text
body_of none = none
body_of (some v) = some v.body

abbrev pub comment_body : Option AdvisoryComment → Option Text
comment_body none = none
comment_body (some c) = some c.body

-- Comments have distinct keys, versions belong to comments that were made, and each comment's
-- latest version is its body.
pub record InSync (db : Db) : Type 0 where
  pub keyed : Keyed comment_key db.next_pk db.comments
  pub made :
      exists_row (λ (v : CommentVersion). leb db.next_pk v.comment) db.comment_versions ≡ false
  pub same :
      (k : ℕ) (c : AdvisoryComment)
      → get_row comment_key k db.comments ≡ some c
      → body_of (latest k db) ≡ some c.body

select_unmade :
    (n k : ℕ) (vs : List CommentVersion)
    → n ≤ k
    → exists_row (λ (v : CommentVersion). leb n v.comment) vs ≡ false
    → select (λ (v : CommentVersion). v.comment == k) vs ≡ []
select_unmade n k [] le h = refl
select_unmade n k (v ∷ vs) le h = ground (arith, select_unmade n k vs le (ground (arith, h)))

made_mono :
    (m n : ℕ) (vs : List CommentVersion)
    → m ≤ n
    → exists_row (λ (v : CommentVersion). leb m v.comment) vs ≡ false
    → exists_row (λ (v : CommentVersion). leb n v.comment) vs ≡ false
made_mono m n [] le h = refl
made_mono m n (v ∷ vs) le h = ground (arith, made_mono m n vs le (ground (arith, h)))

module _ (db : Db) (h : InSync db) where
  -- A new comment, with its first version.
  new_body :
      (comment : AdvisoryComment) (v : CommentVersion) (k : ℕ) (c : AdvisoryComment)
      → comment.pk ≡ db.next_pk
      → v.comment ≡ db.next_pk
      → v.body ≡ comment.body
      → get_row comment_key k (comment ∷ db.comments) ≡ some c
      → body_of (latest k (record db { comment_versions = v ∷ db.comment_versions })) ≡ some c.body
  new_body comment v k c p q b e = elim (Bool-cases (db.next_pk == k)) [
    | inl same ↦ ground (
      arith,
      same,
      e,
      p,
      q,
      b,
      select_unmade db.next_pk k db.comment_versions (ground (arith, same)) h.made,
    )
    | inr differ ↦ ground (arith, differ, e, p, q, h.same k c)
  ]

  -- A new version, with the next number, of a comment that takes its body.
  module _ (f : AdvisoryComment → AdvisoryComment) (body : Text) (v : CommentVersion) (j : ℕ)
      (keeps : (x : AdvisoryComment) → (f x).pk ≡ x.pk)
      (writes : (x : AdvisoryComment) → (f x).body ≡ body) (of : v.comment ≡ j)
      (number : v.version ≡ next_version (latest j db)) (text : v.body ≡ body) where
    abbrev Agrees : ℕ → Type 0
    Agrees k =
        (c : AdvisoryComment)
        → get_row comment_key k (modify_row comment_key j f db.comments) ≡ some c
        → body_of (latest k (record db { comment_versions = v ∷ db.comment_versions }))
          ≡ some c.body

    its_body : Agrees j
    its_body c e = elim (Option-cases (get_row comment_key j db.comments)) [
      | inl gone ↦
          ground (arith, e, gone, get_row-modify_row_self comment_key f keeps j db.comments)
      | inr (row, there) ↦ elim (Option-cases (latest j db)) [
        | inl no_version ↦ ground (
          arith,
          e,
          there,
          no_version,
          of,
          text,
          writes row,
          get_row-modify_row_self comment_key f keeps j db.comments,
        )
        | inr (w, last) ↦ ground (
          arith,
          e,
          there,
          last,
          of,
          text,
          number,
          writes row,
          get_row-modify_row_self comment_key f keeps j db.comments,
        )
      ]
    ]

    other_body : (k : ℕ) → j == k ≡ false → Agrees k
    other_body k differ c e = ground (
      arith,
      differ,
      of,
      h.same k c (
          sym (
            get_row-modify_row_ne comment_key f keeps k j db.comments
              (λ p. ground (arith, differ, p)))
          ∙ e),
    )

    next_body : (k : ℕ) → Agrees k
    next_body k = elim (Bool-cases (j == k)) [
      | inl same ↦ subst Agrees (ground (arith, same)) its_body
      | inr differ ↦ other_body k differ
    ]

  pub add_comment-InSync :
      (a : Advisory) (by : Actor) (body : Text) (internal : Bool)
      → Post (add_comment a by body internal db) (λ c db'. InSync db')
  unfolding add_comment record_action
  add_comment-InSync a by body internal = elim (Bool-cases (can_comment db by a)) [
    | inr refused ↦ ground (arith, refused)
    | inl commenting ↦ elim (Bool-cases (not internal || can_post_internal_comment db by a)) [
      | inr refused ↦ rw (commenting, refused) tt
      | inl allowed ↦
          rw (commenting, allowed)
            (record {
              keyed = (
                omega arith,
                get_row_fresh comment_key db.next_pk db.next_pk db.comments h.keyed (omega arith),
                Keyed-mono comment_key db.next_pk (suc (suc db.next_pk)) db.comments (omega arith)
                    h.keyed,
              );
              made = ground (
                arith,
                made_mono db.next_pk (suc (suc db.next_pk)) db.comment_versions (omega arith)
                    h.made,
              );
              same = λ k c e. new_body _ _ k c refl refl refl e;
            })
    ]
  ]

  pub edit_comment-InSync :
      (comment row : AdvisoryComment) (by : Actor) (body : Text)
      → get_row comment_key comment.pk db.comments ≡ some row
      → Post (edit_comment comment by body db) (λ c db'. InSync db')
  unfolding edit_comment record_action
  edit_comment-InSync comment row by body there =
      elim (Bool-cases (can_edit_own_comment comment by)) [
        | inr refused ↦ rw refused tt
        | inl allowed ↦ rw allowed (record {
          keyed = Keyed-mono comment_key db.next_pk (suc db.next_pk) _ (omega arith) (
              modify_row-Keyed comment_key (edited db.now body) db.next_pk comment.pk db.comments
                (λ x. refl) h.keyed);
          made = ground (
            arith,
            get_row-below comment_key db.next_pk comment.pk row db.comments h.keyed there,
            made_mono db.next_pk (suc db.next_pk) db.comment_versions (omega arith) h.made,
          );
          same =
              next_body (edited db.now body) body _ comment.pk (λ x. refl) (λ x. refl) refl refl
                refl;
        })
      ]

  same_body :
      (j : ℕ) (f : AdvisoryComment → AdvisoryComment)
      → ((x : AdvisoryComment) → (f x).pk ≡ x.pk)
      → ((x : AdvisoryComment) → (f x).body ≡ x.body)
      → (k : ℕ) (c : AdvisoryComment)
      → get_row comment_key k (modify_row comment_key j f db.comments) ≡ some c
      → body_of (latest k db) ≡ some c.body
  same_body j f keeps writes k c e = elim (Option-cases (get_row comment_key k db.comments)) [
    | inl gone ↦ elim (Bool-cases (j == k)) [
      | inl same ↦
          ground (arith, same, gone, e, get_row-modify_row_self comment_key f keeps j db.comments)
      | inr differ ↦
          ground (arith, differ, gone, e, get_row-modify_row_ne comment_key f keeps k j db.comments)
    ]
    | inr (row, there) ↦ h.same k row there ∙ elim (Bool-cases (j == k)) [
      | inl same ↦ ground (
        arith,
        same,
        there,
        e,
        writes row,
        get_row-modify_row_self comment_key f keeps j db.comments,
      )
      | inr differ ↦
          ground
            (arith, differ, there, e, get_row-modify_row_ne comment_key f keeps k j db.comments)
    ]
  ]

  pub redact_comment-InSync :
      (comment : AdvisoryComment) (by : Actor)
      → Post (redact_comment comment by db) (λ c db'. InSync db')
  unfolding redact_comment record_action
  redact_comment-InSync comment by = elim (Bool-cases (can_redact db comment by)) [
    | inr refused ↦ rw refused tt
    | inl allowed ↦ rw allowed (record {
      keyed =
          modify_row-Keyed comment_key (redacted db.now by) db.next_pk comment.pk db.comments
            (λ x. refl) h.keyed;
      made = h.made;
      same = same_body comment.pk (redacted db.now by) (λ x. refl) (λ x. refl);
    })
  ]
