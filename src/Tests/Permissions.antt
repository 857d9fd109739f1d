-- ===== src/Tests/Permissions.antt =====
-- The permissions at concrete callers.
use advisoryhub.Prelude.{◌≡◌, refl, true, false, some, [], ◌∷◌, select, arith}
use advisoryhub.Accounts.{Actor}
use advisoryhub.Tasks.{viewer}
use advisoryhub.Permissions.{
  resolved_permission, is_global_admin, is_security_team_member, can_view, applies_to, group_state,
  contains, user_or_group_filter,
}
use advisoryhub.Permissions.Resolution.{resolved_permission_iff_grants}
use advisoryhub.Permissions.Visibility.{visible_to, visible_to-eq-can_view}
use advisoryhub.Permissions.Rules.{can_edit}
use advisoryhub.Permissions.Review.{can_submit_for_review, can_publish}
use advisoryhub.Permissions.Lifecycle.{review_separation}
use advisoryhub.Tests.Data.{member, stranger, draft, busy, with_rows}

resolved_permission_iff_grants_example :
    resolved_permission (with_rows draft) (Actor.account stranger) draft ≡ some viewer
unfolding applies_to is_global_admin is_security_team_member group_state contains
    user_or_group_filter
resolved_permission_iff_grants_example =
    resolved_permission_iff_grants (with_rows draft) stranger draft

visible_to-eq-can_view_example :
    visible_to (with_rows draft) stranger
    ≡ select (can_view (with_rows draft) (Actor.account stranger)) (draft ∷ [])
visible_to-eq-can_view_example = visible_to-eq-can_view (with_rows draft) stranger (omega arith, tt)

review_separation_example :
    (can_publish (with_rows busy) (Actor.account member) busy ≡ false)
    × (can_submit_for_review (with_rows busy) (Actor.account member) busy ≡ false)
    × (can_edit (with_rows busy) (Actor.account member) busy ≡ true
        → is_global_admin (with_rows busy) (Actor.account member) ≡ true)
review_separation_example = (review_separation (with_rows busy) (Actor.account member) busy).2 refl
