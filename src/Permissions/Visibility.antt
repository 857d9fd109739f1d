-- ===== src/Permissions/Visibility.antt =====
-- The list views' queryset (advisories/models.py, `AdvisoryQuerySet.visible_to`) against the
-- per-advisory decision.
use advisoryhub.Prelude.{
  ℕ, ◌≤◌, ◌≡◌, refl, Bool, true, false, ◌&&◌, ◌||◌, List, [], ◌∷◌, map, ◌==◌, leb, select,
  exists_row, if◌then◌else◌, arith, Bool-cases, inl, inr,
}
use mathlib.Core.Path.{fun_ext, sym}
use advisoryhub.Accounts.{Actor, Account, Group}
use advisoryhub.Advisory.{Advisory}
use advisoryhub.Tasks.{AdvisoryAccessGrant}
use advisoryhub.Db.{Db}
use advisoryhub.Permissions.{
  rank_or_zero, contains, group_state, user_or_group_filter, applies_to, is_global_admin,
  is_security_team_member, resolved_permission, can_view,
}
use advisoryhub.Permissions.Resolution.{resolved_permission_lem}

-- The rows that `visible_to` keeps for a user who is no global admin: those of its teams' projects,
-- and those in the subquery on grants.
in_visible_query : Db → Account → Advisory → Bool
unfolding user_or_group_filter group_state
in_visible_query db u a =
    contains a.project.security_team_id (map (λ (g : Group). g.pk) u.groups)
    || contains a.pk (
        map (λ (g : AdvisoryAccessGrant). g.advisory)
          (select (user_or_group_filter u.pk (map (λ (g : Group). g.pk) u.groups)) db.grants))

-- `visible_to`, for an authenticated user
pub visible_to : Db → Account → List Advisory
unfolding in_visible_query
visible_to db u =
    if is_global_admin db (Actor.account u)
    then db.advisories
    else select (in_visible_query db u) db.advisories

-- Every stored grant names a permission: the `choices` of the column.
abbrev pub AllNamed : List AdvisoryAccessGrant → Type 0
AllNamed [] = Unit
AllNamed (g ∷ gs) = (1 ≤ rank_or_zero g.permission) × AllNamed gs

module _ (f : AdvisoryAccessGrant → Bool) (k : ℕ) where
  contains-map-select :
      (gs : List AdvisoryAccessGrant)
      → AllNamed gs
      → contains k (map (λ (g : AdvisoryAccessGrant). g.advisory) (select f gs))
        ≡ exists_row (λ g. (g.advisory == k && f g) && leb 1 (rank_or_zero g.permission)) gs
  unfolding contains
  contains-map-select [] h = refl
  contains-map-select (g ∷ gs) h = ground (arith, contains-map-select gs h.1)

select_all {ℓ} : {A : Type ℓ} (xs : List A) → select (λ x. true) xs ≡ xs
select_all [] = refl
select_all (x ∷ xs) = rw (select_all xs)

-- A higher level is a lower one too.
has_grant_weaken :
    (p : AdvisoryAccessGrant → Bool) (gs : List AdvisoryAccessGrant)
    → exists_row (λ g. p g && leb 2 (rank_or_zero g.permission)) gs ≡ true
    → exists_row (λ g. p g && leb 1 (rank_or_zero g.permission)) gs ≡ true
has_grant_weaken p [] h = h
has_grant_weaken p (g ∷ gs) h = ground (arith, has_grant_weaken p gs)

can_view_lem :
    (db : Db) (u : Account) (a : Advisory)
    → AllNamed db.grants
    → is_global_admin db (Actor.account u) ≡ false
    → in_visible_query db u a ≡ can_view db (Actor.account u) a
unfolding in_visible_query can_view is_security_team_member applies_to group_state
can_view_lem db u a h n = ground (
  arith,
  resolved_permission_lem db u a,
  contains-map-select (user_or_group_filter u.pk (map (λ (g : Group). g.pk) u.groups)) a.pk
      db.grants h,
  has_grant_weaken (applies_to db u a) db.grants,
)

can_view_admin :
    (db : Db) (u : Account) (a : Advisory)
    → is_global_admin db (Actor.account u) ≡ true
    → can_view db (Actor.account u) a ≡ true
unfolding can_view resolved_permission
can_view_admin db u a n = ground arith

-- Where every stored grant names a permission, the list of advisories that an authenticated user is
-- shown is the list of those that `can_view` lets it see, in the same order.
pub visible_to-eq-can_view :
    (db : Db) (u : Account)
    → AllNamed db.grants
    → visible_to db u ≡ select (can_view db (Actor.account u)) db.advisories
unfolding visible_to
visible_to-eq-can_view db u h = elim (Bool-cases (is_global_admin db (Actor.account u))) [
  | inl n ↦ rw n (rw (fun_ext (λ a. can_view_admin db u a n)) (sym (select_all db.advisories)))
  | inr n ↦ rw (n, fun_ext (λ a. can_view_lem db u a h n)) refl
]
