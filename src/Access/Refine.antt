-- ===== src/Access/Refine.antt =====
-- The access of an advisory as a finite map from principals to permissions, which the services
-- implement on the table of grants (access/services.py).
use advisoryhub.Prelude.{
  suc, ◌≡◌, refl, ap, ◌∙◌, true, false, ◌&&◌, Option, none, some, List, [], ◌∷◌, arith, oldest_row,
  if◌then◌else◌, Bool-cases, Keyed, Keyed-mono, get_row_fresh, modify_row-Keyed, delete_row-Keyed,
  inl, inr, Option-cases,
}
use advisoryhub.Accounts.{Actor}
use advisoryhub.Tasks.{PermissionName, named, other, viewer, collaborator, owner}
use advisoryhub.Db.{Db, Result, ok, err, Error, Returns, record_action}
use advisoryhub.Db.Calls.{Returns-and, Returns-all, Returns-mono}
use advisoryhub.Access.{
  Principal, same_principal, is_for, is_grantable, set_grant, revoke, create_or_update,
  set_permission,
}
use advisoryhub.Access.Rows.{
  key, OnePerPrincipal, level_of, same_principal_sound, same_permission_sound,
  modify_row-OnePerPrincipal, delete_row-OnePerPrincipal, oldest_row-modify_row_self,
  oldest_row-modify_row_ne, oldest_row-delete_row_self, oldest_row-delete_row_ne,
}

-- A request to give a principal a permission, or to take away what it holds.
pub data Request : Type 0 where
  give : Principal → PermissionName → Actor → Request
  take_away : Principal → Actor → Request

-- What a principal holds explicitly.
abbrev pub Access : Type 0
Access = Principal → Option PermissionName

-- The specification: the last word on a principal counts, and no other permission than viewer and
-- collaborator is ever given.
abbrev pub step : Request → Access → Access
step (give k p by) held j = if is_grantable p && same_principal k j then some p else held j
step (take_away k by) held j = if same_principal k j then none else held j

abbrev pub steps : List Request → Access → Access
steps [] held = held
steps (r ∷ rs) held = steps rs (step r held)

-- The database that a transaction leaves: an exception rolls it back.
abbrev pub committed : {A : Type 0} → Result A → Db → Db
committed (ok a db') db = db'
committed (err e) db = db

-- The services on the rows: a revocation is of the row that holds the principal's grant.
abbrev pub serve : Request → Db → Db
serve (give k p by) db = committed (set_grant k p by db) db
serve (take_away k by) db = elim (oldest_row (is_for k) db.grants) [
  | none ↦ db
  | some g ↦ committed (revoke g by db) db
]

abbrev pub serve_all : List Request → Db → Db
serve_all [] db = db
serve_all (r ∷ rs) db = serve_all rs (serve r db)

-- Distinct keys, and one grant for each principal.
abbrev pub IsSound : Db → Type 0
IsSound db = Keyed key db.next_pk db.grants × OnePerPrincipal db.grants

abbrev pub held : Db → Access
held db = level_of db.grants

set_grant-allowed :
    (k : Principal) (p : PermissionName) (by : Actor) (db : Db)
    → is_grantable p ≡ true
    → set_grant k p by db ≡ create_or_update k p by (oldest_row (is_for k) db.grants) db
unfolding set_grant
set_grant-allowed k (named viewer) by db e = refl
set_grant-allowed k (named collaborator) by db e = refl
set_grant-allowed k (named owner) by db e = ground arith
set_grant-allowed k (other t) by db e = ground arith

set_grant-refused :
    (k : Principal) (p : PermissionName) (by : Actor) (db : Db)
    → is_grantable p ≡ false
    → set_grant k p by db ≡ err Error.value_error
unfolding set_grant
set_grant-refused k (named viewer) by db e = ground arith
set_grant-refused k (named collaborator) by db e = ground arith
set_grant-refused k (named owner) by db e = refl
set_grant-refused k (other t) by db e = refl

-- The write that `set_grant` makes of a permission that may be given.
module _ (k : Principal) (p : PermissionName) (by : Actor) (db : Db) (h : IsSound db) where
  create_or_update-IsSound :
      Returns (create_or_update k p by (oldest_row (is_for k) db.grants) db) (λ g db'. IsSound db')
  unfolding record_action
  create_or_update-IsSound = elim (Option-cases (oldest_row (is_for k) db.grants)) [
    | inl e ↦ ground (
      arith,
      e,
      h,
      get_row_fresh key db.next_pk db.next_pk db.grants h.0,
      Keyed-mono key db.next_pk (suc db.next_pk) db.grants,
    )
    | inr (g, e) ↦ ground (
      arith,
      e,
      h,
      modify_row-Keyed key (set_permission p) db.next_pk g.pk db.grants (λ x. refl) h.0,
      modify_row-OnePerPrincipal g.pk p db.grants h.1,
    )
  ]

  create_or_update-frame :
      Returns
        (create_or_update k p by (oldest_row (is_for k) db.grants) db)
        (λ g db'. (db'.invitations ≡ db.invitations) × (db'.now ≡ db.now))
  unfolding record_action
  create_or_update-frame = elim (Option-cases (oldest_row (is_for k) db.grants)) [
    | inl e ↦ ground (arith, e)
    | inr (g, e) ↦ ground (arith, e)
  ]

  create_or_update-held :
      (j : Principal)
      → Returns (create_or_update k p by (oldest_row (is_for k) db.grants) db) (λ g db'.
        (g.permission ≡ p) × (held db' j ≡ (if same_principal k j then some p else held db j)))
  unfolding record_action
  create_or_update-held j = elim (Option-cases (oldest_row (is_for k) db.grants)) [
    | inl e ↦ elim (Option-cases (oldest_row (is_for j) db.grants)) [
      | inl a ↦ ground (arith, e, a)
      | inr (y, a) ↦ ground (arith, e, a, same_principal_sound k j)
    ]
    | inr (g, e) ↦ elim (Bool-cases (same_principal k j)) [
      | inl same ↦ ground (
        arith,
        e,
        same,
        same_principal_sound k j same,
        same_permission_sound g.permission p,
        oldest_row-modify_row_self db.next_pk k g p db.grants h.0 e,
      )
      | inr differ ↦ ground (
        arith,
        e,
        differ,
        same_permission_sound g.permission p,
        oldest_row-modify_row_ne db.next_pk k g j differ p db.grants h.0 e,
      )
    ]
  ]

-- A permission that may be given is given, and no other principal's changes.
pub set_grant_outcome :
    (k : Principal) (p : PermissionName) (by : Actor) (db : Db)
    → IsSound db
    → is_grantable p ≡ true
    → Returns (set_grant k p by db) (λ g db'.
      IsSound db'
      × ((j : Principal)
          → (g.permission ≡ p) × (held db' j ≡ (if same_principal k j then some p else held db j)))
      × (db'.invitations ≡ db.invitations)
      × (db'.now ≡ db.now))
set_grant_outcome k p by db h good =
    let done = create_or_update k p by (oldest_row (is_for k) db.grants) db in
    rw (set_grant-allowed k p by db good) (
      Returns-mono done _ _
        (Returns-and done _ _ (create_or_update-IsSound k p by db h) (
          Returns-and done _ _ (Returns-all done _ k (create_or_update-held k p by db h))
            (create_or_update-frame k p by db h)))
        (λ g db' x. (x.0, x.1.0, x.1.1.0, x.1.1.1)))

serve-IsSound : (r : Request) (db : Db) → IsSound db → IsSound (serve r db)
unfolding set_grant revoke
serve-IsSound (give k p by) db h = elim (Bool-cases (is_grantable p)) [
  | inl good ↦
      rw (set_grant-allowed k p by db good) (ground (arith, create_or_update-IsSound k p by db h))
  | inr bad ↦ rw (set_grant-refused k p by db bad) h
]
serve-IsSound (take_away k by) db h = elim (Option-cases (oldest_row (is_for k) db.grants)) [
  | inl e ↦ ground (arith, e, h)
  | inr (g, e) ↦ ground (
    arith,
    e,
    delete_row-Keyed key db.next_pk g.pk db.grants h.0,
    delete_row-OnePerPrincipal g.pk db.grants h.1,
  )
]

serve-step :
    (r : Request) (db : Db) (j : Principal) → IsSound db → held (serve r db) j ≡ step r (held db) j
unfolding set_grant revoke
serve-step (give k p by) db j h = elim (Bool-cases (is_grantable p)) [
  | inl good ↦
      rw (set_grant-allowed k p by db good, good)
        (ground (arith, create_or_update-held k p by db h j))
  | inr bad ↦ rw (set_grant-refused k p by db bad, bad) refl
]
serve-step (take_away k by) db j h = elim (Option-cases (oldest_row (is_for k) db.grants)) [
  | inl e ↦ ground (arith, e, same_principal_sound k j)
  | inr (g, e) ↦ elim (Bool-cases (same_principal k j)) [
    | inl same ↦ ground (
      arith,
      e,
      same,
      same_principal_sound k j same,
      oldest_row-delete_row_self db.next_pk k g db.grants h.0 h.1 e,
    )
    | inr differ ↦
        ground (arith, e, differ, oldest_row-delete_row_ne db.next_pk k g j differ db.grants h.0 e)
  ]
]

-- From a table of grants with distinct keys and one grant for each principal, however many requests
-- are served, in whatever order and by whomever, each principal then holds what the specification
-- says, starting from what it held before; and the table still has distinct keys and one grant for
-- each principal. A request that the code refuses with an exception counts as no change.
pub serve_all_refines :
    (rs : List Request) (db : Db)
    → IsSound db
    → IsSound (serve_all rs db)
      × ((j : Principal) → held (serve_all rs db) j ≡ steps rs (held db) j)
serve_all_refines [] db h = (h, λ j. refl)
serve_all_refines (r ∷ rs) db h =
    let (sound, later) = serve_all_refines rs (serve r db) (serve-IsSound r db h) in
    (sound, λ j. later j ∙ ap (λ m. steps rs m j) (λ i. λ k. serve-step r db k h i))
