-- ===== src/Access/Rows.antt =====
-- The rows of grants by principal: what a write does to a query by principal
-- (access/models.py, `unique_together`).
use advisoryhub.Prelude.{
  ℕ, ◌≡◌, refl, true, false, Option, none, some, List, [], ◌∷◌, text_eq_sound, arith, oldest_row,
  modify_row, delete_row, get_row, Bool-cases, Keyed, inl, inr, Option-cases,
}
use advisoryhub.Tasks.{
  PermissionName, named, other, PrincipalType, AdvisoryAccessGrant, viewer, collaborator, owner,
}
use advisoryhub.Access.{
  Principal, same_principal, principal_of, is_for, set_permission, same_permission, same_type,
}

abbrev pub key : AdvisoryAccessGrant → ℕ
key g = g.pk

-- `unique_together`
abbrev pub OnePerPrincipal : List AdvisoryAccessGrant → Type 0
OnePerPrincipal [] = Unit
OnePerPrincipal (g ∷ gs) = (oldest_row (is_for (principal_of g)) gs ≡ none) × OnePerPrincipal gs

abbrev pub level : Option AdvisoryAccessGrant → Option PermissionName
level none = none
level (some g) = some g.permission

-- What the grants give to a principal.
abbrev pub level_of : List AdvisoryAccessGrant → Principal → Option PermissionName
level_of gs k = level (oldest_row (is_for k) gs)

same_type_sound : (s t : PrincipalType) → same_type s t ≡ true → s ≡ t
same_type_sound PrincipalType.user PrincipalType.user e = refl
same_type_sound PrincipalType.group PrincipalType.group e = refl
same_type_sound PrincipalType.user PrincipalType.group e = ground arith
same_type_sound PrincipalType.group PrincipalType.user e = ground arith

same_type_refl : (t : PrincipalType) → same_type t t ≡ true
same_type_refl PrincipalType.user = refl
same_type_refl PrincipalType.group = refl

pub same_principal_sound : (k j : Principal) → same_principal k j ≡ true → k ≡ j
same_principal_sound k j e = ground (arith, same_type_sound k.principal_type j.principal_type)

pub same_principal_refl : (k : Principal) → same_principal k k ≡ true
same_principal_refl k = ground (arith, same_type_refl k.principal_type)

pub same_permission_sound : (p q : PermissionName) → same_permission p q ≡ true → p ≡ q
same_permission_sound (named viewer) (named viewer) e = refl
same_permission_sound (named collaborator) (named collaborator) e = refl
same_permission_sound (named owner) (named owner) e = refl
same_permission_sound (named viewer) (named collaborator) e = ground arith
same_permission_sound (named viewer) (named owner) e = ground arith
same_permission_sound (named collaborator) (named viewer) e = ground arith
same_permission_sound (named collaborator) (named owner) e = ground arith
same_permission_sound (named owner) (named viewer) e = ground arith
same_permission_sound (named owner) (named collaborator) e = ground arith
same_permission_sound (named p) (other t) e = ground arith
same_permission_sound (other s) (named q) e = ground arith
same_permission_sound (other s) (other t) e = ground (arith, text_eq_sound s t)

-- A row that a query by principal finds is for that principal, and is found by its key.
oldest_row-is_for :
    (n : ℕ) (k : Principal) (g : AdvisoryAccessGrant) (gs : List AdvisoryAccessGrant)
    → Keyed key n gs
    → oldest_row (is_for k) gs ≡ some g
    → (principal_of g ≡ k) × (get_row key g.pk gs ≡ some g)
oldest_row-is_for n k g [] h e = ground arith
oldest_row-is_for n k g (x ∷ xs) h e = elim (Option-cases (oldest_row (is_for k) xs)) [
  | inl none_left ↦ ground (arith, none_left, same_principal_sound (principal_of x) k)
  | inr (y, later) ↦ ground (arith, later, oldest_row-is_for n k y xs h.2 later)
]

module _ (k : Principal) where
  oldest_row-key_ne :
      (g x : AdvisoryAccessGrant) (gs : List AdvisoryAccessGrant)
      → oldest_row (is_for (principal_of x)) gs ≡ none
      → oldest_row (is_for k) gs ≡ some g
      → same_principal (principal_of x) k ≡ false
  oldest_row-key_ne g x gs e h = elim (Bool-cases (same_principal (principal_of x) k)) [
    | inl same ↦ ground (arith, e, h, same_principal_sound (principal_of x) k same)
    | inr differ ↦ differ
  ]

  modify_row-none :
      (g : ℕ) (p : PermissionName) (gs : List AdvisoryAccessGrant)
      → oldest_row (is_for k) gs ≡ none
      → oldest_row (is_for k) (modify_row key g (set_permission p) gs) ≡ none
  modify_row-none g p [] e = refl
  modify_row-none g p (x ∷ xs) e = elim (Option-cases (oldest_row (is_for k) xs)) [
    | inl none_left ↦ ground (arith, e, none_left, modify_row-none g p xs none_left)
    | inr (y, later) ↦ ground (arith, e, later)
  ]

  delete_row-none :
      (g : ℕ) (gs : List AdvisoryAccessGrant)
      → oldest_row (is_for k) gs ≡ none
      → oldest_row (is_for k) (delete_row key g gs) ≡ none
  delete_row-none g [] e = refl
  delete_row-none g (x ∷ xs) e = elim (Option-cases (oldest_row (is_for k) xs)) [
    | inl none_left ↦ ground (arith, e, none_left, delete_row-none g xs none_left)
    | inr (y, later) ↦ ground (arith, e, later)
  ]

pub modify_row-OnePerPrincipal :
    (g : ℕ) (p : PermissionName) (gs : List AdvisoryAccessGrant)
    → OnePerPrincipal gs
    → OnePerPrincipal (modify_row key g (set_permission p) gs)
modify_row-OnePerPrincipal g p [] h = tt
modify_row-OnePerPrincipal g p (x ∷ xs) h =
    ground
      (arith, h, modify_row-none (principal_of x) g p xs h.0, modify_row-OnePerPrincipal g p xs h.1)

pub delete_row-OnePerPrincipal :
    (g : ℕ) (gs : List AdvisoryAccessGrant)
    → OnePerPrincipal gs
    → OnePerPrincipal (delete_row key g gs)
delete_row-OnePerPrincipal g [] h = tt
delete_row-OnePerPrincipal g (x ∷ xs) h =
    ground
      (arith, h, delete_row-none (principal_of x) g xs h.0, delete_row-OnePerPrincipal g xs h.1)

module _ (n : ℕ) (k : Principal) (g : AdvisoryAccessGrant) where
  pub oldest_row-modify_row_self :
      (p : PermissionName) (gs : List AdvisoryAccessGrant)
      → Keyed key n gs
      → oldest_row (is_for k) gs ≡ some g
      → oldest_row (is_for k) (modify_row key g.pk (set_permission p) gs)
        ≡ some (set_permission p g)
  oldest_row-modify_row_self p [] h e = ground arith
  oldest_row-modify_row_self p (x ∷ xs) h e = elim (Option-cases (oldest_row (is_for k) xs)) [
    | inl none_left ↦ ground (arith, none_left)
    | inr (y, later) ↦
        ground (
          arith,
          later,
          h,
          oldest_row-is_for n k y xs h.2 later,
          oldest_row-modify_row_self p xs h.2,
        )
  ]

  pub oldest_row-delete_row_self :
      (gs : List AdvisoryAccessGrant)
      → Keyed key n gs
      → OnePerPrincipal gs
      → oldest_row (is_for k) gs ≡ some g
      → oldest_row (is_for k) (delete_row key g.pk gs) ≡ none
  oldest_row-delete_row_self [] h u e = ground arith
  oldest_row-delete_row_self (x ∷ xs) h u e = elim (Option-cases (oldest_row (is_for k) xs)) [
    | inl none_left ↦ ground (arith, none_left)
    | inr (y, later) ↦ ground (
      arith,
      later,
      h,
      oldest_row-is_for n k y xs h.2 later,
      oldest_row-delete_row_self xs h.2 u.1,
      oldest_row-key_ne k y x xs u.0 later,
    )
  ]

  module _ (j : Principal) (differ : same_principal k j ≡ false) where
    pub oldest_row-modify_row_ne :
        (p : PermissionName) (gs : List AdvisoryAccessGrant)
        → Keyed key n gs
        → oldest_row (is_for k) gs ≡ some g
        → oldest_row (is_for j) (modify_row key g.pk (set_permission p) gs)
          ≡ oldest_row (is_for j) gs
    oldest_row-modify_row_ne p [] h e = refl
    oldest_row-modify_row_ne p (x ∷ xs) h e = elim (Option-cases (oldest_row (is_for k) xs)) [
      | inl none_left ↦ elim (Option-cases (oldest_row (is_for j) xs)) [
        | inl a ↦ ground (arith, none_left, a, differ, same_principal_sound (principal_of x) k)
        | inr (y, b) ↦ ground (arith, none_left, b, differ)
      ]
      | inr (y, later) ↦
          ground (
            arith,
            later,
            h,
            oldest_row-is_for n k y xs h.2 later,
            oldest_row-modify_row_ne p xs h.2,
          )
    ]

    pub oldest_row-delete_row_ne :
        (gs : List AdvisoryAccessGrant)
        → Keyed key n gs
        → oldest_row (is_for k) gs ≡ some g
        → oldest_row (is_for j) (delete_row key g.pk gs) ≡ oldest_row (is_for j) gs
    oldest_row-delete_row_ne [] h e = refl
    oldest_row-delete_row_ne (x ∷ xs) h e = elim (Option-cases (oldest_row (is_for k) xs)) [
      | inl none_left ↦ elim (Option-cases (oldest_row (is_for j) xs)) [
        | inl a ↦ ground (arith, none_left, a, differ, same_principal_sound (principal_of x) k)
        | inr (y, b) ↦ ground (arith, none_left, b, differ)
      ]
      | inr (y, later) ↦
          ground
            (arith, later, h, oldest_row-is_for n k y xs h.2 later, oldest_row-delete_row_ne xs h.2)
    ]
