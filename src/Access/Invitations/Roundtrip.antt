-- ===== src/Access/Invitations/Roundtrip.antt =====
-- From an invitation to the login that redeems it (access/services.py).
use advisoryhub.Prelude.{
  ℕ, suc, ◌+◌, ◌<◌, ◌≡◌, refl, ◌∙◌, Bool, true, false, not, ◌&&◌, Option, none, some, List, [], ◌∷◌,
  Text, is_blank, strip, arith, ◌==◌, select, exists_row, oldest_row, exists_row-select,
  if◌then◌else◌, Bool-cases, inl, inr, Keyed, Keyed-mono, get_row_fresh, exists_row-none,
}
use advisoryhub.Accounts.{Actor, Account, actor_or_none}
use advisoryhub.Tasks.{
  PermissionName, named, other, viewer, collaborator, owner, PrincipalType, PendingInvitation,
}
use advisoryhub.Db.{Action, Db, Returns, record_action}
use advisoryhub.Db.Calls.{Returns-mono}
use advisoryhub.Access.{Principal, is_grantable, same_permission}
use advisoryhub.Access.Rows.{key, same_permission_sound}
use advisoryhub.Access.Refine.{Access, step, steps, IsSound, held}
use advisoryhub.Access.Invitations.{
  lifetime, new_invitation, create_invitation, is_expired, invitation_key, iexact,
  is_unredeemed_for, invite_email, redeem_invitations_for_user,
}
use advisoryhub.Access.Invitations.Redemption.{request, requests}
use advisoryhub.Access.Invitations.Login.{pending, redeem_outcome}

abbrev pub on_advisory : ℕ → Account → Principal
on_advisory advisory u = record {
  advisory = advisory;
  principal_type = PrincipalType.user;
  principal_id = u.pk;
}

module _ (u : Account) (now advisory : ℕ) (p : PermissionName) where
  -- An invitation to the advisory that has not expired.
  abbrev is_live : PendingInvitation → Bool
  is_live i = not (is_expired now i) && i.advisory == advisory

  -- Where all of them ask for one permission, it is what the user holds.
  steps_lem :
      (is : List PendingInvitation) (before : Access)
      → is_grantable p ≡ true
      → exists_row (λ i. is_live i && not (same_permission i.permission p)) is ≡ false
      → steps (requests u now is) before (on_advisory advisory u)
        ≡ (if exists_row is_live is then some p else before (on_advisory advisory u))
  steps_lem [] before g h = refl
  steps_lem (i ∷ is) before g h = elim (Bool-cases (is_expired now i)) [
    | inl late ↦ ground (arith, late, h, steps_lem is before g (ground (arith, late, h)))
    | inr live ↦ ground (
      arith,
      live,
      h,
      g,
      same_permission_sound i.permission p,
      steps_lem is (step (request u now i) before) g (ground (arith, live, h)),
    )
  ]

chosen : (b : Bool) (x y : Option PermissionName) → b ≡ true → (if b then x else y) ≡ x
chosen true x y h = refl
chosen false x y h = ground (arith, h)

same_permission_refl : (p : PermissionName) → is_grantable p ≡ true → same_permission p p ≡ true
same_permission_refl (named viewer) h = refl
same_permission_refl (named collaborator) h = refl
same_permission_refl (named owner) h = refl
same_permission_refl (other t) h = ground (arith, h)

-- An address that no account has is invited.
invited :
    (upper : Text → Text) (advisory : ℕ) (email : Text) (p : PermissionName) (by : Actor) (db : Db)
    → is_grantable p ≡ true
    → oldest_row (λ (v : Account). iexact upper v.email (strip email)) db.users ≡ none
    → invite_email upper advisory email p by db
      ≡ create_invitation upper advisory (strip email) p by db
unfolding invite_email
invited upper advisory email (named viewer) by db h e = rw e refl
invited upper advisory email (named collaborator) by db h e = rw e refl
invited upper advisory email (named owner) by db h e = ground (arith, h)
invited upper advisory email (other t) by db h e = ground (arith, h)

module _ (upper : Text → Text) (scan : List PendingInvitation → List PendingInvitation)
    (scanned : (p : PendingInvitation → Bool) (is : List PendingInvitation)
      → exists_row p (scan is) ≡ exists_row p is) where
  -- An address that no account has is invited to an advisory with a permission that may be given. A
  -- user with that address, up to case, who logs in less than 14 days later holds that permission on
  -- the advisory, where no other invitation of the user to it was waiting, the tables are well formed
  -- and a query without an order returns the rows that it selects.
  pub invite-login :
      (u : Account) (advisory : ℕ) (email : Text) (p : PermissionName) (by : Actor) (db : Db)
      (t : ℕ)
      → oldest_row (λ (v : Account). iexact upper v.email (strip email)) db.users ≡ none
      → iexact upper (strip email) u.email ≡ true
      → is_blank u.email ≡ false
      → is_grantable p ≡ true
      → t < db.now + lifetime
      → IsSound db
      → Keyed invitation_key db.next_pk db.invitations
      → exists_row (λ (i : PendingInvitation). not (is_grantable i.permission)) db.invitations
        ≡ false
      → exists_row (λ i. is_unredeemed_for upper u i && i.advisory == advisory) db.invitations
        ≡ false
      → Returns (invite_email upper advisory email p by db) (λ i db1.
        Returns
          (redeem_invitations_for_user upper scan u (record db1 { now = t }))
          (λ gs db2. held db2 (on_advisory advisory u) ≡ some p))
  unfolding record_action is_expired
  invite-login u advisory email p by db t unknown address some_email good soon sound keyed grantable
        none_waiting =
      rw (invited upper advisory email p by db good unknown) (
        let db1 = record db {
          now = t;
          next_pk = suc db.next_pk;
          invitations =
              new_invitation upper advisory (strip email) p by db.next_pk db ∷ db.invitations;
          audit =
              record {
                action = Action.invitation_created;
                actor = actor_or_none by;
                advisory = advisory;
              }
              ∷ db.audit;
        } in
        let mine = is_unredeemed_for upper u in
        let live = is_live u t advisory p in
        let other_permission =
          λ (i : PendingInvitation). live i && not (same_permission i.permission p) in
        let waiting = pending upper scan u db1 in
        Returns-mono (redeem_invitations_for_user upper scan u db1) _ _
          (redeem_outcome upper scan scanned u db1
            (Keyed-mono key db.next_pk (suc db.next_pk) db.grants (omega arith) sound.0, sound.1)
            (
              omega arith,
              get_row_fresh invitation_key db.next_pk db.next_pk db.invitations keyed (omega arith),
              Keyed-mono invitation_key db.next_pk (suc db.next_pk) db.invitations (omega arith)
                  keyed,
            )
            (ground (arith, good, grantable)) some_email)
          (λ gs db2 x.
            x.1 (on_advisory advisory u)
            ∙ steps_lem u t advisory p waiting (held db1) good (
                scanned other_permission (select mine db1.invitations)
                ∙ exists_row-select mine other_permission db1.invitations
                ∙ ground (
                  arith,
                  same_permission_refl p good,
                  exists_row-none (λ i. mine i && other_permission i)
                      (λ i. mine i && i.advisory == advisory) db.invitations
                      (λ i e. ground (arith, e)) none_waiting,
                ))
            ∙ chosen (exists_row live waiting) (some p) (held db1 (on_advisory advisory u)) (
                scanned live (select mine db1.invitations)
                ∙ exists_row-select mine live db1.invitations
                ∙ ground (arith, address, soon))))
