-- ===== src/Access/Invitations/Login.antt =====
-- What a login leaves of the invitations (access/services.py, `redeem_invitations_for_user`).
use advisoryhub.Prelude.{
  ℕ, ◌≤◌, ◌≡◌, refl, ap, ◌∙◌, sym, Bool, false, not, ◌&&◌, Option, none, some, List, [], ◌∷◌, Text,
  is_blank, arith, ◌==◌, select, exists_row, get_row, passes, exists_row-key, exists_row-cong,
  exists_row-select, exists_row-keys, exists_row-none, Bool-cases, inl, inr, Keyed,
}
use advisoryhub.Accounts.{Account}
use advisoryhub.Tasks.{PendingInvitation}
use advisoryhub.Db.{Db, ok, Returns}
use advisoryhub.Db.Calls.{Returns-mono}
use advisoryhub.Access.{Principal, is_grantable}
use advisoryhub.Access.Refine.{steps, IsSound, held}
use advisoryhub.Access.Invitations.{
  is_expired, invitation_key, redeem_each, is_unredeemed_for, redeem_invitations_for_user,
}
use advisoryhub.Access.Invitations.Redemption.{
  requests, redeems, redeem_if, is_refused, redeem_each_lem, redeem_each-late,
}

module _ (upper : Text → Text) (scan : List PendingInvitation → List PendingInvitation)
    (u : Account) (db : Db) where
  -- The query of `redeem_invitations_for_user`.
  abbrev pub pending : List PendingInvitation
  pending = scan (select (is_unredeemed_for upper u) db.invitations)

  -- An invitation to the user's email that was neither redeemed nor has expired.
  abbrev pub is_redeemable : PendingInvitation → Bool
  is_redeemable i = is_unredeemed_for upper u i && not (is_expired db.now i)

module _ (upper : Text → Text) (scan : List PendingInvitation → List PendingInvitation)
    (scanned : (p : PendingInvitation → Bool) (is : List PendingInvitation)
      → exists_row p (scan is) ≡ exists_row p is)
    (u : Account) (db : Db) where
  redeem_row :
      (k : ℕ)
      → Keyed invitation_key db.next_pk db.invitations
      → exists_row (redeems u db.now k) (pending upper scan u db)
        ≡ passes (is_redeemable upper scan u db) (get_row invitation_key k db.invitations)
  redeem_row k h =
      scanned (redeems u db.now k) (select (is_unredeemed_for upper u) db.invitations)
      ∙ exists_row-select (is_unredeemed_for upper u) (redeems u db.now k) db.invitations
      ∙ exists_row-cong _ (λ i. (is_redeemable upper scan u db) i && i.pk == k) db.invitations
          (λ i. ground arith)
      ∙ exists_row-key invitation_key db.next_pk (is_redeemable upper scan u db) k db.invitations h

  pub redeem_outcome :
      IsSound db
      → Keyed invitation_key db.next_pk db.invitations
      → exists_row (λ (i : PendingInvitation). not (is_grantable i.permission)) db.invitations
        ≡ false
      → is_blank u.email ≡ false
      → Returns (redeem_invitations_for_user upper scan u db) (λ gs db'.
        IsSound db'
        × ((j : Principal)
            → held db' j ≡ steps (requests u db.now (pending upper scan u db)) (held db) j)
        × ((k : ℕ)
            → get_row invitation_key k db'.invitations
              ≡ redeem_if u db.now
                  (passes (is_redeemable upper scan u db) (get_row invitation_key k db.invitations))
                  (get_row invitation_key k db.invitations))
        × Keyed invitation_key db.next_pk db'.invitations)
  unfolding redeem_invitations_for_user
  redeem_outcome sound keyed grantable email = rw email (
      Returns-mono (redeem_each u db.now (pending upper scan u db) db) _ _
        (redeem_each_lem u db.now (pending upper scan u db) db sound (
          scanned (is_refused u db.now) (select (is_unredeemed_for upper u) db.invitations)
          ∙ exists_row-select (is_unredeemed_for upper u) (is_refused u db.now) db.invitations
          ∙ exists_row-none _ _ db.invitations (λ i e. ground (arith, e)) grantable))
        (λ gs db' x. (
          x.0,
          x.1,
          λ k.
              x.2 k
              ∙ ap (λ b. redeem_if u db.now b (get_row invitation_key k db.invitations))
                  (redeem_row k keyed),
          x.3 db.next_pk keyed,
        )))

module _ (upper : Text → Text) (scan : List PendingInvitation → List PendingInvitation)
    (scanned : (p : PendingInvitation → Bool) (is : List PendingInvitation)
      → exists_row p (scan is) ≡ exists_row p is)
    (u : Account) where
  redeem_each-expired :
      (now : ℕ) (is : List PendingInvitation) (db : Db)
      → exists_row (λ i. not (is_expired now i)) is ≡ false
      → redeem_each u now is db ≡ ok [] db
  unfolding redeem_each
  redeem_each-expired now [] db e = refl
  redeem_each-expired now (i ∷ is) db e =
      redeem_each-late u now i is db (ground (arith, e))
      ∙ redeem_each-expired now is db (ground (arith, e))

  -- What holds of an invitation row after a login: it is not to be redeemed, then or later.
  spent :
      (now later : ℕ) (o : Option PendingInvitation) (i : PendingInvitation)
      → now ≤ later
      → redeem_if u now (passes (λ i. is_unredeemed_for upper u i && not (is_expired now i)) o) o
        ≡ some i
      → is_unredeemed_for upper u i && not (is_expired later i) ≡ false
  unfolding is_expired
  spent now later none i le e = elim (Bool-cases (is_unredeemed_for upper u i)) [
    | inl t ↦ ground (arith, e)
    | inr f ↦ ground (arith, f)
  ]
  spent now later (some x) i le e = elim (Bool-cases (is_unredeemed_for upper u x)) [
    | inl t ↦ ground (arith, e, t, le)
    | inr f ↦ ground (arith, e, f)
  ]

  -- Under the same conditions, redeeming a user's invitations returns, and redeeming them again, at
  -- once or at any later time, returns no grant and leaves the database as it is.
  pub redeem_once :
      (db : Db) (later : ℕ)
      → db.now ≤ later
      → IsSound db
      → Keyed invitation_key db.next_pk db.invitations
      → exists_row (λ (i : PendingInvitation). not (is_grantable i.permission)) db.invitations
        ≡ false
      → is_blank u.email ≡ false
      → Returns (redeem_invitations_for_user upper scan u db) (λ gs db'.
        redeem_invitations_for_user upper scan u (record db' { now = later })
        ≡ ok [] (record db' { now = later }))
  unfolding redeem_invitations_for_user
  redeem_once db later le sound keyed grantable email =
      Returns-mono (redeem_invitations_for_user upper scan u db) _ _
        (redeem_outcome upper scan scanned u db sound keyed grantable email)
        (λ gs db' x.
          let p = is_unredeemed_for upper u in
          rw email (
            redeem_each-expired later (scan (select p db'.invitations)) (record db' { now = later })
              (scanned (λ i. not (is_expired later i)) (select p db'.invitations)
                ∙ exists_row-select p (λ i. not (is_expired later i)) db'.invitations
                ∙ exists_row-keys invitation_key db.next_pk (λ i. p i && not (is_expired later i))
                    db'.invitations x.3
                    (λ k i e.
                      spent db.now later (get_row invitation_key k db.invitations) i le
                        (sym (x.2 k) ∙ e)))))
