-- ===== src/Access/Invitations/Redemption.antt =====
-- What redeeming the invitations of a user leaves (access/services.py,
-- `redeem_invitations_for_user`).
use advisoryhub.Prelude.{
  ℕ, ◌≡◌, refl, ap, ◌∙◌, Bool, true, false, not, ◌&&◌, ◌||◌, Option, none, some, List, [], ◌∷◌,
  arith, ◌==◌, exists_row, get_row, modify_row, map_row, if◌then◌else◌, Bool-cases, inl, inr, Keyed,
  modify_row-Keyed, get_row-modify_row_self, get_row-modify_row_ne,
}
use advisoryhub.Accounts.{Account, stored_actor}
use advisoryhub.Tasks.{PrincipalType, PendingInvitation}
use advisoryhub.Db.{Db, Returns, record_action, ◌>>=◌, pure}
use advisoryhub.Db.Calls.{Returns->>=}
use advisoryhub.Access.{Principal, is_grantable, grant_to_user}
use advisoryhub.Access.Refine.{Request, give, step, steps, IsSound, held, set_grant_outcome}
use advisoryhub.Access.Invitations.{is_expired, invitation_key, redeemed, redeem, redeem_each}

abbrev pub user_principal : Account → PendingInvitation → Principal
user_principal u i = record {
  advisory = i.advisory;
  principal_type = PrincipalType.user;
  principal_id = u.pk;
}

module _ (u : Account) (now : ℕ) where
  abbrev pub request : PendingInvitation → Request
  request i = give (user_principal u i) i.permission (stored_actor i.created_by)

  -- What the invitations that have not expired ask for.
  abbrev pub requests : List PendingInvitation → List Request
  requests [] = []
  requests (i ∷ is) = let rest = requests is in if is_expired now i then rest else request i ∷ rest

  -- An invitation that `_validate_grantable_permission` refuses.
  abbrev pub is_refused : PendingInvitation → Bool
  is_refused i = not (is_expired now i) && not (is_grantable i.permission)

  abbrev pub redeems : ℕ → PendingInvitation → Bool
  redeems k i = not (is_expired now i) && i.pk == k

  abbrev pub redeem_if : Bool → Option PendingInvitation → Option PendingInvitation
  redeem_if b o = if b then map_row (redeemed now u) o else o

  redeem_if-twice :
      (b : Bool) (o : Option PendingInvitation)
      → redeem_if b (map_row (redeemed now u) o) ≡ map_row (redeemed now u) o
  redeem_if-twice true none = refl
  redeem_if-twice true (some i) = refl
  redeem_if-twice false o = refl

  redeem_if-after :
      (k j : ℕ) (b : Bool) (xs : List PendingInvitation)
      → redeem_if b (get_row invitation_key k (modify_row invitation_key j (redeemed now u) xs))
        ≡ redeem_if (j == k || b) (get_row invitation_key k xs)
  redeem_if-after k j b xs = elim (Bool-cases (j == k)) [
    | inl same ↦ ground (
      arith,
      same,
      get_row-modify_row_self invitation_key (redeemed now u) (λ x. refl) k xs,
      redeem_if-twice b (get_row invitation_key k xs),
    )
    | inr differ ↦
        ground
          (arith, differ, get_row-modify_row_ne invitation_key (redeemed now u) (λ x. refl) k j xs)
  ]

  redeem_lem :
      (i : PendingInvitation) (db : Db)
      → IsSound db
      → is_grantable i.permission ≡ true
      → Returns (redeem u now i db) (λ g db'.
        IsSound db'
        × ((j : Principal) → held db' j ≡ step (request i) (held db) j)
        × (db'.invitations ≡ modify_row invitation_key i.pk (redeemed now u) db.invitations))
  unfolding grant_to_user record_action
  redeem_lem i db h good =
      Returns->>= (grant_to_user i.advisory u.pk i.permission (stored_actor i.created_by) db) _ _ _
        (set_grant_outcome (user_principal u i) i.permission (stored_actor i.created_by) db h good)
        (λ g db1 x.
          (x.0, λ j. rw good (x.1 j).1, ap (modify_row invitation_key i.pk (redeemed now u)) x.2))

  pub redeem_each-late :
      (i : PendingInvitation) (is : List PendingInvitation) (db : Db)
      → is_expired now i ≡ true
      → redeem_each u now (i ∷ is) db ≡ redeem_each u now is db
  unfolding redeem_each
  redeem_each-late i is db e = rw e refl

  redeem_each-live :
      (i : PendingInvitation) (is : List PendingInvitation) (db : Db)
      → is_expired now i ≡ false
      → redeem_each u now (i ∷ is) db
        ≡ (do grant ← redeem u now i; grants ← redeem_each u now is; pure (grant ∷ grants)) db
  unfolding redeem_each
  redeem_each-live i is db e = rw e refl

  pub redeem_each_lem :
      (is : List PendingInvitation) (db : Db)
      → IsSound db
      → exists_row is_refused is ≡ false
      → Returns (redeem_each u now is db) (λ gs db'.
        IsSound db'
        × ((j : Principal) → held db' j ≡ steps (requests is) (held db) j)
        × ((k : ℕ)
            → get_row invitation_key k db'.invitations
              ≡ redeem_if (exists_row (redeems k) is) (get_row invitation_key k db.invitations))
        × ((n : ℕ)
            → Keyed invitation_key n db.invitations
            → Keyed invitation_key n db'.invitations))
  unfolding redeem_each
  redeem_each_lem [] db h ok = (h, λ j. refl, λ k. refl, λ n d. d)
  redeem_each_lem (i ∷ is) db h ok = elim (Bool-cases (is_expired now i)) [
    | inl late ↦
        rw (redeem_each-late i is db late, late)
          (redeem_each_lem is db h (ground (arith, late, ok)))
    | inr live ↦
        rw (redeem_each-live i is db live, live)
          (Returns->>= (redeem u now i db) _ _ _ (redeem_lem i db h (ground (arith, live, ok)))
            (λ g db1 x.
              Returns->>= (redeem_each u now is db1) _ _ _
                (redeem_each_lem is db1 x.0 (ground (arith, live, ok)))
                (λ gs db2 y. (
                  y.0,
                  λ j. y.1 j ∙ ap (λ m. steps (requests is) m j) (λ t. λ k. x.1 k t),
                  λ k.
                      y.2 k
                      ∙ ap
                          (λ rows.
                            redeem_if (exists_row (redeems k) is) (get_row invitation_key k rows))
                          x.2
                      ∙ redeem_if-after k i.pk (exists_row (redeems k) is) db.invitations,
                  λ n d. y.3 n (
                      rw x.2 (
                        modify_row-Keyed invitation_key (redeemed now u) n i.pk db.invitations
                          (λ r. refl) d)),
                ))))
  ]
