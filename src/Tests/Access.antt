-- ===== src/Tests/Access.antt =====
-- The access of an advisory on a small installation.
use advisoryhub.Prelude.{
  true, strip, oldest_row, ◌≡◌, refl, arith, none, some, [], ◌∷◌, List, codes, Keyed,
}
use advisoryhub.Accounts.{Actor, Account}
use advisoryhub.Tasks.{PendingInvitation, PrincipalType, named, owner, viewer, collaborator}
use advisoryhub.Db.{Db, Returns, ok}
use advisoryhub.Access.{Principal}
use advisoryhub.Access.Refine.{
  Request, give, take_away, serve_all, steps, held, IsSound, serve_all_refines,
}
use advisoryhub.Access.Invitations.{
  iexact, invite_email, invitation_key, redeem_invitations_for_user,
}
use advisoryhub.Access.Invitations.Roundtrip.{on_advisory, invite-login}
use advisoryhub.Access.Invitations.Login.{redeem_once}
use advisoryhub.Tests.Data.{admin, member, stranger, empty}

abbrev guest : Principal
guest = record { advisory = 7; principal_type = PrincipalType.user; principal_id = 3 }

abbrev team : Principal
team = record { advisory = 7; principal_type = PrincipalType.group; principal_id = 20 }

-- The team's grant is raised, the guest's is refused and then given, and the team's taken away.
abbrev orders : List Request
orders =
    give team (named viewer) (Actor.account admin)
    ∷ give team (named collaborator) (Actor.account admin)
    ∷ give guest (named owner) (Actor.account admin)
    ∷ give guest (named viewer) (Actor.account member)
    ∷ take_away team (Actor.account admin)
    ∷ []

serve_all_refines_example :
    IsSound (serve_all orders empty)
    × ((j : Principal) → held (serve_all orders empty) j ≡ steps orders (held empty) j)
serve_all_refines_example = serve_all_refines orders empty (tt, tt)

abbrev invitation : PendingInvitation
invitation = record {
  pk = 30;
  advisory = 7;
  email = codes "stranger@x.org";
  permission = named collaborator;
  expires_at = 6000000000;
  created_by = some 1;
  redeemed_at = none;
  redeemed_by = none;
}

abbrev lapsed : PendingInvitation
lapsed = record invitation { pk = 31; advisory = 8; expires_at = 4000000000 }

abbrev invited : Db
invited = record empty { invitations = invitation ∷ lapsed ∷ [] }

invited-Keyed : Keyed invitation_key 100 invited.invitations
invited-Keyed = (omega arith, refl, (omega arith, refl, tt))

redeem_once_example :
    Returns (redeem_invitations_for_user (λ s. s) (λ is. is) stranger invited) (λ gs db'.
      redeem_invitations_for_user (λ s. s) (λ is. is) stranger (record db' { now = 5500000000 })
      ≡ ok [] (record db' { now = 5500000000 }))
redeem_once_example =
    redeem_once (λ s. s) (λ is. is) (λ p is. refl) stranger invited 5500000000 (omega arith)
      (tt, tt) invited-Keyed refl refl

abbrev inhabited : Db
inhabited = record empty { users = member ∷ [] }

stranger_unknown :
    oldest_row
      (λ (v : Account). iexact (λ s. s) v.email (strip (codes " stranger@x.org")))
      inhabited.users
    ≡ none
unfolding strip
stranger_unknown = refl

stranger_invited : iexact (λ s. s) (strip (codes " stranger@x.org")) stranger.email ≡ true
unfolding strip
stranger_invited = refl

invite-login_example :
    Returns
      (invite_email
        (λ s. s)
        7
        (codes " stranger@x.org")
        (named viewer)
        (Actor.account admin)
        inhabited)
      (λ i db1.
        Returns
          (redeem_invitations_for_user
            (λ s. s)
            (λ is. is)
            stranger
            (record db1 { now = 5500000000 }))
          (λ gs db2. held db2 (on_advisory 7 stranger) ≡ some (named viewer)))
invite-login_example =
    invite-login (λ s. s) (λ is. is) (λ p is. refl) stranger 7 (codes " stranger@x.org")
      (named viewer) (Actor.account admin) inhabited 5500000000 stranger_unknown stranger_invited
      refl refl (omega arith) (tt, tt) tt refl refl
