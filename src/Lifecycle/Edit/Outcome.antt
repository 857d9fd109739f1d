-- ===== src/Lifecycle/Edit/Outcome.antt =====
-- What an edit leaves behind.
use advisoryhub.Prelude.{
  ℕ, ◌≡◌, refl, Bool, true, not, ◌&&◌, Option, some, get_row, map_row, get_row-write_row, ◌∙◌, ap,
  arith,
}
use advisoryhub.Accounts.{Actor}
use advisoryhub.Advisory.{Advisory, is_approved, is_published}
use advisoryhub.Db.Calls.{Returns->>=}
use advisoryhub.Db.{Db, Returns, save_advisory}
use advisoryhub.Permissions.{is_global_admin}
use advisoryhub.Versions.{record_advisory_version}
use advisoryhub.Lifecycle.Edit.{apply_advisory_edit, edited}

abbrev advisory_key : Advisory → ℕ
advisory_key a = a.pk

abbrev pub find : ℕ → Db → Option Advisory
find k db = get_row advisory_key k db.advisories

record_advisory_version-advisories :
    (a : Advisory) (by : Actor) (changed : Bool) (db : Db)
    → Returns (record_advisory_version a by changed db) (λ _ db'. db'.advisories ≡ db.advisories)
unfolding record_advisory_version
record_advisory_version-advisories a by changed db = ground arith

-- A row as an edit leaves it, whatever the fields that were edited.
abbrev pub Edited : Db → Actor → Advisory → Advisory → Type 0
Edited db editor a row =
    (row.content ≡ a.content)
    × (row.state ≡ a.state)
    × (is_approved row.review_status ≡ (is_approved a.review_status && is_global_admin db editor))
    × (is_published a.state ≡ true → row.republish_required ≡ true)

-- An edit of a row that is there always goes through. The row gets the content and the state of the
-- caller's copy, which may be stale, whatever it had. If the copy is published, the row needs
-- republication afterwards. The row is approved just if the copy is and the editor is a global
-- admin, and the result says whether the copy's approval was lost.
pub apply_advisory_edit_outcome :
    (a row : Advisory) (editor : Actor) (moved is_triage : Bool) (db : Db)
    → find a.pk db ≡ some row
    → Returns (apply_advisory_edit a editor moved is_triage db) (λ r db'.
      (r.approval_invalidated ≡ (is_approved a.review_status && not (is_global_admin db editor)))
      × ((x : Advisory) × (find a.pk db' ≡ some x) × Edited db editor a x))
unfolding apply_advisory_edit save_advisory edited
apply_advisory_edit_outcome a row editor moved is_triage db found =
    let invalidated = is_approved a.review_status && not (is_global_admin db editor) in
    let saved = edited db.now a invalidated moved is_triage in
    let written =
      get_row-write_row advisory_key (λ x. record saved { intake = x.intake }) a.pk db.advisories
        (λ x. refl)
      ∙ ap (map_row (λ x. record saved { intake = x.intake })) found in
    Returns->>= (record_advisory_version saved editor true _) _ _ _
      (record_advisory_version-advisories saved editor true _)
      (λ v db2 e. (
        refl,
        (
          record saved { intake = row.intake },
          ap (get_row advisory_key a.pk) e ∙ written,
          (refl, refl, ground arith, ground arith),
        ),
      ))
