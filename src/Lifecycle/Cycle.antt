-- ===== src/Lifecycle/Cycle.antt =====
-- A reopened advisory is back in the state that its dismissal recorded.
use advisoryhub.Prelude.{
  ℕ, ◌≡◌, refl, false, Option, none, some, Text, is_blank, first_row, get_row, map_row,
  get_row-modify_row_self, get_row-key, arith, Option-cases, inl, inr, ◌∙◌, ap, ◌⊎◌, strip,
}
use advisoryhub.Accounts.{Actor}
use advisoryhub.Advisory.{Advisory, State, is_from_published}
use advisoryhub.Db.Calls.{Returns-mono}
use advisoryhub.Db.{Db, M, Result, ok, err, Post, Returns, save_advisory, record_action, on_commit}
use advisoryhub.Workflows.{load_advisory}
use advisoryhub.Workflows.Cve.{request_cve, create_cve_request}
use advisoryhub.Workflows.Orphan.{reassign_orphan_cve, save_orphan}
use advisoryhub.Publication.{Externals}
use advisoryhub.Lifecycle.Dismissal.{dismiss_advisory}
use advisoryhub.Lifecycle.Cascade.Dismissed.{Ready, dismiss_advisory-Closed}
use advisoryhub.Lifecycle.Reopen.{
  create_reassignment, reattach, queue_admin_task, restore_by_status, restore_orphan,
  restore_cve_request, target_state, with_state, reopen_to, reopen_advisory, is_orphan_of,
}

abbrev advisory_key : Advisory → ℕ
advisory_key a = a.pk

abbrev find : ℕ → Db → Option Advisory
find k db = get_row advisory_key k db.advisories

-- The row is in the state.
abbrev pub InState : State → Option Advisory → Type 0
InState s none = ⊥
InState s (some a) = a.state ≡ s

abbrev pub IsAt : ℕ → State → Db → Type 0
IsAt k s db = InState s (find k db)

Post->>= :
    {A B : Type 0} (m : Result A) (f : A → M B) (P : A → Db → Type 0) (Q : B → Db → Type 0)
    → Post m P
    → ((a : A) (db : Db) → P a db → Post (f a db) Q)
    → Post (elim m [ ok a db ↦ f a db | err e ↦ err e ]) Q
Post->>= (ok a db) f P Q p k = k a db p
Post->>= (err e) f P Q p k = tt

restore_cve_request-advisories :
    (a : Advisory) (by : Actor) (db : Db)
    → Post (restore_cve_request a by db) (λ _ db'. db'.advisories ≡ db.advisories)
unfolding restore_cve_request request_cve create_cve_request record_action
restore_cve_request-advisories a by db = ground arith

restore_orphan-IsAt :
    (s : State) (a : Advisory) (by : Actor) (db : Db)
    → IsAt a.pk s db
    → Post (restore_orphan a by db) (λ _ db'. IsAt a.pk s db')
unfolding restore_orphan restore_by_status reattach queue_admin_task create_reassignment
    reassign_orphan_cve save_orphan save_advisory record_action
restore_orphan-IsAt s a by db h = elim (Option-cases (first_row (is_orphan_of a.pk) db.orphans)) [
  | inl e ↦ ground (arith, e, h)
  | inr (o, e) ↦
      let saved =
        get_row-modify_row_self advisory_key (λ x. record x { assigned_cve_id = o.cve_id })
          (λ x. refl) a.pk db.advisories in
      ground (arith, e, h, saved)
]

reopen_to_lem :
    (s : State) (a : Advisory) (by : Actor) (db : Db)
    → find a.pk db ≡ some a
    → Post (reopen_to a s by db) (λ _ db'. IsAt a.pk s db')
unfolding reopen_to save_advisory record_action on_commit
reopen_to_lem s a by db row =
    let saved =
      get_row-modify_row_self advisory_key (with_state s) (λ x. refl) a.pk db.advisories
      ∙ ap (map_row (with_state s)) row in
    Post->>= (restore_cve_request (with_state s a) by _) _ _ _
      (restore_cve_request-advisories (with_state s a) by _)
      (λ _ db1 h1.
        Post->>= (restore_orphan (with_state s a) by db1) _ _ _
          (restore_orphan-IsAt s (with_state s a) by db1 (ground (arith, h1, saved)))
          (λ r db2 h2. ground (arith, h2)))

-- Reopening an advisory that was not published, if it goes through, puts its row in triage if that
-- is where it was dismissed from, and in draft otherwise.
pub reopen_advisory-IsAt :
    (ext : Externals) (k : ℕ) (a : Advisory) (by : Actor) (db : Db)
    → find k db ≡ some a
    → is_from_published a.dismissed_from_state ≡ false
    → Post (reopen_advisory ext k by db) (λ _ db'. IsAt k (target_state a.dismissed_from_state) db')
unfolding reopen_advisory load_advisory
reopen_advisory-IsAt ext k a by db row native =
    let key = get_row-key advisory_key k a db.advisories row in
    let lem =
      reopen_to_lem (target_state a.dismissed_from_state) a by db (ap (λ j. find j db) key ∙ row) in
    ground (arith, row, native, key, lem)

-- An advisory in triage or in draft that is dismissed, as in the theorem on dismissal, and then
-- reopened by anyone whose reopening goes through, has its row in the state that it started from.
pub dismiss-reopen :
    (ext : Externals) (a : Advisory) (by : Actor) (reason : Text) (db : Db)
    → is_blank (strip reason) ≡ false
    → find a.pk db ≡ some a
    → a.state ≡ State.triage ⊎ a.state ≡ State.draft
    → Ready a by db
    → Returns (dismiss_advisory a.pk by reason db) (λ _ db'.
      (by' : Actor) → Post (reopen_advisory ext a.pk by' db') (λ _ db''. IsAt a.pk a.state db''))
dismiss-reopen ext a by reason db said found start ready =
    let target : target_state (some a.state) ≡ a.state = ground (arith, start) in
    let unpublished : is_from_published (some a.state) ≡ false = ground (arith, start) in
    Returns-mono (dismiss_advisory a.pk by reason db) _ _
      (dismiss_advisory-Closed a by reason db said found (ground (arith, start)) ready)
      (λ held db' closed by'.
        rw (closed.0.3, target) at
          (reopen_advisory-IsAt ext a.pk held by' db' closed.0.1 (rw closed.0.3 unpublished)))
