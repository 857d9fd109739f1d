-- ===== src/Ghsa/Sweep.antt =====
-- The periodic sweep over the linked advisories (ghsa/services.py,
-- `reconcile_ghsa_linked_advisories`). It is no transaction: what an advisory's turn has committed
-- stays, whatever a later turn raises.
pub mod Counts
use advisoryhub.Prelude.{
  ℕ, suc, Bool, true, false, ◌&&◌, ◌||◌, Option, none, some, List, [], ◌∷◌, reverse, select, Text,
  if◌then◌else◌,
}
use advisoryhub.Accounts.{Actor}
use advisoryhub.Advisory.{Advisory, is_ghsa_linked}
use advisoryhub.Db.{Db, Result, ok, err, Error, save_advisory}
use advisoryhub.Publication.{Externals}
use advisoryhub.Ghsa.Sync.{Github, SyncSummary, sync_single_ghsa}
use advisoryhub.Ghsa.React.{is_active, react_to_ghsa_state}

-- The counts that the sweep returns, or what it raised after the turns that it made.
pub record Swept : Type 0 where
  pub checked : ℕ
  pub errors : ℕ
  pub raised : Option Error

-- `except GitHubApiError`
abbrev pub is_client_error : Error → Bool
is_client_error Error.ghsa_client_error = true
is_client_error _ = false

abbrev one_checked : Swept × Db → Swept × Db
one_checked r = (record r.0 { checked = suc r.0.checked }, r.1)

abbrev one_error : Swept × Db → Swept × Db
one_error r = (record r.0 { errors = suc r.0.errors }, r.1)

abbrev pub stopped : Error → Db → Swept × Db
stopped e db = (record { checked = 0; errors = 0; raised = some e }, db)

-- `kind=GHSA_LINKED, state__in=[DRAFT, TRIAGE, PUBLISHED]`
abbrev pub is_swept : Advisory → Bool
is_swept a = is_ghsa_linked a.kind && is_active a.state

-- `sync_error` is the redacted text of a client error.
module _ (g : Github) (ext : Externals) (auto_publish : Bool) (sync_error : Text) (by : Actor) where
  -- `record_ghsa_sync_error`
  pub record_ghsa_sync_error : Advisory → Db → Db
  record_ghsa_sync_error a db =
      elim (save_advisory a.pk (λ row. record row { ghsa_sync_error = sync_error }) db) [
        | ok u db' ↦ db'
        | err e ↦ db
      ]

  -- An advisory's turn: the database after it, and what it raised.
  unfoldable pub turn : Advisory → Db → Db × Option Error
  turn a db = elim (sync_single_ghsa g a by db) [
    | err e ↦ (db, some e)
    | ok synced db1 ↦ elim (react_to_ghsa_state ext auto_publish synced.1 synced.0 by db1) [
      | err e ↦ (db1, some e)
      | ok u db2 ↦ (db2, none)
    ]
  ]

  unfoldable pub continue : Advisory → Db × Option Error → (Db → Swept × Db) → Swept × Db
  unfolding record_ghsa_sync_error
  continue a (db, none) rest = one_checked (rest db)
  continue a (db, some e) rest =
      if is_client_error e then one_error (rest (record_ghsa_sync_error a db)) else stopped e db

  unfoldable pub sweep : List Advisory → Db → Swept × Db
  unfolding turn continue
  sweep [] db = (record { checked = 0; errors = 0; raised = none }, db)
  sweep (a ∷ rows) db = continue a (turn a db) (sweep rows)

  -- `reconcile_ghsa_linked_advisories`; `none` while the feature is off
  unfoldable pub reconcile_ghsa_linked_advisories : Db → Option Swept × Db
  unfolding sweep
  reconcile_ghsa_linked_advisories db =
      if db.settings.ghsa_feature_enabled
      then (
        some (sweep (reverse (select is_swept db.advisories)) db).0,
        (sweep (reverse (select is_swept db.advisories)) db).1,
      )
      else (none, db)
