-- ===== src/Ghsa/Sweep/Counts.antt =====
-- How the sweep ends (ghsa/services.py, `reconcile_ghsa_linked_advisories`).
use advisoryhub.Prelude.{
  ℕ, suc, ◌+◌, ◌<◌, ◌≡◌, ◌≢◌, ◌⊎◌, ◌∙◌, ap, inl, inr, refl, modify_row, Bool, true, false, Option,
  none, some, List, [], ◌∷◌, Text, reverse, select, arith, Bool-cases,
}
use advisoryhub.Accounts.{Actor}
use advisoryhub.Advisory.{Advisory}
use advisoryhub.Db.{Db, Result, Error, ok, err, save_advisory}
use advisoryhub.Documents.Lists.{length}
use advisoryhub.Publication.{Externals}
use advisoryhub.Ghsa.Sync.{Github, SyncSummary, sync_single_ghsa}
use advisoryhub.Ghsa.React.{react_to_ghsa_state}
use advisoryhub.Ghsa.Sweep.{
  Swept, is_client_error, turn, continue, sweep, is_swept, record_ghsa_sync_error,
  reconcile_ghsa_linked_advisories,
}

-- Every advisory has been checked or counted as an error; or one turn raised what the sweep does
-- not catch, and it and the advisories after it are in no count.
abbrev pub Counted : ℕ → Swept → Type 0
Counted n r =
    ((r.raised ≡ none) × (r.checked + r.errors ≡ n))
    ⊎ ((e : Error) × (r.raised ≡ some e) × (is_client_error e ≡ false) × (r.checked + r.errors < n))

module _ (g : Github) (ext : Externals) (auto_publish : Bool) (sync_error : Text) (by : Actor) where
  checked_lem :
      (n : ℕ) (r : Swept) → Counted n r → Counted (suc n) (record r { checked = suc r.checked })
  checked_lem n r (inl h) = inl (h.0, omega (arith, h.1))
  checked_lem n r (inr (e, raised, other, below)) = inr (e, raised, other, omega (arith, below))

  failed_lem :
      (n : ℕ) (r : Swept) → Counted n r → Counted (suc n) (record r { errors = suc r.errors })
  failed_lem n r (inl h) = inl (h.0, omega (arith, h.1))
  failed_lem n r (inr (e, raised, other, below)) = inr (e, raised, other, omega (arith, below))

  continue-Counted :
      (a : Advisory) (t : Db × Option Error) (rest : Db → Swept × Db) (n : ℕ)
      → ((db : Db) → Counted n (rest db).0)
      → Counted (suc n) (continue g ext auto_publish sync_error by a t rest).0
  unfolding continue
  continue-Counted a (db, none) rest n h = checked_lem n (rest db).0 (h db)
  continue-Counted a (db, some e) rest n h = elim (Bool-cases (is_client_error e)) [
    | inl client ↦
        let db' = record_ghsa_sync_error g ext auto_publish sync_error by a db in
        rw client (failed_lem n (rest db').0 (h db'))
    | inr other ↦ rw other (inr (e, refl, other, omega arith))
  ]

  pub sweep-Counted :
      (rows : List Advisory) (db : Db)
      → Counted (length rows) (sweep g ext auto_publish sync_error by rows db).0
  unfolding sweep
  sweep-Counted [] db = inl (refl, refl)
  sweep-Counted (a ∷ rows) db =
      continue-Counted a (turn g ext auto_publish sync_error by a db)
        (sweep g ext auto_publish sync_error by rows) (length rows) (λ db. sweep-Counted rows db)

-- `record_ghsa_sync_error`, on the rows
abbrev pub noted : Text → Advisory → Db → Db
noted text a db = record db {
  advisories =
      modify_row (λ (x : Advisory). x.pk) a.pk (λ row. record row { ghsa_sync_error = text })
        db.advisories;
}

-- The turns of the sweep, one advisory after the other: each is synced, and GitHub's state is
-- followed with what the sync returned, on the rows that it left. A client error of either is noted
-- on the advisory's row and counted; any other exception ends the sweep.
pub data Turns (g : Github) (ext : Externals) (auto_publish : Bool) (sync_error : Text) (by : Actor)
    : List Advisory → Db → Swept → Db → Type 0 where
  finished :
      {db : Db}
      → Turns g ext auto_publish sync_error by [] db
          (record { checked = 0; errors = 0; raised = none })
          db
  is_checked :
      {a : Advisory} {rows : List Advisory} {db db1 db2 db' : Db} {r : Swept}
      (s : SyncSummary × Advisory) (u : Unit {0})
      → sync_single_ghsa g a by db ≡ ok s db1
      → react_to_ghsa_state ext auto_publish s.1 s.0 by db1 ≡ ok u db2
      → Turns g ext auto_publish sync_error by rows db2 r db'
      → Turns g ext auto_publish sync_error by
          (a ∷ rows)
          db
          (record r { checked = suc r.checked })
          db'
  not_synced :
      {a : Advisory} {rows : List Advisory} {db db' : Db} {r : Swept}
      → sync_single_ghsa g a by db ≡ err Error.ghsa_client_error
      → Turns g ext auto_publish sync_error by rows (noted sync_error a db) r db'
      → Turns g ext auto_publish sync_error by
          (a ∷ rows)
          db
          (record r { errors = suc r.errors })
          db'
  not_followed :
      {a : Advisory} {rows : List Advisory} {db db1 db' : Db} {r : Swept}
      (s : SyncSummary × Advisory)
      → sync_single_ghsa g a by db ≡ ok s db1
      → react_to_ghsa_state ext auto_publish s.1 s.0 by db1 ≡ err Error.ghsa_client_error
      → Turns g ext auto_publish sync_error by rows (noted sync_error a db1) r db'
      → Turns g ext auto_publish sync_error by
          (a ∷ rows)
          db
          (record r { errors = suc r.errors })
          db'
  sync_raised :
      {a : Advisory} {rows : List Advisory} {db : Db} (e : Error)
      → sync_single_ghsa g a by db ≡ err e
      → e ≢ Error.ghsa_client_error
      → Turns g ext auto_publish sync_error by
          (a ∷ rows)
          db
          (record { checked = 0; errors = 0; raised = some e })
          db
  follow_raised :
      {a : Advisory} {rows : List Advisory} {db db1 : Db} (s : SyncSummary × Advisory) (e : Error)
      → sync_single_ghsa g a by db ≡ ok s db1
      → react_to_ghsa_state ext auto_publish s.1 s.0 by db1 ≡ err e
      → e ≢ Error.ghsa_client_error
      → Turns g ext auto_publish sync_error by
          (a ∷ rows)
          db
          (record { checked = 0; errors = 0; raised = some e })
          db1

client_lem : (e : Error) → is_client_error e ≡ true → e ≡ Error.ghsa_client_error
client_lem e h = ground (arith, h)

other_lem : (e : Error) → is_client_error e ≡ false → e ≢ Error.ghsa_client_error
other_lem e h p = ground (arith, ap is_client_error p, h)

module _ (g : Github) (ext : Externals) (auto_publish : Bool) (sync_error : Text) (by : Actor) where
  abbrev Following : Advisory → Db → Db × Option Error → List Advisory → Type 0
  Following a db t rows =
      ((db : Db)
        → Turns g ext auto_publish sync_error by rows db
            (sweep g ext auto_publish sync_error by rows db).0
            (sweep g ext auto_publish sync_error by rows db).1)
      → Turns g ext auto_publish sync_error by (a ∷ rows) db
          (continue g ext auto_publish sync_error by a t
            (sweep g ext auto_publish sync_error by rows)).0
          (continue g ext auto_publish sync_error by a t
            (sweep g ext auto_publish sync_error by rows)).1

  sync_refused_lem :
      (a : Advisory) (rows : List Advisory) (db : Db) (e : Error)
      → sync_single_ghsa g a by db ≡ err e
      → Following a db (db, some e) rows
  unfolding continue record_ghsa_sync_error save_advisory
  sync_refused_lem a rows db e synced k = elim (Bool-cases (is_client_error e)) [
    | inl client ↦
        rw client
          (Turns.not_synced (synced ∙ ap err (client_lem e client)) (k (noted sync_error a db)))
    | inr other ↦ rw other (Turns.sync_raised e synced (other_lem e other))
  ]

  follow_refused_lem :
      (a : Advisory) (rows : List Advisory) (db db1 : Db) (s : SyncSummary × Advisory) (e : Error)
      → sync_single_ghsa g a by db ≡ ok s db1
      → react_to_ghsa_state ext auto_publish s.1 s.0 by db1 ≡ err e
      → Following a db (db1, some e) rows
  unfolding continue record_ghsa_sync_error save_advisory
  follow_refused_lem a rows db db1 s e synced followed k = elim (Bool-cases (is_client_error e)) [
    | inl client ↦ rw client (
        Turns.not_followed s synced (followed ∙ ap err (client_lem e client))
          (k (noted sync_error a db1)))
    | inr other ↦ rw other (Turns.follow_raised s e synced followed (other_lem e other))
  ]

  follow_lem :
      (a : Advisory) (rows : List Advisory) (db db1 : Db) (s : SyncSummary × Advisory)
      (m : Result (Unit {0}))
      → sync_single_ghsa g a by db ≡ ok s db1
      → react_to_ghsa_state ext auto_publish s.1 s.0 by db1 ≡ m
      → Following a db (elim m [ err e ↦ (db1, some e) | ok u db2 ↦ (db2, none) ]) rows
  unfolding continue
  follow_lem a rows db db1 s (ok u db2) synced followed k =
      Turns.is_checked s u synced followed (k db2)
  follow_lem a rows db db1 s (err e) synced followed k =
      follow_refused_lem a rows db db1 s e synced followed k

  turn_lem :
      (a : Advisory) (rows : List Advisory) (db : Db) (m : Result (SyncSummary × Advisory))
      → sync_single_ghsa g a by db ≡ m
      → Following a db
          (elim m [
            | err e ↦ (db, some e)
            | ok synced db1 ↦ elim (react_to_ghsa_state ext auto_publish synced.1 synced.0 by db1) [
              | err e ↦ (db1, some e)
              | ok u db2 ↦ (db2, none)
            ]
          ])
          rows
  turn_lem a rows db (ok s db1) synced k =
      follow_lem a rows db db1 s (react_to_ghsa_state ext auto_publish s.1 s.0 by db1) synced refl k
  turn_lem a rows db (err e) synced k = sync_refused_lem a rows db e synced k

  sweep-Turns :
      (rows : List Advisory) (db : Db)
      → Turns g ext auto_publish sync_error by rows db
          (sweep g ext auto_publish sync_error by rows db).0
          (sweep g ext auto_publish sync_error by rows db).1
  unfolding sweep turn
  sweep-Turns [] db = Turns.finished
  sweep-Turns (a ∷ rows) db =
      turn_lem a rows db (sync_single_ghsa g a by db) refl (λ db'. sweep-Turns rows db')

reconcile-eq-sweep :
    (g : Github) (ext : Externals) (auto_publish : Bool) (sync_error : Text) (by : Actor) (db : Db)
    → db.settings.ghsa_feature_enabled ≡ true
    → let swept =
        sweep g ext auto_publish sync_error by (reverse (select is_swept db.advisories)) db in
      reconcile_ghsa_linked_advisories g ext auto_publish sync_error by db ≡ (some swept.0, swept.1)
unfolding reconcile_ghsa_linked_advisories
reconcile-eq-sweep g ext auto_publish sync_error by db on = ground (arith, on)

-- The sweep always ends. While the feature is on, it takes the linked advisories that are not
-- dismissed one after the other: each is synced, and then GitHub's state is followed with the result
-- of the sync, on the rows that the turns before have left. It either checks every one of them or
-- counts it as an error and notes that on its row, or it stops at an exception that is not the
-- GitHub client's: then that advisory and the ones after it are neither checked nor counted.
pub reconcile_ghsa_linked_advisories-Counted :
    (g : Github) (ext : Externals) (auto_publish : Bool) (sync_error : Text) (by : Actor) (db : Db)
    → db.settings.ghsa_feature_enabled ≡ true
    → (r : Swept) × ((reconcile_ghsa_linked_advisories g ext auto_publish sync_error by db).0
        ≡ some r)
      × Turns g ext auto_publish sync_error by
          (reverse (select is_swept db.advisories))
          db
          r
          (reconcile_ghsa_linked_advisories g ext auto_publish sync_error by db).1
      × Counted (length (reverse (select is_swept db.advisories))) r
reconcile_ghsa_linked_advisories-Counted g ext auto_publish sync_error by db on =
    let rows = reverse (select is_swept db.advisories) in
    rw (reconcile-eq-sweep g ext auto_publish sync_error by db on) (
      (sweep g ext auto_publish sync_error by rows db).0,
      refl,
      sweep-Turns g ext auto_publish sync_error by rows db,
      sweep-Counted g ext auto_publish sync_error by rows db,
    )
