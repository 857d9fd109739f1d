-- ===== src/Publication/Reaper/Stale.antt =====
-- What the reaper does to the runs.
use Prim.Native.Nat.{◌/◌}
use advisoryhub.Prelude.{
  ℕ, ◌+◌, ◌-◌, ltb, false, get_row-select, ◌≡◌, ◌⊎◌, refl, true, Option, none, some, List, [], ◌∷◌,
  is_some, Text, select, get_row, get_row-modify_row_self, get_row-modify_row_ne, get_row-key,
  arith, Option-cases, Bool-cases, ◌==◌, inl, inr,
}
use advisoryhub.Tasks.{PublicationTask, PublicationTaskStatus}
use advisoryhub.Db.{Db}
use advisoryhub.Publication.Run.{save_run, failed}
use advisoryhub.Publication.Reaper.{
  same_status, over, microseconds, candidate_at, stale_age_seconds, stale_age_at, is_candidate,
  reap, reap_one, reap_all, reap_stale_tasks,
}

abbrev run_key : PublicationTask → ℕ
run_key t = t.pk

abbrev pub find_run : ℕ → Db → Option PublicationTask
find_run k db = get_row run_key k db.publications

abbrev pub HasFailed : Option PublicationTask → Type 0
HasFailed none = ⊥
HasFailed (some t) = t.status ≡ PublicationTaskStatus.failed

-- A run is as it was, or was stale at the start and has failed; nothing else is touched.
abbrev pub Reaped : Db → ℕ → PublicationTask → Db → Type 0
Reaped db k t db' =
    (db'.now ≡ db.now)
    × (db'.settings ≡ db.settings)
    × (db'.advisories ≡ db.advisories)
    × (find_run k db' ≡ some t
        ⊎ (is_some (stale_age_seconds db t) ≡ true) × HasFailed (find_run k db'))

age_at-same :
    (s : PublicationTaskStatus) (db db1 : Db) (t : PublicationTask)
    → db1.now ≡ db.now
    → db1.settings ≡ db.settings
    → stale_age_at s db1 t ≡ stale_age_at s db t
unfolding stale_age_at
age_at-same PublicationTaskStatus.running db db1 t n e = rw (n, e) refl
age_at-same PublicationTaskStatus.queued db db1 t n e = rw (n, e) refl
age_at-same PublicationTaskStatus.succeeded db db1 t n e = refl
age_at-same PublicationTaskStatus.failed db db1 t n e = refl

age-same :
    (db db1 : Db) (t : PublicationTask)
    → db1.now ≡ db.now
    → db1.settings ≡ db.settings
    → stale_age_seconds db1 t ≡ stale_age_seconds db t
unfolding stale_age_seconds
age-same db db1 t n e = age_at-same t.status db db1 t n e

threshold_lem :
    (now anchor seconds age : ℕ)
    → over seconds ((now - anchor) / 1000000) ≡ some age
    → ltb (anchor + microseconds seconds) now ≡ true
threshold_lem now anchor seconds age e = ground (arith, e)

-- A run that is past its limit in whole seconds is a candidate.
candidate-stale :
    (s : PublicationTaskStatus) (db : Db) (t : PublicationTask) (age : ℕ)
    → stale_age_at s db t ≡ some age
    → candidate_at s db t ≡ true
unfolding stale_age_at candidate_at
candidate-stale PublicationTaskStatus.running db t age e = elim (Option-cases t.started_at) [
  | inl never ↦ ground (
    arith,
    never,
    e,
    threshold_lem db.now t.created_at db.settings.pub_task_stale_running_after_seconds age,
  )
  | inr (at, begun) ↦ ground (
    arith,
    begun,
    e,
    threshold_lem db.now at db.settings.pub_task_stale_running_after_seconds age,
  )
]
candidate-stale PublicationTaskStatus.queued db t age e =
    threshold_lem db.now t.created_at db.settings.pub_task_stale_queued_after_seconds age e
candidate-stale PublicationTaskStatus.succeeded db t age e = ground (arith, e)
candidate-stale PublicationTaskStatus.failed db t age e = ground (arith, e)

same_status_refl : (s : PublicationTaskStatus) → same_status s s ≡ true
same_status_refl PublicationTaskStatus.queued = refl
same_status_refl PublicationTaskStatus.running = refl
same_status_refl PublicationTaskStatus.succeeded = refl
same_status_refl PublicationTaskStatus.failed = refl

module _ (reap_error : PublicationTaskStatus → ℕ → Text) (db : Db) (k : ℕ)
    (t : PublicationTask) where
  reap_one-Reaped :
      (pk : ℕ) (s : PublicationTaskStatus) (db1 : Db)
      → Reaped db k t db1
      → Reaped db k t (reap_one reap_error pk s db1)
  unfolding reap_one reap save_run
  reap_one-Reaped pk s db1 h = elim (Option-cases (get_row run_key pk db1.publications)) [
    | inl e ↦ ground (arith, e, h)
    | inr (u, e) ↦
        let key = get_row-key run_key pk u db1.publications e in
        let same = age-same db db1 u h.0 h.1 in
        let self = λ (error : Text).
          get_row-modify_row_self run_key (failed db1.now error) (λ x. refl) u.pk
            db1.publications in
        let other = λ (error : Text).
          get_row-modify_row_ne run_key (failed db1.now error) (λ x. refl) k u.pk
            db1.publications in
        elim (Option-cases (stale_age_seconds db1 u)) [
          | inl fresh ↦ ground (arith, e, h, fresh)
          | inr (age, stale) ↦
              ground
                (arith, e, h, key, same, stale, self (reap_error s age), other (reap_error s age))
        ]
  ]

  reap_all-Reaped :
      (ts : List PublicationTask) (db1 : Db)
      → Reaped db k t db1
      → Reaped db k t (reap_all reap_error ts db1)
  unfolding reap_all
  reap_all-Reaped [] db1 h = h
  reap_all-Reaped (x ∷ xs) db1 h =
      reap_all-Reaped xs (reap_one reap_error x.pk x.status db1)
        (reap_one-Reaped x.pk x.status db1 h)

  reap_stale_tasks-Reaped : find_run k db ≡ some t → Reaped db k t (reap_stale_tasks reap_error db)
  unfolding reap_stale_tasks
  reap_stale_tasks-Reaped found =
      reap_all-Reaped (select (is_candidate db) db.publications) db (refl, refl, refl, inl found)

  -- A run that has failed is never reaped again.
  reap_one-HasFailed :
      (pk : ℕ) (s : PublicationTaskStatus) (db1 : Db)
      → HasFailed (find_run k db1)
      → HasFailed (find_run k (reap_one reap_error pk s db1))
  unfolding reap_one reap save_run
  reap_one-HasFailed pk s db1 h = elim (Option-cases (get_row run_key pk db1.publications)) [
    | inl e ↦ ground (arith, e, h)
    | inr (u, e) ↦
        let key = get_row-key run_key pk u db1.publications e in
        let self = λ (error : Text).
          get_row-modify_row_self run_key (failed db1.now error) (λ x. refl) u.pk
            db1.publications in
        let other = λ (error : Text).
          get_row-modify_row_ne run_key (failed db1.now error) (λ x. refl) k u.pk
            db1.publications in
        elim (Option-cases (stale_age_seconds db1 u)) [
          | inl fresh ↦ ground (arith, e, h, fresh)
          | inr (age, stale) ↦
              ground (arith, e, h, key, stale, self (reap_error s age), other (reap_error s age))
        ]
  ]

  -- The turn of a stale run.
  reap_one-fails :
      (age : ℕ) (db1 : Db)
      → stale_age_seconds db t ≡ some age
      → find_run k db1 ≡ some t
      → db1.now ≡ db.now
      → db1.settings ≡ db.settings
      → HasFailed (find_run k (reap_one reap_error k t.status db1))
  unfolding reap_one reap save_run
  reap_one-fails age db1 stale found n e = ground (
    arith,
    found,
    same_status_refl t.status,
    age-same db db1 t n e,
    stale,
    get_row-key run_key k t db1.publications found,
    get_row-modify_row_self run_key (failed db1.now (reap_error t.status age)) (λ x. refl) k
        db1.publications,
  )

  reap_all-HasFailed :
      (ts : List PublicationTask) (db1 : Db)
      → HasFailed (find_run k db1)
      → HasFailed (find_run k (reap_all reap_error ts db1))
  unfolding reap_all
  reap_all-HasFailed [] db1 h = h
  reap_all-HasFailed (x ∷ xs) db1 h =
      reap_all-HasFailed xs (reap_one reap_error x.pk x.status db1)
        (reap_one-HasFailed x.pk x.status db1 h)

  -- Whoever has its turn has failed in the end.
  reap_all-fails :
      (age : ℕ) (ts : List PublicationTask) (db1 : Db)
      → stale_age_seconds db t ≡ some age
      → Reaped db k t db1
      → get_row run_key k ts ≡ some t
      → HasFailed (find_run k (reap_all reap_error ts db1))
  unfolding reap_all
  reap_all-fails age [] db1 stale h e = ground (arith, e)
  reap_all-fails age (x ∷ xs) db1 stale h e =
      let next = reap_one-Reaped x.pk x.status db1 h in
      elim h.3 [
        | inr gone ↦ reap_all-HasFailed (x ∷ xs) db1 gone.1
        | inl there ↦ elim (Bool-cases (x.pk == k)) [
          | inr other ↦
              reap_all-fails age xs (reap_one reap_error x.pk x.status db1) stale next
                (ground (arith, other, e))
          | inl its_turn ↦ reap_all-HasFailed xs (reap_one reap_error x.pk x.status db1) (
              turn (ground (arith, its_turn, e)) (ground (arith, its_turn))
                (reap_one-fails age db1 stale there h.0 h.1))
        ]
      ]
    where
      turn :
          x ≡ t
          → x.pk ≡ k
          → HasFailed (find_run k (reap_one reap_error k t.status db1))
          → HasFailed (find_run k (reap_one reap_error x.pk x.status db1))
      turn a b f = rw (b, a) f

  -- One sweep of the reaper touches no advisory, fails every run that is older in whole seconds
  -- than the limit for its status, and leaves every other run as it is.
  pub reap_stale_tasks_outcome :
      find_run k db ≡ some t
      → let db' = reap_stale_tasks reap_error db in
        (db'.advisories ≡ db.advisories)
        × (is_some (stale_age_seconds db t) ≡ true → HasFailed (find_run k db'))
        × (is_some (stale_age_seconds db t) ≡ false → find_run k db' ≡ some t)
  unfolding reap_stale_tasks stale_age_seconds is_candidate
  reap_stale_tasks_outcome found =
      let reaped = reap_stale_tasks-Reaped found in
      (
        reaped.2,
        λ stale. elim (Option-cases (stale_age_seconds db t)) [
          | inl fresh ↦ ground (arith, fresh, stale)
          | inr (age, e) ↦
              reap_all-fails age (select (is_candidate db) db.publications) db e
                (refl, refl, refl, inl found)
                (get_row-select run_key (is_candidate db) k t db.publications found
                  (candidate-stale t.status db t age e))
        ],
        λ fresh. elim reaped.3 [ inl same ↦ same | inr gone ↦ ground (arith, fresh, gone.0) ],
      )
