-- ===== src/Ghsa/Pushes/Badge.antt =====
-- The badge of an advisory and its pushes (ghsa/services.py): no badge is pending without a push
-- that is queued or running, or a worker between its last two writes.
use advisoryhub.Prelude.{
  ℕ, ◌≡◌, ◌⊎◌, ◌∙◌, ap, refl, Bool, true, false, ◌==◌, ◌||◌, if◌then◌else◌, Option, none, some,
  List, [], ◌∷◌, Text, blank, get_row, modify_row, exists_row, select, passes,
  get_row-modify_row_self, get_row-modify_row_ne, get_row-key, exists_row_mono,
  exists_row-modify_mono, exists_row-spared, arith, Bool-cases, Option-cases, inl, inr,
}
use advisoryhub.Accounts.{Actor}
use advisoryhub.Advisory.{Advisory, GhsaCvePushStatus}
use advisoryhub.Tasks.{GhsaCvePushTask, GhsaCvePushTaskStatus}
use advisoryhub.Db.{Db, Result, ok, err, Post, save_advisory, record_action}
use advisoryhub.Workflows.Cve.{enqueue_cve_push}
use advisoryhub.Ghsa.Pushes.{
  is_live_push, is_failed_status, same_status, push_key, save_push, is_pending_badge, is_other_live,
  start_push, end_push, settle_badge, log_push, badge_succeeded, badge_failed, save_badge,
  requeue_all, requeued, enqueue_all, reap_push, reap_one_push, retry_all_failed_cve_pushes,
  flip_badge, push_stale_age_seconds, ended,
}

abbrev pub find_advisory : ℕ → Db → Option Advisory
find_advisory k db = get_row (λ (a : Advisory). a.pk) k db.advisories

abbrev pub find_push : ℕ → Db → Option GhsaCvePushTask
find_push k db = get_row push_key k db.cve_pushes

abbrev pub is_pending : Option Advisory → Bool
is_pending o = passes (λ a. is_pending_badge a.ghsa_cve_push_status) o

abbrev pub has_live : ℕ → Db → Bool
has_live k db = exists_row (is_live_push k) db.cve_pushes

-- The advisories whose badge some worker still owes: it has ended its push and has not yet written the
-- badge. A worker that is killed there owes it for ever.
abbrev pub Owed : Type 0
Owed = List ℕ

unfoldable pub is_owed : ℕ → Owed → Bool
is_owed k [] = false
is_owed k (j ∷ js) = j == k || is_owed k js

unfoldable pub drop_first : ℕ → Owed → Owed
drop_first k [] = []
drop_first k (j ∷ js) = let rest = drop_first k js in if j == k then js else j ∷ rest

is_owed-drop_first :
    (k j : ℕ) (owed : Owed) → k == j ≡ false → is_owed j (drop_first k owed) ≡ is_owed j owed
unfolding is_owed drop_first
is_owed-drop_first k j [] ne = refl
is_owed-drop_first k j (i ∷ owed) ne = ground (arith, ne, is_owed-drop_first k j owed ne)

-- A badge that is pending has a push behind it.
abbrev pub InStep : ℕ → Db → Type 0
InStep k db = is_pending (find_advisory k db) ≡ true → has_live k db ≡ true

-- A badge that is pending has a push behind it, or a worker that is about to write it.
abbrev pub InHand : ℕ → Db × Owed → Type 0
InHand k s = is_pending (find_advisory k s.0) ≡ true → has_live k s.0 || is_owed k s.1 ≡ true

-- One transaction: a push is queued, begins, ends as GitHub answered, has its badge written or its
-- ledger row; failed pushes are queued again; or one is reaped. A push ends with the task that its
-- worker holds, whose row has the same advisory, and its badge is owed from then on; a badge is
-- written by a worker that owes it.
pub data PushStep (reap_error : GhsaCvePushTaskStatus → ℕ → Text) (s : Db × Owed)
    : Db × Owed → Type 0 where
  enqueue :
      {db' : Db} (a : Advisory) (cve_id : Text) (by : Actor) (pk : ℕ)
      → enqueue_cve_push a cve_id by s.0 ≡ ok pk db'
      → PushStep reap_error s (db', s.1)
  start : (t : GhsaCvePushTask) → PushStep reap_error s (start_push t s.0, s.1)
  finish :
      (t row : GhsaCvePushTask) (answer : Option Text)
      → find_push t.pk s.0 ≡ some row
      → row.advisory ≡ t.advisory
      → PushStep reap_error s (end_push t answer s.0, t.advisory ∷ s.1)
  badge :
      (t : GhsaCvePushTask) (answer : Option Text)
      → is_owed t.advisory s.1 ≡ true
      → PushStep reap_error s (settle_badge t answer s.0, drop_first t.advisory s.1)
  logged :
      (t : GhsaCvePushTask) (answer : Option Text)
      → PushStep reap_error s (log_push t answer s.0, s.1)
  retry : PushStep reap_error s (retry_all_failed_cve_pushes s.0, s.1)
  reap :
      (pk : ℕ) (expected : GhsaCvePushTaskStatus)
      → PushStep reap_error s (reap_one_push reap_error pk expected s.0, s.1)

pub data PushRun (reap_error : GhsaCvePushTaskStatus → ℕ → Text) (s : Db × Owed)
    : Db × Owed → Type 0 where
  here : PushRun reap_error s s
  then_step :
      {s' s'' : Db × Owed}
      → PushRun reap_error s s'
      → PushStep reap_error s' s''
      → PushRun reap_error s s''

-- Reaping one push leaves everything as it is, or fails a push that is stale.
pub reap_one_push-cases :
    (reap_error : GhsaCvePushTaskStatus → ℕ → Text) (pk : ℕ) (expected : GhsaCvePushTaskStatus)
    (db : Db)
    → (reap_one_push reap_error pk expected db ≡ db)
      ⊎ ((t : GhsaCvePushTask) × (age : ℕ) × (find_push pk db ≡ some t)
          × (push_stale_age_seconds db t ≡ some age)
          × (reap_one_push reap_error pk expected db ≡ reap_push t (reap_error expected age) db))
unfolding reap_one_push
reap_one_push-cases reap_error pk expected db = elim (Option-cases (find_push pk db)) [
  | inl e ↦ inl (ground (arith, e))
  | inr (t, e) ↦ elim (Option-cases (push_stale_age_seconds db t)) [
    | inl fresh ↦ inl (ground (arith, e, fresh))
    | inr (age, stale) ↦ elim (Bool-cases (same_status t.status expected)) [
      | inl same ↦ inr (t, age, e, stale, ground (arith, e, same, stale))
      | inr moved ↦ inl (ground (arith, e, moved))
    ]
  ]
]

module _ (k : ℕ) where
  enqueue-InStep :
      (a : Advisory) (cve_id : Text) (by : Actor) (db : Db)
      → InStep k db
      → Post (enqueue_cve_push a cve_id by db) (λ pk db'. InStep k db')
  unfolding enqueue_cve_push save_advisory record_action
  enqueue-InStep a cve_id by db h = ground (
    arith,
    h,
    get_row-modify_row_ne (λ (a : Advisory). a.pk)
        (λ a. record a { ghsa_cve_push_status = GhsaCvePushStatus.pending }) (λ x. refl) k a.pk
        db.advisories,
  )

  start-InStep : (t : GhsaCvePushTask) (db : Db) → InStep k db → InStep k (start_push t db)
  unfolding start_push
  start-InStep t db h p =
      exists_row-modify_mono push_key _ (is_live_push k) t.pk db.cve_pushes
        (λ x e. ground (arith, e)) (h p)

  requeue-InStep :
      (ts : List GhsaCvePushTask) (db : Db) → InStep k db → InStep k (requeue_all ts db)
  unfolding requeue_all
  requeue-InStep [] db h = h
  requeue-InStep (t ∷ ts) db h = requeue-InStep ts (save_push t.pk requeued db) (λ p.
      exists_row-modify_mono push_key requeued (is_live_push k) t.pk db.cve_pushes
        (λ x e. ground (arith, e)) (h p))

  enqueue_all-InStep :
      (ts : List GhsaCvePushTask) (db : Db) → InStep k db → InStep k (enqueue_all ts db)
  enqueue_all-InStep [] db h = h
  enqueue_all-InStep (t ∷ ts) db h = enqueue_all-InStep ts _ h

  -- A push that is written as not live any more, and a badge that is written with it.
  closes :
      (f : GhsaCvePushTask → GhsaCvePushTask) (g : Advisory → Advisory) (t : GhsaCvePushTask)
      (j : ℕ) (db : Db)
      → ((a : Advisory) → (g a).pk ≡ a.pk)
      → ((a : Advisory) → is_pending_badge (g a).ghsa_cve_push_status ≡ false)
      → find_push j db ≡ some t
      → InStep k db
      → is_pending (
          get_row
            (λ (a : Advisory). a.pk)
            k
            (modify_row (λ (a : Advisory). a.pk) t.advisory g db.advisories))
        ≡ true
      → exists_row (is_live_push k) (modify_row push_key j f db.cve_pushes) ≡ true
  closes f g t j db same closed found h p = elim (Bool-cases (t.advisory == k)) [
    | inl its_own ↦
        let e : t.advisory ≡ k = ground (arith, its_own) in
        let w = get_row-modify_row_self (λ (a : Advisory). a.pk) g same k db.advisories in
        elim (Option-cases (find_advisory k db)) [
          | inl none_there ↦ ground (arith, e, w, none_there, p)
          | inr (a, there) ↦ ground (arith, e, w, there, p, closed a)
        ]
    | inr other ↦
        exists_row-spared push_key f (is_live_push k) j t db.cve_pushes found
          (ground (arith, other))
          (h (
            ground (
              arith,
              other,
              p,
              get_row-modify_row_ne (λ (a : Advisory). a.pk) g same k t.advisory db.advisories,
            )))
  ]

  -- What a step does to a badge that nobody owes, it does to one that may be owed.
  keeps_owed :
      (owed : Owed) (db db' : Db)
      → (InStep k db → InStep k db')
      → InHand k (db, owed)
      → InHand k (db', owed)
  keeps_owed owed db db' step h p = elim (Bool-cases (is_owed k owed)) [
    | inl owes ↦ ground (arith, owes)
    | inr free ↦ ground (arith, free, step (λ q. ground (arith, free, h q)) p)
  ]

  spared-InStep :
      (f : GhsaCvePushTask → GhsaCvePushTask) (t row : GhsaCvePushTask) (db : Db)
      → find_push t.pk db ≡ some row
      → row.advisory ≡ t.advisory
      → t.advisory == k ≡ false
      → InStep k db
      → InStep k (save_push t.pk f db)
  spared-InStep f t row db found same other h p =
      exists_row-spared push_key f (is_live_push k) t.pk row db.cve_pushes found
        (ground (arith, other, same)) (h p)

  -- A push that ends, as the badge is owed for it.
  end-InHand :
      (t row : GhsaCvePushTask) (answer : Option Text) (db : Db) (owed : Owed)
      → find_push t.pk db ≡ some row
      → row.advisory ≡ t.advisory
      → InHand k (db, owed)
      → InHand k (end_push t answer db, t.advisory ∷ owed)
  unfolding end_push is_owed
  end-InHand t row answer db owed found same h p = elim (Bool-cases (t.advisory == k)) [
    | inl its_own ↦ ground (arith, its_own)
    | inr other ↦ spared answer other p
  ]
    where
      spared :
          (answer : Option Text)
          → t.advisory == k ≡ false
          → is_pending (find_advisory k (end_push t answer db)) ≡ true
          → has_live k (end_push t answer db) || (t.advisory == k || is_owed k owed) ≡ true
      spared none other p =
          let f = ended GhsaCvePushTaskStatus.succeeded blank db.now in
          rw other (
            keeps_owed owed db (save_push t.pk f db) (spared-InStep f t row db found same other) h
              p)
      spared (some error) other p =
          let f = ended GhsaCvePushTaskStatus.failed error db.now in
          rw other (
            keeps_owed owed db (save_push t.pk f db) (spared-InStep f t row db found same other) h
              p)

  badge_closes :
      (g : Advisory → Advisory) (j : ℕ) (db : Db) (owed : Owed)
      → ((a : Advisory) → (g a).pk ≡ a.pk)
      → ((a : Advisory) → is_pending_badge (g a).ghsa_cve_push_status ≡ false)
      → InHand k (db, owed)
      → InHand k (save_badge j g db, drop_first j owed)
  badge_closes g j db owed same closed h p = elim (Bool-cases (j == k)) [
    | inl its_own ↦
        let e : j ≡ k = ground (arith, its_own) in
        let w = get_row-modify_row_self (λ (a : Advisory). a.pk) g same k db.advisories in
        elim (Option-cases (find_advisory k db)) [
          | inl none_there ↦ ground (arith, e, w, none_there, p)
          | inr (a, there) ↦ ground (arith, e, w, there, p, closed a)
        ]
    | inr other ↦ ground (
      arith,
      other,
      p,
      is_owed-drop_first j k owed other,
      get_row-modify_row_ne (λ (a : Advisory). a.pk) g same k j db.advisories,
      h,
    )
  ]

  badge-InHand :
      (t : GhsaCvePushTask) (answer : Option Text) (db : Db) (owed : Owed)
      → InHand k (db, owed)
      → InHand k (settle_badge t answer db, drop_first t.advisory owed)
  unfolding settle_badge
  badge-InHand t none db owed h =
      badge_closes (badge_succeeded db.now) t.advisory db owed (λ a. refl) (λ a. refl) h
  badge-InHand t (some error) db owed h =
      badge_closes (badge_failed db.now) t.advisory db owed (λ a. refl) (λ a. refl) h

  logged-InStep :
      (t : GhsaCvePushTask) (answer : Option Text) (db : Db)
      → InStep k db
      → InStep k (log_push t answer db)
  unfolding log_push
  logged-InStep t none db h = h
  logged-InStep t (some error) db h = h

  reap_push-InStep :
      (t : GhsaCvePushTask) (error : Text) (db : Db)
      → find_push t.pk db ≡ some t
      → InStep k db
      → InStep k (reap_push t error db)
  unfolding reap_push
  reap_push-InStep t error db found h = elim (Bool-cases (exists_row (is_other_live t) marked)) [
    | inl others ↦ rw others (λ p. still others p)
    | inr alone ↦ rw alone (λ p.
        closes (ended GhsaCvePushTaskStatus.failed error db.now) (flip_badge db.now) t t.pk db
          (λ a. ground arith) (λ a. ground arith) found h p)
  ]
    where
      marked : List GhsaCvePushTask
      marked =
          modify_row push_key t.pk (ended GhsaCvePushTaskStatus.failed error db.now) db.cve_pushes

      still :
          exists_row (is_other_live t) marked ≡ true
          → is_pending (find_advisory k db) ≡ true
          → exists_row (is_live_push k) marked ≡ true
      still others p = elim (Bool-cases (t.advisory == k)) [
        | inl its_own ↦
            exists_row_mono (is_other_live t) (is_live_push k) marked
              (λ x e. ground (arith, its_own, e)) others
        | inr other ↦
            exists_row-spared push_key (ended GhsaCvePushTaskStatus.failed error db.now)
              (is_live_push k) t.pk t db.cve_pushes found (ground (arith, other)) (h p)
      ]

  reap-InStep :
      (reap_error : GhsaCvePushTaskStatus → ℕ → Text) (pk : ℕ) (expected : GhsaCvePushTaskStatus)
      (db : Db)
      → InStep k db
      → InStep k (reap_one_push reap_error pk expected db)
  reap-InStep reap_error pk expected db h = elim (reap_one_push-cases reap_error pk expected db) [
    | inl same ↦ rw same h
    | inr (t, age, found, stale, reaped) ↦
        let key = get_row-key push_key pk t db.cve_pushes found in
        rw reaped
          (reap_push-InStep t (reap_error expected age) db (ap (λ j. find_push j db) key ∙ found) h)
  ]

returned :
    {A : Type 0} (P : Db → Type 0) (r : Result A) (a : A) (db : Db)
    → Post r (λ _ db. P db)
    → r ≡ ok a db
    → P db
returned P (ok b db') a db h e = rw (← same) h
  where
    same : db' ≡ db
    same = ground (arith, e)
returned P (err x) a db h e = ground (arith, e)

step-InHand :
    {reap_error : GhsaCvePushTaskStatus → ℕ → Text} {s s' : Db × Owed} (k : ℕ)
    → PushStep reap_error s s'
    → InHand k s
    → InHand k s'
unfolding retry_all_failed_cve_pushes
step-InHand {s = (db, owed)} k (enqueue {db' = db'} a cve_id by pk e) h =
    keeps_owed k owed db db'
      (λ i.
        returned (InStep k) (enqueue_cve_push a cve_id by db) pk db'
          (enqueue-InStep k a cve_id by db i) e)
      h
step-InHand {s = (db, owed)} k (start t) h =
    keeps_owed k owed db (start_push t db) (start-InStep k t db) h
step-InHand {s = (db, owed)} k (finish t row answer found same) h =
    end-InHand k t row answer db owed found same h
step-InHand {s = (db, owed)} k (badge t answer owes) h = badge-InHand k t answer db owed h
step-InHand {s = (db, owed)} k (logged t answer) h =
    keeps_owed k owed db (log_push t answer db) (logged-InStep k t answer db) h
step-InHand {s = (db, owed)} k retry h =
    let failed = select (λ (t : GhsaCvePushTask). is_failed_status t.status) db.cve_pushes in
    keeps_owed k owed db (enqueue_all failed (requeue_all failed db))
      (λ i. enqueue_all-InStep k failed (requeue_all failed db) (requeue-InStep k failed db i)) h
step-InHand {reap_error = reap_error} {s = (db, owed)} k (reap pk expected) h =
    keeps_owed k owed db (reap_one_push reap_error pk expected db)
      (reap-InStep k reap_error pk expected db) h

-- However pushes are queued, begin, end as GitHub answers, have their badge written, are queued again
-- after a failure and are reaped, in whatever order and with other transactions of these between the
-- task's last write and the badge's: an advisory whose badge is pending has a push that is queued or
-- running, or a worker that has ended its push and not yet written the badge, where this held at the
-- start. A worker that is killed at that point leaves the badge owed.
pub PushRun-InHand :
    {reap_error : GhsaCvePushTaskStatus → ℕ → Text} {s s' : Db × Owed} (k : ℕ)
    → PushRun reap_error s s'
    → InHand k s
    → InHand k s'
PushRun-InHand k here h = h
PushRun-InHand k (then_step r s) h = step-InHand k s (PushRun-InHand k r h)
