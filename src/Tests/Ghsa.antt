-- ===== src/Tests/Ghsa.antt =====
-- A linked advisory and GitHub's payload of it.
use advisoryhub.Prelude.{
  ℕ, ◌≡◌, ◌≢◌, ◌⊎◌, refl, Bool, true, false, ◌&&◌, ◌||◌, leb, none, some, [], ◌∷◌, ◌++◌, ◌-◌, map,
  Text, blank, codes, strip, is_space, text_eq, if◌then◌else◌,
}
use advisoryhub.Accounts.{Actor}
use advisoryhub.Advisory.{
  Advisory, GhsaCvePushStatus, GhsaState, Kind, State, is_ghsa_linked, to_payload, payload_eq,
}
use advisoryhub.Tasks.{GhsaCvePushTask, GhsaCvePushTaskStatus}
use advisoryhub.Db.{Db, Error, Returns, save_advisory, record_action, record_action_note}
use advisoryhub.Lifecycle.Dismissal.{withdraw_advisory}
use advisoryhub.Lifecycle.Requests.{clear_withdrawal_request_if_pending}
use advisoryhub.Documents.{done, Whenever}
use advisoryhub.Documents.Json.{
  Json, null, boolean, number, string, array, object, Items, no_items, item, Fields, no_fields,
  field,
}
use advisoryhub.Documents.Lists.{every, truncate, first_of_each}
use advisoryhub.Documents.Cve.{read_events}
use advisoryhub.Documents.Cve.Ranges.{osv_affected}
use advisoryhub.Documents.Validators.{is_safe_reference_url}
use advisoryhub.Workflows.{is_end, load_advisory}
use advisoryhub.Ghsa.Versions.{find_ranges, parse_vulnerable_range, Operator}
use advisoryhub.Ghsa.Versions.Meaning.{satisfies, has_upper, before, parse_vulnerable_range-affect}
use advisoryhub.Ghsa.Ecosystems.{lower_ascii, ghsa_ecosystem, normalise_ecosystem-ghsa_ecosystem}
use advisoryhub.Ghsa.Packages.{normalise_ecosystem}
use advisoryhub.Ghsa.Accepted.{Valid, translate-Valid}
use advisoryhub.Ghsa.Versions.{pair}
use advisoryhub.Ghsa.Packages.{affected_entry, translate_affected}
use advisoryhub.Ghsa.Links.{reference, credit_kind, translate_references, translate_credits}
use advisoryhub.Ghsa.Fields.{
  is_ghsa_id, drop_letters, translate_severity, translate_cwes, translate_aliases, translate_state,
  extract_cve_id,
}
use advisoryhub.Ghsa.Apply.{
  Translated, TranslateResult, translate, to_content, changed_columns, apply_ghsa_to_advisory,
}
use advisoryhub.Ghsa.Sync.{Fetched, Github, payload, sync_single_ghsa, sync_fetched, sync_missing}
use advisoryhub.Ghsa.Publish.{syncing, publish_linked}
use advisoryhub.Ghsa.Pushes.{
  start_push, end_push, settle_badge, reap_stale_cve_push_tasks, reap_pushes, is_candidate,
  retry_all_failed_cve_pushes,
}
use advisoryhub.Ghsa.Pushes.Badge.{
  InHand, PushRun, PushStep, PushRun-InHand, drop_first, is_owed, is_pending, find_advisory,
  has_live,
}
use advisoryhub.Ghsa.Sweep.{Swept, sweep, turn, continue, reconcile_ghsa_linked_advisories}
use advisoryhub.Ghsa.Sweep.Counts.{Counted, Turns, reconcile_ghsa_linked_advisories-Counted}
use advisoryhub.Ghsa.React.{react_to_ghsa_state, retract}
use advisoryhub.Ghsa.React.Kept.{react_to_ghsa_state-holding}
use advisoryhub.Publication.{Export, publish, publish_gate}
use advisoryhub.Permissions.Review.{can_publish}
use advisoryhub.Permissions.{
  is_global_admin, is_mature_publisher_member, is_security_team_member, group_state,
}
use advisoryhub.Versions.{latest_version, record_advisory_version}
use advisoryhub.Workflows.Review.Pending.{find}
use advisoryhub.Tests.Data.{admin, draft, with_rows, version, run_db, settings}

-- `str.lower` and `str.upper` on ASCII.
abbrev lower : Text → Text
lower s = map lower_ascii s

abbrev upper : Text → Text
upper s = map (λ c. if leb 97 c && leb c 122 then c - 32 else c) s

abbrev is_decimal : ℕ → Bool
is_decimal c = leb 48 c && leb c 57

-- Versions are ordered by their first character, from "0" on.
abbrev rank : Text → ℕ
rank [] = 0
rank (c ∷ s) = c - 48

found_two :
    find_ranges 0 (codes ">= 1.0, < 3.5")
    ≡ (Operator.at_least, codes "1.0") ∷ (Operator.under, codes "3.5") ∷ []
unfolding find_ranges
found_two = refl

-- An operator without a version gives its sign away.
found_sign : find_ranges 0 (codes ">= , 2") ≡ (Operator.above, codes "=") ∷ []
unfolding find_ranges
found_sign = refl

parse_vulnerable_range-affect_example :
    osv_affected rank 2 false
      (read_events (parse_vulnerable_range (codes ">= 1.0, < 3.5") (codes "4")))
    ≡ every (satisfies rank 2) (find_ranges 0 (codes ">= 1.0, < 3.5"))
      && (has_upper (find_ranges 0 (codes ">= 1.0, < 3.5")) || before rank 2 (codes "4"))
unfolding find_ranges strip is_space
parse_vulnerable_range-affect_example =
    parse_vulnerable_range-affect rank (codes ">= 1.0, < 3.5") (codes "4") 2 refl refl refl refl

normalise_ecosystem-ghsa_ecosystem_example :
    normalise_ecosystem lower (ghsa_ecosystem lower (codes "PyPI")) ≡ codes "PyPI"
normalise_ecosystem-ghsa_ecosystem_example =
    (normalise_ecosystem-ghsa_ecosystem lower (λ s ascii. refl)).0 (codes "PyPI") refl

abbrev url_valid : Text → Bool
url_valid s = text_eq (truncate 6 s) (codes "https:")

abbrev one : Text → Text → Json
one k v = object (field k (string v) no_fields)

-- Two references, one of them not web-safe; a credit, twice; a vulnerable package.
abbrev advisory_payload : Json
advisory_payload = object (
    field (codes "summary") (string (codes "XSS in Jetty")) (
      field (codes "ghsa_id") (string (codes "GHSA-abcd-efgh-2345")) (
        field (codes "state") (string (codes "published")) (
          field (codes "severity") (string (codes "high")) (
            field (codes "references")
              (array (
                item (string (codes "https://x.org/a"))
                  (item (string (codes "javascript:a")) no_items)))
              (field (codes "credits")
                (array
                  (item (string (codes "ada")) (item (one (codes "login") (codes "ada")) no_items)))
                (field (codes "vulnerabilities")
                  (array (
                    item
                      (object (
                        field (codes "package") (one (codes "name") (codes "jetty")) (
                          field (codes "vulnerable_version_range") (string (codes "< 3"))
                            no_fields)))
                      no_items))
                  no_fields)))))))

translate-Valid_example :
    Whenever (translate upper lower is_decimal url_valid advisory_payload) (Valid url_valid)
translate-Valid_example = translate-Valid upper lower is_decimal url_valid advisory_payload

-- A JSON value as a text of its own.
mutual
  show : Json → Text
  show null = codes "n"
  show (boolean b) = if b then codes "t" else codes "f"
  show (number n) = n ∷ []
  show (string s) = codes "'" ++ s ++ codes "'"
  show (array is) = codes "[" ++ show_items is ++ codes "]"
  show (object fs) = codes "{" ++ show_fields fs ++ codes "}"

  show_items : Items → Text
  show_items no_items = []
  show_items (item j is) = show j ++ codes "," ++ show_items is

  show_fields : Fields → Text
  show_fields no_fields = []
  show_fields (field k j fs) = k ++ codes ":" ++ show j ++ codes "," ++ show_fields fs

abbrev github : Github
github = record {
  upper = upper;
  lower = lower;
  is_decimal = is_decimal;
  url_valid = url_valid;
  dump = show;
  get_advisory = λ owner repo id. payload advisory_payload;
}

abbrev linked : Advisory
linked = record draft {
  kind = Kind.ghsa_linked;
  ghsa_id = codes "GHSA-abcd-efgh-2345";
  ghsa_owner = codes "eclipse";
  ghsa_repo = codes "jetty";
}

-- The row has been locked for comments since the copy was read.
abbrev moved : Advisory
moved = record linked { comments_locked = true }

abbrev translated : Translated
translated = record {
  summary = codes "XSS in Jetty";
  details = blank;
  severity = pair (codes "type") (codes "Ubuntu") (codes "score") (codes "high") ∷ [];
  cwe_ids = [];
  aliases = codes "GHSA-abcd-efgh-2345" ∷ [];
  references = reference (codes "WEB") (codes "https://x.org/a") ∷ [];
  affected = affected_entry lower (codes "jetty") blank (codes "< 3") blank ∷ [];
  credits = (codes "ada", codes "REPORTER") ∷ [];
}

abbrev result : TranslateResult
result = record {
  changed_field_names = changed_columns (to_content show translated) linked.content;
  cve_id_from_ghsa = none;
  ghsa_state = GhsaState.published;
}

abbrev applied : Advisory
applied = record linked { content = to_content show translated }

applied_so :
    apply_ghsa_to_advisory show upper lower is_decimal url_valid linked advisory_payload
    ≡ done (result, applied)
unfolding apply_ghsa_to_advisory translate translate_severity translate_cwes translate_aliases
    translate_references translate_affected translate_credits translate_state extract_cve_id
    first_of_each strip is_space truncate is_safe_reference_url is_end show changed_columns
    is_ghsa_id drop_letters parse_vulnerable_range normalise_ecosystem find_ranges credit_kind
applied_so = refl

may_publish : can_publish (with_rows moved) (Actor.account admin) moved ≡ true
unfolding can_publish is_global_admin is_mature_publisher_member is_security_team_member group_state
may_publish = refl

latest_so : latest_version 7 (with_rows moved) ≡ some (version blank)
unfolding latest_version
latest_so = refl

published_there : Export
published_there = Export.pushed (codes "a1b2")

publish_linked_example :
    (t : Translated) × (translate upper lower is_decimal url_valid advisory_payload ≡ done t)
    × Returns
        (publish
          (syncing github (λ task. published_there) (λ text. text))
          linked
          (Actor.account admin)
          false
          false
          (with_rows moved))
        (λ run db'.
          (run.version.payload.content ≡ to_content show t)
          × (a : Advisory) × (find 7 db' ≡ some a)
          × (a.content ≡ to_content show t)
          × (a.state ≡ State.draft)
          × (a.assigned_cve_id ≡ blank))
unfolding to_payload
publish_linked_example =
    publish_linked github (λ task. published_there) (λ text. text) linked moved
      (Actor.account admin) (with_rows moved) (version blank) advisory_payload result applied refl
      may_publish refl refl refl refl refl applied_so refl refl refl latest_so refl

-- A push that GitHub refuses.
abbrev push : GhsaCvePushTask
push = record {
  pk = 20;
  advisory = 7;
  cve_id = codes "CVE-2025-0001";
  requested_by = some 1;
  status = GhsaCvePushTaskStatus.queued;
  attempts = 0;
  last_error = blank;
  started_at = none;
  finished_at = none;
  created_at = 0;
}

abbrev pushing : Db
pushing = record (with_rows (record linked { ghsa_cve_push_status = GhsaCvePushStatus.pending })) {
  cve_pushes = push ∷ [];
}

PushRun-InHand_example : InHand 7 (
  retry_all_failed_cve_pushes (
      settle_badge push
        (some (codes "403"))
        (end_push push (some (codes "403")) (start_push push pushing))),
  [],
)
unfolding start_push end_push drop_first is_owed
PushRun-InHand_example =
    PushRun-InHand {reap_error = λ status age. codes "stale"} {s = (pushing, [])} 7
      (PushRun.then_step
        (PushRun.then_step
          (PushRun.then_step (PushRun.then_step PushRun.here (PushStep.start push)) (
            PushStep.finish push
              (record push {
                status = GhsaCvePushTaskStatus.running;
                attempts = 1;
                started_at = some 5000000000;
              })
              (some (codes "403")) refl refl))
          (PushStep.badge push (some (codes "403")) refl))
        PushStep.retry)
      (λ pending. refl)

-- A worker that is killed between its last two writes: the badge is pending for ever, as no push is
-- left that the reaper would find.
killed_between : Db
killed_between = end_push push (some (codes "403")) (start_push push pushing)

badge_stays_pending :
    (is_pending (
        find_advisory 7 (
          reap_stale_cve_push_tasks
            (λ status age. codes "stale")
            (record killed_between { now = 900000000000000 })))
      ≡ true)
    × (has_live 7 killed_between ≡ false)
unfolding killed_between end_push start_push reap_stale_cve_push_tasks reap_pushes is_candidate
badge_stays_pending = (refl, refl)

reconcile_ghsa_linked_advisories-Counted_example :
    (r : Swept) × ((reconcile_ghsa_linked_advisories github
        (syncing github (λ task. published_there) (λ text. text))
        true
        (codes "403")
        Actor.nobody
        (with_rows moved)).0
      ≡ some r)
    × Turns github
        (syncing github (λ task. published_there) (λ text. text))
        true
        (codes "403")
        Actor.nobody
        (moved ∷ [])
        (with_rows moved)
        r
        (reconcile_ghsa_linked_advisories github
          (syncing github (λ task. published_there) (λ text. text))
          true
          (codes "403")
          Actor.nobody
          (with_rows moved)).1
    × Counted 1 r
reconcile_ghsa_linked_advisories-Counted_example =
    reconcile_ghsa_linked_advisories-Counted github
      (syncing github (λ task. published_there) (λ text. text)) true (codes "403") Actor.nobody
      (with_rows moved) refl

abbrev held : Advisory
held = record linked { assigned_cve_id = codes "CVE-2025-0001"; ghsa_state = GhsaState.withdrawn }

react_to_ghsa_state-holding_example :
    Returns
      (react_to_ghsa_state
        (syncing github (λ task. published_there) (λ text. text))
        true
        held
        (record { changed = []; conflict = false; missing_upstream = true })
        Actor.nobody
        (with_rows held))
      (λ u db'.
        ((k : ℕ) → k ≢ 7 → find k db' ≡ find k (with_rows held))
        × (find 7 db' ≡ some held
            ⊎ (find 7 db' ≡ some (record held { state = State.draft }))
              × (held.state ≡ State.triage)
              × (held.ghsa_state ≡ GhsaState.draft)
              × (is_ghsa_linked held.kind ≡ true))
        × (db'.orphans ≡ [])
        × (db'.publications ≡ []))
react_to_ghsa_state-holding_example =
    react_to_ghsa_state-holding (syncing github (λ task. published_there) (λ text. text)) true held
      (record { changed = []; conflict = false; missing_upstream = true }) Actor.nobody
      (with_rows held) held refl refl

abbrev live : Db
live = record (run_db blank (record linked { state = State.published })) { settings = settings }

-- An advisory that is gone on GitHub and has a live run: its withdrawal raises, and the sweep stops.
sweep_stops :
    (reconcile_ghsa_linked_advisories
      (record github { get_advisory = λ owner repo id. Fetched.gone })
      (syncing github (λ task. published_there) (λ text. text))
      true
      (codes "403")
      Actor.nobody
      live).0
    ≡ some (record { checked = 0; errors = 0; raised = some Error.publication_in_progress })
unfolding reconcile_ghsa_linked_advisories sweep turn continue sync_single_ghsa sync_fetched
    sync_missing react_to_ghsa_state retract withdraw_advisory save_advisory record_action
    record_advisory_version latest_version payload_eq to_payload load_advisory strip is_space
    clear_withdrawal_request_if_pending record_action_note publish publish_gate published_there
sweep_stops = refl
