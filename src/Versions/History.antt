-- ===== src/Versions/History.antt =====
-- The numbering of an advisory's versions.
use advisoryhub.Prelude.{
  ℕ, ◌≡◌, ◌≢◌, ◌+◌, Bool, true, false, ◌&&◌, Option, none, some, ◌∷◌, arith, Bool-cases,
  Option-cases, inl, inr,
}
use advisoryhub.Accounts.{Actor, actor_or_none}
use advisoryhub.Advisory.{Advisory, to_payload, payload_eq}
use advisoryhub.Tasks.{AdvisoryVersion}
use advisoryhub.Db.{Db, Returns}
use advisoryhub.Versions.{latest_version, record_advisory_version}

-- What recording a version leaves: nothing at all, where none was asked for; else the version that
-- is now the latest.
abbrev pub Recorded : Advisory → Actor → Bool → Db → Option AdvisoryVersion → Db → Type 0
Recorded a by if_changed db none db' =
    (if_changed ≡ true)
    × ((v : AdvisoryVersion) × (latest_version a.pk db ≡ some v)
        × (payload_eq v.payload (to_payload a) ≡ true))
    × (db' ≡ db)
Recorded a by if_changed db (some v) db' =
    (v.payload ≡ to_payload a)
    × (v.advisory ≡ a.pk)
    × (v.editor ≡ actor_or_none by)
    × (latest_version a.pk db ≡ none → v.version ≡ 1)
    × ((l : AdvisoryVersion) → latest_version a.pk db ≡ some l → v.version ≡ l.version + 1)
    × (if_changed ≡ true
        → (l : AdvisoryVersion) → latest_version a.pk db ≡ some l
        → payload_eq l.payload (to_payload a) ≡ false)
    × (db'.versions ≡ v ∷ db.versions)
    × (latest_version a.pk db' ≡ some v)
    × ((k : ℕ) → k ≢ a.pk → latest_version k db' ≡ latest_version k db)

-- Recording a version always returns. It writes nothing just if it was asked for a version only on a
-- change and the latest version holds the advisory's payload. Else it appends one version of the
-- advisory with its payload and the editor, numbered 1 or one more than the latest one, which is the
-- latest from then on, and changes the latest version of no other advisory.
pub record_advisory_version_outcome :
    (a : Advisory) (by : Actor) (if_changed : Bool) (db : Db)
    → Returns (record_advisory_version a by if_changed db) (Recorded a by if_changed db)
unfolding record_advisory_version latest_version
record_advisory_version_outcome a by if_changed db = elim (Option-cases (latest_version a.pk db)) [
  | inl first ↦ ground (arith, first)
  | inr (l, e) ↦ elim (Bool-cases (if_changed && payload_eq l.payload (to_payload a))) [
    | inl same ↦ ground (arith, e, same)
    | inr changed ↦ ground (arith, e, changed)
  ]
]
