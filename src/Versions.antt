-- ===== src/Versions.antt =====
-- The version history of an advisory (advisories/services.py, `record_advisory_version` and
-- `latest_version`).
pub mod History
use advisoryhub.Prelude.{
  ℕ, ◌+◌, Bool, ◌==◌, ◌&&◌, Option, none, some, ◌∷◌, select, max_row, if◌then◌else◌,
}
use advisoryhub.Accounts.{Actor, actor_or_none}
use advisoryhub.Advisory.{Advisory, Payload, to_payload, payload_eq}
use advisoryhub.Tasks.{AdvisoryVersion}
use advisoryhub.Db.{Db, M, pure, ◌>>=◌, ◌>>◌, gets, modify, take_pk}

-- `filter(advisory=advisory).order_by("-version").first()`
unfoldable pub latest_version : ℕ → Db → Option AdvisoryVersion
latest_version advisory db =
    max_row (λ v. v.version) (select (λ v. v.advisory == advisory) db.versions)

abbrev pub next_version : Option AdvisoryVersion → ℕ
next_version none = 1
next_version (some v) = v.version + 1

abbrev pub is_unchanged : Option AdvisoryVersion → Payload → Bool
is_unchanged none p = Bool.false
is_unchanged (some v) p = payload_eq v.payload p

-- The payload is that of the advisory as the caller holds it.
unfoldable pub record_advisory_version : Advisory → Actor → Bool → M (Option AdvisoryVersion)
record_advisory_version a editor if_changed = do
  latest ← gets (latest_version a.pk)
  if if_changed && is_unchanged latest (to_payload a) then pure none else do
    pk ← take_pk
    let v : AdvisoryVersion = record {
      pk = pk;
      advisory = a.pk;
      version = next_version latest;
      payload = to_payload a;
      editor = actor_or_none editor;
    }
    modify (λ db. record db { versions = v ∷ db.versions })
    pure (some v)
