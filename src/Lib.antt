-- ===== src/Lib.antt =====
-- AdvisoryHub: the life of a security advisory, from triage to publication.
--
-- AdvisoryHub is a Django application in which security teams write advisories, ask for CVE ids,
-- have advisories reviewed, and publish them to a Git repository. What is modelled is its services
-- layer: the functions that check a permission, change rows in one transaction, write the audit
-- ledger and enqueue work, and the predicates that they check.
--
-- The parts, and the files that model them:
--   Prelude         shared names, tables as lists of rows, texts as lists of code points
--   Accounts        users, groups, projects, settings (common/users.py, projects/models.py)
--   Advisory        the Advisory row and its payload (advisories/models.py)
--   Tasks           the other rows (workflows/models.py, publication/models.py, access/models.py)
--   Db              the database, transactions, the ledger (audit/services.py) and the notes that
--                   services leave (comments/services.py); Db/Keeps and Db/Log carry invariants
--   Permissions     advisories/permissions.py: Permissions for resolved_permission, and below it
--                   Rules, Review and Routing for the can_ predicates, each under its name in the
--                   source; Resolution, Visibility and Lifecycle hold theorems
--   Versions        record_advisory_version and latest_version (advisories/services.py)
--   Workflows       workflows/services.py: Cve, Orphan and Review, each service under its name
--   Lifecycle       advisories/services.py: Triage, Requests, Dismissal, Reopen and Edit, each
--                   service under its name; Cascade, Cycle, Reopen/Conflict,
--                   Reopen/Twofold, Reopen/Restored and Edit/Outcome hold theorems
--   Publication     publish and retry (publication/services.py), refresh_for_publish
--                   (ghsa/services.py); Publication/Run is run_publication (publication/tasks.py),
--                   Publication/Reaper is reap_stale_tasks (publication/services.py)
--   Access          grants (access/services.py): Rows for the table, Refine for the map that it
--                   implements; Access/Invitations for invitations, with theorems in Redemption,
--                   Login and Roundtrip
--   Comments        comments/services.py: writing, editing, redacting and listing comments; History
--                   and Runs hold theorems
--   Ghsa            GitHub's advisories: Versions, Packages, Links, Fields and Apply are
--                   ghsa/translator.py; Sync, React, Sweep and Pushes are parts of
--                   ghsa/services.py, and Ecosystems is its table of ecosystem names; Publish puts
--                   the sync under the publication services; Accepted, Versions/Words,
--                   Versions/Meaning, Links/Valid, Fields/Valid, Sync/Written, React/Kept,
--                   Sweep/Counts and Pushes/Badge hold theorems
--   Identifiers     advisory ids (advisories/identifiers.py, advisories/models.py)
--   Documents       exceptions as values; Json, Python's JSON values; Validators, Scores and
--                   Ecosystems, advisories/validators.py; Cve, Cve/Parts, Cve/Metrics and Cve/Build,
--                   publication/cve.py; Cve/Ranges, Cve/Limits, Cve/Conforms, Validators/Accepted,
--                   Validators/Affected, Validators/Read and Accepted hold theorems
--   Tests           the theorems at concrete rows
--
-- How the code is read. A service is a function from a database to a result: a value and the
-- database after it, or an exception, which carries no database, since transaction.atomic rolls
-- back. A service that reads its row under a lock takes the primary key; one that works on the
-- caller's instance takes that instance, which may be stale, and returns the instance as the caller
-- holds it afterwards. save(update_fields=...) writes the named columns of the row. Lists hold the
-- newest row first; primary keys come from one sequence for all tables; a transaction reads one
-- clock. run_publication is not one transaction: it is a function to a status and a database; nor is
-- a push of a CVE id, whose three writes after GitHub's answer are functions of their own. What
-- is enqueued on commit is a message in an outbox. A builder of a document is a function to the
-- document or to an exception, over JSON values whose numbers are naturals; a date stays an
-- instant. Unique constraints are written out where a row is created. Transactions run one after
-- the other, which is what their row locks are for.
--
-- Parameters, for what is outside: what GitHub's client answers, the sync of an advisory where a
-- theorem is about any sync, the text that the rows keep of a JSON value, the export of a version
-- (building, validating and pushing the documents), the redaction of error texts, the text of the
-- reaper's error, the characters that count as decimal digits, the case folding of the database and
-- its order for a query that asks for none, the draws of secrets.choice, str.upper and str.lower, Django's
-- URLValidator, the cvss library and the CWE catalog.
--
-- Bounds: every loop goes over a list, and the search for an advisory id over its retries, of which
-- the source has 8. Numbers are natural numbers; times are in microseconds.
--
-- Not modelled: views, forms, templates, the API, notifications, search, the public intake form, the
-- OSV and CSAF builders, schema validation and serialisation of documents, mentions and markdown,
-- the JSON values of ledger rows, the tokens of invitations, the stored artifacts of a run, and
-- metrics.
pub mod Prelude
pub mod Accounts
pub mod Access
pub mod Advisory
pub mod Tasks
pub mod Comments
pub mod Db
pub mod Documents
pub mod Permissions
pub mod Versions
pub mod Workflows
pub mod Identifiers
pub mod Ghsa
pub mod Lifecycle
pub mod Publication
pub mod Tests
