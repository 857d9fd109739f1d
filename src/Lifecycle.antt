-- ===== src/Lifecycle.antt =====
-- The write-path services of an advisory's life (advisories/services.py). Each takes the primary
-- key, since each reads the row anew under a lock.
pub mod Requests
pub mod Triage
pub mod Dismissal
pub mod Reopen
pub mod Edit
pub mod Cascade
pub mod Cycle
