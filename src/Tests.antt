-- ===== src/Tests.antt =====
-- The theorems at concrete rows.
mod Access
mod Comments
mod Data
mod Documents
mod Permissions
mod Workflows
mod Identifiers
mod Ghsa
mod Lifecycle
mod Publication
