-- ===== src/Ghsa.antt =====
-- GitHub security advisories: reading a payload of GitHub's REST API (ghsa/translator.py) and
-- bringing the linked advisory up to date with it (ghsa/services.py).
pub mod Versions
pub mod Packages
pub mod Fields
pub mod Links
pub mod Apply
pub mod Sync
pub mod React
pub mod Sweep
pub mod Pushes
pub mod Accepted
pub mod Publish
pub mod Ecosystems
