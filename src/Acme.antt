-- ===== src/Acme.antt =====
-- internal/acmeserver: accounts, orders, authorizations and certificates, and their limits.
pub mod Limits
pub mod State
pub mod Store
pub mod Accounts
pub mod Orders
pub mod Challenges
pub mod Issuance
pub mod Revocation
pub mod Invariant
pub mod Edits
pub mod Changes
pub mod Pruning
pub mod Ordering
pub mod Rewrites
pub mod Effects
pub mod Keeping
pub mod Handling
pub mod Requests
pub mod Certifying
pub mod Revoking
pub mod Runs
pub mod Settling
pub mod Proven
pub mod Signing
pub mod Proofs
pub mod Histories
pub mod Quota
mod Examples
