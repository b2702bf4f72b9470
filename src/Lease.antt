-- ===== src/Lease.antt =====
-- internal/lease: the lease manager that DHCP and DNS share.
pub mod Address
pub mod State
pub mod Persistence
pub mod Manager
pub mod Offers
pub mod Commits
pub mod Queries
pub mod Invariant
pub mod Grants
pub mod Pool
pub mod Valid
pub mod Steps
pub mod Runs
pub mod Restart
pub mod Start
pub mod Answers
pub mod Renewal
pub mod Effects
pub mod Lookups
mod Examples
