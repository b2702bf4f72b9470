-- ===== src/Ldap.antt =====
-- internal/ldapserver: search filters, searches, binds and the connection that ties them together.
pub mod Packet
pub mod Directory
pub mod Filter
pub mod Evaluation
pub mod Search
pub mod Session
pub mod Kleene
pub mod Blindness
pub mod Results
pub mod Sessions
pub mod Access
mod Examples
