-- ===== src/Names.antt =====
-- DNS names: internal/lease/hostname.go and internal/dnsname/name.go.
pub mod Labels
pub mod Hostname
pub mod Record
pub mod Canonical
mod Examples
