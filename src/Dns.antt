-- ===== src/Dns.antt =====
-- internal/dnsserver: the answers from the local zone and from configured records.
pub mod Zone
pub mod Answer
pub mod Wildcards
pub mod Records
pub mod External
pub mod Serving
mod Examples
