-- ===== src/Dhcp.antt =====
-- internal/dhcpserver: the handling of one DHCP request.
pub mod Request
pub mod Hostname
pub mod Wire
pub mod Reply
pub mod Handler
pub mod Handling
pub mod Calls
mod Examples
