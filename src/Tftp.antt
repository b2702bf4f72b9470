-- ===== src/Tftp.antt =====
-- internal/tftpserver: requests, transfers and the limits on concurrent work.
pub mod Request
pub mod Requests
pub mod Options
pub mod Acknowledgement
pub mod Exchange
pub mod Exchanges
pub mod Transfer
pub mod Confirmed
pub mod Delivery
pub mod Admission
pub mod Limits
mod Examples
