-- ===== src/Ntp.antt =====
-- internal/ntpserver: the answer to one request.
pub mod Protocol
pub mod Replies
mod Examples
