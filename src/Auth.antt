-- ===== src/Auth.antt =====
-- internal/acmeauth: the nonces of signed ACME requests.
pub mod Nonces
pub mod Replay
mod Examples
