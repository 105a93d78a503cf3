-- ===== src/Gateway.antt =====
-- internal/gateway: the authenticated proxy, from its frames up to its session handler.
pub mod Wire
pub mod Datagram
pub mod Server
